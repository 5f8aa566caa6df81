-- ===== src/Listing/Accepted.antt =====
-- What a query that Parse of internal/api/listing/listing.go accepts asks for.
use Prim.Native.String.{String, len}
use text.Mathlib.Text.{◌==◌ as str_eq, starts_with}
use oc_control_plane.Prelude.{
  ℕ, ◌≤◌, ◌≡◌, ◌⊎◌, subst, inl, inr, true, false, not, ◌&&◌, Option, none, some, List, [], ◌∷◌,
  arith, if◌then◌else◌, Bool-cases, Option-cases, All,
}
use oc_control_plane.Listing.Pages.{Atoi, not_a_number, negative, number}
use oc_control_plane.Listing.Query.{
  Sort, Spec, Query, accepted, Values, lists, values_of, get, size_of, limit_from, sort_from,
  sort_for, filters_from, scalar, too_long, parse, after_first, reserved, first_of,
}

-- Within the bounds of every listing, and within what its own specification accepts.
pub record IsAccepted (spec : Spec) (q : Query) : Type 0 where
  pub limit : (1 ≤ q.limit) × (q.limit ≤ 200)
  pub search : len q.search ≤ 256
  pub cursor : len q.cursor ≤ 512
  pub sort : (q.sort ≡ spec.default_sort) ⊎ (lists spec.sortable q.sort.field ≡ true)
  pub filters : All (λ f. lists spec.filters f.0 ≡ true) q.filters

size_of-bounds : (a : Atoi) (limit : ℕ) → size_of a ≡ some limit → (1 ≤ limit) × (limit ≤ 200)
size_of-bounds not_a_number limit h = cc
size_of-bounds (negative n) limit h = cc
size_of-bounds (number n) limit h = (ground arith, ground arith)

limit_from-bounds :
    (atoi : String → Atoi) (asked : Option (List String)) (limit : ℕ)
    → limit_from atoi asked ≡ some limit
    → (1 ≤ limit) × (limit ≤ 200)
unfolding limit_from
limit_from-bounds atoi none limit h = (ground arith, ground arith)
limit_from-bounds atoi (some []) limit h = cc
limit_from-bounds atoi (some (asked ∷ [])) limit h = size_of-bounds (atoi asked) limit h
limit_from-bounds atoi (some (asked ∷ again ∷ more)) limit h = cc

injected {ℓ} : {A : Type ℓ} (a b : A) → some a ≡ some b → a ≡ b
injected a b e = cc

checked_sort :
    (spec : Spec) (asked sort : Sort)
    → (if lists spec.sortable asked.field then some asked else none) ≡ some sort
    → lists spec.sortable sort.field ≡ true
checked_sort spec asked sort h = elim (Bool-cases (lists spec.sortable asked.field)) [
  | inl listed ↦
      subst (λ (s : Sort). lists spec.sortable s.field ≡ true)
        (injected asked sort (rw listed at h)) listed
  | inr unlisted ↦ cc (rw unlisted at h)
]

sort_from-lists :
    (asked : String) (spec : Spec) (sort : Sort)
    → sort_from asked spec ≡ some sort
    → lists spec.sortable sort.field ≡ true
unfolding sort_from
sort_from-lists asked spec sort h =
    checked_sort spec
      (if starts_with asked "-"
        then record { field = after_first asked; descending = true }
        else record { field = asked; descending = false })
      sort h

sort_for-lists :
    (asked : Option (List String)) (spec : Spec) (sort : Sort)
    → sort_for asked spec ≡ some sort
    → (sort ≡ spec.default_sort) ⊎ (lists spec.sortable sort.field ≡ true)
unfolding sort_for
sort_for-lists none spec sort h = inl cc
sort_for-lists (some []) spec sort h = cc
sort_for-lists (some (asked ∷ [])) spec sort h = inr (sort_from-lists asked spec sort h)
sort_for-lists (some (asked ∷ again ∷ more)) spec sort h = cc

filters_from-lists :
    (spec : Spec) (values : Values) (filters : List (String × String))
    → filters_from spec values ≡ some filters
    → All (λ f. lists spec.filters f.0 ≡ true) filters
unfolding filters_from
filters_from-lists spec [] [] h = tt
filters_from-lists spec [] (f ∷ fs) h = cc
filters_from-lists spec ((name, given) ∷ values) filters h =
    elim (Option-cases (filters_from spec values)) [
      | inl bad ↦ cc (rw (bad, filters_from) at h)
      | inr (rest, e) ↦
          let ih = filters_from-lists spec values rest e in
          elim (Bool-cases (lists reserved name)) [
            | inl kept ↦ elim (Bool-cases (str_eq name "search" && not spec.searchable)) [
              | inl wrong ↦ cc (rw (e, kept, wrong, filters_from) at h)
              | inr right ↦
                  subst (All (λ f. lists spec.filters f.0 ≡ true))
                    (injected rest filters (rw (e, kept, right, filters_from) at h)) ih
            ]
            | inr free ↦ elim (Bool-cases (lists spec.filters name)) [
              | inl listed ↦
                  subst (All (λ f. lists spec.filters f.0 ≡ true))
                    (injected ((name, first_of given) ∷ rest) filters
                      (rw (e, free, listed, filters_from) at h))
                    (listed, ih)
              | inr unlisted ↦ cc (rw (e, free, unlisted, filters_from) at h)
            ]
          ]
    ]

accepted_query : (p q : Query) → accepted p ≡ accepted q → p ≡ q
accepted_query p q e = cc

-- A query that is accepted asks for 1 to 200 items, searches and resumes with texts of bounded
-- length, is sorted by the default or by a field that the listing offers, and filters only by names
-- that the listing accepts.
parse-IsAccepted :
    (trim : String → String) (atoi : String → Atoi) (values : Values) (spec : Spec) (q : Query)
    → parse trim atoi values spec ≡ accepted q
    → IsAccepted spec q
unfolding parse
parse-IsAccepted trim atoi values spec q h = elim (Bool-cases (scalar trim atoi values)) [
  | inr bad ↦ cc (rw (bad, parse) at h)
  | inl fine ↦ elim (Option-cases (limit_from atoi (values_of "limit" values))) [
    | inl no_limit ↦ cc (rw (fine, no_limit, parse) at h)
    | inr (limit, e₁) ↦ elim (Bool-cases (too_long trim atoi values)) [
      | inl long ↦ cc (rw (fine, e₁, long, parse) at h)
      | inr short ↦ elim (Option-cases (sort_for (values_of "sort" values) spec)) [
        | inl no_sort ↦ cc (rw (fine, e₁, short, no_sort, parse) at h)
        | inr (sort, e₂) ↦ elim (Option-cases (filters_from spec values)) [
          | inl no_filters ↦ cc (rw (fine, e₁, short, e₂, no_filters, parse) at h)
          | inr (filters, e₃) ↦
              let made : Query = record {
                search = trim (get "search" values);
                sort = sort;
                cursor = get "cursor" values;
                limit = limit;
                filters = filters;
              } in
              subst (IsAccepted spec)
                (accepted_query made q (rw (fine, e₁, short, e₂, e₃, parse) at h))
                (record {
                  limit = limit_from-bounds atoi (values_of "limit" values) limit e₁;
                  search = ground arith;
                  cursor = ground arith;
                  sort = sort_for-lists (values_of "sort" values) spec sort e₂;
                  filters = filters_from-lists spec values filters e₃;
                })
        ]
      ]
    ]
  ]
]
