-- ===== src/Listing/Walk.antt =====
-- A client that follows the cursors of internal/api/listing/listing.go.
use Prim.Native.String.append
use Prim.Native.String.{String, [] as empty, ◌∷◌ as char_cons, ◌++◌ as str_append}
use mathlib.Core.Option
use text.Mathlib.Text.{◌==◌ as str_eq}
use text.Mathlib.TextEquality.{eq_iff}
use oc_control_plane.Prelude.{
  ℕ, zero, suc, ◌+◌, ◌≤◌, ◌<◌, ◌≡◌, refl, ap, sym, ◌∙◌, inl, inr, false, Option, none, some, List,
  [], ◌∷◌, ◌++◌, arith, leb, leb→le, if◌then◌else◌, Bool-cases, length, take, drop,
}
use oc_control_plane.Listing.Pages.{
  Atoi, number, cut_prefix, mark, encode_ordinal, decode_ordinal, slice_page,
}

pub cut_prefix-append : (p s : String) → cut_prefix p (str_append p s) ≡ some s
unfolding cut_prefix
cut_prefix-append empty s = ap (cut_prefix empty) (append.nil s)
cut_prefix-append (char_cons c p) s =
    ap (cut_prefix (char_cons c p)) (append.cons c p s) ∙ ground (arith, cut_prefix-append p s)

-- A cursor's text begins with its mark, so it is not empty.
mark-append : (scope digits : String) → str_eq (str_append (mark scope) digits) "" ≡ false
mark-append scope digits = elim (Bool-cases (str_eq (str_append (mark scope) digits) "")) [
  | inr filled ↦ filled
  | inl none_there ↦ cc ((eq_iff (str_append (mark scope) digits) "").0 none_there, marked)
]
  where
    marked :
        str_append (mark scope) digits
        ≡ char_cons "#" (str_append (str_append "" (str_append scope ":")) digits)
    marked =
        ap (λ m. str_append m digits) (append.cons "#" "" (str_append scope ":"))
        ∙ append.cons "#" (str_append "" (str_append scope ":")) digits

shift : (m n : ℕ) → suc m + n ≡ suc (m + n)
shift m n = omega arith

shift_zero : (n : ℕ) → zero + n ≡ n
shift_zero n = omega arith

module _ {ℓ} {A : Type ℓ} where
  drop_nil : (n : ℕ) → drop {A = A} n [] ≡ []
  drop_nil zero = refl
  drop_nil (suc n) = refl

  drop-add : (m n : ℕ) (t : List A) → drop (m + n) t ≡ drop n (drop m t)
  drop-add zero n t = ap (λ k. drop k t) (shift_zero n)
  drop-add (suc m) n [] =
      ap (λ k. drop k []) (shift m n) ∙ drop_nil (suc (m + n)) ∙ sym (drop_nil n)
  drop-add (suc m) n (x ∷ t) = ap (λ k. drop k (x ∷ t)) (shift m n) ∙ drop-add m n t

  take-drop : (n : ℕ) (t : List A) → take n t ++ drop n t ≡ t
  take-drop zero t = refl
  take-drop (suc n) [] = refl
  take-drop (suc n) (x ∷ t) = ap (λ s. x ∷ s) (take-drop n t)

  drop_past : (n : ℕ) (t : List A) → length t ≤ n → drop n t ≡ []
  drop_past zero [] h = refl
  drop_past zero (x ∷ t) h = absurd (omega (arith, h))
  drop_past (suc n) [] h = refl
  drop_past (suc n) (x ∷ t) h = drop_past n t (omega (arith, h))

module _ (encode : String → String) (decode : String → Option String) (itoa : ℕ → String)
    (atoi : String → Atoi) where
  -- The pages that a client collects from a cursor on, as long as it has fuel.
  unfoldable pub walk {ℓ} : {A : Type ℓ} → List A → String → ℕ → ℕ → String → Option (List A)
  walk items scope limit zero cursor = none
  walk items scope limit (suc fuel) cursor =
      elim (slice_page encode decode itoa atoi items scope limit cursor) [
        | none ↦ none
        | some (page, next) ↦
            if str_eq next ""
            then some page
            else Option.map (λ rest. page ++ rest) (walk items scope limit fuel next)
      ]

  module _ (decode-encode : (s : String) → decode (encode s) ≡ some s)
      (encode_empty : (s : String) → str_eq (encode s) "" ≡ str_eq s "")
      (atoi-itoa : (n : ℕ) → atoi (itoa n) ≡ number n) where
    decode_ordinal-encode_ordinal :
        (scope : String) (at : ℕ)
        → decode_ordinal encode decode itoa atoi
            (encode_ordinal encode decode itoa atoi scope at)
            scope
          ≡ some at
    unfolding decode_ordinal encode_ordinal
    decode_ordinal-encode_ordinal scope at =
        rw
          (
            encode_empty (str_append (mark scope) (itoa at)) ∙ mark-append scope (itoa at),
            decode-encode (str_append (mark scope) (itoa at)),
            cut_prefix-append (mark scope) (itoa at),
            atoi-itoa at,
            decode_ordinal,
          )
          refl

    next_cursor :
        (scope : String) (at : ℕ)
        → str_eq (encode_ordinal encode decode itoa atoi scope at) "" ≡ false
    unfolding encode_ordinal
    next_cursor scope at =
        encode_empty (str_append (mark scope) (itoa at)) ∙ mark-append scope (itoa at)

    slice_at {ℓ} :
        {A : Type ℓ} (items : List A) (scope : String) (limit from : ℕ) (cursor : String)
        (page : Option (List A × String))
        → decode_ordinal encode decode itoa atoi cursor scope ≡ some from
        → (if leb (length items) from
            then some ([], "")
            else if leb (length (drop from items)) limit
            then some (drop from items, "")
            else some (
              take limit (drop from items),
              encode_ordinal encode decode itoa atoi scope (from + limit),
            ))
          ≡ page
        → slice_page encode decode itoa atoi items scope limit cursor ≡ page
    unfolding slice_page
    slice_at items scope limit from cursor page h e = rw (h, slice_page) e

    walk_from {ℓ} :
        {A : Type ℓ} (items : List A) (scope : String) (limit fuel from : ℕ) (cursor : String)
        → 1 ≤ limit
        → 1 ≤ fuel
        → decode_ordinal encode decode itoa atoi cursor scope ≡ some from
        → length items < from + fuel
        → walk items scope limit fuel cursor ≡ some (drop from items)
    unfolding walk
    walk_from items scope limit zero from cursor l some_fuel h enough =
        absurd (omega (arith, some_fuel))
    walk_from items scope limit (suc fuel) from cursor l some_fuel h enough =
        elim (Bool-cases (leb (length items) from)) [
          | inl past ↦
              rw (slice_at items scope limit from cursor (some ([], "")) h (rw past refl), walk)
                (ap some (sym (drop_past from items (leb→le (length items) from past))))
          | inr more ↦ elim (Bool-cases (leb (length (drop from items)) limit)) [
            | inl last ↦
                rw
                  (
                    slice_at items scope limit from cursor (some (drop from items, "")) h
                        (rw (more, last) refl),
                    walk,
                  )
                  refl
            | inr full ↦
                let rest : walk items scope limit fuel
                      (encode_ordinal encode decode itoa atoi scope (from + limit))
                    ≡ some (drop (from + limit) items) =
                  walk_from items scope limit fuel (from + limit)
                    (encode_ordinal encode decode itoa atoi scope (from + limit)) l (ground arith)
                    (decode_ordinal-encode_ordinal scope (from + limit))
                    (omega (arith, enough, l)) in
                rw
                  (
                    slice_at items scope limit from cursor
                        (some (
                          take limit (drop from items),
                          encode_ordinal encode decode itoa atoi scope (from + limit),
                        ))
                        h (rw (more, full) refl),
                    walk,
                    next_cursor scope (from + limit),
                    rest,
                  )
                  (ap some (
                    ap (λ s. take limit (drop from items) ++ s) (drop-add from limit items)
                    ∙ take-drop limit (drop from items)))
          ]
        ]

    -- A client that begins without a cursor and follows each page's cursor to the next collects
    -- every item exactly once and in order, in no more pages than there are items and one, where
    -- base64 and decimal numbers read back as what was written and only the empty text encodes
    -- to the empty text.
    pub walk_collects_all {ℓ} :
        {A : Type ℓ} (items : List A) (scope : String) (limit : ℕ)
        → 1 ≤ limit
        → walk items scope limit (suc (length items)) "" ≡ some items
    unfolding decode_ordinal
    walk_collects_all items scope limit l =
        walk_from items scope limit (suc (length items)) 0 "" l (omega arith) refl (omega arith)
