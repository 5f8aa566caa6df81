-- ===== src/Listing/Query.antt =====
-- internal/api/listing/listing.go: Parse, which reads a list query against what a listing accepts.
-- The values of a URL are an association list with a list of values for each name, in the order
-- that a range over the map takes. strings.TrimSpace and strconv.Atoi are the parameters `trim`
-- and `atoi`; a length is Go's, in bytes.
use Prim.Native.String.{String, [] as empty, ◌∷◌ as char_cons, len}
use text.Mathlib.Text.{◌==◌ as str_eq, starts_with}
use oc_control_plane.Prelude.{
  ℕ, Bool, true, false, not, ◌&&◌, ◌||◌, Option, none, some, List, [], ◌∷◌, ltb, if◌then◌else◌, any,
}
use oc_control_plane.Listing.Pages.{Atoi, number}

abbrev pub default_limit : ℕ
default_limit = 50

abbrev pub max_limit : ℕ
max_limit = 200

abbrev pub max_search_length : ℕ
max_search_length = 256

abbrev pub max_cursor_length : ℕ
max_cursor_length = 512

pub record Sort : Type 0 where
  pub field : String
  pub descending : Bool

pub record Spec : Type 0 where
  pub searchable : Bool
  pub sortable : List String
  pub default_sort : Sort
  pub filters : List String

pub record Query : Type 0 where
  pub search : String
  pub sort : Sort
  pub cursor : String
  pub limit : ℕ
  pub filters : List (String × String)

-- ErrUnknownSort, ErrUnknownFilter, ErrInvalidLimit and ErrInvalidQuery.
pub data ParseError : Type 0 where
  unknown_sort unknown_filter invalid_limit invalid_query : ParseError

pub data Parsed : Type 0 where
  refused : ParseError → Parsed
  accepted : Query → Parsed

abbrev pub Values : Type 0
Values = List (String × List String)

abbrev pub lists : List String → String → Bool
lists values wanted = any (λ v. str_eq v wanted) values

-- `values[name]`, with whether it is present.
unfoldable pub values_of : String → Values → Option (List String)
values_of name [] = none
values_of name ((key, given) ∷ values) =
    let rest = values_of name values in if str_eq key name then some given else rest

-- url.Values.Get: the first value, or the empty text.
unfoldable pub get : String → Values → String
unfolding values_of
get name values = elim (values_of name values) [
  | none ↦ ""
  | some [] ↦ ""
  | some (first ∷ more) ↦ first
]

abbrev pub size_of : Atoi → Option ℕ
size_of (number size) = if ltb size 1 || ltb max_limit size then none else some size
size_of _ = none

-- limitFrom; `none` is ErrInvalidLimit.
unfoldable pub limit_from : (String → Atoi) → Option (List String) → Option ℕ
limit_from atoi none = some default_limit
limit_from atoi (some (asked ∷ [])) = size_of (atoi asked)
limit_from atoi (some _) = none

-- `asked[1:]` after a dash.
abbrev pub after_first : String → String
after_first empty = empty
after_first (char_cons c s) = s

-- sortFrom; `none` is ErrUnknownSort.
unfoldable pub sort_from : String → Spec → Option Sort
sort_from asked spec =
    let sort : Sort =
      if starts_with asked "-"
      then record { field = after_first asked; descending = true }
      else record { field = asked; descending = false } in
    if lists spec.sortable sort.field then some sort else none

-- The sort of a query: the one asked for, or the default.
unfoldable pub sort_for : Option (List String) → Spec → Option Sort
unfolding sort_from
sort_for none spec = some spec.default_sort
sort_for (some (asked ∷ [])) spec = sort_from asked spec
sort_for (some _) spec = none

abbrev pub reserved : List String
reserved = "search" ∷ "sort" ∷ "cursor" ∷ "limit" ∷ []

abbrev pub first_of : List String → String
first_of [] = ""
first_of (first ∷ more) = first

-- The last loop of Parse; `none` is ErrUnknownFilter.
unfoldable pub filters_from : Spec → Values → Option (List (String × String))
filters_from spec [] = some []
filters_from spec ((name, given) ∷ values) = elim (filters_from spec values) [
  | none ↦ none
  | some rest ↦
      if lists reserved name
      then (if str_eq name "search" && not spec.searchable then none else some rest)
      else if lists spec.filters name
      then some ((name, first_of given) ∷ rest)
      else none
]

module _ (trim : String → String) (atoi : String → Atoi) where
  -- The first loop of Parse: every name has one value, which is not blank.
  unfoldable pub scalar : Values → Bool
  scalar [] = true
  scalar ((name, given ∷ []) ∷ values) = not (str_eq (trim given) "") && scalar values
  scalar ((name, given) ∷ values) = false

  abbrev pub too_long : Values → Bool
  too_long values =
      ltb max_search_length (len (trim (get "search" values)))
      || ltb max_cursor_length (len (get "cursor" values))
      || not (str_eq (get "cursor" values) (trim (get "cursor" values)))

  -- Parse.
  unfoldable pub parse : Values → Spec → Parsed
  unfolding scalar limit_from sort_for filters_from
  parse values spec =
      if not (scalar values)
      then refused invalid_query
      else elim (limit_from atoi (values_of "limit" values)) [
        | none ↦ refused invalid_limit
        | some limit ↦
            if too_long values
            then refused invalid_query
            else elim (sort_for (values_of "sort" values) spec) [
              | none ↦ refused unknown_sort
              | some sort ↦ elim (filters_from spec values) [
                | none ↦ refused unknown_filter
                | some filters ↦ accepted (record {
                  search = trim (get "search" values);
                  sort = sort;
                  cursor = get "cursor" values;
                  limit = limit;
                  filters = filters;
                })
              ]
            ]
      ]
