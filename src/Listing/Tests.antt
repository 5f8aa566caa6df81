-- ===== src/Listing/Tests.antt =====
-- The theorems on listings, at small concrete inputs.
use Prim.Native.String.{String, [] as empty, ◌∷◌ as char_cons}
use oc_control_plane.Prelude.{ℕ, zero, suc, ◌≡◌, refl, ap, true, false, some, List, [], ◌∷◌, arith}
use oc_control_plane.Listing.Pages.{Atoi, not_a_number, number}
use oc_control_plane.Listing.Walk.{walk, walk_collects_all}
use oc_control_plane.Listing.Query.{Sort, Spec, Query, Values}

-- A text stands for itself, and a number for as many letters.
abbrev same : String → String
same s = s

abbrev itoa : ℕ → String
itoa zero = empty
itoa (suc n) = char_cons "a" (itoa n)

abbrev one_more : Atoi → Atoi
one_more (number n) = number (suc n)
one_more _ = not_a_number

abbrev atoi : String → Atoi
atoi empty = number 0
atoi (char_cons c s) = one_more (atoi s)

atoi-itoa : (n : ℕ) → atoi (itoa n) ≡ number n
atoi-itoa zero = refl
atoi-itoa (suc n) = ap one_more (atoi-itoa n)

abbrev items : List ℕ
items = 4 ∷ 5 ∷ 6 ∷ []

walk_collects_all_example : walk same some itoa atoi items "name" 2 4 "" ≡ some items
walk_collects_all_example =
    walk_collects_all same some itoa atoi (λ s. refl) (λ s. refl) atoi-itoa items "name" 2
      (omega arith)

abbrev by_name : Sort
by_name = record { field = "name"; descending = false }

abbrev spec : Spec
spec = record {
  searchable = true;
  sortable = "name" ∷ "created" ∷ [];
  default_sort = by_name;
  filters = "status" ∷ [];
}

abbrev given : Values
given = ("sort", "-created" ∷ []) ∷ ("limit", "aaa" ∷ []) ∷ ("status", "open" ∷ []) ∷ []

abbrev wanted : Query
wanted = record {
  search = "";
  sort = record { field = "created"; descending = true };
  cursor = "";
  limit = 3;
  filters = ("status", "open") ∷ [];
}
