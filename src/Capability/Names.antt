-- ===== src/Capability/Names.antt =====
-- The patterns of internal/relay/capability/capability.go that Kubernetes names are matched with.
-- The two dns1123 patterns are run as the automaton of their regular expression; a length is Go's,
-- in bytes.
use Prim.Native.String.{String, [], ◌∷◌, len}
use Prim.Native.Char.{code}
use oc_control_plane.Prelude.{
  ℕ, ◌≡◌, Bool, true, false, not, ◌&&◌, ◌||◌, arith, ltb, leb, ◌==◌, if◌then◌else◌,
}

-- `[a-z0-9]`.
abbrev pub is_alphanumeric : ℕ → Bool
is_alphanumeric c = (leb 97 c && leb c 122) || (leb 48 c && leb c 57)

abbrev pub is_dash : ℕ → Bool
is_dash c = c == 45

abbrev pub is_dot : ℕ → Bool
is_dot c = c == 46

-- Where the automaton stands in a label: before it, after one of its letters or digits, after one
-- of its dashes.
pub data Position : Type 0 where
  before inside after_dash : Position

abbrev is_inside : Position → Bool
is_inside inside = true
is_inside _ = false

abbrev is_before : Position → Bool
is_before before = true
is_before _ = false

-- dns1123Label: `^[a-z0-9]([-a-z0-9]*[a-z0-9])?$`.
unfoldable pub match_label : Position → String → Bool
match_label p [] = is_inside p
match_label p (c ∷ s) =
    let letter = match_label inside s in
    let dash = match_label after_dash s in
    if is_alphanumeric (code c)
    then letter
    else if is_dash (code c) && not (is_before p)
    then dash
    else false

-- dns1123Subdomain: labels, with a dot between two.
unfoldable pub match_subdomain : Position → String → Bool
match_subdomain p [] = is_inside p
match_subdomain p (c ∷ s) =
    let letter = match_subdomain inside s in
    let dash = match_subdomain after_dash s in
    let dot = match_subdomain before s in
    if is_alphanumeric (code c)
    then letter
    else if is_dash (code c) && not (is_before p)
    then dash
    else if is_dot (code c) && is_inside p
    then dot
    else false

abbrev is_letter : ℕ → Bool
is_letter c = (leb 97 c && leb c 122) || (leb 65 c && leb c 90)

abbrev is_digit : ℕ → Bool
is_digit c = leb 48 c && leb c 57

-- `[A-Za-z0-9]*`.
unfoldable pub all_kind : String → Bool
all_kind [] = true
all_kind (c ∷ s) = (is_letter (code c) || is_digit (code c)) && all_kind s

-- kindLiteral: `^[A-Za-z][A-Za-z0-9]*$`.
unfoldable pub match_kind : String → Bool
unfolding all_kind
match_kind [] = false
match_kind (c ∷ s) = is_letter (code c) && all_kind s

-- `[a-zA-Z0-9-]*`.
unfoldable pub all_uid : String → Bool
all_uid [] = true
all_uid (c ∷ s) = (is_letter (code c) || is_digit (code c) || is_dash (code c)) && all_uid s

-- uidLiteral: `^[a-zA-Z0-9-]+$`.
unfoldable pub match_uid : String → Bool
unfolding all_uid
match_uid [] = false
match_uid (c ∷ s) = all_uid (c ∷ s)

-- validNamespace.
unfoldable pub valid_namespace : String → Bool
unfolding match_label
valid_namespace value = ltb 0 (len value) && leb (len value) 63 && match_label before value

-- validObjectName.
unfoldable pub valid_object_name : String → Bool
unfolding match_subdomain
valid_object_name value = ltb 0 (len value) && leb (len value) 253 && match_subdomain before value

match_label-subdomain :
    (p : Position) (s : String) → match_label p s ≡ true → match_subdomain p s ≡ true
unfolding match_label match_subdomain
match_label-subdomain p [] h = h
match_label-subdomain p (c ∷ s) h =
    ground (arith, match_label-subdomain inside s, match_label-subdomain after_dash s)

-- Whatever is a namespace is an object name as well.
pub namespace_is_object_name :
    (value : String) → valid_namespace value ≡ true → valid_object_name value ≡ true
unfolding valid_namespace valid_object_name
namespace_is_object_name value h = ground (arith, match_label-subdomain before value)
