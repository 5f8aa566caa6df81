-- ===== src/Listing/Pages.antt =====
-- internal/api/listing/listing.go: SlicePage and its cursors. encoding/base64 and strconv, which
-- are not part of the repository's code, are the parameters `encode`, `decode`, `itoa` and `atoi`.
use Prim.Native.Char.{code}
use Prim.Native.String.{String, [] as empty, ◌∷◌ as char_cons, ◌++◌ as str_append}
use text.Mathlib.Text.{◌==◌ as str_eq}
use oc_control_plane.Prelude.{
  ℕ, ◌+◌, Option, none, some, List, [], leb, ◌==◌, if◌then◌else◌, length, take, drop,
}

-- What strconv.Atoi returns: an error, or a number of either sign.
pub data Atoi : Type 0 where
  not_a_number : Atoi
  negative number : ℕ → Atoi

-- strings.CutPrefix, the rest where the text has the prefix.
unfoldable pub cut_prefix : String → String → Option String
cut_prefix empty text = some text
cut_prefix (char_cons c p) empty = none
cut_prefix (char_cons c p) (char_cons d text) =
    let rest = cut_prefix p text in if code c == code d then rest else none

abbrev pub mark : String → String
mark scope = str_append "#" (str_append scope ":")

module _ (encode : String → String) (decode : String → Option String) (itoa : ℕ → String)
    (atoi : String → Atoi) where
  -- encodeOrdinal.
  unfoldable pub encode_ordinal : String → ℕ → String
  encode_ordinal scope at = encode (str_append (mark scope) (itoa at))

  abbrev pub ordinal_of : Atoi → Option ℕ
  ordinal_of (number n) = some n
  ordinal_of _ = none

  -- decodeOrdinal; `none` is ErrBadCursor.
  unfoldable pub decode_ordinal : String → String → Option ℕ
  decode_ordinal cursor scope = if str_eq cursor "" then some 0 else elim (decode cursor) [
    | none ↦ none
    | some raw ↦ elim (cut_prefix (mark scope) raw) [
      | none ↦ none
      | some digits ↦ ordinal_of (atoi digits)
    ]
  ]

  -- SlicePage: the page and the cursor of the next one, empty at the last.
  unfoldable pub slice_page {ℓ} :
      {A : Type ℓ} → List A → String → ℕ → String → Option (List A × String)
  slice_page items scope limit cursor = elim (decode_ordinal cursor scope) [
    | none ↦ none
    | some from ↦
        if leb (length items) from
        then some ([], "")
        else if leb (length (drop from items)) limit
        then some (drop from items, "")
        else some (take limit (drop from items), encode_ordinal scope (from + limit))
  ]
