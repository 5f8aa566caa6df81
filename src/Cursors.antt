-- ===== src/Cursors.antt =====
-- internal/store/postgres/page.go: the cursors that the store's pages end in. encoding/base64,
-- strconv, github.com/google/uuid and time are not part of the repository's code; they are the
-- fields of `Codec`. A time is its nanoseconds since the epoch.
use Prim.Native.Char.{code}
use Prim.Native.String.{String, [] as empty, ◌∷◌ as char_cons, ◌++◌ as str_append, len}
use text.Mathlib.Text.{◌==◌ as str_eq}
use oc_control_plane.Prelude.{
  ℕ, zero, suc, Bool, true, false, Option, none, some, leb, min, ◌==◌, if◌then◌else◌,
}
use oc_control_plane.Prelude.Integers.{ℤ, pos, negsuc}
use oc_control_plane.Listing.Pages.{cut_prefix}
pub mod Trips
pub mod Tests

pub record Codec : Type 0 where
  pub encode : String → String
  pub decode : String → Option String
  pub format_int : ℕ → String
  pub parse_int : String → Option ℕ
  pub uuid_text : ℕ → String
  pub parse_uuid : String → Option ℕ
  pub format_time : ℕ → String
  pub parse_time : String → Option ℕ

-- A cursor that was read: none, where the text is empty, or a position. Errors are ErrBadCursor.
pub data Position {ℓ} (A : Type ℓ) : Type ℓ where
  bad_cursor start : Position A
  after : A → Position A

-- pageLimit.
unfoldable pub page_limit : ℤ → ℕ
page_limit (pos zero) = 50
page_limit (pos (suc n)) = min (suc n) 200
page_limit (negsuc n) = 50

-- sortScope.
unfoldable pub sort_scope : String → Bool → String
sort_scope field true = str_append "-" field
sort_scope field false = field

abbrev pub colon : ℕ
colon = 58

abbrev pub with_head {ℓ} :
    {C : Type ℓ} → (String → String) → Option (String × C) → Option (String × C)
with_head f none = none
with_head f (some (head, rest)) = some (f head, rest)

-- `strings.Cut(text, ":")`, where the text has a colon.
unfoldable pub cut_colon : String → Option (String × String)
cut_colon empty = none
cut_colon (char_cons c text) =
    let rest = with_head (char_cons c) (cut_colon text) in
    if code c == colon then some (empty, text) else rest

-- `text[:len(text)-n]` and `text[len(text)-n:]`. It is `none` where the text is shorter, and where
-- the cut would fall inside a character, whose second half uuid.Parse does not read.
unfoldable pub split_last : ℕ → String → Option (String × String)
split_last n empty = if n == 0 then some (empty, empty) else none
split_last n (char_cons c text) =
    let rest = with_head (char_cons c) (split_last n text) in
    if len (char_cons c text) == n then some (empty, char_cons c text) else rest

abbrev pub time_mark : String → String
time_mark scope = str_append "@" (str_append scope ":")

abbrev pub sort_mark : String → String
sort_mark scope = str_append "~" (str_append scope ":")

module _ (codec : Codec) where
  -- encodeCursor.
  unfoldable pub encode_cursor : String → ℕ → ℕ → String
  encode_cursor scope at id = codec.encode (
      str_append (time_mark scope)
        (str_append (codec.format_int at) (str_append ":" (codec.uuid_text id))))

  unfoldable pub read_time_body : String → Position (ℕ × ℕ)
  read_time_body body = elim (cut_colon body) [
    | none ↦ bad_cursor
    | some (nanos, identifier) ↦ elim (codec.parse_int nanos) [
      | none ↦ bad_cursor
      | some at ↦ elim (codec.parse_uuid identifier) [
        | none ↦ bad_cursor
        | some id ↦ after (at, id)
      ]
    ]
  ]

  -- decodeCursor.
  unfoldable pub decode_cursor : String → String → Position (ℕ × ℕ)
  decode_cursor cursor scope = if str_eq cursor "" then start else elim (codec.decode cursor) [
    | none ↦ bad_cursor
    | some raw ↦ elim (cut_prefix (time_mark scope) raw) [
      | none ↦ bad_cursor
      | some body ↦ read_time_body body
    ]
  ]

  -- encodeSortCursor.
  unfoldable pub encode_sort_cursor : String → String → ℕ → String
  encode_sort_cursor scope value id =
      codec.encode (str_append (sort_mark scope) (str_append value (codec.uuid_text id)))

  unfoldable pub read_sort_body : String → Position (String × ℕ)
  read_sort_body body = elim (split_last 36 body) [
    | none ↦ bad_cursor
    | some (value, identifier) ↦ elim (codec.parse_uuid identifier) [
      | none ↦ bad_cursor
      | some id ↦ after (value, id)
    ]
  ]

  -- decodeSortCursor.
  unfoldable pub decode_sort_cursor : String → String → Position (String × ℕ)
  decode_sort_cursor cursor scope = if str_eq cursor "" then start else elim (codec.decode cursor) [
    | none ↦ bad_cursor
    | some raw ↦ elim (cut_prefix (sort_mark scope) raw) [
      | none ↦ bad_cursor
      | some body ↦ read_sort_body body
    ]
  ]

  -- encodeTimeSortCursor.
  unfoldable pub encode_time_sort_cursor : String → ℕ → ℕ → String
  encode_time_sort_cursor scope at id = encode_sort_cursor scope (codec.format_time at) id

  -- decodeTimeSortCursor.
  unfoldable pub decode_time_sort_cursor : String → String → Position (ℕ × ℕ)
  decode_time_sort_cursor cursor scope = elim (decode_sort_cursor cursor scope) [
    | bad_cursor ↦ bad_cursor
    | start ↦ start
    | after (value, id) ↦ elim (codec.parse_time value) [
      | none ↦ bad_cursor
      | some at ↦ after (at, id)
    ]
  ]
