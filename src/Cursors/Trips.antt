-- ===== src/Cursors/Trips.antt =====
-- The cursors of internal/store/postgres/page.go read back as the positions they were made from.
use Prim.Native.Char.{Char, code}
use Prim.Native.String.append
use Prim.Native.String.len as len_laws
use Prim.Native.String.{String, [] as empty, ◌∷◌ as char_cons, ◌++◌ as str_append, len}
use text.Mathlib.Text.{◌==◌ as str_eq}
use text.Mathlib.TextEquality.{eq_iff}
use text.Mathlib.TextPositions.{len_utf8-pos}
use oc_control_plane.Prelude.{
  ℕ, ◌+◌, ◌≡◌, refl, ap, ◌∙◌, subst, inl, inr, Bool, false, ◌||◌, some, arith, ◌==◌, Bool-cases,
}
use oc_control_plane.Listing.Walk.{cut_prefix-append}
use oc_control_plane.Cursors.{
  Codec, after, colon, cut_colon, split_last, time_mark, sort_mark, encode_cursor, read_time_body,
  decode_cursor, encode_sort_cursor, read_sort_body, decode_sort_cursor, encode_time_sort_cursor,
  decode_time_sort_cursor,
}

unfoldable pub has_colon : String → Bool
has_colon empty = false
has_colon (char_cons c text) = (code c == colon) || has_colon text

-- What encoding/base64 documents: what is written reads back, and only the empty text encodes to
-- the empty text.
pub record IsBase64 (codec : Codec) : Type 0 where
  pub decode-encode : (s : String) → codec.decode (codec.encode s) ≡ some s
  pub encode_filled : (s : String) → str_eq (codec.encode s) "" ≡ str_eq s ""

-- What the uuid package documents of a UUID: it reads back, and its text has 36 bytes.
pub record IsUuid (codec : Codec) (id : ℕ) : Type 0 where
  pub parse_uuid-uuid_text : codec.parse_uuid (codec.uuid_text id) ≡ some id
  pub len-uuid_text : len (codec.uuid_text id) ≡ 36

-- What strconv and time document of a time: its decimal number reads back and has no colon, and
-- its text reads back.
pub record IsTime (codec : Codec) (at : ℕ) : Type 0 where
  pub parse_int-format_int : codec.parse_int (codec.format_int at) ≡ some at
  pub format_int-has_colon : has_colon (codec.format_int at) ≡ false
  pub parse_time-format_time : codec.parse_time (codec.format_time at) ≡ some at

cut_colon-append :
    (s t : String) → has_colon s ≡ false → cut_colon (str_append s (str_append ":" t)) ≡ some (s, t)
unfolding cut_colon has_colon
cut_colon-append empty t h =
    ap cut_colon (append.nil (str_append ":" t))
    ∙ ap cut_colon (append.cons ":" empty t)
    ∙ ap (λ u. some (empty, u)) (append.nil t)
cut_colon-append (char_cons c s) t h =
    ap cut_colon (append.cons c s (str_append ":" t)) ∙ ground (arith, cut_colon-append s t)

len-append : (s t : String) → len (str_append s t) ≡ len s + len t
len-append empty t = ap len (append.nil t) ∙ omega (arith, len_laws.nil)
len-append (char_cons c s) t =
    ap len (append.cons c s t)
    ∙ omega (arith, len_laws.cons c s, len_laws.cons c (str_append s t), len-append s t)

split_last-append : (s t : String) → split_last (len t) (str_append s t) ≡ some (s, t)
unfolding split_last
split_last-append empty empty = refl
split_last-append empty (char_cons c t) =
    ap (split_last (len (char_cons c t))) (append.nil (char_cons c t)) ∙ ground arith
split_last-append (char_cons c s) t =
    let (k, width) = len_utf8-pos c in
    let whole = len_laws.cons c (str_append s t) in
    let parts = len-append s t in
    let longer : split_last (len t) (char_cons c (str_append s t)) ≡ some (char_cons c s, t) =
      ground (arith, split_last-append s t) in
    ap (split_last (len t)) (append.cons c s t) ∙ longer

filled :
    (c : Char) (s t : String) → str_eq (str_append (str_append (char_cons c empty) s) t) "" ≡ false
filled c s t = elim (Bool-cases (str_eq (str_append (str_append (char_cons c empty) s) t) "")) [
  | inr some_there ↦ some_there
  | inl none_there ↦
      cc ((eq_iff (str_append (str_append (char_cons c empty) s) t) "").0 none_there, marked)
]
  where
    marked :
        str_append (str_append (char_cons c empty) s) t
        ≡ char_cons c (str_append (str_append empty s) t)
    marked = ap (λ m. str_append m t) (append.cons c empty s) ∙ append.cons c (str_append empty s) t

module _ (codec : Codec) (base64 : IsBase64 codec) where
  encoded_filled :
      (c : Char) (scope rest : String)
      → str_eq (codec.encode (str_append (str_append (char_cons c empty) scope) rest)) "" ≡ false
  encoded_filled c scope rest =
      base64.encode_filled (str_append (str_append (char_cons c empty) scope) rest)
      ∙ filled c scope rest

  -- A cursor over times reads back as the time and the row it was made from, under the scope it
  -- was made for, where the libraries read back what they write.
  pub decode_cursor-encode_cursor :
      (scope : String) (at id : ℕ)
      → IsTime codec at
      → IsUuid codec id
      → decode_cursor codec (encode_cursor codec scope at id) scope ≡ after (at, id)
  unfolding decode_cursor encode_cursor read_time_body
  decode_cursor-encode_cursor scope at id time uuid =
      let body = str_append (codec.format_int at) (str_append ":" (codec.uuid_text id)) in
      rw
        (
          encoded_filled "@" (str_append scope ":") body,
          base64.decode-encode (str_append (time_mark scope) body),
          cut_prefix-append (time_mark scope) body,
          read_time_body,
          cut_colon-append (codec.format_int at) (codec.uuid_text id) (time.format_int-has_colon),
          time.parse_int-format_int,
          uuid.parse_uuid-uuid_text,
        )
        refl

  -- A cursor over a sorted column reads back as the value and the row it was made from, whatever
  -- the value holds, colons included, where the libraries read back what they write.
  pub decode_sort_cursor-encode_sort_cursor :
      (scope value : String) (id : ℕ)
      → IsUuid codec id
      → decode_sort_cursor codec (encode_sort_cursor codec scope value id) scope ≡ after (value, id)
  unfolding decode_sort_cursor encode_sort_cursor read_sort_body
  decode_sort_cursor-encode_sort_cursor scope value id uuid =
      let body = str_append value (codec.uuid_text id) in
      let split : split_last 36 body ≡ some (value, codec.uuid_text id) =
        subst (λ n. split_last n body ≡ some (value, codec.uuid_text id)) (uuid.len-uuid_text)
          (split_last-append value (codec.uuid_text id)) in
      rw
        (
          encoded_filled "~" (str_append scope ":") body,
          base64.decode-encode (str_append (sort_mark scope) body),
          cut_prefix-append (sort_mark scope) body,
          split,
          read_sort_body,
          uuid.parse_uuid-uuid_text,
        )
        refl

  -- The same of a cursor over a column of times.
  pub decode_time_sort_cursor-encode_time_sort_cursor :
      (scope : String) (at id : ℕ)
      → IsTime codec at
      → IsUuid codec id
      → decode_time_sort_cursor codec (encode_time_sort_cursor codec scope at id) scope
        ≡ after (at, id)
  unfolding decode_time_sort_cursor encode_time_sort_cursor
  decode_time_sort_cursor-encode_time_sort_cursor scope at id time uuid =
      rw
        (
          decode_sort_cursor-encode_sort_cursor scope (codec.format_time at) id uuid,
          decode_time_sort_cursor,
          time.parse_time-format_time,
        )
        refl
