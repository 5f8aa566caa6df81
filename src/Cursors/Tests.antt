-- ===== src/Cursors/Tests.antt =====
-- Cursors with a small codec.
use text.Mathlib.Text.{◌==◌ as str_eq}
use oc_control_plane.Prelude.{◌≡◌, refl, none, some, if◌then◌else◌}
use oc_control_plane.Cursors.{
  Codec, after, encode_cursor, decode_cursor, encode_sort_cursor, decode_sort_cursor,
}
use oc_control_plane.Cursors.Trips.{
  has_colon, IsBase64, IsUuid, IsTime, decode_cursor-encode_cursor,
  decode_sort_cursor-encode_sort_cursor,
}

-- It knows the time 1200 and the row 7.
abbrev small : Codec
small = record {
  encode = λ s. s;
  decode = λ s. some s;
  format_int = λ n. "1200";
  parse_int = λ s. if str_eq s "1200" then some 1200 else none;
  uuid_text = λ id. "00000000-0000-0000-0000-000000000007";
  parse_uuid = λ s. if str_eq s "00000000-0000-0000-0000-000000000007" then some 7 else none;
  format_time = λ at. "1970-01-01T00:00:00.0000012Z";
  parse_time = λ s. if str_eq s "1970-01-01T00:00:00.0000012Z" then some 1200 else none;
}

small-IsBase64 : IsBase64 small
small-IsBase64 = record { decode-encode = λ s. refl; encode_filled = λ s. refl }

small-IsUuid : IsUuid small 7
small-IsUuid = record { parse_uuid-uuid_text = refl; len-uuid_text = refl }

small-IsTime : IsTime small 1200
small-IsTime = record {
  parse_int-format_int = refl;
  format_int-has_colon = unfold has_colon in refl;
  parse_time-format_time = refl;
}

decode_cursor-encode_cursor_example :
    decode_cursor small (encode_cursor small "startedAt" 1200 7) "startedAt" ≡ after (1200, 7)
decode_cursor-encode_cursor_example =
    decode_cursor-encode_cursor small small-IsBase64 "startedAt" 1200 7 small-IsTime small-IsUuid

decode_sort_cursor-encode_sort_cursor_example :
    decode_sort_cursor small (encode_sort_cursor small "title" "a:b" 7) "title" ≡ after ("a:b", 7)
decode_sort_cursor-encode_sort_cursor_example =
    decode_sort_cursor-encode_sort_cursor small small-IsBase64 "title" "a:b" 7 small-IsUuid
