-- ===== src/Json/Text/Tests.antt =====
-- Runs of the text functions of src/ojson.c.
use omniserve_native.Prelude.{
  ℕ, ◌+◌, ◌*◌, ◌≤◌, ◌<◌, ◌≡◌, refl, true, List, [], ◌∷◌, ◌++◌, some, codes, length,
}
use omniserve_native.Json.Text.{
  Buffer, size_max, escape, escape_byte, hex_digit, escape_append, grow, strdup,
}
use omniserve_native.Json.Text.RoundTrip.{strdup-escape}
use omniserve_native.Json.Text.Growth.{escape_append-fits}

-- A quote, a line feed and a control byte.
abbrev text : List ℕ
text = 34 ∷ 10 ∷ 1 ∷ 97 ∷ []

-- The same with a zero byte and a letter behind it.
abbrev cut_text : List ℕ
cut_text = 34 ∷ 10 ∷ 1 ∷ 97 ∷ 0 ∷ 98 ∷ []

strdup-escape_example : strdup true (escape cut_text) ≡ some text
strdup-escape_example = strdup-escape cut_text

abbrev grown_buffer : Buffer
grown_buffer = record { bytes = codes "x" ++ escape text; capacity = 256 }

escape_append-fits_example :
    (grown_buffer.bytes ≡ codes "x" ++ escape text)
    × (length grown_buffer.bytes < 256)
    × (1 + 4 * 6 + 8 ≤ size_max)
unfolding escape_append grow escape escape_byte hex_digit
escape_append-fits_example =
    escape_append-fits true (record { bytes = codes "x"; capacity = 0 }) text grown_buffer refl
