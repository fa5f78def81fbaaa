-- ===== src/Json/Text.antt =====
-- JSON text of src/ojson.c: `oj_escape_append`, `oj_unescape`, `oj_strdup`, and the primitives.
pub mod RoundTrip
pub mod Growth
mod Tests
use omniserve_native.Prelude.{
  ℕ, zero, suc, ◌+◌, ◌-◌, ◌*◌, ◌/◌, ◌%◌, ◌^◌, ◌≡◌, refl, Bool, true, false, ◌&&◌, ◌||◌, List, [],
  ◌∷◌, ◌++◌, Option, none, some, ltb, leb, ◌==◌, if◌then◌else◌, length, not,
}
use omniserve_native.Json.{find_byte, is_none}

-- A digit of `%04x`.
pub hex_digit : ℕ → ℕ
hex_digit d = if ltb d 10 then b'0' + d else b'a' + (d - 10)

-- What one byte becomes.
pub escape_byte : ℕ → List ℕ
unfolding hex_digit
escape_byte c =
    if c == b'"'
    then b'\\' ∷ b'"' ∷ []
    else if c == b'\\'
    then b'\\' ∷ b'\\' ∷ []
    else if c == 10
    then b'\\' ∷ b'n' ∷ []
    else if c == 13
    then b'\\' ∷ b'r' ∷ []
    else if c == 9
    then b'\\' ∷ b't' ∷ []
    else if ltb c 32
    then b'\\' ∷ b'u' ∷ b'0' ∷ b'0' ∷ hex_digit (c / 16) ∷ hex_digit (c % 16) ∷ []
    else c ∷ []

pub escape : List ℕ → List ℕ
unfolding escape_byte
escape [] = []
escape (c ∷ s) = escape_byte c ++ escape s

abbrev pub size_max : ℕ
size_max = 2 ^ 64 - 1

-- The doubling loop of `oj_escape_append`.
pub grow : ℕ → ℕ → ℕ → ℕ
grow zero ncap needed = ncap
grow (suc fuel) ncap needed =
    let doubled = grow fuel (ncap * 2) needed in
    if ltb ncap needed then (if ltb (size_max / 2) ncap then needed else doubled) else ncap

-- The buffer: the bytes written and the capacity of its allocation.
pub record Buffer : Type 0 where
  pub bytes : List ℕ
  pub capacity : ℕ

-- `oj_escape_append`: `alloc` is whether `realloc` gives memory. 65 rounds of the loop are enough.
pub escape_append : Bool → Buffer → List ℕ → Option Buffer
escape_append alloc b s =
    let len = length b.bytes in
    let slen = length s in
    let needed = len + slen * 6 + 8 in
    let wide = grow 65 (if b.capacity == 0 then 256 else b.capacity) needed in
    if ltb (size_max - 8) len
    then none
    else if ltb ((size_max - len - 8) / 6) slen
    then none
    else if ltb b.capacity needed
    then (if alloc then some (record { bytes = b.bytes ++ escape s; capacity = wide }) else none)
    else some (record b { bytes = b.bytes ++ escape s })

-- The value of a hexadecimal digit; any other byte adds nothing.
pub hex_value : ℕ → ℕ
hex_value h =
    if leb b'0' h && leb h b'9'
    then h - b'0'
    else if leb b'a' h && leb h b'f'
    then h - b'a' + 10
    else if leb b'A' h && leb h b'F'
    then h - b'A' + 10
    else 0

-- The bytes written for the code point of a `\u` escape.
pub utf8 : ℕ → List ℕ
utf8 code =
    if ltb code 0x80
    then code ∷ []
    else if ltb code 0x800
    then (0xC0 + code / 64) ∷ (0x80 + code % 64) ∷ []
    else (0xE0 + code / 4096) ∷ (0x80 + code / 64 % 64) ∷ (0x80 + code % 64) ∷ []

-- `code` after the four digits.
pub code_of : ℕ → ℕ → ℕ → ℕ → ℕ
unfolding hex_value
code_of h1 h2 h3 h4 = ((hex_value h1 * 16 + hex_value h2) * 16 + hex_value h3) * 16 + hex_value h4

-- A one-letter escape.
pub simple_escape : ℕ → ℕ
simple_escape e =
    if e == b'n'
    then 10
    else if e == b't'
    then 9
    else if e == b'r'
    then 13
    else if e == b'b'
    then 8
    else if e == b'f'
    then 12
    else e

-- The loop of `oj_unescape` on the bytes left of the token; `out` is what is written so far. A `\\u`
-- with fewer than four bytes behind it writes nothing.
unfoldable pub unescape_loop : ℕ → List ℕ → List ℕ → List ℕ
unfolding utf8 code_of simple_escape
unescape_loop out_cap [] out = out
unescape_loop out_cap (c ∷ []) out = if ltb (length out + 4) out_cap then out ++ c ∷ [] else out
unescape_loop out_cap (c ∷ e ∷ h1 ∷ h2 ∷ h3 ∷ h4 ∷ s) out =
    let unicode = unescape_loop out_cap s (out ++ utf8 (code_of h1 h2 h3 h4)) in
    let simple = unescape_loop out_cap (h1 ∷ h2 ∷ h3 ∷ h4 ∷ s) (out ++ simple_escape e ∷ []) in
    let plain = unescape_loop out_cap (e ∷ h1 ∷ h2 ∷ h3 ∷ h4 ∷ s) (out ++ c ∷ []) in
    if ltb (length out + 4) out_cap
    then (if c == b'\\' then (if e == b'u' then unicode else simple) else plain)
    else out
unescape_loop out_cap (c ∷ e ∷ s) out =
    let truncated = unescape_loop out_cap s out in
    let simple = unescape_loop out_cap s (out ++ simple_escape e ∷ []) in
    let plain = unescape_loop out_cap (e ∷ s) (out ++ c ∷ []) in
    if ltb (length out + 4) out_cap
    then (if c == b'\\' then (if e == b'u' then truncated else simple) else plain)
    else out

unfoldable pub unescape : ℕ → List ℕ → List ℕ
unfolding unescape_loop
unescape out_cap s = unescape_loop out_cap s []

-- What a C function sees of the bytes in an array.
abbrev pub c_string : List ℕ → List ℕ
c_string [] = []
c_string (c ∷ s) = if c == 0 then [] else c ∷ c_string s

-- `oj_strdup`: `alloc` is whether `malloc` gives memory. The caller gets no
-- length, so the text ends for it before the first NUL.
pub strdup : Bool → List ℕ → Option (List ℕ)
unfolding unescape
strdup alloc s =
    if not alloc
    then none
    else if is_none (find_byte b'\\' s)
    then some (c_string s)
    else some (c_string (unescape (length s * 3 + 4) s))
