-- ===== src/Json/Scan.antt =====
-- The scans of src/ojson.c: the vectorised string path agrees with the loop, and where scans end.
use omniserve_native.Prelude.{
  ℕ, zero, suc, ◌+◌, ◌-◌, ◌≤◌, ◌<◌, ◌≡◌, sym, ap, ◌∙◌, ◌≢◌, refl, inl, inr, true, false, List, [],
  ◌∷◌, Option, none, some, arith, Bool-cases, Option-cases, ◌==◌, length, take, get_elem?,
}
use omniserve_native.Json.{primitive_end, slow_end, find_byte, string_end, is_none, is_delimiter}

abbrev raised : Option ℕ → Option ℕ
raised none = none
raised (some k) = some (suc k)

find_byte_skip :
    (b c : ℕ) (cs : List ℕ) → (c == b) ≡ false → find_byte b (c ∷ cs) ≡ raised (find_byte b cs)
unfolding find_byte
find_byte_skip b c cs e =
    rw e (elim (Option-cases (find_byte b cs)) [ inl n ↦ rw n | inr (k, s) ↦ rw s ])

raised-suc : (o : Option ℕ) (k : ℕ) → raised o ≡ some (suc k) → o ≡ some k
raised-suc none k e = cc
raised-suc (some j) k e = ground arith

raised_none : (o : Option ℕ) → is_none (raised o) ≡ true → is_none o ≡ true
raised_none none e = refl
raised_none (some k) e = cc

raised_zero : (o : Option ℕ) → raised o ≢ some 0
raised_zero none e = cc
raised_zero (some j) e = ground arith

find_byte_hit : (b c : ℕ) (cs : List ℕ) → (c == b) ≡ true → find_byte b (c ∷ cs) ≡ some 0
unfolding find_byte
find_byte_hit b c cs e = rw e

-- Where no backslash is found before it, the first byte is none and is skipped.
pub no_backslash :
    (c : ℕ) (cs : List ℕ)
    → is_none (find_byte b'\\' (c ∷ cs)) ≡ true
    → ((c == b'\\') ≡ false) × (is_none (find_byte b'\\' cs) ≡ true)
no_backslash c cs h = elim (Bool-cases (c == b'\\')) [
  | inl e ↦ let h' = rw (find_byte_hit b'\\' c cs e) at h in cc
  | inr e ↦ (e, raised_none _ (rw (find_byte_skip b'\\' c cs e) at h))
]

slow_end_plain :
    (c d : ℕ) (cs : List ℕ) (pos : ℕ)
    → (c == b'"') ≡ false
    → (c == b'\\') ≡ false
    → slow_end (c ∷ d ∷ cs) pos ≡ slow_end (d ∷ cs) (pos + 1)
unfolding slow_end
slow_end_plain c d cs pos q b = rw (q, b)

-- A quote with no backslash before it is where the loop ends.
unescaped :
    (bytes : List ℕ) (pos quote : ℕ)
    → find_byte b'"' bytes ≡ some quote
    → is_none (find_byte b'\\' (take quote bytes)) ≡ true
    → slow_end bytes pos ≡ some (pos + quote)
unescaped [] pos quote f n = unfold find_byte in cc
unescaped (c ∷ []) pos quote f n = unfold find_byte slow_end in ground arith
unescaped (c ∷ d ∷ cs) pos zero f n = elim (Bool-cases (c == b'"')) [
  | inl e ↦ unfold slow_end in rw e (ground arith)
  | inr e ↦ absurd (raised_zero _ (rw (find_byte_skip b'"' c (d ∷ cs) e) at f))
]
unescaped (c ∷ d ∷ cs) pos (suc quote) f n = elim (Bool-cases (c == b'"')) [
  | inl e ↦ let f' = rw (find_byte_hit b'"' c (d ∷ cs) e) at f in ground arith
  | inr e ↦
      let (plain, rest) = no_backslash c (take quote (d ∷ cs)) n in
      let found = raised-suc _ quote (rw (find_byte_skip b'"' c (d ∷ cs) e) at f) in
      rw (slow_end_plain c d cs pos e plain)
        (unescaped (d ∷ cs) (pos + 1) quote found rest ∙ ap some (omega arith))
]

-- The vectorised path and the loop find the same closing quote, or both find none.
pub string_end-slow_end : (bytes : List ℕ) (pos : ℕ) → string_end bytes pos ≡ slow_end bytes pos
unfolding string_end
string_end-slow_end bytes pos = elim (Option-cases (find_byte b'"' bytes)) [
  | inl e ↦ rw (e, string_end)
  | inr (quote, e) ↦ elim (Bool-cases (is_none (find_byte b'\\' (take quote bytes)))) [
    | inl n ↦ rw (e, string_end) (rw n (sym (unescaped bytes pos quote e n)))
    | inr n ↦ rw (e, string_end) (rw n)
  ]
]

-- The closing quote lies in the text, at a quote.
pub slow_end_bounds :
    (bytes : List ℕ) (pos : ℕ) {end : ℕ}
    → slow_end bytes pos ≡ some end
    → (pos ≤ end) × (end < pos + length bytes) × (get_elem? bytes (end - pos) ≡ some b'"')
unfolding slow_end
slow_end_bounds [] pos e = cc
slow_end_bounds (c ∷ []) pos e = ground arith
slow_end_bounds (c ∷ d ∷ cs) pos {end} e = elim (Bool-cases (c == b'"')) [
  | inl q ↦ ground arith
  | inr q ↦ elim (Bool-cases (c == b'\\')) [
    | inl b ↦
        let (lo, hi, at) = slow_end_bounds cs (pos + 2) {end = end} (rw (q, b) at e) in
        let off : end - pos ≡ suc (suc (end - (pos + 2))) = omega arith in
        (omega arith, omega arith, rw off at)
    | inr b ↦
        let (lo, hi, at) = slow_end_bounds (d ∷ cs) (pos + 1) {end = end} (rw (q, b) at e) in
        let off : end - pos ≡ suc (end - (pos + 1)) = omega arith in
        (omega arith, omega arith, rw off at)
  ]
]

pub primitive_end_bounds :
    (bytes : List ℕ) (pos : ℕ) {end : ℕ}
    → primitive_end bytes pos ≡ some end
    → (pos ≤ end) × (end ≤ pos + length bytes)
unfolding primitive_end
primitive_end_bounds [] pos e = ground arith
primitive_end_bounds (c ∷ cs) pos {end} e =
    ground (arith, primitive_end_bounds cs (pos + 1) {end = end})

pub primitive_end_moves :
    (c : ℕ) (cs : List ℕ) (pos : ℕ) {end : ℕ}
    → is_delimiter c ≡ false
    → primitive_end (c ∷ cs) pos ≡ some end
    → pos < end
unfolding primitive_end
primitive_end_moves c cs pos {end} d e =
    ground (arith, primitive_end_bounds cs (pos + 1) {end = end})
