-- ===== src/Json/Text/RoundTrip.antt =====
-- `oj_unescape` and `oj_strdup` of src/ojson.c undo `oj_escape_append`.
use omniserve_native.Prelude.{
  ℕ, ◌+◌, ◌*◌, ◌/◌, ◌%◌, ◌≤◌, ◌<◌, ◌≡◌, refl, sym, ap, ◌∙◌, ◌⊎◌, inl, inr, true, false, List, [],
  ◌∷◌, ◌++◌, append_assoc, append-nil, some, arith, Bool-cases, ltb, ◌==◌, length, length-append,
  drop, subst,
}
use omniserve_native.Json.{find_byte, is_none}
use omniserve_native.Json.Scan.{no_backslash}
use omniserve_native.Json.Text.{
  c_string, hex_digit, escape_byte, escape, utf8, code_of, simple_escape, unescape_loop, unescape,
  strdup,
}

-- With room, a byte that is no backslash is copied.
plain_step :
    (out_cap c : ℕ) (s out : List ℕ)
    → length out + 4 < out_cap
    → (c == b'\\') ≡ false
    → unescape_loop out_cap (c ∷ s) out ≡ unescape_loop out_cap s (out ++ c ∷ [])
unfolding unescape_loop
plain_step out_cap c [] out room e = ground arith
plain_step out_cap c (a ∷ []) out room e = ground arith
plain_step out_cap c (a ∷ b ∷ []) out room e = ground arith
plain_step out_cap c (a ∷ b ∷ d ∷ []) out room e = ground arith
plain_step out_cap c (a ∷ b ∷ d ∷ f ∷ []) out room e = ground arith
plain_step out_cap c (a ∷ b ∷ d ∷ f ∷ g ∷ s) out room e = ground arith

simple_step :
    (out_cap e : ℕ) (s out : List ℕ)
    → length out + 4 < out_cap
    → (e == b'u') ≡ false
    → unescape_loop out_cap (b'\\' ∷ e ∷ s) out
      ≡ unescape_loop out_cap s (out ++ simple_escape e ∷ [])
unfolding unescape_loop
simple_step out_cap e [] out room h = ground arith
simple_step out_cap e (a ∷ []) out room h = ground arith
simple_step out_cap e (a ∷ b ∷ []) out room h = ground arith
simple_step out_cap e (a ∷ b ∷ d ∷ []) out room h = ground arith
simple_step out_cap e (a ∷ b ∷ d ∷ f ∷ s) out room h = ground arith

unicode_step :
    (out_cap h1 h2 h3 h4 : ℕ) (s out : List ℕ)
    → length out + 4 < out_cap
    → unescape_loop out_cap (b'\\' ∷ b'u' ∷ h1 ∷ h2 ∷ h3 ∷ h4 ∷ s) out
      ≡ unescape_loop out_cap s (out ++ utf8 (code_of h1 h2 h3 h4))
unfolding unescape_loop
unicode_step out_cap h1 h2 h3 h4 s out room = ground arith

-- The four digits of a control character stand for it.
control_code :
    (c : ℕ) → c < 32 → utf8 (code_of b'0' b'0' (hex_digit (c / 16)) (hex_digit (c % 16))) ≡ c ∷ []
unfolding utf8 code_of hex_digit
control_code c h = ground arith

-- The two bytes of a one-letter escape are read back as the byte that they stand for.
letter_step :
    (out_cap c e : ℕ) (s out : List ℕ)
    → length out + 4 < out_cap
    → (e == b'u') ≡ false
    → simple_escape e ≡ c
    → unescape_loop out_cap (b'\\' ∷ e ∷ s) out ≡ unescape_loop out_cap s (out ++ c ∷ [])
letter_step out_cap c e s out room h is =
    simple_step out_cap e s out room h ∙ ap (λ b. unescape_loop out_cap s (out ++ b ∷ [])) is

-- What a byte becomes is read back as that byte.
escape_byte_step :
    (out_cap c : ℕ) (s out : List ℕ)
    → length out + 4 < out_cap
    → unescape_loop out_cap (escape_byte c ++ s) out ≡ unescape_loop out_cap s (out ++ c ∷ [])
unfolding escape_byte simple_escape
escape_byte_step out_cap c s out room = elim (Bool-cases (c == b'"')) [
  | inl q ↦ rw q (letter_step out_cap c b'"' s out room refl (ground arith))
  | inr q ↦ elim (Bool-cases (c == b'\\')) [
    | inl b ↦ rw (q, b) (letter_step out_cap c b'\\' s out room refl (ground arith))
    | inr b ↦ elim (Bool-cases (c == 10)) [
      | inl n ↦ rw (q, b, n) (letter_step out_cap c b'n' s out room refl (ground arith))
      | inr n ↦ elim (Bool-cases (c == 13)) [
        | inl r ↦ rw (q, b, n, r) (letter_step out_cap c b'r' s out room refl (ground arith))
        | inr r ↦ elim (Bool-cases (c == 9)) [
          | inl t ↦ rw (q, b, n, r, t) (letter_step out_cap c b't' s out room refl (ground arith))
          | inr t ↦ elim (Bool-cases (ltb c 32)) [
            | inl small ↦
                rw (q, b, n, r, t, small)
                  (unicode_step out_cap b'0' b'0' (hex_digit (c / 16)) (hex_digit (c % 16)) s out
                      room
                    ∙ ap (λ u. unescape_loop out_cap s (out ++ u)) (control_code c (ground arith)))
            | inr large ↦ rw (q, b, n, r, t, large) (plain_step out_cap c s out room b)
          ]
        ]
      ]
    ]
  ]
]

unescape_loop-escape :
    (out_cap : ℕ) (s out : List ℕ)
    → length out + length s + 3 < out_cap
    → unescape_loop out_cap (escape s) out ≡ out ++ s
unfolding escape
unescape_loop-escape out_cap [] out room = unfold unescape_loop in sym (append-nil out)
unescape_loop-escape out_cap (c ∷ s) out room =
    escape_byte_step out_cap c (escape s) out (omega arith)
    ∙ unescape_loop-escape out_cap s (out ++ c ∷ []) (omega (arith, length-append out (c ∷ [])))
    ∙ append_assoc out (c ∷ []) s

length-escape_byte : (c : ℕ) → (0 < length (escape_byte c)) × (length (escape_byte c) ≤ 6)
unfolding escape_byte
length-escape_byte c = ground arith

-- Escaping makes a text no shorter, and at most six times as long.
pub length-escape :
    (s : List ℕ) → (length s ≤ length (escape s)) × (length (escape s) ≤ length s * 6)
unfolding escape
length-escape [] = (omega arith, omega arith)
length-escape (c ∷ s) =
    let (lo, hi) = length-escape s in
    let (lo', hi') = length-escape_byte c in
    let both = length-append (escape_byte c) (escape s) in
    (omega (arith, both), omega (arith, both))

-- With room for the text and four bytes more, unescaping undoes escaping, for every byte string.
pub unescape-escape :
    (s : List ℕ) (out_cap : ℕ) → length s + 3 < out_cap → unescape out_cap (escape s) ≡ s
unfolding unescape
unescape-escape s out_cap room = unescape_loop-escape out_cap s [] (omega arith)

escape_byte_cases :
    (c : ℕ)
    → ((escape_byte c ≡ c ∷ []) × ((c == b'\\') ≡ false))
      ⊎ (escape_byte c ≡ b'\\' ∷ drop 1 (escape_byte c))
unfolding escape_byte
escape_byte_cases c = ground arith

-- Text that escaping leaves without a backslash was not changed by it.
escape_plain : (s : List ℕ) → is_none (find_byte b'\\' (escape s)) ≡ true → escape s ≡ s
unfolding escape
escape_plain [] h = refl
escape_plain (c ∷ s) h = elim (escape_byte_cases c) [
  | inl (same, other) ↦
      let h' = rw same at h in
      rw same (ap (◌∷◌ c) (escape_plain s (no_backslash c (escape s) h').1))
  | inr slash ↦
      let h' = subst (λ b. is_none (find_byte b'\\' (b ++ escape s)) ≡ true) slash h in
      absurd (ground (arith, (no_backslash b'\\' (drop 1 (escape_byte c) ++ escape s) h').0))
]

-- `oj_strdup` gives back what was escaped, whichever of its two paths it takes, up to its first zero
-- byte, where a C string ends.
pub strdup-escape : (s : List ℕ) → strdup true (escape s) ≡ some (c_string s)
unfolding strdup
strdup-escape s = elim (Bool-cases (is_none (find_byte b'\\' (escape s)))) [
  | inl e ↦ rw e (ap (λ x. some (c_string x)) (escape_plain s e))
  | inr e ↦ rw e (
      ap (λ x. some (c_string x))
        (unescape-escape s (length (escape s) * 3 + 4) (omega (arith, length-escape s))))
]
