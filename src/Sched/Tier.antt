-- ===== src/Sched/Tier.antt =====
-- Tier names of src/osched.c: `otier_parse`, `otier_parse_public` and `otier_name`. A text is the
-- list of its `len` bytes; a null pointer is the empty text.
use omniserve_native.Prelude.{
  ℕ, suc, ◌+◌, ◌≤◌, ◌≡◌, ◌≢◌, refl, ◌⊎◌, Bool, true, false, ◌&&◌, List, [], ◌∷◌, map, arith, leb,
  length, length-map, if◌then◌else◌, ◌==◌, codes, zero,
}
use omniserve_native.Sched.{tier_paid, tier_sub, tier_free, tier_background}

-- `tolower` in the C locale.
unfoldable pub lower : ℕ → ℕ
lower c = if leb b'A' c && leb c b'Z' then c + 32 else c

-- `strncasecmp(value, name, n) == 0` for a text and a name of n bytes.
pub same_letters : List ℕ → List ℕ → Bool
unfolding lower
same_letters [] [] = true
same_letters [] (d ∷ name) = false
same_letters (c ∷ value) [] = false
same_letters (c ∷ value) (d ∷ name) = lower c == lower d && same_letters value name

pub parse : List ℕ → ℕ
unfolding same_letters
parse value =
    if length value == 0
    then tier_free
    else if length value == 4 && same_letters value (codes "paid")
    then tier_paid
    else if length value == 3 && same_letters value (codes "sub")
    then tier_sub
    else if length value == 10 && same_letters value (codes "background")
    then tier_background
    else tier_free

pub parse_public : List ℕ → ℕ
unfolding parse
parse_public value = if parse value == tier_background then tier_free else parse value

pub name : ℕ → List ℕ
name t =
    if t == tier_paid
    then codes "paid"
    else if t == tier_sub
    then codes "sub"
    else if t == tier_free
    then codes "free"
    else codes "background"

pub lower_idem : (c : ℕ) → lower (lower c) ≡ lower c
unfolding lower
lower_idem c = ground arith

same_letters-map : (s t : List ℕ) → same_letters (map lower s) t ≡ same_letters s t
unfolding same_letters
same_letters-map [] [] = refl
same_letters-map [] (d ∷ t) = refl
same_letters-map (c ∷ s) [] = refl
same_letters-map (c ∷ s) (d ∷ t) = unfold lower in rw (lower_idem c, same_letters-map s t)

parse-map : (s : List ℕ) → parse (map lower s) ≡ parse s
unfolding parse
parse-map s = rw (length-map s lower) (
    rw (same_letters-map s (codes "paid"))
      (rw (same_letters-map s (codes "sub")) (rw (same_letters-map s (codes "background")) refl)))

-- The name of each tier is read back.
pub parse-name : (t : ℕ) → t ≤ tier_background → parse (name t) ≡ t
unfolding parse name
parse-name zero h = refl
parse-name (suc zero) h = refl
parse-name (suc (suc zero)) h = refl
parse-name (suc (suc (suc zero))) h = refl
parse-name (suc (suc (suc (suc t)))) h = absurd (omega arith)

public_cases :
    (t : ℕ)
    → ((if t == tier_background then tier_free else t) ≢ tier_background)
      × ((t ≡ tier_background) ⊎ ((if t == tier_background then tier_free else t) ≡ t))
public_cases t = (ground arith, ground arith)

-- The case of the letters does not matter, and no text can ask for background through
-- `parse_public`, which reads every other tier as `parse` does.
pub parse_public_lem :
    (s : List ℕ)
    → (parse (map lower s) ≡ parse s)
      × (parse_public s ≢ tier_background)
      × ((parse s ≡ tier_background) ⊎ (parse_public s ≡ parse s))
unfolding parse_public
parse_public_lem s = (parse-map s, (public_cases (parse s)).0, (public_cases (parse s)).1)
