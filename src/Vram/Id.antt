-- ===== src/Vram/Id.antt =====
-- The ids of leases in src/ovram.c: `"lv%llu"` of a counter tells the leases apart.
use omniserve_native.Prelude.{
  ℕ, zero, suc, ◌+◌, ◌-◌, ◌*◌, ◌/◌, ◌%◌, ◌≤◌, ◌<◌, ◌≡◌, refl, sym, ap, ◌∙◌, inl, inr, true, List,
  [], ◌∷◌, ◌++◌, arith, Bool-cases, ltb, ◌==◌, drop,
}
use omniserve_native.Json.Lookup.{same_bytes}
use omniserve_native.Vram.Grant.{digits, lease_id}

-- The number that a text of digits stands for, after `acc`.
abbrev read_from : ℕ → List ℕ → ℕ
read_from acc [] = acc
read_from acc (d ∷ ds) = read_from (acc * 10 + (d - 48)) ds

read_from-snoc :
    (acc : ℕ) (ds : List ℕ) (d : ℕ)
    → read_from acc (ds ++ d ∷ []) ≡ read_from acc ds * 10 + (d - 48)
read_from-snoc acc [] d = refl
read_from-snoc acc (e ∷ ds) d = read_from-snoc (acc * 10 + (e - 48)) ds d

read_from-digits : (fuel n : ℕ) → n < fuel → read_from 0 (digits fuel n) ≡ n
unfolding digits
read_from-digits zero n h = elim h [ ]
read_from-digits (suc fuel) n h = elim (Bool-cases (ltb n 10)) [
  | inl small ↦ rw (small, digits) (omega arith)
  | inr large ↦
      let big : 10 ≤ n = ground arith in
      let rest = read_from-digits fuel (n / 10) (omega arith) in
      rw (large, digits, read_from-snoc 0 (digits fuel (n / 10)) (48 + n % 10))
        (omega (arith, rest))
]

read_id : List ℕ → ℕ
read_id id = read_from 0 (drop 2 id)

-- Two leases with the same id have the same number.
pub lease_id-injective : (m n : ℕ) → lease_id m ≡ lease_id n → m ≡ n
unfolding lease_id read_id
lease_id-injective m n e =
    sym (read_from-digits (suc m) m (omega arith))
    ∙ ap read_id e
    ∙ read_from-digits (suc n) n (omega arith)

pub same_bytes-eq : (xs ys : List ℕ) → same_bytes xs ys ≡ true → xs ≡ ys
unfolding same_bytes
same_bytes-eq [] [] h = refl
same_bytes-eq [] (y ∷ ys) h = cc
same_bytes-eq (x ∷ xs) [] h = cc
same_bytes-eq (x ∷ xs) (y ∷ ys) h = elim (Bool-cases (x == y)) [
  | inl e ↦
      let here : x ≡ y = ground arith in
      let there : same_bytes xs ys ≡ true = rw (e, same_bytes) at h in
      rw (here, same_bytes-eq xs ys there) refl
  | inr e ↦ let k = rw (e, same_bytes) at h in cc
]

pub same_bytes_refl : (xs : List ℕ) → same_bytes xs xs ≡ true
unfolding same_bytes
same_bytes_refl [] = refl
same_bytes_refl (x ∷ xs) =
    let e : (x == x) ≡ true = ground arith in rw (e, same_bytes) (same_bytes_refl xs)
