-- ===== src/Json/Text/Growth.antt =====
-- The allocation of `oj_escape_append` in src/ojson.c holds what is written to it.
use omniserve_native.Prelude.{
  ℕ, zero, suc, ◌+◌, ◌-◌, ◌*◌, ◌/◌, ◌^◌, ◌≤◌, ◌<◌, ◌≡◌, ap, refl, subst, Bool, List, ◌++◌, inl, inr,
  some, arith, Bool-cases, if◌then◌else◌, ◌==◌, ltb, length, length-append,
}
use mathlib.Core.Option.{some-injective}
use native.Mathlib.Nat.{pow-suc}
use omniserve_native.Json.Text.{Buffer, size_max, grow, escape, escape_append}
use omniserve_native.Json.Text.RoundTrip.{length-escape}

-- Enough rounds reach any need, and the loop never shrinks the capacity.
grow_enough :
    (fuel ncap needed : ℕ)
    → needed ≤ ncap * 2 ^ fuel
    → (needed ≤ grow fuel ncap needed) × (ncap ≤ grow fuel ncap needed)
unfolding grow
grow_enough zero ncap needed h = omega arith
grow_enough (suc fuel) ncap needed h =
    let double : (ncap * 2) * 2 ^ fuel ≡ ncap * 2 ^ suc fuel =
      omega (arith, ap (λ t. ncap * t) (pow-suc 2 fuel)) in
    ground (arith, grow_enough fuel (ncap * 2) needed (omega (arith, double)))

-- A need that fits the address space is met from any capacity but 0.
grow_from : (ncap needed : ℕ) → 0 < ncap → needed ≤ size_max → needed ≤ grow 65 ncap needed
grow_from ncap needed pos small = (grow_enough 65 ncap needed (omega arith)).0

-- A successful append adds the escaped text and leaves room for the terminator, and the size that
-- it computes does not wrap around.
pub escape_append-fits :
    (alloc : Bool) (b : Buffer) (s : List ℕ) (b' : Buffer)
    → escape_append alloc b s ≡ some b'
    → (b'.bytes ≡ b.bytes ++ escape s)
      × (length b'.bytes < b'.capacity)
      × (length b.bytes + length s * 6 + 8 ≤ size_max)
unfolding escape_append
escape_append-fits alloc b s b' h = elim (Bool-cases (ltb (size_max - 8) (length b.bytes))) [
  | inl e ↦ let h' = rw e at h in cc
  | inr e ↦ elim (Bool-cases (ltb ((size_max - length b.bytes - 8) / 6) (length s))) [
    | inl f ↦ let h' = rw (e, f) at h in cc
    | inr f ↦
        let needed = length b.bytes + length s * 6 + 8 in
        let small : needed ≤ size_max = ground arith in
        let grows =
          grow_from (if b.capacity == 0 then 256 else b.capacity) needed (ground arith) small in
        let written = length-append b.bytes (escape s) in
        let long = (length-escape s).1 in
        elim (Bool-cases (ltb b.capacity needed)) [
          | inl full ↦ elim (Bool-cases alloc) [
            | inl mem ↦
                let h' = rw (e, f, full, mem) at h in
                subst Holds (some-injective _ b' h')
                  (refl, omega (arith, grows, written, long), small)
            | inr no_mem ↦ let h' = rw (e, f, full, no_mem) at h in cc
          ]
          | inr room ↦
              let h' = rw (e, f, room) at h in
              subst Holds (some-injective _ b' h') (refl, ground (arith, written, long), small)
        ]
  ]
]
  where
    Holds : Buffer → Type 0
    Holds r =
        (r.bytes ≡ b.bytes ++ escape s)
        × (length r.bytes < r.capacity)
        × (length b.bytes + length s * 6 + 8 ≤ size_max)
