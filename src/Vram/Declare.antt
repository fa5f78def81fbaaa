-- ===== src/Vram/Declare.antt =====
-- `ovram_reserve` of src/ovram.c: what a tenant has declared, and the sum of it.
use omniserve_native.Prelude.{
  ℕ, zero, suc, ◌+◌, ◌<◌, ◌≤◌, ◌≡◌, refl, ap, ◌∙◌, ◌⊎◌, inl, inr, Bool, true, false, not, ◌&&◌,
  List, [], ◌∷◌, Option, none, some, arith, Bool-cases, Option-cases, if◌then◌else◌, get_elem?, set,
  take, length, length-take, All,
}
use mathlib.Core.Option.{some-injective}
use omniserve_native.Prelude.Int.{pos, ltb_ℤ}
use omniserve_native.Floats.{DoubleOps}
use omniserve_native.Json.Lookup.{same_bytes}
use omniserve_native.Vram.{Reservation, Vram, is_none, owner_name, or_else}
use omniserve_native.Vram.Tables.{
  active_mb, reserved_from, reserved_mb_locked, reserve_scan, reserve,
}
use omniserve_native.Vram.Id.{same_bytes-eq, same_bytes_refl}

abbrev matches : List ℕ → Reservation → Bool
matches owner r = r.active && same_bytes r.owner owner

-- What the owner has declared: the first active entry with its name.
abbrev pub declared : List Reservation → List ℕ → Option ℕ
declared [] owner = none
declared (r ∷ rs) owner = if matches owner r then some r.mb else declared rs owner

reserved_from-set :
    (F : DoubleOps) (rs : List Reservation) (i : ℕ) (x y : Reservation)
    → get_elem? rs i ≡ some x
    → reserved_from F (set rs i y) + active_mb F x ≡ reserved_from F rs + active_mb F y
unfolding reserved_from
reserved_from-set F [] i x y e = cc
reserved_from-set F (r ∷ rs) zero x y e =
    let same : active_mb F r ≡ active_mb F x = ap (active_mb F) (some-injective r x e) in
    omega (arith, same)
reserved_from-set F (r ∷ rs) (suc i) x y e = omega (arith, reserved_from-set F rs i x y e)

-- A slot that does not come after a matching one.
abbrev Leads : List Reservation → List ℕ → ℕ → Type 0
Leads rs owner j =
    (y : Reservation) → matches owner y ≡ true → declared (set rs j y) owner ≡ some y.mb

Leads-unmatched :
    (rs : List Reservation) (owner : List ℕ) (j : ℕ) (x : Reservation)
    → declared rs owner ≡ none
    → get_elem? rs j ≡ some x
    → Leads rs owner j
Leads-unmatched [] owner j x d e y on = cc
Leads-unmatched (r ∷ rs) owner zero x d e y on = rw on refl
Leads-unmatched (r ∷ rs) owner (suc j) x d e y on = elim (Bool-cases (matches owner r)) [
  | inl m ↦ let some_mb = rw m at d in cc
  | inr m ↦ rw m (Leads-unmatched rs owner j x (rw m at d) e y on)
]

-- The slot that the scan finds is the owner's, or a free one if the owner has none.
abbrev Found : List Reservation → ℕ → List ℕ → Option ℕ → ℕ → Type 0
Found rs i owner slot k =
    ((j : ℕ) × (r : Reservation) × (k ≡ i + j)
      × (get_elem? rs j ≡ some r)
      × (r.active ≡ true)
      × (declared rs owner ≡ some r.mb)
      × Leads rs owner j)
    ⊎ ((declared rs owner ≡ none)
        × ((slot ≡ some k)
            ⊎ ((j : ℕ) × (r : Reservation) × (k ≡ i + j)
                × (get_elem? rs j ≡ some r)
                × (r.active ≡ false))))

reserve_scan-Found :
    (F : DoubleOps) (rs : List Reservation) (i : ℕ) (owner : List ℕ) (slot : Option ℕ) (k : ℕ)
    → reserve_scan F rs i owner slot ≡ some k
    → Found rs i owner slot k
unfolding reserve_scan
reserve_scan-Found F [] i owner slot k e = inr (refl, inl e)
reserve_scan-Found F (r ∷ rs) i owner slot k e = elim (Bool-cases (matches owner r)) [
  | inl m ↦
      let at : some i ≡ some k = rw (m, reserve_scan) at e in
      let is : i ≡ k = some-injective i k at in
      inl (0, r, omega (arith, is), refl, ground (arith, m), rw m refl, (λ y on. rw on refl))
  | inr m ↦
      elim (reserve_scan-Found F rs (i + 1) owner
        (if is_none slot && not r.active then some i else slot) k (rw (m, reserve_scan) at e)) [
          | inl (j, x, is, at, on, d, leads) ↦
              inl (suc j, x, omega (arith, is), at, on, rw m d, (λ y h. rw m (leads y h)))
          | inr (d, inr (j, x, is, at, off)) ↦
              inr (rw m d, inr (suc j, x, omega (arith, is), at, off))
          | inr (d, inl s) ↦ elim (Bool-cases (is_none slot && not r.active)) [
            | inl free ↦
                let here : some i ≡ some k = rw free at s in
                let is : i ≡ k = some-injective i k here in
                inr (rw m d, inr (0, r, omega (arith, is), refl, ground (arith, free)))
            | inr taken ↦ inr (rw m d, inl (rw taken at s))
          ]
        ]
]

module _ (F : DoubleOps) where
  entry : List ℕ → ℕ → Reservation
  entry owner mb = record { owner = owner_name owner; mb = mb; active = ltb_ℤ (pos 0) (pos mb) }

  -- What a declaration that succeeds writes.
  Writes : Vram F → List ℕ → ℕ → Vram F → Type 0
  Writes v owner mb w =
      (k : ℕ) × Found v.reservations 0 owner none k
      × (w.reservations ≡ set v.reservations k (entry owner mb))

  reserve-Writes :
      (v : Vram F) (c : ℕ) (cs : List ℕ) (mb : ℕ)
      → (reserve F v (c ∷ cs) (pos mb)).0 ≡ true
      → Writes v (c ∷ cs) mb (reserve F v (c ∷ cs) (pos mb)).1
  unfolding reserve Writes entry
  reserve-Writes v c cs mb =
      let positive : ltb_ℤ (pos mb) (pos 0) ≡ false = ground arith in
      elim (Option-cases (reserve_scan F v.reservations 0 (c ∷ cs) none)) [
        | inl f ↦ rw (positive, f, reserve) (λ e. cc)
        | inr (k, f) ↦
            let found = reserve_scan-Found F v.reservations 0 (c ∷ cs) none k f in
            rw (positive, f, reserve) (λ e. (k, found, refl))
      ]

  reserve-sum :
      (v w : Vram F) (owner : List ℕ) (mb : ℕ)
      → Writes v owner mb w
      → reserved_mb_locked F w + or_else (declared v.reservations owner) 0
        ≡ reserved_mb_locked F v + mb
  unfolding reserved_mb_locked Writes entry
  reserve-sum v w owner mb (k, found, is) =
      let new : active_mb F (entry owner mb) ≡ mb = ground arith in
      let sum = ap (reserved_from F) is in
      elim found [
        | inl (j, r, at, e, on, d, leads) ↦
            let here : get_elem? v.reservations k ≡ some r =
              ap (get_elem? v.reservations) (omega (arith, at)) ∙ e in
            let old : active_mb F r ≡ r.mb = rw on refl in
            let was : or_else (declared v.reservations owner) 0 ≡ r.mb = ap (λ o. or_else o 0) d in
            omega (
              arith,
              reserved_from-set F v.reservations k r (entry owner mb) here,
              new,
              old,
              was,
              sum,
            )
        | inr (d, inl none_left) ↦ cc
        | inr (d, inr (j, r, at, e, off)) ↦
            let here : get_elem? v.reservations k ≡ some r =
              ap (get_elem? v.reservations) (omega (arith, at)) ∙ e in
            let old : active_mb F r ≡ 0 = rw off refl in
            let was : or_else (declared v.reservations owner) 0 ≡ 0 = ap (λ o. or_else o 0) d in
            omega (
              arith,
              reserved_from-set F v.reservations k r (entry owner mb) here,
              new,
              old,
              was,
              sum,
            )
      ]

  take_all : (n : ℕ) (xs : List ℕ) → length xs ≤ n → take n xs ≡ xs
  take_all zero [] h = refl
  take_all zero (x ∷ xs) h = elim h [ ]
  take_all (suc n) [] h = refl
  take_all (suc n) (x ∷ xs) h = ap (λ ys. x ∷ ys) (take_all n xs (omega arith))

  -- A declaration of a positive amount that succeeds, by an owner whose name the table can hold,
  -- replaces the owner's figure in the sum of the reservations, and is found under the name.
  pub reserve-declared :
      (v : Vram F) (c : ℕ) (cs : List ℕ) (mb : ℕ)
      → length (c ∷ cs) ≤ 31
      → 0 < mb
      → (reserve F v (c ∷ cs) (pos mb)).0 ≡ true
      → let w = (reserve F v (c ∷ cs) (pos mb)).1 in
        (reserved_mb_locked F w + or_else (declared v.reservations (c ∷ cs)) 0
          ≡ reserved_mb_locked F v + mb)
        × (declared w.reservations (c ∷ cs) ≡ some mb)
  unfolding Writes entry
  reserve-declared v c cs mb short some_mb ok =
      let put = reserve-Writes v c cs mb ok in
      let (k, found, is) = put in
      let name = take_all 31 (c ∷ cs) short in
      let same : same_bytes (take 31 (c ∷ cs)) (c ∷ cs) ≡ true =
        ap (λ n. same_bytes n (c ∷ cs)) name ∙ same_bytes_refl (c ∷ cs) in
      let on : matches (c ∷ cs) (entry (c ∷ cs) mb) ≡ true = ground (arith, same) in
      (
        reserve-sum v (reserve F v (c ∷ cs) (pos mb)).1 (c ∷ cs) mb put,
        ap (λ rs. declared rs (c ∷ cs)) is ∙ elim found [
          | inl (j, r, at, e, act, d, leads) ↦
              ap (λ i. declared (set v.reservations i (entry (c ∷ cs) mb)) (c ∷ cs))
                (omega (arith, at))
              ∙ leads (entry (c ∷ cs) mb) on
          | inr (d, inl none_left) ↦ cc
          | inr (d, inr (j, r, at, e, off)) ↦
              ap (λ i. declared (set v.reservations i (entry (c ∷ cs) mb)) (c ∷ cs))
                (omega (arith, at))
              ∙ Leads-unmatched v.reservations (c ∷ cs) j r d e (entry (c ∷ cs) mb) on
        ],
      )

  -- Every stored name fits its array.
  abbrev pub HasShortNames : List Reservation → Type 0
  HasShortNames = All (λ r. length r.owner ≤ 31)

  long_unmatched :
      (rs : List Reservation) (owner : List ℕ)
      → 31 < length owner
      → HasShortNames rs
      → declared rs owner ≡ none
  long_unmatched [] owner long h = refl
  long_unmatched (r ∷ rs) owner long (s, h) = elim (Bool-cases (matches owner r)) [
    | inr m ↦ rw m (long_unmatched rs owner long h)
    | inl m ↦
        let same = ap length (same_bytes-eq r.owner owner (ground (arith, m))) in
        absurd (omega (arith, same, s))
  ]

  set-HasShortNames :
      (rs : List Reservation) (i : ℕ) (y : Reservation)
      → length y.owner ≤ 31
      → HasShortNames rs
      → HasShortNames (set rs i y)
  set-HasShortNames [] i y s h = tt
  set-HasShortNames (r ∷ rs) zero y s (t, h) = (s, h)
  set-HasShortNames (r ∷ rs) (suc i) y s (t, h) = (t, set-HasShortNames rs i y s h)

  -- If the owner's name is longer than the 31 bytes that the table holds, a declaration that succeeds
  -- is added to the sum, whatever the owner declared before, and is not found under the name.
  pub reserve-long_name :
      (v : Vram F) (c : ℕ) (cs : List ℕ) (mb : ℕ)
      → HasShortNames v.reservations
      → 31 < length (c ∷ cs)
      → (reserve F v (c ∷ cs) (pos mb)).0 ≡ true
      → let w = (reserve F v (c ∷ cs) (pos mb)).1 in
        (reserved_mb_locked F w ≡ reserved_mb_locked F v + mb)
        × (declared w.reservations (c ∷ cs) ≡ none)
  unfolding Writes entry
  reserve-long_name v c cs mb short long ok =
      let put = reserve-Writes v c cs mb ok in
      let (k, found, is) = put in
      let was = ap (λ o. or_else o 0) (long_unmatched v.reservations (c ∷ cs) long short) in
      let fits : length (take 31 (c ∷ cs)) ≤ 31 = omega (arith, length-take 31 (c ∷ cs)) in
      (
        omega (arith, reserve-sum v (reserve F v (c ∷ cs) (pos mb)).1 (c ∷ cs) mb put, was),
        ap (λ rs. declared rs (c ∷ cs)) is
            ∙ long_unmatched (set v.reservations k (entry (c ∷ cs) mb)) (c ∷ cs) long
                (set-HasShortNames v.reservations k (entry (c ∷ cs) mb) fits short),
      )
