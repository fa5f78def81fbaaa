-- ===== src/Vram/Book/Granted.antt =====
-- The two ends of `grant_locked` of src/ovram.c, and that each call that may grant keeps the slots.
use omniserve_native.Prelude.{
  ℕ, suc, ◌≤◌, ◌<◌, ◌≡◌, refl, sym, ap, ◌∙◌, ◌⊎◌, inl, inr, Bool, false, ◌||◌, List, [], ◌∷◌,
  Option, some, arith, Bool-cases, Option-cases, get_elem?, ltb, ◌==◌,
}
use mathlib.Core.Option.{some-injective}
use omniserve_native.Floats.{DoubleOps}
use omniserve_native.Vram.{Lease, Vram, or_anon}
use omniserve_native.Vram.Grant.{Answer, amount, free_slot, grant_locked, grant_at, lease_id}

module _ (F : DoubleOps) where
  open F use {Double}

  free_slot_lem :
      (ls : List (Lease F)) (i : ℕ)
      → free_slot F ls ≡ some i
      → (x : Lease F) × (get_elem? ls i ≡ some x) × (x.active ≡ false)
  unfolding free_slot
  free_slot_lem [] i e = cc
  free_slot_lem (l ∷ ls) i e = elim (Bool-cases l.active) [
    | inr off ↦
        let here : some 0 ≡ some i = rw (off, free_slot) at e in
        let at : 0 ≡ i = some-injective 0 i here in (l, sym (ap (get_elem? (l ∷ ls)) at), off)
    | inl on ↦ elim (Option-cases (free_slot F ls)) [
      | inl f ↦ let none_left = rw (on, f, free_slot) at e in cc
      | inr (k, f) ↦
          let there : some (suc k) ≡ some i = rw (on, f, free_slot) at e in
          let (x, at, off) = free_slot_lem ls k f in
          (x, sym (ap (get_elem? (l ∷ ls)) (some-injective (suc k) i there)) ∙ at, off)
    ]
  ]

  abbrev pub nothing : Vram F → Answer F
  nothing v = record { granted = 0; id = []; broker = v }

  abbrev pub placed : Vram F → List ℕ → ℕ → ℕ → ℕ → Double → Double → Bool → ℕ → ℕ → Answer F
  placed v owner pid mb tier ttl_s now_s force granted slot = record {
    granted = granted;
    id = lease_id v.next_id;
    broker = grant_at F v slot (or_anon owner) pid granted mb tier ttl_s now_s force;
  }

  -- Nothing is granted and the broker is as before, or a free slot gets the new lease.
  abbrev pub Ends : Vram F → List ℕ → ℕ → ℕ → ℕ → ℕ → Double → Double → Bool → ℕ → Answer F → Type 0
  Ends v owner pid mb min_mb tier ttl_s now_s force granted a =
      (a ≡ nothing v)
      ⊎ ((slot : ℕ) × (x : Lease F) × (get_elem? v.leases slot ≡ some x)
          × (x.active ≡ false)
          × (0 < granted)
          × (min_mb ≤ granted)
          × (a ≡ placed v owner pid mb tier ttl_s now_s force granted slot))

  pub grant_locked-Ends :
      (v : Vram F) (owner : List ℕ) (pid mb min_mb tier : ℕ) (ttl_s now_s : Double)
      (free : Option ℕ) (force : Bool)
      → Ends v owner pid mb min_mb tier ttl_s now_s force
          (amount F v mb tier free force)
          (grant_locked F v owner pid mb min_mb tier ttl_s now_s free force)
  unfolding grant_locked
  grant_locked-Ends v owner pid mb min_mb tier ttl_s now_s free force =
      elim (Bool-cases
        (ltb (amount F v mb tier free force) min_mb || amount F v mb tier free force == 0)) [
          | inl e ↦ inl (rw e refl)
          | inr e ↦ elim (Option-cases (free_slot F v.leases)) [
            | inl f ↦ inl (rw (e, f) refl)
            | inr (i, f) ↦
                let (x, at, off) = free_slot_lem v.leases i f in
                inr (i, x, at, off, ground arith, ground arith, rw (e, f) refl)
          ]
        ]
