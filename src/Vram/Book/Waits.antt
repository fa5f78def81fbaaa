-- ===== src/Vram/Book/Waits.antt =====
-- A round of a waiting call of src/ovram.c, a declaration and the start keep the lease slots sound.
use omniserve_native.Prelude.{
  ℕ, zero, suc, ◌≡◌, refl, sym, ap, inl, inr, Bool, true, false, not, ◌||◌, List, [], ◌∷◌, Option,
  none, some, arith, Bool-cases, Option-cases, if◌then◌else◌, get_elem?, ◌==◌, replicate,
  length-replicate,
}
use mathlib.Core.Option.{some-injective}
use omniserve_native.Prelude.Int.{ℤ, pos, ltb_ℤ}
use omniserve_native.Floats.{DoubleOps}
use omniserve_native.Vram.{Lease, Vram, Proc, max_leases}
use omniserve_native.Vram.Tables.{expire_locked, on_owner, reserve, reserve_scan}
use omniserve_native.Vram.Setup.{create, no_lease, set_procs}
use omniserve_native.Vram.Queue.{waiter_ahead_locked}
use omniserve_native.Vram.Grant.{Answer}
use omniserve_native.Vram.Ops.{active_leases}
use omniserve_native.Vram.Wait.{
  Call, Outcome, returned, queued, wait_round, attempt, finish, register, unregister, slot_since,
}
use omniserve_native.Vram.Book.Sound.{Good, expire_locked-Good}
use omniserve_native.Vram.Book.Keeps.{grant_locked-Good}

module _ (F : DoubleOps) where
  open F use {Double}

  unregister-Good : (v : Vram F) (c : Call F) → Good F v → Good F (unregister F v c)
  unfolding unregister
  unregister-Good v c g = elim (Bool-cases c.registered) [ inl e ↦ rw e g | inr e ↦ rw e g ]

  finish-Good :
      (v : Vram F) (c : Call F) (granted : ℕ) (now : Double)
      → Good F v
      → Good F (finish F v c granted now)
  unfolding finish on_owner
  finish-Good v c granted now g = unregister-Good v c g

  register-Good :
      (v : Vram F) (c : Call F) (now : Double) → Good F v → Good F (register F v c now).0
  unfolding register
  register-Good v c now g = elim (Bool-cases c.registered) [ inl e ↦ rw e g | inr e ↦ rw e g ]

  attempt-Good :
      (v : Vram F) (c : Call F) (now : Double) (free : Option ℕ)
      → Good F v
      → Good F (attempt F v c now free).broker
  unfolding attempt
  attempt-Good v c now free g =
      choose
        (waiter_ahead_locked F v c.tier (if c.registered then c.wslot else none)
          (slot_since F v now c.wslot) now free)
        _ _ g (grant_locked-Good F v c.name c.pid c.mb c.min_mb c.tier c.ttl_s now free false g)
    where
      choose :
          (b : Bool) (x y : Answer F)
          → Good F x.broker
          → Good F y.broker
          → Good F ((if b then x else y).broker)
      choose true x y h k = h
      choose false x y h k = k

  -- The broker after a round.
  unfoldable pub broker_of : Outcome F → Vram F
  broker_of (returned granted id waited v) = v
  broker_of (queued deficit c v) = v

  pub wait_round-Good :
      (v : Vram F) (c : Call F) (now : Double) (free : Option ℕ)
      → Good F v
      → Good F (broker_of (wait_round F v c now free))
  unfolding wait_round broker_of
  wait_round-Good v c now free g =
      let w = (expire_locked F v now).0 in
      let h = attempt-Good w c now free (expire_locked-Good F v now g) in
      elim (Bool-cases (not ((attempt F w c now free).granted == 0) || F.le c.deadline now)) [
        | inl e ↦
            rw e
              (finish-Good (attempt F w c now free).broker c (attempt F w c now free).granted now h)
        | inr e ↦ rw e (register-Good (attempt F w c now free).broker c now h)
      ]

  pub reserve-Good :
      (v : Vram F) (owner : List ℕ) (mb : ℤ) → Good F v → Good F (reserve F v owner mb).1
  unfolding reserve
  reserve-Good v [] mb g = g
  reserve-Good v (c ∷ cs) mb g = elim (Bool-cases (ltb_ℤ mb (pos 0))) [
    | inl e ↦ rw e g
    | inr e ↦ elim (Option-cases (reserve_scan F v.reservations 0 (c ∷ cs) none)) [
      | inl f ↦ rw (e, f) g
      | inr (i, f) ↦ rw (e, f) g
    ]
  ]

  empty_slot :
      (n i : ℕ) (l : Lease F) → get_elem? (replicate n (no_lease F)) i ≡ some l → l.active ≡ false
  empty_slot zero i l e = cc
  empty_slot (suc n) zero l e = sym (ap (λ m. m.active) (some-injective (no_lease F) l e))
  empty_slot (suc n) (suc i) l e = empty_slot n i l e

  no_active : (n : ℕ) → active_leases F (replicate n (no_lease F)) ≡ 0
  unfolding active_leases
  no_active zero = refl
  no_active (suc n) = omega (arith, no_active n)

  pub create-Good :
      (keep_free_mb : ℤ) (default_ttl_s : Double) → Good F (create F keep_free_mb default_ttl_s)
  unfolding create
  create-Good keep_free_mb default_ttl_s = record {
    slots = length-replicate max_leases (no_lease F);
    numbered = λ i l e on. let off = empty_slot max_leases i l e in cc;
    distinct = λ i k l m e f on on' ids. let off = empty_slot max_leases i l e in cc;
    balanced = omega (arith, no_active max_leases);
  }

  pub set_procs-Good :
      (v : Vram F) (procs : Option (List Proc)) → Good F v → Good F (set_procs F v procs)
  unfolding set_procs
  set_procs-Good v none g = g
  set_procs-Good v (some procs) g = g
