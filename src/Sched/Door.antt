-- ===== src/Sched/Door.antt =====
-- `acquire` of src/osched.c at the door: who is admitted without queueing.
use omniserve_native.Prelude.{
  ℕ, ◌+◌, ◌≤◌, ◌<◌, ◌≡◌, ◌≢◌, refl, subst, inl, inr, Bool, true, false, List, [], ◌∷◌, arith,
  if◌then◌else◌, ◌&&◌, Bool-cases, ◌==◌,
}
use omniserve_native.Floats.{DoubleOps}
use omniserve_native.Sched.{
  Waiter, Sched, Arrival, admitted, acquire, refuses, fits_locked, admit, enqueue, is_empty,
  tier_background,
}
use omniserve_native.Sched.Fits.{RoomFor, fits_locked-RoomFor, RoomFor-fits_locked}

module _ (F : DoubleOps) where
  is_empty-eq : (ws : List Waiter) → is_empty F ws ≡ true → ws ≡ []
  is_empty-eq [] e = refl
  is_empty-eq (w ∷ ws) e = cc

  -- A request that may take its slots without queueing.
  abbrev pub MayEnter : Sched F → ℕ → ℕ → Bool → Type 0
  MayEnter s tier permits shared =
      (tier ≤ tier_background)
      × (0 < permits)
      × (permits ≤ s.slots)
      × (s.waiters ≡ [])
      × RoomFor s.slots s.active s.used_slots tier permits shared

  -- The request is running: it is counted, its permits are taken, and nobody waits.
  abbrev pub Entered : Sched F → ℕ → ℕ → Sched F → Type 0
  Entered s tier permits t =
      (t.active ≡ s.active + 1)
      × (t.used_slots ≡ s.used_slots + permits)
      × ((u : ℕ) → t.served u ≡ s.served u + (if u == tier then 1 else 0))
      × (t.waiters ≡ s.waiters)
      × (t.slots ≡ s.slots)
      × (t.seq ≡ s.seq)

  admit-Entered : (s : Sched F) (tier permits : ℕ) → Entered s tier permits (admit F s tier permits)
  unfolding admit
  admit-Entered s tier permits = (refl, refl, (λ u. ground arith), refl, refl, refl)

  enters :
      (s : Sched F) (tier permits : ℕ) (shared : Bool)
      → MayEnter s tier permits shared
      → (refuses F s tier permits ≡ false)
        × (is_empty F s.waiters ≡ true)
        × (fits_locked F s tier permits shared ≡ true)
  unfolding refuses
  enters s tier permits shared (known, some_permits, small, nobody, room) =
      (ground arith, rw nobody refl, RoomFor-fits_locked F s tier permits shared room)

  let_in :
      (s : Sched F) (tier permits : ℕ) (shared : Bool)
      → refuses F s tier permits ≡ false
      → is_empty F s.waiters ≡ true
      → fits_locked F s tier permits shared ≡ true
      → MayEnter s tier permits shared
  unfolding refuses
  let_in s tier permits shared r e f = (
    ground arith,
    ground arith,
    ground arith,
    is_empty-eq s.waiters e,
    fits_locked-RoomFor F s tier permits shared f,
  )

  enqueue_waits :
      (s : Sched F) (tier permits : ℕ) (shared : Bool) (a : Arrival F) {t : Sched F}
      → enqueue F s tier permits shared a ≢ admitted t
  unfolding enqueue
  enqueue_waits s tier permits shared a h = elim (Bool-cases a.cond_ok) [
    | inl c ↦ let h' = rw c at h in cc
    | inr c ↦ let h' = rw c at h in cc
  ]

  pub acquire_at_once :
      (s : Sched F) (tier permits : ℕ) (shared : Bool) (a : Arrival F)
      → refuses F s tier permits ≡ false
      → is_empty F s.waiters ≡ true
      → fits_locked F s tier permits shared ≡ true
      → acquire F s tier permits shared a ≡ admitted (admit F s tier permits)
  unfolding acquire
  acquire_at_once s tier permits shared a r e f = rw (r, e, f)

  both : (b c : Bool) → (b && c) ≡ true → (b ≡ true) × (c ≡ true)
  both true c h = (refl, h)
  both false c h = cc

  acquire-Entered :
      (s : Sched F) (tier permits : ℕ) (shared : Bool) (a : Arrival F) (t : Sched F)
      → acquire F s tier permits shared a ≡ admitted t
      → MayEnter s tier permits shared × Entered s tier permits t
  unfolding acquire
  acquire-Entered s tier permits shared a t h = elim (Bool-cases (refuses F s tier permits)) [
    | inl r ↦ let h' = rw r at h in cc
    | inr r ↦ elim (Bool-cases (is_empty F s.waiters && fits_locked F s tier permits shared)) [
      | inr out ↦ absurd (enqueue_waits s tier permits shared a (rw (r, out) at h))
      | inl free ↦
          let h' = rw (r, free) at h in
          let (e, f) = both (is_empty F s.waiters) (fits_locked F s tier permits shared) free in
          (
            let_in s tier permits shared r e f,
            subst (Entered s tier permits) {x = admit F s tier permits} {y = t} (cc)
                (admit-Entered s tier permits),
          )
    ]
  ]

  -- `acquire` admits a request at once exactly if its tier is one of the four, it asks for some permits
  -- and no more than there are slots, nobody waits, and there is room for it: an idle device for
  -- background work that does not share it, the permits for any other. It is then counted and
  -- charged.
  pub acquire-MayEnter :
      (s : Sched F) (tier permits : ℕ) (shared : Bool) (a : Arrival F)
      → (MayEnter s tier permits shared
          → (t : Sched F) × (acquire F s tier permits shared a ≡ admitted t))
        × ((t : Sched F)
            → acquire F s tier permits shared a ≡ admitted t
            → MayEnter s tier permits shared × Entered s tier permits t)
  acquire-MayEnter s tier permits shared a = (
    (λ h.
        let (r, e, f) = enters s tier permits shared h in
        (admit F s tier permits, acquire_at_once s tier permits shared a r e f)),
    acquire-Entered s tier permits shared a,
  )
