-- ===== src/Sched/Release.antt =====
-- `release_n` of src/osched.c: whom a release grants.
use omniserve_native.Prelude.{
  ℕ, ◌≤◌, ◌<◌, ◌≡◌, ◌≢◌, refl, ap, subst, inl, inr, Bool, true, false, List, [], ◌∷◌, ◌++◌, arith,
  All, if◌then◌else◌, ◌-◌, sym, ◌∙◌, ltb, leb, Bool-cases, sum_by, length, ◌==◌,
}
use omniserve_native.Floats.{DoubleOps}
use omniserve_native.Sched.{
  Waiter, Timespec, Sched, is_empty, release_n, promote_locked, age_locked, tier_background,
}
use omniserve_native.Sched.Aging.{sum_by-age_locked}
use omniserve_native.Sched.Fits.{RoomFor}
use omniserve_native.Sched.Promote.{
  HasSize, IsBlocked, Promoted, permits_of, promote_locked-Promoted, promote_locked-All,
}

module _ (F : DoubleOps) where
  one : Waiter → ℕ
  one w = 1

  sum_by-one : (ws : List Waiter) → is_empty F ws ≡ false → 0 < sum_by one ws
  unfolding one
  sum_by-one [] e = cc
  sum_by-one (w ∷ ws) e = omega arith

  head_fits :
      (s : Sched F) (ws : List Waiter)
      → s.active ≡ 0
      → s.used_slots ≡ 0
      → All (HasSize F s.slots) ws
      → IsBlocked F s ws
      → ws ≡ []
  head_fits s [] a u h b = refl
  head_fits s (w ∷ ws) a u (h, hs) b = absurd (b (idle_fits w.shared))
    where
      idle_fits : (shared : Bool) → RoomFor s.slots s.active s.used_slots w.tier w.permits shared
      idle_fits true = inr (inr refl, omega (arith, h.1))
      idle_fits false = elim (Bool-cases (w.tier == tier_background)) [
        | inl e ↦ inl (ground arith, refl, a, u)
        | inr e ↦ inr (inl (ground arith), omega (arith, h.1))
      ]

  promote_locked-progress :
      (s : Sched F) (now : Timespec)
      → s.active ≡ 0
      → s.used_slots ≡ 0
      → All (HasSize F s.slots) s.waiters
      → is_empty F s.waiters ≡ false
      → (promote_locked F s now).1 ≢ []
  unfolding one
  promote_locked-progress s now a u sized e none_granted =
      let p = promote_locked-Promoted F s now in
      let t = (promote_locked F s now).0 in
      let left : t.waiters ≡ [] =
        head_fits t t.waiters (omega (arith, p.counted, ap length none_granted))
          (omega (arith, p.charged, ap (sum_by permits_of) none_granted))
          (rw p.same_slots (promote_locked-All F (HasSize F s.slots) (λ w q h. h) s now sized).1)
          p.blocked in
      let aged : [] ≡ (age_locked F s now).waiters =
        subst (λ ws. ws ≡ (age_locked F s now).waiters)
          (cc (left, ap (λ g. g ++ t.waiters) none_granted)) p.in_order in
      omega (
        arith,
        sum_by-one s.waiters e,
        sum_by-age_locked F s now one (λ w q. refl),
        ap (sum_by one) aged,
      )

  -- The release that leaves nothing running admits somebody, if anybody waits.
  release_n-progress :
      (s : Sched F) (permits : ℕ) (now : Timespec)
      → 0 < permits
      → s.active ≤ 1
      → s.used_slots ≤ permits
      → All (HasSize F s.slots) s.waiters
      → is_empty F s.waiters ≡ false
      → (release_n F s permits now).1 ≢ []
  unfolding release_n
  release_n-progress s permits now h a u sized e =
      let some_permits : (permits == 0) ≡ false = ground arith in
      rw some_permits (promote_locked-progress _ now (ground arith) (ground arith) sized e)

  head_granted :
      (x t : Sched F) (w : Waiter) (ws granted : List Waiter)
      → Promoted F x (w ∷ ws) t granted
      → RoomFor x.slots x.active x.used_slots w.tier w.permits w.shared
      → (more : List Waiter) × (granted ≡ w ∷ more)
  head_granted x t w ws [] p room =
      let blocked : IsBlocked F t (w ∷ ws) = subst (IsBlocked F t) p.in_order p.blocked in
      let slots : x.slots ≡ t.slots = sym p.same_slots in
      let active : x.active ≡ t.active = omega (arith, p.counted) in
      let used : x.used_slots ≡ t.used_slots = omega (arith, p.charged) in
      absurd (
        blocked (
          subst (λ n. RoomFor n t.active t.used_slots w.tier w.permits w.shared) slots
            (subst (λ n. RoomFor x.slots n t.used_slots w.tier w.permits w.shared) active
              (subst (λ n. RoomFor x.slots x.active n w.tier w.permits w.shared) used room))))
  head_granted x t w ws (g ∷ gs) p room = let same = p.in_order in (gs, ap (λ v. v ∷ gs) (cc))

  age_locked_waiters :
      (s : Sched F) (active used : ℕ) (now : Timespec)
      → (age_locked F (record s { active = active; used_slots = used }) now).waiters
        ≡ (age_locked F s now).waiters
  unfolding age_locked
  age_locked_waiters s active used now = elim (Bool-cases (F.lt (F.dec 0 0) s.bg_age_s)) [
    | inl e ↦ rw e refl
    | inr e ↦ rw e refl
  ]

  -- Where a release leaves room for the waiter that aging puts at the head of the queue, that waiter
  -- is granted, before any other.
  pub release_n-RoomFor :
      (s : Sched F) (permits : ℕ) (now : Timespec) (w : Waiter) (ws : List Waiter)
      → 0 < permits
      → (age_locked F s now).waiters ≡ w ∷ ws
      → RoomFor s.slots (s.active - 1) (s.used_slots - permits) w.tier w.permits w.shared
      → (more : List Waiter) × ((release_n F s permits now).1 ≡ w ∷ more)
  unfolding release_n
  release_n-RoomFor s permits now w ws h aged room =
      let some_permits : (permits == 0) ≡ false = ground arith in
      let less : (if ltb 0 s.active then s.active - 1 else s.active) ≡ s.active - 1 =
        ground arith in
      let given_back : (if leb permits s.used_slots then s.used_slots - permits else 0)
          ≡ s.used_slots - permits =
        ground arith in
      let freed = record s {
        active = if ltb 0 s.active then s.active - 1 else s.active;
        used_slots = if leb permits s.used_slots then s.used_slots - permits else 0;
      } in
      let promoted =
        subst
          (λ l. Promoted F freed l (promote_locked F freed now).0 (promote_locked F freed now).1)
          (age_locked_waiters s freed.active freed.used_slots now ∙ aged)
          (promote_locked-Promoted F freed now) in
      let room_then =
        subst (λ n. RoomFor s.slots n freed.used_slots w.tier w.permits w.shared) (sym less)
          (subst (λ n. RoomFor s.slots (s.active - 1) n w.tier w.permits w.shared) (sym given_back)
            room) in
      rw some_permits (head_granted freed _ w ws _ promoted room_then)
