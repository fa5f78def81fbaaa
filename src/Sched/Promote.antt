-- ===== src/Sched/Promote.antt =====
-- `promote_locked` of src/osched.c: who is admitted when slots come free.
use omniserve_native.Prelude.{
  ℕ, ◌+◌, ◌≤◌, ◌<◌, ◌≡◌, refl, ap, subst, sym, inl, inr, true, false, List, [], ◌∷◌, ◌++◌, arith,
  All, All-map, All-append_left, All-append_right, Bool-cases, sum_by, length, if◌then◌else◌, ◌==◌,
}
use omniserve_native.Floats.{DoubleOps}
use omniserve_native.Sched.{
  Waiter, Timespec, Sched, fits_locked, admit, promote_loop, promote_locked, age_locked,
}
use omniserve_native.Sched.Order.{IsOrdered}
use omniserve_native.Sched.Fits.{RoomFor, fits_locked-RoomFor, RoomFor-fits_locked}
use omniserve_native.Sched.Aging.{age_locked_fields, age_locked-IsOrdered, All-age_locked}

abbrev pub of_tier : ℕ → Waiter → ℕ
of_tier t w = if w.tier == t then 1 else 0

abbrev pub permits_of : Waiter → ℕ
permits_of w = w.permits

-- There is room for each of the waiters, once those before it hold their permits.
abbrev pub EachFits : ℕ → ℕ → ℕ → List Waiter → Type 0
EachFits slots active used [] = Unit
EachFits slots active used (w ∷ ws) =
    RoomFor slots active used w.tier w.permits w.shared
    × EachFits slots (active + 1) (used + w.permits) ws

module _ (F : DoubleOps) where
  -- There is no room for the waiter at the head of the list.
  abbrev pub IsBlocked : Sched F → List Waiter → Type 0
  IsBlocked s [] = Unit
  IsBlocked s (w ∷ ws) = ¬ RoomFor s.slots s.active s.used_slots w.tier w.permits w.shared

  -- What a run of the loop from `s` over `ws` has done at `t`, with `granted` admitted.
  pub record Promoted (s : Sched F) (ws : List Waiter) (t : Sched F) (granted : List Waiter)
      : Type 0 where
    pub in_order : granted ++ t.waiters ≡ ws
    pub fitted : EachFits s.slots s.active s.used_slots granted
    pub charged : t.used_slots ≡ s.used_slots + sum_by permits_of granted
    pub counted : t.active ≡ s.active + length granted
    pub tallied : (tier : ℕ) → t.served tier ≡ s.served tier + sum_by (of_tier tier) granted
    pub same_slots : t.slots ≡ s.slots
    pub same_seq : t.seq ≡ s.seq
    pub blocked : IsBlocked t t.waiters

  Promoted-cons :
      (s : Sched F) (w : Waiter) (ws : List Waiter) (t : Sched F) (granted : List Waiter)
      → fits_locked F s w.tier w.permits w.shared ≡ true
      → Promoted (admit F s w.tier w.permits) ws t granted
      → Promoted s (w ∷ ws) t (w ∷ granted)
  unfolding admit
  Promoted-cons s w ws t granted f h = record {
    in_order = ap (◌∷◌ w) h.in_order;
    fitted = (fits_locked-RoomFor F s w.tier w.permits w.shared f, h.fitted);
    charged = omega (arith, h.charged);
    counted = omega (arith, h.counted);
    tallied = λ tier. ground (arith, h.tallied tier);
    same_slots = h.same_slots;
    same_seq = h.same_seq;
    blocked = h.blocked;
  }

  no_room :
      (s : Sched F) (w : Waiter)
      → fits_locked F s w.tier w.permits w.shared ≡ false
      → ¬ RoomFor s.slots s.active s.used_slots w.tier w.permits w.shared
  no_room s w e room = let fits = RoomFor-fits_locked F s w.tier w.permits w.shared room in cc

  pub promote_loop-Promoted :
      (s : Sched F) (ws : List Waiter)
      → Promoted s ws (promote_loop F s ws).0 (promote_loop F s ws).1
  unfolding promote_loop
  promote_loop-Promoted s [] = record {
    in_order = refl;
    fitted = tt;
    charged = omega arith;
    counted = omega arith;
    tallied = λ t. omega arith;
    same_slots = refl;
    same_seq = refl;
    blocked = tt;
  }
  promote_loop-Promoted s (w ∷ ws) =
      let ih = promote_loop-Promoted (admit F s w.tier w.permits) ws in
      elim (Bool-cases (fits_locked F s w.tier w.permits w.shared)) [
        | inl e ↦ rw e (Promoted-cons s w ws _ _ e ih)
        | inr e ↦ rw e (record {
          in_order = refl;
          fitted = tt;
          charged = omega arith;
          counted = omega arith;
          tallied = λ t. omega arith;
          same_slots = refl;
          same_seq = refl;
          blocked = no_room s w e;
        })
      ]

  -- With requests that each fit an empty device, the loop never charges more than there is.
  promote_loop-le :
      (n : ℕ) (s : Sched F) (ws : List Waiter)
      → s.slots ≡ n
      → All (λ w. w.permits ≤ n) ws
      → s.used_slots ≤ n
      → (promote_loop F s ws).0.used_slots ≤ n
  unfolding promote_loop
  promote_loop-le n s [] e h le = le
  promote_loop-le n s (w ∷ ws) e (h, hs) le =
      elim (Bool-cases (fits_locked F s w.tier w.permits w.shared)) [
        | inl f ↦
            let room : s.used_slots + w.permits ≤ n = unfold fits_locked in ground arith in
            rw f (
              promote_loop-le n (admit F s w.tier w.permits) ws (unfold admit in e) hs
                (unfold admit in room))
        | inr f ↦ rw f le
      ]

  -- From the state before aging: the granted waiters are a prefix of the aged list, in its order;
  -- there was room for each of them when those before it had their permits; their permits, their
  -- number and their tiers are charged; for the head of what is left there is no room.
  pub promote_locked-Promoted :
      (s : Sched F) (now : Timespec)
      → Promoted s
          (age_locked F s now).waiters
          (promote_locked F s now).0
          (promote_locked F s now).1
  unfolding promote_locked
  promote_locked-Promoted s now =
      let h =
        subst
          (λ r.
            Promoted r (age_locked F s now).waiters (promote_locked F s now).0
              (promote_locked F s now).1)
          (age_locked_fields F s now)
          (promote_loop-Promoted (age_locked F s now) (age_locked F s now).waiters) in
      record {
        in_order = h.in_order;
        fitted = h.fitted;
        charged = h.charged;
        counted = h.counted;
        tallied = h.tallied;
        same_slots = h.same_slots;
        same_seq = h.same_seq;
        blocked = h.blocked;
      }

  abbrev pub HasSize : ℕ → Waiter → Type 0
  HasSize slots w = (0 < w.permits) × (w.permits ≤ slots)

  pub promote_locked-le :
      (s : Sched F) (now : Timespec)
      → All (HasSize s.slots) s.waiters
      → s.used_slots ≤ s.slots
      → (promote_locked F s now).0.used_slots ≤ s.slots
  unfolding promote_locked
  promote_locked-le s now sized le =
      let same = age_locked_fields F s now in
      let small =
        All-age_locked F s now (λ w. w.permits ≤ s.slots) (λ w p h. h)
          (All-map (HasSize s.slots) (λ w. w.permits ≤ s.slots) (λ w h. h.1) s.waiters sized) in
      promote_loop-le s.slots (age_locked F s now) (age_locked F s now).waiters
        (ap (λ t. t.slots) same) small (omega (arith, ap (λ t. t.used_slots) same))

  -- What holds of every waiter, whatever its rank, holds of those granted and of those that stay.
  pub promote_locked-All {κ} :
      (P : Waiter → Type κ)
      → ((w : Waiter) (p : ℕ) → P w → P (record w { prio = p }))
      → (s : Sched F) (now : Timespec) → All P s.waiters
      → All P (promote_locked F s now).1 × All P (promote_locked F s now).0.waiters
  promote_locked-All P same s now h =
      let granted = (promote_locked F s now).1 in
      let left = (promote_locked F s now).0.waiters in
      let all =
        subst (All P) (sym (promote_locked-Promoted s now).in_order)
          (All-age_locked F s now P same h) in
      (All-append_left P granted left all, All-append_right P granted left all)

  IsOrdered-append_right : (xs ys : List Waiter) → IsOrdered (xs ++ ys) → IsOrdered ys
  IsOrdered-append_right [] ys h = h
  IsOrdered-append_right (x ∷ xs) ys (h, hs) = IsOrdered-append_right xs ys hs

  pub promote_locked-IsOrdered :
      (s : Sched F) (now : Timespec)
      → IsOrdered s.waiters
      → IsOrdered (promote_locked F s now).0.waiters
  promote_locked-IsOrdered s now h = IsOrdered-append_right (promote_locked F s now).1 _ (
      subst IsOrdered (sym (promote_locked-Promoted s now).in_order)
        (age_locked-IsOrdered F s now h))
