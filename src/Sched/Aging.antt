-- ===== src/Sched/Aging.antt =====
-- `age_locked` of src/osched.c: the starvation bound of background waiters.
use omniserve_native.Prelude.{
  ℕ, ◌+◌, ◌≡◌, inl, inr, true, false, List, [], ◌∷◌, arith, All, Bool-cases, sum_by, ltb,
  if◌then◌else◌, not, ◌==◌, min, ap,
}
use omniserve_native.Floats.{DoubleOps}
use omniserve_native.Sched.{
  Waiter, Timespec, Sched, tier_paid, tier_free, tier_background, want, waited_s, age_scan,
  age_locked,
}
use omniserve_native.Sched.Order.{
  IsOrdered, Ahead, reinsert-IsOrdered, All-reinsert, sum_by-reinsert,
}

-- What an inspected waiter's rank is once the list has been aged.
module _ (F : DoubleOps) (age : F.Double) (now : Timespec) where
  -- The rank that a wait earns.
  abbrev pub rank : Waiter → ℕ
  rank w =
      if not (w.tier == tier_background)
      then w.prio
      else if F.le (F.mul (F.dec 2 0) age) (waited_s F now w)
      then tier_paid
      else if F.le age (waited_s F now w)
      then min w.prio tier_free
      else w.prio

  abbrev pub ranked : Waiter → Waiter
  ranked w = record w { prio = rank w }

  abbrev moved : Waiter → Waiter
  moved w = record w { prio = want F age now w }

  All-age_scan {κ μ} :
      (P : Waiter → Type κ) (Q : Waiter → Type μ)
      → ((w : Waiter) → P w → ltb (want F age now w) w.prio ≡ false → Q w)
      → ((w : Waiter) → P w → ltb (want F age now w) w.prio ≡ true → Q (moved w))
      → (ws aged : List Waiter) → All P ws
      → All Q aged
      → All Q (age_scan F age now ws aged).0 × All Q (age_scan F age now ws aged).1
  unfolding age_scan
  All-age_scan P Q stay move [] aged h ha = (tt, ha)
  All-age_scan P Q stay move (w ∷ ws) aged (h, hs) ha =
      elim (Bool-cases (ltb (want F age now w) w.prio)) [
        | inl e ↦ rw e (All-age_scan P Q stay move ws (moved w ∷ aged) hs (move w h e, ha))
        | inr e ↦
            let rest = All-age_scan P Q stay move ws aged hs ha in
            rw e ((stay w h e, rest.0), rest.1)
      ]

  All-kept {κ} :
      (P : Waiter → Type κ) (ws aged : List Waiter)
      → All P ws
      → All P (age_scan F age now ws aged).0
  unfolding age_scan
  All-kept P [] aged h = tt
  All-kept P (w ∷ ws) aged (h, hs) = elim (Bool-cases (ltb (want F age now w) w.prio)) [
    | inl e ↦ rw e (All-kept P ws (moved w ∷ aged) hs)
    | inr e ↦ rw e (h, All-kept P ws aged hs)
  ]

  kept-IsOrdered : (ws aged : List Waiter) → IsOrdered ws → IsOrdered (age_scan F age now ws aged).0
  unfolding age_scan
  kept-IsOrdered [] aged h = tt
  kept-IsOrdered (w ∷ ws) aged (h, hs) = elim (Bool-cases (ltb (want F age now w) w.prio)) [
    | inl e ↦ rw e (kept-IsOrdered ws (moved w ∷ aged) hs)
    | inr e ↦ rw e (All-kept (Ahead w) ws aged h, kept-IsOrdered ws aged hs)
  ]

  sum_by-age_scan :
      (f : Waiter → ℕ)
      → ((w : Waiter) → f (moved w) ≡ f w)
      → (ws aged : List Waiter)
      → sum_by f (age_scan F age now ws aged).0 + sum_by f (age_scan F age now ws aged).1
        ≡ sum_by f ws + sum_by f aged
  unfolding age_scan
  sum_by-age_scan f same [] aged = omega arith
  sum_by-age_scan f same (w ∷ ws) aged =
      ground
        (arith, same w, sum_by-age_scan f same ws (moved w ∷ aged), sum_by-age_scan f same ws aged)

  moved-ranked : (w : Waiter) → ltb (want F age now w) w.prio ≡ true → moved w ≡ ranked w
  unfolding want
  moved-ranked w e = ap (λ p. record w { prio = p }) (ground arith)

  stay-ranked : (w : Waiter) → ltb (want F age now w) w.prio ≡ false → w ≡ ranked w
  unfolding want
  stay-ranked w e = ap (λ p. record w { prio = p }) (ground arith)

  sum_by-ranked :
      (f : Waiter → ℕ) (ws aged : List Waiter)
      → sum_by f (age_scan F age now ws aged).0 + sum_by f (age_scan F age now ws aged).1
        ≡ sum_by (λ w. f (ranked w)) ws + sum_by f aged
  unfolding age_scan
  sum_by-ranked f [] aged = omega arith
  sum_by-ranked f (w ∷ ws) aged = elim (Bool-cases (ltb (want F age now w) w.prio)) [
    | inl e ↦ rw e (omega (arith, sum_by-ranked f ws (moved w ∷ aged), ap f (moved-ranked w e)))
    | inr e ↦ rw e (omega (arith, sum_by-ranked f ws aged, ap f (stay-ranked w e)))
  ]

module _ (F : DoubleOps) (s : Sched F) (now : Timespec) where
  -- Aging touches the waiter list alone.
  pub age_locked_fields : age_locked F s now ≡ record s { waiters = (age_locked F s now).waiters }
  unfolding age_locked
  age_locked_fields = ground arith

  -- The list stays in service order.
  pub age_locked-IsOrdered : IsOrdered s.waiters → IsOrdered (age_locked F s now).waiters
  unfolding age_locked
  age_locked-IsOrdered h = elim (Bool-cases (F.lt (F.dec 0 0) s.bg_age_s)) [
    | inl e ↦ rw e (
        reinsert-IsOrdered _ (age_scan F s.bg_age_s now s.waiters []).1
          (kept-IsOrdered F s.bg_age_s now s.waiters [] h))
    | inr e ↦ rw e h
  ]

  -- No waiter is lost or made up: any count that does not read the rank stays what it was.
  pub sum_by-age_locked :
      (f : Waiter → ℕ)
      → ((w : Waiter) (p : ℕ) → f (record w { prio = p }) ≡ f w)
      → sum_by f (age_locked F s now).waiters ≡ sum_by f s.waiters
  unfolding age_locked
  sum_by-age_locked f same = elim (Bool-cases (F.lt (F.dec 0 0) s.bg_age_s)) [
    | inl e ↦ rw e (
        omega (
          arith,
          sum_by-age_scan F s.bg_age_s now f (λ w. same w (want F s.bg_age_s now w)) s.waiters [],
          sum_by-reinsert f (age_scan F s.bg_age_s now s.waiters []).0
              (age_scan F s.bg_age_s now s.waiters []).1,
        ))
    | inr e ↦ rw e
  ]

  pub All-age_locked {κ} :
      (P : Waiter → Type κ)
      → ((w : Waiter) (p : ℕ) → P w → P (record w { prio = p }))
      → All P s.waiters
      → All P (age_locked F s now).waiters
  unfolding age_locked
  All-age_locked P same h = elim (Bool-cases (F.lt (F.dec 0 0) s.bg_age_s)) [
    | inl e ↦
        let both =
          All-age_scan F s.bg_age_s now P P (λ w p _. p)
            (λ w p _. same w (want F s.bg_age_s now w) p) s.waiters [] h tt in
        rw e (All-reinsert P _ _ both.0 both.1)
    | inr e ↦ rw e h
  ]

  -- With aging on the queue holds the same waiters as before, each with the rank that its wait earns:
  -- any count of them comes out as it does of the old queue with these ranks.
  counted :
      F.lt (F.dec 0 0) s.bg_age_s ≡ true
      → (f : Waiter → ℕ)
      → sum_by f (age_locked F s now).waiters
        ≡ sum_by (λ w. f (ranked F s.bg_age_s now w)) s.waiters
  unfolding age_locked
  counted on f = rw on (
      omega (
        arith,
        sum_by-ranked F s.bg_age_s now f s.waiters [],
        sum_by-reinsert f (age_scan F s.bg_age_s now s.waiters []).0
            (age_scan F s.bg_age_s now s.waiters []).1,
      ))

  -- With aging on, a queue in service order holds the same waiters in service order again, each with
  -- the rank that its wait earns and nothing else changed: whatever is counted of the waiters, the new
  -- queue counts as many as the old one with these ranks. Background work that has waited for the
  -- bound ranks as free at the latest, for twice the bound as paid, and any other waiter as before.
  pub age_locked-ranked :
      F.lt (F.dec 0 0) s.bg_age_s ≡ true
      → IsOrdered s.waiters
      → IsOrdered (age_locked F s now).waiters
        × ((f : Waiter → ℕ)
            → sum_by f (age_locked F s now).waiters
              ≡ sum_by (λ w. f (ranked F s.bg_age_s now w)) s.waiters)
  age_locked-ranked on h = (age_locked-IsOrdered h, counted on)
