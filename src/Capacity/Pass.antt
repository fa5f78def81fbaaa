-- ===== src/Capacity/Pass.antt =====
-- The passes of src/ocapacity.c over the lanes, and its stop.
use omniserve_native.Prelude.{
  ℕ, ◌+◌, ◌≤◌, ◌≡◌, ap, inl, inr, List, [], ◌∷◌, arith, Option-cases, All, sum_by,
}
use omniserve_native.Floats.{DoubleOps}
use omniserve_native.Sched.Snapshot.{SchedStats}
use omniserve_native.Scale.{
  Action, hold, up, down, Reason, reason_none, Policy, Observation, Lane, decide, release_candidate,
  begin_instance, started,
}
use omniserve_native.Scale.Rent.{Rented, decide-begin_instance}
use omniserve_native.Scale.Ledger.{Balanced, Step-Balanced, readies, releases, begins-Balanced}
use omniserve_native.Scale.Release.{
  rented, decide_reason, release_instance-rented, release_instance-le,
}
use omniserve_native.Capacity.{
  Warmed, warmed, failed, Capacity, observe, settle, act, tick_lane, tick_from, tick,
}

module _ (F : DoubleOps) where
  open F use {Double}

  settle-Balanced :
      (l : Lane F) (slot : ℕ) (w : Warmed) (now_s : Double) (c : Capacity F)
      → Balanced F l
      → Balanced F (settle F l slot w now_s c).lane
  unfolding settle
  settle-Balanced l slot (warmed endpoint) now_s c ok =
      Step-Balanced F (readies slot endpoint now_s) ok
  settle-Balanced l slot (failed error) now_s c ok =
      Step-Balanced F (releases slot now_s reason_none) ok

  act-Balanced :
      (l : Lane F) (obs : Observation F) (action : Action) (warm : Policy F → Warmed)
      (now_s : Double) (c : Capacity F)
      → (decide F l obs now_s).0 ≡ action
      → Balanced F l
      → Balanced F (act F l action warm now_s c).lane
  unfolding act
  act-Balanced l obs hold warm now_s c says ok = ok
  act-Balanced l obs up warm now_s c says ok = elim (Option-cases (begin_instance F l now_s)) [
    | inl e ↦ rw (e, act) ok
    | inr ((m, slot), e) ↦
        rw (e, act)
          (settle-Balanced m slot (warm m.policy) now_s c
            (begins-Balanced F l m obs now_s slot says e ok))
  ]
  act-Balanced l obs down warm now_s c says ok = elim (Option-cases (release_candidate F l now_s)) [
    | inl e ↦ rw (e, act) ok
    | inr ((slot, why), e) ↦ rw (e, act) (Step-Balanced F (releases slot now_s why) ok)
  ]

  -- A failed warm gives the new instance back.
  settle-failed :
      (l m : Lane F) (slot : ℕ) (w : Warmed) (now_s : Double) (c : Capacity F)
      → Rented F l m slot now_s
      → ((error : List ℕ) × (w ≡ failed error))
      → rented F (settle F m slot w now_s c).lane ≤ rented F l
  unfolding settle Rented
  settle-failed l m slot (warmed endpoint) now_s c r (error, e) = absurd (clash endpoint error e)
    where
      clash : (a b : List ℕ) → warmed a ≡ failed b → ⊥
      clash a b e = cc
  settle-failed l m slot (failed error) now_s c (here, one, bound, policy, ups, downs, kills) f =
      omega (arith, release_instance-rented F m slot now_s reason_none (started F now_s) here, one)

  act-failed :
      (l : Lane F) (obs : Observation F) (action : Action) (warm : Policy F → Warmed)
      (now_s : Double) (c : Capacity F)
      → (decide F l obs now_s).0 ≡ action
      → Balanced F l
      → ((p : Policy F) → (error : List ℕ) × (warm p ≡ failed error))
      → rented F (act F l action warm now_s c).lane ≤ rented F l
  unfolding act Balanced
  act-failed l obs hold warm now_s c says ok fails = omega arith
  act-failed l obs up warm now_s c says (books, long, capped, kills) fails =
      let (m, slot, begun, r, budget) = decide-begin_instance F l obs now_s long says in
      rw (begun, act) (settle-failed l m slot (warm m.policy) now_s c r (fails m.policy))
  act-failed l obs down warm now_s c says ok fails =
      elim (Option-cases (release_candidate F l now_s)) [
        | inl e ↦ rw (e, act) (omega arith)
        | inr ((slot, why), e) ↦ rw (e, act) (release_instance-le F l slot now_s why)
      ]

  with_reason : Lane F → Reason → Lane F
  with_reason l reason = record l { last_reason = reason }

  tick_lane-Balanced :
      (c : Capacity F) (at : ℕ) (l : Lane F) (stats : SchedStats F) (warm : Policy F → Warmed)
      (now_s : Double)
      → Balanced F l
      → Balanced F (tick_lane F c at l stats warm now_s).lane
  unfolding tick_lane Balanced
  tick_lane-Balanced c at l stats warm now_s ok =
      let obs = (observe F c at l.policy stats now_s).0 in
      let d = decide F l obs now_s in
      act-Balanced (record l { last_reason = d.1 }) obs d.0 warm now_s
        (observe F c at l.policy stats now_s).1 (ap (λ r. r.0) (decide_reason F l d.1 obs now_s)) ok

  tick_lane-failed :
      (c : Capacity F) (at : ℕ) (l : Lane F) (stats : SchedStats F) (warm : Policy F → Warmed)
      (now_s : Double)
      → Balanced F l
      → ((p : Policy F) → (error : List ℕ) × (warm p ≡ failed error))
      → rented F (tick_lane F c at l stats warm now_s).lane ≤ rented F l
  unfolding tick_lane Balanced
  tick_lane-failed c at l stats warm now_s ok fails =
      let obs = (observe F c at l.policy stats now_s).0 in
      let d = decide F l obs now_s in
      act-failed (record l { last_reason = d.1 }) obs d.0 warm now_s
        (observe F c at l.policy stats now_s).1 (ap (λ r. r.0) (decide_reason F l d.1 obs now_s)) ok
        fails

  tick_from-Balanced :
      (c : Capacity F) (at : ℕ) (ls : List (Lane F)) (stats : ℕ → SchedStats F)
      (warm : ℕ → Policy F → Warmed) (now_s : Double)
      → All (Balanced F) ls
      → All (Balanced F) (tick_from F c at ls stats warm now_s).0
  unfolding tick_from
  tick_from-Balanced c at [] stats warm now_s h = tt
  tick_from-Balanced c at (l ∷ ls) stats warm now_s (ok, h) = (
    tick_lane-Balanced c at l (stats at) (warm at) now_s ok,
    tick_from-Balanced (tick_lane F c at l (stats at) (warm at) now_s).capacity (at + 1) ls stats
        warm now_s h,
  )

  -- A pass over lanes whose books balance leaves lanes whose books balance, whatever the scheduler
  -- shows and the control plane answers: every start is a release or an active instance, and the
  -- instances stay within the table and the policy.
  pub tick-Balanced :
      (c : Capacity F) (ls : List (Lane F)) (stats : ℕ → SchedStats F)
      (warm : ℕ → Policy F → Warmed) (now_s : Double)
      → All (Balanced F) ls
      → All (Balanced F) (tick F c ls stats warm now_s).0
  unfolding tick
  tick-Balanced c ls stats warm now_s h = tick_from-Balanced c 0 ls stats warm now_s h

  tick_from-failed :
      (c : Capacity F) (at : ℕ) (ls : List (Lane F)) (stats : ℕ → SchedStats F)
      (warm : ℕ → Policy F → Warmed) (now_s : Double)
      → All (Balanced F) ls
      → ((i : ℕ) (p : Policy F) → (error : List ℕ) × (warm i p ≡ failed error))
      → sum_by (rented F) (tick_from F c at ls stats warm now_s).0 ≤ sum_by (rented F) ls
  unfolding tick_from
  tick_from-failed c at [] stats warm now_s h fails = omega arith
  tick_from-failed c at (l ∷ ls) stats warm now_s (ok, h) fails = omega (
    arith,
    tick_lane-failed c at l (stats at) (warm at) now_s ok (fails at),
    tick_from-failed (tick_lane F c at l (stats at) (warm at) now_s).capacity (at + 1) ls stats warm
        now_s h fails,
  )

  -- If the control plane refuses every warm request, a pass over lanes whose books balance leaves no
  -- more active instances than there were.
  pub tick-failed :
      (c : Capacity F) (ls : List (Lane F)) (stats : ℕ → SchedStats F)
      (warm : ℕ → Policy F → Warmed) (now_s : Double)
      → All (Balanced F) ls
      → ((i : ℕ) (p : Policy F) → (error : List ℕ) × (warm i p ≡ failed error))
      → sum_by (rented F) (tick F c ls stats warm now_s).0 ≤ sum_by (rented F) ls
  unfolding tick
  tick-failed c ls stats warm now_s h fails = tick_from-failed c 0 ls stats warm now_s h fails
