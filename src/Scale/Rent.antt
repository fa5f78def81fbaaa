-- ===== src/Scale/Rent.antt =====
-- `oscale_begin_instance` of src/oscale.c after `oscale_decide`: the bounds on what is rented.
use omniserve_native.Prelude.{
  ℕ, suc, ◌+◌, ◌≤◌, ◌<◌, ◌≡◌, refl, sym, ◌∙◌, inl, inr, true, false, ◌&&◌, List, [], ◌∷◌, ◌++◌,
  none, some, arith, Bool-cases, Option-cases, leb, length, length-append, get_elem?, set,
}
use mathlib.Core.Option.{some-injective}
use omniserve_native.Prelude.Int.{pos, ◌≤ℤ◌}
use omniserve_native.Floats.{DoubleOps}
use omniserve_native.Scale.{
  up, Observation, Instance, Lane, max_instances_ever, active_instances, decide,
  lane_spend_rate_usd_hr, free_slot, started, acted, begin_instance,
}
use omniserve_native.Scale.Decide.{MayRent, decide-MayRent}

module _ (F : DoubleOps) where
  open F use {Double, dec, of_int, mul, lt}

  -- A rented slot adds one to the active instances.
  pub free_slot-at :
      (is : List (Instance F)) (from slot : ℕ) (v : Instance F)
      → free_slot F is from ≡ some slot
      → v.active ≡ true
      → (k : ℕ) × (slot ≡ from + k)
        × (active_instances F (set is k v) ≡ active_instances F is + 1)
        × (get_elem? (set is k v) k ≡ some v)
        × (length (set is k v) ≡ length is)
  unfolding free_slot active_instances
  free_slot-at [] from slot v e on = cc
  free_slot-at (i ∷ is) from slot v e on = elim (Bool-cases i.active) [
    | inr free ↦ (
      0,
      sym (some-injective from slot (rw (free, free_slot) at e)) ∙ omega arith,
      rw (on, free) (omega arith),
      refl,
      refl,
    )
    | inl taken ↦
        let (k, there, more, here, long) =
          free_slot-at is (from + 1) slot v (rw (taken, free_slot) at e) on in
        (suc k, omega (arith, there), omega (arith, more), here, omega (arith, long))
  ]

  pub all_active :
      (is : List (Instance F)) (from : ℕ)
      → free_slot F is from ≡ none
      → active_instances F is ≡ length is
  unfolding free_slot active_instances
  all_active [] from e = refl
  all_active (i ∷ is) from e = elim (Bool-cases i.active) [
    | inr free ↦ let e' = rw (free, free_slot) at e in cc
    | inl taken ↦ rw taken (omega (arith, all_active is (from + 1) (rw (taken, free_slot) at e)))
  ]

  pub active_instances-append :
      (xs ys : List (Instance F))
      → active_instances F (xs ++ ys) ≡ active_instances F xs + active_instances F ys
  unfolding active_instances
  active_instances-append [] ys = omega arith
  active_instances-append (x ∷ xs) ys = omega (arith, active_instances-append xs ys)

  one_more :
      (xs : List (Instance F)) (now_s : Double)
      → active_instances F (xs ++ started F now_s ∷ []) ≡ active_instances F xs + 1
  unfolding active_instances
  one_more xs now_s = active_instances-append xs (started F now_s ∷ [])

  -- What one more rented instance does to a lane.
  unfoldable pub Rented : Lane F → Lane F → ℕ → Double → Type 0
  Rented lane more slot now_s =
      (get_elem? more.instances slot ≡ some (started F now_s))
      × (active_instances F more.instances ≡ active_instances F lane.instances + 1)
      × (length more.instances ≤ max_instances_ever)
      × (more.policy ≡ lane.policy)
      × (more.scale_ups ≡ lane.scale_ups + 1)
      × (more.scale_downs ≡ lane.scale_downs)
      × (more.ttl_kills ≡ lane.ttl_kills)

  get_elem?-last {ℓ} :
      {A : Type ℓ} (xs : List A) (x : A) → get_elem? (xs ++ x ∷ []) (length xs) ≡ some x
  get_elem?-last [] x = refl
  get_elem?-last (y ∷ xs) x = get_elem?-last xs x

  -- With room in the lane, `begin_instance` finds a slot.
  pub begin_instance-Rented :
      (lane : Lane F) (now_s : Double)
      → length lane.instances ≤ max_instances_ever
      → active_instances F lane.instances < max_instances_ever
      → (more : Lane F) × (slot : ℕ) × (begin_instance F lane now_s ≡ some (more, slot))
        × Rented lane more slot now_s
  unfolding begin_instance Rented
  begin_instance-Rented lane now_s long room = elim (Option-cases (free_slot F lane.instances 0)) [
    | inr (slot, e) ↦
        let (k, there, more, here, same) =
          free_slot-at lane.instances 0 slot (started F now_s) e refl in
        let at : slot ≡ k = there ∙ omega arith in
        (
          acted F lane (set lane.instances slot (started F now_s)) now_s,
          slot,
          rw (e, begin_instance) refl,
          rw at (here, more, omega (arith, same), refl, refl, refl, refl),
        )
    | inl none_free ↦
        let active = all_active lane.instances 0 none_free in
        let space : leb max_instances_ever (length lane.instances) ≡ false =
          ground (arith, active) in
        (
          acted F lane (lane.instances ++ started F now_s ∷ []) now_s,
          length lane.instances,
          rw (none_free, space, begin_instance) refl,
          (
            get_elem?-last lane.instances (started F now_s),
            one_more lane.instances now_s,
            omega (arith, active, length-append lane.instances (started F now_s ∷ [])),
            refl,
            refl,
            refl,
            refl,
          ),
        )
  ]

  -- The bounds on a lane whose instance was just rented: no more instances than its policy and the
  -- table allow, and, with a ceiling set, no rate of spending above it.
  unfoldable pub InBudget : Lane F → Type 0
  InBudget lane =
      (active_instances F lane.instances ≤ max_instances_ever)
      × (pos (active_instances F lane.instances) ≤ℤ lane.policy.max_instances)
      × (lt (dec 0 0) lane.policy.max_usd_hr
            && lt lane.policy.max_usd_hr (lane_spend_rate_usd_hr F lane)
          ≡ false)

  -- On a lane with no more instances than the table holds for it, when `decide` says up,
  -- `begin_instance` finds a slot and starts one instance there; the active instances are then no
  -- more than the table and the policy allow, and with a ceiling set the spending rate is not
  -- above it.
  pub decide-begin_instance :
      (lane : Lane F) (obs : Observation F) (now_s : Double)
      → length lane.instances ≤ max_instances_ever
      → (decide F lane obs now_s).0 ≡ up
      → (more : Lane F) × (slot : ℕ) × (begin_instance F lane now_s ≡ some (more, slot))
        × Rented lane more slot now_s
        × InBudget more
  unfolding Rented InBudget MayRent lane_spend_rate_usd_hr
  decide-begin_instance lane obs now_s long e =
      let (idle, enabled, demand, (local, deep, wait, below, room, cheap, worth)) =
        decide-MayRent F lane obs now_s e in
      let (more, slot, begun, (here, one, bound, policy, ups, downs, kills)) =
        begin_instance-Rented lane now_s long room in
      (
        more,
        slot,
        begun,
        (here, one, bound, policy, ups, downs, kills),
        (
          omega (arith, one),
          rw (policy, one) (ground arith),
          rw (policy, one, lane_spend_rate_usd_hr) cheap,
        ),
      )
