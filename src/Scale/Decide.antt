-- ===== src/Scale/Decide.antt =====
-- `oscale_decide` and `oscale_begin_instance` of src/oscale.c: what is given back, and under which
-- bounds a new instance is rented.
use omniserve_native.Prelude.{
  ℕ, zero, suc, ◌+◌, ◌<◌, ◌≡◌, refl, sym, ap, ◌∙◌, subst, ◌⊎◌, inl, inr, Bool, true, false, ◌&&◌,
  ◌||◌, List, [], ◌∷◌, Option, none, some, arith, Bool-cases, Option-cases, leb, get_elem?,
}
use mathlib.Core.Option.{some-injective}
use omniserve_native.Prelude.Int.{pos, ltb_ℤ, leb_ℤ}
use omniserve_native.Floats.{DoubleOps}
use omniserve_native.Scale.{
  up, down, Reason, ttl_expired, idle, Policy, Observation, Instance, Lane, max_instances_ever,
  active_instances, is_expired, first_expired, idle_of, most_idle, idle_candidate,
  release_candidate, decide, decide_rent, eligible_depth, eligible_wait_ms, rent_is_justified,
  marginal_backlog,
}

module _ (F : DoubleOps) where
  open F use {Double, dec, of_int, add, sub, mul, div, lt, le}

  -- An instance that is due: rented, and beyond its lifetime or idle for long enough.
  unfoldable pub IsDue : Lane F → Double → ℕ → Reason → Type 0
  IsDue lane now_s at why =
      (i : Instance F) × (get_elem? lane.instances at ≡ some i)
      × (i.active ≡ true)
      × (((why ≡ ttl_expired)
            × (lt (dec 0 0) lane.policy.max_instance_ttl_s ≡ true)
            × (le lane.policy.max_instance_ttl_s (sub now_s i.started_s) ≡ true))
          ⊎ ((why ≡ idle)
              × (lt (dec 0 0) lane.policy.idle_scale_down_s ≡ true)
              × (le lane.policy.idle_scale_down_s (idle_of F now_s i) ≡ true)))

  both : (a b : Bool) → a && b ≡ true → (a ≡ true) × (b ≡ true)
  both true b e = (refl, e)
  both false b e = cc

  first_expired-at :
      (policy : Policy F) (now_s : Double) (is : List (Instance F)) (from at : ℕ)
      → first_expired F policy now_s is from ≡ some at
      → (k : ℕ) × (i : Instance F) × (at ≡ from + k)
        × (get_elem? is k ≡ some i)
        × (is_expired F policy now_s i ≡ true)
  unfolding first_expired
  first_expired-at policy now_s [] from at e = cc
  first_expired-at policy now_s (i ∷ is) from at e =
      elim (Bool-cases (is_expired F policy now_s i)) [
        | inl due ↦ (
          0,
          i,
          sym (some-injective from at (rw (due, first_expired) at e)) ∙ omega arith,
          refl,
          due,
        )
        | inr other ↦
            let (k, j, there, found, due) =
              first_expired-at policy now_s is (from + 1) at (rw (other, first_expired) at e) in
            (suc k, j, omega (arith, there), found, due)
      ]

  -- What the loop over the idle instances ends with is what it began with, or idle for long enough.
  most_idle-at :
      (policy : Policy F) (now_s : Double) (is : List (Instance F)) (from : ℕ) (oldest : Option ℕ)
      (oldest_idle : Double) (at : ℕ)
      → most_idle F policy now_s is from oldest oldest_idle ≡ some at
      → (oldest ≡ some at)
        ⊎ ((k : ℕ) × (i : Instance F) × (at ≡ from + k)
            × (get_elem? is k ≡ some i)
            × (i.active ≡ true)
            × (le policy.idle_scale_down_s (idle_of F now_s i) ≡ true))
  unfolding most_idle
  most_idle-at policy now_s [] from oldest oldest_idle at e = inl e
  most_idle-at policy now_s (i ∷ is) from oldest oldest_idle at e =
      let long = le policy.idle_scale_down_s (idle_of F now_s i) in
      let longer = lt oldest_idle (idle_of F now_s i) in
      elim (Bool-cases (i.active && (long && longer))) [
        | inl due ↦
            elim (most_idle-at policy now_s is (from + 1) (some from) (idle_of F now_s i) at
              (rw (due, most_idle) at e)) [
                | inl here ↦
                    let (active, both_long) = both i.active (long && longer) due in
                    inr (
                      0,
                      i,
                      sym (some-injective from at here) ∙ omega arith,
                      refl,
                      active,
                      (both long longer both_long).0,
                    )
                | inr (k, j, there, found, active, old) ↦
                    inr (suc k, j, omega (arith, there), found, active, old)
              ]
        | inr other ↦
            elim (most_idle-at policy now_s is (from + 1) oldest oldest_idle at
              (rw (other, most_idle) at e)) [
                | inl same ↦ inl same
                | inr (k, j, there, found, active, old) ↦
                    inr (suc k, j, omega (arith, there), found, active, old)
              ]
      ]

  idle_candidate-IsDue :
      (lane : Lane F) (now_s : Double) (at : ℕ) (why : Reason)
      → idle_candidate F lane now_s ≡ some (at, why)
      → IsDue lane now_s at why
  unfolding idle_candidate IsDue
  idle_candidate-IsDue lane now_s at why e =
      elim (Bool-cases (lt (dec 0 0) lane.policy.idle_scale_down_s)) [
        | inr off ↦ let e' = rw (off, idle_candidate) at e in cc
        | inl on ↦
            elim (Option-cases (most_idle F lane.policy now_s lane.instances 0 none (dec 0 0))) [
              | inl no_one ↦ let e' = rw (on, no_one, idle_candidate) at e in cc
              | inr (k, f) ↦
                  let same = some-injective (k, idle) (at, why) (rw (on, f, idle_candidate) at e) in
                  elim (most_idle-at lane.policy now_s lane.instances 0 none (dec 0 0) k f) [
                    | inl never ↦ cc
                    | inr (n, i, there, found, active, old) ↦ (
                      i,
                      subst (λ m. get_elem? lane.instances m ≡ some i)
                          (sym (sym (ap (λ q. q.0) same) ∙ there ∙ omega arith)) found,
                      active,
                      inr (sym (ap (λ q. q.1) same), on, old),
                    )
                  ]
            ]
      ]

  -- What `release_candidate` names is a rented instance, and beyond its lifetime or idle for long
  -- enough, as the reason says.
  pub release_candidate-IsDue :
      (lane : Lane F) (now_s : Double) (at : ℕ) (why : Reason)
      → release_candidate F lane now_s ≡ some (at, why)
      → IsDue lane now_s at why
  unfolding release_candidate IsDue
  release_candidate-IsDue lane now_s at why e =
      elim (Bool-cases (lt (dec 0 0) lane.policy.max_instance_ttl_s)) [
        | inr off ↦ idle_candidate-IsDue lane now_s at why (rw (off, release_candidate) at e)
        | inl on ↦ elim (Option-cases (first_expired F lane.policy now_s lane.instances 0)) [
          | inl no_one ↦
              idle_candidate-IsDue lane now_s at why (rw (on, no_one, release_candidate) at e)
          | inr (k, f) ↦
              let same =
                some-injective (k, ttl_expired) (at, why) (rw (on, f, release_candidate) at e) in
              let (n, i, there, found, due) =
                first_expired-at lane.policy now_s lane.instances 0 k f in
              let (active, old) = both i.active _ due in
              (
                i,
                subst (λ m. get_elem? lane.instances m ≡ some i)
                    (sym (sym (ap (λ q. q.0) same) ∙ there ∙ omega arith)) found,
                active,
                inl (sym (ap (λ q. q.1) same), on, old),
              )
        ]
      ]

  first_expired-finds :
      (policy : Policy F) (now_s : Double) (is : List (Instance F)) (from k : ℕ) (i : Instance F)
      → get_elem? is k ≡ some i
      → is_expired F policy now_s i ≡ true
      → (at : ℕ) × (first_expired F policy now_s is from ≡ some at)
  unfolding first_expired
  first_expired-finds policy now_s [] from k i e due = cc
  first_expired-finds policy now_s (j ∷ is) from zero i e due = (
    from,
    rw
        (
          subst (λ x. is_expired F policy now_s x ≡ true) (sym (some-injective j i e)) due,
          first_expired,
        )
        refl,
  )
  first_expired-finds policy now_s (j ∷ is) from (suc k) i e due =
      elim (Bool-cases (is_expired F policy now_s j)) [
        | inl first ↦ (from, rw (first, first_expired) refl)
        | inr later ↦
            let (at, found) = first_expired-finds policy now_s is (from + 1) k i e due in
            (at, rw (later, first_expired) found)
      ]

  -- With a lifetime set, `decide` gives back a rented instance beyond it next, whatever the demand
  -- is and whether or not the lane is enabled.
  pub decide_expired :
      (lane : Lane F) (obs : Observation F) (now_s : Double) (k : ℕ) (i : Instance F)
      → get_elem? lane.instances k ≡ some i
      → i.active ≡ true
      → lt (dec 0 0) lane.policy.max_instance_ttl_s ≡ true
      → le lane.policy.max_instance_ttl_s (sub now_s i.started_s) ≡ true
      → decide F lane obs now_s ≡ (down, ttl_expired)
  unfolding decide release_candidate
  decide_expired lane obs now_s k i at active on old =
      let due : is_expired F lane.policy now_s i ≡ true = rw (active, old) refl in
      let (first, found) = first_expired-finds lane.policy now_s lane.instances 0 k i at due in
      rw (on, found, decide, release_candidate) refl

  -- The conditions of `decide_rent`.
  unfoldable pub MayRent : Lane F → Observation F → Double → Type 0
  MayRent lane obs now_s =
      (ltb_ℤ (pos 0) obs.local_permits_free ≡ false)
      × (ltb_ℤ (eligible_depth F lane.policy obs) lane.policy.scale_up_queue_depth ≡ false)
      × (lt (eligible_wait_ms F lane.policy obs) lane.policy.scale_up_queue_ms ≡ false)
      × (leb_ℤ lane.policy.max_instances (pos (active_instances F lane.instances)) ≡ false)
      × (active_instances F lane.instances < max_instances_ever)
      × (lt (dec 0 0) lane.policy.max_usd_hr
            && lt lane.policy.max_usd_hr (
                mul (of_int (pos (active_instances F lane.instances + 1))) lane.policy.price_usd_hr)
          ≡ false)
      × ((rent_is_justified F lane.policy
            (marginal_backlog F lane.policy obs (active_instances F lane.instances))).0
          ≡ true)

  neither : (a b : Bool) → a || b ≡ false → (a ≡ false) × (b ≡ false)
  neither false b e = (refl, e)
  neither true b e = cc

  decide_rent-MayRent :
      (lane : Lane F) (obs : Observation F) (now_s : Double)
      → (decide_rent F lane obs now_s).0 ≡ up
      → MayRent lane obs now_s
  unfolding decide_rent MayRent
  decide_rent-MayRent lane obs now_s e =
      let active = active_instances F lane.instances in
      let shallow = ltb_ℤ (eligible_depth F lane.policy obs) lane.policy.scale_up_queue_depth in
      let short = lt (eligible_wait_ms F lane.policy obs) lane.policy.scale_up_queue_ms in
      let capped = leb_ℤ lane.policy.max_instances (pos active) in
      let full = leb max_instances_ever active in
      let dear =
        lt (dec 0 0) lane.policy.max_usd_hr
        && lt lane.policy.max_usd_hr (mul (of_int (pos (active + 1))) lane.policy.price_usd_hr) in
      let worth = (rent_is_justified F lane.policy (marginal_backlog F lane.policy obs active)).0 in
      elim (Bool-cases (ltb_ℤ (pos 0) obs.local_permits_free)) [
        | inl c1 ↦ let e' = rw (c1, decide_rent) at e in cc
        | inr c1 ↦ elim (Bool-cases (shallow || short)) [
          | inl c2 ↦ let e' = rw (c1, c2, decide_rent) at e in cc
          | inr c2 ↦ elim (Bool-cases (capped || full)) [
            | inl c3 ↦ let e' = rw (c1, c2, c3, decide_rent) at e in cc
            | inr c3 ↦ elim (Bool-cases dear) [
              | inl c4 ↦ let e' = rw (c1, c2, c3, c4, decide_rent) at e in cc
              | inr c4 ↦ elim (Bool-cases worth) [
                | inr c5 ↦ let e' = rw (c1, c2, c3, c4, c5, decide_rent) at e in cc
                | inl c5 ↦
                    let (deep, long) = neither shallow short c2 in
                    let (below, room) = neither capped full c3 in
                    (c1, deep, long, below, ground arith, c4, c5)
              ]
            ]
          ]
        ]
      ]

  -- Hardware is rented only for an enabled lane with nothing to give back and with eligible demand.
  pub decide-MayRent :
      (lane : Lane F) (obs : Observation F) (now_s : Double)
      → (decide F lane obs now_s).0 ≡ up
      → (release_candidate F lane now_s ≡ none)
        × (lane.policy.enabled ≡ true)
        × (leb_ℤ (eligible_depth F lane.policy obs) (pos 0) ≡ false)
        × MayRent lane obs now_s
  unfolding decide
  decide-MayRent lane obs now_s e = elim (Option-cases (release_candidate F lane now_s)) [
    | inr ((at, why), c0) ↦ let e' = rw (c0, decide) at e in cc
    | inl c0 ↦ elim (Bool-cases lane.policy.enabled) [
      | inr c1 ↦ let e' = rw (c0, c1, decide) at e in cc
      | inl c1 ↦ elim (Bool-cases (leb_ℤ (eligible_depth F lane.policy obs) (pos 0))) [
        | inl c2 ↦ let e' = rw (c0, c1, c2, decide) at e in cc
        | inr c2 ↦ (c0, c1, c2, decide_rent-MayRent lane obs now_s (rw (c0, c1, c2, decide) at e))
      ]
    ]
  ]
