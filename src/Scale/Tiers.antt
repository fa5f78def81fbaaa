-- ===== src/Scale/Tiers.antt =====
-- The tiers of src/oscale.c: demand that a lane's policy does not see cannot rent.
use omniserve_native.Prelude.{
  ℕ, ◌<◌, ◌≡◌, refl, ap, Bool, true, false, not, Option, none, some, arith, if◌then◌else◌, update,
}
use omniserve_native.Prelude.Int.{ℤ, pos, leb_ℤ, ltb_ℤ}
use omniserve_native.Floats.{DoubleOps}
use omniserve_native.Scale.{
  Action, hold, down, Reason, disabled, Policy, Observation, Lane, has_tier, rentable_tiers,
  lane_policy, eligible_depth, eligible_wait_ms, decide, decide_rent, release_candidate,
  total_depth, tier_not_eligible, pressure_too_low,
}

-- No lane has background work among its tiers, and no lane is without a tier.
pub rentable_tiers_lem :
    (mask : ℕ) → (has_tier (rentable_tiers mask) 3 ≡ false) × (0 < rentable_tiers mask)
unfolding has_tier rentable_tiers
rentable_tiers_lem mask = ground arith

module _ (F : DoubleOps) where
  open F use {Double, dec, lt}

  -- The observation with other demand on the background tier.
  abbrev pub with_background : Observation F → ℤ → Double → Observation F
  with_background obs depth wait_ms = record obs {
    queue_depth = update obs.queue_depth 3 depth;
    queue_ms_max = update obs.queue_ms_max 3 wait_ms;
  }

  depth_blind :
      (policy : Policy F) (obs : Observation F) (depth : ℤ) (wait_ms : Double)
      → has_tier policy.tier_mask 3 ≡ false
      → eligible_depth F policy (with_background obs depth wait_ms) ≡ eligible_depth F policy obs
  unfolding eligible_depth
  depth_blind policy obs depth wait_ms no_bg = rw (no_bg, eligible_depth) refl

  wait_blind :
      (policy : Policy F) (obs : Observation F) (depth : ℤ) (wait_ms : Double)
      → has_tier policy.tier_mask 3 ≡ false
      → eligible_wait_ms F policy (with_background obs depth wait_ms)
        ≡ eligible_wait_ms F policy obs
  unfolding eligible_wait_ms
  wait_blind policy obs depth wait_ms no_bg = rw (no_bg, eligible_wait_ms) refl

  decide_rent_blind :
      (lane : Lane F) (obs : Observation F) (now_s : Double) (depth : ℤ) (wait_ms : Double)
      → has_tier lane.policy.tier_mask 3 ≡ false
      → decide_rent F lane (with_background obs depth wait_ms) now_s ≡ decide_rent F lane obs now_s
  unfolding decide_rent
  decide_rent_blind lane obs now_s depth wait_ms no_bg =
      rw
        (
          depth_blind lane.policy obs depth wait_ms no_bg,
          wait_blind lane.policy obs depth wait_ms no_bg,
          decide_rent,
        )
        refl

  same_action :
      (due : Option (ℕ × Reason)) (on m n : Bool) (r s : Reason) (x y : Action × Reason)
      → m ≡ n
      → x ≡ y
      → (elim due as (λ _. Action × Reason) [
        | some (at, why) ↦ (down, why)
        | none ↦ if not on then (hold, disabled) else if m then (hold, r) else x
      ]).0
        ≡ (elim due as (λ _. Action × Reason) [
          | some (at, why) ↦ (down, why)
          | none ↦ if not on then (hold, disabled) else if n then (hold, s) else y
        ]).0
  same_action (some (at, why)) on m n r s x y d e = refl
  same_action none false m n r s x y d e = refl
  same_action none true true true r s x y d e = refl
  same_action none true false false r s x y d e = ap (λ p. p.0) e
  same_action none true true false r s x y d e = cc
  same_action none true false true r s x y d e = cc

  -- On a lane with the policy that the table gives it, what `decide` does is the same for every
  -- demand on the background tier.
  pub decide_blind :
      (policy : Policy F) (lane : Lane F) (obs : Observation F) (now_s : Double) (depth : ℤ)
      (wait_ms : Double)
      → lane.policy ≡ lane_policy F policy
      → (decide F lane (with_background obs depth wait_ms) now_s).0 ≡ (decide F lane obs now_s).0
  unfolding decide lane_policy
  decide_blind policy lane obs now_s depth wait_ms own =
      let no_bg : has_tier lane.policy.tier_mask 3 ≡ false =
        rw own (rentable_tiers_lem policy.tier_mask).0 in
      let same = depth_blind lane.policy obs depth wait_ms no_bg in
      let other = with_background obs depth wait_ms in
      same_action (release_candidate F lane now_s) lane.policy.enabled
        (leb_ℤ (eligible_depth F lane.policy other) (pos 0))
        (leb_ℤ (eligible_depth F lane.policy obs) (pos 0))
        (if ltb_ℤ (pos 0) (total_depth F other) then tier_not_eligible else pressure_too_low)
        (if ltb_ℤ (pos 0) (total_depth F obs) then tier_not_eligible else pressure_too_low)
        (decide_rent F lane other now_s) (decide_rent F lane obs now_s)
        (ap (λ d. leb_ℤ d (pos 0)) same) (decide_rent_blind lane obs now_s depth wait_ms no_bg)
