-- ===== src/Scale/Tests.antt =====
-- Runs of src/oscale.c with times and prices in whole numbers.
use omniserve_native.Prelude.{ℕ, ◌≡◌, refl, true, false, [], ◌∷◌, some, arith, codes}
use omniserve_native.Prelude.Int.{pos, ◌+ℤ◌, ◌-ℤ◌, ◌*ℤ◌}
use omniserve_native.Floats.Whole.{whole}
use omniserve_native.Scale.{
  Reason, Policy, Lane, Observation, Instance, up, decide, begin_instance, new_lane, lane_policy,
  release_candidate, first_expired, idle_candidate, most_idle, rentable_tiers, has_tier,
  active_instances, eligible_depth, eligible_wait_ms, decide_rent, rent_is_justified,
  marginal_backlog, free_slot,
}
use omniserve_native.Scale.Rent.{Rented, InBudget, decide-begin_instance}
use omniserve_native.Scale.Ledger.{Balanced, fresh, after, begins, Reach-Balanced}
use omniserve_native.Scale.Tiers.{with_background, decide_blind}

-- An instance costs 2 an hour, earns 1 per request, and takes ten seconds for one.
abbrev policy : Policy whole
policy = record {
  price_usd_hr = pos 2;
  revenue_usd_per_req = pos 1;
  seconds_per_req = pos 10;
  margin = pos 2;
  scale_up_queue_ms = pos 2000;
  max_usd_hr = pos 4;
  cooldown_s = pos 120;
  idle_scale_down_s = pos 180;
  max_instance_ttl_s = pos 3600;
  tier_mask = 9;
  scale_up_queue_depth = pos 2;
  max_instances = pos 2;
  enabled = true;
  name = codes "tts";
  cog_template = [];
  hardware = [];
}

-- Three paid requests wait, and the device is full.
abbrev busy : Observation whole
busy = record {
  queue_depth = λ tier. pos 3;
  queue_ms_max = λ tier. pos 5000;
  local_permits_free = pos 0;
  backlog_reqs = pos 100;
}

abbrev rented : Instance whole
rented = record {
  started_s = pos 1000;
  last_used_s = pos 1000;
  endpoint = [];
  active = true;
  ready = false;
}

abbrev first : Lane whole
first = record {
  policy = record policy { tier_mask = 1 };
  instances = [];
  last_action_s = pos 0;
  scale_ups = 0;
  scale_downs = 0;
  ttl_kills = 0;
  instance_seconds = pos 0;
  spend_usd = pos 0;
  last_reason = Reason.reason_none;
}

abbrev second : Lane whole
second = record first {
  instances = rented ∷ [];
  last_action_s = pos 1000;
  scale_ups = 1;
  last_reason = Reason.pressure_sustained;
}

first_is_new : new_lane whole policy ≡ first
unfolding new_lane lane_policy rentable_tiers has_tier
first_is_new = refl

first_goes_up : (decide whole first busy (pos 1000)).0 ≡ up
unfolding decide release_candidate first_expired idle_candidate most_idle has_tier active_instances
    eligible_depth eligible_wait_ms decide_rent rent_is_justified marginal_backlog ◌+ℤ◌ ◌*ℤ◌ ◌-ℤ◌
first_goes_up = refl

first_begins : begin_instance whole first (pos 1000) ≡ some (second, 0)
unfolding begin_instance free_slot
first_begins = refl

decide-begin_instance_example :
    (more : Lane whole) × (slot : ℕ) × (begin_instance whole first (pos 1000) ≡ some (more, slot))
    × Rented whole first more slot (pos 1000)
    × InBudget whole more
decide-begin_instance_example =
    decide-begin_instance whole first busy (pos 1000) (omega arith) first_goes_up

Reach-Balanced_example : Balanced whole second
unfolding new_lane lane_policy rentable_tiers has_tier
Reach-Balanced_example =
    Reach-Balanced whole policy second
      (after fresh (begins busy (pos 1000) 0 first_goes_up first_begins))

decide_blind_example :
    (decide whole first (with_background whole busy (pos 500) (pos 90000)) (pos 1000)).0
    ≡ (decide whole first busy (pos 1000)).0
unfolding lane_policy rentable_tiers has_tier
decide_blind_example = decide_blind whole policy first busy (pos 1000) (pos 500) (pos 90000) refl
