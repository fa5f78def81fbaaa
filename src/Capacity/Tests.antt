-- ===== src/Capacity/Tests.antt =====
-- Runs of the controller of src/ocapacity.c, with whole numbers for the times and the prices.
use omniserve_native.Prelude.{ℕ, ◌≤◌, ◌≡◌, refl, true, List, [], ◌∷◌, none, codes, All, sum_by}
use omniserve_native.Prelude.Int.{pos}
use omniserve_native.Floats.Whole.{whole}
use omniserve_native.Sched.Snapshot.{SchedStats}
use omniserve_native.Scale.{Policy, Lane, new_lane}
use omniserve_native.Scale.Ledger.{Balanced, Reach-Balanced, fresh}
use omniserve_native.Scale.Release.{rented, new_lane_policy}
use omniserve_native.Capacity.{Warmed, warmed, failed, start, tick, overflow_endpoint}
use omniserve_native.Capacity.Pass.{tick-Balanced, tick-failed}
use omniserve_native.Capacity.Stop.{overflow_endpoint_background, IsAdded}

abbrev policy : Policy whole
policy = record {
  price_usd_hr = pos 2;
  revenue_usd_per_req = pos 100;
  seconds_per_req = pos 10;
  margin = pos 2;
  scale_up_queue_ms = pos 2000;
  max_usd_hr = pos 4;
  cooldown_s = pos 120;
  idle_scale_down_s = pos 180;
  max_instance_ttl_s = pos 3600;
  tier_mask = 9;
  scale_up_queue_depth = pos 2;
  max_instances = pos 2;
  enabled = true;
  name = codes "tts";
  cog_template = [];
  hardware = [];
}

abbrev lanes : List (Lane whole)
lanes = new_lane whole policy ∷ []

lanes-Balanced : All (Balanced whole) lanes
lanes-Balanced = (Reach-Balanced whole policy (new_lane whole policy) fresh, tt)

-- The device is full and three requests wait on each tier.
abbrev full : SchedStats whole
full = record {
  slots = 4;
  used_slots = 4;
  active = 4;
  waiting = λ tier. 3;
  served = λ tier. 0;
  queue_ms_total = λ tier. pos 0;
  queue_ms_max = λ tier. pos 5000;
  timed_out = λ tier. 0;
}

abbrev accepts : ℕ → Policy whole → Warmed
accepts i p = warmed (codes "http://10.0.0.1")

abbrev refuses : ℕ → Policy whole → Warmed
refuses i p = failed (codes "no pods")

tick-Balanced_example :
    All (Balanced whole) (tick whole (start whole) lanes (λ i. full) accepts (pos 1000)).0
tick-Balanced_example =
    tick-Balanced whole (start whole) lanes (λ i. full) accepts (pos 1000) lanes-Balanced

tick-failed_example :
    sum_by (rented whole) (tick whole (start whole) lanes (λ i. full) refuses (pos 1000)).0
    ≤ sum_by (rented whole) lanes
tick-failed_example =
    tick-failed whole (start whole) lanes (λ i. full) refuses (pos 1000) lanes-Balanced
      (λ i p. (codes "no pods", refl))

lanes-IsAdded : All (IsAdded whole) lanes
lanes-IsAdded = ((policy, new_lane_policy whole policy), tt)

overflow_endpoint_background_example :
    overflow_endpoint whole lanes (codes "tts") 3 (pos 1000) ≡ none
overflow_endpoint_background_example =
    overflow_endpoint_background whole lanes (codes "tts") (pos 1000) lanes-IsAdded
