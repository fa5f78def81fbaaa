-- ===== src/Capacity.antt =====
-- src/ocapacity.c: the controller that rents and gives back instances. A pass goes through the
-- lanes of src/oscale.c; what the scheduler shows at each lane and what the control plane answers to
-- a warm request are arguments. The arrays of the controller are functions of the lane's index. The
-- thread, the HTTP request behind a warm, the log and the status text are not modelled.
pub mod Pass
pub mod Stop
mod Tests
use omniserve_native.Prelude.{
  ℕ, zero, suc, ◌+◌, ◌-◌, Bool, true, false, not, ◌&&◌, List, [], ◌∷◌, ◌++◌, Option, none, some,
  ltb, leb, ◌||◌, if◌then◌else◌, take, update, length, get_elem?,
}
use omniserve_native.Prelude.Int.{ℤ, pos, sub_ℕ, ltb_ℤ, ◌-ℤ◌}
use omniserve_native.Floats.{DoubleOps}
use omniserve_native.Sched.Snapshot.{SchedStats}
use omniserve_native.Scale.{
  Action, hold, up, down, Reason, reason_none, Policy, Observation, Instance, Lane, has_tier,
  eligible_depth, decide, release_candidate, begin_instance, instance_ready, instance_touch,
  release_instance, lane_by_name, is_nil,
}
use omniserve_native.Json.Lookup.{same_bytes}

-- The control plane's answer: the endpoint, or the text of the error.
pub data Warmed : Type 0 where
  warmed failed : List ℕ → Warmed

module _ (F : DoubleOps) where
  open F use {Double, dec, of_int, add, sub, mul, div, lt, le}

  pub record Capacity : Type 0 where
    pub served_baseline : ℕ → ℤ
    pub baseline_at_s : ℕ → Double
    pub observed_rate_hz : ℕ → Double
    pub warm_failures : ℕ
    pub last_error : List ℕ

  unfoldable pub start : Capacity
  start = record {
    served_baseline = λ _. pos 0;
    baseline_at_s = λ _. dec 0 0;
    observed_rate_hz = λ _. dec 0 0;
    warm_failures = 0;
    last_error = [];
  }

  abbrev eligible : Policy F → SchedStats F → ℕ → ℕ
  eligible policy stats tier = if has_tier policy.tier_mask tier then stats.served tier else 0

  unfoldable pub served_of : Policy F → SchedStats F → ℕ
  served_of policy stats =
      eligible policy stats 0
      + eligible policy stats 1
      + eligible policy stats 2
      + eligible policy stats 3

  -- The arrival rate that the pass goes by.
  unfoldable pub rate_of : Capacity → ℕ → ℕ → Double → Double
  rate_of c index served now_s =
      let elapsed = sub now_s (c.baseline_at_s index) in
      let delta = pos served -ℤ c.served_baseline index in
      if lt (dec 0 0) (c.baseline_at_s index) && le (dec 10 1) elapsed
      then div (of_int (if ltb_ℤ delta (pos 0) then pos 0 else delta)) elapsed
      else c.observed_rate_hz index

  unfoldable pub observe :
      Capacity → ℕ → Policy F → SchedStats F → Double → Observation F × Capacity
  observe c index policy stats now_s =
      let served = served_of policy stats in
      let rate = rate_of c index served now_s in
      let seen : Observation F = record {
        queue_depth = λ tier. pos (stats.waiting tier);
        queue_ms_max = stats.queue_ms_max;
        local_permits_free = pos (stats.slots - stats.used_slots);
        backlog_reqs = dec 0 0;
      } in
      (
        record seen {
          backlog_reqs = add (of_int (eligible_depth F policy seen)) (mul rate (dec 36000 1));
        },
        record c {
          served_baseline = update c.served_baseline index (pos served);
          baseline_at_s = update c.baseline_at_s index now_s;
          observed_rate_hz = update c.observed_rate_hz index rate;
        },
      )

  -- A lane after its part of the pass, the number of changes, and the controller.
  pub record Passed : Type 0 where
    pub lane : Lane F
    pub changes : ℕ
    pub capacity : Capacity

  -- `": "` between the lane and the error.
  abbrev error_text : List ℕ → List ℕ → List ℕ
  error_text name error = take 191 (name ++ 58 ∷ 32 ∷ error)

  -- A new instance, once the control plane has answered.
  unfoldable pub settle : Lane F → ℕ → Warmed → Double → Capacity → Passed
  settle lane slot (warmed endpoint) now_s c = record {
    lane = instance_ready F lane slot endpoint now_s;
    changes = 1;
    capacity = c;
  }
  settle lane slot (failed error) now_s c = record {
    lane = release_instance F lane slot now_s reason_none;
    changes = 1;
    capacity = record c {
      warm_failures = c.warm_failures + 1;
      last_error = error_text lane.policy.name error;
    };
  }

  unfoldable pub act : Lane F → Action → (Policy F → Warmed) → Double → Capacity → Passed
  act lane hold warm now_s c = record { lane = lane; changes = 0; capacity = c }
  act lane up warm now_s c = elim (begin_instance F lane now_s) [
    | none ↦ record { lane = lane; changes = 0; capacity = c }
    | some (begun, slot) ↦ settle begun slot (warm begun.policy) now_s c
  ]
  act lane down warm now_s c = elim (release_candidate F lane now_s) [
    | none ↦ record { lane = lane; changes = 0; capacity = c }
    | some (slot, why) ↦ record {
      lane = release_instance F lane slot now_s why;
      changes = 1;
      capacity = c;
    }
  ]

  -- One round of the loop of `ocapacity_tick`.
  unfoldable pub tick_lane :
      Capacity → ℕ → Lane F → SchedStats F → (Policy F → Warmed) → Double → Passed
  tick_lane c index lane stats warm now_s =
      let (obs, seen) = observe c index lane.policy stats now_s in
      let (action, reason) = decide F lane obs now_s in
      act (record lane { last_reason = reason }) action warm now_s seen

  -- The lanes from index `at` on, the number of changes, and the controller.
  unfoldable pub tick_from :
      Capacity
      → ℕ
      → List (Lane F)
      → (ℕ → SchedStats F)
      → (ℕ → Policy F → Warmed)
      → Double
      → List (Lane F) × ℕ × Capacity
  tick_from c at [] stats warm now_s = ([], 0, c)
  tick_from c at (lane ∷ lanes) stats warm now_s =
      let p = tick_lane c at lane (stats at) (warm at) now_s in
      let (rest, changes, last) = tick_from p.capacity (at + 1) lanes stats warm now_s in
      (p.lane ∷ rest, p.changes + changes, last)

  unfoldable pub tick :
      Capacity
      → List (Lane F)
      → (ℕ → SchedStats F)
      → (ℕ → Policy F → Warmed)
      → Double
      → List (Lane F) × ℕ × Capacity
  tick c lanes stats warm now_s = tick_from c 0 lanes stats warm now_s

  -- The inner loop of `ocapacity_stop`, for the slots from 0 on below `slot`.
  unfoldable pub release_all : Lane F → ℕ → Double → Lane F
  release_all lane zero now_s = lane
  release_all lane (suc slot) now_s =
      release_instance F (release_all lane slot now_s) slot now_s reason_none

  unfoldable pub stop : List (Lane F) → Double → List (Lane F)
  stop [] now_s = []
  stop (lane ∷ lanes) now_s = release_all lane (length lane.instances) now_s ∷ stop lanes now_s

  -- The first instance that can be routed to.
  unfoldable pub routable : List (Instance F) → Option ℕ
  routable [] = none
  routable (i ∷ is) =
      let rest = routable is in
      if i.active && (i.ready && not (is_nil F i.endpoint))
      then some 0
      else elim rest [ none ↦ none | some at ↦ some (suc at) ]

  -- The endpoint for a lane and a tier, and the lane after the touch.
  unfoldable pub overflow_endpoint : List (Lane F) → List ℕ → ℕ → Double → Option (List ℕ × Lane F)
  overflow_endpoint lanes lane_name tier now_s = elim (lane_by_name F lanes lane_name) [
    | none ↦ none
    | some lane ↦
        if not lane.policy.enabled || not (has_tier lane.policy.tier_mask tier)
        then none
        else elim (routable lane.instances) [
          | none ↦ none
          | some at ↦ elim (get_elem? lane.instances at) [
            | none ↦ none
            | some i ↦ some (i.endpoint, instance_touch F lane at now_s)
          ]
        ]
  ]
