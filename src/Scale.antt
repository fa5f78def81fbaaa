-- ===== src/Scale.antt =====
-- src/oscale.c: when a lane rents a remote instance, and when it gives one back. The lane table is
-- the list of its lanes, and a lane's instances are the list of its first `instance_count` ones.
-- A C string is the list of its bytes, and `snprintf` into an array keeps what fits; the action and
-- the reason that `oscale_decide` returns are a pair. NULL arguments are not modelled, nor is the
-- mutex: no function waits. The 64-bit counters do not wrap.
pub mod Decide
pub mod Rent
pub mod Ledger
pub mod Release
pub mod Tiers
mod Tests
use omniserve_native.Prelude.{
  ℕ, zero, suc, ◌+◌, ◌-◌, ◌/◌, ◌%◌, ◌^◌, ◌≡◌, Bool, true, false, not, ◌&&◌, ◌||◌, List, [], ◌∷◌,
  ◌++◌, Option, none, some, ltb, leb, ◌==◌, if◌then◌else◌, length, get_elem?, set, take,
}
use omniserve_native.Prelude.Int.{ℤ, pos, pos_part, ltb_ℤ, leb_ℤ, ◌+ℤ◌}
use omniserve_native.Floats.{DoubleOps}
use omniserve_native.Json.Lookup.{same_bytes}

pub data Action : Type 0 where
  hold up down : Action

pub data Reason : Type 0 where
  reason_none disabled tier_not_eligible local_has_room pressure_too_low not_worth_it : Reason
  instance_cap spend_cap cooldown pressure_sustained idle ttl_expired no_instances : Reason

abbrev pub max_lanes : ℕ
max_lanes = 8

abbrev pub max_instances_ever : ℕ
max_instances_ever = 8

abbrev pub tiers_paid_only : ℕ
tiers_paid_only = 1

-- `mask & OSCALE_TIER_BIT(tier)`, as a truth value.
pub has_tier : ℕ → ℕ → Bool
has_tier mask tier = (mask / 2 ^ tier) % 2 == 1

-- `mask &= ~OSCALE_TIER_BIT(TIER_BACKGROUND)`, and paid-only for what is left empty.
pub rentable_tiers : ℕ → ℕ
unfolding has_tier
rentable_tiers mask =
    let kept = if has_tier mask 3 then mask - 8 else mask in
    if kept == 0 then tiers_paid_only else kept

abbrev pub is_ttl : Reason → Bool
is_ttl ttl_expired = true
is_ttl why = false

module _ (F : DoubleOps) where
  open F use {Double, dec, of_int, add, sub, mul, div, lt, le}

  pub record Policy : Type 0 where
    pub price_usd_hr : Double
    pub revenue_usd_per_req : Double
    pub seconds_per_req : Double
    pub margin : Double
    pub scale_up_queue_ms : Double
    pub max_usd_hr : Double
    pub cooldown_s : Double
    pub idle_scale_down_s : Double
    pub max_instance_ttl_s : Double
    pub tier_mask : ℕ
    pub scale_up_queue_depth : ℤ
    pub max_instances : ℤ
    pub enabled : Bool
    pub name : List ℕ
    pub cog_template : List ℕ
    pub hardware : List ℕ

  pub record Observation : Type 0 where
    pub queue_depth : ℕ → ℤ
    pub queue_ms_max : ℕ → Double
    pub local_permits_free : ℤ
    pub backlog_reqs : Double

  pub record Instance : Type 0 where
    pub started_s : Double
    pub last_used_s : Double
    pub endpoint : List ℕ
    pub active : Bool
    pub ready : Bool

  pub record Lane : Type 0 where
    pub policy : Policy
    pub instances : List Instance
    pub last_action_s : Double
    pub scale_ups : ℕ
    pub scale_downs : ℕ
    pub ttl_kills : ℕ
    pub instance_seconds : Double
    pub spend_usd : Double
    pub last_reason : Reason

  pub policy_defaults : List ℕ → Policy
  policy_defaults name = record {
    price_usd_hr = dec 0 0;
    revenue_usd_per_req = dec 0 0;
    seconds_per_req = dec 50 1;
    margin = dec 15 1;
    scale_up_queue_ms = dec 20000 1;
    max_usd_hr = dec 0 0;
    cooldown_s = dec 1200 1;
    idle_scale_down_s = dec 1800 1;
    max_instance_ttl_s = dec 36000 1;
    tier_mask = tiers_paid_only;
    scale_up_queue_depth = pos 2;
    max_instances = pos 1;
    enabled = false;
    name = take 23 name;
    cog_template = [];
    hardware = [];
  }

  -- The policy that a new lane gets.
  pub lane_policy : Policy → Policy
  unfolding rentable_tiers
  lane_policy policy = record policy {
    max_instances =
        if ltb_ℤ (pos max_instances_ever) policy.max_instances
        then pos max_instances_ever
        else policy.max_instances;
    tier_mask = rentable_tiers policy.tier_mask;
  }

  pub new_lane : Policy → Lane
  unfolding lane_policy
  new_lane policy = record {
    policy = lane_policy policy;
    instances = [];
    last_action_s = dec 0 0;
    scale_ups = 0;
    scale_downs = 0;
    ttl_kills = 0;
    instance_seconds = dec 0 0;
    spend_usd = dec 0 0;
    last_reason = reason_none;
  }

  abbrev pub is_nil : List ℕ → Bool
  is_nil [] = true
  is_nil (c ∷ cs) = false

  abbrev pub has_name : List Lane → List ℕ → Bool
  has_name [] name = false
  has_name (l ∷ ls) name = if same_bytes l.policy.name name then true else has_name ls name

  -- The table with the lane at its end, whose index is the number of lanes before.
  pub add_lane : List Lane → Policy → Option (List Lane)
  unfolding new_lane
  add_lane lanes policy =
      if is_nil policy.name
      then none
      else if leb max_lanes (length lanes)
      then none
      else if has_name lanes policy.name
      then none
      else some (lanes ++ new_lane policy ∷ [])

  pub lane_by_name : List Lane → List ℕ → Option Lane
  lane_by_name [] name = none
  lane_by_name (l ∷ ls) name =
      if same_bytes l.policy.name name then some l else lane_by_name ls name

  abbrev pub depth_of : Policy → Observation → ℕ → ℤ
  depth_of policy obs tier = if has_tier policy.tier_mask tier then obs.queue_depth tier else pos 0

  pub eligible_depth : Policy → Observation → ℤ
  unfolding has_tier
  eligible_depth policy obs =
      pos 0
      +ℤ depth_of policy obs 0
      +ℤ depth_of policy obs 1
      +ℤ depth_of policy obs 2
      +ℤ depth_of policy obs 3

  -- A round of the loop of `oscale_eligible_wait_ms`.
  abbrev pub worse : Policy → Observation → ℕ → Double → Double
  worse policy obs tier worst =
      if has_tier policy.tier_mask tier && lt worst (obs.queue_ms_max tier)
      then obs.queue_ms_max tier
      else worst

  pub eligible_wait_ms : Policy → Observation → Double
  unfolding has_tier
  eligible_wait_ms policy obs =
      worse policy obs 3 (worse policy obs 2 (worse policy obs 1 (worse policy obs 0 (dec 0 0))))

  abbrev pub or_one : Double → Double
  or_one d = if lt (dec 0 0) d then d else dec 10 1

  -- Whether to rent, the value and the cost.
  pub rent_is_justified : Policy → Double → Bool × Double × Double
  rent_is_justified policy backlog_reqs =
      let capacity_reqs = div (dec 36000 1) (or_one policy.seconds_per_req) in
      let least = if lt backlog_reqs capacity_reqs then backlog_reqs else capacity_reqs in
      let servable = if lt least (dec 0 0) then dec 0 0 else least in
      let value = mul servable policy.revenue_usd_per_req in
      let cost = mul policy.price_usd_hr (or_one policy.margin) in
      (if le policy.price_usd_hr (dec 0 0) then false else le cost value, value, cost)

  pub active_instances : List Instance → ℕ
  active_instances [] = 0
  active_instances (i ∷ is) = (if i.active then 1 else 0) + active_instances is

  pub ready_instances : List Instance → ℕ
  ready_instances [] = 0
  ready_instances (i ∷ is) = (if i.active && i.ready then 1 else 0) + ready_instances is

  pub lane_spend_rate_usd_hr : Lane → Double
  unfolding active_instances
  lane_spend_rate_usd_hr lane =
      mul (of_int (pos (active_instances lane.instances))) lane.policy.price_usd_hr

  abbrev pub is_expired : Policy → Double → Instance → Bool
  is_expired policy now_s i = i.active && le policy.max_instance_ttl_s (sub now_s i.started_s)

  -- The first expired instance, counting from `at`.
  pub first_expired : Policy → Double → List Instance → ℕ → Option ℕ
  first_expired policy now_s [] at = none
  first_expired policy now_s (i ∷ is) at =
      if is_expired policy now_s i then some at else first_expired policy now_s is (at + 1)

  abbrev pub idle_of : Double → Instance → Double
  idle_of now_s i = sub now_s (if lt (dec 0 0) i.last_used_s then i.last_used_s else i.started_s)

  -- The loop over the idle instances, from index `at` on.
  pub most_idle : Policy → Double → List Instance → ℕ → Option ℕ → Double → Option ℕ
  most_idle policy now_s [] at oldest oldest_idle = oldest
  most_idle policy now_s (i ∷ is) at oldest oldest_idle =
      let found = most_idle policy now_s is (at + 1) (some at) (idle_of now_s i) in
      let rest = most_idle policy now_s is (at + 1) oldest oldest_idle in
      if i.active
        && (le policy.idle_scale_down_s (idle_of now_s i) && lt oldest_idle (idle_of now_s i))
      then found
      else rest

  -- `release_candidate` without its first half.
  pub idle_candidate : Lane → Double → Option (ℕ × Reason)
  unfolding most_idle
  idle_candidate lane now_s =
      if lt (dec 0 0) lane.policy.idle_scale_down_s
      then elim (most_idle lane.policy now_s lane.instances 0 none (dec 0 0)) [
        | none ↦ none
        | some oldest ↦ some (oldest, idle)
      ]
      else none

  pub release_candidate : Lane → Double → Option (ℕ × Reason)
  unfolding first_expired idle_candidate
  release_candidate lane now_s =
      if lt (dec 0 0) lane.policy.max_instance_ttl_s
      then elim (first_expired lane.policy now_s lane.instances 0) [
        | none ↦ idle_candidate lane now_s
        | some at ↦ some (at, ttl_expired)
      ]
      else idle_candidate lane now_s

  -- `marginal.backlog_reqs`.
  pub marginal_backlog : Policy → Observation → ℕ → Double
  marginal_backlog policy obs active =
      sub obs.backlog_reqs
        (mul (of_int (pos active)) (div (dec 36000 1) (or_one policy.seconds_per_req)))

  -- `oscale_decide` from the test of the local permits on.
  pub decide_rent : Lane → Observation → Double → Action × Reason
  unfolding eligible_depth eligible_wait_ms active_instances rent_is_justified marginal_backlog
  decide_rent lane obs now_s =
      let policy = lane.policy in
      let depth = eligible_depth policy obs in
      let active = active_instances lane.instances in
      if ltb_ℤ (pos 0) obs.local_permits_free
      then (hold, local_has_room)
      else if ltb_ℤ depth policy.scale_up_queue_depth
          || lt (eligible_wait_ms policy obs) policy.scale_up_queue_ms
      then (hold, pressure_too_low)
      else if leb_ℤ policy.max_instances (pos active) || leb max_instances_ever active
      then (hold, instance_cap)
      else if lt (dec 0 0) policy.max_usd_hr
          && lt policy.max_usd_hr (mul (of_int (pos (active + 1))) policy.price_usd_hr)
      then (hold, spend_cap)
      else if not (rent_is_justified policy (marginal_backlog policy obs active)).0
      then (hold, not_worth_it)
      else if lt (dec 0 0) policy.cooldown_s
          && (lt (dec 0 0) lane.last_action_s
              && lt (sub now_s lane.last_action_s) policy.cooldown_s)
      then (hold, cooldown)
      else (up, pressure_sustained)

  pub total_depth : Observation → ℤ
  total_depth obs =
      pos 0 +ℤ obs.queue_depth 0 +ℤ obs.queue_depth 1 +ℤ obs.queue_depth 2 +ℤ obs.queue_depth 3

  pub decide : Lane → Observation → Double → Action × Reason
  unfolding release_candidate eligible_depth total_depth decide_rent
  decide lane obs now_s = elim (release_candidate lane now_s) [
    | some (at, why) ↦ (down, why)
    | none ↦
        if not lane.policy.enabled
        then (hold, disabled)
        else if leb_ℤ (eligible_depth lane.policy obs) (pos 0)
        then (hold, if ltb_ℤ (pos 0) (total_depth obs) then tier_not_eligible else pressure_too_low)
        else decide_rent lane obs now_s
  ]

  -- The first slot that is not active.
  pub free_slot : List Instance → ℕ → Option ℕ
  free_slot [] at = none
  free_slot (i ∷ is) at = if i.active then free_slot is (at + 1) else some at

  abbrev pub started : Double → Instance
  started now_s = record {
    started_s = now_s;
    last_used_s = now_s;
    endpoint = [];
    active = true;
    ready = false;
  }

  -- The lane behind the new instance.
  abbrev pub acted : Lane → List Instance → Double → Lane
  acted lane instances now_s = record lane {
    instances = instances;
    last_action_s = now_s;
    scale_ups = lane.scale_ups + 1;
    last_reason = pressure_sustained;
  }

  -- The lane and the slot of the new instance.
  pub begin_instance : Lane → Double → Option (Lane × ℕ)
  unfolding free_slot
  begin_instance lane now_s = elim (free_slot lane.instances 0) [
    | some slot ↦ some (acted lane (set lane.instances slot (started now_s)) now_s, slot)
    | none ↦
        if leb max_instances_ever (length lane.instances)
        then none
        else some (acted lane (lane.instances ++ started now_s ∷ []) now_s, length lane.instances)
  ]

  pub instance_ready : Lane → ℕ → List ℕ → Double → Lane
  instance_ready lane index endpoint now_s = elim (get_elem? lane.instances index) [
    | none ↦ lane
    | some i ↦ if not i.active then lane else record lane {
      instances =
          set lane.instances index
            (record i { ready = true; last_used_s = now_s; endpoint = take 255 endpoint });
    }
  ]

  pub instance_touch : Lane → ℕ → Double → Lane
  instance_touch lane index now_s = elim (get_elem? lane.instances index) [
    | none ↦ lane
    | some i ↦
        if i.active
        then record lane { instances = set lane.instances index (record i { last_used_s = now_s }) }
        else lane
  ]

  abbrev pub cleared : Instance
  cleared = record {
    started_s = dec 0 0;
    last_used_s = dec 0 0;
    endpoint = [];
    active = false;
    ready = false;
  }

  pub release_instance : Lane → ℕ → Double → Reason → Lane
  release_instance lane index now_s why = elim (get_elem? lane.instances index) [
    | none ↦ lane
    | some i ↦
        let alive = sub now_s i.started_s in
        let lifetime = if lt alive (dec 0 0) then dec 0 0 else alive in
        if not i.active then lane else record lane {
          instances = set lane.instances index cleared;
          instance_seconds = add lane.instance_seconds lifetime;
          spend_usd =
              add lane.spend_usd (div (mul lane.policy.price_usd_hr lifetime) (dec 36000 1));
          last_action_s = now_s;
          scale_downs = lane.scale_downs + 1;
          ttl_kills = lane.ttl_kills + (if is_ttl why then 1 else 0);
          last_reason = why;
        }
  ]
