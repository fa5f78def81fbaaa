-- ===== src/Residency.antt =====
-- src/oresidency.c: which image models hold their weights on the device. The eight claims are a
-- list and a claim is known by its index; `exp2` of the C library is a parameter. Memory sizes of a
-- claim are never negative, since the report cuts them off at 0; the other sizes are integers.
-- The text of a reason is a constructor; the status text, the locks and the clock are not modelled.
pub mod Broker
use omniserve_native.Prelude.{
  ℕ, zero, suc, ◌+◌, ◌-◌, ◌%◌, ◌^◌, ◌≡◌, min, Bool, true, false, not, ◌&&◌, ◌||◌, List, [], ◌∷◌,
  ◌++◌, Option, none, some, map, ltb, leb, ◌==◌, if◌then◌else◌, length, get_elem?, set, take,
  replicate, update,
}
use omniserve_native.Prelude.Int.{ℤ, pos, negsuc, pos_part, ◌+ℤ◌, ◌-ℤ◌, ltb_ℤ, leb_ℤ}
use omniserve_native.Floats.{DoubleOps}
use omniserve_native.Json.Lookup.{same_bytes}

abbrev pub max_claims : ℕ
max_claims = 8

abbrev pub free_hist : ℕ
free_hist = 64

pub data ResidencyReason : Type 0 where
  invalid no_slot no_device_info quiet cooling_down : ResidencyReason
  outranked_or_no_capacity holding promote pending_free : ResidencyReason

module _ (F : DoubleOps) where
  open F use {Double, dec, of_int, add, sub, mul, div, lt, le}

  pub record Config : Type 0 where
    pub keep_free_mb : ℤ
    pub half_life_s : Double
    pub min_hold_s : Double
    pub idle_release_s : Double
    pub switch_ratio : Double
    pub claim_ttl_s : Double
    pub reserve_idle_s : Double
    pub hysteresis_mb : ℤ
    pub free_window_s : Double

  pub record Claim : Type 0 where
    pub owner : List ℕ
    pub pid : ℤ
    pub resident_mb : ℕ
    pub stream_mb : ℕ
    pub saved_ms : Double
    pub demand : Double
    pub demand_ts : Double
    pub last_req_s : Double
    pub last_seen_s : Double
    pub admitted_at_s : Double
    pub cooldown_until_s : Double
    pub revokes : ℕ
    pub resident : Bool
    pub admitted : Bool
    pub active : Bool

  -- `free_ts` and `free_mb` are one list of pairs.
  pub record Ores : Type 0 where
    pub cfg : Config
    pub claims : List Claim
    pub free_log : List (Double × ℤ)
    pub free_n : ℕ
    pub free_head : ℕ
    pub promotions : ℕ
    pub revocations : ℕ

  pub record Report : Type 0 where
    pub owner : List ℕ
    pub pid : ℤ
    pub resident_mb : ℤ
    pub stream_mb : ℤ
    pub saved_ms : Double
    pub requests : ℤ
    pub resident : Bool

  pub record Decision : Type 0 where
    pub resident : Bool
    pub admitted : Bool
    pub demand : Double
    pub benefit : Double
    pub reason : ResidencyReason

  abbrev pub zero_d : Double
  zero_d = dec 0 0

  pub config_defaults : Config
  config_defaults = record {
    keep_free_mb = pos 1024;
    half_life_s = dec 3000 1;
    min_hold_s = dec 1200 1;
    idle_release_s = dec 9000 1;
    switch_ratio = dec 15 1;
    claim_ttl_s = dec 1800 1;
    reserve_idle_s = dec 1800 1;
    hysteresis_mb = pos 1024;
    free_window_s = dec 600 1;
  }

  pub no_claim : Claim
  no_claim = record {
    owner = [];
    pid = pos 0;
    resident_mb = 0;
    stream_mb = 0;
    saved_ms = zero_d;
    demand = zero_d;
    demand_ts = zero_d;
    last_req_s = zero_d;
    last_seen_s = zero_d;
    admitted_at_s = zero_d;
    cooldown_until_s = zero_d;
    revokes = 0;
    resident = false;
    admitted = false;
    active = false;
  }

  pub create : Option Config → Ores
  unfolding config_defaults no_claim
  create given =
      let cfg : Config = elim given [ none ↦ config_defaults | some c ↦ c ] in
      record {
        cfg = record cfg {
          half_life_s = if le cfg.half_life_s zero_d then dec 3000 1 else cfg.half_life_s;
          switch_ratio = if lt cfg.switch_ratio (dec 10 1) then dec 10 1 else cfg.switch_ratio;
          claim_ttl_s = if le cfg.claim_ttl_s zero_d then dec 1800 1 else cfg.claim_ttl_s;
        };
        claims = replicate max_claims no_claim;
        free_log = replicate free_hist (zero_d, pos 0);
        free_n = 0;
        free_head = 0;
        promotions = 0;
        revocations = 0;
      }

  pub benefit : Claim → Double
  benefit c = mul c.demand c.saved_ms

  pub eligible : Config → Claim → Double → Bool
  eligible cfg c now =
      le (dec 5 2) c.demand
      && (lt zero_d c.saved_ms
          && (ltb 0 c.resident_mb
              && (le (sub now c.last_req_s) cfg.idle_release_s && le c.cooldown_until_s now)))

  -- A claim that has not been seen for its lifetime is dropped.
  pub expire : Config → Double → Claim → Claim
  expire cfg now c =
      if c.active && lt cfg.claim_ttl_s (sub now c.last_seen_s)
      then record c { active = false }
      else c

  -- The first loop of `find_claim`: the claims with the expired ones dropped up to the owner's, and
  -- the owner's index, counting from `at`.
  pub find_owner : Config → Double → List ℕ → List Claim → ℕ → List Claim × Option ℕ
  unfolding expire
  find_owner cfg now owner [] at = ([], none)
  find_owner cfg now owner (c ∷ cs) at =
      let fresh = expire cfg now c in
      let rest = find_owner cfg now owner cs (at + 1) in
      if fresh.active && same_bytes fresh.owner owner
      then (fresh ∷ cs, some at)
      else (fresh ∷ rest.0, rest.1)

  pub first_inactive : List Claim → ℕ → Option ℕ
  first_inactive [] at = none
  first_inactive (c ∷ cs) at = if c.active then first_inactive cs (at + 1) else some at

  pub new_claim : List ℕ → Double → Claim
  unfolding no_claim
  new_claim owner now = record no_claim {
    owner = take 31 owner;
    active = true;
    demand_ts = now;
    last_req_s = sub zero_d (dec (10 ^ 18) 0);
  }

  -- The claims afterwards, and the index of the owner's claim if there is one.
  pub find_claim : Config → List Claim → List ℕ → Double → List Claim × Option ℕ
  unfolding find_owner first_inactive new_claim
  find_claim cfg claims owner now =
      let found = find_owner cfg now owner claims 0 in
      elim found.1 [
        | some at ↦ (found.0, some at)
        | none ↦ elim (first_inactive found.0 0) [
          | none ↦ (found.0, none)
          | some slot ↦ (set found.0 slot (new_claim owner now), some slot)
        ]
      ]

  -- `stream_reserve` on the claims from index `at` on, with the maximum so far.
  pub reserve_from : Config → (ℕ → Bool) → Double → List Claim → ℕ → ℕ → ℕ
  reserve_from cfg in_set now [] at m = m
  reserve_from cfg in_set now (c ∷ cs) at m = reserve_from cfg in_set now cs (at + 1) (
      if c.active
        && (not (in_set at) && (le (sub now c.last_req_s) cfg.reserve_idle_s && ltb m c.stream_mb))
      then c.stream_mb
      else m)

  abbrev pub stream_reserve : Config → (ℕ → Bool) → Double → List Claim → ℕ
  stream_reserve cfg in_set now claims = reserve_from cfg in_set now claims 0 0

  pub note_free : Ores → Double → ℤ → Ores
  note_free r now device_free_mb = if ltb_ℤ device_free_mb (pos 0) then r else record r {
    free_log = set r.free_log r.free_head (now, device_free_mb);
    free_head = (r.free_head + 1) % free_hist;
    free_n = if ltb r.free_n free_hist then r.free_n + 1 else r.free_n;
  }

  pub window_min : Config → Double → List (Double × ℤ) → ℤ → ℤ
  window_min cfg now [] m = m
  window_min cfg now (e ∷ es) m =
      window_min cfg now es (if le (sub now e.0) cfg.free_window_s && ltb_ℤ e.1 m then e.1 else m)

  pub window_min_free : Ores → Double → ℤ → ℤ
  unfolding window_min
  window_min_free r now device_free_mb =
      window_min r.cfg now (take r.free_n r.free_log) device_free_mb
