-- ===== src/Residency/Broker.antt =====
-- `admit_all` and `ores_report_at` of src/oresidency.c: who is admitted, and what a claimant is told.
pub mod Order
pub mod Capacity
pub mod Fits
pub mod Promote
mod Tests
use omniserve_native.Prelude.{
  ℕ, zero, suc, ◌+◌, ◌-◌, ◌*◌, ◌^◌, ◌≡◌, min, Bool, true, false, not, ◌&&◌, ◌||◌, List, [], ◌∷◌,
  ◌++◌, Option, none, some, map, ltb, leb, ◌==◌, if◌then◌else◌, length, get_elem?, set, update,
}
use omniserve_native.Prelude.Int.{ℤ, pos, negsuc, pos_part, ◌+ℤ◌, ◌-ℤ◌, ltb_ℤ, leb_ℤ}
use omniserve_native.Floats.{DoubleOps}
use omniserve_native.Residency.{
  Config, Claim, Ores, Report, Decision, ResidencyReason, invalid, no_slot, no_device_info, quiet,
  cooling_down, outranked_or_no_capacity, holding, promote, pending_free, zero_d, benefit, eligible,
  expire, find_claim, stream_reserve, note_free, window_min_free,
}

module _ (F : DoubleOps) where
  open F use {Double, dec, of_int, add, sub, mul, div, lt, le}

  module _ (exp2 : Double → Double) where
    pub decay : Config F → Claim F → Double → Claim F
    decay cfg c now = record c {
      demand =
          if lt c.demand_ts now
          then mul c.demand (exp2 (div (sub (zero_d F) (sub now c.demand_ts)) cfg.half_life_s))
          else c.demand;
      demand_ts = now;
    }

    -- What the first loop of `admit_all` does to a claim.
    pub refresh : Config F → Double → Claim F → Claim F
    unfolding decay
    refresh cfg now c =
        let fresh = expire F cfg now c in if fresh.active then decay cfg fresh now else fresh

  pub score_of : Config F → Double → Claim F → Double
  score_of cfg now c =
      let locked = c.admitted && lt (sub now c.admitted_at_s) cfg.min_hold_s in
      add (mul (benefit F c) (if c.admitted then cfg.switch_ratio else dec 10 1))
        (if locked then dec (10 ^ 30) 0 else zero_d F)

  -- The memory that the resident claims hold.
  abbrev pub held : List (Claim F) → ℕ
  held [] = 0
  held (c ∷ cs) = (if c.active && c.resident then c.resident_mb else 0) + held cs

  -- The active claims with their indices, counting from `at`.
  abbrev pub candidates : List (Claim F) → ℕ → List (ℕ × Claim F)
  candidates [] at = []
  candidates (c ∷ cs) at =
      if c.active then (at, c) ∷ candidates cs (at + 1) else candidates cs (at + 1)

  -- The inner loop of the sort: a candidate moves forward past those with a lower score. The part
  -- of the array that is sorted already is given from its end.
  pub bubble : Config F → Double → List (ℕ × Claim F) → ℕ × Claim F → List (ℕ × Claim F)
  bubble cfg now [] x = x ∷ []
  bubble cfg now (y ∷ ys) x =
      if lt (score_of cfg now y.1) (score_of cfg now x.1)
      then y ∷ bubble cfg now ys x
      else x ∷ y ∷ ys

  pub sorted : Config F → Double → List (ℕ × Claim F) → List (ℕ × Claim F) → List (ℕ × Claim F)
  unfolding bubble
  sorted cfg now done [] = done
  sorted cfg now done (x ∷ xs) = sorted cfg now (bubble cfg now done x) xs

  abbrev pub reversed : List (ℕ × Claim F) → List (ℕ × Claim F) → List (ℕ × Claim F)
  reversed [] acc = acc
  reversed (x ∷ xs) acc = reversed xs (x ∷ acc)

  -- `need`, with the candidate in the set.
  abbrev pub need_of : Config F → Double → List (Claim F) → (ℕ → Bool) → ℕ → Claim F → ℤ
  need_of cfg now claims in_set used c =
      pos used
      +ℤ pos c.resident_mb
      +ℤ cfg.keep_free_mb
      +ℤ pos (stream_reserve F cfg in_set now claims)

  -- The loop that admits in the order of the scores, with the capacities for those that are
  -- admitted already and for the others: who is in the set in the end.
  pub pick :
      Config F → Double → List (Claim F) → ℤ → ℤ → List (ℕ × Claim F) → (ℕ → Bool) → ℕ → ℕ → Bool
  pick cfg now claims capacity capacity_new [] in_set used = in_set
  pick cfg now claims capacity capacity_new (x ∷ xs) in_set used =
      let tried = update in_set x.0 true in
      let taken = pick cfg now claims capacity capacity_new xs tried (used + x.1.resident_mb) in
      let left = pick cfg now claims capacity capacity_new xs (update in_set x.0 false) used in
      let skipped = pick cfg now claims capacity capacity_new xs in_set used in
      if eligible F cfg x.1 now
      then (if leb_ℤ (need_of cfg now claims tried used x.1)
            (if x.1.admitted then capacity else capacity_new)
          then taken
          else left)
      else skipped

  -- The last loop of `admit_all`, on one claim.
  pub settle : Config F → Double → Bool → Claim F → Claim F
  settle cfg now chosen c =
      let revokes =
        if le (mul (dec 40 1) cfg.min_hold_s) (sub now c.admitted_at_s) then 0 else c.revokes in
      if not c.active
      then c
      else if chosen
      then record c { admitted_at_s = if c.admitted then c.admitted_at_s else now; admitted = true }
      else if c.admitted
      then record c {
        cooldown_until_s = add now (mul cfg.min_hold_s (of_int (pos (2 ^ min revokes 5))));
        revokes = revokes + 1;
        admitted = false;
      }
      else c

  abbrev pub settle_all : Config F → Double → (ℕ → Bool) → List (Claim F) → ℕ → List (Claim F)
  settle_all cfg now in_set [] at = []
  settle_all cfg now in_set (c ∷ cs) at =
      settle cfg now (in_set at) c ∷ settle_all cfg now in_set cs (at + 1)

  -- How many claims lose their admission.
  abbrev pub revoked : (ℕ → Bool) → List (Claim F) → ℕ → ℕ
  revoked in_set [] at = 0
  revoked in_set (c ∷ cs) at =
      (if c.active && (c.admitted && not (in_set at)) then 1 else 0) + revoked in_set cs (at + 1)

  -- The set of `admit_all` for the refreshed claims.
  pub chosen : Ores F → Double → ℤ → List (Claim F) → ℕ → Bool
  unfolding pick sorted
  chosen r now device_free_mb claims =
      let capacity = device_free_mb +ℤ pos (held claims) in
      let capacity_new =
        window_min_free F r now device_free_mb -ℤ r.cfg.hysteresis_mb +ℤ pos (held claims) in
      let order = reversed (sorted r.cfg now [] (candidates claims 0)) [] in
      if ltb_ℤ device_free_mb (pos 0)
      then (λ _. false)
      else pick r.cfg now claims capacity capacity_new order (λ _. false) 0

  abbrev pub cut : ℤ → ℕ
  cut z = pos_part z

  -- `free_now`.
  pub free_now : Ores F → Double → ℤ → ℤ
  free_now r now device_free_mb =
      device_free_mb
      -ℤ r.cfg.keep_free_mb
      -ℤ pos (
          stream_reserve F r.cfg
            (λ i. elim (get_elem? r.claims i) [ none ↦ false | some c ↦ c.admitted ]) now r.claims)

  abbrev answer : Claim F → Bool → ResidencyReason → Decision F
  answer c resident reason = record {
    resident = resident;
    admitted = c.admitted;
    demand = c.demand;
    benefit = benefit F c;
    reason = reason;
  }

  -- `report_at` behind `admit_all`, for the claim `c` at index `at`.
  pub decide : Ores F → ℕ → Claim F → Double → ℤ → Ores F × Decision F
  unfolding free_now
  decide r at c now device_free_mb =
      if ltb_ℤ device_free_mb (pos 0)
      then (r, answer c false no_device_info)
      else if not c.admitted
      then (
        r,
        answer c false (
            if lt r.cfg.idle_release_s (sub now c.last_req_s) || lt c.demand (dec 5 2)
            then quiet
            else if lt now c.cooldown_until_s
            then cooling_down
            else outranked_or_no_capacity),
      )
      else if c.resident
      then (r, answer c true holding)
      else if leb_ℤ (pos c.resident_mb) (free_now r now device_free_mb)
      then (
        record r {
          promotions = r.promotions + 1;
          claims = set r.claims at (record c { resident = true });
        },
        answer c true promote,
      )
      else (r, answer c false pending_free)

  abbrev refused : ResidencyReason → Decision F
  refused reason = record {
    resident = false;
    admitted = false;
    demand = zero_d F;
    benefit = zero_d F;
    reason = reason;
  }

  abbrev pub is_nil : List ℕ → Bool
  is_nil [] = true
  is_nil (c ∷ cs) = false

  module _ (exp2 : Double → Double) where
    pub admit_all : Ores F → Double → ℤ → Ores F
    unfolding refresh chosen settle
    admit_all r now device_free_mb =
        let noted = note_free F r now device_free_mb in
        let claims = map (refresh exp2 r.cfg now) r.claims in
        let in_set = chosen noted now device_free_mb claims in
        record noted {
          claims = settle_all r.cfg now in_set claims 0;
          revocations = r.revocations + revoked in_set claims 0;
        }

    -- What the report writes into its claim.
    pub reported : Config F → Report F → Double → Claim F → Claim F
    unfolding decay
    reported cfg report now c =
        let fresh = decay exp2 cfg c now in
        record fresh {
          pid = report.pid;
          resident_mb = cut report.resident_mb;
          stream_mb = cut report.stream_mb;
          saved_ms = if lt (zero_d F) report.saved_ms then report.saved_ms else zero_d F;
          resident = report.resident;
          last_seen_s = now;
          demand =
              if ltb_ℤ (pos 0) report.requests
              then add fresh.demand (of_int report.requests)
              else fresh.demand;
          last_req_s = if ltb_ℤ (pos 0) report.requests then now else fresh.last_req_s;
        }

    -- A claim that `find_claim` gives has its index in the list, before `admit_all` and after.
    pub report_at : Ores F → Report F → Double → ℤ → Ores F × Decision F
    unfolding reported admit_all decide
    report_at r report now device_free_mb =
        let found = find_claim F r.cfg r.claims report.owner now in
        let seen = record r { claims = found.0 } in
        if is_nil report.owner then (r, refused invalid) else elim found.1 [
          | none ↦ (seen, refused no_slot)
          | some at ↦ elim (get_elem? found.0 at) [
            | none ↦ (seen, refused no_slot)
            | some c ↦
                let after =
                  admit_all (record seen { claims = set found.0 at (reported r.cfg report now c) })
                    now device_free_mb in
                elim (get_elem? after.claims at) [
                  | none ↦ (after, refused no_slot)
                  | some d ↦ decide after at d now device_free_mb
                ]
          ]
        ]
