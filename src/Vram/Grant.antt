-- ===== src/Vram/Grant.antt =====
-- `grant_locked` of src/ovram.c and the calls that make one attempt. What `id_out` gets is a part of
-- the answer; its room is taken to be enough.
use omniserve_native.Prelude.{
  ℕ, zero, suc, ◌+◌, ◌/◌, ◌%◌, min, Bool, true, false, ◌||◌, List, [], ◌∷◌, ◌++◌, Option, none,
  some, ltb, ◌==◌, if◌then◌else◌, set,
}
use omniserve_native.Prelude.Int.{ℤ, pos, pos_part, leb_ℤ}
use omniserve_native.Floats.{DoubleOps}
use omniserve_native.Vram.{Lease, Vram, or_anon, owner_name}
use omniserve_native.Vram.Tables.{proc_used_locked, on_owner, expire_locked}
use omniserve_native.Vram.Charges.{headroom_locked}
use omniserve_native.Vram.Queue.{higher_tier_waiting_locked}

-- The decimal digits of a number, for as much fuel as it has digits.
unfoldable pub digits : ℕ → ℕ → List ℕ
digits zero n = []
digits (suc fuel) n =
    let rest = digits fuel (n / 10) in
    if ltb n 10 then (48 + n) ∷ [] else rest ++ (48 + n % 10) ∷ []

-- `"lv%llu"`.
unfoldable pub lease_id : ℕ → List ℕ
lease_id n = 108 ∷ 118 ∷ digits (suc n) n

module _ (F : DoubleOps) where
  open F use {Double, dec, add, sub, lt, le}

  unfoldable pub free_slot : List (Lease F) → Option ℕ
  free_slot [] = none
  free_slot (l ∷ ls) =
      let rest = free_slot ls in
      if l.active then elim rest [ none ↦ none | some i ↦ some (suc i) ] else some 0

  abbrev pub ttl_or_default : Vram F → Double → Double
  ttl_or_default v ttl_s = if lt (dec 0 1) ttl_s then ttl_s else v.default_ttl_s

  -- The lease that a grant writes.
  unfoldable pub new_lease : Vram F → List ℕ → ℕ → ℕ → ℕ → Double → Double → Lease F
  new_lease v name pid granted tier ttl_s now_s = record {
    owner = owner_name name;
    mb = granted;
    expires_s = add now_s (ttl_or_default v ttl_s);
    granted_s = now_s;
    id = lease_id v.next_id;
    tier = tier;
    pid = pid;
    base_mb = proc_used_locked F v pid;
    active = true;
  }

  -- The end of `grant_locked`, once a slot is found.
  unfoldable pub grant_at : Vram F → ℕ → List ℕ → ℕ → ℕ → ℕ → ℕ → Double → Double → Bool → Vram F
  grant_at v slot name pid granted mb tier ttl_s now_s force =
      on_owner F
        (record v {
          leases = set v.leases slot (new_lease v name pid granted tier ttl_s now_s);
          next_id = v.next_id + 1;
          grants = v.grants + 1;
          forced = v.forced + (if force then 1 else 0);
          partial_grants = v.partial_grants + (if ltb granted mb then 1 else 0);
        })
        name pid
        (λ o. record o {
          grants = o.grants + 1;
          last_active_s = now_s;
          peak_mb = if ltb o.peak_mb granted then granted else o.peak_mb;
        })

  -- What a call returns, what it writes to `id_out`, and the broker.
  pub record Answer : Type 0 where
    pub granted : ℕ
    pub id : List ℕ
    pub broker : Vram F

  -- What is granted, before the slot is sought.
  unfoldable pub amount : Vram F → ℕ → ℕ → Option ℕ → Bool → ℕ
  amount v mb tier device_free_mb force =
      let available = headroom_locked F v tier device_free_mb in
      if force then mb else if ltb mb available then mb else available

  unfoldable pub grant_locked :
      Vram F → List ℕ → ℕ → ℕ → ℕ → ℕ → Double → Double → Option ℕ → Bool → Answer
  grant_locked v owner pid mb min_mb tier ttl_s now_s device_free_mb force =
      let granted = amount v mb tier device_free_mb force in
      let denied : Answer = record { granted = 0; id = []; broker = v } in
      if ltb granted min_mb || granted == 0 then denied else elim (free_slot v.leases) [
        | none ↦ denied
        | some slot ↦ record {
          granted = granted;
          id = lease_id v.next_id;
          broker = grant_at v slot (or_anon owner) pid granted mb tier ttl_s now_s force;
        }
      ]

  unfoldable pub lease_force : Vram F → List ℕ → ℕ → ℤ → ℕ → Double → Double → Answer
  lease_force v owner pid mb tier ttl_s now =
      if leb_ℤ mb (pos 0)
      then record { granted = 0; id = []; broker = v }
      else grant_locked (expire_locked F v now).0 (or_anon owner) pid (pos_part mb) (pos_part mb)
          tier ttl_s now (some 0) true

  -- `min_mb`, cut to what can be granted.
  abbrev pub least_mb : ℤ → ℤ → ℕ
  least_mb mb min_mb = min (pos_part min_mb) (pos_part mb)

  -- The books of a call that gets nothing.
  unfoldable pub deny : Vram F → List ℕ → ℕ → Double → Vram F
  deny v owner pid now_s =
      on_owner F (record v { denials = v.denials + 1 }) (or_anon owner) pid
        (λ o. record o { denials = o.denials + 1; last_active_s = now_s })

  unfoldable pub try_lease : Vram F → List ℕ → ℕ → ℕ → ℕ → ℕ → Double → Double → Option ℕ → Answer
  try_lease v owner pid mb min_mb tier ttl_s now_s device_free_mb =
      let a : Answer =
        if higher_tier_waiting_locked F v tier now_s device_free_mb
        then record { granted = 0; id = []; broker = v }
        else grant_locked v owner pid mb min_mb tier ttl_s now_s device_free_mb false in
      if a.granted == 0 then record a { broker = deny a.broker owner pid now_s } else a

  unfoldable pub lease_pid_at :
      Vram F → List ℕ → ℕ → ℤ → ℤ → ℕ → Double → Double → Option ℕ → Answer
  lease_pid_at v owner pid mb min_mb tier ttl_s now_s device_free_mb =
      if leb_ℤ mb (pos 0)
      then record { granted = 0; id = []; broker = v }
      else try_lease (expire_locked F v now_s).0 owner pid (pos_part mb) (least_mb mb min_mb) tier
          ttl_s now_s device_free_mb

  unfoldable pub lease_at : Vram F → List ℕ → ℤ → ℤ → ℕ → Double → Double → Option ℕ → Answer
  lease_at v owner mb min_mb tier ttl_s now_s device_free_mb =
      lease_pid_at v owner 0 mb min_mb tier ttl_s now_s device_free_mb
