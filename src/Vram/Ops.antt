-- ===== src/Vram/Ops.antt =====
-- The calls of src/ovram.c on leases that are there, and what it reports.
use omniserve_native.Prelude.{
  ℕ, suc, ◌+◌, Bool, true, false, ◌&&◌, List, [], ◌∷◌, Option, none, some, ltb, if◌then◌else◌,
  get_elem?, set,
}
use omniserve_native.Prelude.Int.{ℤ, pos, ◌+ℤ◌}
use omniserve_native.Floats.{DoubleOps}
use omniserve_native.Json.Lookup.{same_bytes}
use omniserve_native.Vram.{Lease, Vram, modify}
use omniserve_native.Vram.Tables.{on_owner, expire_locked, reserved_mb_locked}
use omniserve_native.Vram.Charges.{headroom_locked, leased_mb_locked}
use omniserve_native.Vram.Grant.{ttl_or_default}

module _ (F : DoubleOps) where
  open F use {Double, dec, add, sub, lt, le}

  abbrev pub has_id : List ℕ → Lease F → Bool
  has_id id l = l.active && same_bytes l.id id

  -- The first active lease with the id: its index.
  unfoldable pub find_lease : List (Lease F) → List ℕ → Option ℕ
  find_lease [] id = none
  find_lease (l ∷ ls) id =
      let rest = find_lease ls id in
      if has_id id l then some 0 else elim rest [ none ↦ none | some i ↦ some (suc i) ]

  unfoldable pub release : Vram F → List ℕ → Double → Bool × Vram F
  release v [] now_s = (false, v)
  release v (c ∷ cs) now_s = elim (find_lease v.leases (c ∷ cs)) [
    | none ↦ (false, v)
    | some i ↦ elim (get_elem? v.leases i) [
      | none ↦ (false, v)
      | some l ↦ (
        true,
        on_owner F
            (record v {
              leases = set v.leases i (record l { active = false });
              releases = v.releases + 1;
            })
            l.owner l.pid (λ o. record o { last_active_s = now_s }),
      )
    ]
  ]

  unfoldable pub renew_at : Vram F → List ℕ → Double → Double → Bool × Vram F
  renew_at v [] ttl_s now_s = (false, v)
  renew_at v (c ∷ cs) ttl_s now_s =
      let w = (expire_locked F v now_s).0 in
      elim (find_lease w.leases (c ∷ cs)) [
        | none ↦ (false, w)
        | some i ↦ (
          true,
          record w {
            leases =
                modify w.leases i
                  (λ l. record l { expires_s = add now_s (ttl_or_default F w ttl_s) });
          },
        )
      ]

  unfoldable pub expire_at : Vram F → Double → Vram F × ℕ
  expire_at v now_s = expire_locked F v now_s

  unfoldable pub headroom_at : Vram F → ℕ → Double → Option ℕ → ℕ × Vram F
  headroom_at v tier now_s device_free_mb =
      let w = (expire_locked F v now_s).0 in (headroom_locked F w tier device_free_mb, w)

  unfoldable pub waiting_of : Vram F → ℕ → ℤ
  waiting_of v tier = if ltb 3 tier then pos 0 else v.waiting tier

  pub record Stats : Type 0 where
    pub total_mb : Option ℕ
    pub device_free_mb : Option ℕ
    pub reserved_mb : ℕ
    pub leased_mb : ℕ
    pub headroom_mb : ℕ
    pub keep_free_mb : ℕ
    pub lease_count : ℕ
    pub grants : ℕ
    pub partial_grants : ℕ
    pub denials : ℕ
    pub releases : ℕ
    pub expirations : ℕ
    pub waiting : ℤ
    pub waits : ℕ
    pub wait_timeouts : ℕ
    pub pressure_calls : ℕ
    pub pressure_freed_mb : ℕ

  abbrev pub one_if : Bool → ℕ
  one_if b = if b then 1 else 0

  unfoldable pub active_leases : List (Lease F) → ℕ
  active_leases [] = 0
  active_leases (l ∷ ls) = one_if l.active + active_leases ls

  -- With the process table already read; the broker has expired what was over.
  unfoldable pub snapshot : Vram F → Option ℕ → Option ℕ → Double → Stats × Vram F
  snapshot v device_free total now_s =
      let w = (expire_locked F v now_s).0 in
      (
        record {
          total_mb = total;
          device_free_mb = device_free;
          reserved_mb = reserved_mb_locked F w;
          leased_mb = leased_mb_locked F w;
          headroom_mb = headroom_locked F w 3 device_free;
          keep_free_mb = w.keep_free_mb;
          lease_count = active_leases w.leases;
          grants = w.grants;
          partial_grants = w.partial_grants;
          denials = w.denials;
          releases = w.releases;
          expirations = w.expirations;
          waiting = pos 0 +ℤ w.waiting 0 +ℤ w.waiting 1 +ℤ w.waiting 2 +ℤ w.waiting 3;
          waits = w.waits;
          wait_timeouts = w.wait_timeouts;
          pressure_calls = w.pressure_calls;
          pressure_freed_mb = w.pressure_freed_mb;
        },
        w,
      )
