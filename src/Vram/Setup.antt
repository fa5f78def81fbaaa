-- ===== src/Vram/Setup.antt =====
-- How src/ovram.c creates and sets up a broker.
use omniserve_native.Prelude.{
  Bool, true, false, List, [], Option, none, some, if◌then◌else◌, take, replicate,
}
use omniserve_native.Prelude.Int.{ℤ, pos, pos_part, ltb_ℤ, leb_ℤ}
use omniserve_native.Floats.{DoubleOps}
use omniserve_native.Vram.{
  Proc, Lease, Owner, Waiter, Vram, max_leases, max_reservations, max_owners, max_procs,
  max_waiters,
}

module _ (F : DoubleOps) where
  open F use {Double, dec, lt, le}

  -- Slots as `calloc` and `memset` leave them.
  abbrev pub no_lease : Lease F
  no_lease = record {
    owner = [];
    mb = 0;
    expires_s = dec 0 0;
    granted_s = dec 0 0;
    id = [];
    tier = 0;
    pid = 0;
    base_mb = some 0;
    active = false;
  }

  abbrev pub no_owner : Owner F
  no_owner = record {
    name = [];
    pid = 0;
    last_active_s = dec 0 0;
    peak_mb = 0;
    grants = 0;
    denials = 0;
    waits = 0;
    timeouts = 0;
    wait_ms_total = dec 0 0;
    wait_ms_max = dec 0 0;
    used = false;
  }

  abbrev pub no_waiter : Waiter F
  no_waiter = record { used = false; tier = 0; need = 0; since = dec 0 0 }

  unfoldable pub create : ℤ → Double → Vram F
  create keep_free_mb default_ttl_s = record {
    keep_free_mb = if ltb_ℤ (pos 0) keep_free_mb then pos_part keep_free_mb else 0;
    default_ttl_s = if lt (dec 0 1) default_ttl_s then default_ttl_s else dec 1200 1;
    leases = replicate max_leases no_lease;
    reservations = replicate max_reservations (record { owner = []; mb = 0; active = false });
    owners = replicate max_owners no_owner;
    procs = [];
    procs_valid = false;
    waiting = λ _. pos 0;
    waiters = replicate max_waiters no_waiter;
    block_max_s = dec 150 1;
    job_lease_s = dec 1800 1;
    now = dec 0 0;
    has_hook = false;
    pressure_after_ms = pos 1000;
    next_id = 1;
    grants = 0;
    partial_grants = 0;
    denials = 0;
    releases = 0;
    expirations = 0;
    waits = 0;
    wait_timeouts = 0;
    forced = 0;
    pressure_calls = 0;
    pressure_freed_mb = 0;
  }

  unfoldable pub set_pressure_hook : Vram F → Bool → ℤ → Vram F
  set_pressure_hook v has_hook after_ms = record v {
    has_hook = has_hook;
    pressure_after_ms = if leb_ℤ (pos 0) after_ms then after_ms else pos 0;
  }

  unfoldable pub set_job_lease_s : Vram F → Double → Vram F
  set_job_lease_s v s = record v { job_lease_s = if le (dec 0 0) s then s else dec 0 0 }

  unfoldable pub set_block_max_s : Vram F → Double → Vram F
  set_block_max_s v s = record v { block_max_s = s }

  -- A table that could not be read is `none`.
  unfoldable pub set_procs : Vram F → Option (List Proc) → Vram F
  set_procs v none = record v { procs = []; procs_valid = false }
  set_procs v (some procs) = record v { procs = take max_procs procs; procs_valid = true }
