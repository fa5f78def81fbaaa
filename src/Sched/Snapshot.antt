-- ===== src/Sched/Snapshot.antt =====
-- `osched_snapshot` of src/osched.c and the queries that read it.
use omniserve_native.Prelude.{ℕ, leb, if◌then◌else◌}
use omniserve_native.Floats.{DoubleOps}
use omniserve_native.Sched.{Sched, waiting}

module _ (F : DoubleOps) where
  open F use {Double}

  pub record SchedStats : Type 0 where
    pub slots : ℕ
    pub used_slots : ℕ
    pub active : ℕ
    pub waiting : ℕ → ℕ
    pub served : ℕ → ℕ
    pub queue_ms_total : ℕ → Double
    pub queue_ms_max : ℕ → Double
    pub timed_out : ℕ → ℕ

  unfoldable pub snapshot : Sched F → SchedStats
  snapshot s = record {
    slots = s.slots;
    used_slots = s.used_slots;
    active = s.active;
    waiting = waiting F s.waiters;
    served = s.served;
    queue_ms_total = s.queue_ms_total;
    queue_ms_max = s.queue_ms_max;
    timed_out = s.timed_out;
  }

  pub active_of : Sched F → ℕ
  unfolding snapshot
  active_of s = (snapshot s).active

  pub waiting_at : Sched F → ℕ → ℕ
  unfolding snapshot
  waiting_at s tier = if leb tier 3 then (snapshot s).waiting tier else 0

  pub served_at : Sched F → ℕ → ℕ
  unfolding snapshot
  served_at s tier = if leb tier 3 then (snapshot s).served tier else 0
