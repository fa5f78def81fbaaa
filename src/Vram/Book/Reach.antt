-- ===== src/Vram/Book/Reach.antt =====
-- The lease slots of src/ovram.c under any sequence of calls.
use omniserve_native.Prelude.{ℕ, Bool, List, Option}
use omniserve_native.Prelude.Int.{ℤ}
use omniserve_native.Floats.{DoubleOps}
use omniserve_native.Vram.{Vram, Proc}
use omniserve_native.Vram.Tables.{expire_locked, reserve}
use omniserve_native.Vram.Setup.{
  create, set_procs, set_pressure_hook, set_job_lease_s, set_block_max_s,
}
use omniserve_native.Vram.Grant.{lease_pid_at, lease_force}
use omniserve_native.Vram.Ops.{release, renew_at}
use omniserve_native.Vram.Wait.{Call, wait_round, after_hook}
use omniserve_native.Vram.Book.Keeps.{
  lease_pid_at-Good, lease_force-Good, release-Good, renew_at-Good,
}
use omniserve_native.Vram.Book.Waits.{
  broker_of, wait_round-Good, reserve-Good, set_procs-Good, create-Good,
}
use omniserve_native.Vram.Book.Sound.{Good, expire_locked-Good}

module _ (F : DoubleOps) where
  open F use {Double}

  -- One call of the broker, or one round of a call that waits.
  pub data Step (v : Vram F) : Vram F → Type 0 where
    leases :
        (owner : List ℕ) (pid : ℕ) (mb min_mb : ℤ) (tier : ℕ) (ttl_s now_s : Double)
        (free : Option ℕ)
        → Step v (lease_pid_at F v owner pid mb min_mb tier ttl_s now_s free).broker
    forces :
        (owner : List ℕ) (pid : ℕ) (mb : ℤ) (tier : ℕ) (ttl_s now : Double)
        → Step v (lease_force F v owner pid mb tier ttl_s now).broker
    waits :
        (c : Call F) (now : Double) (free : Option ℕ)
        → Step v (broker_of F (wait_round F v c now free))
    presses : (c : Call F) (freed : ℤ) (later : Double) → Step v (after_hook F v c freed later).0
    releases : (id : List ℕ) (now_s : Double) → Step v (release F v id now_s).1
    renews : (id : List ℕ) (ttl_s now_s : Double) → Step v (renew_at F v id ttl_s now_s).1
    expires : (now_s : Double) → Step v (expire_locked F v now_s).0
    reserves : (owner : List ℕ) (mb : ℤ) → Step v (reserve F v owner mb).1
    sees : (procs : Option (List Proc)) → Step v (set_procs F v procs)
    hooks : (has_hook : Bool) (after_ms : ℤ) → Step v (set_pressure_hook F v has_hook after_ms)
    ages : (s : Double) → Step v (set_job_lease_s F v s)
    blocks : (s : Double) → Step v (set_block_max_s F v s)

  pub data Reach : Vram F → Type 0 where
    created :
        (keep_free_mb : ℤ) (default_ttl_s : Double) → Reach (create F keep_free_mb default_ttl_s)
    next : {v w : Vram F} → Reach v → Step v w → Reach w

  Step-Good : (v w : Vram F) → Step v w → Good F v → Good F w
  unfolding set_pressure_hook set_job_lease_s set_block_max_s after_hook
  Step-Good v w (leases owner pid mb min_mb tier ttl_s now_s free) g =
      lease_pid_at-Good F v owner pid mb min_mb tier ttl_s now_s free g
  Step-Good v w (forces owner pid mb tier ttl_s now) g =
      lease_force-Good F v owner pid mb tier ttl_s now g
  Step-Good v w (waits c now free) g = wait_round-Good F v c now free g
  Step-Good v w (presses c freed later) g = g
  Step-Good v w (releases id now_s) g = release-Good F v id now_s g
  Step-Good v w (renews id ttl_s now_s) g = renew_at-Good F v id ttl_s now_s g
  Step-Good v w (expires now_s) g = expire_locked-Good F v now_s g
  Step-Good v w (reserves owner mb) g = reserve-Good F v owner mb g
  Step-Good v w (sees procs) g = set_procs-Good F v procs g
  Step-Good v w (hooks has_hook after_ms) g = g
  Step-Good v w (ages s) g = g
  Step-Good v w (blocks s) g = g

  -- In every state that calls and rounds of waiting calls reach from a new broker, the table has
  -- its slots, each active lease has an id that was given out, no two active ones share an id, and
  -- what was granted is what was released, what expired and what is active.
  pub Reach-Good : (v : Vram F) → Reach v → Good F v
  Reach-Good v (created keep_free_mb default_ttl_s) = create-Good F keep_free_mb default_ttl_s
  Reach-Good w (next {v = v} r s) = Step-Good v w s (Reach-Good v r)
