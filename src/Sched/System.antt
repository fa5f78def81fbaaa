-- ===== src/Sched/System.antt =====
-- The scheduler of src/osched.c with its callers: requests that arrive, wait, run and leave. A
-- step is one critical section; `pending` are the waiters whose `granted` is set and whose thread
-- has not resumed, `held` the permits of the requests that run and have not released.
pub mod Ledger
pub mod Sound
use omniserve_native.Prelude.{ℕ, ◌≡◌, Bool, true, false, List, [], ◌∷◌, ◌++◌}
use omniserve_native.Prelude.Int.{ℤ}
use omniserve_native.Floats.{DoubleOps}
use omniserve_native.Sched.{
  Waiter, Timespec, Sched, Entry, refused, admitted, queued, Arrival, acquire, try_acquire_n,
  give_up, resume, release_n, set_background, create,
}

module _ (F : DoubleOps) where
  pub record System : Type 0 where
    pub sched : Sched F
    pub pending : List Waiter
    pub held : List ℕ

  pub start : ℤ → F.Double → System
  start slots timeout_s = record { sched = create F slots timeout_s; pending = []; held = [] }

  -- The system after the first critical section of `acquire`.
  abbrev pub entered : System → ℕ → Entry F → System
  entered x permits (refused s) = record x { sched = s }
  entered x permits (admitted s) = record x { sched = s; held = permits ∷ x.held }
  entered x permits (queued s me deadline) = record x { sched = s }

  abbrev pub tried : System → ℕ → Sched F × Bool → System
  tried x permits (s, true) = record x { sched = s; held = permits ∷ x.held }
  tried x permits (s, false) = record x { sched = s }

  -- The system after a critical section that promotes waiters.
  abbrev pub promoted : System → List ℕ → Sched F × List Waiter → System
  promoted x held (s, granted) = record { sched = s; pending = x.pending ++ granted; held = held }

  pub data Step (x : System) : System → Type 0 where
    arrives :
        (tier permits : ℕ) (shared : Bool) (a : Arrival F)
        → Step x (entered x permits (acquire F x.sched tier permits shared a))
    tries : (tier permits : ℕ) → Step x (tried x permits (try_acquire_n F x.sched tier permits))
    times_out :
        (xs ys : List Waiter) (w : Waiter) (now : Timespec)
        → x.sched.waiters ≡ xs ++ w ∷ ys
        → Step x (promoted x x.held (give_up F x.sched w now))
    resumes :
        (xs ys : List Waiter) (w : Waiter) (at : Timespec)
        → x.pending ≡ xs ++ w ∷ ys
        → Step x (record {
          sched = resume F x.sched w at;
          pending = xs ++ ys;
          held = w.permits ∷ x.held;
        })
    releases :
        (xs ys : List ℕ) (permits : ℕ) (now : Timespec)
        → x.held ≡ xs ++ permits ∷ ys
        → Step x (promoted x (xs ++ ys) (release_n F x.sched permits now))
    configures :
        (timeout_s max_wait_s : F.Double)
        → Step x (record x { sched = set_background F x.sched timeout_s max_wait_s })

  pub data Reach (x : System) : System → Type 0 where
    here : Reach x x
    next : {y z : System} → Reach x y → Step y z → Reach x z
