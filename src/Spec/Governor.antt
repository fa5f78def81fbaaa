-- ===== src/Spec/Governor.antt =====
-- The governor of src/ospec.c: bounds of the draft length, and the probe while it is off.
use omniserve_native.Prelude.{
  ℕ, zero, suc, ◌+◌, ◌≤◌, ◌<◌, ◌≡◌, List, [], ◌∷◌, ◌++◌, replicate, arith,
}
use omniserve_native.Spec.{Gov, governor_init, governor_next, governor_observe}

pub record IsGoverned (g : Gov) : Type 0 where
  pub room : 0 < g.max_length
  pub short : g.length ≤ g.max_length
  pub patient : g.misses < g.patience
  pub probing : g.idle_rounds ≤ g.probe_interval
  pub interval : 0 < g.probe_interval
  pub landed : g.accepted ≤ g.drafted
  pub saved : g.saved_calls ≡ g.accepted

governor_init-IsGoverned :
    (max_length probe_interval patience : ℕ)
    → IsGoverned (governor_init max_length probe_interval patience)
unfolding governor_init
governor_init-IsGoverned max_length probe_interval patience = ground arith

-- The next draft is within the maximum, and the governor stays well formed.
pub governor_next-IsGoverned :
    (g : Gov) → IsGoverned g → IsGoverned (governor_next g).0 × ((governor_next g).1 ≤ g.max_length)
unfolding governor_next
governor_next-IsGoverned g v = ground arith

pub governor_observe-IsGoverned :
    (g : Gov) (drafted accepted : ℕ)
    → IsGoverned g
    → IsGoverned (governor_observe g drafted accepted)
unfolding governor_observe
governor_observe-IsGoverned g drafted accepted v = ground arith

-- A request of many rounds: ask for a length, decode, and report what was drafted and accepted.
pub session : Gov → List (ℕ × ℕ) → Gov
session g [] = g
session g ((drafted, accepted) ∷ rest) =
    session (governor_observe (governor_next g).0 drafted accepted) rest

session-IsGoverned_from :
    (g : Gov) (rounds : List (ℕ × ℕ)) → IsGoverned g → IsGoverned (session g rounds)
unfolding session
session-IsGoverned_from g [] v = v
session-IsGoverned_from g ((drafted, accepted) ∷ rest) v =
    session-IsGoverned_from (governor_observe (governor_next g).0 drafted accepted) rest
      (governor_observe-IsGoverned _ drafted accepted (governor_next-IsGoverned g v).0)

-- Whatever the rounds report, the draft length stays within the maximum, the misses below the
-- patience, the idle rounds within the interval, and no more tokens are accepted than drafted.
pub session-IsGoverned :
    (max_length probe_interval patience : ℕ) (rounds : List (ℕ × ℕ))
    → IsGoverned (session (governor_init max_length probe_interval patience) rounds)
session-IsGoverned max_length probe_interval patience rounds =
    session-IsGoverned_from _ rounds (governor_init-IsGoverned max_length probe_interval patience)

-- The next `n` answers, where no round reports a draft in between.
pub answers : ℕ → Gov → List ℕ
answers zero g = []
answers (suc n) g = (governor_next g).1 ∷ answers n (governor_next g).0

-- A governor that is off declines until the interval is over, and then probes with one token.
pub answers-probe :
    (k : ℕ) (g : Gov)
    → g.length ≡ 0
    → g.idle_rounds + k ≡ g.probe_interval
    → answers (suc k) g ≡ replicate k 0 ++ 1 ∷ []
unfolding answers governor_next
answers-probe zero g off due = ground arith
answers-probe (suc k) g off due =
    ground (arith, answers-probe k (record g { idle_rounds = g.idle_rounds + 1 }) off)
