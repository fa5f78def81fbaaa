-- ===== src/Spec.antt =====
-- src/ospec.c: speculative decoding by prompt lookup. `draft` copies what followed the last
-- occurrence of the longest repeated suffix; the governor decides how many tokens to draft. A count
-- that the code takes for absent because it is not positive is 0 here, tokens are numbers, and the
-- statistics counters do not wrap.
pub mod Draft
pub mod Governor
mod Tests
use omniserve_native.Prelude.{
  ℕ, zero, suc, ◌+◌, ◌-◌, ◌/◌, Bool, true, false, ◌&&◌, List, [], ◌∷◌, Option, none, some, ltb, leb,
  ◌==◌, if◌then◌else◌, length, take, drop, min,
}

pub record Config : Type 0 where
  pub min_ngram : ℕ
  pub max_ngram : ℕ

pub config_default : Config
config_default = record { min_ngram = 3; max_ngram = 8 }

-- The bounds that `ospec_draft` works with.
abbrev pub shortest : Config → ℕ
shortest cfg = if ltb 0 cfg.min_ngram then cfg.min_ngram else 3

abbrev pub longest : Config → ℕ
longest cfg =
    let max_ngram = if ltb 0 cfg.max_ngram then cfg.max_ngram else 8 in
    if ltb max_ngram (shortest cfg) then shortest cfg else max_ngram

-- `memcmp(a, b, …) == 0`.
pub same_tokens : List ℕ → List ℕ → Bool
same_tokens [] [] = true
same_tokens [] (b ∷ bs) = false
same_tokens (a ∷ as_) [] = false
same_tokens (a ∷ as_) (b ∷ bs) = a == b && same_tokens as_ bs

-- The last `n` tokens stand at `start` too.
pub repeats : List ℕ → ℕ → ℕ → Bool
unfolding same_tokens
repeats context n start =
    same_tokens (take n (drop start context)) (take n (drop (length context - n) context))

-- What is copied from behind an occurrence.
pub copied : List ℕ → ℕ → ℕ → ℕ → List ℕ
copied context cap n start =
    take (min (length context - (start + n)) cap) (drop (start + n) context)

-- The inner loop, downwards from `start`.
pub by_start : List ℕ → ℕ → ℕ → ℕ → Option (List ℕ)
unfolding repeats copied
by_start context cap n zero = if repeats context n 0 then some (copied context cap n 0) else none
by_start context cap n (suc start) =
    let earlier = by_start context cap n start in
    if repeats context n (suc start) then some (copied context cap n (suc start)) else earlier

-- The outer loop, downwards from length `n`.
pub by_length : List ℕ → ℕ → ℕ → ℕ → List ℕ
unfolding by_start
by_length context cap least zero = []
by_length context cap least (suc n) =
    let shorter = by_length context cap least n in
    if ltb (suc n) least
    then []
    else if ltb (length context) (suc n + 1)
    then shorter
    else elim (by_start context cap (suc n) (length context - suc n - 1)) [
      | none ↦ shorter
      | some found ↦ found
    ]

pub draft : Config → List ℕ → ℕ → List ℕ
unfolding by_length
draft cfg context draft_cap =
    if length context == 0
    then []
    else if draft_cap == 0
    then []
    else by_length context draft_cap (shortest cfg) (longest cfg)

pub record Gov : Type 0 where
  pub length : ℕ
  pub max_length : ℕ
  pub probe_interval : ℕ
  pub idle_rounds : ℕ
  pub patience : ℕ
  pub misses : ℕ
  pub rounds : ℕ
  pub drafted : ℕ
  pub accepted : ℕ
  pub saved_calls : ℕ

pub governor_init : ℕ → ℕ → ℕ → Gov
governor_init max_length probe_interval patience = record {
  length = if ltb 0 max_length then max_length else 4;
  max_length = if ltb 0 max_length then max_length else 4;
  probe_interval = if ltb 0 probe_interval then probe_interval else 32;
  idle_rounds = 0;
  patience = if ltb 0 patience then patience else 1;
  misses = 0;
  rounds = 0;
  drafted = 0;
  accepted = 0;
  saved_calls = 0;
}

pub governor_next : Gov → Gov × ℕ
governor_next g =
    if ltb 0 g.length
    then (g, g.length)
    else if leb g.probe_interval g.idle_rounds
    then (record g { idle_rounds = 0 }, 1)
    else (record g { idle_rounds = g.idle_rounds + 1 }, 0)

-- No drafted token landed.
pub after_miss : Gov → Gov
after_miss g =
    let misses = g.misses + 1 in
    if leb g.patience misses
    then record g { length = 0; misses = 0; idle_rounds = 0 }
    else if ltb 1 g.length
    then record g { length = g.length / 2; misses = misses; idle_rounds = 0 }
    else record g { misses = misses; idle_rounds = 0 }

-- Some or all of them did.
pub after_hit : Gov → ℕ → ℕ → Gov
after_hit g drafted accepted =
    let target =
      if accepted == drafted
      then (if ltb g.length g.max_length then g.length + 1 else g.max_length)
      else accepted in
    record g {
      length = if ltb g.max_length target then g.max_length else target;
      misses = 0;
      idle_rounds = 0;
    }

pub governor_observe : Gov → ℕ → ℕ → Gov
unfolding after_miss after_hit
governor_observe g drafted given =
    let accepted = if ltb drafted given then drafted else given in
    let counted = record g {
      rounds = g.rounds + 1;
      drafted = g.drafted + drafted;
      accepted = g.accepted + accepted;
      saved_calls = g.saved_calls + accepted;
    } in
    if drafted == 0
    then counted
    else if accepted == 0
    then after_miss counted
    else after_hit counted drafted accepted
