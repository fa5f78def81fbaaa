-- ===== src/Breaker.antt =====
-- src/breaker.c: the circuit breaker. `unsigned` is 32 bits wide; times are in seconds from 0 on.
mod Tests
use omniserve_native.Prelude.{
  ℕ, zero, suc, ◌+◌, ◌-◌, ◌%◌, ◌^◌, ◌≤◌, ◌<◌, ◌≡◌, refl, ap, subst, inl, inr, Bool, true, false,
  not, ◌&&◌, ◌||◌, List, [], ◌∷◌, arith, Bool-cases, ltb, leb, ◌==◌, if◌then◌else◌, length, ◌∙◌,
  sym,
}

pub record CircuitBreaker : Type 0 where
  pub failures : ℕ
  pub failure_limit : ℕ
  pub open_until : ℕ
  pub cooldown_seconds : ℕ

pub data BreakerState : Type 0 where
  opened closed_degraded closed : BreakerState

pub breaker_init : ℕ → ℕ → CircuitBreaker
breaker_init failure_limit cooldown_seconds = record {
  failures = 0;
  failure_limit = if failure_limit == 0 then 3 else failure_limit;
  open_until = 0;
  cooldown_seconds = if cooldown_seconds == 0 then 30 else cooldown_seconds;
}

pub breaker_allows : CircuitBreaker → ℕ → Bool
breaker_allows b now = b.open_until == 0 || leb b.open_until now

pub breaker_record_success : CircuitBreaker → CircuitBreaker
breaker_record_success b = record b { failures = 0; open_until = 0 }

pub breaker_record_failure : CircuitBreaker → ℕ → CircuitBreaker
breaker_record_failure b now =
    let failures = (b.failures + 1) % 2 ^ 32 in
    if not (b.open_until == 0) && ltb now b.open_until then b else record b {
      failures = failures;
      open_until = if leb b.failure_limit failures then now + b.cooldown_seconds else b.open_until;
    }

pub breaker_state : CircuitBreaker → ℕ → BreakerState
breaker_state b now =
    if not (b.open_until == 0) && ltb now b.open_until
    then opened
    else if not (b.failures == 0)
    then closed_degraded
    else closed

-- A run of failures, the first one first.
abbrev pub record_failures : CircuitBreaker → List ℕ → CircuitBreaker
record_failures b [] = b
record_failures b (now ∷ later) = record_failures (breaker_record_failure b now) later

-- One failure below the limit is only counted.
counted :
    (b : CircuitBreaker) (t : ℕ)
    → b.open_until ≡ 0
    → b.failures + 1 < b.failure_limit
    → b.failure_limit < 2 ^ 32
    → breaker_record_failure b t ≡ record b { failures = b.failures + 1 }
unfolding breaker_record_failure
counted b t shut below fits =
    let small : (b.failures + 1) % 2 ^ 32 ≡ b.failures + 1 = omega arith in
    let first : (b.open_until == 0) ≡ true = ground arith in
    let under : leb b.failure_limit (b.failures + 1) ≡ false = ground arith in
    rw (small, first, under, breaker_record_failure) refl

counting :
    (b : CircuitBreaker) (times : List ℕ) (now : ℕ)
    → b.open_until ≡ 0
    → b.failures + length times + 1 ≡ b.failure_limit
    → b.failure_limit < 2 ^ 32
    → ((t : ℕ) → breaker_allows (record_failures b times) t ≡ true)
      × ((breaker_record_failure (record_failures b times) now).open_until
          ≡ now + b.cooldown_seconds)
unfolding breaker_record_failure breaker_allows
counting b [] now shut count fits =
    let small : (b.failures + 1) % 2 ^ 32 ≡ b.failure_limit = omega arith in
    ((λ t. ground arith), ground (arith, small))
counting b (t ∷ times) now shut count fits =
    subst
      (λ c.
        ((u : ℕ) → breaker_allows (record_failures c times) u ≡ true)
        × ((breaker_record_failure (record_failures c times) now).open_until
            ≡ now + b.cooldown_seconds))
      (sym (counted b t shut (omega arith) fits))
      (counting (record b { failures = b.failures + 1 }) times now shut (omega arith) fits)

-- A breaker with a limit n and a cooldown that are not 0 stays closed while fewer than n failures
-- are recorded after the start, whenever they are, and opens with the n-th one until its cooldown
-- is over.
pub record_failures-breaker_init :
    (limit cooldown : ℕ) (times : List ℕ) (now : ℕ)
    → 0 < limit
    → 0 < cooldown
    → limit < 2 ^ 32
    → length times + 1 ≡ limit
    → ((t : ℕ) → breaker_allows (record_failures (breaker_init limit cooldown) times) t ≡ true)
      × ((t : ℕ)
          → breaker_allows
              (breaker_record_failure (record_failures (breaker_init limit cooldown) times) now)
              t
            ≡ leb (now + cooldown) t)
unfolding breaker_init breaker_allows
record_failures-breaker_init limit cooldown times now some_limit some_cooldown fits count =
    let keep : (limit == 0) ≡ false = ground arith in
    let wait : (cooldown == 0) ≡ false = ground arith in
    let start : CircuitBreaker = record {
      failures = 0;
      failure_limit = limit;
      open_until = 0;
      cooldown_seconds = cooldown;
    } in
    let fresh : breaker_init limit cooldown ≡ start = rw (keep, wait, breaker_init) refl in
    let (closed_before, opens) = counting start times now refl (omega arith) fits in
    rw fresh (closed_before, (λ t. rw opens (ground arith)))

-- The reported state is open exactly when the breaker refuses.
pub breaker_state-breaker_allows :
    (b : CircuitBreaker) (now : ℕ)
    → ((breaker_state b now ≡ opened) → breaker_allows b now ≡ false)
      × (breaker_allows b now ≡ false → breaker_state b now ≡ opened)
unfolding breaker_state breaker_allows
breaker_state-breaker_allows b now = ground arith
