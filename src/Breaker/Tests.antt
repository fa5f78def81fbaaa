-- ===== src/Breaker/Tests.antt =====
-- Runs of src/breaker.c with a limit of two failures.
use omniserve_native.Prelude.{ℕ, ◌+◌, ◌≡◌, refl, true, [], ◌∷◌, arith, leb}
use omniserve_native.Breaker.{
  breaker_init, breaker_allows, breaker_record_failure, record_failures,
  record_failures-breaker_init,
}

record_failures-breaker_init_example :
    ((t : ℕ) → breaker_allows (record_failures (breaker_init 2 30) (100 ∷ [])) t ≡ true)
    × ((t : ℕ)
        → breaker_allows
            (breaker_record_failure (record_failures (breaker_init 2 30) (100 ∷ [])) 105)
            t
          ≡ leb (105 + 30) t)
record_failures-breaker_init_example =
    record_failures-breaker_init 2 30 (100 ∷ []) 105 (omega arith) (omega arith) (omega arith) refl
