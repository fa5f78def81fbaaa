-- ===== src/Host/Tests.antt =====
-- Warming by src/ohost.c on a host of 100 kB and of enough memory.
use omniserve_native.Prelude.{ℕ, ◌≤◌, ◌≡◌, true, false, none, Option, arith}
use omniserve_native.Prelude.Int.{pos}
use omniserve_native.Host.{Meminfo, pressed, warm_loop, Tiles, warm_loop-Tiles}

abbrev no_reading : ℕ → Option Meminfo
no_reading o = none

warm_loop-Tiles_example :
    Tiles 0
      (warm_loop (λ o c. true) no_reading (pos 20) 9 9 0).done
      (warm_loop (λ o c. true) no_reading (pos 20) 9 9 0).requests
    × ((warm_loop (λ o c. true) no_reading (pos 20) 9 9 0).done ≤ 9)
    × (((o c : ℕ) → true ≡ true)
        → ((o : ℕ) → pressed (λ o c. true) no_reading (pos 20) o ≡ false)
        → (warm_loop (λ o c. true) no_reading (pos 20) 9 9 0).done ≡ 9)
warm_loop-Tiles_example =
    warm_loop-Tiles (λ o c. true) no_reading (pos 20) 9 9 0 (omega arith) (omega arith)
