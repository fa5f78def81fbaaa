-- ===== src/Tune/Tests.antt =====
-- Descriptions of devices for src/otune.c.
use omniserve_native.Prelude.{◌≡◌, refl, codes}
use omniserve_native.Tune.{classify, turing}
use omniserve_native.Sched.Tier.{lower}

t4 : classify (codes "Tesla T4") ≡ turing
unfolding classify lower
t4 = refl
