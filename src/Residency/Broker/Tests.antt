-- ===== src/Residency/Broker/Tests.antt =====
-- Two claims on a device with 9000 MB free, through src/oresidency.c with times in whole numbers.
use omniserve_native.Prelude.{ℕ, true, false, List, [], ◌∷◌, replicate, codes, arith}
use omniserve_native.Prelude.Int.{ℤ, pos}
use omniserve_native.Floats.Whole.{whole}
use omniserve_native.Residency.{Claim, Config, Ores, Report}
use omniserve_native.Residency.Broker.{admit_all}
use omniserve_native.Residency.Broker.Fits.{Fits, admit_all-Fits}

abbrev config : Config whole
config = record {
  keep_free_mb = pos 1024;
  half_life_s = pos 300;
  min_hold_s = pos 120;
  idle_release_s = pos 900;
  switch_ratio = pos 2;
  claim_ttl_s = pos 180;
  reserve_idle_s = pos 180;
  hysteresis_mb = pos 1024;
  free_window_s = pos 60;
}

abbrev claim : List ℕ → ℕ → ℤ → Claim whole
claim owner resident_mb saved_ms = record {
  owner = owner;
  pid = pos 7;
  resident_mb = resident_mb;
  stream_mb = 2000;
  saved_ms = saved_ms;
  demand = pos 5;
  demand_ts = pos 100;
  last_req_s = pos 100;
  last_seen_s = pos 100;
  admitted_at_s = pos 0;
  cooldown_until_s = pos 0;
  revokes = 0;
  resident = false;
  admitted = false;
  active = true;
}

abbrev box : Ores whole
box = record {
  cfg = config;
  claims = claim (codes "zimage") 5000 (pos 900) ∷ claim (codes "qwen") 6000 (pos 400) ∷ [];
  free_log = replicate 64 (pos 0, pos 0);
  free_n = 0;
  free_head = 0;
  promotions = 0;
  revocations = 0;
}

abbrev report : Report whole
report = record {
  owner = codes "zimage";
  pid = pos 7;
  resident_mb = pos 5000;
  stream_mb = pos 2000;
  saved_ms = pos 900;
  requests = pos 1;
  resident = false;
}

abbrev winner : Claim whole
winner = record (claim (codes "zimage") 5000 (pos 900)) { admitted = true }

admit_all-Fits_example :
    Fits whole config
      (pos 100)
      (pos 9000)
      (admit_all whole (λ d. pos 1) box (pos 100) (pos 9000)).claims
admit_all-Fits_example = admit_all-Fits whole (λ d. pos 1) box (pos 100) (pos 9000) (omega arith)
