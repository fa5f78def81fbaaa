-- ===== src/Frontier/Tests.antt =====
-- Runs of src/ofrontier.c, with whole numbers for the times and a `strtod` of plain digits.
use omniserve_native.Prelude.{
  ℕ, suc, ◌+◌, ◌-◌, ◌*◌, ◌≡◌, refl, true, List, [], ◌∷◌, some, arith, codes, length, leb, ◌&&◌,
  if◌then◌else◌,
}
use omniserve_native.Prelude.Int.{ℤ, pos, ◌+ℤ◌, ◌-ℤ◌}
use omniserve_native.Floats.Whole.{whole}
use omniserve_native.Frontier.{
  deadline, remote, Table, FileStat, Frontier, table_default, open_frontier, snapshot, decide,
  deadline_of, choose,
}
use omniserve_native.Frontier.Decision.{Honours, decide-Honours}
use omniserve_native.Frontier.Load.{Usable, opened, asked, Reach-Usable}

abbrev digits_to : ℕ → List ℕ → ℕ × ℕ
digits_to n [] = (n, 0)
digits_to n (c ∷ cs) =
    let (value, read) = digits_to (n * 10 + (c - 48)) cs in
    if leb 48 c && leb c 57 then (value, suc read) else (n, 0)

abbrev strtod : List ℕ → ℤ × ℕ
strtod cs = (pos (digits_to 0 cs).0, (digits_to 0 cs).1)

abbrev table : Table whole
table = record {
  loaded = true;
  local_p50_ms = pos 900;
  remote_p50_ms = pos 1500;
  policy = λ _. deadline;
  deadline_ms = λ _. pos 2000;
  allow_overflow = λ _. true;
}

-- With 1800 ms to wait the device misses the deadline of the table.
goes_remote : decide whole table 0 (pos 1800) (pos 0) ≡ remote
unfolding decide choose ◌+ℤ◌
goes_remote = refl

decide-Honours_example :
    Honours whole deadline true
      (deadline_of whole table 0 (pos 0))
      (pos 1800 +ℤ pos 900)
      (pos 1500)
      (decide whole table 0 (pos 1800) (pos 0))
decide-Honours_example = decide-Honours whole table 0 (pos 1800) (pos 0) (omega arith) refl

abbrev file : List ℕ
file =
    codes "{\"workloads\":{\"image\":{\"gateway\":{\"local_p50_ms\":900,\"remote_p50_ms\":1500}}}}"

abbrev fresh : Frontier whole
fresh = record {
  policy_path = codes "policy.json";
  workload = codes "image";
  table = table_default whole;
  mtime = pos 0;
  mtime_ns = pos 0;
  size = pos 0;
  checked_at = pos 0 -ℤ pos 1000000000;
}

fresh_opens : open_frontier whole (codes "policy.json") [] [] ≡ some fresh
unfolding open_frontier
fresh_opens = refl

abbrev stat : FileStat whole
stat = record { mtime = pos 7; mtime_ns = pos 0; size = pos (length file) }

Reach-Usable_example :
    Usable whole strtod (snapshot whole strtod fresh (pos 5) (some stat) (some file)).2.table
Reach-Usable_example =
    Reach-Usable whole strtod (snapshot whole strtod fresh (pos 5) (some stat) (some file)).2
      (asked (pos 5) (some stat) (some file) (opened (codes "policy.json") [] [] fresh fresh_opens))
