-- ===== src/Host.antt =====
-- src/ohost.c: page-cache warming, its memory floor and its chunk loop. The files, `posix_fadvise`
-- and /proc/meminfo are parameters: the size of a regular file that opens, whether advice at an
-- offset is taken, and what is read after so many bytes. The products of `long long` do not
-- overflow (a machine has less than 2 ^ 53 kB), and the counters do not wrap.
mod Tests
use omniserve_native.Prelude.{
  ℕ, zero, suc, ◌+◌, ◌-◌, ◌*◌, ◌/◌, ◌≤◌, ◌<◌, ◌≡◌, refl, sym, ap, ◌∙◌, ◌⊎◌, inl, inr, min, Bool,
  true, false, not, ◌&&◌, ◌||◌, List, [], ◌∷◌, Option, none, some, arith, Bool-cases, Option-cases,
  ltb, ltb→lt, leb, ◌==◌, if◌then◌else◌,
}
use omniserve_native.Prelude.Int.{ℤ, pos, pos_part, ltb_ℤ, leb_ℤ, ◌-ℤ◌}

abbrev pub chunk_bytes : ℕ
chunk_bytes = 64 * 1024 * 1024

pub record Meminfo : Type 0 where
  pub mem_total_kb : ℤ
  pub mem_available_kb : ℤ

pub record Stats : Type 0 where
  pub bytes_requested : ℕ
  pub files_done : ℕ
  pub files_skipped : ℕ
  pub stops_for_pressure : ℕ

abbrev pub clamp_pct : ℤ → ℕ
clamp_pct pct = if ltb_ℤ (pos 90) pct then 90 else pos_part pct

pub headroom_bytes : Meminfo → ℤ → ℕ
headroom_bytes mi keep_free_pct =
    let floor_kb = pos_part mi.mem_total_kb * clamp_pct keep_free_pct / 100 in
    let spare_kb = mi.mem_available_kb -ℤ pos floor_kb in
    if leb_ℤ mi.mem_total_kb (pos 0)
    then 0
    else if ltb_ℤ (pos 0) spare_kb
    then pos_part spare_kb * 1024
    else 0

pub plan_bytes : ℕ → ℕ → ℕ
plan_bytes file_size headroom =
    if file_size == 0 || headroom == 0
    then 0
    else if ltb file_size headroom
    then file_size
    else headroom

-- The requests of the chunk loop, the bytes in the end, and whether it was cut short.
pub record Warmed : Type 0 where
  pub requests : List (ℕ × ℕ)
  pub done : ℕ
  pub cut_short : Bool

module _ (advise : ℕ → ℕ → Bool) (meminfo : ℕ → Option Meminfo) (keep_free_pct : ℤ) where
  -- The recheck between chunks finds no headroom.
  pub pressed : ℕ → Bool
  unfolding headroom_bytes
  pressed done = elim (meminfo done) [
    | none ↦ false
    | some mi ↦ headroom_bytes mi keep_free_pct == 0
  ]

  pub warm_loop : ℕ → ℕ → ℕ → Warmed
  unfolding pressed
  warm_loop zero budget done = record { requests = []; done = done; cut_short = false }
  warm_loop (suc fuel) budget done =
      let chunk = min (budget - done) chunk_bytes in
      let rest = warm_loop fuel budget (done + chunk) in
      if not (ltb done budget) || not (advise done chunk)
      then record { requests = []; done = done; cut_short = false }
      else if ltb (done + chunk) budget && pressed (done + chunk)
      then record { requests = (done, chunk) ∷ []; done = done + chunk; cut_short = true }
      else record rest { requests = (done, chunk) ∷ rest.requests }

  abbrev skipped : Stats → Stats
  skipped s = record s { files_skipped = s.files_skipped + 1 }

  -- The file is given by its size, if it opens and is regular; a budget of n bytes takes at most n
  -- rounds.
  pub warm_one : Option ℕ → Stats → Stats
  unfolding warm_loop plan_bytes headroom_bytes
  warm_one none s = skipped s
  warm_one (some size) s = elim (meminfo 0) [
    | none ↦ skipped s
    | some mi ↦
        let budget = plan_bytes size (headroom_bytes mi keep_free_pct) in
        let warmed = warm_loop budget budget 0 in
        if budget == 0 then skipped s else record s {
          bytes_requested = s.bytes_requested + warmed.done;
          files_done = s.files_done + 1;
          stops_for_pressure = s.stops_for_pressure + (if warmed.cut_short then 1 else 0);
        }
  ]

-- Requests that follow one another from one offset to another, none of them larger than a chunk.
unfoldable pub Tiles : ℕ → ℕ → List (ℕ × ℕ) → Type 0
Tiles a b [] = a ≡ b
Tiles a b (r ∷ rs) = (r.0 ≡ a) × (0 < r.1) × (r.1 ≤ chunk_bytes) × Tiles (a + r.1) b rs

-- With readings that are not negative and a floor of at most 90 percent, what is planned is no
-- more than the file and no more than what is available above the floor.
pub plan_bytes-headroom_bytes :
    (total available pct size : ℕ)
    → pct ≤ 90
    → (plan_bytes size (
          headroom_bytes
            (record { mem_total_kb = pos total; mem_available_kb = pos available })
            (pos pct))
        ≤ size)
      × (plan_bytes size (
            headroom_bytes
              (record { mem_total_kb = pos total; mem_available_kb = pos available })
              (pos pct))
          ≤ (available - total * pct / 100) * 1024)
unfolding plan_bytes headroom_bytes ◌-ℤ◌
plan_bytes-headroom_bytes total available pct size h = ground arith

module _ (advise : ℕ → ℕ → Bool) (meminfo : ℕ → Option Meminfo) (keep_free_pct : ℤ) where
  both_false : (b : Bool) → b && false ≡ false
  both_false true = refl
  both_false false = refl

  -- With no less fuel than bytes left, the loop asks for one chunk right after the other, none of
  -- them empty or larger than a chunk, and never beyond the budget; with all advice taken and
  -- memory left, it asks for the whole budget.
  pub warm_loop-Tiles :
      (fuel budget done : ℕ)
      → done ≤ budget
      → budget ≤ fuel + done
      → Tiles done
          (warm_loop advise meminfo keep_free_pct fuel budget done).done
          (warm_loop advise meminfo keep_free_pct fuel budget done).requests
        × ((warm_loop advise meminfo keep_free_pct fuel budget done).done ≤ budget)
        × (((o c : ℕ) → advise o c ≡ true)
            → ((o : ℕ) → pressed advise meminfo keep_free_pct o ≡ false)
            → (warm_loop advise meminfo keep_free_pct fuel budget done).done ≡ budget)
  unfolding warm_loop Tiles
  warm_loop-Tiles zero budget done h f = (refl, h, λ a p. omega arith)
  warm_loop-Tiles (suc fuel) budget done h f = elim (Bool-cases (ltb done budget)) [
    | inr over ↦ rw (over, warm_loop) (refl, h, λ a p. ground arith)
    | inl more ↦
        let chunk = min (budget - done) chunk_bytes in
        let lt_budget = ltb→lt done budget more in
        elim (Bool-cases (advise done chunk)) [
          | inr no_advice ↦
              rw (more, no_advice, warm_loop)
                (refl, h, λ a p. let e = rw (a done chunk) at no_advice in cc)
          | inl taken ↦
              let next = done + chunk in
              elim (Bool-cases (ltb next budget && pressed advise meminfo keep_free_pct next)) [
                | inl stop ↦
                    rw (more, taken, stop, warm_loop)
                      (
                        (refl, omega arith, omega arith, refl),
                        omega arith,
                        λ a p.
                            let e : false ≡ true =
                              sym (
                                ap (λ b. ltb next budget && b) (p next)
                                ∙ both_false (ltb next budget))
                              ∙ stop in
                            cc,
                      )
                | inr on ↦
                    let (tiles, under, all) =
                      warm_loop-Tiles fuel budget next (omega arith) (omega arith) in
                    rw (more, taken, on, warm_loop)
                      ((refl, omega arith, omega arith, tiles), under, all)
              ]
        ]
  ]
