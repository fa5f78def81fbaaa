-- ===== src/Vram/Wait.antt =====
-- `ovram_lease_wait` of src/ovram.c: a call that queues. A round is one critical section with the
-- figures read before it; between two rounds the lock is free and the other calls change the broker.
-- A round that does not return says what memory is lacking, for the pressure hook. The tier of a
-- call is 0 to 3: any other one is the background tier.
use omniserve_native.Prelude.{
  ℕ, suc, ◌+◌, Bool, true, false, not, ◌&&◌, ◌||◌, List, [], ◌∷◌, Option, none, some, ltb, ◌==◌,
  if◌then◌else◌, get_elem?, update,
}
use omniserve_native.Prelude.Int.{ℤ, pos, pos_part, sub_ℕ, ◌+ℤ◌, ◌-ℤ◌, ltb_ℤ}
use omniserve_native.Floats.{DoubleOps}
use omniserve_native.Vram.{Owner, Waiter, Vram, modify, or_anon}
use omniserve_native.Vram.Tables.{on_owner, expire_locked}
use omniserve_native.Vram.Charges.{headroom_locked}
use omniserve_native.Vram.Queue.{waiter_ahead_locked}
use omniserve_native.Vram.Grant.{Answer, grant_locked, least_mb}

module _ (F : DoubleOps) where
  open F use {Double, dec, of_int, add, sub, mul, div, lt, le}

  -- The local variables of a call.
  pub record Call : Type 0 where
    pub name : List ℕ
    pub pid : ℕ
    pub mb : ℕ
    pub min_mb : ℕ
    pub tier : ℕ
    pub ttl_s : Double
    pub started : Double
    pub deadline : Double
    pub next_pressure : Double
    pub registered : Bool
    pub wslot : Option ℕ

  pub data Outcome : Type 0 where
    -- The return value, the id, the wait in milliseconds and the broker.
    returned : ℕ → List ℕ → Double → Vram F → Outcome
    -- The memory that is lacking, the call and the broker.
    queued : ℤ → Call → Vram F → Outcome

  -- Up to the loop; `mb` is positive.
  unfoldable pub start_wait : Vram F → List ℕ → ℕ → ℤ → ℤ → ℕ → Double → ℤ → Double → Call
  start_wait v owner pid mb min_mb tier ttl_s wait_ms started = record {
    name = or_anon owner;
    pid = pid;
    mb = pos_part mb;
    min_mb = least_mb F mb min_mb;
    tier = if ltb 3 tier then 3 else tier;
    ttl_s = ttl_s;
    started = started;
    deadline =
        add started (if ltb_ℤ (pos 0) wait_ms then div (of_int wait_ms) (dec 10000 1) else dec 0 1);
    next_pressure = add started (div (of_int v.pressure_after_ms) (dec 10000 1));
    registered = false;
    wslot = none;
  }

  abbrev pub need : Call → ℕ
  need c = if ltb 0 c.min_mb then c.min_mb else c.mb

  abbrev pub slot_since : Vram F → Double → Option ℕ → Double
  slot_since v now none = now
  slot_since v now (some i) = elim (get_elem? v.waiters i) [ none ↦ now | some w ↦ w.since ]

  abbrev pub vacate : List (Waiter F) → Option ℕ → List (Waiter F)
  vacate ws none = ws
  vacate ws (some i) = modify ws i (λ w. record w { used = false })

  -- The caller leaves the queue.
  unfoldable pub unregister : Vram F → Call → Vram F
  unregister v c =
      if c.registered
      then record v {
        waiting = update v.waiting c.tier (v.waiting c.tier -ℤ pos 1);
        waiters = vacate v.waiters c.wslot;
      }
      else v

  -- The owner's books when the call returns.
  unfoldable pub owner_waited : Call → ℕ → Double → Double → Owner F → Owner F
  owner_waited c granted waited now o =
      let failed = granted == 0 in
      record o {
        waits = o.waits + (if c.registered then 1 else 0);
        wait_ms_total = if c.registered then add o.wait_ms_total waited else o.wait_ms_total;
        wait_ms_max = if c.registered && lt o.wait_ms_max waited then waited else o.wait_ms_max;
        denials = o.denials + (if failed then 1 else 0);
        last_active_s = if failed then now else o.last_active_s;
        timeouts = o.timeouts + (if failed && c.registered then 1 else 0);
      }

  unfoldable pub finish : Vram F → Call → ℕ → Double → Vram F
  finish v c granted now =
      let waited = mul (sub now c.started) (dec 10000 1) in
      let w = unregister v c in
      on_owner F
        (record w {
          denials = w.denials + (if granted == 0 then 1 else 0);
          wait_timeouts = w.wait_timeouts + (if granted == 0 && c.registered then 1 else 0);
        })
        c.name c.pid (owner_waited c granted waited now)

  unfoldable pub free_waiter : List (Waiter F) → Option ℕ
  free_waiter [] = none
  free_waiter (w ∷ ws) =
      let rest = free_waiter ws in
      if w.used then elim rest [ none ↦ none | some i ↦ some (suc i) ] else some 0

  abbrev occupy : List (Waiter F) → Option ℕ → Waiter F → List (Waiter F)
  occupy ws none w = ws
  occupy ws (some i) w = modify ws i (λ _. w)

  -- The caller enters the queue.
  unfoldable pub register : Vram F → Call → Double → Vram F × Call
  register v c now =
      if c.registered
      then (v, c)
      else let slot = free_waiter v.waiters in
        (
          record v {
            waiting = update v.waiting c.tier (v.waiting c.tier +ℤ pos 1);
            waiters =
                occupy v.waiters slot
                  (record { used = true; tier = c.tier; need = need c; since = now });
            waits = v.waits + 1;
          },
          record c { registered = true; wslot = slot },
        )

  -- The attempt of a round, on a broker that has expired what was over.
  unfoldable pub attempt : Vram F → Call → Double → Option ℕ → Answer F
  attempt v c now device_free =
      if waiter_ahead_locked F v c.tier (if c.registered then c.wslot else none)
        (slot_since v now c.wslot) now device_free
      then record { granted = 0; id = []; broker = v }
      else grant_locked F v c.name c.pid c.mb c.min_mb c.tier c.ttl_s now device_free false

  unfoldable pub wait_round : Vram F → Call → Double → Option ℕ → Outcome
  wait_round v c now device_free =
      let a = attempt (expire_locked F v now).0 c now device_free in
      if not (a.granted == 0) || le c.deadline now
      then returned a.granted a.id (mul (sub now c.started) (dec 10000 1))
          (finish a.broker c a.granted now)
      else let (w, d) = register a.broker c now in
        queued (sub_ℕ (need d) (headroom_locked F w d.tier device_free)) d w

  -- Whether a round that queued calls the hook.
  unfoldable pub calls_hook : Vram F → Call → ℤ → Double → Bool
  calls_hook v c deficit now = v.has_hook && (ltb_ℤ (pos 0) deficit && le c.next_pressure now)

  -- After the hook, which freed so much by its own account, at the time `later`.
  unfoldable pub after_hook : Vram F → Call → ℤ → Double → Vram F × Call
  after_hook v c freed later = (
    record v {
      pressure_calls = v.pressure_calls + 1;
      pressure_freed_mb = v.pressure_freed_mb + pos_part freed;
    },
    record c { next_pressure = add later (dec 50 1) },
  )
