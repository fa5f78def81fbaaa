-- ===== src/Sched.antt =====
-- src/osched.c, the admission scheduler: lines 30-340, without the NVML queries below them.
-- Each definition is one critical section of the mutex, or a helper of one. A waiter's stack frame
-- is the record `Waiter`; the linked list is a list in service order, and a waiter is known by its
-- sequence number. `promote_locked` returns the waiters whose `granted` it sets, in that order.
-- A tier is the number of the enumeration; a permit count that the code refuses because it is
-- negative is 0 here. The counters `served`, `timed_out` and `seq` do not wrap.
pub mod Order
pub mod Aging
pub mod Fits
pub mod Promote
pub mod Door
pub mod Release
pub mod Fairness
pub mod System
pub mod Tier
pub mod Snapshot
mod Tests
use omniserve_native.Prelude.{
  ℕ, zero, suc, ◌+◌, ◌-◌, ◌≡◌, Bool, true, false, not, ◌&&◌, ◌||◌, List, [], ◌∷◌, ltb, leb, ◌==◌,
  if◌then◌else◌, update,
}
use omniserve_native.Prelude.Int.{ℤ, pos, sub_ℕ, pos_part, ltb_ℤ, ◌+ℤ◌}
use omniserve_native.Floats.{DoubleOps}

abbrev pub tier_paid : ℕ
tier_paid = 0

abbrev pub tier_sub : ℕ
tier_sub = 1

abbrev pub tier_free : ℕ
tier_free = 2

abbrev pub tier_background : ℕ
tier_background = 3

pub record Timespec : Type 0 where
  pub sec : ℕ
  pub nsec : ℕ

pub record Waiter : Type 0 where
  pub tier : ℕ
  pub prio : ℕ
  pub permits : ℕ
  pub shared : Bool
  pub seq : ℕ
  pub queued_at : Timespec

-- The tests of `insert_waiter`: `w` is served before `me`.
abbrev pub precedes : Waiter → Waiter → Bool
precedes w me = ltb w.prio me.prio || (w.prio == me.prio && ltb w.seq me.seq)

pub insert_waiter : List Waiter → Waiter → List Waiter
insert_waiter [] me = me ∷ []
insert_waiter (w ∷ ws) me = if precedes w me then w ∷ insert_waiter ws me else me ∷ w ∷ ws

pub unlink_waiter : List Waiter → ℕ → List Waiter
unlink_waiter [] me = []
unlink_waiter (w ∷ ws) me = if w.seq == me then ws else w ∷ unlink_waiter ws me

-- The second loop of `age_locked`.
pub reinsert : List Waiter → List Waiter → List Waiter
unfolding insert_waiter
reinsert ws [] = ws
reinsert ws (w ∷ aged) = reinsert (insert_waiter ws w) aged

module _ (F : DoubleOps) where
  open F use {Double, dec, of_int, to_int, add, sub, mul, div, lt, le}

  pub record Sched : Type 0 where
    pub slots : ℕ
    pub used_slots : ℕ
    pub active : ℕ
    pub timeout_s : Double
    pub bg_timeout_s : Double
    pub bg_age_s : Double
    pub seq : ℕ
    pub waiters : List Waiter
    pub served : ℕ → ℕ
    pub queue_ms_total : ℕ → Double
    pub queue_ms_max : ℕ → Double
    pub timed_out : ℕ → ℕ

  pub elapsed_ms : Timespec → Timespec → Double
  elapsed_ms start end =
      add (mul (of_int (sub_ℕ end.sec start.sec)) (dec 1000 0))
        (div (of_int (sub_ℕ end.nsec start.nsec)) (dec 1000000 0))

  pub create : ℤ → Double → Sched
  create slots admission_timeout_s = record {
    slots = if ltb_ℤ (pos 0) slots then pos_part slots else 1;
    used_slots = 0;
    active = 0;
    timeout_s = if lt (dec 0 0) admission_timeout_s then admission_timeout_s else dec 600 0;
    bg_timeout_s = dec 0 0;
    bg_age_s = dec 0 0;
    seq = 0;
    waiters = [];
    served = λ _. 0;
    queue_ms_total = λ _. dec 0 0;
    queue_ms_max = λ _. dec 0 0;
    timed_out = λ _. 0;
  }

  pub set_background : Sched → Double → Double → Sched
  set_background s timeout_s max_wait_s = record s {
    bg_timeout_s = if lt (dec 0 0) timeout_s then timeout_s else dec 0 0;
    bg_age_s = if lt (dec 0 0) max_wait_s then max_wait_s else dec 0 0;
  }

  pub waited_s : Timespec → Waiter → Double
  unfolding elapsed_ms
  waited_s now w = div (elapsed_ms w.queued_at now) (dec 1000 0)

  -- The rank that a waiter should have by now.
  pub want : Double → Timespec → Waiter → ℕ
  unfolding waited_s
  want age now w =
      if w.tier == tier_background
      then if le (mul (dec 2 0) age) (waited_s now w)
        then tier_paid
        else if le age (waited_s now w)
        then tier_free
        else w.prio
      else w.prio

  -- The first loop of `age_locked`: the waiters that stay, and a stack of those that move up.
  pub age_scan : Double → Timespec → List Waiter → List Waiter → List Waiter × List Waiter
  unfolding want
  age_scan age now [] aged = ([], aged)
  age_scan age now (w ∷ ws) aged =
      let moves = ltb (want age now w) w.prio in
      let rest =
        age_scan age now ws (if moves then record w { prio = want age now w } ∷ aged else aged) in
      (if moves then rest.0 else w ∷ rest.0, rest.1)

  pub age_locked : Sched → Timespec → Sched
  unfolding age_scan reinsert
  age_locked s now =
      if not (lt (dec 0 0) s.bg_age_s)
      then s
      else let split = age_scan s.bg_age_s now s.waiters [] in
        record s { waiters = reinsert split.0 split.1 }

  pub link_waiter : Sched → Waiter → Timespec → Sched
  unfolding age_locked insert_waiter
  link_waiter s me now = record s { waiters = insert_waiter (age_locked s now).waiters me }

  pub fits_locked : Sched → ℕ → ℕ → Bool → Bool
  fits_locked s tier permits shared =
      if tier == tier_background && not shared
      then s.active == 0 && s.used_slots == 0
      else leb (s.used_slots + permits) s.slots

  -- Slots are charged to a request of this tier.
  pub admit : Sched → ℕ → ℕ → Sched
  admit s tier permits = record s {
    active = s.active + 1;
    used_slots = s.used_slots + permits;
    served = update s.served tier (s.served tier + 1);
  }

  -- The loop of `promote_locked`, over the list of waiters: the state after, and who was granted.
  pub promote_loop : Sched → List Waiter → Sched × List Waiter
  unfolding fits_locked admit
  promote_loop s [] = (record s { waiters = [] }, [])
  promote_loop s (head ∷ next) =
      let rest = promote_loop (admit s head.tier head.permits) next in
      if fits_locked s head.tier head.permits head.shared
      then (rest.0, head ∷ rest.1)
      else (record s { waiters = head ∷ next }, [])

  pub promote_locked : Sched → Timespec → Sched × List Waiter
  unfolding age_locked promote_loop
  promote_locked s now = promote_loop (age_locked s now) (age_locked s now).waiters

  -- The arguments that both entry points refuse.
  pub refuses : Sched → ℕ → ℕ → Bool
  refuses s tier permits = ltb tier_background tier || (permits == 0 || ltb s.slots permits)

  abbrev pub is_empty : List Waiter → Bool
  is_empty [] = true
  is_empty (w ∷ ws) = false

  pub try_acquire_n : Sched → ℕ → ℕ → Sched × Bool
  unfolding refuses fits_locked admit
  try_acquire_n s tier permits =
      if refuses s tier permits
      then (s, false)
      else if not (is_empty s.waiters) || not (fits_locked s tier permits false)
      then (s, false)
      else (admit s tier permits, true)

  -- The wait limit and the absolute deadline that `acquire` computes before it queues.
  pub timeout_for : Sched → ℕ → Double
  timeout_for s tier =
      if tier == tier_background && lt (dec 0 0) s.bg_timeout_s then s.bg_timeout_s else s.timeout_s

  pub deadline_after : Timespec → Double → Timespec
  deadline_after now timeout_s =
      let whole = to_int timeout_s in
      let nanos = to_int (mul (sub timeout_s (of_int whole)) (dec 1000000000 0)) in
      let sec = pos_part (pos now.sec +ℤ whole) in
      let nsec = pos_part (pos now.nsec +ℤ nanos) in
      if leb 1000000000 nsec
      then record { sec = sec + 1; nsec = nsec - 1000000000 }
      else record { sec = sec; nsec = nsec }

  -- How the first critical section of `acquire` ends.
  pub data Entry : Type 0 where
    refused : Sched → Entry
    admitted : Sched → Entry
    queued : Sched → Waiter → Timespec → Entry

  -- The three readings of the clock on the way into the queue, and whether the condition variable
  -- could be made.
  pub record Arrival : Type 0 where
    pub deadline_read : Timespec
    pub queued_read : Timespec
    pub age_read : Timespec
    pub cond_ok : Bool

  pub new_waiter : Sched → ℕ → ℕ → Bool → Timespec → Waiter
  new_waiter s tier permits shared now = record {
    tier = tier;
    prio = tier;
    permits = permits;
    shared = shared;
    seq = s.seq + 1;
    queued_at = now;
  }

  pub enqueue : Sched → ℕ → ℕ → Bool → Arrival → Entry
  unfolding new_waiter link_waiter timeout_for deadline_after
  enqueue s tier permits shared a =
      let me = new_waiter s tier permits shared a.queued_read in
      let counted = record s { seq = s.seq + 1 } in
      if a.cond_ok
      then queued (link_waiter counted me a.age_read) me
          (deadline_after a.deadline_read (timeout_for s tier))
      else refused counted

  -- `acquire` up to its wait.
  pub acquire : Sched → ℕ → ℕ → Bool → Arrival → Entry
  unfolding refuses fits_locked admit enqueue
  acquire s tier permits shared a =
      if refuses s tier permits
      then refused s
      else if is_empty s.waiters && fits_locked s tier permits shared
      then admitted (admit s tier permits)
      else enqueue s tier permits shared a

  -- The rest of `acquire` after a timeout with no grant. It returns false.
  pub give_up : Sched → Waiter → Timespec → Sched × List Waiter
  unfolding unlink_waiter promote_locked
  give_up s me now =
      promote_locked
        (record s {
          waiters = unlink_waiter s.waiters me.seq;
          timed_out = update s.timed_out me.tier (s.timed_out me.tier + 1);
        })
        now

  -- The rest of `acquire` after a grant: the accounting of the wait. It returns true.
  pub resume : Sched → Waiter → Timespec → Sched
  unfolding elapsed_ms
  resume s me admitted_at =
      let queued_ms = elapsed_ms me.queued_at admitted_at in
      record s {
        queue_ms_total = update s.queue_ms_total me.tier (add (s.queue_ms_total me.tier) queued_ms);
        queue_ms_max =
            if lt (s.queue_ms_max me.tier) queued_ms
            then update s.queue_ms_max me.tier queued_ms
            else s.queue_ms_max;
      }

  pub release_n : Sched → ℕ → Timespec → Sched × List Waiter
  unfolding promote_locked
  release_n s permits now =
      if permits == 0
      then (s, [])
      else promote_locked
          (record s {
            active = if ltb 0 s.active then s.active - 1 else s.active;
            used_slots = if leb permits s.used_slots then s.used_slots - permits else 0;
          })
          now

  -- `waiting[tier]` of `osched_snapshot`.
  pub waiting : List Waiter → ℕ → ℕ
  waiting [] tier = 0
  waiting (w ∷ ws) tier = if w.tier == tier then suc (waiting ws tier) else waiting ws tier
