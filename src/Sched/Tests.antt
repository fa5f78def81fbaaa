-- ===== src/Sched/Tests.antt =====
-- Runs of src/osched.c on a device of four slots, with times in whole numbers.
use omniserve_native.Prelude.{ℕ, ◌≡◌, refl, true, false, List, [], ◌∷◌, arith, inl, inr, sum_by}
use omniserve_native.Prelude.Int.{pos, ◌*ℤ◌, ◌+ℤ◌}
use omniserve_native.Floats.Whole.{whole}
use omniserve_native.Sched.{
  Waiter, Timespec, Sched, Arrival, admitted, acquire, release_n, age_locked, promote_locked,
  age_scan, want, waited_s, elapsed_ms, reinsert, tier_paid, tier_sub, tier_free, tier_background,
}
use omniserve_native.Sched.Order.{IsOrdered}
use omniserve_native.Sched.Aging.{ranked, age_locked-ranked}
use omniserve_native.Sched.Promote.{Promoted, promote_locked-Promoted}
use omniserve_native.Sched.Fairness.{Placed, insert_waiter-Placed, acquire-beside_background}
use omniserve_native.Sched.Door.{MayEnter, Entered, acquire-MayEnter}
use omniserve_native.Sched.Release.{release_n-RoomFor}
use omniserve_native.Sched.System.{System, arrives, here, next, start, entered}
use omniserve_native.Sched.System.Ledger.{Sound}
use omniserve_native.Sched.System.Sound.{Reach-Sound}

abbrev at : ℕ → Timespec
at n = record { sec = n; nsec = 0 }

abbrev arrival : ℕ → Arrival whole
arrival n = record { deadline_read = at n; queued_read = at n; age_read = at n; cond_ok = true }

abbrev waiter : ℕ → ℕ → ℕ → ℕ → Waiter
waiter tier permits seq since = record {
  tier = tier;
  prio = tier;
  permits = permits;
  shared = false;
  seq = seq;
  queued_at = at since;
}

-- Three of four slots are taken; a free request for two and a background one wait.
abbrev crowded : Sched whole
crowded = record {
  slots = 4;
  used_slots = 3;
  active = 1;
  timeout_s = pos 600;
  bg_timeout_s = pos 0;
  bg_age_s = pos 10;
  seq = 2;
  waiters = waiter tier_free 2 1 0 ∷ waiter tier_background 1 2 0 ∷ [];
  served = λ _. 0;
  queue_ms_total = λ _. pos 0;
  queue_ms_max = λ _. pos 0;
  timed_out = λ _. 0;
}

abbrev idle : Sched whole
idle = record crowded { used_slots = 0; active = 0; waiters = [] }

age_locked-ranked_example :
    IsOrdered (age_locked whole crowded (at 25)).waiters
    × ((f : Waiter → ℕ)
        → sum_by f (age_locked whole crowded (at 25)).waiters
          ≡ sum_by (λ w. f (ranked whole (pos 10) (at 25) w)) crowded.waiters)
age_locked-ranked_example = age_locked-ranked whole crowded (at 25) refl (omega arith)

unmoved : (age_locked whole crowded (at 6)).waiters ≡ crowded.waiters
unfolding age_locked age_scan want waited_s elapsed_ms reinsert ◌*ℤ◌ ◌+ℤ◌
unmoved = refl

promote_locked-Promoted_example :
    Promoted whole crowded
      (age_locked whole crowded (at 5)).waiters
      (promote_locked whole crowded (at 5)).0
      (promote_locked whole crowded (at 5)).1
promote_locked-Promoted_example = promote_locked-Promoted whole crowded (at 5)

insert_waiter-Placed_example : Placed crowded.waiters (waiter tier_sub 1 3 7)
insert_waiter-Placed_example =
    insert_waiter-Placed crowded.waiters (waiter tier_sub 1 3 7) (omega arith) (omega arith)

acquire-MayEnter_example :
    (MayEnter whole idle tier_paid 2 false
      → (t : Sched whole) × (acquire whole idle tier_paid 2 false (arrival 3) ≡ admitted t))
    × ((t : Sched whole)
        → acquire whole idle tier_paid 2 false (arrival 3) ≡ admitted t
        → MayEnter whole idle tier_paid 2 false × Entered whole idle tier_paid 2 t)
acquire-MayEnter_example = acquire-MayEnter whole idle tier_paid 2 false (arrival 3)

release_n-RoomFor_example :
    (more : List Waiter) × ((release_n whole crowded 3 (at 6)).1 ≡ waiter tier_free 2 1 0 ∷ more)
release_n-RoomFor_example =
    release_n-RoomFor whole crowded 3 (at 6) (waiter tier_free 2 1 0)
      (waiter tier_background 1 2 0 ∷ []) (omega arith) unmoved
      (inr (inl (λ h. omega (arith, h)), omega arith))

acquire-beside_background_example :
    (t : Sched whole) × (u : Sched whole) × (acquire whole idle tier_background 1 false (arrival 1)
      ≡ admitted t)
    × (acquire whole t tier_paid 2 false (arrival 2) ≡ admitted u)
    × (u.active ≡ 2)
acquire-beside_background_example =
    acquire-beside_background whole idle 1 tier_paid 2 false (arrival 1) (arrival 2) refl refl refl
      (omega arith) (omega arith) (omega arith) (omega arith)

-- A paid request takes every slot, a second one queues behind it.
abbrev taken : System whole
taken =
    entered whole (start whole (pos 4) (pos 30)) 4
      (acquire whole (start whole (pos 4) (pos 30)).sched tier_paid 4 false (arrival 1))

abbrev behind : System whole
behind = entered whole taken 1 (acquire whole taken.sched tier_paid 1 false (arrival 2))

Reach-Sound_example : Sound whole behind
Reach-Sound_example = Reach-Sound whole (pos 4) (pos 30) behind (
    next (next here (arrives tier_paid 4 false (arrival 1)))
      (arrives tier_paid 1 false (arrival 2)))
