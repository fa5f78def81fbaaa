-- ===== src/Vram/Tests.antt =====
-- Runs of the broker of src/ovram.c, with whole numbers for the times.
use omniserve_native.Prelude.{
  ℕ, ◌+◌, ◌-◌, ◌<◌, ◌≤◌, ◌≡◌, refl, true, false, not, List, [], ◌∷◌, none, some, arith, get_elem?,
  map, replicate, min, codes,
}
use omniserve_native.Prelude.Int.{pos, ◌+ℤ◌, ◌-ℤ◌, ◌*ℤ◌, leb_ℤ}
use omniserve_native.Floats.Whole.{whole}
use omniserve_native.Vram.{Vram, Waiter, floor_for_tier, is_none, or_else}
use omniserve_native.Vram.Tables.{
  expire_locked, proc_used_locked, owner_scan, owner_locked, on_owner, reserved_from,
  reserved_mb_locked, reserve_scan, reserve,
}
use omniserve_native.Vram.Setup.{create, set_procs}
use omniserve_native.Vram.Charges.{
  known_from, oldest_base, growth_of, growth_from, sink, sort_back, reverse_onto, by_grant, spend,
  hand_out, charges_locked, counted, leased_mb_for_tier_locked, headroom_locked, full_charge,
}
use omniserve_native.Vram.Charges.Spend.{charged}
use omniserve_native.Vram.Charges.Growths.{growth}
use omniserve_native.Vram.Charges.Credit.{charges_locked-charged}
use omniserve_native.Vram.Queue.{
  leased_total, holds_back, goes_first, ahead_from, waiter_ahead_locked, higher_from,
  higher_tier_waiting_locked,
}
use omniserve_native.Vram.Grant.{
  Answer, digits, lease_id, free_slot, new_lease, grant_at, amount, grant_locked, try_lease,
  lease_pid_at, ttl_or_default,
}
use omniserve_native.Vram.Wait.{
  Call, start_wait, wait_round, attempt, register, free_waiter, returned,
}
use omniserve_native.Vram.Ops.{release, renew_at, expire_at}
use omniserve_native.Vram.Book.{book, lapsed, removed}
use omniserve_native.Vram.Book.Refine.{extended}
use omniserve_native.Vram.Book.Calls.{calls-book, Issues, lease_pid_at-book}
use omniserve_native.Vram.Room.{HasRoom, Unhindered, lease_pid_at-HasRoom, granted_of}
use omniserve_native.Vram.Turn.{HasLeft, wait_round_behind, wait_round_ends}
use omniserve_native.Vram.Declare.{declared, HasShortNames, reserve-declared, reserve-long_name}
use omniserve_native.Vram.Book.Sound.{Good}
use omniserve_native.Vram.Book.Waits.{broker_of}
use omniserve_native.Vram.Book.Reach.{Reach, Reach-Good, created, next, leases}

abbrev one : List ℕ
one = codes "one"

abbrev two : List ℕ
two = codes "two"

abbrev empty : Vram whole
empty = create whole (pos 1000) (pos 60)

-- A tenant of the free tier takes 500 MB of a device with 8000 MB free.
abbrev taken : Answer whole
taken = lease_pid_at whole empty one 7 (pos 500) (pos 100) 2 (pos 10) (pos 5) (some 8000)

abbrev taken_reached : Reach whole taken.broker
taken_reached =
    next (created (pos 1000) (pos 60))
      (leases one 7 (pos 500) (pos 100) 2 (pos 10) (pos 5) (some 8000))

taken_grants : (taken.granted ≡ 500) × (taken.id ≡ codes "lv1")
unfolding create lease_pid_at try_lease expire_locked higher_tier_waiting_locked higher_from
    grant_locked amount headroom_locked floor_for_tier reserved_mb_locked reserved_from
    leased_mb_for_tier_locked counted charges_locked growth_from growth_of known_from by_grant
    sort_back reverse_onto hand_out free_slot lease_id digits ◌+ℤ◌
taken_grants = (refl, refl)

Reach-Good_example : Good whole taken.broker
Reach-Good_example = Reach-Good whole taken.broker taken_reached

calls-book_example :
    let b = book whole taken.broker.leases in
    let id = codes "lv1" in
    (book whole (expire_at whole taken.broker (pos 9)).0.leases ≡ lapsed whole b (pos 9))
    × ((release whole taken.broker id (pos 9)).0 ≡ not (is_none (b id)))
    × (book whole (release whole taken.broker id (pos 9)).1.leases ≡ removed whole b id)
    × ((renew_at whole taken.broker id (pos 30) (pos 9)).0
        ≡ not (is_none (lapsed whole b (pos 9) id)))
    × (book whole (renew_at whole taken.broker id (pos 30) (pos 9)).1.leases
        ≡ extended whole
            (lapsed whole b (pos 9))
            id
            (pos 9 +ℤ ttl_or_default whole taken.broker (pos 30)))
calls-book_example =
    calls-book whole taken.broker 108 (118 ∷ 49 ∷ []) (pos 30) (pos 9) taken_reached

lease_pid_at-book_example :
    Issues whole two 8 2
      (ttl_or_default whole taken.broker (pos 10))
      (pos 6)
      (lapsed whole (book whole taken.broker.leases) (pos 6))
      (lease_pid_at whole taken.broker two 8 (pos 300) (pos 0) 2 (pos 10) (pos 6) (some 8000))
lease_pid_at-book_example =
    lease_pid_at-book whole taken.broker two 8 (pos 300) (pos 0) 2 (pos 10) (pos 6) (some 8000)
      taken_reached refl

taken_some : 0 < taken.granted
unfolding create lease_pid_at try_lease expire_locked higher_tier_waiting_locked higher_from
    grant_locked amount headroom_locked floor_for_tier reserved_mb_locked reserved_from
    leased_mb_for_tier_locked counted charges_locked growth_from growth_of known_from by_grant
    sort_back reverse_onto hand_out free_slot lease_id digits ◌+ℤ◌
taken_some = omega arith

lease_pid_at-HasRoom_example :
    let w = (expire_locked whole empty (pos 5)).0 in
    (min 100 500 ≤ taken.granted)
    × (taken.granted ≤ 500)
    × HasRoom whole w 2 (some 8000) taken.granted
    × Unhindered whole w 2 (pos 5) (some 8000)
lease_pid_at-HasRoom_example =
    lease_pid_at-HasRoom whole empty one 7 (pos 500) (pos 100) 2 (pos 10) (pos 5) (some 8000)
      taken_some

-- A subscriber asks for more than there is and queues.
abbrev asks : Call whole
asks = start_wait whole taken.broker two 8 (pos 2000) (pos 1200) 1 (pos 10) (pos 20000) (pos 6)

abbrev queue : Vram whole
queue = broker_of whole (wait_round whole taken.broker asks (pos 6) (some 2000))

abbrev first_waiter : Waiter whole
first_waiter = record { used = true; tier = 1; need = 1200; since = pos 6 }

queue_has : get_elem? (expire_locked whole queue (pos 7)).0.waiters 0 ≡ some first_waiter
unfolding create lease_pid_at try_lease expire_locked higher_tier_waiting_locked higher_from
    grant_locked amount headroom_locked floor_for_tier reserved_mb_locked reserved_from
    leased_mb_for_tier_locked counted charges_locked growth_from growth_of known_from by_grant
    sort_back reverse_onto hand_out free_slot lease_id digits ◌+ℤ◌ ◌-ℤ◌ ◌*ℤ◌ grant_at on_owner
    owner_locked owner_scan new_lease proc_used_locked wait_round attempt waiter_ahead_locked
    ahead_from goes_first holds_back leased_total register start_wait broker_of free_waiter
    oldest_base sink spend
queue_has = refl

queue_holds :
    holds_back whole (expire_locked whole queue (pos 7)).0 (pos 7) (some 2000) first_waiter ≡ true
unfolding create lease_pid_at try_lease expire_locked higher_tier_waiting_locked higher_from
    grant_locked amount headroom_locked floor_for_tier reserved_mb_locked reserved_from
    leased_mb_for_tier_locked counted charges_locked growth_from growth_of known_from by_grant
    sort_back reverse_onto hand_out free_slot lease_id digits ◌+ℤ◌ ◌-ℤ◌ ◌*ℤ◌ grant_at on_owner
    owner_locked owner_scan new_lease proc_used_locked wait_round attempt waiter_ahead_locked
    ahead_from goes_first holds_back leased_total register start_wait broker_of free_waiter
    oldest_base sink spend
queue_holds = refl

abbrev late_call : Call whole
late_call = start_wait whole queue one 9 (pos 100) (pos 100) 2 (pos 10) (pos 0) (pos 7)

late_is : (late_call.registered ≡ false) × (late_call.tier ≡ 2)
unfolding start_wait
late_is = (refl, refl)

wait_round_behind_example :
    granted_of whole (wait_round whole queue late_call (pos 7) (some 2000)) ≡ 0
wait_round_behind_example =
    wait_round_behind whole queue late_call (pos 7) (some 2000) 0 first_waiter late_is.0 queue_has
      refl (omega (arith, late_is.1)) queue_holds

abbrev waits_on : Call whole
waits_on = record asks { registered = true; wslot = some 0 }

waits_out : leb_ℤ waits_on.deadline (pos 30) ≡ true
unfolding start_wait ◌+ℤ◌ ◌-ℤ◌
waits_out = refl

wait_round_ends_example :
    (granted : ℕ) × (id : List ℕ) × (w : Vram whole) × (wait_round whole queue waits_on
        (pos 30)
        (some 2000)
      ≡ returned granted id ((pos 30 -ℤ waits_on.started) *ℤ pos 1000) w)
    × HasLeft whole queue waits_on w
wait_round_ends_example = wait_round_ends whole queue waits_on (pos 30) (some 2000) waits_out

-- The first tenant has grown by 200 MB since its lease.
abbrev grown_by : Vram whole
grown_by =
    set_procs whole
      (lease_pid_at whole (set_procs whole empty (some [])) one 7 (pos 500) (pos 100) 2 (pos 10)
        (pos 5) (some 8000)).broker
      (some (record { pid = 7; used_mb = 200 } ∷ []))

charges_locked-charged_example :
    charged whole 7 grown_by.leases (charges_locked whole grown_by)
    ≡ charged whole 7 grown_by.leases (map (full_charge whole) grown_by.leases)
      - growth whole grown_by 7
charges_locked-charged_example = charges_locked-charged whole grown_by 7

charged_less : charged whole 7 grown_by.leases (charges_locked whole grown_by) ≡ 300
unfolding create lease_pid_at try_lease expire_locked higher_tier_waiting_locked higher_from
    grant_locked amount headroom_locked floor_for_tier reserved_mb_locked reserved_from
    leased_mb_for_tier_locked counted charges_locked growth_from growth_of known_from by_grant
    sort_back reverse_onto hand_out free_slot lease_id digits set_procs ◌+ℤ◌ ◌-ℤ◌ ◌*ℤ◌ grant_at
    on_owner owner_locked owner_scan new_lease proc_used_locked wait_round attempt
    waiter_ahead_locked ahead_from goes_first holds_back leased_total register start_wait broker_of
    free_waiter oldest_base sink spend
charged_less = refl

reserve_ok : (reserve whole empty one (pos 700)).0 ≡ true
unfolding reserve reserve_scan create
reserve_ok = refl

reserve-declared_example :
    let w = (reserve whole empty one (pos 700)).1 in
    (reserved_mb_locked whole w + or_else (declared empty.reservations one) 0
      ≡ reserved_mb_locked whole empty + 700)
    × (declared w.reservations one ≡ some 700)
reserve-declared_example =
    reserve-declared whole empty 111 (110 ∷ 101 ∷ []) 700 (omega arith) (omega arith) reserve_ok

abbrev long : List ℕ
long = 120 ∷ replicate 31 120

long_ok : (reserve whole empty long (pos 700)).0 ≡ true
unfolding reserve reserve_scan create
long_ok = refl

no_names : HasShortNames whole empty.reservations
unfolding create
no_names = let z : 0 ≤ 31 = omega arith in (z, (z, (z, (z, (z, (z, (z, (z, tt))))))))

reserve-long_name_example :
    let w = (reserve whole empty long (pos 700)).1 in
    (reserved_mb_locked whole w ≡ reserved_mb_locked whole empty + 700)
    × (declared w.reservations long ≡ none)
reserve-long_name_example =
    reserve-long_name whole empty 120 (replicate 31 120) 700 no_names (omega arith) long_ok
