-- ===== src/Vram/Queue.antt =====
-- `waiter_ahead_locked` and `higher_tier_waiting_locked` of src/ovram.c: who waits before whom.
use omniserve_native.Prelude.{
  ℕ, ◌+◌, Bool, false, not, ◌&&◌, ◌||◌, List, [], ◌∷◌, Option, none, some, ltb, leb, ◌==◌,
}
use omniserve_native.Floats.{DoubleOps}
use omniserve_native.Vram.{Lease, Waiter, Vram, is_none}
use omniserve_native.Vram.Charges.{full_charge, headroom_locked}

module _ (F : DoubleOps) where
  open F use {Double, dec, add, sub, lt, le}

  unfoldable pub leased_total : List (Lease F) → ℕ
  leased_total [] = 0
  leased_total (l ∷ ls) = full_charge F l + leased_total ls

  -- A waiter that has not blocked for too long and whose need can be met once the leases end.
  unfoldable pub holds_back : Vram F → Double → Option ℕ → Waiter F → Bool
  holds_back v now_s device_free_mb w =
      not (lt (dec 0 0) v.block_max_s && lt v.block_max_s (sub now_s w.since))
      && (is_none device_free_mb
          || leb w.need (headroom_locked F v w.tier device_free_mb + leased_total v.leases))

  abbrev pub is_self : Option ℕ → ℕ → Bool
  is_self none i = false
  is_self (some self) i = self == i

  -- `self` is the caller's own slot, `none` for one that has not queued.
  unfoldable pub goes_first : Vram F → ℕ → Option ℕ → Double → ℕ → Waiter F → Bool
  goes_first v tier self self_since i w =
      w.used
      && (not (is_self self i)
          && (leb w.tier tier
              && not (w.tier == tier && (not (is_none self) && le self_since w.since))))

  unfoldable pub ahead_from :
      Vram F → ℕ → Option ℕ → Double → Double → Option ℕ → List (Waiter F) → ℕ → Bool
  ahead_from v tier self self_since now_s device_free_mb [] i = false
  ahead_from v tier self self_since now_s device_free_mb (w ∷ ws) i =
      goes_first v tier self self_since i w && holds_back v now_s device_free_mb w
      || ahead_from v tier self self_since now_s device_free_mb ws (i + 1)

  unfoldable pub waiter_ahead_locked : Vram F → ℕ → Option ℕ → Double → Double → Option ℕ → Bool
  waiter_ahead_locked v tier self self_since now_s device_free_mb =
      ahead_from v tier self self_since now_s device_free_mb v.waiters 0

  unfoldable pub higher_from : Vram F → ℕ → Double → Option ℕ → List (Waiter F) → Bool
  higher_from v tier now_s device_free_mb [] = false
  higher_from v tier now_s device_free_mb (w ∷ ws) =
      (w.used && ltb w.tier tier) && holds_back v now_s device_free_mb w
      || higher_from v tier now_s device_free_mb ws

  unfoldable pub higher_tier_waiting_locked : Vram F → ℕ → Double → Option ℕ → Bool
  higher_tier_waiting_locked v tier now_s device_free_mb =
      higher_from v tier now_s device_free_mb v.waiters
