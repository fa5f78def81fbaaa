-- ===== src/Vram/Room.antt =====
-- What a grant of src/ovram.c leaves on the device.
use omniserve_native.Prelude.{
  ℕ, ◌+◌, ◌<◌, ◌≤◌, ◌≡◌, refl, sym, subst, ◌⊎◌, Bool, true, ◌&&◌, [], ◌∷◌, All, ltb, inl, inr,
  false, not, ◌||◌, List, Option, none, some, arith, Bool-cases, if◌then◌else◌, min, ◌==◌,
}
use omniserve_native.Prelude.Int.{ℤ, pos, pos_part, leb_ℤ}
use omniserve_native.Floats.{DoubleOps}
use omniserve_native.Vram.{Vram, Waiter, floor_for_tier}
use omniserve_native.Vram.Tables.{expire_locked, reserved_mb_locked}
use omniserve_native.Vram.Charges.{headroom_locked, leased_mb_for_tier_locked}
use omniserve_native.Vram.Queue.{
  holds_back, leased_total, higher_from, higher_tier_waiting_locked, waiter_ahead_locked,
}
use omniserve_native.Vram.Grant.{
  Answer, amount, grant_locked, try_lease, deny, lease_pid_at, least_mb,
}
use omniserve_native.Vram.Wait.{Call, Outcome, returned, queued, wait_round, attempt, slot_since}
use omniserve_native.Vram.Book.Granted.{grant_locked-Ends}

module _ (F : DoubleOps) where
  open F use {Double}

  -- So much more fits beside the floor, the reservations and the leases that count for the tier.
  abbrev pub HasRoom : Vram F → ℕ → Option ℕ → ℕ → Type 0
  HasRoom v tier free granted =
      (d : ℕ) × (free ≡ some d)
      × (floor_for_tier v.keep_free_mb tier
            + reserved_mb_locked F v
            + leased_mb_for_tier_locked F v tier
            + granted
          ≤ d)

  headroom_fits :
      (v : Vram F) (tier : ℕ) (free : Option ℕ) (granted : ℕ)
      → 0 < granted
      → granted ≤ headroom_locked F v tier free
      → HasRoom v tier free granted
  unfolding headroom_locked
  headroom_fits v tier none granted some_mb h = elim (nothing_fits granted some_mb h) [ ]
    where
      nothing_fits : (n : ℕ) → 0 < n → n ≤ 0 → ⊥
      nothing_fits n p q = omega arith
  headroom_fits v tier (some d) granted some_mb h = (d, refl, ground arith)

  -- Something is granted only between the two amounts, and if it fits.
  abbrev pub Within : Vram F → ℕ → ℕ → ℕ → Option ℕ → ℕ → Type 0
  Within v mb min_mb tier free granted =
      0 < granted → (min_mb ≤ granted) × (granted ≤ mb) × HasRoom v tier free granted

  cut :
      (v : Vram F) (mb tier : ℕ) (free : Option ℕ)
      → (amount F v mb tier free false ≤ mb)
        × (amount F v mb tier free false ≤ headroom_locked F v tier free)
  unfolding amount
  cut v mb tier free =
      (ground (arith, headroom_locked F v tier free), ground (arith, headroom_locked F v tier free))

  grant_locked-Within :
      (v : Vram F) (owner : List ℕ) (pid mb min_mb tier : ℕ) (ttl_s now_s : Double)
      (free : Option ℕ)
      → Within v mb min_mb tier free
          (grant_locked F v owner pid mb min_mb tier ttl_s now_s free false).granted
  grant_locked-Within v owner pid mb min_mb tier ttl_s now_s free =
      elim (grant_locked-Ends F v owner pid mb min_mb tier ttl_s now_s free false) [
        | inl e ↦
            subst (λ a. Within v mb min_mb tier free a.granted) (sym e)
              (λ h. absurd (omega (arith, h)))
        | inr (slot, x, at, off, some_mb, least, e) ↦
            subst (λ a. Within v mb min_mb tier free a.granted) (sym e)
              (λ h. (
                least,
                (cut v mb tier free).0,
                headroom_fits v tier free (amount F v mb tier free false) some_mb
                    (cut v mb tier free).1,
              ))
      ]

  try_lease-Within :
      (v : Vram F) (owner : List ℕ) (pid mb min_mb tier : ℕ) (ttl_s now_s : Double)
      (free : Option ℕ)
      → let a = try_lease F v owner pid mb min_mb tier ttl_s now_s free in
        (0 < a.granted → higher_tier_waiting_locked F v tier now_s free ≡ false)
        × Within v mb min_mb tier free a.granted
  unfolding try_lease
  try_lease-Within v owner pid mb min_mb tier ttl_s now_s free =
      elim (Bool-cases (higher_tier_waiting_locked F v tier now_s free)) [
        | inl e ↦ rw e ((λ h. absurd (omega (arith, h))), (λ h. absurd (omega (arith, h))))
        | inr e ↦ rw e (
          (λ _. refl),
          booked (grant_locked F v owner pid mb min_mb tier ttl_s now_s free false)
              (grant_locked-Within v owner pid mb min_mb tier ttl_s now_s free),
        )
      ]
    where
      booked :
          (a : Answer F)
          → Within v mb min_mb tier free a.granted
          → Within v mb min_mb tier free (
              (if a.granted == 0
                then record a { broker = deny F a.broker owner pid now_s }
                else a).granted)
      booked a h = elim (Bool-cases (a.granted == 0)) [ inl e ↦ rw e h | inr e ↦ rw e h ]

  -- A waiter that has blocked for longer than the limit, or whose need is not met even when all leases
  -- end.
  abbrev pub Overlooked : Vram F → Double → Option ℕ → Waiter F → Type 0
  Overlooked v now free w =
      ((F.lt (F.dec 0 0) v.block_max_s && F.lt v.block_max_s (F.sub now w.since)) ≡ true)
      ⊎ ((d : ℕ) × (free ≡ some d)
          × (headroom_locked F v w.tier free + leased_total F v.leases < w.need))

  -- Every waiter of a higher tier is overlooked.
  abbrev pub Unhindered : Vram F → ℕ → Double → Option ℕ → Type 0
  Unhindered v tier now free =
      All (λ w. (w.used ≡ false) ⊎ (tier ≤ w.tier) ⊎ Overlooked v now free w) v.waiters

  lets_by :
      (v : Vram F) (now : Double) (free : Option ℕ) (w : Waiter F)
      → holds_back F v now free w ≡ false
      → Overlooked v now free w
  unfolding holds_back
  lets_by v now none w h = inl (ground arith)
  lets_by v now (some d) w h =
      elim (Bool-cases (F.lt (F.dec 0 0) v.block_max_s && F.lt v.block_max_s (F.sub now w.since))) [
        | inl long ↦ inl long
        | inr short ↦ inr (d, refl, ground arith)
      ]

  neither : (a b : Bool) → (a || b) ≡ false → (a ≡ false) × (b ≡ false)
  neither true b h = cc
  neither false b h = (refl, h)

  head_passes :
      (v : Vram F) (tier : ℕ) (now : Double) (free : Option ℕ) (w : Waiter F)
      → ((w.used && ltb w.tier tier) && holds_back F v now free w) ≡ false
      → (w.used ≡ false) ⊎ (tier ≤ w.tier) ⊎ Overlooked v now free w
  unfolding holds_back
  head_passes v tier now free w h = elim (Bool-cases w.used) [
    | inr out ↦ inl out
    | inl used ↦ elim (Bool-cases (ltb w.tier tier)) [
      | inr not_higher ↦ inr (inl (ground arith))
      | inl higher ↦ inr (inr (lets_by v now free w (rw (used, higher) at h)))
    ]
  ]

  higher_from-Overlooked :
      (v : Vram F) (tier : ℕ) (now : Double) (free : Option ℕ) (ws : List (Waiter F))
      → higher_from F v tier now free ws ≡ false
      → All (λ w. (w.used ≡ false) ⊎ (tier ≤ w.tier) ⊎ Overlooked v now free w) ws
  unfolding higher_from
  higher_from-Overlooked v tier now free [] h = tt
  higher_from-Overlooked v tier now free (w ∷ ws) h =
      let (here, later) = neither _ _ h in
      (head_passes v tier now free w here, higher_from-Overlooked v tier now free ws later)

  -- A call that grants something gives at least the lesser of the two amounts asked for, at most the
  -- larger one, and only if it fits the device's free memory beside the tier's floor, the
  -- reservations and the leases that count for the tier; and only if every waiter of a higher tier
  -- has blocked for longer than the limit or has a need that is not met even when all leases end.
  -- Without the device's figure it grants nothing.
  pub lease_pid_at-HasRoom :
      (v : Vram F) (owner : List ℕ) (pid : ℕ) (mb min_mb : ℤ) (tier : ℕ) (ttl_s now_s : Double)
      (free : Option ℕ)
      → 0 < (lease_pid_at F v owner pid mb min_mb tier ttl_s now_s free).granted
      → let granted = (lease_pid_at F v owner pid mb min_mb tier ttl_s now_s free).granted in
        let w = (expire_locked F v now_s).0 in
        (min (pos_part min_mb) (pos_part mb) ≤ granted)
        × (granted ≤ pos_part mb)
        × HasRoom w tier free granted
        × Unhindered w tier now_s free
  unfolding lease_pid_at higher_tier_waiting_locked
  lease_pid_at-HasRoom v owner pid mb min_mb tier ttl_s now_s free =
      elim (Bool-cases (leb_ℤ mb (pos 0))) [
        | inl e ↦ rw e (λ h. absurd (omega (arith, h)))
        | inr e ↦ rw e (λ h.
            let (first, fits) =
              try_lease-Within (expire_locked F v now_s).0 owner pid (pos_part mb)
                (least_mb F mb min_mb) tier ttl_s now_s free in
            let (least, most, room) = fits h in
            (least, most, room, higher_from-Overlooked _ tier now_s free _ (first h)))
      ]

  attempt-Within :
      (v : Vram F) (c : Call F) (now : Double) (free : Option ℕ)
      → (0 < (attempt F v c now free).granted
          → waiter_ahead_locked F v c.tier
              (if c.registered then c.wslot else none)
              (slot_since F v now c.wslot)
              now
              free
            ≡ false)
        × Within v c.mb c.min_mb c.tier free (attempt F v c now free).granted
  unfolding attempt
  attempt-Within v c now free =
      elim (Bool-cases (
        waiter_ahead_locked F v c.tier (if c.registered then c.wslot else none)
          (slot_since F v now c.wslot) now free)) [
            | inl e ↦
                rw (e, attempt) ((λ h. absurd (omega (arith, h))), (λ h. absurd (omega (arith, h))))
            | inr e ↦
                rw (e, attempt)
                  (
                    (λ _. refl),
                    grant_locked-Within v c.name c.pid c.mb c.min_mb c.tier c.ttl_s now free,
                  )
          ]

  -- What a round returned as granted.
  abbrev pub granted_of : Outcome F → ℕ
  granted_of (returned granted id waited v) = granted
  granted_of (queued deficit c v) = 0

  -- A round of a waiting call that grants something gives between the two amounts asked for, only if
  -- it fits as above, and only if no waiter is ahead of the caller.
  pub wait_round-HasRoom :
      (v : Vram F) (c : Call F) (now : Double) (free : Option ℕ)
      → 0 < granted_of (wait_round F v c now free)
      → let granted = granted_of (wait_round F v c now free) in
        let w = (expire_locked F v now).0 in
        (c.min_mb ≤ granted)
        × (granted ≤ c.mb)
        × HasRoom w c.tier free granted
        × (waiter_ahead_locked F w c.tier
              (if c.registered then c.wslot else none)
              (slot_since F w now c.wslot)
              now
              free
            ≡ false)
  unfolding wait_round
  wait_round-HasRoom v c now free =
      let w = (expire_locked F v now).0 in
      let (first, fits) = attempt-Within w c now free in
      elim (Bool-cases (not ((attempt F w c now free).granted == 0) || F.le c.deadline now)) [
        | inl e ↦ rw e (λ h. let (least, most, room) = fits h in (least, most, room, first h))
        | inr e ↦ rw e (λ h. absurd (omega (arith, h)))
      ]
