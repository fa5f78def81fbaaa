-- ===== src/Sched/Fits.antt =====
-- `fits_locked` of src/osched.c: for whom there is room.
use omniserve_native.Prelude.{ℕ, ◌+◌, ◌≤◌, ◌≡◌, ◌≢◌, ◌⊎◌, inr, Bool, true, false, arith}
use omniserve_native.Floats.{DoubleOps}
use omniserve_native.Sched.{Sched, fits_locked, tier_background}

-- With `active` requests that hold `used` of the slots there is room for a request: background work
-- that does not share the device wants an idle one, any other request wants its permits free.
abbrev pub RoomFor : ℕ → ℕ → ℕ → ℕ → ℕ → Bool → Type 0
RoomFor slots active used tier permits shared =
    ((tier ≡ tier_background) × (shared ≡ false) × (active ≡ 0) × (used ≡ 0))
    ⊎ (((tier ≢ tier_background) ⊎ (shared ≡ true)) × (used + permits ≤ slots))

module _ (F : DoubleOps) (s : Sched F) (tier permits : ℕ) where
  pub fits_locked-RoomFor :
      (shared : Bool)
      → fits_locked F s tier permits shared ≡ true
      → RoomFor s.slots s.active s.used_slots tier permits shared
  unfolding fits_locked
  fits_locked-RoomFor true e = inr (inr (ground arith), ground arith)
  fits_locked-RoomFor false e = ground arith

  pub RoomFor-fits_locked :
      (shared : Bool)
      → RoomFor s.slots s.active s.used_slots tier permits shared
      → fits_locked F s tier permits shared ≡ true
  unfolding fits_locked
  RoomFor-fits_locked shared room = ground arith
