-- ===== src/Frontier/Decision.antt =====
-- What the choice of src/ofrontier.c promises under each policy.
use omniserve_native.Prelude.{
  ℕ, ◌≤◌, ◌≡◌, refl, ◌⊎◌, inl, inr, Bool, true, false, ◌&&◌, arith, Bool-cases, ltb,
}
use omniserve_native.Floats.{DoubleOps}
use omniserve_native.Frontier.{
  FrontierPolicy, overflow, local_only, fastest, deadline, background, Choice, local, remote, Table,
  choose, decide, deadline_of,
}

abbrev pub is_remote : Choice → Bool
is_remote local = false
is_remote remote = true

module _ (F : DoubleOps) where
  open F use {Double, dec, add, lt, le}

  -- There is a deadline, and who is done at this time meets it.
  abbrev pub in_time : Double → Double → Bool
  in_time d eta = lt (dec 0 0) d && le eta d

  -- The faster side, and the device where neither is.
  abbrev pub Faster : Double → Double → Choice → Type 0
  Faster l r c = is_remote c ≡ lt r l

  -- What each policy chooses for a deadline and the times at which the device and the remote side are
  -- done.
  abbrev pub Honours : FrontierPolicy → Bool → Double → Double → Double → Choice → Type 0
  Honours local_only allow d l r c = c ≡ local
  Honours overflow allow d l r c = c ≡ remote
  Honours fastest allow d l r c = Faster l r c
  Honours deadline allow d l r c =
      ((in_time d l ≡ true) × (c ≡ local))
      ⊎ ((in_time d l ≡ false) × (in_time d r ≡ true) × (c ≡ remote))
      ⊎ ((in_time d l ≡ false) × (in_time d r ≡ false) × Faster l r c)
  Honours background allow d l r c =
      ((allow ≡ true) × Faster l r c) ⊎ ((allow ≡ false) × (is_remote c ≡ (in_time d r && lt d l)))

  choose-Honours :
      (p : FrontierPolicy) (allow : Bool) (d l r : Double)
      → Honours p allow d l r (choose F p allow d l r)
  unfolding choose
  choose-Honours local_only allow d l r = refl
  choose-Honours overflow allow d l r = refl
  choose-Honours fastest allow d l r = ground arith
  choose-Honours deadline allow d l r = elim (Bool-cases (in_time d l)) [
    | inl near ↦ inl (near, ground arith)
    | inr far ↦ elim (Bool-cases (in_time d r)) [
      | inl met ↦ inr (inl (far, met, ground arith))
      | inr missed ↦ inr (inr (far, missed, ground arith))
    ]
  ]
  choose-Honours background true d l r = inl (refl, ground arith)
  choose-Honours background false d l r = inr (refl, ground arith)

  -- With a table and one of the four tiers, for the deadline that counts: local-only stays on the
  -- device and overflow leaves it; fastest takes the faster side. Under a deadline it is the device if
  -- that meets it, else the remote side if that meets it, else the faster side. Background work takes
  -- the faster side where overflow is allowed; where it is not, it leaves the device exactly if there
  -- is a deadline that the device's time is past and that the remote side meets.
  pub decide-Honours :
      (t : Table F) (tier : ℕ) (local_wait deadline_ms : Double)
      → tier ≤ 3
      → t.loaded ≡ true
      → Honours
          (t.policy tier)
          (t.allow_overflow tier)
          (deadline_of F t tier deadline_ms)
          (add local_wait t.local_p50_ms)
          t.remote_p50_ms
          (decide F t tier local_wait deadline_ms)
  unfolding decide
  decide-Honours t tier local_wait deadline_ms known loaded =
      let in_range : ltb 3 tier ≡ false = ground arith in
      rw (loaded, in_range, decide)
        (choose-Honours (t.policy tier) (t.allow_overflow tier) (deadline_of F t tier deadline_ms)
          (add local_wait t.local_p50_ms) t.remote_p50_ms)
