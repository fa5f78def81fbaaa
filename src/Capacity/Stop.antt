-- ===== src/Capacity/Stop.antt =====
-- The stop of src/ocapacity.c, and which requests it routes to rented instances.
use omniserve_native.Prelude.{
  ℕ, zero, suc, ◌≤◌, ◌≡◌, refl, ap, ◌∙◌, inl, inr, true, false, List, [], ◌∷◌, none, some, arith,
  Bool-cases, Option-cases, length, get_elem?, All, sum_by,
}
use omniserve_native.Json.Children.{get_elem?-bound}
use omniserve_native.Floats.{DoubleOps}
use omniserve_native.Scale.{
  reason_none, Policy, Instance, Lane, has_tier, lane_policy, lane_by_name,
}
use omniserve_native.Scale.Release.{
  rented, Elsewhere, release_instance-Elsewhere, release_instance-length, none_active,
  lane_by_name-All, lane_policy_background,
}
use omniserve_native.Capacity.{release_all, stop, overflow_endpoint}

module _ (F : DoubleOps) where
  open F use {Double}

  -- No slot below `n` is active.
  Freed : ℕ → List (Instance F) → Type 0
  Freed n is = (k : ℕ) (x : Instance F) → get_elem? is k ≡ some x → x.active ≡ true → n ≤ k

  release_all-Freed :
      (l : Lane F) (n : ℕ) (now_s : Double)
      → (length (release_all F l n now_s).instances ≡ length l.instances)
        × Freed n (release_all F l n now_s).instances
  unfolding release_all Freed Elsewhere
  release_all-Freed l zero now_s = (refl, λ k x e on. omega arith)
  release_all-Freed l (suc n) now_s =
      let (same, freed) = release_all-Freed l n now_s in
      let m = release_all F l n now_s in
      (
        release_instance-length F m n now_s reason_none ∙ same,
        λ k x e on.
            let (other, before) = release_instance-Elsewhere F m n now_s reason_none k x e on in
            omega (arith, freed k x before on, other),
      )

  release_all-rented :
      (l : Lane F) (now_s : Double) → rented F (release_all F l (length l.instances) now_s) ≡ 0
  unfolding Freed
  release_all-rented l now_s =
      let (same, freed) = release_all-Freed l (length l.instances) now_s in
      none_active F (release_all F l (length l.instances) now_s).instances (λ k x e.
        elim (Bool-cases x.active) [
          | inr off ↦ off
          | inl on ↦
              let bound =
                get_elem?-bound (release_all F l (length l.instances) now_s).instances k e in
              absurd (omega (arith, freed k x e on, bound, same))
        ])

  -- A stop leaves no active instance on any lane.
  pub stop-rented : (ls : List (Lane F)) (now_s : Double) → sum_by (rented F) (stop F ls now_s) ≡ 0
  unfolding stop
  stop-rented [] now_s = refl
  stop-rented (l ∷ ls) now_s = omega (arith, release_all-rented l now_s, stop-rented ls now_s)

  -- The policy of the lane was made by `add_lane`.
  abbrev pub IsAdded : Lane F → Type 0
  IsAdded l = (p : Policy F) × (l.policy ≡ lane_policy F p)

  -- With lanes that were added to the table, a request of the background tier is never routed to a
  -- rented instance, whatever runs.
  pub overflow_endpoint_background :
      (ls : List (Lane F)) (lane_name : List ℕ) (now_s : Double)
      → All IsAdded ls
      → overflow_endpoint F ls lane_name 3 now_s ≡ none
  unfolding overflow_endpoint
  overflow_endpoint_background ls lane_name now_s h =
      elim (Option-cases (lane_by_name F ls lane_name)) [
        | inl e ↦ rw (e, overflow_endpoint) refl
        | inr (l, e) ↦
            let (p, is) = lane_by_name-All F IsAdded ls lane_name l h e in
            let off : has_tier l.policy.tier_mask 3 ≡ false =
              ap (λ q. has_tier q.tier_mask 3) is ∙ lane_policy_background F p in
            elim (Bool-cases l.policy.enabled) [
              | inl on ↦ rw (e, off, on, overflow_endpoint) refl
              | inr shut ↦ rw (e, shut, overflow_endpoint) refl
            ]
      ]
