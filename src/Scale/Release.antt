-- ===== src/Scale/Release.antt =====
-- How the operations of src/oscale.c on an instance change the number of active ones.
use omniserve_native.Prelude.{
  ℕ, suc, ◌+◌, ◌≤◌, ◌≡◌, ◌≢◌, refl, sym, ap, ◌∙◌, subst, inl, inr, true, false, List, [], ◌∷◌, some,
  arith, Bool-cases, Option-cases, if◌then◌else◌, length, get_elem?, length-set, All,
}
use mathlib.Core.Option.{some-injective}
use omniserve_native.Floats.{DoubleOps}
use omniserve_native.Json.Children.{get_elem?-set}
use omniserve_native.Scale.{
  Reason, Observation, Instance, Lane, active_instances, decide, decide_rent, release_candidate,
  idle_candidate, release_instance, cleared, lane_by_name, lane_policy, has_tier, Policy, new_lane,
}
use omniserve_native.Json.Lookup.{same_bytes}
use omniserve_native.Scale.Tiers.{rentable_tiers_lem}
use omniserve_native.Scale.Ledger.{active_instances-set, active_of}

module _ (F : DoubleOps) where
  open F use {Double}

  abbrev pub rented : Lane F → ℕ
  rented l = active_instances F l.instances

  -- The last reason has no part in the decision.
  pub decide_reason :
      (l : Lane F) (reason : Reason) (obs : Observation F) (now_s : Double)
      → decide F (record l { last_reason = reason }) obs now_s ≡ decide F l obs now_s
  unfolding decide release_candidate idle_candidate decide_rent
  decide_reason l reason obs now_s = refl

  pub release_instance-rented :
      (l : Lane F) (at : ℕ) (now_s : Double) (why : Reason) (i : Instance F)
      → get_elem? l.instances at ≡ some i
      → rented (release_instance F l at now_s why) + active_of F i ≡ rented l
  unfolding release_instance
  release_instance-rented l at now_s why i e = elim (Bool-cases i.active) [
    | inr free ↦ rw (e, free, release_instance) (omega arith)
    | inl active ↦
        let less = active_instances-set F l.instances at i (cleared F) e in
        let one : active_of F i ≡ 1 = ap (λ b. if b then 1 else 0) active in
        rw (e, active, release_instance) (omega (arith, less, one))
  ]

  pub release_instance-le :
      (l : Lane F) (at : ℕ) (now_s : Double) (why : Reason)
      → rented (release_instance F l at now_s why) ≤ rented l
  unfolding release_instance
  release_instance-le l at now_s why = elim (Option-cases (get_elem? l.instances at)) [
    | inl out ↦ rw (out, release_instance) (omega arith)
    | inr (i, e) ↦ omega (arith, release_instance-rented l at now_s why i e)
  ]

  -- What is active after a release was active before, and stands elsewhere.
  unfoldable pub Elsewhere : Lane F → ℕ → List (Instance F) → Type 0
  Elsewhere l at after =
      (k : ℕ) (x : Instance F)
      → get_elem? after k ≡ some x
      → x.active ≡ true
      → (k ≢ at) × (get_elem? l.instances k ≡ some x)

  pub release_instance-Elsewhere :
      (l : Lane F) (at : ℕ) (now_s : Double) (why : Reason)
      → Elsewhere l at (release_instance F l at now_s why).instances
  unfolding release_instance Elsewhere
  release_instance-Elsewhere l at now_s why = elim (Option-cases (get_elem? l.instances at)) [
    | inl out ↦
        rw (out, release_instance)
          (λ k x e on.
            ((λ same. let here = sym e ∙ ap (get_elem? l.instances) same ∙ out in cc), e))
    | inr (i, found) ↦ elim (Bool-cases i.active) [
      | inr free ↦
          rw (found, free, release_instance)
            (λ k x e on. (
              (λ same.
                  let here : some x ≡ some i = sym e ∙ ap (get_elem? l.instances) same ∙ found in
                  let off : x.active ≡ false =
                    ap (λ y. y.active) (some-injective x i here) ∙ free in
                  cc),
              e,
            ))
      | inl active ↦
          rw (found, active, release_instance)
            (λ k x e on. elim (get_elem?-set l.instances at (cleared F) k e) [
              | inl (same, is) ↦
                  let off : x.active ≡ false =
                    sym (ap (λ y. y.active) (some-injective (cleared F) x is)) in
                  cc
              | inr (other, e') ↦ (other, e')
            ])
    ]
  ]

  pub release_instance-length :
      (l : Lane F) (at : ℕ) (now_s : Double) (why : Reason)
      → length (release_instance F l at now_s why).instances ≡ length l.instances
  unfolding release_instance
  release_instance-length l at now_s why = elim (Option-cases (get_elem? l.instances at)) [
    | inl out ↦ rw (out, release_instance) refl
    | inr (i, found) ↦ elim (Bool-cases i.active) [
      | inr free ↦ rw (found, free, release_instance) refl
      | inl active ↦ rw (found, active, release_instance) (length-set l.instances at (cleared F))
    ]
  ]

  -- A lane without an active instance.
  pub none_active :
      (is : List (Instance F))
      → ((k : ℕ) (x : Instance F) → get_elem? is k ≡ some x → x.active ≡ false)
      → active_instances F is ≡ 0
  unfolding active_instances
  none_active [] h = refl
  none_active (i ∷ is) h =
      let off = h 0 i refl in rw off (omega (arith, none_active is (λ k. h (suc k))))

  -- What holds of every lane holds of the one that is found.
  pub lane_by_name-All :
      (P : Lane F → Type 0) (ls : List (Lane F)) (name : List ℕ) (l : Lane F)
      → All P ls
      → lane_by_name F ls name ≡ some l
      → P l
  unfolding lane_by_name
  lane_by_name-All P [] name l h e = cc
  lane_by_name-All P (m ∷ ls) name l (p, h) e = elim (Bool-cases (same_bytes m.policy.name name)) [
    | inl here ↦ subst P (some-injective m l (rw (here, lane_by_name) at e)) p
    | inr past ↦ lane_by_name-All P ls name l h (rw (past, lane_by_name) at e)
  ]

  pub lane_policy_background : (p : Policy F) → has_tier (lane_policy F p).tier_mask 3 ≡ false
  unfolding lane_policy
  lane_policy_background p = (rentable_tiers_lem p.tier_mask).0

  pub new_lane_policy : (p : Policy F) → (new_lane F p).policy ≡ lane_policy F p
  unfolding new_lane
  new_lane_policy p = refl
