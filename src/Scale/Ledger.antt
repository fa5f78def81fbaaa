-- ===== src/Scale/Ledger.antt =====
-- A lane of src/oscale.c over its life: instances begin when `oscale_decide` says up, become ready,
-- are touched and are released, in any order.
use omniserve_native.Prelude.{
  ℕ, zero, suc, ◌+◌, ◌≤◌, ◌≡◌, sym, ap, ◌∙◌, subst, inl, inr, true, List, [], ◌∷◌, some, arith,
  Bool-cases, Option-cases, if◌then◌else◌, length, length-set, get_elem?, set, take,
}
use mathlib.Core.Option.{some-injective}
use omniserve_native.Prelude.Int.{pos_part}
use omniserve_native.Floats.{DoubleOps}
use omniserve_native.Scale.{
  up, Reason, Policy, Observation, Instance, Lane, max_instances_ever, active_instances, decide,
  begin_instance, new_lane, instance_ready, instance_touch, release_instance, cleared,
}
use omniserve_native.Scale.Rent.{decide-begin_instance, Rented, InBudget}

module _ (F : DoubleOps) where
  open F use {Double, dec}

  pub data Step : Lane F → Lane F → Type 0 where
    begins :
        {l m : Lane F} (obs : Observation F) (now_s : Double) (slot : ℕ)
        → (decide F l obs now_s).0 ≡ up
        → begin_instance F l now_s ≡ some (m, slot)
        → Step l m
    readies :
        {l : Lane F} (at : ℕ) (endpoint : List ℕ) (now_s : Double)
        → Step l (instance_ready F l at endpoint now_s)
    touches : {l : Lane F} (at : ℕ) (now_s : Double) → Step l (instance_touch F l at now_s)
    releases :
        {l : Lane F} (at : ℕ) (now_s : Double) (why : Reason)
        → Step l (release_instance F l at now_s why)

  pub data Reach (policy : Policy F) : Lane F → Type 0 where
    fresh : Reach policy (new_lane F policy)
    after : {l m : Lane F} → Reach policy l → Step l m → Reach policy m

  -- The books of a lane: every rental is either given back or active, the instances stay within
  -- the table and the policy, and expired releases are releases.
  unfoldable pub Balanced : Lane F → Type 0
  Balanced l =
      (l.scale_ups ≡ l.scale_downs + active_instances F l.instances)
      × (length l.instances ≤ max_instances_ever)
      × (active_instances F l.instances ≤ pos_part l.policy.max_instances)
      × (l.ttl_kills ≤ l.scale_downs)

  abbrev pub active_of : Instance F → ℕ
  active_of i = if i.active then 1 else 0

  pub active_instances-set :
      (is : List (Instance F)) (at : ℕ) (i v : Instance F)
      → get_elem? is at ≡ some i
      → active_instances F (set is at v) + active_of i ≡ active_instances F is + active_of v
  unfolding active_instances
  active_instances-set [] at i v e = cc
  active_instances-set (j ∷ is) zero i v e =
      let same : active_of j ≡ active_of i = ap active_of (some-injective j i e) in
      omega (arith, same)
  active_instances-set (j ∷ is) (suc at) i v e = omega (arith, active_instances-set is at i v e)

  -- Writing an instance of the same activity keeps the books.
  set-Balanced :
      (l : Lane F) (at : ℕ) (i v : Instance F)
      → get_elem? l.instances at ≡ some i
      → v.active ≡ i.active
      → Balanced l
      → Balanced (record l { instances = set l.instances at v })
  unfolding Balanced
  set-Balanced l at i v e same (books, long, capped, kills) =
      let kept = active_instances-set l.instances at i v e in
      let act : active_of v ≡ active_of i = ap (λ b. if b then 1 else 0) same in
      (
        omega (arith, kept, act),
        omega (arith, length-set l.instances at v),
        omega (arith, kept, act),
        kills,
      )

  instance_ready-Balanced :
      (l : Lane F) (at : ℕ) (endpoint : List ℕ) (now_s : Double)
      → Balanced l
      → Balanced (instance_ready F l at endpoint now_s)
  unfolding instance_ready
  instance_ready-Balanced l at endpoint now_s ok = elim (Option-cases (get_elem? l.instances at)) [
    | inl out ↦ rw (out, instance_ready) ok
    | inr (i, e) ↦ elim (Bool-cases i.active) [
      | inr free ↦ rw (e, free, instance_ready) ok
      | inl active ↦
          let v : Instance F = record i {
            ready = true;
            last_used_s = now_s;
            endpoint = take 255 endpoint;
            active = true;
          } in
          rw (e, active, instance_ready) (set-Balanced l at i v e (sym active) ok)
    ]
  ]

  instance_touch-Balanced :
      (l : Lane F) (at : ℕ) (now_s : Double) → Balanced l → Balanced (instance_touch F l at now_s)
  unfolding instance_touch
  instance_touch-Balanced l at now_s ok = elim (Option-cases (get_elem? l.instances at)) [
    | inl out ↦ rw (out, instance_touch) ok
    | inr (i, e) ↦ elim (Bool-cases i.active) [
      | inr free ↦ rw (e, free, instance_touch) ok
      | inl active ↦
          rw (e, active, instance_touch)
            (set-Balanced l at i (record i { last_used_s = now_s; active = true }) e (sym active)
              ok)
    ]
  ]

  release_instance-Balanced :
      (l : Lane F) (at : ℕ) (now_s : Double) (why : Reason)
      → Balanced l
      → Balanced (release_instance F l at now_s why)
  unfolding release_instance Balanced
  release_instance-Balanced l at now_s why (books, long, capped, kills) =
      elim (Option-cases (get_elem? l.instances at)) [
        | inl out ↦ rw (out, release_instance) (books, long, capped, kills)
        | inr (i, e) ↦ elim (Bool-cases i.active) [
          | inr free ↦ rw (e, free, release_instance) (books, long, capped, kills)
          | inl active ↦
              let less = active_instances-set l.instances at i (cleared F) e in
              let one : active_of i ≡ 1 = ap (λ b. if b then 1 else 0) active in
              rw (e, active, release_instance)
                (
                  omega (arith, less, one),
                  omega (arith, length-set l.instances at (cleared F)),
                  omega (arith, less, one),
                  ground arith,
                )
        ]
      ]

  pub begins-Balanced :
      (l m : Lane F) (obs : Observation F) (now_s : Double) (slot : ℕ)
      → (decide F l obs now_s).0 ≡ up
      → begin_instance F l now_s ≡ some (m, slot)
      → Balanced l
      → Balanced m
  unfolding Balanced Rented InBudget
  begins-Balanced l m obs now_s slot says begun (books, long, capped, kills) =
      let (more, at, begun', (here, one, bound, policy, ups, downs, kept), (most, cap, cheap)) =
        decide-begin_instance F l obs now_s long says in
      let same : more ≡ m =
        ap (λ p. p.0) (some-injective (more, at) (m, slot) (sym begun' ∙ begun)) in
      subst Balanced same (
        omega (arith, books, one, ups, downs),
        bound,
        ground (arith, cap),
        omega (arith, downs, kept, kills),
      )

  pub Step-Balanced : {l m : Lane F} → Step l m → Balanced l → Balanced m
  Step-Balanced (begins {l} {m} obs now_s slot says begun) ok =
      begins-Balanced l m obs now_s slot says begun ok
  Step-Balanced (readies {l} at endpoint now_s) ok = instance_ready-Balanced l at endpoint now_s ok
  Step-Balanced (touches {l} at now_s) ok = instance_touch-Balanced l at now_s ok
  Step-Balanced (releases {l} at now_s why) ok = release_instance-Balanced l at now_s why ok

  -- Over the life of a lane, in which instances begin when `decide` says up, become ready, are
  -- touched and are released in any order: every start is a release or an active instance, the
  -- instances stay within the table and the active ones within the policy, and the expired
  -- releases are among the releases.
  pub Reach-Balanced : (policy : Policy F) (l : Lane F) → Reach policy l → Balanced l
  unfolding Balanced new_lane active_instances
  Reach-Balanced policy l fresh = (omega arith, omega arith, omega arith, omega arith)
  Reach-Balanced policy m (after {l} r s) = Step-Balanced s (Reach-Balanced policy l r)
