-- ===== src/Vram/Charges/HandOut.antt =====
-- The order in which `charges_locked` of src/ovram.c goes through the leases, and its last loop.
use omniserve_native.Prelude.{
  ℕ, ◌+◌, ◌-◌, ◌≤◌, ◌≡◌, ◌≢◌, refl, sym, ap, ◌∙◌, subst, inl, inr, Bool, true, false, List, [], ◌∷◌,
  arith, Bool-cases, if◌then◌else◌, min, ◌==◌, set, All, get_elem?-set_ne, sum_by,
}
use omniserve_native.Floats.{DoubleOps}
use omniserve_native.Vram.{Lease}
use omniserve_native.Vram.Charges.{
  Growth, credit, seen, spend, hand_out, sink, sort_back, reverse_onto, by_grant,
}
use omniserve_native.Vram.Charges.Spend.{
  left_of, Unique, charged, held_by, hits, Unspent, spend-Spent, charged-spend, taken,
}

module _ (F : DoubleOps) where
  -- Sorting by the grant keeps sums and what holds of each.
  sink-sum :
      (f : ℕ × Lease F → ℕ) (x : ℕ × Lease F) (ys : List (ℕ × Lease F))
      → sum_by f (sink F x ys) ≡ f x + sum_by f ys
  unfolding sink
  sink-sum f x [] = refl
  sink-sum f x (y ∷ ys) = elim (Bool-cases (F.lt x.1.granted_s y.1.granted_s)) [
    | inl later ↦ rw (later, sink) (omega (arith, sink-sum f x ys))
    | inr first ↦ rw (first, sink) refl
  ]

  sort_back-sum :
      (f : ℕ × Lease F → ℕ) (xs done : List (ℕ × Lease F))
      → sum_by f (sort_back F xs done) ≡ sum_by f xs + sum_by f done
  unfolding sort_back
  sort_back-sum f [] done = omega arith
  sort_back-sum f (x ∷ xs) done =
      omega (arith, sort_back-sum f xs (sink F x done), sink-sum f x done)

  reverse_onto-sum :
      (f : ℕ × Lease F → ℕ) (xs done : List (ℕ × Lease F))
      → sum_by f (reverse_onto F xs done) ≡ sum_by f xs + sum_by f done
  unfolding reverse_onto
  reverse_onto-sum f [] done = omega arith
  reverse_onto-sum f (x ∷ xs) done = omega (arith, reverse_onto-sum f xs (x ∷ done))

  pub by_grant-sum :
      (f : ℕ × Lease F → ℕ) (xs : List (ℕ × Lease F)) → sum_by f (by_grant F xs) ≡ sum_by f xs
  unfolding by_grant
  by_grant-sum f xs =
      omega (arith, reverse_onto-sum f (sort_back F xs []) [], sort_back-sum f xs [])

  module _ (P : ℕ × Lease F → Type 0) where
    sink-All : (x : ℕ × Lease F) (ys : List (ℕ × Lease F)) → P x → All P ys → All P (sink F x ys)
    unfolding sink
    sink-All x [] p h = (p, tt)
    sink-All x (y ∷ ys) p (q, h) = elim (Bool-cases (F.lt x.1.granted_s y.1.granted_s)) [
      | inl later ↦ rw (later, sink) (q, sink-All x ys p h)
      | inr first ↦ rw (first, sink) (p, (q, h))
    ]

    sort_back-All :
        (xs done : List (ℕ × Lease F)) → All P xs → All P done → All P (sort_back F xs done)
    unfolding sort_back
    sort_back-All [] done h k = k
    sort_back-All (x ∷ xs) done (p, h) k = sort_back-All xs (sink F x done) h (sink-All x done p k)

    reverse_onto-All :
        (xs done : List (ℕ × Lease F)) → All P xs → All P done → All P (reverse_onto F xs done)
    unfolding reverse_onto
    reverse_onto-All [] done h k = k
    reverse_onto-All (x ∷ xs) done (p, h) k = reverse_onto-All xs (x ∷ done) h (p, k)

    pub by_grant-All : (xs : List (ℕ × Lease F)) → All P xs → All P (by_grant F xs)
    unfolding by_grant
    by_grant-All xs h = reverse_onto-All (sort_back F xs []) [] (sort_back-All xs [] h tt) tt

  -- No index stands twice.
  abbrev pub Once : List (ℕ × Lease F) → Type 0
  Once xs = (i : ℕ) → sum_by (hits F i) xs ≤ 1

  not_hit : (i : ℕ) (xs : List (ℕ × Lease F)) → sum_by (hits F i) xs ≡ 0 → All (λ y. i ≢ y.0) xs
  not_hit i [] h = tt
  not_hit i (y ∷ ys) h = elim (Bool-cases (y.0 == i)) [
    | inl e ↦ let one : hits F i y ≡ 1 = rw e refl in absurd (omega (arith, one))
    | inr e ↦ ((λ same. absurd (ground (arith, same))), not_hit i ys (omega (arith, h)))
  ]

  rest_untouched :
      (ls : List (Lease F)) (cs : List ℕ) (b : Bool) (i v : ℕ) (xs : List (ℕ × Lease F))
      → All (λ y. i ≢ y.0) xs
      → All (Unspent F ls cs) xs
      → All (Unspent F ls (if b then set cs i v else cs)) xs
  rest_untouched ls cs false i v xs n h = h
  rest_untouched ls cs true i v [] n h = tt
  rest_untouched ls cs true i v (x ∷ xs) (m, n) ((e, known, at), h) =
      ((e, known, get_elem?-set_ne cs v m ∙ at), rest_untouched ls cs true i v xs n h)

  credit-min : (left mb : ℕ) → credit F left mb ≡ min left mb
  credit-min left mb = ground arith

  -- All leases: the holder's growth is taken off what its leases hold, as far as both go.
  pub hand_out-charged :
      (pid : ℕ) (ls : List (Lease F)) (xs : List (ℕ × Lease F)) (table : List Growth) (cs : List ℕ)
      → Unique F table
      → All (Unspent F ls cs) xs
      → Once xs
      → charged F pid ls (hand_out F xs table cs)
          + min (left_of F table pid) (sum_by (held_by F pid) xs)
        ≡ charged F pid ls cs
  unfolding hand_out
  hand_out-charged pid ls [] table cs u h once = omega arith
  hand_out-charged pid ls (x ∷ xs) table cs u (p, h) once =
      let s = spend-Spent F table x cs u in
      let self : hits F x.0 x ≡ 1 = ground arith in
      let gone : sum_by (hits F x.0) xs ≡ 0 = omega (arith, once x.0, self) in
      let rest =
        hand_out-charged pid ls xs (spend F table x cs).0 (spend F table x cs).1 s.unique
          (subst (λ c. All (Unspent F ls c) xs) (sym s.charges)
            (rest_untouched ls cs (seen F table x.1.pid) x.0 (x.1.mb - taken F table x) xs
              (not_hit x.0 xs gone) h))
          (λ i. omega (arith, once i)) in
      let one = charged-spend F pid ls cs table x p in
      let now = ap (charged F pid ls) s.charges in
      let lefts = s.lefts pid in
      elim (Bool-cases (pid == x.1.pid)) [
        | inl mine ↦
            let held : held_by F pid x ≡ x.1.mb = ground (arith, mine) in
            let pid_is : x.1.pid ≡ pid = ground arith in
            let took : taken F table x ≡ min (left_of F table pid) x.1.mb =
              credit-min (left_of F table x.1.pid) x.1.mb
              ∙ ap (λ q. min (left_of F table q) x.1.mb) pid_is in
            let spent : ◌≡◌ {A = ℕ} (if pid == x.1.pid then taken F table x else 0)
                (taken F table x) =
              rw mine refl in
            omega (arith, rest, one, now, lefts, held, took, spent)
        | inr other ↦
            let held : held_by F pid x ≡ 0 = ground (arith, other) in
            let spent : ◌≡◌ {A = ℕ} (if pid == x.1.pid then taken F table x else 0) 0 =
              rw other refl in
            omega (arith, rest, one, now, lefts, held, spent)
      ]
