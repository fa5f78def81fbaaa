-- ===== src/Residency/Broker/Order.antt =====
-- The order in which `admit_all` of src/oresidency.c considers the claims: each active one once.
use omniserve_native.Prelude.{
  ℕ, suc, ◌+◌, ◌<◌, ◌≡◌, ◌≢◌, refl, sym, ap, ◌∙◌, inl, inr, Bool, true, false, List, [], ◌∷◌, some,
  arith, Bool-cases, if◌then◌else◌, get_elem?, All,
}
use omniserve_native.Floats.{DoubleOps}
use omniserve_native.Residency.{Config, Claim}
use omniserve_native.Residency.Broker.{candidates, bubble, sorted, reversed, score_of}

module _ (F : DoubleOps) where
  open F use {Double, lt}

  abbrev pub Listed : List (Claim F) → ℕ × Claim F → Type 0
  Listed claims x = (get_elem? claims x.0 ≡ some x.1) × (x.1.active ≡ true)

  abbrev pub Apart : List (ℕ × Claim F) → Type 0
  Apart [] = Unit
  Apart (x ∷ xs) = All (λ y. x.0 ≢ y.0) xs × Apart xs

  bubble-All :
      (P : ℕ × Claim F → Type 0) (cfg : Config F) (now : Double) (ys : List (ℕ × Claim F))
      (x : ℕ × Claim F)
      → All P ys
      → P x
      → All P (bubble F cfg now ys x)
  unfolding bubble
  bubble-All P cfg now [] x h p = (p, tt)
  bubble-All P cfg now (y ∷ ys) x (q, h) p =
      elim (Bool-cases (lt (score_of F cfg now y.1) (score_of F cfg now x.1))) [
        | inl lower ↦ rw (lower, bubble) (q, bubble-All P cfg now ys x h p)
        | inr higher ↦ rw (higher, bubble) (p, (q, h))
      ]

  bubble-Apart :
      (cfg : Config F) (now : Double) (ys : List (ℕ × Claim F)) (x : ℕ × Claim F)
      → Apart ys
      → All (λ y. x.0 ≢ y.0) ys
      → Apart (bubble F cfg now ys x)
  unfolding bubble
  bubble-Apart cfg now [] x a h = (tt, tt)
  bubble-Apart cfg now (y ∷ ys) x (b, a) (n, h) =
      elim (Bool-cases (lt (score_of F cfg now y.1) (score_of F cfg now x.1))) [
        | inl lower ↦
            rw (lower, bubble)
              (
                bubble-All (λ z. y.0 ≢ z.0) cfg now ys x b (λ e. n (sym e)),
                bubble-Apart cfg now ys x a h,
              )
        | inr higher ↦ rw (higher, bubble) ((n, h), (b, a))
      ]

  sorted-All :
      (P : ℕ × Claim F → Type 0) (cfg : Config F) (now : Double) (done xs : List (ℕ × Claim F))
      → All P done
      → All P xs
      → All P (sorted F cfg now done xs)
  unfolding sorted
  sorted-All P cfg now done [] h k = h
  sorted-All P cfg now done (x ∷ xs) h (p, k) =
      sorted-All P cfg now (bubble F cfg now done x) xs (bubble-All P cfg now done x h p) k

  -- Every one of `xs` differs from every one of `ys`.
  abbrev Cross : List (ℕ × Claim F) → List (ℕ × Claim F) → Type 0
  Cross xs ys = All (λ x. All (λ y. x.0 ≢ y.0) ys) xs

  Cross-bubble :
      (cfg : Config F) (now : Double) (xs done : List (ℕ × Claim F)) (x : ℕ × Claim F)
      → Cross xs done
      → All (λ y. x.0 ≢ y.0) xs
      → Cross xs (bubble F cfg now done x)
  Cross-bubble cfg now [] done x h n = tt
  Cross-bubble cfg now (w ∷ ws) done x (h, hs) (n, ns) = (
    bubble-All (λ z. w.0 ≢ z.0) cfg now done x h (λ e. n (sym e)),
    Cross-bubble cfg now ws done x hs ns,
  )

  sorted-Apart :
      (cfg : Config F) (now : Double) (done xs : List (ℕ × Claim F))
      → Apart done
      → Apart xs
      → Cross xs done
      → Apart (sorted F cfg now done xs)
  unfolding sorted
  sorted-Apart cfg now done [] a b h = a
  sorted-Apart cfg now done (x ∷ xs) a (n, b) (h, hs) =
      sorted-Apart cfg now (bubble F cfg now done x) xs (bubble-Apart cfg now done x a h) b
        (Cross-bubble cfg now xs done x hs n)

  reversed-All :
      (P : ℕ × Claim F → Type 0) (xs acc : List (ℕ × Claim F))
      → All P xs
      → All P acc
      → All P (reversed F xs acc)
  reversed-All P [] acc h k = k
  reversed-All P (x ∷ xs) acc (p, h) k = reversed-All P xs (x ∷ acc) h (p, k)

  Cross-more :
      (xs acc : List (ℕ × Claim F)) (x : ℕ × Claim F)
      → Cross xs acc
      → All (λ y. x.0 ≢ y.0) xs
      → Cross xs (x ∷ acc)
  Cross-more [] acc x h n = tt
  Cross-more (w ∷ ws) acc x (h, hs) (n, ns) = (((λ e. n (sym e)), h), Cross-more ws acc x hs ns)

  reversed-Apart :
      (xs acc : List (ℕ × Claim F))
      → Apart xs
      → Apart acc
      → Cross xs acc
      → Apart (reversed F xs acc)
  reversed-Apart [] acc a b h = b
  reversed-Apart (x ∷ xs) acc (n, a) b (h, hs) =
      reversed-Apart xs (x ∷ acc) a (h, b) (Cross-more xs acc x hs n)

  All-if :
      (P : ℕ × Claim F → Type 0) (b : Bool) (x : ℕ × Claim F) (xs : List (ℕ × Claim F))
      → (b ≡ true → P x)
      → All P xs
      → All P (if b then x ∷ xs else xs)
  All-if P true x xs p h = (p refl, h)
  All-if P false x xs p h = h

  -- The candidates are active claims at their indices.
  candidates-Listed :
      (cs all : List (Claim F)) (at : ℕ)
      → ((k : ℕ) → get_elem? all (at + k) ≡ get_elem? cs k)
      → All (Listed all) (candidates F cs at)
  candidates-Listed [] all at h = tt
  candidates-Listed (c ∷ cs) all at h =
      let next : (k : ℕ) → get_elem? all (at + 1 + k) ≡ get_elem? cs k =
        λ k. ap (get_elem? all) (let e : at + 1 + k ≡ at + suc k = omega arith in e) ∙ h (suc k) in
      All-if (Listed all) c.active (at, c) (candidates F cs (at + 1))
        (λ on. (ap (get_elem? all) (let e : at ≡ at + 0 = omega arith in e) ∙ h 0, on))
        (candidates-Listed cs all (at + 1) next)

  candidates_later :
      (cs : List (Claim F)) (at from : ℕ) → at < from → All (λ y. at ≢ y.0) (candidates F cs from)
  candidates_later [] at from h = tt
  candidates_later (c ∷ cs) at from h = elim (Bool-cases c.active) [
    | inl on ↦ rw on (omega arith, candidates_later cs at (from + 1) (omega arith))
    | inr off ↦ rw off (candidates_later cs at (from + 1) (omega arith))
  ]

  candidates-Apart : (cs : List (Claim F)) (at : ℕ) → Apart (candidates F cs at)
  candidates-Apart [] at = tt
  candidates-Apart (c ∷ cs) at = elim (Bool-cases c.active) [
    | inl on ↦ rw on (candidates_later cs at (at + 1) (omega arith), candidates-Apart cs (at + 1))
    | inr off ↦ rw off (candidates-Apart cs (at + 1))
  ]

  Cross-none : (xs : List (ℕ × Claim F)) → Cross xs []
  Cross-none [] = tt
  Cross-none (x ∷ xs) = (tt, Cross-none xs)

  -- The order of the scores is an order of the active claims, without repetition.
  pub order-Listed :
      (cfg : Config F) (now : Double) (claims : List (Claim F))
      → All (Listed claims) (reversed F (sorted F cfg now [] (candidates F claims 0)) [])
        × Apart (reversed F (sorted F cfg now [] (candidates F claims 0)) [])
  order-Listed cfg now claims =
      let cs = candidates F claims 0 in
      let listed =
        candidates-Listed claims claims 0
          (λ k. ap (get_elem? claims) (let e : 0 + k ≡ k = omega arith in e)) in
      let apart = sorted-Apart cfg now [] cs tt (candidates-Apart claims 0) (Cross-none cs) in
      (
        reversed-All (Listed claims) (sorted F cfg now [] cs) []
            (sorted-All (Listed claims) cfg now [] cs tt listed) tt,
        reversed-Apart (sorted F cfg now [] cs) [] apart tt (Cross-none (sorted F cfg now [] cs)),
      )
