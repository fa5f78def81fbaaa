-- ===== src/Spec/Draft.antt =====
-- `ospec_draft` of src/ospec.c finds the longest repeated suffix, at its most recent occurrence.
use omniserve_native.Prelude.{
  ℕ, zero, suc, ◌+◌, ◌-◌, ◌≤◌, ◌<◌, ◌≡◌, ◌↔◌, ◌⊎◌, inl, inr, refl, true, false, List, [], ◌∷◌,
  Option, none, some, arith, Bool-cases, length, take, drop, ltb, subst, ◌==◌,
}
use omniserve_native.Spec.{
  Config, shortest, longest, same_tokens, repeats, copied, by_start, by_length, draft,
}

-- The last `n` tokens of the context stand at `start` too, before its end.
abbrev pub Repeats : List ℕ → ℕ → ℕ → Type 0
Repeats context n start =
    (start + n < length context)
    × (take n (drop start context) ≡ take n (drop (length context - n) context))

same_tokens_iff : (as_ bs : List ℕ) → (same_tokens as_ bs ≡ true) ↔ (as_ ≡ bs)
unfolding same_tokens
same_tokens_iff [] [] = (λ _. refl, λ _. refl)
same_tokens_iff [] (b ∷ bs) = (λ e. cc, λ e. cc)
same_tokens_iff (a ∷ as_) [] = (λ e. cc, λ e. cc)
same_tokens_iff (a ∷ as_) (b ∷ bs) =
    (λ e. ground (arith, same_tokens_iff as_ bs), λ e. ground (arith, same_tokens_iff as_ bs))

below_or_top {κ} :
    (top : ℕ) (P : ℕ → Type κ)
    → ((k : ℕ) → k ≤ top → P k)
    → P (suc top)
    → (k : ℕ) → k ≤ suc top
    → P k
below_or_top top P below here k h =
    let split : (k ≤ top) ⊎ (suc top ≡ k) = omega arith in
    elim split [ inl p ↦ below k p | inr p ↦ subst P p here ]

module _ (context : List ℕ) (cap : ℕ) where
  -- The most recent repeat of length `n` that starts at `top` or before, if there is one.
  abbrev Latest : ℕ → ℕ → Option (List ℕ) → Type 0
  Latest n top r =
      ((start : ℕ) × (start ≤ top)
        × Repeats context n start
        × ((later : ℕ) → start < later → later ≤ top → ¬ Repeats context n later)
        × (r ≡ some (copied context cap n start)))
      ⊎ (((start : ℕ) → start ≤ top → ¬ Repeats context n start) × (r ≡ none))

  not_repeats : (n start : ℕ) → repeats context n start ≡ false → ¬ Repeats context n start
  unfolding repeats
  not_repeats n start e r = cc ((same_tokens_iff _ _).1 r.1)

  by_start-Latest :
      (n top : ℕ) → top + n < length context → Latest n top (by_start context cap n top)
  unfolding by_start
  by_start-Latest n zero h = elim (Bool-cases (repeats context n 0)) [
    | inl e ↦
        inl (
          0,
          omega arith,
          (h, (same_tokens_iff _ _).0 e),
          (λ later p q. absurd (omega arith)),
          rw e,
        )
    | inr e ↦ inr (
      λ start p.
          let first : 0 ≡ start = omega arith in
          subst (λ k. ¬ Repeats context n k) first (not_repeats n 0 e),
      rw e,
    )
  ]
  by_start-Latest n (suc top) h = elim (Bool-cases (repeats context n (suc top))) [
    | inl e ↦ inl (
      suc top,
      omega arith,
      (h, (same_tokens_iff _ _).0 e),
      (λ later p q. absurd (omega arith)),
      rw e,
    )
    | inr e ↦ elim (by_start-Latest n top (omega arith)) [
      | inl (start, below, found, latest, is) ↦ inl (
        start,
        omega arith,
        found,
        (λ later p q.
            below_or_top top (λ k. start < k → ¬ Repeats context n k) (λ k r lt. latest k lt r)
              (λ lt. not_repeats n (suc top) e) later q p),
        rw e is,
      )
      | inr (never, is) ↦
          inr (
            below_or_top top (λ k. ¬ Repeats context n k) never (not_repeats n (suc top) e),
            rw e is,
          )
    ]
  ]

  -- The longest repeat of at least `least` and at most `n` tokens, at its most recent start.
  abbrev pub Longest : ℕ → ℕ → List ℕ → Type 0
  Longest least n d =
      ((size : ℕ) × (start : ℕ) × (least ≤ size)
        × (size ≤ n)
        × Repeats context size start
        × ((later : ℕ) → start < later → ¬ Repeats context size later)
        × ((longer at : ℕ) → size < longer → longer ≤ n → ¬ Repeats context longer at)
        × (d ≡ copied context cap size start))
      ⊎ (((size at : ℕ) → least ≤ size → size ≤ n → ¬ Repeats context size at) × (d ≡ []))

  widen :
      (least n : ℕ) (d : List ℕ)
      → ((at : ℕ) → ¬ Repeats context (suc n) at)
      → Longest least n d
      → Longest least (suc n) d
  widen least n d none_here (inl (size, start, lo, hi, found, latest, longest_, is)) = inl (
    size,
    start,
    lo,
    omega arith,
    found,
    latest,
    (λ longer at p q.
        below_or_top n (λ k. size < k → ¬ Repeats context k at) (λ k r lt. longest_ k at lt r)
          (λ lt. none_here at) longer q p),
    is,
  )
  widen least n d none_here (inr (never, is)) = inr (
    (λ size at p q.
        below_or_top n (λ k. least ≤ k → ¬ Repeats context k at) (λ k r lo. never k at lo r)
          (λ lo. none_here at) size q p),
    is,
  )

  by_length-Longest : (least n : ℕ) → 0 < least → Longest least n (by_length context cap least n)
  unfolding by_length
  by_length-Longest least zero pos = inr ((λ size at p q. absurd (omega arith)), refl)
  by_length-Longest least (suc n) pos =
      let shorter = by_length-Longest least n pos in
      elim (Bool-cases (ltb (suc n) least)) [
        | inl e ↦ rw e (inr ((λ size at p q. absurd (ground arith)), refl))
        | inr e ↦ elim (Bool-cases (ltb (length context) (suc n + 1))) [
          | inl short ↦
              rw (e, short) (widen least n _ (λ at r. absurd (ground (arith, r.0))) shorter)
          | inr room ↦
              rw (e, room)
                (by_case shorter
                  (by_start-Latest (suc n) (length context - suc n - 1) (ground arith))
                  (ground arith) (ground arith))
        ]
      ]
    where
      by_case :
          Longest least n (by_length context cap least n)
          → Latest
              (suc n)
              (length context - suc n - 1)
              (by_start context cap (suc n) (length context - suc n - 1))
          → least ≤ suc n
          → suc n < length context
          → Longest least
              (suc n)
              (elim (by_start context cap (suc n) (length context - suc n - 1)) [
                | none ↦ by_length context cap least n
                | some found ↦ found
              ])
      by_case ih (inl (start, below, found, latest, is)) lo room = rw is (
          inl (
            suc n,
            start,
            lo,
            omega arith,
            found,
            (λ later p r. latest later p (omega (arith, r.0)) r),
            (λ longer at p q. absurd (omega arith)),
            refl,
          ))
      by_case ih (inr (never, is)) lo room =
          rw is (widen least n _ (λ at r. never at (omega (arith, r.0)) r) ih)

-- The drafted tokens are those behind the most recent occurrence of the longest suffix, between the
-- two bounds, that occurs earlier in the context: as many as follow it and the caller has room for.
-- Nothing is drafted only where no such suffix occurs earlier.
pub draft-Longest :
    (cfg : Config) (context : List ℕ) (draft_cap : ℕ)
    → 0 < draft_cap
    → Longest context draft_cap (shortest cfg) (longest cfg) (draft cfg context draft_cap)
unfolding draft
draft-Longest cfg [] room h = inr ((λ size at p q r. absurd (omega (arith, r.0))), refl)
draft-Longest cfg (t ∷ context) room h =
    let some_room : (room == 0) ≡ false = ground arith in
    let some_tokens : (length (t ∷ context) == 0) ≡ false = ground arith in
    rw (some_tokens, some_room)
      (by_length-Longest (t ∷ context) room (shortest cfg) (longest cfg) (ground arith))
