-- ===== src/Residency/Broker/Capacity.antt =====
-- `admit_all` of src/oresidency.c admits no more than the device holds.
use omniserve_native.Prelude.{
  ℕ, zero, suc, ◌+◌, ◌≤◌, ◌<◌, ◌≡◌, ◌≢◌, refl, sym, ap, ◌∙◌, subst, ◌⊎◌, inl, inr, Bool, true,
  false, not, ◌&&◌, List, [], ◌∷◌, some, arith, Bool-cases, ltb, leb, ◌==◌, if◌then◌else◌, leb→le,
  get_elem?, update, All,
}
use mathlib.Core.Option.{some-injective}
use omniserve_native.Prelude.Int.{ℤ, pos, pos_part, neg_part, sub_ℕ, ◌+ℤ◌, ◌≤ℤ◌, leb_ℤ}
use omniserve_native.Floats.{DoubleOps}
use omniserve_native.Residency.{Config, Claim, eligible, reserve_from, stream_reserve}
use omniserve_native.Residency.Broker.Order.{Listed, Apart}
use omniserve_native.Residency.Broker.{need_of, pick}

pub sub_ℕ_lem : (a b : ℕ) → pos_part (sub_ℕ a b) + b ≡ neg_part (sub_ℕ a b) + a
sub_ℕ_lem a b = ground arith

update_same : (f : ℕ → Bool) (i : ℕ) → f i ≡ false → (j : ℕ) → update f i false j ≡ f j
update_same f i e j = elim (Bool-cases (i == j)) [
  | inl here ↦ rw here (let same : i ≡ j = ground arith in sym e ∙ ap f same)
  | inr there ↦ rw there refl
]

update-false : (f : ℕ → Bool) (i : ℕ) → f i ≡ false → update f i false ≡ f
update-false f i e = λ k j. update_same f i e j k

pos_sum : (a b : ℕ) → pos a +ℤ pos b ≡ pos (a + b)
unfolding ◌+ℤ◌
pos_sum a b = let t : leb (0 + 0) (a + b) ≡ true = ground arith in rw t (ap pos (omega arith))

pub ≤ℤ_trans : (a b c : ℤ) → a ≤ℤ b → b ≤ℤ c → a ≤ℤ c
≤ℤ_trans a b c h k = omega arith

choose {ℓ} :
    {A : Type ℓ} (G : A → Type 0) (b c : Bool) (x y z : A)
    → (c ≡ true → G x)
    → G y
    → G z
    → G (if b then (if c then x else y) else z)
choose G true true x y z f g h = f refl
choose G true false x y z f g h = g
choose G false c x y z f g h = h

module _ (F : DoubleOps) where
  open F use {Double, dec, sub, le, lt}

  -- The memory of the chosen claims.
  abbrev pub chosen_mb : (ℕ → Bool) → List (Claim F) → ℕ → ℕ
  chosen_mb in_set [] at = 0
  chosen_mb in_set (c ∷ cs) at =
      (if c.active && in_set at then c.resident_mb else 0) + chosen_mb in_set cs (at + 1)

  pub chosen_mb_none : (claims : List (Claim F)) (at : ℕ) → chosen_mb (λ _. false) claims at ≡ 0
  chosen_mb_none [] at = refl
  chosen_mb_none (c ∷ cs) at = elim (Bool-cases c.active) [
    | inl a ↦ rw a (omega (arith, chosen_mb_none cs (at + 1)))
    | inr a ↦ rw a (omega (arith, chosen_mb_none cs (at + 1)))
  ]

  chosen_mb_past :
      (f : ℕ → Bool) (i : ℕ) (claims : List (Claim F)) (at : ℕ)
      → i < at
      → chosen_mb (update f i true) claims at ≡ chosen_mb f claims at
  chosen_mb_past f i [] at h = refl
  chosen_mb_past f i (c ∷ cs) at h =
      let other : (i == at) ≡ false = ground arith in
      rw other (omega (arith, chosen_mb_past f i cs (at + 1) (omega arith)))

  chosen_mb_more :
      (f : ℕ → Bool) (claims : List (Claim F)) (at k i : ℕ) (c : Claim F)
      → i ≡ at + k
      → get_elem? claims k ≡ some c
      → c.active ≡ true
      → f i ≡ false
      → chosen_mb (update f i true) claims at ≡ chosen_mb f claims at + c.resident_mb
  chosen_mb_more f [] at k i c there e on off = cc
  chosen_mb_more f (d ∷ cs) at zero i c there e on off =
      let same : d ≡ c = some-injective d c e in
      let here : (i == at) ≡ true = ground arith in
      let is_at : i ≡ at = omega arith in
      let d_on : d.active ≡ true = ap (λ x. x.active) same ∙ on in
      let mb : d.resident_mb ≡ c.resident_mb = ap (λ x. x.resident_mb) same in
      let f_off : f at ≡ false = sym (ap f is_at) ∙ off in
      rw (d_on, here, f_off) (omega (arith, mb, chosen_mb_past f i cs (at + 1) (omega arith)))
  chosen_mb_more f (d ∷ cs) at (suc k) i c there e on off =
      let other : (i == at) ≡ false = ground arith in
      rw other (omega (arith, chosen_mb_more f cs (at + 1) k i c (omega arith) e on off))

  -- What `stream_reserve` keeps free covers every claim that is left streamed.
  abbrev pub Streams : Config F → Double → Claim F → Type 0
  Streams cfg now c = (c.active ≡ true) × (le (sub now c.last_req_s) cfg.reserve_idle_s ≡ true)

  kept_or_more :
      (m : ℕ) (a b l : Bool) (s : ℕ) → m ≤ (if a && (not b && (l && ltb m s)) then s else m)
  kept_or_more m a b l s = ground arith

  as_large :
      (m : ℕ) (a b l : Bool) (s : ℕ)
      → a ≡ true
      → l ≡ true
      → b ≡ false
      → s ≤ (if a && (not b && (l && ltb m s)) then s else m)
  as_large m a b l s on recent off = ground arith

  reserve_from_grows :
      (cfg : Config F) (in_set : ℕ → Bool) (now : Double) (cs : List (Claim F)) (at m : ℕ)
      → m ≤ reserve_from F cfg in_set now cs at m
  unfolding reserve_from
  reserve_from_grows cfg in_set now [] at m = omega arith
  reserve_from_grows cfg in_set now (d ∷ cs) at m = omega (
    arith,
    reserve_from_grows cfg in_set now cs (at + 1) (
        if d.active
          && (not (in_set at)
              && (le (sub now d.last_req_s) cfg.reserve_idle_s && ltb m d.stream_mb))
        then d.stream_mb
        else m),
    kept_or_more m d.active (in_set at) (le (sub now d.last_req_s) cfg.reserve_idle_s) d.stream_mb,
  )

  pub reserve_from_covers :
      (cfg : Config F) (in_set : ℕ → Bool) (now : Double) (cs : List (Claim F)) (at m k i : ℕ)
      (c : Claim F)
      → i ≡ at + k
      → get_elem? cs k ≡ some c
      → Streams cfg now c
      → in_set i ≡ false
      → c.stream_mb ≤ reserve_from F cfg in_set now cs at m
  unfolding reserve_from
  reserve_from_covers cfg in_set now [] at m k i c there e s off = cc
  reserve_from_covers cfg in_set now (d ∷ cs) at m zero i c there e (on, recent) off =
      let same : d ≡ c = some-injective d c e in
      let is_at : i ≡ at = omega arith in
      let mb : d.stream_mb ≡ c.stream_mb = ap (λ x. x.stream_mb) same in
      let large =
        as_large m d.active (in_set at) (le (sub now d.last_req_s) cfg.reserve_idle_s) d.stream_mb
          (ap (λ x. x.active) same ∙ on)
          (ap (λ x. le (sub now x.last_req_s) cfg.reserve_idle_s) same ∙ recent)
          (sym (ap in_set is_at) ∙ off) in
      omega (
        arith,
        mb,
        large,
        reserve_from_grows cfg in_set now cs (at + 1) (
            if d.active
              && (not (in_set at)
                  && (le (sub now d.last_req_s) cfg.reserve_idle_s && ltb m d.stream_mb))
            then d.stream_mb
            else m),
      )
  reserve_from_covers cfg in_set now (d ∷ cs) at m (suc k) i c there e s off =
      reserve_from_covers cfg in_set now cs (at + 1)
        (if d.active
            && (not (in_set at)
                && (le (sub now d.last_req_s) cfg.reserve_idle_s && ltb m d.stream_mb))
          then d.stream_mb
          else m)
        k i c (omega arith) e s off

  -- The set fits: it is empty, or what it holds, what is kept free and the reserve are there.
  abbrev pub SetFits : Config F → Double → List (Claim F) → ℤ → (ℕ → Bool) → ℕ → Type 0
  SetFits cfg now claims capacity in_set used =
      ((i : ℕ) → in_set i ≡ false)
      ⊎ (pos used +ℤ cfg.keep_free_mb +ℤ pos (stream_reserve F cfg in_set now claims) ≤ℤ capacity)

  abbrev pub Result : Config F → Double → List (Claim F) → ℤ → (ℕ → Bool) → Type 0
  Result cfg now claims capacity s = SetFits cfg now claims capacity s (chosen_mb s claims 0)

  still_fresh :
      (f : ℕ → Bool) (i : ℕ) (xs : List (ℕ × Claim F))
      → All (λ y. i ≢ y.0) xs
      → All (λ x. f x.0 ≡ false) xs
      → All (λ x. update f i true x.0 ≡ false) xs
  still_fresh f i [] n h = tt
  still_fresh f i (x ∷ xs) (m, n) (e, h) =
      let other : (i == x.0) ≡ false = ground arith in (rw other e, still_fresh f i xs n h)

  -- A candidate that passed the test fits the larger capacity.
  enough :
      (cfg : Config F) (now : Double) (claims : List (Claim F)) (capacity capacity_new : ℤ)
      (in_set : ℕ → Bool) (used : ℕ) (c : Claim F)
      → capacity_new ≤ℤ capacity
      → leb_ℤ
          (need_of F cfg now claims in_set used c)
          (if c.admitted then capacity else capacity_new)
        ≡ true
      → pos (used + c.resident_mb)
          +ℤ cfg.keep_free_mb
          +ℤ pos (stream_reserve F cfg in_set now claims)
        ≤ℤ capacity
  enough cfg now claims capacity capacity_new in_set used c low ok =
      let need = need_of F cfg now claims in_set used c in
      let limit = if c.admitted then capacity else capacity_new in
      let within : need ≤ℤ limit = leb→le _ _ ok in
      let under : limit ≤ℤ capacity = elim (Bool-cases c.admitted) [
        | inl old ↦ rw old (omega arith)
        | inr new ↦ rw new low
      ] in
      subst (λ z. z +ℤ cfg.keep_free_mb +ℤ pos (stream_reserve F cfg in_set now claims) ≤ℤ capacity)
        (pos_sum used c.resident_mb) (≤ℤ_trans need limit capacity within under)

  pub pick-SetFits :
      (cfg : Config F) (now : Double) (claims : List (Claim F)) (capacity capacity_new : ℤ)
      (xs : List (ℕ × Claim F)) (in_set : ℕ → Bool) (used : ℕ)
      → capacity_new ≤ℤ capacity
      → All (Listed F claims) xs
      → Apart F xs
      → All (λ x. in_set x.0 ≡ false) xs
      → used ≡ chosen_mb in_set claims 0
      → SetFits cfg now claims capacity in_set used
      → SetFits cfg now claims capacity
          (pick F cfg now claims capacity capacity_new xs in_set used)
          (chosen_mb (pick F cfg now claims capacity capacity_new xs in_set used) claims 0)
  unfolding pick
  pick-SetFits cfg now claims capacity capacity_new [] in_set used low ls ap fresh sum fits =
      subst (SetFits cfg now claims capacity in_set) sum fits
  pick-SetFits cfg now claims capacity capacity_new (x ∷ xs) in_set used low ((at, on), ls)
        (n, apart) (off, fresh) sum fits =
      let tried = update in_set x.0 true in
      let limit = if x.1.admitted then capacity else capacity_new in
      let left =
        pick-SetFits cfg now claims capacity capacity_new xs in_set used low ls apart fresh sum
          fits in
      let more = chosen_mb_more in_set claims 0 x.0 x.0 x.1 (omega arith) at on off in
      choose (Result cfg now claims capacity) (eligible F cfg x.1 now)
        (leb_ℤ (need_of F cfg now claims tried used x.1) limit)
        (pick F cfg now claims capacity capacity_new xs tried (used + x.1.resident_mb))
        (pick F cfg now claims capacity capacity_new xs (update in_set x.0 false) used)
        (pick F cfg now claims capacity capacity_new xs in_set used)
        (λ ok.
          pick-SetFits cfg now claims capacity capacity_new xs tried (used + x.1.resident_mb) low ls
            apart (still_fresh in_set x.0 xs n fresh) (omega (arith, more, sum))
            (inr (enough cfg now claims capacity capacity_new tried used x.1 low ok)))
        (subst
          (λ f.
            Result cfg now claims capacity (pick F cfg now claims capacity capacity_new xs f used))
          (sym (update-false in_set x.0 off)) left)
        left
