-- ===== src/Residency/Broker/Fits.antt =====
-- The memory contract of `admit_all` of src/oresidency.c.
use omniserve_native.Prelude.{
  ℕ, zero, suc, ◌+◌, ◌≤◌, ◌≡◌, refl, sym, ap, ◌∙◌, subst, ◌⊎◌, inl, inr, Bool, true, false, ◌&&◌,
  List, [], ◌∷◌, some, arith, Bool-cases, if◌then◌else◌, get_elem?, take, All, map,
}
use mathlib.Core.Option.{some-injective}
use omniserve_native.Prelude.Int.{ℤ, pos, pos_part, neg_part, ◌+ℤ◌, ◌-ℤ◌, ◌≤ℤ◌, ltb_ℤ}
use omniserve_native.Floats.{DoubleOps}
use omniserve_native.Residency.{
  Config, Claim, Ores, stream_reserve, window_min, window_min_free, note_free,
}
use omniserve_native.Residency.Broker.{
  held, candidates, sorted, reversed, settle, settle_all, chosen, refresh, admit_all,
}
use omniserve_native.Residency.Broker.Order.{order-Listed}
use omniserve_native.Residency.Broker.Capacity.{
  sub_ℕ_lem, Result, Streams, pick-SetFits, chosen_mb, reserve_from_covers, chosen_mb_none,
  ≤ℤ_trans,
}

-- A smaller amount, less the margin, is still the smaller one with the held memory added.
newcomer_lower : (m d h : ℤ) (k : ℕ) → m ≤ℤ d → pos 0 ≤ℤ h → (m -ℤ h) +ℤ pos k ≤ℤ d +ℤ pos k
unfolding ◌+ℤ◌ ◌-ℤ◌
newcomer_lower m d h k low pos_h =
    let a = sub_ℕ_lem (pos_part m + neg_part h) (neg_part m + pos_part h) in
    let b = sub_ℕ_lem (pos_part (m -ℤ h) + k) (neg_part (m -ℤ h) + 0) in
    let c = sub_ℕ_lem (pos_part d + k) (neg_part d + 0) in omega (arith, a, b, c)

-- More is needed with more in the set.
with_less :
    (a b k r : ℕ) (keep cap : ℤ)
    → a ≡ b
    → k ≤ r
    → pos a +ℤ keep +ℤ pos r ≤ℤ cap
    → pos (b + k) +ℤ keep ≤ℤ cap
unfolding ◌+ℤ◌
with_less a b k r keep cap same less h =
    let p = sub_ℕ_lem (a + pos_part keep) (0 + neg_part keep) in
    let q = sub_ℕ_lem (pos_part (pos a +ℤ keep) + r) (neg_part (pos a +ℤ keep) + 0) in
    let s = sub_ℕ_lem (b + k + pos_part keep) (0 + neg_part keep) in omega (arith, p, q, s)

lower_of : (a : Bool) (x m : ℤ) → (if a && ltb_ℤ x m then x else m) ≤ℤ m
lower_of true x m = ground arith
lower_of false x m = omega arith

module _ (F : DoubleOps) where
  open F use {Double, dec, sub, le, lt}

  window_min_low :
      (cfg : Config F) (now : Double) (es : List (Double × ℤ)) (m : ℤ)
      → window_min F cfg now es m ≤ℤ m
  unfolding window_min
  window_min_low cfg now [] m = omega arith
  window_min_low cfg now (e ∷ es) m =
      let next = if le (sub now e.0) cfg.free_window_s && ltb_ℤ e.1 m then e.1 else m in
      ≤ℤ_trans (window_min F cfg now es next) next m (window_min_low cfg now es next)
        (lower_of (le (sub now e.0) cfg.free_window_s) e.1 m)

  -- The set of `admit_all` fits the device.
  chosen-SetFits :
      (r : Ores F) (now : Double) (free : ℤ) (claims : List (Claim F))
      → pos 0 ≤ℤ r.cfg.hysteresis_mb
      → Result F r.cfg now claims (free +ℤ pos (held F claims)) (chosen F r now free claims)
  unfolding chosen window_min_free
  chosen-SetFits r now free claims margin = elim (Bool-cases (ltb_ℤ free (pos 0))) [
    | inl blind ↦ rw (blind, chosen) (inl (λ i. refl))
    | inr seen ↦
        let order = reversed F (sorted F r.cfg now [] (candidates F claims 0)) [] in
        let (listed, apart) = order-Listed F r.cfg now claims in
        rw (seen, chosen)
          (pick-SetFits F r.cfg now claims (free +ℤ pos (held F claims))
            (window_min_free F r now free -ℤ r.cfg.hysteresis_mb +ℤ pos (held F claims)) order
            (λ _. false) 0
            (newcomer_lower (window_min_free F r now free) free r.cfg.hysteresis_mb (held F claims)
              (window_min_low r.cfg now (take r.free_n r.free_log) free) margin)
            listed apart (none_yet order) (sym (chosen_mb_none F claims 0)) (inl (λ i. refl)))
  ]
    where
      none_yet : (xs : List (ℕ × Claim F)) → All (λ x. false ≡ false) xs
      none_yet [] = tt
      none_yet (x ∷ xs) = (refl, none_yet xs)

  -- The memory of the admitted claims.
  abbrev pub admitted_mb : List (Claim F) → ℕ
  admitted_mb [] = 0
  admitted_mb (c ∷ cs) = (if c.active && c.admitted then c.resident_mb else 0) + admitted_mb cs

  settled_mb :
      (cfg : Config F) (now : Double) (b : Bool) (c : Claim F)
      → ((if (settle F cfg now b c).active && (settle F cfg now b c).admitted
            then (settle F cfg now b c).resident_mb
            else 0)
          ≡ (if c.active && b then c.resident_mb else 0))
        × ((if (settle F cfg now b c).active && (settle F cfg now b c).resident
              then (settle F cfg now b c).resident_mb
              else 0)
            ≡ (if c.active && c.resident then c.resident_mb else 0))
  unfolding settle
  settled_mb cfg now b c = elim (Bool-cases c.active) [
    | inr off ↦ rw (off, settle) (refl, refl)
    | inl on ↦ elim (Bool-cases b) [
      | inl in_set ↦ rw (on, in_set, settle) (refl, refl)
      | inr out ↦ elim (Bool-cases c.admitted) [
        | inl old ↦ rw (on, out, old, settle) (refl, refl)
        | inr new ↦ rw (on, out, new, settle) (refl, refl)
      ]
    ]
  ]

  settled_all :
      (cfg : Config F) (now : Double) (s : ℕ → Bool) (cs : List (Claim F)) (at : ℕ)
      → (admitted_mb (settle_all F cfg now s cs at) ≡ chosen_mb F s cs at)
        × (held F (settle_all F cfg now s cs at) ≡ held F cs)
  settled_all cfg now s [] at = (refl, refl)
  settled_all cfg now s (c ∷ cs) at =
      let (one, two) = settled_mb cfg now (s at) c in
      let (ones, twos) = settled_all cfg now s cs (at + 1) in
      (omega (arith, one, ones), omega (arith, two, twos))

  settle_keeps :
      (cfg : Config F) (now : Double) (b : Bool) (c : Claim F)
      → (c.active ≡ (settle F cfg now b c).active)
        × (c.last_req_s ≡ (settle F cfg now b c).last_req_s)
        × (c.stream_mb ≡ (settle F cfg now b c).stream_mb)
        × (c.active ≡ true → (settle F cfg now b c).admitted ≡ b)
  unfolding settle
  settle_keeps cfg now b c = elim (Bool-cases c.active) [
    | inr off ↦ rw (off, settle) (refl, refl, refl, λ h. cc)
    | inl on ↦ elim (Bool-cases b) [
      | inl in_set ↦ rw (on, in_set, settle) (refl, refl, refl, λ h. refl)
      | inr out ↦ elim (Bool-cases c.admitted) [
        | inl old ↦ rw (on, out, old, settle) (refl, refl, refl, λ h. refl)
        | inr new ↦ rw (on, out, new, settle) (refl, refl, refl, λ h. refl)
      ]
    ]
  ]

  -- An active claim after the settlement comes from an active one, and is admitted if it was chosen.
  settled-from :
      (cfg : Config F) (now : Double) (s : ℕ → Bool) (cs : List (Claim F)) (at k i : ℕ)
      (d : Claim F)
      → i ≡ at + k
      → get_elem? (settle_all F cfg now s cs at) k ≡ some d
      → d.active ≡ true
      → (c : Claim F) × (get_elem? cs k ≡ some c)
        × (c.active ≡ true)
        × (c.last_req_s ≡ d.last_req_s)
        × (c.stream_mb ≡ d.stream_mb)
        × (d.admitted ≡ s i)
  settled-from cfg now s [] at k i d there e on = cc
  settled-from cfg now s (c ∷ cs) at zero i d there e on =
      let same = some-injective (settle F cfg now (s at) c) d e in
      let is_at : i ≡ at = omega arith in
      subst
        (λ x.
          x.active ≡ true
          → (b : Claim F) × (some c ≡ some b)
            × (b.active ≡ true)
            × (b.last_req_s ≡ x.last_req_s)
            × (b.stream_mb ≡ x.stream_mb)
            × (x.admitted ≡ s i))
        same
        (λ active.
          let (act, req, mb, adm) = settle_keeps cfg now (s at) c in
          (c, refl, act ∙ active, req, mb, adm (act ∙ active) ∙ ap s (sym is_at)))
        on
  settled-from cfg now s (c ∷ cs) at (suc k) i d there e on =
      settled-from cfg now s cs (at + 1) k i d (omega arith) e on

  -- An amount that is left for streaming: nothing, or what one recently used claim needs that is
  -- not admitted.
  unfoldable pub LeftFor : Config F → Double → List (Claim F) → ℕ → Type 0
  LeftFor cfg now claims mb =
      (mb ≡ 0)
      ⊎ ((k : ℕ) × (c : Claim F) × (get_elem? claims k ≡ some c)
          × Streams F cfg now c
          × (c.admitted ≡ false)
          × (mb ≡ c.stream_mb))

  -- The admitted claims, what is kept free and any one streamed render fit what is free together
  -- with what is held, or no claim is admitted.
  unfoldable pub Fits : Config F → Double → ℤ → List (Claim F) → Type 0
  Fits cfg now free claims =
      ((k : ℕ) (c : Claim F) → get_elem? claims k ≡ some c → c.active ≡ true → c.admitted ≡ false)
      ⊎ ((mb : ℕ)
          → LeftFor cfg now claims mb
          → pos (admitted_mb claims + mb) +ℤ cfg.keep_free_mb ≤ℤ free +ℤ pos (held F claims))

  settle_all-Fits :
      (cfg : Config F) (now : Double) (free : ℤ) (s : ℕ → Bool) (cs : List (Claim F))
      → Result F cfg now cs (free +ℤ pos (held F cs)) s
      → Fits cfg now free (settle_all F cfg now s cs 0)
  unfolding Fits LeftFor
  settle_all-Fits cfg now free s cs (inl empty) = inl (λ k c e on.
      let (b, from, act, req, mb, adm) = settled-from cfg now s cs 0 k k c (omega arith) e on in
      adm ∙ empty k)
  settle_all-Fits cfg now free s cs (inr fits) =
      let (ones, twos) = settled_all cfg now s cs 0 in
      inr (λ mb left. rw twos (
        with_less (chosen_mb F s cs 0) (admitted_mb (settle_all F cfg now s cs 0)) mb
          (stream_reserve F cfg s now cs) cfg.keep_free_mb (free +ℤ pos (held F cs)) (sym ones)
          (elim left [
            | inl nothing ↦ omega (arith, nothing)
            | inr (k, c, e, (on, recent), out, is_mb) ↦
                let (b, from, act, req, stream, adm) =
                  settled-from cfg now s cs 0 k k c (omega arith) e on in
                omega (
                  arith,
                  is_mb,
                  stream,
                  reserve_from_covers F cfg s now cs 0 0 k k b (omega arith) from
                      (act, ap (λ x. le (sub now x) cfg.reserve_idle_s) req ∙ recent)
                      (sym adm ∙ out),
                )
          ])
          fits))

  -- After `admit_all`, with a margin that is not negative, the admitted claims, the memory kept
  -- free and one streamed render of any recently used claim that is not admitted fit what the
  -- device has free and the resident claims hold, unless no active claim is admitted.
  pub admit_all-Fits :
      (exp2 : Double → Double) (r : Ores F) (now : Double) (free : ℤ)
      → pos 0 ≤ℤ r.cfg.hysteresis_mb
      → Fits r.cfg now free (admit_all F exp2 r now free).claims
  unfolding admit_all note_free
  admit_all-Fits exp2 r now free margin =
      let claims = map (refresh F exp2 r.cfg now) r.claims in
      let noted = note_free F r now free in
      let same : noted.cfg ≡ r.cfg = note_free-cfg r now free in
      let sets = chosen-SetFits noted now free claims (rw same margin) in
      settle_all-Fits r.cfg now free (chosen F noted now free claims) claims (
        subst
          (λ cfg.
            Result F cfg now claims (free +ℤ pos (held F claims)) (chosen F noted now free claims))
          same sets)
    where
      note_free-cfg : (r : Ores F) (now : Double) (free : ℤ) → (note_free F r now free).cfg ≡ r.cfg
      note_free-cfg r now free = elim (Bool-cases (ltb_ℤ free (pos 0))) [
        | inl blind ↦ rw (blind, note_free) refl
        | inr seen ↦ rw (seen, note_free) refl
      ]
