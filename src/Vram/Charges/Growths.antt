-- ===== src/Vram/Charges/Growths.antt =====
-- The first loop of `charges_locked` of src/ovram.c: by how much each holder has grown since its
-- oldest lease.
use omniserve_native.Prelude.{
  ℕ, zero, suc, ◌-◌, ◌<◌, ◌≤◌, ◌≡◌, refl, ap, ◌∙◌, inl, inr, true, false, ◌&&◌, ◌||◌, List, [], ◌∷◌,
  ◌++◌, Option, none, some, arith, Bool-cases, Option-cases, if◌then◌else◌, min, ltb, ◌==◌,
  get_elem?, All,
}
use mathlib.Core.Option.{some-injective}
use omniserve_native.Floats.{DoubleOps}
use omniserve_native.Vram.{Lease, Vram}
use omniserve_native.Vram.Tables.{proc_used_locked}
use omniserve_native.Vram.Charges.{Growth, is_known, seen, oldest_base, base_or_0, grown}
use omniserve_native.Vram.Charges.Spend.{left_of, Unique, is_of}

abbrev pub lesser : ℕ → Option ℕ → ℕ
lesser b none = b
lesser b (some m) = min b m

module _ (F : DoubleOps) where
  -- The least usage at a grant, over the pid's leases.
  abbrev pub least_base : List (Lease F) → ℕ → Option ℕ
  least_base [] pid = none
  least_base (l ∷ ls) pid =
      if is_of F pid l
      then some (lesser (base_or_0 F l.base_mb) (least_base ls pid))
      else least_base ls pid

  -- By how much the pid has grown since.
  abbrev pub growth : Vram F → ℕ → ℕ
  growth v pid = elim (least_base v.leases pid) [
    | none ↦ 0
    | some base ↦ elim (proc_used_locked F v pid) [ none ↦ 0 | some now_mb ↦ now_mb - base ]
  ]

  oldest_base-least :
      (ls : List (Lease F)) (pid base : ℕ)
      → 0 < pid
      → oldest_base F ls pid base ≡ lesser base (least_base ls pid)
  unfolding oldest_base
  oldest_base-least [] pid base h = refl
  oldest_base-least (l ∷ ls) pid base h = elim (Bool-cases (l.active && l.pid == pid)) [
    | inr other ↦
        let off : is_of F pid l ≡ false = ground (arith, other) in
        rw (other, off) (oldest_base-least ls pid base h)
    | inl mine ↦ elim (Option-cases l.base_mb) [
      | inl e ↦
          let off : is_of F pid l ≡ false = rw e (ground arith) in
          rw (mine, off, e) (oldest_base-least ls pid base h)
      | inr (b, e) ↦
          let on : is_of F pid l ≡ true = rw e (ground (arith, mine, h)) in
          let rest = oldest_base-least ls pid (if ltb b base then b else base) h in
          rw (mine, on, e) (rest ∙ smaller b base (least_base ls pid))
    ]
  ]
    where
      smaller :
          (b base : ℕ) (o : Option ℕ)
          → lesser (if ltb b base then b else base) o ≡ min base (lesser b o)
      smaller b base none = ground arith
      smaller b base (some m) = ground arith

  least_base-bound :
      (ls : List (Lease F)) (k pid : ℕ) (l : Lease F)
      → get_elem? ls k ≡ some l
      → is_of F pid l ≡ true
      → (m : ℕ) × (least_base ls pid ≡ some m) × (m ≤ base_or_0 F l.base_mb)
  least_base-bound [] k pid l e on = cc
  least_base-bound (m ∷ ls) zero pid l e on =
      let same = some-injective m l e in
      let here : is_of F pid m ≡ true = ap (is_of F pid) same ∙ on in
      let base : base_or_0 F m.base_mb ≡ base_or_0 F l.base_mb =
        ap (λ x. base_or_0 F x.base_mb) same in
      (
        lesser (base_or_0 F m.base_mb) (least_base ls pid),
        rw here refl,
        omega (arith, base, below (base_or_0 F m.base_mb) (least_base ls pid)),
      )
    where
      below : (b : ℕ) (o : Option ℕ) → lesser b o ≤ b
      below b none = omega arith
      below b (some m) = omega arith
  least_base-bound (m ∷ ls) (suc k) pid l e on =
      let (n, is, most) = least_base-bound ls k pid l e on in
      elim (Bool-cases (is_of F pid m)) [
        | inl here ↦ (min (base_or_0 F m.base_mb) n, rw (here, is) refl, omega arith)
        | inr past ↦ (n, rw (past, is) refl, most)
      ]

  pub seen-snoc :
      (table : List Growth) (g : Growth) (q : ℕ)
      → seen F (table ++ g ∷ []) q ≡ (seen F table q || g.pid == q)
  seen-snoc [] g q = ground arith
  seen-snoc (h ∷ table) g q = ground (arith, seen-snoc table g q)

  pub Unique-snoc :
      (table : List Growth) (g : Growth)
      → Unique F table
      → seen F table g.pid ≡ false
      → Unique F (table ++ g ∷ [])
  Unique-snoc [] g u h = (refl, tt)
  Unique-snoc (k ∷ table) g (a, u) h =
      (seen-snoc table g k.pid ∙ ground (arith, a), Unique-snoc table g u (ground arith))

  -- Each entry is what its pid has grown by.
  pub record Right (v : Vram F) (table : List Growth) : Type 0 where
    pub unique : Unique F table
    pub exact : All (λ g. g.left ≡ growth v g.pid) table

  pub left_of-Right :
      (v : Vram F) (table : List Growth) (q : ℕ)
      → All (λ g. g.left ≡ growth v g.pid) table
      → seen F table q ≡ true
      → left_of F table q ≡ growth v q
  left_of-Right v [] q h s = cc
  left_of-Right v (g ∷ table) q (e, h) s = elim (Bool-cases (g.pid == q)) [
    | inl here ↦ let same : g.pid ≡ q = ground arith in rw here (e ∙ ap (growth v) same)
    | inr past ↦ rw past (left_of-Right v table q h (rw past at s))
  ]

  abbrev pub In : Vram F → Lease F → Type 0
  In v l = (k : ℕ) × (get_elem? v.leases k ≡ some l)

  growth_is :
      (v : Vram F) (q now_mb m : ℕ)
      → least_base v.leases q ≡ some m
      → proc_used_locked F v q ≡ some now_mb
      → growth v q ≡ now_mb - m
  growth_is v q now_mb m least used = rw (least, used, growth) refl

  -- The entry that a known lease adds.
  pub new_growth :
      (v : Vram F) (l : Lease F) (now_mb : ℕ)
      → In v l
      → is_known F l ≡ true
      → proc_used_locked F v l.pid ≡ some now_mb
      → grown F now_mb (oldest_base F v.leases l.pid (base_or_0 F l.base_mb)) ≡ growth v l.pid
  new_growth v l now_mb (k, e) known used =
      let self : is_of F l.pid l ≡ true = ground (arith, known) in
      let (m, least, most) = least_base-bound v.leases k l.pid l e self in
      let base : oldest_base F v.leases l.pid (base_or_0 F l.base_mb) ≡ m =
        oldest_base-least v.leases l.pid (base_or_0 F l.base_mb) (ground (arith, known))
        ∙ ap (lesser (base_or_0 F l.base_mb)) least
        ∙ omega arith in
      let is = growth_is v l.pid now_mb m least used in
      ap (grown F now_mb) base ∙ ground (arith, is)
