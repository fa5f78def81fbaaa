-- ===== src/Vram/Charges/Spend.antt =====
-- The second half of `charges_locked` of src/ovram.c: a holder's growth is spent on its leases.
use omniserve_native.Prelude.{
  ℕ, zero, suc, ◌+◌, ◌-◌, ◌≤◌, ◌≡◌, refl, sym, ap, ◌∙◌, subst, inl, inr, Bool, true, false, ◌&&◌,
  ◌||◌, List, [], ◌∷◌, some, arith, Bool-cases, if◌then◌else◌, ◌==◌, get_elem?, set,
}
use mathlib.Core.Option.{some-injective}
use omniserve_native.Floats.{DoubleOps}
use omniserve_native.Vram.{Lease}
use omniserve_native.Vram.Charges.{Growth, is_known, credit, seen, spend}

module _ (F : DoubleOps) where
  -- What is left of the pid's growth.
  abbrev pub left_of : List Growth → ℕ → ℕ
  left_of [] pid = 0
  left_of (g ∷ gs) pid = if g.pid == pid then g.left else left_of gs pid

  abbrev pub Unique : List Growth → Type 0
  Unique [] = Unit
  Unique (g ∷ gs) = (seen F gs g.pid ≡ false) × Unique gs

  -- Whether this lease's holder is `pid` and its usage at the grant is known.
  abbrev pub is_of : ℕ → Lease F → Bool
  is_of pid l = is_known F l && l.pid == pid

  -- What the pid's leases are charged.
  abbrev pub charged : ℕ → List (Lease F) → List ℕ → ℕ
  charged pid [] cs = 0
  charged pid (l ∷ ls) [] = 0
  charged pid (l ∷ ls) (c ∷ cs) = (if is_of pid l then c else 0) + charged pid ls cs

  abbrev pub held_by : ℕ → ℕ × Lease F → ℕ
  held_by pid x = if x.1.pid == pid then x.1.mb else 0

  charged-set :
      (pid : ℕ) (ls : List (Lease F)) (cs : List ℕ) (i : ℕ) (l : Lease F) (a b : ℕ)
      → get_elem? ls i ≡ some l
      → is_of pid l ≡ true
      → get_elem? cs i ≡ some a
      → charged pid ls (set cs i b) + a ≡ charged pid ls cs + b
  charged-set pid [] cs i l a b e on at = cc
  charged-set pid (m ∷ ls) [] i l a b e on at = cc
  charged-set pid (m ∷ ls) (c ∷ cs) zero l a b e on at =
      let here : is_of pid m ≡ true = ap (is_of pid) (some-injective m l e) ∙ on in
      let was : c ≡ a = some-injective c a at in rw here (omega (arith, was))
  charged-set pid (m ∷ ls) (c ∷ cs) (suc i) l a b e on at =
      omega (arith, charged-set pid ls cs i l a b e on at)

  charged-set_other :
      (pid : ℕ) (ls : List (Lease F)) (cs : List ℕ) (i : ℕ) (l : Lease F) (b : ℕ)
      → get_elem? ls i ≡ some l
      → is_of pid l ≡ false
      → charged pid ls (set cs i b) ≡ charged pid ls cs
  charged-set_other pid [] cs i l b e off = refl
  charged-set_other pid (m ∷ ls) [] i l b e off = refl
  charged-set_other pid (m ∷ ls) (c ∷ cs) zero l b e off =
      let here : is_of pid m ≡ false = ap (is_of pid) (some-injective m l e) ∙ off in rw here refl
  charged-set_other pid (m ∷ ls) (c ∷ cs) (suc i) l b e off =
      omega (arith, charged-set_other pid ls cs i l b e off)

  -- What a lease takes of the table and what its charge is then.
  abbrev pub taken : List Growth → ℕ × Lease F → ℕ
  taken table x = credit F (left_of table x.1.pid) x.1.mb

  pub record Spent (table : List Growth) (x : ℕ × Lease F) (cs : List ℕ) (r : List Growth × List ℕ)
      : Type 0 where
    pub charges : r.1 ≡ (if seen F table x.1.pid then set cs x.0 (x.1.mb - taken table x) else cs)
    pub lefts :
        (q : ℕ) → left_of r.0 q ≡ left_of table q - (if q == x.1.pid then taken table x else 0)
    pub unique : Unique r.0
    pub same_seen : (q : ℕ) → seen F r.0 q ≡ seen F table q

  spend-unseen :
      (table : List Growth) (x : ℕ × Lease F) (cs : List ℕ)
      → seen F table x.1.pid ≡ false
      → spend F table x cs ≡ (table, cs)
  unfolding spend
  spend-unseen [] x cs h = refl
  spend-unseen (g ∷ gs) x cs h =
      let here : (g.pid == x.1.pid) ≡ false = ground arith in
      let rest = spend-unseen gs x cs (ground arith) in rw (here, rest) refl

  pub left_of-unseen : (table : List Growth) (q : ℕ) → seen F table q ≡ false → left_of table q ≡ 0
  left_of-unseen [] q h = refl
  left_of-unseen (g ∷ gs) q h =
      let here : (g.pid == q) ≡ false = ground arith in rw here (left_of-unseen gs q (ground arith))

  spend_here :
      (g : Growth) (gs : List Growth) (x : ℕ × Lease F) (cs : List ℕ)
      → (g.pid == x.1.pid) ≡ true
      → seen F gs x.1.pid ≡ false
      → spend F (g ∷ gs) x cs ≡ (
        record { pid = g.pid; left = g.left - credit F g.left x.1.mb } ∷ gs,
        set cs x.0 (x.1.mb - credit F g.left x.1.mb),
      )
  unfolding spend
  spend_here g gs x cs here alone =
      rw (here, spend-unseen gs x (set cs x.0 (x.1.mb - credit F g.left x.1.mb)) alone) refl

  spend_past :
      (g : Growth) (gs : List Growth) (x : ℕ × Lease F) (cs : List ℕ)
      → (g.pid == x.1.pid) ≡ false
      → spend F (g ∷ gs) x cs ≡ (g ∷ (spend F gs x cs).0, (spend F gs x cs).1)
  unfolding spend
  spend_past g gs x cs past = rw past refl

  same_pid : (a b q : ℕ) → (a == b) ≡ true → (a == q) ≡ (q == b)
  same_pid a b q e = ground arith

  pub spend-Spent :
      (table : List Growth) (x : ℕ × Lease F) (cs : List ℕ)
      → Unique table
      → Spent table x cs (spend F table x cs)
  unfolding spend
  spend-Spent [] x cs u = record {
    charges = refl;
    lefts = λ q. omega arith;
    unique = tt;
    same_seen = λ q. refl;
  }
  spend-Spent (g ∷ gs) x cs (alone, u) = elim (Bool-cases (g.pid == x.1.pid)) [
    | inl here ↦
        let pid_is : g.pid ≡ x.1.pid = ground arith in
        let alone_x : seen F gs x.1.pid ≡ false = ap (seen F gs) (sym pid_is) ∙ alone in
        subst (Spent (g ∷ gs) x cs) (sym (spend_here g gs x cs here alone_x)) (record {
          charges = rw here refl;
          lefts = λ q. elim (Bool-cases (q == x.1.pid)) [
            | inl mine ↦
                let it : (g.pid == q) ≡ true = same_pid g.pid x.1.pid q here ∙ mine in
                rw (it, mine, here) refl
            | inr other ↦
                let it : (g.pid == q) ≡ false = same_pid g.pid x.1.pid q here ∙ other in
                rw (it, other) (omega arith)
          ];
          unique = (alone, u);
          same_seen = λ q. refl;
        })
    | inr past ↦
        let rest = spend-Spent gs x cs u in
        subst (Spent (g ∷ gs) x cs) (sym (spend_past g gs x cs past)) (record {
          charges = rw past rest.charges;
          lefts = λ q. elim (Bool-cases (g.pid == q)) [
            | inl mine ↦
                let other : (q == x.1.pid) ≡ false = ground (arith, mine, past) in
                rw (mine, other) (omega arith)
            | inr other ↦ rw (other, past) (rest.lefts q)
          ];
          unique = (rest.same_seen g.pid ∙ alone, rest.unique);
          same_seen = λ q. ap (λ b. g.pid == q || b) (rest.same_seen q);
        })
  ]

  abbrev pub hits : ℕ → ℕ × Lease F → ℕ
  hits i x = if x.0 == i then 1 else 0

  -- The charge of the lease is its full one as yet.
  abbrev pub Unspent : List (Lease F) → List ℕ → ℕ × Lease F → Type 0
  Unspent ls cs x =
      (get_elem? ls x.0 ≡ some x.1) × (is_known F x.1 ≡ true) × (get_elem? cs x.0 ≡ some x.1.mb)

  -- One lease: what its holder's leases are charged falls by what it takes.
  pub charged-spend :
      (pid : ℕ) (ls : List (Lease F)) (cs : List ℕ) (table : List Growth) (x : ℕ × Lease F)
      → Unspent ls cs x
      → charged pid ls (if seen F table x.1.pid then set cs x.0 (x.1.mb - taken table x) else cs)
          + (if pid == x.1.pid then taken table x else 0)
        ≡ charged pid ls cs
  charged-spend pid ls cs table x (e, known, at) = elim (Bool-cases (seen F table x.1.pid)) [
    | inr out ↦ let nil = left_of-unseen table x.1.pid out in rw (out, nil) (ground arith)
    | inl listed ↦ elim (Bool-cases (pid == x.1.pid)) [
      | inl mine ↦
          let on : is_of pid x.1 ≡ true = ground (arith, known, mine) in
          let put = charged-set pid ls cs x.0 x.1 x.1.mb (x.1.mb - taken table x) e on at in
          let most : taken table x ≤ x.1.mb = ground arith in
          rw (listed, mine) (omega (arith, put, most))
      | inr other ↦
          let off : is_of pid x.1 ≡ false = ground (arith, other) in
          rw (listed, other)
            (omega (arith, charged-set_other pid ls cs x.0 x.1 (x.1.mb - taken table x) e off))
    ]
  ]
