-- ===== src/Vram/Book/Sound.antt =====
-- What every operation of src/ovram.c keeps of the lease slots and their counters.
use omniserve_native.Prelude.{
  ℕ, zero, suc, ◌+◌, ◌<◌, ◌≡◌, refl, sym, ap, ◌∙◌, inl, inr, Bool, true, false, not, ◌&&◌, List, [],
  ◌∷◌, some, arith, if◌then◌else◌, get_elem?, set, map, length, length-map, length-set,
}
use mathlib.Core.Option.{some-injective}
use omniserve_native.Json.Children.{get_elem?-set}
use omniserve_native.Floats.{DoubleOps}
use omniserve_native.Vram.{Lease, Vram, max_leases}
use omniserve_native.Vram.Tables.{expire_lease, count_over, expire_locked}
use omniserve_native.Vram.Grant.{lease_id}
use omniserve_native.Vram.Ops.{active_leases, one_if}
use omniserve_native.Vram.Id.{lease_id-injective}

module _ (F : DoubleOps) where
  open F use {Double, lt, dec}

  -- The id of an active lease is that of a number given out.
  abbrev pub Numbered : List (Lease F) → ℕ → Type 0
  Numbered ls next =
      (i : ℕ) (l : Lease F)
      → get_elem? ls i ≡ some l
      → l.active ≡ true
      → (n : ℕ) × (n < next) × (l.id ≡ lease_id n)

  abbrev pub Distinct : List (Lease F) → Type 0
  Distinct ls =
      (i k : ℕ) (l m : Lease F)
      → get_elem? ls i ≡ some l
      → get_elem? ls k ≡ some m
      → l.active ≡ true
      → m.active ≡ true
      → l.id ≡ m.id
      → i ≡ k

  -- The slots, the number of the next id, and what is granted and given back so far.
  pub record Kept (ls : List (Lease F)) (next grants back : ℕ) : Type 0 where
    pub slots : length ls ≡ max_leases
    pub numbered : Numbered ls next
    pub distinct : Distinct ls
    pub balanced : grants ≡ back + active_leases F ls

  abbrev pub Good : Vram F → Type 0
  Good v = Kept v.leases v.next_id v.grants (v.releases + v.expirations)

  -- An element of a mapped list comes from one of the list.
  get_elem?-map :
      (f : Lease F → Lease F) (ls : List (Lease F)) (i : ℕ) (l : Lease F)
      → get_elem? (map f ls) i ≡ some l
      → (m : Lease F) × (get_elem? ls i ≡ some m) × (f m ≡ l)
  get_elem?-map f [] i l e = cc
  get_elem?-map f (x ∷ xs) zero l e = (x, refl, some-injective (f x) l e)
  get_elem?-map f (x ∷ xs) (suc i) l e = get_elem?-map f xs i l e

  still_active :
      (now : Double) (l m : Lease F)
      → expire_lease F now l ≡ m
      → m.active ≡ true
      → (l.active ≡ true) × (l.id ≡ m.id)
  still_active now l m e on = (was l (ap (λ x. x.active) e ∙ on), ap (λ x. x.id) e)
    where
      was : (l : Lease F) → (expire_lease F now l).active ≡ true → l.active ≡ true
      was l h = ground arith

  active_leases-expire :
      (now : Double) (ls : List (Lease F))
      → active_leases F ls ≡ count_over F now ls + active_leases F (map (expire_lease F now) ls)
  unfolding active_leases
  active_leases-expire now [] = refl
  active_leases-expire now (l ∷ ls) =
      let rest = active_leases-expire now ls in
      let here = split l.active (lt now l.expires_s) in omega (arith, rest, here)
    where
      split :
          (a b : Bool)
          → one_if F a ≡ (if a && not b then 1 else 0) + one_if F (if a && not b then false else a)
      split a b = ground arith

  pub expire_locked-Good : (v : Vram F) (now : Double) → Good v → Good (expire_locked F v now).0
  unfolding expire_locked
  expire_locked-Good v now g = record {
    slots = length-map v.leases (expire_lease F now) ∙ g.slots;
    numbered = λ i l e on.
        let (m, f, s) = get_elem?-map (expire_lease F now) v.leases i l e in
        let (was, same) = still_active now m l s on in
        let (n, below, is) = g.numbered i m f was in (n, below, sym same ∙ is);
    distinct = λ i k l m e f on off same.
        let (l', e', s) = get_elem?-map (expire_lease F now) v.leases i l e in
        let (m', f', t) = get_elem?-map (expire_lease F now) v.leases k m f in
        let (was, id) = still_active now l' l s on in
        let (was', id') = still_active now m' m t off in
        g.distinct i k l' m' e' f' was was' (id ∙ same ∙ sym id');
    balanced = omega (arith, g.balanced, active_leases-expire now v.leases);
  }

  active_leases-set :
      (ls : List (Lease F)) (i : ℕ) (x y : Lease F)
      → get_elem? ls i ≡ some x
      → active_leases F (set ls i y) + one_if F x.active ≡ active_leases F ls + one_if F y.active
  unfolding active_leases
  active_leases-set [] i x y e = cc
  active_leases-set (l ∷ ls) zero x y e =
      let same : one_if F l.active ≡ one_if F x.active =
        ap (λ m. one_if F m.active) (some-injective l x e) in
      omega (arith, same)
  active_leases-set (l ∷ ls) (suc i) x y e = omega (arith, active_leases-set ls i x y e)

  -- Where an active lease was before a write that keeps the id.
  came_from :
      (ls : List (Lease F)) (i : ℕ) (x y : Lease F)
      → get_elem? ls i ≡ some x
      → x.active ≡ true
      → y.id ≡ x.id
      → (k : ℕ) (l : Lease F) → get_elem? (set ls i y) k ≡ some l
      → l.active ≡ true
      → (m : Lease F) × (get_elem? ls k ≡ some m) × (m.active ≡ true) × (m.id ≡ l.id)
  came_from ls i x y e was same k l f on = elim (get_elem?-set ls i y k f) [
    | inl (at, is) ↦
        (x, ap (get_elem? ls) at ∙ e, was, sym same ∙ ap (λ m. m.id) (some-injective y l is))
    | inr (off, f') ↦ (l, f', on, refl)
  ]

  -- A lease is written over without a new id.
  pub set-Kept :
      (ls : List (Lease F)) (next grants back i : ℕ) (x y : Lease F)
      → Kept ls next grants back
      → get_elem? ls i ≡ some x
      → x.active ≡ true
      → y.id ≡ x.id
      → Kept (set ls i y) next grants (back + (if y.active then 0 else 1))
  set-Kept ls next grants back i x y g e was same = record {
    slots = length-set ls i y ∙ g.slots;
    numbered = λ k l f on.
        let (m, f', on', id) = came_from ls i x y e was same k l f on in
        let (n, below, is) = g.numbered k m f' on' in (n, below, sym id ∙ is);
    distinct = λ k j l m f h on on' ids.
        let (l', f', a, id) = came_from ls i x y e was same k l f on in
        let (m', h', b, id') = came_from ls i x y e was same j m h on' in
        g.distinct k j l' m' f' h' a b (id ∙ ids ∙ sym id');
    balanced =
        let one : one_if F x.active ≡ 1 = ap (one_if F) was in
        let two : one_if F y.active + (if y.active then 0 else 1) ≡ 1 = ground arith in
        omega (arith, g.balanced, active_leases-set ls i x y e, one, two);
  }

  -- A free slot gets a lease with the next id.
  pub grant-Kept :
      (ls : List (Lease F)) (next grants back i : ℕ) (x y : Lease F)
      → Kept ls next grants back
      → get_elem? ls i ≡ some x
      → x.active ≡ false
      → y.id ≡ lease_id next
      → y.active ≡ true
      → Kept (set ls i y) (next + 1) (grants + 1) back
  grant-Kept ls next grants back i x y g e was is on = record {
    slots = length-set ls i y ∙ g.slots;
    numbered = λ k l f live. elim (get_elem?-set ls i y k f) [
      | inl (at, same) ↦ (next, omega arith, ap (λ m. m.id) (sym (some-injective y l same)) ∙ is)
      | inr (off, f') ↦ let (n, below, id) = g.numbered k l f' live in (n, omega arith, id)
    ];
    distinct = λ k j l m f h a b ids. elim (get_elem?-set ls i y k f) [
      | inl (at, same) ↦ elim (get_elem?-set ls i y j h) [
        | inl (at', same') ↦ at ∙ sym at'
        | inr (off, h') ↦
            absurd (fresh j m h' b (sym ids ∙ ap (λ n. n.id) (sym (some-injective y l same))))
      ]
      | inr (off, f') ↦ elim (get_elem?-set ls i y j h) [
        | inl (at', same') ↦
            absurd (fresh k l f' a (ids ∙ ap (λ n. n.id) (sym (some-injective y m same'))))
        | inr (off', h') ↦ g.distinct k j l m f' h' a b ids
      ]
    ];
    balanced =
        let zero_ : one_if F x.active ≡ 0 = ap (one_if F) was in
        let one : one_if F y.active ≡ 1 = ap (one_if F) on in
        omega (arith, g.balanced, active_leases-set ls i x y e, zero_, one);
  }
    where
      fresh : (j : ℕ) (m : Lease F) → get_elem? ls j ≡ some m → m.active ≡ true → m.id ≡ y.id → ⊥
      fresh j m h b ids =
          let (n, below, id) = g.numbered j m h b in
          let same = lease_id-injective n next (sym id ∙ ids ∙ is) in omega (arith, same)
