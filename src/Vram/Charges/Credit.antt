-- ===== src/Vram/Charges/Credit.antt =====
-- `charges_locked` of src/ovram.c against its description: what a holder has grown by since its
-- oldest lease is taken off what its leases hold.
use omniserve_native.Prelude.{
  ℕ, zero, suc, ◌+◌, ◌-◌, ◌≤◌, ◌≡◌, ◌≢◌, refl, sym, ap, ◌∙◌, inl, inr, Bool, true, false, List, [],
  ◌∷◌, some, arith, Bool-cases, if◌then◌else◌, ltb, get_elem?, set, All, All-map, get_elem?-set_ne,
  sum_by, map,
}
use mathlib.Core.Option.{some-injective}
use omniserve_native.Floats.{DoubleOps}
use omniserve_native.Vram.{Lease, Vram}
use omniserve_native.Vram.Charges.{
  Growth, is_known, seen, spend, hand_out, by_grant, known_from, full_charge, growth_from,
  charges_locked,
}
use omniserve_native.Vram.Charges.Spend.{
  Unique, charged, held_by, hits, Unspent, spend-Spent, taken,
}
use omniserve_native.Vram.Charges.HandOut.{by_grant-sum, by_grant-All, hand_out-charged}
use omniserve_native.Vram.Charges.Growths.{growth, Right}
use omniserve_native.Vram.Charges.Built.{left_of-growth, growth_from-Right, each}

module _ (F : DoubleOps) where
  get_elem?-full :
      (ls : List (Lease F)) (k : ℕ) (l : Lease F)
      → get_elem? ls k ≡ some l
      → get_elem? (map (full_charge F) ls) k ≡ some (full_charge F l)
  get_elem?-full [] k l e = cc
  get_elem?-full (m ∷ ls) zero l e = ap (λ x. some (full_charge F x)) (some-injective m l e)
  get_elem?-full (m ∷ ls) (suc k) l e = get_elem?-full ls k l e

  abbrev Listed : List (Lease F) → ℕ × Lease F → Type 0
  Listed all x = (get_elem? all x.0 ≡ some x.1) × (is_known F x.1 ≡ true)

  known_from-Listed :
      (all ls : List (Lease F)) (i : ℕ)
      → ((k : ℕ) → get_elem? all (i + k) ≡ get_elem? ls k)
      → All (Listed all) (known_from F ls i)
  unfolding known_from
  known_from-Listed all [] i h = tt
  known_from-Listed all (l ∷ ls) i h =
      let rest =
        known_from-Listed all ls (i + 1) (λ k. ap (get_elem? all) (omega arith) ∙ h (suc k)) in
      elim (Bool-cases (is_known F l)) [
        | inr off ↦ rw off rest
        | inl on ↦ rw on ((ap (get_elem? all) (omega arith) ∙ h 0, on), rest)
      ]

  known_from-hits :
      (ls : List (Lease F)) (i j : ℕ)
      → sum_by (hits F j) (known_from F ls i) ≤ (if ltb j i then 0 else 1)
  unfolding known_from
  known_from-hits [] i j = ground arith
  known_from-hits (l ∷ ls) i j =
      let rest = known_from-hits ls (i + 1) j in
      elim (Bool-cases (is_known F l)) [
        | inr off ↦ rw off (ground (arith, rest))
        | inl on ↦ rw on (ground (arith, rest))
      ]

  known_from-held :
      (pid : ℕ) (ls : List (Lease F)) (i : ℕ)
      → sum_by (held_by F pid) (known_from F ls i) ≡ charged F pid ls (map (full_charge F) ls)
  unfolding known_from
  known_from-held pid [] i = refl
  known_from-held pid (l ∷ ls) i =
      let rest = known_from-held pid ls (i + 1) in
      elim (Bool-cases (is_known F l)) [
        | inr off ↦ rw off (omega (arith, rest))
        | inl on ↦
            let active : l.active ≡ true = ground arith in rw (on, active) (ground (arith, rest))
      ]

  spend_ne :
      (table : List Growth) (x : ℕ × Lease F) (cs : List ℕ) (i : ℕ)
      → Unique F table
      → i ≢ x.0
      → get_elem? (spend F table x cs).1 i ≡ get_elem? cs i
  spend_ne table x cs i u n =
      ap (λ c. get_elem? c i) (spend-Spent F table x cs u).charges ∙ other (seen F table x.1.pid)
    where
      other :
          (b : Bool)
          → get_elem? (if b then set cs x.0 (x.1.mb - taken F table x) else cs) i ≡ get_elem? cs i
      other false = refl
      other true = get_elem?-set_ne cs (x.1.mb - taken F table x) (λ e. n (sym e))

  hand_out_ne :
      (xs : List (ℕ × Lease F)) (table : List Growth) (cs : List ℕ) (i : ℕ)
      → Unique F table
      → All (λ x. i ≢ x.0) xs
      → get_elem? (hand_out F xs table cs) i ≡ get_elem? cs i
  unfolding hand_out
  hand_out_ne [] table cs i u h = refl
  hand_out_ne (x ∷ xs) table cs i u (n, h) =
      hand_out_ne xs (spend F table x cs).0 (spend F table x cs).1 i
        (spend-Spent F table x cs u).unique h
      ∙ spend_ne table x cs i u n

  le_one : (n : ℕ) (b : Bool) → n ≤ (if b then 0 else 1) → n ≤ 1
  le_one n b h = ground arith

  at_0 : (v : Vram F) → All (Listed v.leases) (known_from F v.leases 0)
  at_0 v = known_from-Listed v.leases v.leases 0 (λ k. ap (get_elem? v.leases) (omega arith))

  table_of : (v : Vram F) → Right F v (growth_from F v v.leases [])
  table_of v =
      growth_from-Right F v v.leases [] (each F v.leases) (record { unique = tt; exact = tt })

  unspent :
      (v : Vram F) (x : ℕ × Lease F)
      → Listed v.leases x
      → Unspent F v.leases (map (full_charge F) v.leases) x
  unspent v x (e, known) =
      let active : x.1.active ≡ true = ground arith in
      let full : full_charge F x.1 ≡ x.1.mb = rw active refl in
      (e, known, get_elem?-full v.leases x.0 x.1 e ∙ ap some full)

  -- What a pid's leases are charged together is what they hold, less what the pid has grown by since
  -- the least usage at a grant of them, and not below 0; this is about the active leases with a pid
  -- and a known usage at their grant.
  pub charges_locked-charged :
      (v : Vram F) (pid : ℕ)
      → charged F pid v.leases (charges_locked F v)
        ≡ charged F pid v.leases (map (full_charge F) v.leases) - growth F v pid
  unfolding charges_locked
  charges_locked-charged v pid =
      let full = map (full_charge F) v.leases in
      let known = known_from F v.leases 0 in
      let all =
        hand_out-charged F pid v.leases (by_grant F known) (growth_from F v v.leases []) full
          (table_of v).unique
          (by_grant-All F (Unspent F v.leases full) known
            (All-map (Listed v.leases) (Unspent F v.leases full) (unspent v) known (at_0 v)))
          (λ i. omega (
            arith,
            by_grant-sum F (hits F i) known,
            le_one (sum_by (hits F i) known) (ltb i 0) (known_from-hits v.leases 0 i),
          )) in
      omega (
        arith,
        all,
        left_of-growth F v pid,
        by_grant-sum F (held_by F pid) known,
        known_from-held pid v.leases 0,
      )

  -- Any other lease is charged in full.
  pub charges_locked-full :
      (v : Vram F) (i : ℕ) (l : Lease F)
      → get_elem? v.leases i ≡ some l
      → is_known F l ≡ false
      → get_elem? (charges_locked F v) i ≡ some (full_charge F l)
  unfolding charges_locked
  charges_locked-full v i l e off =
      let known = known_from F v.leases 0 in
      hand_out_ne (by_grant F known) (growth_from F v v.leases []) (map (full_charge F) v.leases) i
        (table_of v).unique
        (by_grant-All F (λ x. i ≢ x.0) known
          (All-map (Listed v.leases) (λ x. i ≢ x.0)
            (λ x (f, on) same.
              let found : some l ≡ some x.1 = sym e ∙ ap (get_elem? v.leases) same ∙ f in
              let is : l ≡ x.1 = some-injective l x.1 found in
              let twice : is_known F l ≡ true = ap (is_known F) is ∙ on in cc)
            known (at_0 v)))
      ∙ get_elem?-full v.leases i l e
