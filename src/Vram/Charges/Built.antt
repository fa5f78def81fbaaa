-- ===== src/Vram/Charges/Built.antt =====
-- The table of `charges_locked` of src/ovram.c, once the first loop is over.
use omniserve_native.Prelude.{
  ℕ, suc, ◌≡◌, refl, sym, ap, ◌∙◌, ◌⊎◌, inl, inr, true, false, not, ◌&&◌, List, [], ◌∷◌, none, some,
  arith, Bool-cases, Option-cases, get_elem?, All, All-append, All-map,
}
use omniserve_native.Floats.{DoubleOps}
use omniserve_native.Vram.{Lease, Vram}
use omniserve_native.Vram.Tables.{proc_used_locked}
use omniserve_native.Vram.Charges.{
  Growth, is_known, seen, oldest_base, base_or_0, grown, growth_of, growth_from,
}
use omniserve_native.Vram.Charges.Spend.{left_of, is_of, left_of-unseen}
use omniserve_native.Vram.Charges.Growths.{
  least_base, growth, seen-snoc, Unique-snoc, Right, left_of-Right, In, new_growth,
}

module _ (F : DoubleOps) where
  growth_of-Right :
      (v : Vram F) (l : Lease F) (table : List Growth)
      → In F v l
      → Right F v table
      → Right F v (growth_of F v l table)
  unfolding growth_of
  growth_of-Right v l table here r = elim (Bool-cases (is_known F l && not (seen F table l.pid))) [
    | inr off ↦ rw (off, growth_of) r
    | inl new ↦ elim (Option-cases (proc_used_locked F v l.pid)) [
      | inl e ↦ rw (new, e, growth_of) r
      | inr (now_mb, e) ↦
          let g : Growth = record {
            pid = l.pid;
            left = grown F now_mb (oldest_base F v.leases l.pid (base_or_0 F l.base_mb));
          } in
          rw (new, e, growth_of)
            (record {
              unique = Unique-snoc F table g r.unique (ground (arith, new));
              exact =
                  All-append (λ g. g.left ≡ growth F v g.pid) table (g ∷ []) r.exact
                    (new_growth F v l now_mb here (ground (arith, new)) e, tt);
            })
    ]
  ]

  pub growth_from-Right :
      (v : Vram F) (ls : List (Lease F)) (table : List Growth)
      → All (In F v) ls
      → Right F v table
      → Right F v (growth_from F v ls table)
  unfolding growth_from
  growth_from-Right v [] table h r = r
  growth_from-Right v (l ∷ ls) table (i, h) r =
      growth_from-Right v ls (growth_of F v l table) h (growth_of-Right v l table i r)

  seen-growth_of :
      (v : Vram F) (l : Lease F) (table : List Growth) (q : ℕ)
      → seen F table q ≡ true
      → seen F (growth_of F v l table) q ≡ true
  unfolding growth_of
  seen-growth_of v l table q s = elim (Bool-cases (is_known F l && not (seen F table l.pid))) [
    | inr off ↦ rw (off, growth_of) s
    | inl new ↦ elim (Option-cases (proc_used_locked F v l.pid)) [
      | inl e ↦ rw (new, e, growth_of) s
      | inr (now_mb, e) ↦
          rw (new, e, growth_of)
            (seen-snoc F table
                (record {
                  pid = l.pid;
                  left = grown F now_mb (oldest_base F v.leases l.pid (base_or_0 F l.base_mb));
                })
                q
              ∙ ground (arith, s))
    ]
  ]

  seen-growth_from :
      (v : Vram F) (ls : List (Lease F)) (table : List Growth) (q : ℕ)
      → seen F table q ≡ true
      → seen F (growth_from F v ls table) q ≡ true
  unfolding growth_from
  seen-growth_from v [] table q s = s
  seen-growth_from v (l ∷ ls) table q s =
      seen-growth_from v ls (growth_of F v l table) q (seen-growth_of v l table q s)

  -- A pid without an entry is not on the device table, or has no known lease.
  growth_of-seen :
      (v : Vram F) (l : Lease F) (table : List Growth) (q : ℕ)
      → is_of F q l ≡ true
      → (seen F (growth_of F v l table) q ≡ true) ⊎ (proc_used_locked F v q ≡ none)
  unfolding growth_of
  growth_of-seen v l table q on =
      let same : l.pid ≡ q = ground (arith, on) in
      elim (Bool-cases (is_known F l && not (seen F table l.pid))) [
        | inr off ↦
            let listed : seen F table l.pid ≡ true = ground (arith, on, off) in
            rw (off, growth_of) (inl (ap (seen F table) (sym same) ∙ listed))
        | inl new ↦ elim (Option-cases (proc_used_locked F v l.pid)) [
          | inl e ↦ inr (ap (proc_used_locked F v) (sym same) ∙ e)
          | inr (now_mb, e) ↦
              rw (new, e, growth_of)
                (inl (
                  seen-snoc F table
                    (record {
                      pid = l.pid;
                      left = grown F now_mb (oldest_base F v.leases l.pid (base_or_0 F l.base_mb));
                    })
                    q
                  ∙ ground (arith, same)))
        ]
      ]

  unseen :
      (v : Vram F) (ls : List (Lease F)) (table : List Growth) (q : ℕ)
      → seen F (growth_from F v ls table) q ≡ false
      → (proc_used_locked F v q ≡ none) ⊎ (least_base F ls q ≡ none)
  unfolding growth_from
  unseen v [] table q s = inr refl
  unseen v (l ∷ ls) table q s = elim (unseen v ls (growth_of F v l table) q s) [
    | inl e ↦ inl e
    | inr e ↦ elim (Bool-cases (is_of F q l)) [
      | inr past ↦ inr (rw past e)
      | inl on ↦ elim (growth_of-seen v l table q on) [
        | inr e ↦ inl e
        | inl s' ↦ let still = seen-growth_from v ls (growth_of F v l table) q s' in cc
      ]
    ]
  ]

  pub each : (ls : List (Lease F)) → All (λ l. (k : ℕ) × (get_elem? ls k ≡ some l)) ls
  each [] = tt
  each (l ∷ ls) = (
    (0, refl),
    All-map (λ m. (k : ℕ) × (get_elem? ls k ≡ some m))
        (λ m. (k : ℕ) × (get_elem? (l ∷ ls) k ≡ some m)) (λ m (k, e). (suc k, e)) ls (each ls),
  )

  -- What the table says of a pid, once it is built.
  pub left_of-growth :
      (v : Vram F) (q : ℕ) → left_of F (growth_from F v v.leases []) q ≡ growth F v q
  left_of-growth v q =
      let r =
        growth_from-Right v v.leases [] (each v.leases) (record { unique = tt; exact = tt }) in
      let table = growth_from F v v.leases [] in
      elim (Bool-cases (seen F table q)) [
        | inl listed ↦ left_of-Right F v table q r.exact listed
        | inr out ↦ left_of-unseen F table q out ∙ elim (unseen v v.leases [] q out) [
          | inl e ↦ sym (no_growth v q (inl e))
          | inr e ↦ sym (no_growth v q (inr e))
        ]
      ]
    where
      no_growth :
          (v : Vram F) (q : ℕ)
          → (proc_used_locked F v q ≡ none) ⊎ (least_base F v.leases q ≡ none)
          → growth F v q ≡ 0
      no_growth v q (inr e) = rw (e, growth) refl
      no_growth v q (inl e) = elim (Option-cases (least_base F v.leases q)) [
        | inl f ↦ rw (f, growth) refl
        | inr (m, f) ↦ rw (f, e, growth) refl
      ]
