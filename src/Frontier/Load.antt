-- ===== src/Frontier/Load.antt =====
-- The table that src/ofrontier.c reads and keeps.
use omniserve_native.Prelude.{
  ℕ, ◌≡◌, refl, sym, ap, ◌∙◌, ◌⊎◌, inl, inr, Bool, true, false, ◌&&◌, ◌||◌, List, [], ◌∷◌, Option,
  none, some, Bool-cases, Option-cases, length, codes,
}
use omniserve_native.Prelude.Int.{pos, leb_ℤ, ltb_ℤ}
use mathlib.Core.Option.{some-injective}
use omniserve_native.Floats.{DoubleOps}
use omniserve_native.Json.{Tok, Outcome, parsed, invalid, out_of_fuel, parse}
use omniserve_native.Json.Lookup.{obj_get}
use omniserve_native.Frontier.{
  Table, table_default, tier_key, with_tier, number_at, get_in, is_object, gateway_table, table_of,
  parse_table, Frontier, FileStat, open_frontier, unchanged, same_ℤ, is_empty, take_table,
  reload_locked, snapshot, max_toks, max_file,
}

module _ (F : DoubleOps) (strtod : List ℕ → F.Double × ℕ) where
  open F use {Double, dec, sub, lt, le}

  -- The default table, or one that was loaded with times that are positive.
  abbrev pub Usable : Table F → Type 0
  Usable t =
      (t ≡ table_default F)
      ⊎ ((t.loaded ≡ true)
          × (lt (dec 0 0) t.local_p50_ms ≡ true)
          × (lt (dec 0 0) t.remote_p50_ms ≡ true))

  -- What a parse returns with its table.
  abbrev pub Told : Bool × Table F → Type 0
  Told r = (r.0 ≡ r.1.loaded) × Usable r.1

  nothing-Told : Told (false, table_default F)
  unfolding table_default
  nothing-Told = (refl, inl refl)

  -- The tiers leave the times.
  SameTimes : Table F → Table F → Type 0
  SameTimes t u = (t.local_p50_ms ≡ u.local_p50_ms) × (t.remote_p50_ms ≡ u.remote_p50_ms)

  with_tier-SameTimes :
      (js : List ℕ) (toks : List Tok) (tiers : Option ℕ) (i : ℕ) (t : Table F)
      → SameTimes (with_tier F strtod js toks tiers i t) t
  unfolding with_tier SameTimes
  with_tier-SameTimes js toks tiers i t =
      elim (Bool-cases (is_object toks (get_in js toks tiers (tier_key i)))) [
        | inl there ↦ rw (there, with_tier) (refl, refl)
        | inr gone ↦ rw (gone, with_tier) (refl, refl)
      ]

  filled : List ℕ → List Tok → Option ℕ → Table F → Table F
  filled js toks tiers t = with_tier F strtod js toks tiers 3 (
      with_tier F strtod js toks tiers 2
        (with_tier F strtod js toks tiers 1 (with_tier F strtod js toks tiers 0 t)))

  filled-SameTimes :
      (js : List ℕ) (toks : List Tok) (tiers : Option ℕ) (t : Table F)
      → SameTimes (filled js toks tiers t) t
  unfolding filled SameTimes
  filled-SameTimes js toks tiers t =
      let t0 = with_tier F strtod js toks tiers 0 t in
      let t1 = with_tier F strtod js toks tiers 1 t0 in
      let t2 = with_tier F strtod js toks tiers 2 t1 in
      let (a0, b0) = with_tier-SameTimes js toks tiers 0 t in
      let (a1, b1) = with_tier-SameTimes js toks tiers 1 t0 in
      let (a2, b2) = with_tier-SameTimes js toks tiers 2 t1 in
      let (a3, b3) = with_tier-SameTimes js toks tiers 3 t2 in
      (a3 ∙ a2 ∙ a1 ∙ a0, b3 ∙ b2 ∙ b1 ∙ b0)

  gateway_table-Told :
      (js : List ℕ) (toks : List Tok) (gw : Option ℕ) → Told (gateway_table F strtod js toks gw)
  unfolding gateway_table filled SameTimes
  gateway_table-Told js toks gw =
      let lp = number_at F strtod js toks (get_in js toks gw (codes "local_p50_ms")) in
      let rp = number_at F strtod js toks (get_in js toks gw (codes "remote_p50_ms")) in
      let (a, b) =
        filled-SameTimes js toks (get_in js toks gw (codes "tiers"))
          (record (table_default F) { local_p50_ms = lp; remote_p50_ms = rp }) in
      elim (Bool-cases (lt (dec 0 0) lp)) [
        | inr bad ↦ rw (bad, gateway_table) nothing-Told
        | inl good ↦ elim (Bool-cases (lt (dec 0 0) rp)) [
          | inr bad ↦ rw (good, bad, gateway_table) nothing-Told
          | inl fine ↦
              rw (good, fine, gateway_table)
                (refl, inr (refl, ap (lt (dec 0 0)) a ∙ good, ap (lt (dec 0 0)) b ∙ fine))
        ]
      ]

  table_of-Told :
      (js workload : List ℕ) (toks : List Tok) → Told (table_of F strtod js workload toks)
  unfolding table_of
  table_of-Told js workload toks =
      let gw =
        get_in js toks (get_in js toks (obj_get js toks 0 (codes "workloads")) workload)
          (codes "gateway") in
      elim (Bool-cases (is_object toks (some 0) && is_object toks gw)) [
        | inl there ↦ rw (there, table_of) (gateway_table-Told js toks gw)
        | inr gone ↦ rw (gone, table_of) nothing-Told
      ]

  from_outcome : List ℕ → List ℕ → Outcome → Bool × Table F
  from_outcome js workload o = elim o [
    | parsed toks ↦ table_of F strtod js workload toks
    | invalid ↦ (false, table_default F)
    | out_of_fuel ↦ (false, table_default F)
  ]

  from_outcome-Told : (js workload : List ℕ) (o : Outcome) → Told (from_outcome js workload o)
  unfolding from_outcome
  from_outcome-Told js workload (parsed toks) = table_of-Told js workload toks
  from_outcome-Told js workload invalid = nothing-Told
  from_outcome-Told js workload out_of_fuel = nothing-Told

  -- A text gives a table with positive times, and says so, or the default one.
  pub parse_table-Told : (js workload : List ℕ) → Told (parse_table F strtod js workload)
  unfolding parse_table from_outcome
  parse_table-Told [] workload = nothing-Told
  parse_table-Told (c ∷ cs) workload = from_outcome-Told (c ∷ cs) workload (parse (c ∷ cs) max_toks)

  take_table-Usable :
      (f : Frontier F) (sb : FileStat F) (buf : List ℕ)
      → Usable f.table
      → Usable (take_table F strtod f sb buf).table
  unfolding take_table
  take_table-Usable f sb buf ok =
      let r = parse_table F strtod buf f.workload in
      elim (Bool-cases (same_ℤ F (pos (length buf)) sb.size && r.0)) [
        | inl all ↦ rw (all, take_table) (parse_table-Told buf f.workload).1
        | inr part ↦ rw (part, take_table) ok
      ]

  reload_locked-Usable :
      (f : Frontier F) (sb : Option (FileStat F)) (buf : Option (List ℕ))
      → Usable f.table
      → Usable (reload_locked F strtod f sb buf).table
  unfolding reload_locked
  reload_locked-Usable f none buf ok = inl refl
  reload_locked-Usable f (some sb) buf ok = elim (Bool-cases (is_empty F f.policy_path)) [
    | inl e ↦ rw (e, reload_locked) (inl refl)
    | inr e ↦
        elim (Bool-cases
          (unchanged F f sb || (leb_ℤ sb.size (pos 0) || ltb_ℤ (pos max_file) sb.size))) [
            | inl kept ↦ rw (e, kept, reload_locked) ok
            | inr new ↦ elim (Option-cases buf) [
              | inl b ↦ rw (e, new, b, reload_locked) ok
              | inr (text, b) ↦ rw (e, new, b, reload_locked) (take_table-Usable f sb text ok)
            ]
          ]
  ]

  snapshot-Usable :
      (f : Frontier F) (now : Double) (sb : Option (FileStat F)) (buf : Option (List ℕ))
      → Usable f.table
      → Usable (snapshot F strtod f now sb buf).2.table
  unfolding snapshot
  snapshot-Usable f now sb buf ok = elim (Bool-cases (le (dec 10 1) (sub now f.checked_at))) [
    | inl due ↦ rw (due, snapshot) (reload_locked-Usable (record f { checked_at = now }) sb buf ok)
    | inr early ↦ rw (early, snapshot) ok
  ]

  -- One question after the other, each with what the file is by then.
  pub data Reach : Frontier F → Type 0 where
    opened :
        (policy_path workload log_path : List ℕ) (f : Frontier F)
        → open_frontier F policy_path workload log_path ≡ some f
        → Reach f
    asked :
        {f : Frontier F} (now : Double) (sb : Option (FileStat F)) (buf : Option (List ℕ))
        → Reach f
        → Reach (snapshot F strtod f now sb buf).2

  opened-Usable :
      (policy_path workload log_path : List ℕ) (f : Frontier F)
      → open_frontier F policy_path workload log_path ≡ some f
      → Usable f.table
  unfolding open_frontier
  opened-Usable policy_path workload log_path f e =
      elim (Bool-cases (is_empty F policy_path && is_empty F log_path)) [
        | inl off ↦ let none_open = rw (off, open_frontier) at e in cc
        | inr on ↦ inl (ap (λ g. g.table) (sym (some-injective _ f (rw (on, open_frontier) at e))))
      ]

  -- Whatever the policy file is at each question, bad or changing, the table that is kept is the
  -- default one or one that was loaded with positive times.
  pub Reach-Usable : (f : Frontier F) → Reach f → Usable f.table
  Reach-Usable f (opened policy_path workload log_path g e) =
      opened-Usable policy_path workload log_path f e
  Reach-Usable g (asked {f} now sb buf r) = snapshot-Usable f now sb buf (Reach-Usable f r)
