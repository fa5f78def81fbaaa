-- ===== src/Vram/Charges.antt =====
-- `charges_locked`, `leased_mb_locked` and `headroom_locked` of src/ovram.c: what the leases still
-- withhold, and what is left. A lease is known by its index, and `order` lists leases with theirs.
pub mod Spend
pub mod HandOut
pub mod Growths
pub mod Built
pub mod Credit
use omniserve_native.Prelude.{
  ℕ, ◌+◌, ◌-◌, Bool, true, false, not, ◌&&◌, ◌||◌, List, [], ◌∷◌, ◌++◌, Option, none, some, ltb,
  leb, ◌==◌, if◌then◌else◌, set, map,
}
use omniserve_native.Floats.{DoubleOps}
use omniserve_native.Vram.{Lease, Vram, is_none, floor_for_tier}
use omniserve_native.Vram.Tables.{proc_used_locked, reserved_mb_locked}

-- A pid's entry of the arrays `pids` and `left`.
pub record Growth : Type 0 where
  pub pid : ℕ
  pub left : ℕ

module _ (F : DoubleOps) where
  open F use {Double, sub, lt}

  abbrev pub full_charge : Lease F → ℕ
  full_charge l = if l.active then l.mb else 0

  -- The holder and its usage at the grant are known.
  abbrev pub is_known : Lease F → Bool
  is_known l = l.active && (ltb 0 l.pid && not (is_none l.base_mb))

  unfoldable pub known_from : List (Lease F) → ℕ → List (ℕ × Lease F)
  known_from [] i = []
  known_from (l ∷ ls) i =
      let rest = known_from ls (i + 1) in if is_known l then (i, l) ∷ rest else rest

  abbrev pub lower_base : Option ℕ → ℕ → ℕ
  lower_base none base = base
  lower_base (some b) base = if ltb b base then b else base

  -- The least base of the pid's leases, not above `base`.
  unfoldable pub oldest_base : List (Lease F) → ℕ → ℕ → ℕ
  oldest_base [] pid base = base
  oldest_base (l ∷ ls) pid base =
      oldest_base ls pid (if l.active && l.pid == pid then lower_base l.base_mb base else base)

  abbrev pub seen : List Growth → ℕ → Bool
  seen [] pid = false
  seen (g ∷ gs) pid = g.pid == pid || seen gs pid

  abbrev pub base_or_0 : Option ℕ → ℕ
  base_or_0 none = 0
  base_or_0 (some b) = b

  abbrev pub grown : ℕ → ℕ → ℕ
  grown now_mb base = if ltb base now_mb then now_mb - base else 0

  -- The table after one more lease.
  unfoldable pub growth_of : Vram F → Lease F → List Growth → List Growth
  growth_of v l table =
      if is_known l && not (seen table l.pid)
      then elim (proc_used_locked F v l.pid) [
        | none ↦ table
        | some now_mb ↦
            table
            ++ record {
              pid = l.pid;
              left = grown now_mb (oldest_base v.leases l.pid (base_or_0 l.base_mb));
            }
              ∷ []
      ]
      else table

  unfoldable pub growth_from : Vram F → List (Lease F) → List Growth → List Growth
  growth_from v [] table = table
  growth_from v (l ∷ ls) table = growth_from v ls (growth_of v l table)

  -- One insertion, the last lease first: later grants are passed over.
  unfoldable pub sink : ℕ × Lease F → List (ℕ × Lease F) → List (ℕ × Lease F)
  sink x [] = x ∷ []
  sink x (y ∷ ys) =
      let rest = sink x ys in if lt x.1.granted_s y.1.granted_s then y ∷ rest else x ∷ y ∷ ys

  unfoldable pub sort_back : List (ℕ × Lease F) → List (ℕ × Lease F) → List (ℕ × Lease F)
  sort_back [] done = done
  sort_back (x ∷ xs) done = sort_back xs (sink x done)

  unfoldable pub reverse_onto : List (ℕ × Lease F) → List (ℕ × Lease F) → List (ℕ × Lease F)
  reverse_onto [] done = done
  reverse_onto (x ∷ xs) done = reverse_onto xs (x ∷ done)

  unfoldable pub by_grant : List (ℕ × Lease F) → List (ℕ × Lease F)
  by_grant order = reverse_onto (sort_back order []) []

  abbrev pub credit : ℕ → ℕ → ℕ
  credit left mb = if ltb left mb then left else mb

  -- The inner loop for a lease: it goes through the whole table.
  unfoldable pub spend : List Growth → ℕ × Lease F → List ℕ → List Growth × List ℕ
  spend [] x charge = ([], charge)
  spend (g ∷ gs) x charge =
      let c = credit g.left x.1.mb in
      let here = spend gs x (set charge x.0 (x.1.mb - c)) in
      let past = spend gs x charge in
      if g.pid == x.1.pid
      then (record { pid = g.pid; left = g.left - c } ∷ here.0, here.1)
      else (g ∷ past.0, past.1)

  unfoldable pub hand_out : List (ℕ × Lease F) → List Growth → List ℕ → List ℕ
  hand_out [] table charge = charge
  hand_out (x ∷ xs) table charge =
      let (rest, charged) = spend table x charge in hand_out xs rest charged

  unfoldable pub charges_locked : Vram F → List ℕ
  charges_locked v =
      hand_out (by_grant (known_from v.leases 0)) (growth_from v v.leases [])
        (map full_charge v.leases)

  unfoldable pub total : List ℕ → ℕ
  total [] = 0
  total (c ∷ cs) = c + total cs

  unfoldable pub leased_mb_locked : Vram F → ℕ
  leased_mb_locked v = total (charges_locked v)

  -- Own and higher tiers' leases count, and young ones of the lower tiers.
  abbrev pub counts_for : Vram F → ℕ → Lease F → Bool
  counts_for v tier l = l.active && (leb l.tier tier || lt (sub v.now l.granted_s) v.job_lease_s)

  unfoldable pub counted : Vram F → ℕ → List (Lease F) → List ℕ → ℕ
  counted v tier [] charge = 0
  counted v tier (l ∷ ls) [] = 0
  counted v tier (l ∷ ls) (c ∷ charge) =
      (if counts_for v tier l then c else 0) + counted v tier ls charge

  unfoldable pub leased_mb_for_tier_locked : Vram F → ℕ → ℕ
  leased_mb_for_tier_locked v tier = counted v tier v.leases (charges_locked v)

  unfoldable pub headroom_locked : Vram F → ℕ → Option ℕ → ℕ
  headroom_locked v tier none = 0
  headroom_locked v tier (some device_free_mb) =
      let taken =
        floor_for_tier v.keep_free_mb tier
        + reserved_mb_locked F v
        + leased_mb_for_tier_locked v tier in
      if ltb taken device_free_mb then device_free_mb - taken else 0
