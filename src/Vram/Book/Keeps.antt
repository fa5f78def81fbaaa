-- ===== src/Vram/Book/Keeps.antt =====
-- Each operation of src/ovram.c keeps what Vram/Book/Sound.antt says of the lease slots.
use omniserve_native.Prelude.{
  ℕ, ◌+◌, ◌≡◌, refl, sym, inl, inr, Bool, true, false, List, [], ◌∷◌, Option, some, arith,
  Bool-cases, if◌then◌else◌, get_elem?, set, ◌==◌, subst,
}
use omniserve_native.Prelude.Int.{ℤ, pos, pos_part, leb_ℤ}
use omniserve_native.Floats.{DoubleOps}
use omniserve_native.Vram.{Vram, modify, or_anon}
use omniserve_native.Vram.Tables.{expire_locked, on_owner}
use omniserve_native.Vram.Queue.{higher_tier_waiting_locked}
use omniserve_native.Vram.Grant.{
  Answer, amount, grant_locked, grant_at, new_lease, try_lease, deny, lease_pid_at, lease_force,
  least_mb, ttl_or_default,
}
use omniserve_native.Vram.Ops.{release, renew_at}
use omniserve_native.Vram.Book.{find_lease-book}
use omniserve_native.Vram.Book.Sound.{Good, grant-Kept, set-Kept, expire_locked-Good}
use omniserve_native.Vram.Book.Granted.{grant_locked-Ends}

pub modify-set {ℓ} :
    {A : Type ℓ} (xs : List A) (i : ℕ) (f : A → A) {x : A}
    → get_elem? xs i ≡ some x
    → modify xs i f ≡ set xs i (f x)
modify-set xs i f e = rw (e, modify) refl

module _ (F : DoubleOps) where
  open F use {Double}

  pub grant_locked-Good :
      (v : Vram F) (owner : List ℕ) (pid mb min_mb tier : ℕ) (ttl_s now_s : Double)
      (free : Option ℕ) (force : Bool)
      → Good F v
      → Good F (grant_locked F v owner pid mb min_mb tier ttl_s now_s free force).broker
  unfolding grant_at on_owner new_lease
  grant_locked-Good v owner pid mb min_mb tier ttl_s now_s free force g =
      elim (grant_locked-Ends F v owner pid mb min_mb tier ttl_s now_s free force) [
        | inl e ↦ subst (λ a. Good F a.broker) (sym e) g
        | inr (slot, x, at, off, some_mb, least, e) ↦
            subst (λ a. Good F a.broker) (sym e)
              (grant-Kept F v.leases v.next_id v.grants (v.releases + v.expirations) slot x
                (new_lease F v (or_anon owner) pid (amount F v mb tier free force) tier ttl_s now_s)
                g at off refl refl)
      ]

  deny-Good :
      (v : Vram F) (owner : List ℕ) (pid : ℕ) (now_s : Double)
      → Good F v
      → Good F (deny F v owner pid now_s)
  unfolding deny on_owner
  deny-Good v owner pid now_s g = g

  try_lease-Good :
      (v : Vram F) (owner : List ℕ) (pid mb min_mb tier : ℕ) (ttl_s now_s : Double)
      (free : Option ℕ)
      → Good F v
      → Good F (try_lease F v owner pid mb min_mb tier ttl_s now_s free).broker
  unfolding try_lease
  try_lease-Good v owner pid mb min_mb tier ttl_s now_s free g =
      elim (Bool-cases (higher_tier_waiting_locked F v tier now_s free)) [
        | inl e ↦ rw e (deny-Good v owner pid now_s g)
        | inr e ↦ rw e (
            booked (grant_locked F v owner pid mb min_mb tier ttl_s now_s free false)
              (grant_locked-Good v owner pid mb min_mb tier ttl_s now_s free false g))
      ]
    where
      booked :
          (a : Answer F)
          → Good F a.broker
          → Good F (
              (if a.granted == 0
                then record a { broker = deny F a.broker owner pid now_s }
                else a).broker)
      booked a h = elim (Bool-cases (a.granted == 0)) [
        | inl e ↦ rw e (deny-Good a.broker owner pid now_s h)
        | inr e ↦ rw e h
      ]

  pub lease_pid_at-Good :
      (v : Vram F) (owner : List ℕ) (pid : ℕ) (mb min_mb : ℤ) (tier : ℕ) (ttl_s now_s : Double)
      (free : Option ℕ)
      → Good F v
      → Good F (lease_pid_at F v owner pid mb min_mb tier ttl_s now_s free).broker
  unfolding lease_pid_at
  lease_pid_at-Good v owner pid mb min_mb tier ttl_s now_s free g =
      elim (Bool-cases (leb_ℤ mb (pos 0))) [
        | inl e ↦ rw e g
        | inr e ↦ rw e (
            try_lease-Good (expire_locked F v now_s).0 owner pid (pos_part mb)
              (least_mb F mb min_mb) tier ttl_s now_s free (expire_locked-Good F v now_s g))
      ]

  pub lease_force-Good :
      (v : Vram F) (owner : List ℕ) (pid : ℕ) (mb : ℤ) (tier : ℕ) (ttl_s now : Double)
      → Good F v
      → Good F (lease_force F v owner pid mb tier ttl_s now).broker
  unfolding lease_force
  lease_force-Good v owner pid mb tier ttl_s now g = elim (Bool-cases (leb_ℤ mb (pos 0))) [
    | inl e ↦ rw e g
    | inr e ↦ rw e (
        grant_locked-Good (expire_locked F v now).0 (or_anon owner) pid (pos_part mb) (pos_part mb)
          tier ttl_s now (some 0) true (expire_locked-Good F v now g))
  ]

  pub release-Good :
      (v : Vram F) (id : List ℕ) (now_s : Double) → Good F v → Good F (release F v id now_s).1
  unfolding release on_owner
  release-Good v [] now_s g = g
  release-Good v (c ∷ cs) now_s g = elim (find_lease-book F v.leases (c ∷ cs)) [
    | inl (f, b) ↦ rw (f, release) g
    | inr (i, l, f, at, b, h) ↦
        let live : l.active ≡ true = ground arith in
        let k =
          set-Kept F v.leases v.next_id v.grants (v.releases + v.expirations) i l
            (record l { active = false }) g at live refl in
        rw (f, at, release)
          (record {
            slots = k.slots;
            numbered = k.numbered;
            distinct = k.distinct;
            balanced = omega (arith, k.balanced);
          })
  ]

  pub renew_at-Good :
      (v : Vram F) (id : List ℕ) (ttl_s now_s : Double)
      → Good F v
      → Good F (renew_at F v id ttl_s now_s).1
  unfolding renew_at
  renew_at-Good v [] ttl_s now_s g = g
  renew_at-Good v (c ∷ cs) ttl_s now_s g =
      let w = (expire_locked F v now_s).0 in
      let k = expire_locked-Good F v now_s g in
      elim (find_lease-book F w.leases (c ∷ cs)) [
        | inl (f, b) ↦ rw (f, renew_at) k
        | inr (i, l, f, at, b, h) ↦
            let live : l.active ≡ true = ground arith in
            let m =
              set-Kept F w.leases w.next_id w.grants (w.releases + w.expirations) i l
                (record l { expires_s = F.add now_s (ttl_or_default F w ttl_s) }) k at live refl in
            let put =
              modify-set w.leases i
                (λ l. record l { expires_s = F.add now_s (ttl_or_default F w ttl_s) }) at in
            rw (f, renew_at, put)
              (record {
                slots = m.slots;
                numbered = m.numbered;
                distinct = m.distinct;
                balanced =
                    let still : ◌≡◌ {A = ℕ} (if l.active then 0 else 1) 0 = rw live refl in
                    omega (arith, m.balanced, still);
              })
      ]
