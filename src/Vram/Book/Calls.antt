-- ===== src/Vram/Book/Calls.antt =====
-- The calls of src/ovram.c on the states that it reaches, as operations on books.
use omniserve_native.Prelude.{
  ℕ, ◌<◌, ◌≡◌, refl, sym, ◌∙◌, subst, ◌⊎◌, inl, inr, Bool, true, false, not, List, [], ◌∷◌, Option,
  none, some, arith, Bool-cases, if◌then◌else◌, get_elem?, ◌==◌,
}
use omniserve_native.Prelude.Int.{ℤ, pos, pos_part, leb_ℤ}
use omniserve_native.Floats.{DoubleOps}
use omniserve_native.Vram.{Lease, Vram, is_none, or_anon, owner_name}
use omniserve_native.Vram.Tables.{expire_locked, on_owner}
use omniserve_native.Vram.Id.{same_bytes-eq, lease_id-injective}
use omniserve_native.Vram.Queue.{higher_tier_waiting_locked}
use omniserve_native.Vram.Grant.{
  Answer, amount, grant_locked, grant_at, new_lease, lease_id, try_lease, deny, lease_pid_at,
  least_mb, ttl_or_default,
}
use omniserve_native.Vram.Ops.{release, renew_at, has_id, expire_at}
use omniserve_native.Vram.Book.{Book, book, lapsed, removed, inserted, Nowhere, book-Nowhere}
use omniserve_native.Vram.Book.Sound.{Good, Numbered, expire_locked-Good}
use omniserve_native.Vram.Book.Granted.{grant_locked-Ends, nothing, placed}
use omniserve_native.Vram.Book.Refine.{
  extended, expire_locked-book, release-book, renew_at-book, book-grant,
}
use omniserve_native.Vram.Book.Reach.{Reach, Reach-Good}

module _ (F : DoubleOps) where
  open F use {Double, add}

  -- In every reachable state the book after a call is the one before the call with what is over
  -- gone (expiry), without the id (release), or with what is over gone and a new end of the id's
  -- entry (renewal); a release and a renewal succeed exactly when the id has an entry.
  pub calls-book :
      (v : Vram F) (c : ℕ) (cs : List ℕ) (ttl_s now_s : Double)
      → Reach F v
      → let b = book F v.leases in
        let id = c ∷ cs in
        (book F (expire_at F v now_s).0.leases ≡ lapsed F b now_s)
        × ((release F v id now_s).0 ≡ not (is_none (b id)))
        × (book F (release F v id now_s).1.leases ≡ removed F b id)
        × ((renew_at F v id ttl_s now_s).0 ≡ not (is_none (lapsed F b now_s id)))
        × (book F (renew_at F v id ttl_s now_s).1.leases
            ≡ extended F (lapsed F b now_s) id (add now_s (ttl_or_default F v ttl_s)))
  unfolding expire_at
  calls-book v c cs ttl_s now_s r =
      let g = Reach-Good F v r in
      let (freed, without) = release-book F v c cs now_s g in
      let (found, later) = renew_at-book F v c cs ttl_s now_s g in
      (expire_locked-book F v now_s g, freed, without, found, later)

  fresh : (ls : List (Lease F)) (next : ℕ) → Numbered F ls next → Nowhere F ls (lease_id next)
  fresh ls next h k l e = elim (Bool-cases (has_id F (lease_id next) l)) [
    | inr off ↦ off
    | inl taken ↦
        let (n, below, is) = h k l e (ground arith) in
        let same = same_bytes-eq l.id (lease_id next) (ground arith) in
        let clash = lease_id-injective n next (sym is ∙ same) in absurd (omega (arith, clash))
  ]

  -- The lease that a call asks for, with so much memory.
  pub record IsAsked (owner : List ℕ) (pid tier : ℕ) (life now_s : Double) (granted : ℕ)
      (l : Lease F) : Type 0 where
    pub amount_is : l.mb ≡ granted
    pub owner_is : l.owner ≡ owner_name (or_anon owner)
    pub holder_is : (l.pid ≡ pid) × (l.tier ≡ tier)
    pub times_are : (l.granted_s ≡ now_s) × (l.expires_s ≡ add now_s life)
    pub is_active : l.active ≡ true

  -- What a call does to the book: nothing, or a new entry.
  abbrev pub Issues : List ℕ → ℕ → ℕ → Double → Double → Book F → Answer F → Type 0
  Issues owner pid tier life now_s b a =
      ((a.granted ≡ 0) × (a.id ≡ []) × (book F a.broker.leases ≡ b))
      ⊎ ((l : Lease F) × (0 < a.granted)
          × IsAsked owner pid tier life now_s a.granted l
          × (b a.id ≡ none)
          × (book F a.broker.leases ≡ inserted F b a.id l))

  placed-Issues :
      (v : Vram F) (owner : List ℕ) (pid mb tier : ℕ) (ttl_s now_s : Double) (force : Bool)
      (granted slot : ℕ) (x : Lease F)
      → Good F v
      → get_elem? v.leases slot ≡ some x
      → x.active ≡ false
      → 0 < granted
      → Issues owner pid tier
          (ttl_or_default F v ttl_s)
          now_s
          (book F v.leases)
          (placed F v owner pid mb tier ttl_s now_s force granted slot)
  unfolding grant_at on_owner new_lease
  placed-Issues v owner pid mb tier ttl_s now_s force granted slot x g at off some_mb =
      let l = new_lease F v (or_anon owner) pid granted tier ttl_s now_s in
      let none_yet = fresh v.leases v.next_id g.numbered in
      inr (
        l,
        some_mb,
        record {
          amount_is = refl;
          owner_is = refl;
          holder_is = (refl, refl);
          times_are = (refl, refl);
          is_active = refl;
        },
        book-Nowhere F v.leases (lease_id v.next_id) none_yet,
        (λ k j. book-grant F v.leases slot x l at off refl none_yet j k),
      )

  grant_locked-Issues :
      (v : Vram F) (owner : List ℕ) (pid mb min_mb tier : ℕ) (ttl_s now_s : Double)
      (free : Option ℕ) (force : Bool)
      → Good F v
      → Issues owner pid tier
          (ttl_or_default F v ttl_s)
          now_s
          (book F v.leases)
          (grant_locked F v owner pid mb min_mb tier ttl_s now_s free force)
  grant_locked-Issues v owner pid mb min_mb tier ttl_s now_s free force g =
      elim (grant_locked-Ends F v owner pid mb min_mb tier ttl_s now_s free force) [
        | inl e ↦
            subst (Issues owner pid tier (ttl_or_default F v ttl_s) now_s (book F v.leases)) (sym e)
              (inl (refl, refl, refl))
        | inr (slot, x, at, off, some_mb, least, e) ↦
            subst (Issues owner pid tier (ttl_or_default F v ttl_s) now_s (book F v.leases)) (sym e)
              (placed-Issues v owner pid mb tier ttl_s now_s force (amount F v mb tier free force)
                slot x g at off some_mb)
      ]

  deny-Issues :
      (owner : List ℕ) (pid tier : ℕ) (life now_s : Double) (a : Answer F) (b : Book F)
      → Issues owner pid tier life now_s b a
      → Issues owner pid tier life now_s b
          (if a.granted == 0 then record a { broker = deny F a.broker owner pid now_s } else a)
  unfolding deny on_owner
  deny-Issues owner pid tier life now_s a b h = elim (Bool-cases (a.granted == 0)) [
    | inr some_mb ↦ rw some_mb h
    | inl nil ↦ elim h [
      | inl (n, i, e) ↦ rw nil (inl (n, i, e))
      | inr (l, p, q, n, e) ↦ absurd (ground arith)
    ]
  ]

  try_lease-Issues :
      (v : Vram F) (owner : List ℕ) (pid mb min_mb tier : ℕ) (ttl_s now_s : Double)
      (free : Option ℕ)
      → Good F v
      → Issues owner pid tier
          (ttl_or_default F v ttl_s)
          now_s
          (book F v.leases)
          (try_lease F v owner pid mb min_mb tier ttl_s now_s free)
  unfolding try_lease
  try_lease-Issues v owner pid mb min_mb tier ttl_s now_s free g =
      elim (Bool-cases (higher_tier_waiting_locked F v tier now_s free)) [
        | inl e ↦ rw e (
            deny-Issues owner pid tier (ttl_or_default F v ttl_s) now_s (nothing F v)
              (book F v.leases) (inl (refl, refl, refl)))
        | inr e ↦ rw e (
            deny-Issues owner pid tier (ttl_or_default F v ttl_s) now_s
              (grant_locked F v owner pid mb min_mb tier ttl_s now_s free false) (book F v.leases)
              (grant_locked-Issues v owner pid mb min_mb tier ttl_s now_s free false g))
      ]

  -- In every reachable state a call for a positive amount either grants nothing and only drops what
  -- is over, or it puts a new entry for the caller, with the memory granted and the asked lifetime,
  -- under an id that had none.
  pub lease_pid_at-book :
      (v : Vram F) (owner : List ℕ) (pid : ℕ) (mb min_mb : ℤ) (tier : ℕ) (ttl_s now_s : Double)
      (free : Option ℕ)
      → Reach F v
      → leb_ℤ mb (pos 0) ≡ false
      → Issues owner pid tier
          (ttl_or_default F v ttl_s)
          now_s
          (lapsed F (book F v.leases) now_s)
          (lease_pid_at F v owner pid mb min_mb tier ttl_s now_s free)
  unfolding lease_pid_at expire_locked
  lease_pid_at-book v owner pid mb min_mb tier ttl_s now_s free r positive =
      let g = Reach-Good F v r in
      rw positive (
        subst
          (λ b. Issues owner pid tier (ttl_or_default F v ttl_s) now_s b (
            try_lease F (expire_locked F v now_s).0 owner pid (pos_part mb) (least_mb F mb min_mb)
              tier ttl_s now_s free))
          (expire_locked-book F v now_s g)
          (try_lease-Issues (expire_locked F v now_s).0 owner pid (pos_part mb)
            (least_mb F mb min_mb) tier ttl_s now_s free (expire_locked-Good F v now_s g)))
