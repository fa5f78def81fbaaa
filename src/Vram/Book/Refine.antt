-- ===== src/Vram/Book/Refine.antt =====
-- The calls of src/ovram.c do to the slots what the operations on books say.
use omniserve_native.Prelude.{
  ℕ, ◌≡◌, refl, sym, ap, ◌∙◌, subst, inl, inr, true, false, not, List, ◌∷◌, Option, none, some,
  arith, Bool-cases, if◌then◌else◌, get_elem?, set,
}
use omniserve_native.Floats.{DoubleOps}
use omniserve_native.Json.Lookup.{same_bytes}
use omniserve_native.Vram.{Lease, Vram, is_none}
use omniserve_native.Vram.Tables.{expire_locked, on_owner}
use omniserve_native.Vram.Id.{same_bytes-eq}
use omniserve_native.Vram.Grant.{ttl_or_default}
use omniserve_native.Vram.Ops.{release, renew_at, has_id}
use omniserve_native.Vram.Book.{
  Book, book, lapsed, removed, inserted, Single, Nowhere, book-expire, book-set, book-set_other,
  find_lease-book,
}
use omniserve_native.Vram.Book.Sound.{Good, Distinct, expire_locked-Good}
use omniserve_native.Vram.Book.Keeps.{modify-set}

-- Texts that are the same are the same to every text.
same_bytes_other : (a b j : List ℕ) → same_bytes a b ≡ true → same_bytes b j ≡ same_bytes a j
same_bytes_other a b j e = ap (λ x. same_bytes x j) (sym (same_bytes-eq a b e))

module _ (F : DoubleOps) where
  open F use {Double, add}

  abbrev with_expiry : Double → Option (Lease F) → Option (Lease F)
  with_expiry t none = none
  with_expiry t (some l) = some (record l { expires_s = t })

  -- One entry of a book gets a new expiry.
  abbrev pub extended : Book F → List ℕ → Double → Book F
  extended b id t j = if same_bytes id j then with_expiry t (b j) else b j

  pub Distinct-Single : (ls : List (Lease F)) (id : List ℕ) → Distinct F ls → Single F ls id
  Distinct-Single ls id d i k l m e f p q =
      let (on, same) = parts l p in
      let (on', same') = parts m q in d i k l m e f on on' (same ∙ sym same')
    where
      parts : (l : Lease F) → has_id F id l ≡ true → (l.active ≡ true) × (l.id ≡ id)
      parts l h = (ground arith, same_bytes-eq l.id id (ground arith))

  pub expire_locked-book :
      (v : Vram F) (now : Double)
      → Good F v
      → book F (expire_locked F v now).0.leases ≡ lapsed F (book F v.leases) now
  unfolding expire_locked
  expire_locked-book v now g k id =
      book-expire F now v.leases id (Distinct-Single v.leases id g.distinct) k

  abbrev shown : Lease F → Option (Lease F)
  shown y = if y.active then some y else none

  -- A write that keeps the id of an active lease.
  book-put :
      (ls : List (Lease F)) (id : List ℕ) (i : ℕ) (x y : Lease F)
      → Single F ls id
      → get_elem? ls i ≡ some x
      → has_id F id x ≡ true
      → y.id ≡ x.id
      → (j : List ℕ) → book F (set ls i y) j ≡ (if same_bytes id j then shown y else book F ls j)
  book-put ls id i x y s e h same j =
      let x_is : x.id ≡ id = same_bytes-eq x.id id (ground arith) in
      let x_as : same_bytes x.id j ≡ same_bytes id j = ap (λ n. same_bytes n j) x_is in
      let y_as : same_bytes y.id j ≡ same_bytes id j = ap (λ n. same_bytes n j) (same ∙ x_is) in
      elim (Bool-cases (same_bytes id j)) [
        | inl here ↦
            let y_on : has_id F j y ≡ y.active = ground (arith, y_as, here) in
            let put = book-set F ls i x y j e (λ k l f n. elim (Bool-cases (has_id F j l)) [
              | inr off ↦ off
              | inl twice ↦
                  let j_is : j ≡ id = sym (same_bytes-eq id j here) in
                  absurd (n (sym (s i k x l e f h (sym (ap (λ n. has_id F n l) j_is) ∙ twice))))
            ]) in
            rw here (put ∙ ap (λ b. if b then some y else none) y_on)
        | inr there ↦ rw there (
            book-set_other F ls i x y j e (ground (arith, x_as, there))
              (ground (arith, y_as, there)))
      ]

  -- A new id in a free slot.
  pub book-grant :
      (ls : List (Lease F)) (i : ℕ) (x y : Lease F)
      → get_elem? ls i ≡ some x
      → x.active ≡ false
      → y.active ≡ true
      → Nowhere F ls y.id
      → (j : List ℕ) → book F (set ls i y) j ≡ inserted F (book F ls) y.id y j
  book-grant ls i x y e off on fresh j = elim (Bool-cases (same_bytes y.id j)) [
    | inl here ↦
        let y_on : has_id F j y ≡ true = ground (arith, here, on) in
        let put =
          book-set F ls i x y j e
            (λ k l f n. ap (λ n. has_id F n l) (sym (same_bytes-eq y.id j here)) ∙ fresh k l f) in
        rw here (put ∙ ap (λ b. if b then some y else none) y_on)
    | inr there ↦
        rw there (book-set_other F ls i x y j e (ground (arith, off)) (ground (arith, there)))
  ]

  -- A release takes the id from the book.
  pub release-book :
      (v : Vram F) (c : ℕ) (cs : List ℕ) (now_s : Double)
      → Good F v
      → ((release F v (c ∷ cs) now_s).0 ≡ not (is_none (book F v.leases (c ∷ cs))))
        × (book F (release F v (c ∷ cs) now_s).1.leases ≡ removed F (book F v.leases) (c ∷ cs))
  unfolding release on_owner
  release-book v c cs now_s g = elim (find_lease-book F v.leases (c ∷ cs)) [
    | inl (f, b) ↦
        (rw (f, release, b) refl, rw (f, release) (λ k j. missing (book F v.leases) (c ∷ cs) b j k))
    | inr (i, l, f, at, b, h) ↦ (
      rw (f, at, release, b) refl,
      rw (f, at, release)
          (λ k j.
            book-put v.leases (c ∷ cs) i l (record l { active = false })
              (Distinct-Single v.leases (c ∷ cs) g.distinct) at h refl j k),
    )
  ]
    where
      missing : (b : Book F) (id : List ℕ) → b id ≡ none → (j : List ℕ) → b j ≡ removed F b id j
      missing b id e j = elim (Bool-cases (same_bytes id j)) [
        | inl here ↦ rw here (ap b (sym (same_bytes-eq id j here)) ∙ e)
        | inr there ↦ rw there refl
      ]

  absent :
      (b : Book F) (id : List ℕ) (t : Double) → b id ≡ none → (j : List ℕ) → b j ≡ extended b id t j
  absent b id t e j = elim (Bool-cases (same_bytes id j)) [
    | inl here ↦
        let gone : b j ≡ none = ap b (sym (same_bytes-eq id j here)) ∙ e in rw (here, gone) refl
    | inr there ↦ rw there refl
  ]

  -- The renewed entry, wherever it is asked for.
  at_id :
      (b : Book F) (id : List ℕ) (l : Lease F) (t : Double)
      → b id ≡ some l
      → l.active ≡ true
      → (j : List ℕ)
      → (if same_bytes id j then shown (record l { expires_s = t }) else b j) ≡ extended b id t j
  at_id b id l t e on j = elim (Bool-cases (same_bytes id j)) [
    | inl here ↦
        let found : b j ≡ some l = ap b (sym (same_bytes-eq id j here)) ∙ e in
        rw (here, found, on) refl
    | inr there ↦ rw there refl
  ]

  renewed :
      (v : Vram F) (c : ℕ) (cs : List ℕ) (ttl_s now_s : Double)
      → Good F (expire_locked F v now_s).0
      → ((renew_at F v (c ∷ cs) ttl_s now_s).0
          ≡ not (is_none (book F (expire_locked F v now_s).0.leases (c ∷ cs))))
        × (book F (renew_at F v (c ∷ cs) ttl_s now_s).1.leases
            ≡ extended
                (book F (expire_locked F v now_s).0.leases)
                (c ∷ cs)
                (add now_s (ttl_or_default F (expire_locked F v now_s).0 ttl_s)))
  unfolding renew_at
  renewed v c cs ttl_s now_s g =
      let w = (expire_locked F v now_s).0 in
      let t = add now_s (ttl_or_default F w ttl_s) in
      elim (find_lease-book F w.leases (c ∷ cs)) [
        | inl (f, b) ↦ (
          rw (f, renew_at, b) refl,
          rw (f, renew_at) (λ k j. absent (book F w.leases) (c ∷ cs) t b j k),
        )
        | inr (i, l, f, at, b, h) ↦
            let put = modify-set w.leases i (λ l. record l { expires_s = t }) at in
            let on : l.active ≡ true = ground arith in
            (
              rw (f, renew_at, b) refl,
              rw (f, renew_at, put)
                  (λ k j.
                    (book-put w.leases (c ∷ cs) i l (record l { expires_s = t })
                          (Distinct-Single w.leases (c ∷ cs) g.distinct) at h refl j
                        ∙ at_id (book F w.leases) (c ∷ cs) l t b on j)
                      k),
            )
      ]

  -- A renewal gives the id's entry a new end, once what is over is gone.
  pub renew_at-book :
      (v : Vram F) (c : ℕ) (cs : List ℕ) (ttl_s now_s : Double)
      → Good F v
      → ((renew_at F v (c ∷ cs) ttl_s now_s).0
          ≡ not (is_none (lapsed F (book F v.leases) now_s (c ∷ cs))))
        × (book F (renew_at F v (c ∷ cs) ttl_s now_s).1.leases
            ≡ extended
                (lapsed F (book F v.leases) now_s)
                (c ∷ cs)
                (add now_s (ttl_or_default F v ttl_s)))
  unfolding expire_locked
  renew_at-book v c cs ttl_s now_s g =
      subst
        (λ b.
          ((renew_at F v (c ∷ cs) ttl_s now_s).0 ≡ not (is_none (b (c ∷ cs))))
          × (book F (renew_at F v (c ∷ cs) ttl_s now_s).1.leases
              ≡ extended b (c ∷ cs) (add now_s (ttl_or_default F v ttl_s))))
        (expire_locked-book v now_s g) (renewed v c cs ttl_s now_s (expire_locked-Good F v now_s g))
