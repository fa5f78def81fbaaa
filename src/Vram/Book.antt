-- ===== src/Vram/Book.antt =====
-- The leases of src/ovram.c as a book: what each id stands for. The slots and their order are
-- forgotten.
pub mod Sound
pub mod Granted
pub mod Keeps
pub mod Waits
pub mod Reach
pub mod Refine
pub mod Calls
use omniserve_native.Prelude.{
  ℕ, zero, suc, ◌+◌, ◌<◌, ◌≡◌, ◌≢◌, refl, sym, ap, ◌∙◌, ◌⊎◌, inl, inr, Bool, true, false, not, ◌&&◌,
  List, [], ◌∷◌, Option, none, some, arith, Bool-cases, if◌then◌else◌, get_elem?, set, map,
}
use mathlib.Core.Option.{some-injective}
use omniserve_native.Floats.{DoubleOps}
use omniserve_native.Json.Lookup.{same_bytes}
use omniserve_native.Vram.{Lease, is_none}
use omniserve_native.Vram.Tables.{is_over, expire_lease}
use omniserve_native.Vram.Ops.{has_id, find_lease}

module _ (F : DoubleOps) where
  open F use {Double, lt}

  abbrev pub Book : Type 0
  Book = List ℕ → Option (Lease F)

  -- The first active lease with the id.
  pub book : List (Lease F) → Book
  book [] id = none
  book (l ∷ ls) id = if has_id F id l then some l else book ls id

  abbrev pub kept : Double → Option (Lease F) → Option (Lease F)
  kept now none = none
  kept now (some l) = if lt now l.expires_s then some l else none

  -- The operations on books.
  abbrev pub lapsed : Book → Double → Book
  lapsed b now id = kept now (b id)

  abbrev pub removed : Book → List ℕ → Book
  removed b id j = if same_bytes id j then none else b j

  abbrev pub inserted : Book → List ℕ → Lease F → Book
  inserted b id l j = if same_bytes id j then some l else b j

  -- No lease but the one at `i` has the id.
  abbrev pub NoOther : List (Lease F) → ℕ → List ℕ → Type 0
  NoOther ls i id = (k : ℕ) (l : Lease F) → get_elem? ls k ≡ some l → k ≢ i → has_id F id l ≡ false

  abbrev pub Nowhere : List (Lease F) → List ℕ → Type 0
  Nowhere ls id = (k : ℕ) (l : Lease F) → get_elem? ls k ≡ some l → has_id F id l ≡ false

  pub book-Nowhere : (ls : List (Lease F)) (id : List ℕ) → Nowhere ls id → book ls id ≡ none
  unfolding book
  book-Nowhere [] id h = refl
  book-Nowhere (l ∷ ls) id h = rw (h 0 l refl) (book-Nowhere ls id (λ k. h (suc k)))

  -- A write that neither takes the id from the slot nor puts it there.
  pub book-set_other :
      (ls : List (Lease F)) (i : ℕ) (x y : Lease F) (id : List ℕ)
      → get_elem? ls i ≡ some x
      → has_id F id x ≡ false
      → has_id F id y ≡ false
      → book (set ls i y) id ≡ book ls id
  unfolding book
  book-set_other [] i x y id e p q = refl
  book-set_other (l ∷ ls) zero x y id e p q =
      let off : has_id F id l ≡ false = ap (has_id F id) (some-injective l x e) ∙ p in
      rw (q, off) refl
  book-set_other (l ∷ ls) (suc i) x y id e p q =
      let rest = book-set_other ls i x y id e p q in rw rest refl

  -- A write to the only slot that may have the id.
  pub book-set :
      (ls : List (Lease F)) (i : ℕ) (x y : Lease F) (id : List ℕ)
      → get_elem? ls i ≡ some x
      → NoOther ls i id
      → book (set ls i y) id ≡ (if has_id F id y then some y else none)
  unfolding book
  book-set [] i x y id e h = cc
  book-set (l ∷ ls) zero x y id e h =
      let rest = book-Nowhere ls id (λ k m f. h (suc k) m f (omega arith)) in rw rest refl
  book-set (l ∷ ls) (suc i) x y id e h =
      let off : has_id F id l ≡ false = h 0 l refl (omega arith) in
      rw off (book-set ls i x y id e (λ k m f n. h (suc k) m f (omega (arith, n))))

  -- What the search finds.
  pub find_lease-book :
      (ls : List (Lease F)) (id : List ℕ)
      → ((find_lease F ls id ≡ none) × (book ls id ≡ none))
        ⊎ ((i : ℕ) × (l : Lease F) × (find_lease F ls id ≡ some i)
            × (get_elem? ls i ≡ some l)
            × (book ls id ≡ some l)
            × (has_id F id l ≡ true))
  unfolding book find_lease
  find_lease-book [] id = inl (refl, refl)
  find_lease-book (l ∷ ls) id = elim (Bool-cases (has_id F id l)) [
    | inl here ↦ inr (0, l, rw here refl, refl, rw here refl, here)
    | inr past ↦ elim (find_lease-book ls id) [
      | inl (f, b) ↦ inl (rw (past, f) refl, rw past b)
      | inr (i, m, f, g, b, h) ↦ inr (suc i, m, rw (past, f) refl, g, rw past b, h)
    ]
  ]

  -- Only one lease may have the id.
  abbrev pub Single : List (Lease F) → List ℕ → Type 0
  Single ls id =
      (i k : ℕ) (l m : Lease F)
      → get_elem? ls i ≡ some l
      → get_elem? ls k ≡ some m
      → has_id F id l ≡ true
      → has_id F id m ≡ true
      → i ≡ k

  pub Single-Nowhere :
      (l : Lease F) (ls : List (Lease F)) (id : List ℕ)
      → Single (l ∷ ls) id
      → has_id F id l ≡ true
      → Nowhere ls id
  Single-Nowhere l ls id h on k m e = elim (Bool-cases (has_id F id m)) [
    | inl twice ↦ absurd (let same = h 0 (suc k) l m refl e on twice in omega (arith, same))
    | inr off ↦ off
  ]

  has_id-expire :
      (now : Double) (id : List ℕ) (l : Lease F)
      → has_id F id l ≡ false
      → has_id F id (expire_lease F now l) ≡ false
  has_id-expire now id l h = ground arith

  Nowhere-expire :
      (now : Double) (ls : List (Lease F)) (id : List ℕ)
      → Nowhere ls id
      → book (map (expire_lease F now) ls) id ≡ none
  unfolding book
  Nowhere-expire now [] id h = refl
  Nowhere-expire now (l ∷ ls) id h =
      rw (has_id-expire now id l (h 0 l refl)) (Nowhere-expire now ls id (λ k. h (suc k)))

  expire_kept : (now : Double) (l : Lease F) → is_over F now l ≡ false → expire_lease F now l ≡ l
  expire_kept now l e = rw e refl

  book-first :
      (l : Lease F) (ls : List (Lease F)) (id : List ℕ)
      → has_id F id l ≡ true
      → book (l ∷ ls) id ≡ some l
  unfolding book
  book-first l ls id e = rw e refl

  -- Expiry drops what is over.
  pub book-expire :
      (now : Double) (ls : List (Lease F)) (id : List ℕ)
      → Single ls id
      → book (map (expire_lease F now) ls) id ≡ kept now (book ls id)
  unfolding book
  book-expire now [] id h = refl
  book-expire now (l ∷ ls) id h = elim (Bool-cases (has_id F id l)) [
    | inr past ↦
        rw (past, has_id-expire now id l past)
          (book-expire now ls id (λ i k x y e f p q. omega (arith, h (suc i) (suc k) x y e f p q)))
    | inl here ↦
        let rest = Nowhere-expire now ls id (Single-Nowhere l ls id h here) in
        elim (Bool-cases (lt now l.expires_s)) [
          | inl live ↦
              let same = expire_kept now l (ground arith) in
              let on : has_id F id (expire_lease F now l) ≡ true = ap (has_id F id) same ∙ here in
              let kept_it : kept now (some l) ≡ some l = rw live refl in
              book-first (expire_lease F now l) (map (expire_lease F now) ls) id on
              ∙ ap some same
              ∙ sym (ap (kept now) (book-first l ls id here) ∙ kept_it)
          | inr over ↦
              let off : has_id F id (expire_lease F now l) ≡ false = ground arith in
              rw (off, here, over) rest
        ]
  ]
