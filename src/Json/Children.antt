-- ===== src/Json/Children.antt =====
-- The children of a token, and what an append to the token array and a write of it do to them.
use omniserve_native.Prelude.{
  ℕ, zero, suc, ◌+◌, ◌<◌, ◌≡◌, ◌≢◌, refl, sym, ap, ◌∙◌, ◌⊎◌, Bool, false, List, [], ◌∷◌, ◌++◌,
  Option, none, some, inl, inr, arith, ◌==◌, if◌then◌else◌, length, get_elem?, set, sum_by,
  sum_by-append,
}
use mathlib.Core.Option.{some-injective}
use omniserve_native.Json.{Tok}

abbrev pub names : ℕ → Option ℕ → Bool
names i none = false
names i (some j) = i == j

abbrev pub child : ℕ → Tok → ℕ
child i t = if names i t.parent then 1 else 0

-- How many tokens have `i` as their parent.
abbrev pub children : ℕ → List Tok → ℕ
children i toks = sum_by (child i) toks

pub get_elem?-bound {ℓ} :
    {A : Type ℓ} (xs : List A) (i : ℕ) {a : A} → get_elem? xs i ≡ some a → i < length xs
get_elem?-bound [] i e = cc
get_elem?-bound (x ∷ xs) zero e = omega arith
get_elem?-bound (x ∷ xs) (suc i) e = omega (arith, get_elem?-bound xs i e)

pub get_elem?-append_left {ℓ} :
    {A : Type ℓ} (xs ys : List A) (i : ℕ) → i < length xs → get_elem? (xs ++ ys) i ≡ get_elem? xs i
get_elem?-append_left [] ys i h = elim h [ ]
get_elem?-append_left (x ∷ xs) ys zero h = refl
get_elem?-append_left (x ∷ xs) ys (suc i) h = get_elem?-append_left xs ys i (omega arith)

-- An element of a list with one more is an old one or the new one.
pub get_elem?-snoc {ℓ} :
    {A : Type ℓ} (xs : List A) (x : A) (i : ℕ) {a : A}
    → get_elem? (xs ++ x ∷ []) i ≡ some a
    → (get_elem? xs i ≡ some a) ⊎ ((i ≡ length xs) × (some x ≡ some a))
get_elem?-snoc [] x zero e = inr (refl, e)
get_elem?-snoc [] x (suc i) e = cc
get_elem?-snoc (y ∷ xs) x zero e = inl e
get_elem?-snoc (y ∷ xs) x (suc i) e = elim (get_elem?-snoc xs x i e) [
  | inl h ↦ inl h
  | inr (h, h') ↦ inr (ap suc h, h')
]

-- A write that keeps a measure of the element keeps the sum.
pub sum_by-set {ℓ} :
    {A : Type ℓ} (f : A → ℕ) (xs : List A) (i : ℕ) {a b : A}
    → get_elem? xs i ≡ some a
    → f b ≡ f a
    → sum_by f (set xs i b) ≡ sum_by f xs
sum_by-set f [] i e h = refl
sum_by-set f (x ∷ xs) zero e h = ap (λ n. n + sum_by f xs) (h ∙ sym (ap f (some-injective x _ e)))
sum_by-set f (x ∷ xs) (suc i) e h = omega (arith, sum_by-set f xs i e h)

-- An element after a write is the written one or an old one elsewhere.
pub get_elem?-set {ℓ} :
    {A : Type ℓ} (xs : List A) (i : ℕ) (v : A) (j : ℕ) {a : A}
    → get_elem? (set xs i v) j ≡ some a
    → ((j ≡ i) × (some v ≡ some a)) ⊎ ((j ≢ i) × (get_elem? xs j ≡ some a))
get_elem?-set [] i v j e = cc
get_elem?-set (x ∷ xs) zero v zero e = inl (refl, e)
get_elem?-set (x ∷ xs) zero v (suc j) e = inr (omega arith, e)
get_elem?-set (x ∷ xs) (suc i) v zero e = inr (omega arith, e)
get_elem?-set (x ∷ xs) (suc i) v (suc j) e = elim (get_elem?-set xs i v j e) [
  | inl (h, h') ↦ inl (ap suc h, h')
  | inr (h, h') ↦ inr (omega (arith, h), h')
]

-- Every parent stands before its token.
abbrev pub Parents : List Tok → Type 0
Parents toks = (i j : ℕ) (t : Tok) → get_elem? toks i ≡ some t → t.parent ≡ some j → j < i

-- Every size is the number of children; one child of `pending` is not counted yet.
abbrev pub SizedBut : Option ℕ → List Tok → Type 0
SizedBut pending toks =
    (i : ℕ) (t : Tok)
    → get_elem? toks i ≡ some t
    → t.size + (if names i pending then 1 else 0) ≡ children i toks

-- Tokens whose parents are not `i` leave it without children.
pub no_children :
    (toks : List Tok) (i : ℕ)
    → ((k : ℕ) (t : Tok) → get_elem? toks k ≡ some t → names i t.parent ≡ false)
    → children i toks ≡ 0
no_children [] i h = refl
no_children (t ∷ ts) i h =
    let here : names i t.parent ≡ false = h 0 t refl in
    rw here (omega (arith, no_children ts i (λ k u e. h (suc k) u e)))

pub names_other : (i : ℕ) (o : Option ℕ) → ((j : ℕ) → o ≡ some j → j < i) → names i o ≡ false
names_other i none h = refl
names_other i (some j) h = ground (arith, h j refl)

pub Parents-append :
    (toks : List Tok) (t : Tok)
    → Parents toks
    → ((j : ℕ) → t.parent ≡ some j → j < length toks)
    → Parents (toks ++ t ∷ [])
Parents-append toks t ps h i j u e p = elim (get_elem?-snoc toks t i e) [
  | inl old ↦ ps i j u old p
  | inr (at, new) ↦ omega (arith, at, h j (ap (λ v. v.parent) (some-injective t u new) ∙ p))
]

pub SizedBut-append :
    (toks : List Tok) (t : Tok)
    → Parents toks
    → SizedBut none toks
    → ((j : ℕ) → t.parent ≡ some j → j < length toks)
    → t.size ≡ 0
    → SizedBut t.parent (toks ++ t ∷ [])
SizedBut-append toks t ps ss h fresh i u e = elim (get_elem?-snoc toks t i e) [
  | inl old ↦ omega (arith, ss i u old, sum_by-append (child i) toks (t ∷ []))
  | inr (at, new) ↦
      let small : u.size ≡ 0 = ap (λ v. v.size) (sym (some-injective t u new)) ∙ fresh in
      let none_yet : children i toks ≡ 0 = no_children toks i (λ k v f.
        names_other i v.parent
          (λ j p. omega (arith, ps k j v f p, get_elem?-bound toks k f, at))) in
      omega (arith, small, none_yet, sum_by-append (child i) toks (t ∷ []))
]

-- A write that keeps the parent and the size keeps the counts.
pub Parents-set :
    (toks : List Tok) (k : ℕ) (t u : Tok)
    → get_elem? toks k ≡ some t
    → u.parent ≡ t.parent
    → Parents toks
    → Parents (set toks k u)
Parents-set toks k t u at same ps i j v e p = elim (get_elem?-set toks k u i e) [
  | inl (here, new) ↦
      omega (arith, here, ps k j t at (sym same ∙ ap (λ v. v.parent) (some-injective u v new) ∙ p))
  | inr (there, old) ↦ ps i j v old p
]

children-set :
    (toks : List Tok) (k : ℕ) (t u : Tok) (i : ℕ)
    → get_elem? toks k ≡ some t
    → u.parent ≡ t.parent
    → children i (set toks k u) ≡ children i toks
children-set toks k t u i at same =
    sum_by-set (child i) toks k at (ap (λ o. if names i o then 1 else 0) same)

pub SizedBut-set :
    (toks : List Tok) (k : ℕ) (t u : Tok)
    → get_elem? toks k ≡ some t
    → u.parent ≡ t.parent
    → u.size ≡ t.size
    → SizedBut none toks
    → SizedBut none (set toks k u)
SizedBut-set toks k t u at same size ss i v e = elim (get_elem?-set toks k u i e) [
  | inl (here, new) ↦
      let old : t.size + 0 ≡ children i toks = ss i t (rw here at) in
      let sz : u.size ≡ v.size = ap (λ v. v.size) (some-injective u v new) in
      omega (arith, old, sz, size, children-set toks k t u i at same)
  | inr (there, old) ↦ omega (arith, ss i v old, children-set toks k t u i at same)
]

-- The pending child is counted.
pub SizedBut-bump :
    (toks : List Tok) (k : ℕ) (t : Tok)
    → get_elem? toks k ≡ some t
    → SizedBut (some k) toks
    → SizedBut none (set toks k (record t { size = t.size + 1 }))
SizedBut-bump toks k t at ss i v e =
    elim (get_elem?-set toks k (record t { size = t.size + 1 }) i e) [
      | inl (here, new) ↦
          let old = ss i t (rw here at) in
          let sz = ap (λ v. v.size) (some-injective (record t { size = t.size + 1 }) v new) in
          ground (arith, children-set toks k t (record t { size = t.size + 1 }) i at refl)
      | inr (there, old) ↦
          let was = ss i v old in
          ground (arith, children-set toks k t (record t { size = t.size + 1 }) i at refl)
    ]
