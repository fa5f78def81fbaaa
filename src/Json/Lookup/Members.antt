-- ===== src/Json/Lookup/Members.antt =====
-- `oj_obj_get` of src/ojson.c on an object that is laid out as keys and values.
use omniserve_native.Prelude.{
  ℕ, suc, ◌+◌, ◌≤◌, ◌<◌, ◌≡◌, refl, ap, ◌∙◌, true, false, List, [], ◌∷◌, ◌++◌, Option, none, some,
  inl, inr, arith, Bool-cases, if◌then◌else◌, length, drop, All,
}
use omniserve_native.Json.{Tok}
use omniserve_native.Json.Lookup.{same_index, shallower, sibling_from, skip_to, str_eq}

-- A key, its value, and the tokens inside the value.
pub record Member : Type 0 where
  pub key : Tok
  pub val : Tok
  pub inner : List Tok

abbrev pub flat : List Member → List Tok
flat [] = []
flat (m ∷ ms) = m.key ∷ m.val ∷ (m.inner ++ flat ms)

-- A token whose parent stands at `from` or behind it.
abbrev pub Within : ℕ → Tok → Type 0
Within from t = (p : ℕ) × (t.parent ≡ some p) × (from ≤ p)

-- The members of the object at `obj`, from token `i` on: keys and values are its children, and what
-- stands behind a value is inside it.
abbrev pub Laid : ℕ → ℕ → List Member → Type 0
Laid obj i [] = Unit
Laid obj i (m ∷ ms) =
    (m.key.parent ≡ some obj)
    × (m.val.parent ≡ some obj)
    × All (Within (i + 1)) m.inner
    × Laid obj (i + 2 + length m.inner) ms

-- The value of the first member with this key, by its index.
abbrev pub find_member : List ℕ → List ℕ → ℕ → List Member → Option ℕ
find_member js name i [] = none
find_member js name i (m ∷ ms) =
    if str_eq js m.key name then some (i + 1) else find_member js name (i + 2 + length m.inner) ms

-- No token of the list is a child of `obj`.
abbrev pub Foreign : ℕ → List Tok → Type 0
Foreign obj ts = All (λ t. same_index t.parent (some obj) ≡ false) ts

inner_other :
    (t : Tok) (from obj : ℕ)
    → Within from t
    → obj < from
    → (same_index t.parent (some obj) ≡ false) × (shallower t.parent (some obj) ≡ false)
inner_other t from obj (p, e, h) l = rw e (ground arith, ground arith)

pub own : (obj : ℕ) → same_index (some obj) (some obj) ≡ true
own obj = ground arith

pub sibling_from-inner :
    (inner rest : List Tok) (i from obj : ℕ)
    → All (Within from) inner
    → obj < from
    → sibling_from (inner ++ rest) i (some obj) ≡ sibling_from rest (i + length inner) (some obj)
unfolding sibling_from
sibling_from-inner [] rest i from obj h l = ap (λ n. sibling_from rest n (some obj)) (omega arith)
sibling_from-inner (t ∷ inner) rest i from obj (h, hs) l =
    let (other, deep) = inner_other t from obj h l in
    rw (sibling_from, other, deep)
      (sibling_from-inner inner rest (i + 1) from obj hs l
        ∙ ap (λ n. sibling_from rest n (some obj)) (omega arith))

pub sibling_from-Foreign :
    (rest : List Tok) (i obj : ℕ) → Foreign obj rest → sibling_from rest i (some obj) ≡ none
unfolding sibling_from
sibling_from-Foreign [] i obj h = refl
sibling_from-Foreign (t ∷ rest) i obj (h, hs) = elim (Bool-cases (shallower t.parent (some obj))) [
  | inl up ↦ rw (sibling_from, h, up) refl
  | inr deep ↦ rw (sibling_from, h, deep) (sibling_from-Foreign rest (i + 1) obj hs)
]

pub skip_to-Foreign :
    (rest : List Tok) (i obj : ℕ) → Foreign obj rest → skip_to rest i obj ≡ i + length rest
unfolding skip_to
skip_to-Foreign [] i obj h = omega arith
skip_to-Foreign (t ∷ rest) i obj (h, hs) =
    rw (skip_to, h) (skip_to-Foreign rest (i + 1) obj hs ∙ omega arith)

pub inner-Foreign :
    (inner : List Tok) (from obj : ℕ) → All (Within from) inner → obj < from → Foreign obj inner
inner-Foreign [] from obj h l = tt
inner-Foreign (t ∷ inner) from obj (h, hs) l =
    ((inner_other t from obj h l).0, inner-Foreign inner from obj hs l)

pub append-Foreign :
    (xs ys : List Tok) (obj : ℕ) → Foreign obj xs → Foreign obj ys → Foreign obj (xs ++ ys)
append-Foreign [] ys obj h k = k
append-Foreign (x ∷ xs) ys obj (h, hs) k = (h, append-Foreign xs ys obj hs k)

pub drop-append : (xs ys : List Tok) (k : ℕ) → drop (length xs + k) (xs ++ ys) ≡ drop k ys
drop-append [] ys k = ap (λ n. drop n ys) (omega arith)
drop-append (x ∷ xs) ys k =
    let e : length (x ∷ xs) + k ≡ suc (length xs + k) = omega arith in
    ap (λ n. drop n (x ∷ xs ++ ys)) e ∙ drop-append xs ys k
