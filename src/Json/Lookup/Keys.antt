-- ===== src/Json/Lookup/Keys.antt =====
-- `oj_obj_get` of src/ojson.c: what it finds, and that its loop needs no more rounds than tokens.
use omniserve_native.Prelude.{
  ℕ, zero, suc, ◌+◌, ◌≤◌, ◌<◌, ◌≡◌, refl, sym, ap, true, List, [], ◌∷◌, Option, none, some, inl,
  inr, arith, Bool-cases, Option-cases, leb, if◌then◌else◌, length, get_elem?, drop,
}
use mathlib.Core.Option.{some-injective}
use omniserve_native.Json.{Tok, object, same_kind}
use omniserve_native.Json.Lookup.{
  same_index, sibling_from, next_sibling, skip_to, next_key, get_from, obj_get, str_eq,
}

parent_is : (o : Option ℕ) (i : ℕ) → same_index o (some i) ≡ true → o ≡ some i
parent_is none i e = cc
parent_is (some j) i e = ground arith

-- A value of `obj` stands behind its key: a string token with the key's bytes, in the object.
unfoldable pub IsValue : List ℕ → List Tok → ℕ → List ℕ → ℕ → Type 0
IsValue js toks obj key v =
    (i : ℕ) × (t : Tok) × (v ≡ i + 1)
    × (v < length toks)
    × (get_elem? toks i ≡ some t)
    × (t.parent ≡ some obj)
    × (str_eq js t key ≡ true)

get_from-IsValue :
    (fuel : ℕ) (js : List ℕ) (toks : List Tok) (obj : ℕ) (key : List ℕ) (i v : ℕ)
    → get_from fuel js toks obj key i ≡ some v
    → IsValue js toks obj key v
unfolding get_from IsValue
get_from-IsValue zero js toks obj key i v e = cc
get_from-IsValue (suc fuel) js toks obj key i v e = elim (Option-cases (get_elem? toks i)) [
  | inl out ↦ let e' = rw (out, get_from) at e in cc
  | inr (t, at) ↦ elim (Bool-cases (same_index t.parent (some obj))) [
    | inr other ↦ let e' = rw (at, other, get_from) at e in cc
    | inl mine ↦ elim (Bool-cases (leb (length toks) (i + 1))) [
      | inl last ↦ let e' = rw (at, mine, last, get_from) at e in cc
      | inr more ↦ elim (Bool-cases (str_eq js t key)) [
        | inl hit ↦
            let e' = rw (at, mine, more, hit, get_from) at e in
            let is_v = some-injective (i + 1) v e' in
            (i, t, sym is_v, ground (arith, is_v), at, parent_is t.parent obj mine, hit)
        | inr miss ↦
            get_from-IsValue fuel js toks obj key (next_key toks obj (i + 1)) v
              (rw (at, mine, more, miss, get_from) at e)
      ]
    ]
  ]
]

-- What `obj_get` returns is the index of a token behind a string token of the object that is the
-- key.
obj_get-IsValue :
    (js : List ℕ) (toks : List Tok) (obj : ℕ) (key : List ℕ) (v : ℕ)
    → obj_get js toks obj key ≡ some v
    → IsValue js toks obj key v
unfolding obj_get
obj_get-IsValue js toks obj key v e = elim (Option-cases (get_elem? toks obj)) [
  | inl out ↦ let e' = rw (out, obj_get) at e in cc
  | inr (t, at) ↦ elim (Bool-cases (same_kind t.kind object)) [
    | inl obj_kind ↦
        get_from-IsValue (length toks) js toks obj key (obj + 1) v (rw (at, obj_kind, obj_get) at e)
    | inr other ↦ let e' = rw (at, other, obj_get) at e in cc
  ]
]

sibling_from_later :
    (ts : List Tok) (i : ℕ) (o : Option ℕ) (s : ℕ) → sibling_from ts i o ≡ some s → i ≤ s
unfolding sibling_from
sibling_from_later [] i o s e = cc
sibling_from_later (t ∷ ts) i o s e = ground (arith, sibling_from_later ts (i + 1) o s)

skip_to_later : (ts : List Tok) (i obj : ℕ) → i ≤ skip_to ts i obj
unfolding skip_to
skip_to_later [] i obj = omega arith
skip_to_later (t ∷ ts) i obj = ground (arith, skip_to_later ts (i + 1) obj)

next_key_later : (toks : List Tok) (obj val : ℕ) → val < next_key toks obj val
unfolding next_key next_sibling
next_key_later toks obj val = elim (Option-cases (next_sibling toks val)) [
  | inl no_more ↦
      rw (no_more, next_key) (omega (arith, skip_to_later (drop (val + 1) toks) (val + 1) obj))
  | inr (s, e) ↦ elim (Option-cases (get_elem? toks val)) [
    | inl out ↦ let e' = rw (out, next_sibling) at e in cc
    | inr (t, at) ↦
        rw (e, next_key)
          (omega (
            arith,
            sibling_from_later (drop (val + 1) toks) (val + 1) t.parent s
                (rw (at, next_sibling) at e),
          ))
  ]
]

pub get_elem?-out {ℓ} : {A : Type ℓ} (xs : List A) (i : ℕ) → length xs ≤ i → get_elem? xs i ≡ none
get_elem?-out [] i h = refl
get_elem?-out (x ∷ xs) zero h = absurd (omega arith)
get_elem?-out (x ∷ xs) (suc i) h = get_elem?-out xs i (omega arith)

-- The loop of `obj_get` gives the same for any two numbers of rounds that are not below the number
-- of tokens left.
get_from-enough :
    (f g : ℕ) (js : List ℕ) (toks : List Tok) (obj : ℕ) (key : List ℕ) (i : ℕ)
    → length toks ≤ f + i
    → length toks ≤ g + i
    → get_from f js toks obj key i ≡ get_from g js toks obj key i
unfolding get_from
get_from-enough zero zero js toks obj key i h k = refl
get_from-enough zero (suc g) js toks obj key i h k =
    rw (get_elem?-out toks i (omega arith), get_from) refl
get_from-enough (suc f) zero js toks obj key i h k =
    rw (get_elem?-out toks i (omega arith), get_from) refl
get_from-enough (suc f) (suc g) js toks obj key i h k =
    let on = next_key_later toks obj (i + 1) in
    let rest : get_from f js toks obj key (next_key toks obj (i + 1))
        ≡ get_from g js toks obj key (next_key toks obj (i + 1)) =
      get_from-enough f g js toks obj key (next_key toks obj (i + 1)) (omega arith) (omega arith) in
    elim (Option-cases (get_elem? toks i)) [
      | inl out ↦ rw (out, get_from) refl
      | inr (t, at) ↦
          rw (at, get_from)
            (ap
              (λ r.
                if same_index t.parent (some obj)
                then (if leb (length toks) (i + 1)
                    then none
                    else if str_eq js t key
                    then some (i + 1)
                    else r)
                else none)
              rest)
    ]
