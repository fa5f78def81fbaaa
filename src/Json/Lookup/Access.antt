-- ===== src/Json/Lookup/Access.antt =====
-- `oj_arr_at` and `oj_obj_get` of src/ojson.c on the tokens of a parsed document.
use omniserve_native.Prelude.{
  ℕ, zero, suc, ◌+◌, ◌-◌, ◌≤◌, ◌<◌, ◌≡◌, refl, sym, ap, ◌∙◌, true, false, List, [], ◌∷◌, Option,
  none, some, inl, inr, arith, Bool-cases, ◌==◌, if◌then◌else◌, get_elem?, drop, take, sum_by,
  sum_by-append, take-append-drop,
}
use omniserve_native.Json.{Tok, array, same_kind, parse, parsed}
use omniserve_native.Json.Children.{child, children, names, names_other, no_children, Parents}
use omniserve_native.Json.Lookup.{same_index, at_from, arr_at}
use omniserve_native.Json.Tokens.{IsTokens, parse-IsTokens}

same_index-names : (o : Option ℕ) (i : ℕ) → same_index o (some i) ≡ names i o
same_index-names none i = refl
same_index-names (some j) i = ground arith

-- A token found `k` places on, a child of `arr`, with `before` children of it in front.
unfoldable pub IsChild : List Tok → ℕ → ℕ → ℕ → Type 0
IsChild toks arr before k =
    (t : Tok) × (get_elem? toks k ≡ some t)
    × (t.parent ≡ some arr)
    × (children arr (take k toks) ≡ before)

parent_named : (o : Option ℕ) (i : ℕ) → same_index o (some i) ≡ true → o ≡ some i
parent_named none i e = cc
parent_named (some j) i e = ground arith

at_from_finds :
    (ts : List Tok) (i arr count index : ℕ)
    → count ≤ index
    → index < count + children arr ts
    → (k : ℕ) × (at_from ts i arr count index ≡ some (i + k)) × IsChild ts arr (index - count) k
unfolding at_from IsChild
at_from_finds [] i arr count index h l = absurd (omega arith)
at_from_finds (t ∷ ts) i arr count index h l = elim (Bool-cases (same_index t.parent (some arr))) [
  | inl c ↦
      let one : child arr t ≡ 1 =
        ap (λ b. if b then 1 else 0) (sym (same_index-names t.parent arr) ∙ c) in
      elim (Bool-cases (count == index)) [
        | inl e ↦ (
          0,
          rw (c, e, at_from) (ap some (omega arith)),
          (t, refl, parent_named t.parent arr c, ground arith),
        )
        | inr e ↦
            let l' : index < count + 1 + children arr ts = omega (arith, one) in
            let (k, found, (u, at, p, before)) =
              at_from_finds ts (i + 1) arr (count + 1) index (ground arith) l' in
            (
              suc k,
              rw (c, e, at_from) (found ∙ ap some (omega arith)),
              (u, at, p, ground (arith, before, one)),
            )
      ]
  | inr c ↦
      let nil : child arr t ≡ 0 =
        ap (λ b. if b then 1 else 0) (sym (same_index-names t.parent arr) ∙ c) in
      let l' : index < count + children arr ts = omega (arith, nil) in
      let (k, found, (u, at, p, before)) = at_from_finds ts (i + 1) arr count index h l' in
      (
        suc k,
        rw (c, at_from) (found ∙ ap some (omega arith)),
        (u, at, p, omega (arith, before, nil)),
      )
]

at_from-none :
    (ts : List Tok) (i arr count index : ℕ)
    → count + children arr ts ≤ index
    → at_from ts i arr count index ≡ none
unfolding at_from
at_from-none [] i arr count index h = refl
at_from-none (t ∷ ts) i arr count index h = elim (Bool-cases (same_index t.parent (some arr))) [
  | inl c ↦
      let counted : names arr t.parent ≡ true = sym (same_index-names t.parent arr) ∙ c in
      let h' = rw counted at h in
      let other : (count == index) ≡ false = ground arith in
      rw (c, other, at_from) (at_from-none ts (i + 1) arr (count + 1) index (omega arith))
  | inr c ↦
      let counted : names arr t.parent ≡ false = sym (same_index-names t.parent arr) ∙ c in
      let h' = rw counted at h in
      rw (c, at_from) (at_from-none ts (i + 1) arr count index (omega arith))
]

get_elem?-drop {ℓ} :
    {A : Type ℓ} (n : ℕ) (xs : List A) (k : ℕ) → get_elem? (drop n xs) k ≡ get_elem? xs (n + k)
get_elem?-drop zero xs k = ap (get_elem? xs) (omega arith)
get_elem?-drop (suc n) [] k = refl
get_elem?-drop (suc n) (x ∷ xs) k =
    let e : suc n + k ≡ suc (n + k) = omega arith in
    get_elem?-drop n xs k ∙ sym (ap (get_elem? (x ∷ xs)) e)

sum_by_none {ℓ} : {A : Type ℓ} (f : A → ℕ) (n : ℕ) → sum_by f (take n []) ≡ 0
sum_by_none f zero = refl
sum_by_none f (suc n) = refl

sum_by-take {ℓ} :
    {A : Type ℓ} (f : A → ℕ) (n k : ℕ) (xs : List A)
    → sum_by f (take (n + k) xs) ≡ sum_by f (take n xs) + sum_by f (take k (drop n xs))
sum_by-take f zero k xs = let e : 0 + k ≡ k = omega arith in rw e (omega arith)
sum_by-take f (suc n) k [] = omega (arith, sum_by_none f (suc n + k), sum_by_none f k)
sum_by-take f (suc n) k (x ∷ xs) =
    let e : suc n + k ≡ suc (n + k) = omega arith in rw e (omega (arith, sum_by-take f n k xs))

get_elem?-take {ℓ} :
    {A : Type ℓ} (n : ℕ) (xs : List A) (k : ℕ) (a : A)
    → get_elem? (take n xs) k ≡ some a
    → (k < n) × (get_elem? xs k ≡ some a)
get_elem?-take zero xs k a e = cc
get_elem?-take (suc n) [] k a e = cc
get_elem?-take (suc n) (x ∷ xs) zero a e = (omega arith, e)
get_elem?-take (suc n) (x ∷ xs) (suc k) a e =
    let (h, f) = get_elem?-take n xs k a e in (omega arith, f)

-- No child stands before the end of its parent's own token.
none_before : (toks : List Tok) (arr : ℕ) → Parents toks → children arr (take (arr + 1) toks) ≡ 0
none_before toks arr ps = no_children (take (arr + 1) toks) arr (λ k t e.
    let (h, f) = get_elem?-take (arr + 1) toks k t e in
    names_other arr t.parent (λ j p. omega (arith, ps k j t f p)))

-- In a parsed document, `arr_at` at an index below the array's size finds the child with that many
-- of its siblings in front, and at any other index none.
pub arr_at-IsChild :
    (js : List ℕ) (max_toks : ℕ) (toks : List Tok) (arr index : ℕ) (a : Tok)
    → parse js max_toks ≡ parsed toks
    → get_elem? toks arr ≡ some a
    → a.kind ≡ array
    → (index < a.size → (i : ℕ) × (arr_at toks arr index ≡ some i) × IsChild toks arr index i)
      × (a.size ≤ index → arr_at toks arr index ≡ none)
unfolding arr_at IsTokens IsChild
arr_at-IsChild js max_toks toks arr index a ok at kind =
    let ((fits, parents, sized), closed, room) = parse-IsTokens js max_toks toks ok in
    let is_array : same_kind a.kind array ≡ true = rw kind refl in
    let after = drop (arr + 1) toks in
    let none = none_before toks arr parents in
    let split = ap (children arr) (take-append-drop (arr + 1) toks) in
    let sum = sum_by-append (child arr) (take (arr + 1) toks) after in
    let size : a.size ≡ children arr after = omega (arith, sized arr a at, none, split, sum) in
    (
      (λ h.
          let (k, found, (t, here, p, before)) =
            at_from_finds after (arr + 1) arr 0 index (omega arith) (omega (arith, size)) in
          (
            arr + 1 + k,
            rw (at, is_array, arr_at) found,
            (
              t,
              sym (get_elem?-drop (arr + 1) toks k) ∙ here,
              p,
              omega (arith, sum_by-take (child arr) (arr + 1) k toks, none, before),
            ),
          )),
      (λ h.
          rw (at, is_array, arr_at)
            (at_from-none after (arr + 1) arr 0 index (omega (arith, size)))),
    )
