-- ===== src/Json/Lookup.antt =====
-- The lookups of src/ojson.c in a token array: `oj_next_sibling`, `oj_obj_get`, `oj_arr_at`,
-- `oj_str_eq`, `oj_bool`.
pub mod Access
pub mod Keys
pub mod Members
pub mod Find
mod Tests
use omniserve_native.Prelude.{
  ℕ, zero, suc, ◌+◌, ◌-◌, ◌≤◌, ◌<◌, ◌≡◌, refl, Bool, true, false, ◌&&◌, ◌||◌, List, [], ◌∷◌, Option,
  none, some, inl, inr, arith, Bool-cases, Option-cases, ltb, leb, ◌==◌, if◌then◌else◌, length,
  take, drop, get_elem?,
}
use omniserve_native.Json.{Kind, object, array, string, primitive, Tok, same_kind}

abbrev pub same_index : Option ℕ → Option ℕ → Bool
same_index none none = true
same_index (some i) (some j) = i == j
same_index i j = false

-- `a < b && a != -1`.
abbrev pub shallower : Option ℕ → Option ℕ → Bool
shallower (some a) (some b) = ltb a b
shallower a b = false

-- The loop of `oj_next_sibling`, on the tokens from index `i` on.
pub sibling_from : List Tok → ℕ → Option ℕ → Option ℕ
sibling_from [] i depth_parent = none
sibling_from (t ∷ ts) i depth_parent =
    let rest = sibling_from ts (i + 1) depth_parent in
    if same_index t.parent depth_parent
    then some i
    else if shallower t.parent depth_parent
    then none
    else rest

unfoldable pub next_sibling : List Tok → ℕ → Option ℕ
unfolding sibling_from
next_sibling toks tok = elim (get_elem? toks tok) [
  | none ↦ none
  | some t ↦ sibling_from (drop (tok + 1) toks) (tok + 1) t.parent
]

-- `memcmp(…) == 0`.
unfoldable pub same_bytes : List ℕ → List ℕ → Bool
same_bytes [] [] = true
same_bytes (a ∷ xs) (b ∷ ys) = a == b && same_bytes xs ys
same_bytes xs ys = false

-- `str_eq`: with an end before the start, the size is no size of a text.
unfoldable pub str_eq : List ℕ → Tok → List ℕ → Bool
unfolding same_bytes
str_eq js t s = elim t.end [
  | none ↦ false
  | some e ↦
      same_kind t.kind string
      && (leb t.start e
          && (e - t.start == length s && same_bytes (take (length s) (drop t.start js)) s))
]

-- The first token from index `i` on whose parent is `obj`, or the number of tokens.
unfoldable pub skip_to : List Tok → ℕ → ℕ → ℕ
skip_to [] i obj = i
skip_to (t ∷ ts) i obj =
    let rest = skip_to ts (i + 1) obj in if same_index t.parent (some obj) then i else rest

-- Where the loop of `oj_obj_get` goes on after the value at `val`.
unfoldable pub next_key : List Tok → ℕ → ℕ → ℕ
unfolding next_sibling skip_to
next_key toks obj val = elim (next_sibling toks val) [
  | none ↦ skip_to (drop (val + 1) toks) (val + 1) obj
  | some sib ↦ sib
]

-- The loop of `oj_obj_get` from index `i` on.
unfoldable pub get_from : ℕ → List ℕ → List Tok → ℕ → List ℕ → ℕ → Option ℕ
unfolding next_key str_eq
get_from zero js toks obj key i = none
get_from (suc fuel) js toks obj key i =
    let rest = get_from fuel js toks obj key (next_key toks obj (i + 1)) in
    elim (get_elem? toks i) [
      | none ↦ none
      | some t ↦
          if same_index t.parent (some obj)
          then (if leb (length toks) (i + 1)
              then none
              else if str_eq js t key
              then some (i + 1)
              else rest)
          else none
    ]

unfoldable pub obj_get : List ℕ → List Tok → ℕ → List ℕ → Option ℕ
unfolding get_from
obj_get js toks obj key = elim (get_elem? toks obj) [
  | none ↦ none
  | some t ↦
      if same_kind t.kind object then get_from (length toks) js toks obj key (obj + 1) else none
]

-- The loop of `oj_arr_at`, on the tokens from index `i` on.
unfoldable pub at_from : List Tok → ℕ → ℕ → ℕ → ℕ → Option ℕ
at_from [] i arr count index = none
at_from (t ∷ ts) i arr count index =
    let later = at_from ts (i + 1) arr (count + 1) index in
    let rest = at_from ts (i + 1) arr count index in
    if same_index t.parent (some arr) then (if count == index then some i else later) else rest

unfoldable pub arr_at : List Tok → ℕ → ℕ → Option ℕ
unfolding at_from
arr_at toks arr index = elim (get_elem? toks arr) [
  | none ↦ none
  | some t ↦
      if same_kind t.kind array then at_from (drop (arr + 1) toks) (arr + 1) arr 0 index else none
]

-- `oj_bool`, on a token whose start is in the document.
pub bool_of : List ℕ → Tok → Bool → Bool
bool_of js t fallback =
    if same_kind t.kind primitive
    then elim (get_elem? js t.start) [
      | none ↦ fallback
      | some c ↦ if c == b't' then true else if c == b'f' then false else fallback
    ]
    else fallback
