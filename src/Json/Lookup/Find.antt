-- ===== src/Json/Lookup/Find.antt =====
-- What `oj_obj_get` of src/ojson.c finds in an object that is laid out as keys and values.
use omniserve_native.Prelude.{
  ℕ, zero, suc, ◌+◌, ◌≤◌, ◌<◌, ◌≡◌, refl, sym, ap, ◌∙◌, Bool, append_assoc, append-nil, true, false,
  List, [], ◌∷◌, ◌++◌, Option, none, some, arith, leb, if◌then◌else◌, length, length-append,
  get_elem?, drop, All,
}
use omniserve_native.Json.{Tok, object, same_kind}
use omniserve_native.Json.Lookup.Keys.{get_elem?-out}
use omniserve_native.Json.Lookup.{
  sibling_from, next_sibling, skip_to, next_key, get_from, obj_get, str_eq,
}
use omniserve_native.Json.Lookup.Members.{
  Member, flat, Within, Laid, find_member, Foreign, own, sibling_from-inner, sibling_from-Foreign,
  skip_to-Foreign, inner-Foreign, append-Foreign, drop-append,
}

sibling_of :
    (toks d : List Tok) (val obj : ℕ) (v : Tok)
    → get_elem? toks val ≡ some v
    → v.parent ≡ some obj
    → drop (val + 1) toks ≡ d
    → next_sibling toks val ≡ sibling_from d (val + 1) (some obj)
unfolding next_sibling
sibling_of toks d val obj v at p e = rw (next_sibling, at, p, e) refl

next_key_here :
    (toks : List Tok) (val obj j : ℕ) → next_sibling toks val ≡ some j → next_key toks obj val ≡ j
unfolding next_key
next_key_here toks val obj j e = rw (next_key, e) refl

next_key_skips :
    (toks d : List Tok) (val obj : ℕ)
    → next_sibling toks val ≡ none
    → drop (val + 1) toks ≡ d
    → next_key toks obj val ≡ skip_to d (val + 1) obj
unfolding next_key
next_key_skips toks d val obj e f = rw (next_key, e, f) refl

get_from_step :
    (fuel : ℕ) (js : List ℕ) (toks : List Tok) (obj : ℕ) (name : List ℕ) (i : ℕ) (t : Tok)
    → get_elem? toks i ≡ some t
    → t.parent ≡ some obj
    → i + 1 < length toks
    → get_from (suc fuel) js toks obj name i ≡ (
        if str_eq js t name
        then some (i + 1)
        else get_from fuel js toks obj name (next_key toks obj (i + 1)))
unfolding get_from
get_from_step fuel js toks obj name i t at p more =
    let inside : leb (length toks) (i + 1) ≡ false = ground arith in
    rw (get_from, at, p, own obj, inside) refl

get_from-none :
    (fuel : ℕ) (js : List ℕ) (toks : List Tok) (obj : ℕ) (name : List ℕ) (i : ℕ)
    → length toks ≤ i
    → get_from fuel js toks obj name i ≡ none
unfolding get_from
get_from-none zero js toks obj name i h = refl
get_from-none (suc fuel) js toks obj name i h = rw (get_from, get_elem?-out toks i h) refl

get_elem?-drop_head : (toks : List Tok) (i : ℕ) → get_elem? toks i ≡ get_elem? (drop i toks) 0
get_elem?-drop_head toks zero = ap (λ n. get_elem? n 0) refl
get_elem?-drop_head [] (suc i) = refl
get_elem?-drop_head (x ∷ toks) (suc i) = get_elem?-drop_head toks i

drop_nil : (n : ℕ) → drop {A = Tok} n [] ≡ []
drop_nil zero = refl
drop_nil (suc n) = refl

drop-drop : (toks : List Tok) (i k : ℕ) → drop (i + k) toks ≡ drop k (drop i toks)
drop-drop toks zero k = ap (λ n. drop n toks) (omega arith)
drop-drop [] (suc i) zero = drop_nil (suc i + 0)
drop-drop [] (suc i) (suc k) = drop_nil (suc i + suc k)
drop-drop (x ∷ toks) (suc i) k =
    let e : suc i + k ≡ suc (i + k) = omega arith in
    ap (λ n. drop n (x ∷ toks)) e ∙ drop-drop toks i k

drop-next :
    (toks : List Tok) (i : ℕ) (t : Tok) (d : List Tok) → drop i toks ≡ t ∷ d → drop (i + 1) toks ≡ d
drop-next toks i t d e = drop-drop toks i 1 ∙ ap (drop 1) e

get_elem?-at :
    (toks : List Tok) (i : ℕ) (t : Tok) (d : List Tok)
    → drop i toks ≡ t ∷ d
    → get_elem? toks i ≡ some t
get_elem?-at toks i t d e = get_elem?-drop_head toks i ∙ ap (λ l. get_elem? l 0) e

-- Behind the last member the loop runs to the end of the tokens.
next_key_last :
    (toks inner rest : List Tok) (val from obj : ℕ) (v : Tok)
    → get_elem? toks val ≡ some v
    → v.parent ≡ some obj
    → drop (val + 1) toks ≡ inner ++ rest
    → length toks ≡ val + 1 + length (inner ++ rest)
    → All (Within from) inner
    → obj < from
    → Foreign obj rest
    → next_key toks obj val ≡ length toks
next_key_last toks inner rest val from obj v at p e len h l k =
    let all = append-Foreign inner rest obj (inner-Foreign inner from obj h l) k in
    let lost =
      sibling_of toks (inner ++ rest) val obj v at p e
      ∙ sibling_from-Foreign (inner ++ rest) (val + 1) obj all in
    next_key_skips toks (inner ++ rest) val obj lost e
    ∙ skip_to-Foreign (inner ++ rest) (val + 1) obj all
    ∙ sym len

-- Behind any other member it goes on with the next key.
next_key_more :
    (toks inner rest : List Tok) (val from obj : ℕ) (v k : Tok)
    → get_elem? toks val ≡ some v
    → v.parent ≡ some obj
    → drop (val + 1) toks ≡ inner ++ (k ∷ rest)
    → All (Within from) inner
    → obj < from
    → k.parent ≡ some obj
    → next_key toks obj val ≡ val + 1 + length inner
unfolding sibling_from
next_key_more toks inner rest val from obj v k at p e h l q =
    next_key_here toks val obj (val + 1 + length inner) (
      sibling_of toks (inner ++ (k ∷ rest)) val obj v at p e
      ∙ sibling_from-inner inner (k ∷ rest) (val + 1) from obj h l
      ∙ rw (sibling_from, q, own obj) refl)

get_from-Foreign :
    (fuel : ℕ) (js : List ℕ) (toks : List Tok) (obj : ℕ) (name : List ℕ) (i : ℕ) (rest : List Tok)
    → drop i toks ≡ rest
    → length toks ≡ i + length rest
    → Foreign obj rest
    → get_from fuel js toks obj name i ≡ none
unfolding get_from
get_from-Foreign zero js toks obj name i rest e len h = refl
get_from-Foreign (suc fuel) js toks obj name i [] e len h =
    get_from-none (suc fuel) js toks obj name i (omega (arith, len))
get_from-Foreign (suc fuel) js toks obj name i (t ∷ rest) e len (h, hs) =
    rw (get_from, get_elem?-at toks i t rest e, h) refl

branches :
    (b : Bool) (x : Option ℕ) {y z w : Option ℕ}
    → w ≡ (if b then x else y)
    → y ≡ z
    → w ≡ (if b then x else z)
branches b x e f = e ∙ ap (λ r. if b then x else r) f

-- The loop on the members from index `i` on, with a round for each of them.
get_from-find_member :
    (fuel : ℕ) (js : List ℕ) (toks : List Tok) (obj : ℕ) (name : List ℕ) (i : ℕ) (ms : List Member)
    (rest : List Tok)
    → drop i toks ≡ flat ms ++ rest
    → length toks ≡ i + length (flat ms ++ rest)
    → obj < i
    → length ms ≤ fuel
    → Laid obj i ms
    → Foreign obj rest
    → get_from fuel js toks obj name i ≡ find_member js name i ms
get_from-find_member fuel js toks obj name i [] rest e len l enough laid k =
    get_from-Foreign fuel js toks obj name i rest e len k
get_from-find_member zero js toks obj name i (m ∷ ms) rest e len l enough laid k =
    absurd (omega (arith, enough))
get_from-find_member (suc fuel) js toks obj name i (m ∷ []) rest e len l enough (kp, vp, hi, more)
      k =
    let key = get_elem?-at toks i m.key _ e in
    let from_val = drop-next toks i m.key _ e in
    let val = get_elem?-at toks (i + 1) m.val _ from_val in
    let flatten : (m.inner ++ []) ++ rest ≡ m.inner ++ rest =
      ap (λ l. l ++ rest) (append-nil m.inner) in
    let behind = drop-next toks (i + 1) m.val _ from_val ∙ flatten in
    let size : length toks ≡ i + 1 + 1 + length (m.inner ++ rest) =
      omega (arith, len, ap length flatten) in
    let ends =
      next_key_last toks m.inner rest (i + 1) (i + 1) obj m.val val vp behind size hi (omega arith)
        k in
    branches (str_eq js m.key name) (some (i + 1))
      (get_from_step fuel js toks obj name i m.key key kp (omega (arith, size)))
      (ap (get_from fuel js toks obj name) ends
        ∙ get_from-none fuel js toks obj name (length toks) (omega arith))
get_from-find_member (suc fuel) js toks obj name i (m ∷ n ∷ ms) rest e len l enough
      (kp, vp, hi, more) k =
    let key = get_elem?-at toks i m.key _ e in
    let from_val = drop-next toks i m.key _ e in
    let val = get_elem?-at toks (i + 1) m.val _ from_val in
    let assoc = append_assoc m.inner (flat (n ∷ ms)) rest in
    let behind = drop-next toks (i + 1) m.val _ from_val ∙ assoc in
    let size : length toks ≡ i + 1 + 1 + length (m.inner ++ (flat (n ∷ ms) ++ rest)) =
      omega (arith, len, ap length assoc) in
    let later : i + 1 + 1 + length m.inner ≡ i + 2 + length m.inner = omega arith in
    let on =
      next_key_more toks m.inner _ (i + 1) (i + 1) obj m.val n.key val vp behind hi (omega arith)
        more.0
      ∙ later in
    let there : drop (i + 2 + length m.inner) toks ≡ flat (n ∷ ms) ++ rest =
      ap (λ j. drop j toks) (omega arith)
      ∙ drop-drop toks (i + 1 + 1) (length m.inner + 0)
      ∙ ap (drop (length m.inner + 0)) behind
      ∙ drop-append m.inner (flat (n ∷ ms) ++ rest) 0 in
    let left : length toks ≡ i + 2 + length m.inner + length (flat (n ∷ ms) ++ rest) =
      omega (arith, size, length-append m.inner (flat (n ∷ ms) ++ rest)) in
    branches (str_eq js m.key name) (some (i + 1))
      (get_from_step fuel js toks obj name i m.key key kp (omega (arith, size)))
      (ap (get_from fuel js toks obj name) on
        ∙ get_from-find_member fuel js toks obj name (i + 2 + length m.inner) (n ∷ ms) rest there
            left (omega arith) (omega (arith, enough)) more k)

length-flat : (ms : List Member) → length ms ≤ length (flat ms)
length-flat [] = omega arith
length-flat (m ∷ ms) = omega (arith, length-flat ms, length-append m.inner (flat ms))

-- In tokens where an object is laid out as keys and values, with no child of it behind them, `obj_get`
-- finds the value of the first member whose key is the name, and nothing where there is none: a
-- value, and what is inside it, is never taken for a key.
pub obj_get-find_member :
    (js name : List ℕ) (front : List Tok) (o : Tok) (ms : List Member) (rest : List Tok)
    → o.kind ≡ object
    → Laid (length front) (length front + 1) ms
    → Foreign (length front) rest
    → obj_get js (front ++ (o ∷ (flat ms ++ rest))) (length front) name
      ≡ find_member js name (length front + 1) ms
unfolding obj_get
obj_get-find_member js name front o ms rest kind laid k =
    let toks = front ++ (o ∷ (flat ms ++ rest)) in
    let obj = length front in
    let from_obj : drop obj toks ≡ o ∷ (flat ms ++ rest) =
      ap (λ n. drop n toks) (omega arith) ∙ drop-append front (o ∷ (flat ms ++ rest)) 0 in
    let at = get_elem?-at toks obj o _ from_obj in
    let size : length toks ≡ obj + 1 + length (flat ms ++ rest) =
      omega (arith, length-append front (o ∷ (flat ms ++ rest))) in
    let is_object : same_kind o.kind object ≡ true = rw kind refl in
    let found =
      get_from-find_member (length toks) js toks obj name (obj + 1) ms rest
        (drop-next toks obj o _ from_obj) size (omega arith)
        (omega (arith, size, length-flat ms, length-append (flat ms) rest)) laid k in
    rw (obj_get, at, is_object) found
