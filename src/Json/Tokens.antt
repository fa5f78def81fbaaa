-- ===== src/Json/Tokens.antt =====
-- What `oj_parse` of src/ojson.c keeps of its token array while it runs, and what it returns.
use omniserve_native.Prelude.{
  ℕ, zero, suc, ◌+◌, ◌-◌, ◌≤◌, ◌<◌, ◌≡◌, ◌≢◌, sym, ap, ◌∙◌, subst, true, false, List, [], ◌∷◌, none,
  some, inl, inr, arith, Bool-cases, Option-cases, ◌==◌, length, length-drop, get_elem?, drop, All,
}
use mathlib.Core.Option.{some-injective}
use omniserve_native.Json.{
  Kind, object, array, string, primitive, Tok, Parser, is_open, is_delimiter, open_container,
  close_from, add_leaf, string_end, primitive_end, parse_byte, parse_loop, parse, parsed, invalid,
  out_of_fuel, Outcome, all_closed,
}
use omniserve_native.Json.Scan.{
  string_end-slow_end, slow_end_bounds, primitive_end_bounds, primitive_end_moves,
}
use omniserve_native.Json.Children.{get_elem?-bound}
use omniserve_native.Json.Kept.{
  Whole, Kept, Fits-later, open_container-Kept, add_leaf-Kept, close_from-Kept,
}

drop-here {ℓ} :
    {A : Type ℓ} (xs : List A) (i : ℕ) (a : A)
    → get_elem? xs i ≡ some a
    → (rest : List A) × (drop i xs ≡ a ∷ rest)
drop-here [] i a e = cc
drop-here (x ∷ xs) zero a e = (xs, ap (λ y. y ∷ xs) (some-injective x a e))
drop-here (x ∷ xs) (suc i) a e = drop-here xs i a e

-- What a round of the loop leaves, whose byte is consumed.
abbrev Advanced : List ℕ → ℕ → ℕ → Parser → Type 0
Advanced js max_toks pos q = (pos ≤ q.pos) × (q.pos < length js) × Kept (q.pos + 1) max_toks q

Advanced-here :
    (js : List ℕ) (max_toks : ℕ) (p q : Parser)
    → p.pos < length js
    → (q.pos ≡ p.pos) × Kept (p.pos + 1) max_toks q
    → Advanced js max_toks p.pos q
Advanced-here js max_toks p q h (at, kept) =
    (omega (arith, at), omega (arith, at), subst (λ n. Kept (n + 1) max_toks q) (sym at) kept)

string-Advanced :
    (js : List ℕ) (max_toks : ℕ) (p q : Parser) (quote : ℕ)
    → Kept p.pos max_toks p
    → p.pos < length js
    → string_end (drop (p.pos + 1) js) (p.pos + 1) ≡ some quote
    → add_leaf p max_toks string (p.pos + 1) quote quote ≡ some q
    → Advanced js max_toks p.pos q
string-Advanced js max_toks p q quote kept h s e =
    let rest = drop (p.pos + 1) js in
    let (lo, hi, at) =
      slow_end_bounds rest (p.pos + 1) {end = quote}
        (sym (string_end-slow_end rest (p.pos + 1)) ∙ s) in
    let (there, kept') =
      add_leaf-Kept p q max_toks string (p.pos + 1) quote quote kept (omega arith) (omega arith)
        (omega arith) e in
    (
      omega (arith, there),
      omega (arith, there, length-drop (p.pos + 1) js),
      subst (λ n. Kept (n + 1) max_toks q) (sym there) kept',
    )

primitive-Advanced :
    (js : List ℕ) (max_toks : ℕ) (p q : Parser) (c end : ℕ)
    → Kept p.pos max_toks p
    → get_elem? js p.pos ≡ some c
    → is_delimiter c ≡ false
    → primitive_end (drop p.pos js) p.pos ≡ some end
    → add_leaf p max_toks primitive p.pos end (end - 1) ≡ some q
    → Advanced js max_toks p.pos q
primitive-Advanced js max_toks p q c end kept at d s e =
    let (rest, split) = drop-here js p.pos c at in
    let inside = get_elem?-bound js p.pos at in
    let moves = primitive_end_moves c rest p.pos {end = end} d (rw split at s) in
    let (lo, hi) = primitive_end_bounds (drop p.pos js) p.pos {end = end} s in
    let (there, kept') =
      add_leaf-Kept p q max_toks primitive p.pos end (end - 1) kept (omega (arith, moves))
        (omega (arith, moves)) (omega (arith, moves)) e in
    (
      omega (arith, there, moves),
      omega (arith, there, moves, inside, length-drop p.pos js),
      subst (λ n. Kept (n + 1) max_toks q) (sym there) kept',
    )

skip-Advanced :
    (js : List ℕ) (max_toks : ℕ) (p : Parser)
    → p.pos < length js
    → Kept p.pos max_toks p
    → Advanced js max_toks p.pos p
skip-Advanced js max_toks p h ((fs, ps, ss), above, room) =
    (omega arith, h, ((Fits-later p.pos (p.pos + 1) p.toks (omega arith) fs, ps, ss), above, room))

parse_byte-Advanced :
    (js : List ℕ) (max_toks : ℕ) (p q : Parser) (c : ℕ)
    → Kept p.pos max_toks p
    → get_elem? js p.pos ≡ some c
    → parse_byte js max_toks p c ≡ some q
    → Advanced js max_toks p.pos q
unfolding parse_byte
parse_byte-Advanced js max_toks p q c kept at e =
    let inside = get_elem?-bound js p.pos at in
    let open_ok = λ (kind : Kind) (f : open_container p max_toks kind ≡ some q).
      Advanced-here js max_toks p q inside (open_container-Kept p q max_toks kind kept f) in
    let close_ok = λ (kind : Kind) (f : close_from (length p.toks) p kind p.super ≡ some q).
      Advanced-here js max_toks p q inside
        (close_from-Kept (length p.toks) p q kind p.super max_toks kept f) in
    elim (Bool-cases (c == b'{')) [
      | inl a1 ↦ open_ok object (rw (a1, parse_byte) at e)
      | inr a1 ↦ elim (Bool-cases (c == b'[')) [
        | inl a2 ↦ open_ok array (rw (a1, a2, parse_byte) at e)
        | inr a2 ↦ elim (Bool-cases (c == b'}')) [
          | inl a3 ↦ close_ok object (rw (a1, a2, a3, parse_byte) at e)
          | inr a3 ↦ elim (Bool-cases (c == b']')) [
            | inl a4 ↦ close_ok array (rw (a1, a2, a3, a4, parse_byte) at e)
            | inr a4 ↦ elim (Bool-cases (c == b'"')) [
              | inl a5 ↦ elim (Option-cases (string_end (drop (p.pos + 1) js) (p.pos + 1))) [
                | inl bad ↦ let e' = rw (a1, a2, a3, a4, a5, bad, parse_byte) at e in cc
                | inr (quote, s) ↦
                    string-Advanced js max_toks p q quote kept inside s
                      (rw (a1, a2, a3, a4, a5, s, parse_byte) at e)
              ]
              | inr a5 ↦ elim (Bool-cases (is_delimiter c)) [
                | inl a6 ↦
                    let e' = rw (a1, a2, a3, a4, a5, a6, parse_byte) at e in
                    subst (Advanced js max_toks p.pos) (some-injective p q e')
                      (skip-Advanced js max_toks p inside kept)
                | inr a6 ↦ elim (Option-cases (primitive_end (drop p.pos js) p.pos)) [
                  | inl bad ↦ let e' = rw (a1, a2, a3, a4, a5, a6, bad, parse_byte) at e in cc
                  | inr (end, s) ↦
                      primitive-Advanced js max_toks p q c end kept at a6 s
                        (rw (a1, a2, a3, a4, a5, a6, s, parse_byte) at e)
                ]
              ]
            ]
          ]
        ]
      ]
    ]

-- `oj_parse` returned these tokens: each is closed and lies in the document, its parent comes
-- before it, its size counts its children, and there are at most `max_toks`.
abbrev Closed : Tok → Type 0
Closed t = is_open t.end ≡ false

unfoldable pub IsTokens : List ℕ → ℕ → List Tok → Type 0
IsTokens js max_toks toks = Whole (length js) toks × All Closed toks × (length toks ≤ max_toks)

all_closed-Closed : (toks : List Tok) → all_closed toks ≡ true → All Closed toks
all_closed-Closed [] e = tt
all_closed-Closed (t ∷ ts) e = elim (Bool-cases (is_open t.end)) [
  | inl o ↦ let e' = rw o at e in cc
  | inr c ↦ (c, all_closed-Closed ts (rw c at e))
]

abbrev Good : List ℕ → ℕ → Outcome → Type 0
Good js max_toks (parsed toks) = IsTokens js max_toks toks
Good js max_toks invalid = Unit
Good js max_toks out_of_fuel = 1 ≤ 0

parse_loop-Good :
    (fuel : ℕ) (js : List ℕ) (max_toks : ℕ) (p : Parser)
    → length js < fuel + p.pos
    → p.pos ≤ length js
    → Kept p.pos max_toks p
    → Good js max_toks (parse_loop fuel js max_toks p)
unfolding parse_loop
parse_loop-Good zero js max_toks p f h kept = omega arith
parse_loop-Good (suc fuel) js max_toks p f h kept = elim (Option-cases (get_elem? js p.pos)) [
  | inl out ↦ elim (Bool-cases (all_closed p.toks)) [
    | inl c ↦
        rw (out, c, parse_loop)
          (let ((fs, ps, ss), above, room) = kept in
            unfold IsTokens in
            ((Fits-later p.pos (length js) p.toks h fs, ps, ss), all_closed-Closed p.toks c, room))
    | inr c ↦ rw (out, c, parse_loop) tt
  ]
  | inr (c, at) ↦ elim (Option-cases (parse_byte js max_toks p c)) [
    | inl bad ↦ rw (at, bad, parse_loop) tt
    | inr (q, e) ↦
        let (on, inside, kept') = parse_byte-Advanced js max_toks p q c kept at e in
        rw (at, e, parse_loop)
          (parse_loop-Good fuel js max_toks (record q { pos = q.pos + 1 }) (omega arith)
            (omega arith) kept')
  ]
]

parse-Good : (js : List ℕ) (max_toks : ℕ) → Good js max_toks (parse js max_toks)
unfolding parse
parse-Good js max_toks =
    parse_loop-Good (length js + 1) js max_toks (record { pos = 0; super = none; toks = [] })
      (omega arith) (omega arith) ((tt, (λ i j t e p. cc), (λ i t e. cc)), (λ j e. cc), omega arith)

-- The loop of the parse comes to its end, on any bytes, within one round more than there are
-- bytes.
pub parse-terminates : (js : List ℕ) (max_toks : ℕ) → parse js max_toks ≢ out_of_fuel
parse-terminates js max_toks e =
    let h : 1 ≤ 0 = subst (Good js max_toks) e (parse-Good js max_toks) in omega arith

-- The tokens of a successful parse: each is closed and lies in the document, its end not before
-- its start; its parent stands before it; its size is the number of tokens whose parent it is; and
-- there are at most `max_toks` of them.
pub parse-IsTokens :
    (js : List ℕ) (max_toks : ℕ) (toks : List Tok)
    → parse js max_toks ≡ parsed toks
    → IsTokens js max_toks toks
unfolding IsTokens
parse-IsTokens js max_toks toks e = subst (Good js max_toks) e (parse-Good js max_toks)
