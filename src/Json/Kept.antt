-- ===== src/Json/Kept.antt =====
-- What each round of `oj_parse` in src/ojson.c keeps of its token array.
use omniserve_native.Prelude.{
  ℕ, zero, suc, ◌+◌, ◌≤◌, ◌<◌, ◌≡◌, refl, ◌∙◌, subst, List, [], ◌∷◌, ◌++◌, Option, none, some, inl,
  inr, arith, Bool-cases, Option-cases, leb, length, length-append, length-set, get_elem?, set, All,
  All-append, All-map,
}
use mathlib.Core.Option.{some-injective}
use omniserve_native.Json.{
  Kind, Tok, Parser, is_open, same_kind, add_tok, bump_size, open_container, close_from, add_leaf,
}
use omniserve_native.Json.Children.{
  Parents, SizedBut, get_elem?-bound, Parents-append, SizedBut-append, Parents-set, SizedBut-set,
  SizedBut-bump,
}

-- A token lies in the first `bound` bytes; an open one has no end yet.
abbrev pub Ends : ℕ → ℕ → Option ℕ → Type 0
Ends start bound none = Unit
Ends start bound (some e) = (start ≤ e) × (e ≤ bound)

abbrev pub Fits : ℕ → Tok → Type 0
Fits bound t = (t.start ≤ bound) × Ends t.start bound t.end

abbrev pub Above : ℕ → Option ℕ → Type 0
Above n o = (j : ℕ) → o ≡ some j → j < n

abbrev pub Whole : ℕ → List Tok → Type 0
Whole bound toks = All (Fits bound) toks × Parents toks × SizedBut none toks

Ends-later : (start b c : ℕ) (o : Option ℕ) → b ≤ c → Ends start b o → Ends start c o
Ends-later start b c none h e = tt
Ends-later start b c (some k) h e = omega (arith, e)

pub Fits-later : (b c : ℕ) (toks : List Tok) → b ≤ c → All (Fits b) toks → All (Fits c) toks
Fits-later b c toks h all =
    All-map (Fits b) (Fits c) (λ t (lo, hi). (omega arith, Ends-later t.start b c t.end h hi)) toks
      all

All-set {ℓ κ} :
    {A : Type ℓ} (P : A → Type κ) (xs : List A) (i : ℕ) (a b : A)
    → get_elem? xs i ≡ some a
    → (P a → P b)
    → All P xs
    → All P (set xs i b)
All-set P [] i a b e f h = h
All-set P (x ∷ xs) zero a b e f (h, hs) = (f (subst P (some-injective x a e) h), hs)
All-set P (x ∷ xs) (suc i) a b e f (h, hs) = (h, All-set P xs i a b e f hs)

get_elem?-here {ℓ} :
    {A : Type ℓ} (xs : List A) (i : ℕ) → i < length xs → (a : A) × (get_elem? xs i ≡ some a)
get_elem?-here [] i h = elim h [ ]
get_elem?-here (x ∷ xs) zero h = (x, refl)
get_elem?-here (x ∷ xs) (suc i) h = get_elem?-here xs i (omega arith)

-- A child of `o` is appended, and counted there.
Whole-bump :
    (b : ℕ) (toks : List Tok) (o : Option ℕ)
    → All (Fits b) toks
    → Parents toks
    → SizedBut o toks
    → Above (length toks) o
    → Whole b (bump_size toks o) × (length (bump_size toks o) ≡ length toks)
Whole-bump b toks none fs ps ss h = ((fs, ps, ss), refl)
Whole-bump b toks (some k) fs ps ss h =
    let (t, at) = get_elem?-here toks k (h k refl) in
    rw at (
      (
        All-set (Fits b) toks k t (record t { size = t.size + 1 }) at (λ f. f) fs,
        Parents-set toks k t (record t { size = t.size + 1 }) at refl ps,
        SizedBut-bump toks k t at ss,
      ),
      length-set toks k (record t { size = t.size + 1 }),
    )

Whole-add :
    (b c : ℕ) (toks : List Tok) (t : Tok)
    → Whole b toks
    → b ≤ c
    → Fits c t
    → t.size ≡ 0
    → Above (length toks) t.parent
    → Whole c (bump_size (toks ++ t ∷ []) t.parent)
      × (length (bump_size (toks ++ t ∷ []) t.parent) ≡ length toks + 1)
Whole-add b c toks t (fs, ps, ss) h fit fresh above =
    let long : length (toks ++ t ∷ []) ≡ length toks + 1 = length-append toks (t ∷ []) in
    let (whole, len) =
      Whole-bump c (toks ++ t ∷ []) t.parent
        (All-append (Fits c) toks (t ∷ []) (Fits-later b c toks h fs) (fit, tt))
        (Parents-append toks t ps above) (SizedBut-append toks t ps ss above fresh)
        (λ j e. omega (arith, long, above j e)) in
    (whole, len ∙ long)

-- What holds when the loop stands before byte `bound`.
abbrev pub Kept : ℕ → ℕ → Parser → Type 0
Kept bound max_toks p =
    Whole bound p.toks × Above (length p.toks) p.super × (length p.toks ≤ max_toks)

pub open_container-Kept :
    (p q : Parser) (max_toks : ℕ) (kind : Kind)
    → Kept p.pos max_toks p
    → open_container p max_toks kind ≡ some q
    → (q.pos ≡ p.pos) × Kept (p.pos + 1) max_toks q
unfolding open_container add_tok
open_container-Kept p q max_toks kind (whole, above, room) e =
    elim (Bool-cases (leb max_toks (length p.toks))) [
      | inl full ↦ let e' = rw (full, open_container, add_tok) at e in cc
      | inr free ↦
          let t : Tok = record {
            kind = kind;
            start = p.pos;
            end = none;
            size = 0;
            parent = p.super;
          } in
          let e' = rw (free, open_container, add_tok) at e in
          let (whole', len) =
            Whole-add p.pos (p.pos + 1) p.toks t whole (omega arith) (omega arith, tt) refl above in
          subst (λ r. (r.pos ≡ p.pos) × Kept (p.pos + 1) max_toks r) (some-injective _ q e')
            (
              refl,
              (
                whole',
                (λ j s. omega (arith, len, some-injective (length p.toks) j s)),
                ground (arith, len),
              ),
            )
    ]

pub add_leaf-Kept :
    (p q : Parser) (max_toks : ℕ) (kind : Kind) (start end last : ℕ)
    → Kept p.pos max_toks p
    → p.pos ≤ last
    → start ≤ end
    → end ≤ last + 1
    → add_leaf p max_toks kind start end last ≡ some q
    → (q.pos ≡ last) × Kept (last + 1) max_toks q
unfolding add_leaf add_tok
add_leaf-Kept p q max_toks kind start end last (whole, above, room) h s l e =
    elim (Bool-cases (leb max_toks (length p.toks))) [
      | inl full ↦ let e' = rw (full, add_leaf, add_tok) at e in cc
      | inr free ↦
          let t : Tok = record {
            kind = kind;
            start = start;
            end = some end;
            size = 0;
            parent = p.super;
          } in
          let e' = rw (free, add_leaf, add_tok) at e in
          let (whole', len) =
            Whole-add p.pos (last + 1) p.toks t whole (omega arith) (omega arith, omega arith) refl
              above in
          subst (λ r. (r.pos ≡ last) × Kept (last + 1) max_toks r) (some-injective _ q e')
            (refl, (whole', (λ j w. omega (arith, len, above j w)), ground (arith, len)))
    ]

pub close_from-Kept :
    (fuel : ℕ) (p q : Parser) (want : Kind) (i : Option ℕ) (max_toks : ℕ)
    → Kept p.pos max_toks p
    → close_from fuel p want i ≡ some q
    → (q.pos ≡ p.pos) × Kept (p.pos + 1) max_toks q
unfolding close_from
close_from-Kept fuel p q want none max_toks kept e = cc
close_from-Kept zero p q want (some i) max_toks kept e = cc
close_from-Kept (suc fuel) p q want (some i) max_toks ((fs, ps, ss), above, room) e =
    elim (Option-cases (get_elem? p.toks i)) [
      | inl out ↦ let e' = rw (out, close_from) at e in cc
      | inr (t, at) ↦ elim (Bool-cases (is_open t.end)) [
        | inr shut ↦
            let e' = rw (at, shut, close_from) at e in
            close_from-Kept fuel p q want t.parent max_toks ((fs, ps, ss), above, room) e'
        | inl opened ↦ elim (Bool-cases (same_kind t.kind want)) [
          | inr other ↦ let e' = rw (at, opened, other, close_from) at e in cc
          | inl same ↦
              let e' = rw (at, opened, same, close_from) at e in
              let u : Tok = record t { end = some (p.pos + 1) } in
              let fits : Fits (p.pos + 1) t → Fits (p.pos + 1) u =
                λ (lo, hi). (omega arith, (omega arith, omega arith)) in
              subst (λ r. (r.pos ≡ p.pos) × Kept (p.pos + 1) max_toks r) (some-injective _ q e')
                (
                  refl,
                  (
                    (
                      All-set (Fits (p.pos + 1)) p.toks i t u at fits
                          (Fits-later p.pos (p.pos + 1) p.toks (omega arith) fs),
                      Parents-set p.toks i t u at refl ps,
                      SizedBut-set p.toks i t u at refl refl ss,
                    ),
                    (λ j s.
                        omega (
                          arith,
                          ps i j t at s,
                          get_elem?-bound p.toks i at,
                          length-set p.toks i u,
                        )),
                    omega (arith, length-set p.toks i u),
                  ),
                )
        ]
      ]
    ]
