-- ===== src/Lora/Match.antt =====
-- What `phrase_match` of src/olora_route.c finds.
use omniserve_native.Prelude.{
  ℕ, ◌+◌, ◌-◌, ◌<◌, ◌≡◌, refl, sym, ap, ◌∙◌, subst, ◌⊎◌, inl, inr, Bool, true, false, not, ◌&&◌,
  ◌||◌, List, [], ◌∷◌, ◌++◌, arith, length, get_or, leb, ◌==◌, take,
}
use omniserve_native.Lora.Text.{word_char, starts_with, match_from, last_byte, phrase_match}

-- The last byte, or the one before the text.
abbrev pub final_or : ℕ → List ℕ → ℕ
final_or prev [] = prev
final_or prev (c ∷ s) = final_or c s

-- The needle stands in the text between bytes that are no part of a word; a prefix may be followed
-- by any.
abbrev pub Occurs : List ℕ → Bool → ℕ → List ℕ → Type 0
Occurs needle prefix prev s =
    (a : List ℕ) × (b : List ℕ) × (s ≡ a ++ needle ++ b)
    × (word_char (final_or prev a) ≡ false)
    × ((prefix ≡ true) ⊎ (word_char (get_or b 0 0) ≡ false))

starts_with-split : (n s : List ℕ) → starts_with n s ≡ true → (b : List ℕ) × (s ≡ n ++ b)
starts_with-split [] s h = (s, refl)
starts_with-split (c ∷ n) [] h = cc
starts_with-split (c ∷ n) (d ∷ s) h =
    let same : c ≡ d = ground arith in
    let rest : starts_with n s ≡ true = ground arith in
    let (b, at) = starts_with-split n s rest in (b, ap (λ x. x ∷ s) (sym same) ∙ ap (λ l. c ∷ l) at)

starts_with-append : (n b : List ℕ) → starts_with n (n ++ b) ≡ true
starts_with-append [] b = refl
starts_with-append (c ∷ n) b = let rest = starts_with-append n b in ground arith

get_or-append : (n b : List ℕ) → get_or (n ++ b) (length n) 0 ≡ get_or b 0 0
get_or-append [] b = refl
get_or-append (c ∷ n) b = get_or-append n b

either : (a b : Bool) → (a || b) ≡ true → (a ≡ true) ⊎ (b ≡ true)
either true b h = inl refl
either false b h = inr h

or_later : (a b : Bool) → b ≡ true → (a || b) ≡ true
or_later true b h = refl
or_later false b h = h

all_hold :
    (a w p v r : Bool)
    → a ≡ true
    → w ≡ false
    → (p ≡ true) ⊎ (v ≡ false)
    → (a && (not w && (p || not v)) || r) ≡ true
all_hold a w p v r ha hw (inl hp) = rw (ha, hw, hp)
all_hold a w true v r ha hw (inr hv) = rw (ha, hw)
all_hold a w false v r ha hw (inr hv) = rw (ha, hw, hv)

held :
    (a w p v : Bool)
    → (a && (not w && (p || not v))) ≡ true
    → (a ≡ true) × (w ≡ false) × ((p ≡ true) ⊎ (v ≡ false))
held true false true v h = (refl, refl, inl refl)
held true false false false h = (refl, refl, inr refl)
held true false false true h = cc
held true true p v h = cc
held false w p v h = cc

match_from-Occurs :
    (n : List ℕ) (p : Bool) (prev : ℕ) (s : List ℕ)
    → match_from n p prev s ≡ true
    → Occurs n p prev s
unfolding match_from
match_from-Occurs n p prev [] h = cc
match_from-Occurs n p prev (c ∷ s) h = elim (either _ _ h) [
  | inl hit ↦
      let (starts, left, right) = held _ _ _ _ hit in
      let (b, at) = starts_with-split n (c ∷ s) starts in
      let behind : get_or (c ∷ s) (length n) 0 ≡ get_or b 0 0 =
        ap (λ l. get_or l (length n) 0) at ∙ get_or-append n b in
      ([], b, at, left, subst (λ x. (p ≡ true) ⊎ (word_char x ≡ false)) behind right)
  | inr later ↦
      let (a, b, at, left, right) = match_from-Occurs n p c s later in
      (c ∷ a, b, ap (λ l. c ∷ l) at, left, right)
]

Occurs-match_from :
    (x : ℕ) (n : List ℕ) (p : Bool) (prev : ℕ) (a b : List ℕ)
    → word_char (final_or prev a) ≡ false
    → (p ≡ true) ⊎ (word_char (get_or b 0 0) ≡ false)
    → match_from (x ∷ n) p prev (a ++ (x ∷ n) ++ b) ≡ true
unfolding match_from
Occurs-match_from x n p prev [] b left right =
    all_hold _ _ _ _ _ (starts_with-append (x ∷ n) b) left
      (subst (λ y. (p ≡ true) ⊎ (word_char y ≡ false)) (sym (get_or-append (x ∷ n) b)) right)
Occurs-match_from x n p prev (c ∷ a) b left right =
    let later = Occurs-match_from x n p c a b left right in or_later _ _ later

-- The byte `*` behind a keyword, which makes it the beginning of a word.
abbrev pub starred : List ℕ → List ℕ
starred keyword = keyword ++ b'*' ∷ []

last_byte-starred : (k : List ℕ) → last_byte (starred k) ≡ b'*'
last_byte-starred [] = refl
last_byte-starred (c ∷ []) = refl
last_byte-starred (c ∷ d ∷ k) = last_byte-starred (d ∷ k)

length-starred : (k : List ℕ) → length (starred k) ≡ length k + 1
length-starred [] = refl
length-starred (c ∷ k) = let rest = length-starred k in omega arith

take-starred : (k : List ℕ) → take (length k) (starred k) ≡ k
take-starred [] = refl
take-starred (c ∷ k) = ap (λ l. c ∷ l) (take-starred k)

take-length : (k : List ℕ) → take (length k) k ≡ k
take-length [] = refl
take-length (c ∷ k) = ap (λ l. c ∷ l) (take-length k)

phrase_match_plain :
    (s k : List ℕ)
    → 0 < length k
    → length k < 96
    → (last_byte k == b'*') ≡ false
    → phrase_match s k ≡ match_from k false 0 s
unfolding phrase_match
phrase_match_plain s k some_byte short plain =
    let filled : (length k == 0) ≡ false = ground arith in
    let fits : leb 96 (length k) ≡ false = ground arith in
    rw (phrase_match, plain, filled, fits, take-length k)

phrase_match-starred :
    (s k : List ℕ)
    → 0 < length k
    → length k < 95
    → phrase_match s (starred k) ≡ match_from k true 0 s
unfolding phrase_match
phrase_match-starred s k some_byte short =
    let filled : (length k == 0) ≡ false = ground arith in
    let one_more : (length k + 1 == 0) ≡ false = ground arith in
    let fits : leb 96 (length k + 1) ≡ false = ground arith in
    let back : length k + 1 - 1 ≡ length k = omega arith in
    rw (
      phrase_match,
      last_byte-starred k,
      length-starred k,
      one_more,
      fits,
      back,
      filled,
      take-starred k,
    )

match_from_complete :
    (k : List ℕ) (p : Bool) (s : List ℕ) → 0 < length k → Occurs k p 0 s → match_from k p 0 s ≡ true
match_from_complete [] p s h o = ground arith
match_from_complete (x ∷ n) p s h (a, b, at, left, right) =
    ap (match_from (x ∷ n) p 0) at ∙ Occurs-match_from x n p 0 a b left right

-- The text of a keyword, with or without the star.
abbrev pub spelled : Bool → List ℕ → List ℕ
spelled true k = starred k
spelled false k = k

phrase_match-spelled :
    (s k : List ℕ) (star : Bool)
    → 0 < length k
    → length k < 95
    → (star ≡ true) ⊎ ((last_byte k == b'*') ≡ false)
    → phrase_match s (spelled star k) ≡ match_from k star 0 s
phrase_match-spelled s k true h short plain = phrase_match-starred s k h short
phrase_match-spelled s k false h short (inl wrong) = cc
phrase_match-spelled s k false h short (inr plain) = phrase_match_plain s k h (omega arith) plain

-- A keyword of 1 to 94 bytes, with a star behind it or with no star at its end, matches a text exactly
-- if it stands somewhere in it, with no byte of a word before it and, without the star, none behind
-- it.
pub phrase_match-Occurs :
    (s k : List ℕ) (star : Bool)
    → 0 < length k
    → length k < 95
    → (star ≡ true) ⊎ ((last_byte k == b'*') ≡ false)
    → (phrase_match s (spelled star k) ≡ true → Occurs k star 0 s)
      × (Occurs k star 0 s → phrase_match s (spelled star k) ≡ true)
phrase_match-Occurs s k star h short plain =
    let same = phrase_match-spelled s k star h short plain in
    (
      (λ m. match_from-Occurs k star 0 s (sym same ∙ m)),
      (λ o. same ∙ match_from_complete k star s h o),
    )
