-- ===== src/Json.antt =====
-- src/ojson.c: the tokenizer, lookups in its token array, and JSON text. A document is the list of
-- its bytes, shorter than 2 ^ 31 (`(int)len` is exact). The index -1 is `none`.
pub mod Scan
pub mod Kept
pub mod Tokens
pub mod Lookup
pub mod Number
pub mod Children
pub mod Text
mod Tests
use omniserve_native.Prelude.{
  ℕ, zero, suc, ◌+◌, ◌-◌, ◌≡◌, Bool, true, false, ◌&&◌, ◌||◌, List, [], ◌∷◌, ◌++◌, Option, none,
  some, ltb, leb, ◌==◌, if◌then◌else◌, length, take, drop, get_elem?, set,
}

pub data Kind : Type 0 where
  object array string primitive : Kind

pub record Tok : Type 0 where
  pub kind : Kind
  pub start : ℕ
  pub end : Option ℕ
  pub size : ℕ
  pub parent : Option ℕ

-- `next_tok` is the number of tokens in `toks`.
pub record Parser : Type 0 where
  pub pos : ℕ
  pub super : Option ℕ
  pub toks : List Tok

abbrev pub is_open : Option ℕ → Bool
is_open none = true
is_open (some e) = false

abbrev pub same_kind : Kind → Kind → Bool
same_kind object object = true
same_kind array array = true
same_kind string string = true
same_kind primitive primitive = true
same_kind k l = false

-- The bytes that end a primitive.
unfoldable pub is_delimiter : ℕ → Bool
is_delimiter c =
    c == b','
    || (c == b']' || (c == b'}' || (c == 32 || (c == 9 || (c == 13 || (c == 10 || c == b':'))))))

-- The loop of `parse_primitive`, on the bytes from `pos` on: where the primitive ends.
unfoldable pub primitive_end : List ℕ → ℕ → Option ℕ
primitive_end [] pos = some pos
primitive_end (c ∷ cs) pos =
    let rest = primitive_end cs (pos + 1) in
    if is_delimiter c then some pos else if ltb c 32 || leb 127 c then none else rest

-- The loop of `parse_string`, on the bytes from `pos` on: where the closing quote stands.
unfoldable pub slow_end : List ℕ → ℕ → Option ℕ
slow_end [] pos = none
slow_end (c ∷ []) pos = if c == b'"' then some pos else none
slow_end (c ∷ d ∷ cs) pos =
    let escaped = slow_end cs (pos + 2) in
    let plain = slow_end (d ∷ cs) (pos + 1) in
    if c == b'"' then some pos else if c == b'\\' then escaped else plain

-- `memchr`: how far on the byte stands.
unfoldable pub find_byte : ℕ → List ℕ → Option ℕ
find_byte b [] = none
find_byte b (c ∷ cs) =
    if c == b then some 0 else elim (find_byte b cs) [ none ↦ none | some k ↦ some (suc k) ]

abbrev pub is_none : Option ℕ → Bool
is_none none = true
is_none (some k) = false

-- `parse_string` from its first byte on: the vectorised path, or the loop.
unfoldable pub string_end : List ℕ → ℕ → Option ℕ
unfolding slow_end find_byte
string_end bytes pos = elim (find_byte b'"' bytes) [
  | none ↦ slow_end bytes pos
  | some quote ↦
      if is_none (find_byte b'\\' (take quote bytes))
      then some (pos + quote)
      else slow_end bytes pos
]

-- `alloc_tok` with the fields that its caller sets.
unfoldable pub add_tok : Parser → ℕ → Tok → Option Parser
add_tok p max_toks t =
    if leb max_toks (length p.toks) then none else some (record p { toks = p.toks ++ t ∷ [] })

abbrev pub grown : List Tok → ℕ → Option Tok → List Tok
grown toks i none = toks
grown toks i (some t) = set toks i (record t { size = t.size + 1 })

-- `if (super != -1) toks[super].size++`.
abbrev pub bump_size : List Tok → Option ℕ → List Tok
bump_size toks none = toks
bump_size toks (some i) = grown toks i (get_elem? toks i)

unfoldable pub open_container : Parser → ℕ → Kind → Option Parser
unfolding add_tok
open_container p max_toks kind =
    elim (add_tok p max_toks
      (record { kind = kind; start = p.pos; end = none; size = 0; parent = p.super })) [
        | none ↦ none
        | some q ↦ some (record q { super = some (length p.toks); toks = bump_size q.toks p.super })
      ]

-- The loop of a closing bracket, up the parents from token `i`, with as much fuel as tokens.
unfoldable pub close_from : ℕ → Parser → Kind → Option ℕ → Option Parser
close_from fuel p want none = none
close_from zero p want (some i) = none
close_from (suc fuel) p want (some i) = elim (get_elem? p.toks i) [
  | none ↦ none
  | some t ↦
      let above = close_from fuel p want t.parent in
      if is_open t.end
      then (if same_kind t.kind want
          then some (record p {
            super = t.parent;
            toks = set p.toks i (record t { end = some (p.pos + 1) });
          })
          else none)
      else above
]

-- A string or a primitive from `start` to `end`; the loop goes on behind `last`.
unfoldable pub add_leaf : Parser → ℕ → Kind → ℕ → ℕ → ℕ → Option Parser
unfolding add_tok
add_leaf p max_toks kind start end last =
    elim (add_tok p max_toks
      (record { kind = kind; start = start; end = some end; size = 0; parent = p.super })) [
        | none ↦ none
        | some q ↦ some (record q { pos = last; toks = bump_size q.toks p.super })
      ]

-- One round of the loop of `oj_parse`, on the byte at `pos`, up to its `pos++`.
unfoldable pub parse_byte : List ℕ → ℕ → Parser → ℕ → Option Parser
unfolding open_container close_from string_end primitive_end add_leaf
parse_byte js max_toks p c =
    if c == b'{'
    then open_container p max_toks object
    else if c == b'['
    then open_container p max_toks array
    else if c == b'}'
    then close_from (length p.toks) p object p.super
    else if c == b']'
    then close_from (length p.toks) p array p.super
    else if c == b'"'
    then elim (string_end (drop (p.pos + 1) js) (p.pos + 1)) [
      | none ↦ none
      | some quote ↦ add_leaf p max_toks string (p.pos + 1) quote quote
    ]
    else if is_delimiter c
    then some p
    else elim (primitive_end (drop p.pos js) p.pos) [
      | none ↦ none
      | some end ↦ add_leaf p max_toks primitive p.pos end (end - 1)
    ]

pub data Outcome : Type 0 where
  parsed : List Tok → Outcome
  invalid : Outcome
  out_of_fuel : Outcome

abbrev pub all_closed : List Tok → Bool
all_closed [] = true
all_closed (t ∷ ts) = if is_open t.end then false else all_closed ts

unfoldable pub parse_loop : ℕ → List ℕ → ℕ → Parser → Outcome
unfolding parse_byte
parse_loop zero js max_toks p = out_of_fuel
parse_loop (suc fuel) js max_toks p = elim (get_elem? js p.pos) [
  | none ↦ if all_closed p.toks then parsed p.toks else invalid
  | some c ↦ elim (parse_byte js max_toks p c) [
    | none ↦ invalid
    | some q ↦ parse_loop fuel js max_toks (record q { pos = q.pos + 1 })
  ]
]

unfoldable pub parse : List ℕ → ℕ → Outcome
unfolding parse_loop
parse js max_toks =
    parse_loop (length js + 1) js max_toks (record { pos = 0; super = none; toks = [] })
