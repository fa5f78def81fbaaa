-- ===== src/Lora/Text.antt =====
-- The keywords, names and texts of src/olora_route.c: `phrase_match`, `safe_path`, `safe_id`,
-- `any_keyword`, and the text fields of a route.
use omniserve_native.Prelude.{
  ℕ, zero, suc, ◌+◌, ◌-◌, Bool, true, false, not, ◌&&◌, ◌||◌, List, [], ◌∷◌, Option, none, some,
  ltb, leb, ◌==◌, if◌then◌else◌, length, get_elem?, get_or, take, drop, map,
}
use omniserve_native.Sched.Tier.{lower}
use omniserve_native.Json.{Kind, array, string, Tok, same_kind}
use omniserve_native.Json.Lookup.{obj_get, arr_at}
use omniserve_native.Json.Text.{unescape, c_string}

abbrev pub is_alnum : ℕ → Bool
is_alnum c = leb b'0' c && leb c b'9' || (leb b'A' c && leb c b'Z' || leb b'a' c && leb c b'z')

abbrev pub word_char : ℕ → Bool
word_char c = is_alnum c || leb 128 c

abbrev pub starts_with : List ℕ → List ℕ → Bool
starts_with [] s = true
starts_with (c ∷ cs) [] = false
starts_with (c ∷ cs) (d ∷ s) = c == d && starts_with cs s

-- The loop over the occurrences; `prev` is the byte before, or 0 at the start.
unfoldable pub match_from : List ℕ → Bool → ℕ → List ℕ → Bool
match_from needle prefix prev [] = false
match_from needle prefix prev (c ∷ s) =
    starts_with needle (c ∷ s)
      && (not (word_char prev) && (prefix || not (word_char (get_or (c ∷ s) (length needle) 0))))
    || match_from needle prefix c s

abbrev pub last_byte : List ℕ → ℕ
last_byte [] = 0
last_byte (c ∷ []) = c
last_byte (c ∷ d ∷ s) = last_byte (d ∷ s)

unfoldable pub phrase_match : List ℕ → List ℕ → Bool
phrase_match haystack phrase =
    let prefix = last_byte phrase == b'*' in
    let len = if prefix then length phrase - 1 else length phrase in
    if length phrase == 0 || (leb 96 (length phrase) || len == 0)
    then false
    else match_from (take len phrase) prefix 0 haystack

abbrev pub has_dots : List ℕ → Bool
has_dots [] = false
has_dots (c ∷ []) = false
has_dots (c ∷ d ∷ s) = c == b'.' && d == b'.' || has_dots (d ∷ s)

abbrev pub is_absolute : List ℕ → Bool
is_absolute [] = false
is_absolute (c ∷ s) = c == b'/'

unfoldable pub safe_path : (List ℕ → Bool) → List ℕ → Bool
safe_path readable value =
    is_absolute value && (leb (length value) 256 && (not (has_dots value) && readable value))

abbrev pub safe_char : ℕ → Bool
safe_char c = is_alnum c || (c == b'-' || (c == b'_' || c == b'.'))

abbrev pub safe_chars : List ℕ → Bool
safe_chars [] = true
safe_chars (c ∷ s) = safe_char c && safe_chars s

unfoldable pub safe_id : List ℕ → Bool
safe_id value = ltb 0 (length value) && (leb (length value) 128 && safe_chars value)

abbrev token_bytes : List ℕ → Tok → List ℕ
token_bytes js t = elim t.end [ none ↦ [] | some e ↦ take (e - t.start) (drop t.start js) ]

-- `oj_unescape` into an array of `cap` bytes.
unfoldable pub unescaped : List ℕ → Tok → ℕ → List ℕ
unescaped js t cap = unescape cap (token_bytes js t)

abbrev pub token_at : List Tok → Option ℕ → Option Tok
token_at toks none = none
token_at toks (some i) = get_elem? toks i

-- The token that was found, if it has the kind.
abbrev pub of_kind : Kind → Option Tok → Option Tok
of_kind kind none = none
of_kind kind (some t) = if same_kind t.kind kind then some t else none

abbrev pub is_some : Option Tok → Bool
is_some none = false
is_some (some t) = true

abbrev pub is_found : Option ℕ → Bool
is_found none = false
is_found (some i) = true

-- Whether this item is a keyword of the prompt.
abbrev is_keyword : List ℕ → Option Tok → List ℕ → Bool
is_keyword js none prompt = false
is_keyword js (some t) prompt =
    let raw = unescaped js t 96 in
    ltb 0 (length raw) && phrase_match prompt (map lower (c_string raw))

-- The items of the array from index `i` on, `n` of them.
unfoldable pub keyword_from : List ℕ → List Tok → ℕ → List ℕ → ℕ → ℕ → Bool
keyword_from js toks arr prompt i zero = false
keyword_from js toks arr prompt i (suc n) =
    is_keyword js (of_kind string (token_at toks (arr_at toks arr i))) prompt
    || keyword_from js toks arr prompt (i + 1) n

-- `toks[key].type == OJ_ARRAY && any_keyword(…)`.
unfoldable pub any_keyword : List ℕ → List Tok → Option ℕ → List ℕ → Bool
any_keyword js toks none prompt = false
any_keyword js toks (some arr) prompt = elim (of_kind array (get_elem? toks arr)) [
  | none ↦ false
  | some t ↦ keyword_from js toks arr prompt 0 t.size
]

-- The text of a string field, in an array of `cap` bytes.
unfoldable pub text_field : List ℕ → List Tok → ℕ → List ℕ → ℕ → List ℕ
text_field js toks route key cap =
    elim (of_kind string (token_at toks (obj_get js toks route key))) [
      | none ↦ []
      | some t ↦ c_string (unescaped js t cap)
    ]

abbrev pub is_text : List ℕ → Bool
is_text [] = false
is_text (c ∷ s) = true
