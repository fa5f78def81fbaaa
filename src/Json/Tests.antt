-- ===== src/Json/Tests.antt =====
-- Runs of src/ojson.c on small documents.
use omniserve_native.Prelude.{ℕ, ◌<◌, ◌≤◌, ◌≡◌, ◌≢◌, refl, List, [], ◌∷◌, Option, none, some, codes}
use omniserve_native.Json.{
  Kind, Tok, array, string, primitive, parse, parse_loop, parse_byte, open_container, close_from,
  add_leaf, add_tok, string_end, slow_end, find_byte, primitive_end, is_delimiter, parsed,
  out_of_fuel,
}
use omniserve_native.Json.Tokens.{IsTokens, parse-IsTokens, parse-terminates}
use omniserve_native.Json.Lookup.{arr_at}
use omniserve_native.Json.Lookup.Access.{IsChild, arr_at-IsChild}
use omniserve_native.Json.Scan.{string_end-slow_end}

-- [1,"ab",[]]
abbrev list_doc : List ℕ
list_doc = codes "[1,\"ab\",[]]"

abbrev tok : Kind → ℕ → ℕ → ℕ → Option ℕ → Tok
tok kind start end size parent = record {
  kind = kind;
  start = start;
  end = some end;
  size = size;
  parent = parent;
}

abbrev list_toks : List Tok
list_toks =
    tok array 0 11 3 none
    ∷ tok primitive 1 2 0 (some 0)
    ∷ tok string 4 6 0 (some 0)
    ∷ tok array 8 10 0 (some 0)
    ∷ []

list_parsed : parse list_doc 8 ≡ parsed list_toks
unfolding parse parse_loop parse_byte open_container close_from add_leaf add_tok string_end slow_end
    find_byte primitive_end is_delimiter
list_parsed = refl

parse-IsTokens_example : IsTokens list_doc 8 list_toks
parse-IsTokens_example = parse-IsTokens list_doc 8 list_toks list_parsed

-- A bracket of the other kind.
parse-terminates_example : parse (codes "[}") 8 ≢ out_of_fuel
parse-terminates_example = parse-terminates (codes "[}") 8

string_end-slow_end_example : string_end (codes "a\\\"b\"") 1 ≡ slow_end (codes "a\\\"b\"") 1
string_end-slow_end_example = string_end-slow_end (codes "a\\\"b\"") 1

arr_at-IsChild_example :
    (1 < 3 → (i : ℕ) × (arr_at list_toks 0 1 ≡ some i) × IsChild list_toks 0 1 i)
    × (3 ≤ 1 → arr_at list_toks 0 1 ≡ none)
arr_at-IsChild_example =
    arr_at-IsChild list_doc 8 list_toks 0 1 (tok array 0 11 3 none) list_parsed refl refl
