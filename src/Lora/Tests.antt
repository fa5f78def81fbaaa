-- ===== src/Lora/Tests.antt =====
-- A run of src/olora_route.c, with whole numbers and a `strtod` of plain digits.
use omniserve_native.Prelude.{
  ℕ, suc, arith, ◌+◌, ◌-◌, ◌*◌, ◌≡◌, refl, Bool, true, List, [], ◌∷◌, some, inl, codes, leb, ◌&&◌,
  if◌then◌else◌,
}
use omniserve_native.Prelude.Int.{ℤ, pos, ◌-ℤ◌}
use omniserve_native.Floats.Whole.{whole}
use omniserve_native.Sched.Tier.{lower}
use omniserve_native.Json.{
  parse, parse_loop, parse_byte, open_container, close_from, add_leaf, add_tok, string_end,
  slow_end, find_byte, primitive_end, is_delimiter,
}
use omniserve_native.Json.Lookup.{
  obj_get, get_from, next_key, next_sibling, skip_to, str_eq, arr_at, at_from, same_bytes,
}
use omniserve_native.Json.Text.{unescape, unescape_loop}
use omniserve_native.Json.Number.{number}
use omniserve_native.Lora.Text.{
  any_keyword, keyword_from, phrase_match, match_from, safe_id, text_field, unescaped, safe_path,
}
use omniserve_native.Lora.Pick.{
  Pick, route_select_json, pick_under, first_pick, route_matches, fill_pick, loras_of, loras_from,
  lora_of, safe_lora, route_select_task_json, task_pick,
}
use omniserve_native.Lora.Match.{Occurs, spelled, phrase_match-Occurs}
use omniserve_native.Lora.Safe.{IsSafePick}
use omniserve_native.Lora.Select.{select-IsSafePick}

abbrev digits_to : ℕ → List ℕ → ℕ × ℕ
digits_to n [] = (n, 0)
digits_to n (c ∷ cs) =
    let (value, read) = digits_to (n * 10 + (c - 48)) cs in
    if leb 48 c && leb c 57 then (value, suc read) else (n, 0)

abbrev strtod : List ℕ → ℤ × ℕ
strtod cs = (pos (digits_to 0 cs).0, (digits_to 0 cs).1)

abbrev always : {A : Type 0} → A → Bool
always a = true

abbrev cast : ℤ → ℤ
cast d = d

abbrev file : List ℕ
file =
    codes
      "{\"routes\":[{\"keywords\":[\"cat*\"],\"loras\":[{\"id\":\"fur-1\",\"scale\":2}]}],\"edit_routes\":[{\"task\":\"relight\",\"steps\":4,\"loras\":[{\"path\":\"/l/a\"}]}]}"

abbrev picked : Pick whole strtod (pos 0) always cast always
picked = record {
  name = [];
  prefix = [];
  suffix = [];
  negative = [];
  prompt = [];
  steps = pos 0;
  guidance = pos 0;
  loras = record { id = codes "fur-1"; scale = pos 2 } ∷ [];
}

abbrev picked_task : Pick whole strtod (pos 0) always cast always
picked_task = record picked {
  name = codes "relight";
  steps = pos 4;
  loras = record { id = codes "/l/a"; scale = pos 1 } ∷ [];
}

cats :
    route_select_json whole strtod (pos 0) always cast always file (codes "Two CATS") ≡ some picked
unfolding route_select_json pick_under first_pick route_matches any_keyword keyword_from
    phrase_match match_from fill_pick loras_of loras_from lora_of safe_lora safe_id text_field
    unescaped number unescape unescape_loop obj_get get_from next_key next_sibling skip_to str_eq
    arr_at at_from parse parse_loop parse_byte open_container close_from add_leaf add_tok string_end
    slow_end find_byte primitive_end is_delimiter lower ◌-ℤ◌
cats = refl

relights :
    route_select_task_json whole strtod (pos 0) always cast always file (codes "relight")
    ≡ some picked_task
unfolding route_select_task_json task_pick safe_path pick_under first_pick fill_pick loras_of
    loras_from lora_of safe_lora safe_id text_field unescaped number unescape unescape_loop obj_get
    get_from next_key next_sibling skip_to str_eq arr_at at_from parse parse_loop parse_byte
    open_container close_from add_leaf add_tok string_end slow_end find_byte primitive_end
    is_delimiter same_bytes ◌-ℤ◌
relights = refl

select-IsSafePick_example : IsSafePick whole strtod (pos 0) always cast always picked
select-IsSafePick_example =
    select-IsSafePick whole strtod (pos 0) always cast always file (codes "Two CATS") picked
      (inl cats)

phrase_match-Occurs_example :
    (phrase_match (codes "two cats") (spelled true (codes "cat")) ≡ true
      → Occurs (codes "cat") true 0 (codes "two cats"))
    × (Occurs (codes "cat") true 0 (codes "two cats")
        → phrase_match (codes "two cats") (spelled true (codes "cat")) ≡ true)
phrase_match-Occurs_example =
    phrase_match-Occurs (codes "two cats") (codes "cat") true (omega arith) (omega arith) (inl refl)
