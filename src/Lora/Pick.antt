-- ===== src/Lora/Pick.antt =====
-- What src/olora_route.c picks: `fill_pick`, `olora_route_select_json` and
-- `olora_route_select_task_json`.
use omniserve_native.Prelude.{
  ℕ, zero, suc, ◌+◌, Bool, true, false, not, ◌&&◌, ◌||◌, List, [], ◌∷◌, Option, none, some, ltb,
  if◌then◌else◌, length, get_elem?, take, map, codes,
}
use omniserve_native.Prelude.Int.{ℤ, pos}
use omniserve_native.Floats.{DoubleOps}
use omniserve_native.Sched.Tier.{lower}
use omniserve_native.Json.{object, array, string, Tok, Outcome, parsed, invalid, out_of_fuel, parse}
use omniserve_native.Json.Lookup.{obj_get, arr_at, same_bytes}
use omniserve_native.Json.Number.{number}
use omniserve_native.Json.Text.{c_string}
use omniserve_native.Lora.Text.{
  safe_path, safe_id, unescaped, token_at, of_kind, is_some, is_found, any_keyword, text_field,
  is_text,
}

abbrev pub max_loras : ℕ
max_loras = 4

module _ (F : DoubleOps) (strtod : List ℕ → F.Double × ℕ) (nan : F.Double)
    (is_finite : F.Double → Bool) (to_float : F.Double → F.Double) (readable : List ℕ → Bool) where
  open F use {Double, dec, sub, lt, le, to_int}

  -- An id or a path, and the scale.
  pub record Lora : Type 0 where
    pub id : List ℕ
    pub scale : Double

  pub record Pick : Type 0 where
    pub name : List ℕ
    pub prefix : List ℕ
    pub suffix : List ℕ
    pub negative : List ℕ
    pub prompt : List ℕ
    pub steps : ℤ
    pub guidance : Double
    pub loras : List Lora

  abbrev pub minus_four : Double
  minus_four = sub (dec 0 0) (dec 40 1)

  abbrev pub in_scale : Double → Bool
  in_scale s = is_finite s && (not (lt s minus_four) && not (lt (dec 40 1) s))

  abbrev pub number_field : List ℕ → List Tok → ℕ → List ℕ → Double → Option Double
  number_field js toks obj key fallback = elim (token_at toks (obj_get js toks obj key)) [
    | none ↦ none
    | some t ↦ some (number F strtod js t fallback)
  ]

  abbrev scale_or_one : Option Double → Double
  scale_or_one none = dec 10 1
  scale_or_one (some scale) = scale

  -- The `id` of an item, or else its `path`: whether it is a path, and the token.
  abbrev pub name_token : List ℕ → List Tok → ℕ → Bool × Option Tok
  name_token js toks item =
      let id = obj_get js toks item (codes "id") in
      if is_found id
      then (false, token_at toks id)
      else (true, token_at toks (obj_get js toks item (codes "path")))

  -- The item with this name, if it is safe.
  unfoldable pub safe_lora : Bool → List ℕ → Double → Option Lora
  safe_lora is_path raw scale =
      let slot = c_string raw in
      let safe = if is_path then safe_path readable slot else safe_id slot in
      if ltb 0 (length raw) && (safe && in_scale scale)
      then some (record { id = slot; scale = to_float scale })
      else none

  -- An item of `loras`.
  unfoldable pub lora_of : List ℕ → List Tok → ℕ → Option Lora
  lora_of js toks item =
      let (is_path, name) = name_token js toks item in
      if not (is_some (of_kind object (get_elem? toks item)))
      then none
      else elim (of_kind string name) [
        | none ↦ none
        | some t ↦
            safe_lora is_path (unescaped js t 257)
              (scale_or_one (number_field js toks item (codes "scale") nan))
      ]

  abbrev pub lora_at : List ℕ → List Tok → Option ℕ → Option Lora
  lora_at js toks none = none
  lora_at js toks (some item) = lora_of js toks item

  -- The loop over the items from index `i` on, `n` of them, with room for `room` more.
  unfoldable pub loras_from : List ℕ → List Tok → ℕ → ℕ → ℕ → ℕ → Option (List Lora)
  loras_from js toks arr i zero room = some []
  loras_from js toks arr i (suc n) zero = some []
  loras_from js toks arr i (suc n) (suc room) =
      let rest = loras_from js toks arr (i + 1) n room in
      elim (lora_at js toks (arr_at toks arr i)) [
        | none ↦ none
        | some l ↦ elim rest [ none ↦ none | some ls ↦ some (l ∷ ls) ]
      ]

  -- `none` where the item list is refused, and `[]` where there is none.
  unfoldable pub loras_of : List ℕ → List Tok → ℕ → Option (List Lora)
  loras_of js toks route =
      let arr = obj_get js toks route (codes "loras") in
      elim (of_kind array (token_at toks arr)) [
        | none ↦ some []
        | some t ↦ elim arr [ none ↦ some [] | some a ↦ loras_from js toks a 0 t.size max_loras ]
      ]

  abbrev pub some_lora : List Lora → Bool
  some_lora [] = false
  some_lora (l ∷ ls) = true

  abbrev steps_of : Option Double → ℤ
  steps_of none = pos 0
  steps_of (some v) = if le (dec 1 0) v && le v (dec 100 0) then to_int v else pos 0

  abbrev guidance_of : Option Double → Double
  guidance_of none = dec 0 0
  guidance_of (some v) = if le (dec 0 0) v && le v (dec 30 0) then to_float v else dec 0 0

  unfoldable pub fill_pick : List ℕ → List Tok → ℕ → Option Pick
  fill_pick js toks route = elim (loras_of js toks route) [
    | none ↦ none
    | some loras ↦
        let pick : Pick = record {
          name = text_field js toks route (codes "name") 64;
          prefix = text_field js toks route (codes "prefix") 128;
          suffix = text_field js toks route (codes "suffix") 256;
          negative = text_field js toks route (codes "negative") 512;
          prompt = text_field js toks route (codes "prompt") 256;
          steps = steps_of (number_field js toks route (codes "steps") (dec 0 0));
          guidance = guidance_of (number_field js toks route (codes "guidance") (dec 0 0));
          loras = loras;
        } in
        if some_lora loras || (is_text pick.suffix || (is_text pick.prefix || is_text pick.prompt))
        then some pick
        else none
  ]

  -- Whether the keywords of a route let the prompt in.
  unfoldable pub route_matches : List ℕ → List Tok → ℕ → List ℕ → Bool
  route_matches js toks route lowered =
      let keywords = obj_get js toks route (codes "keywords") in
      not (any_keyword js toks (obj_get js toks route (codes "exclude")) lowered)
      && (not (is_found keywords) || any_keyword js toks keywords lowered)

  -- The pick of a route for a prompt.
  abbrev pub prompt_pick : List ℕ → List Tok → List ℕ → ℕ → Option Pick
  prompt_pick js toks lowered route =
      if is_some (of_kind object (get_elem? toks route)) && route_matches js toks route lowered
      then fill_pick js toks route
      else none

  abbrev pub named : List ℕ → Pick → Pick
  named value pick = record pick { name = if is_text pick.name then pick.name else take 63 value }

  -- The pick of a route for an edit task.
  unfoldable pub task_pick : List ℕ → List Tok → List ℕ → ℕ → Option Pick
  task_pick js toks task route =
      let name = of_kind string (token_at toks (obj_get js toks route (codes "task"))) in
      if not (is_some (of_kind object (get_elem? toks route))) then none else elim name [
        | none ↦ none
        | some t ↦
            let raw = unescaped js t 64 in
            if ltb 0 (length raw) && same_bytes (c_string raw) task
            then elim (fill_pick js toks route) [
              | none ↦ none
              | some pick ↦ some (named (c_string raw) pick)
            ]
            else none
      ]

  abbrev pub pick_at : (ℕ → Option Pick) → Option ℕ → Option Pick
  pick_at pick none = none
  pick_at pick (some route) = pick route

  -- The first route that gives a pick, from index `i` on, among `n`.
  unfoldable pub first_pick : (ℕ → Option Pick) → List Tok → ℕ → ℕ → ℕ → Option Pick
  first_pick pick toks routes i zero = none
  first_pick pick toks routes i (suc n) =
      let rest = first_pick pick toks routes (i + 1) n in
      elim (pick_at pick (arr_at toks routes i)) [ none ↦ rest | some p ↦ some p ]

  -- The routes under a key of the document.
  unfoldable pub pick_under : (ℕ → Option Pick) → List ℕ → List Tok → List ℕ → Option Pick
  pick_under pick js toks key =
      let routes = obj_get js toks 0 key in
      elim (of_kind array (token_at toks routes)) [
        | none ↦ none
        | some t ↦ elim routes [ none ↦ none | some r ↦ first_pick pick toks r 0 t.size ]
      ]

  abbrev pub token_cap : List ℕ → ℕ
  token_cap js = if ltb (length js + 2) 16384 then length js + 2 else 16384

  -- The pick from the tokens of a document that parses.
  abbrev pub from_tokens : Outcome → (List Tok → Option Pick) → Option Pick
  from_tokens (parsed toks) pick = pick toks
  from_tokens invalid pick = none
  from_tokens out_of_fuel pick = none

  unfoldable pub route_select_json : List ℕ → List ℕ → Option Pick
  route_select_json js prompt =
      from_tokens (parse js (token_cap js))
        (λ toks. pick_under (prompt_pick js toks (map lower prompt)) js toks (codes "routes"))

  unfoldable pub route_select_task_json : List ℕ → List ℕ → Option Pick
  route_select_task_json js [] = none
  route_select_task_json js (c ∷ cs) =
      from_tokens (parse js (token_cap js))
        (λ toks. pick_under (task_pick js toks (c ∷ cs)) js toks (codes "edit_routes"))
