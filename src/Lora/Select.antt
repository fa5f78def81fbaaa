-- ===== src/Lora/Select.antt =====
-- What the entry points of src/olora_route.c hand on.
use omniserve_native.Prelude.{
  ℕ, zero, suc, ◌+◌, ◌≡◌, subst, ◌⊎◌, inl, inr, Bool, not, ◌&&◌, List, [], ◌∷◌, Option, none, some,
  Bool-cases, Option-cases, length, get_elem?, ltb, map, codes,
}
use mathlib.Core.Option.{some-injective}
use omniserve_native.Floats.{DoubleOps}
use omniserve_native.Sched.Tier.{lower}
use omniserve_native.Json.{object, array, string, Tok, Outcome, parsed, invalid, out_of_fuel, parse}
use omniserve_native.Json.Lookup.{obj_get, arr_at, same_bytes}
use omniserve_native.Json.Text.{c_string}
use omniserve_native.Lora.Text.{unescaped, token_at, of_kind, is_some}
use omniserve_native.Lora.Pick.{
  Pick, fill_pick, route_matches, prompt_pick, task_pick, from_tokens, pick_at, first_pick,
  pick_under, token_cap, route_select_json, route_select_task_json, named,
}
use omniserve_native.Lora.Safe.{IsSafePick, fill_pick-IsSafePick}

module _ (F : DoubleOps) (strtod : List ℕ → F.Double × ℕ) (nan : F.Double)
    (is_finite : F.Double → Bool) (to_float : F.Double → F.Double) (readable : List ℕ → Bool) where
  open F use {Double}

  abbrev P : Type 0
  P = Pick F strtod nan is_finite to_float readable

  prompt_pick-IsSafePick :
      (js : List ℕ) (toks : List Tok) (lowered : List ℕ) (route : ℕ) (p : P)
      → prompt_pick F strtod nan is_finite to_float readable js toks lowered route ≡ some p
      → IsSafePick F strtod nan is_finite to_float readable p
  prompt_pick-IsSafePick js toks lowered route p e =
      elim (Bool-cases (
        is_some (of_kind object (get_elem? toks route))
        && route_matches F strtod nan is_finite to_float readable js toks route lowered)) [
          | inl held ↦
              fill_pick-IsSafePick F strtod nan is_finite to_float readable js toks route p
                (rw held at e)
          | inr fails ↦ let wrong = rw fails at e in cc
        ]

  task_pick-IsSafePick :
      (js : List ℕ) (toks : List Tok) (task : List ℕ) (route : ℕ) (p : P)
      → task_pick F strtod nan is_finite to_float readable js toks task route ≡ some p
      → IsSafePick F strtod nan is_finite to_float readable p
  unfolding task_pick
  task_pick-IsSafePick js toks task route p e =
      elim (Bool-cases (not (is_some (of_kind object (get_elem? toks route))))) [
        | inl bad ↦ let wrong = rw (task_pick, bad) at e in cc
        | inr good ↦
            elim (Option-cases
              (of_kind string (token_at toks (obj_get js toks route (codes "task"))))) [
                | inl absent ↦ let wrong = rw (task_pick, good, absent) at e in cc
                | inr (t, at) ↦
                    elim (Bool-cases (
                      ltb 0 (length (unescaped js t 64))
                      && same_bytes (c_string (unescaped js t 64)) task)) [
                        | inr other ↦ let wrong = rw (task_pick, good, at, other) at e in cc
                        | inl same ↦
                            elim (Option-cases
                              (fill_pick F strtod nan is_finite to_float readable js toks route)) [
                                | inl empty ↦
                                    let wrong = rw (task_pick, good, at, same, empty) at e in cc
                                | inr (pick, full) ↦
                                    subst (IsSafePick F strtod nan is_finite to_float readable)
                                      (some-injective
                                        (named F strtod nan is_finite to_float readable
                                          (c_string (unescaped js t 64)) pick)
                                        p (rw (task_pick, good, at, same, full) at e))
                                      (fill_pick-IsSafePick F strtod nan is_finite to_float readable
                                        js toks route pick full)
                              ]
                      ]
              ]
      ]

  pick_at-Holds :
      (Q : P → Type 0) (pick : ℕ → Option P) (safe : (i : ℕ) (p : P) → pick i ≡ some p → Q p)
      (route : Option ℕ) (p : P)
      → pick_at F strtod nan is_finite to_float readable pick route ≡ some p
      → Q p
  pick_at-Holds Q pick safe none p e = cc
  pick_at-Holds Q pick safe (some i) p e = safe i p e

  -- A property of what every route gives is one of what the routes give.
  first_pick-Holds :
      (Q : P → Type 0) (pick : ℕ → Option P) (safe : (i : ℕ) (p : P) → pick i ≡ some p → Q p)
      (toks : List Tok) (routes i n : ℕ) (p : P)
      → first_pick F strtod nan is_finite to_float readable pick toks routes i n ≡ some p
      → Q p
  unfolding first_pick
  first_pick-Holds Q pick safe toks routes i zero p e = cc
  first_pick-Holds Q pick safe toks routes i (suc n) p e =
      elim (Option-cases
        (pick_at F strtod nan is_finite to_float readable pick (arr_at toks routes i))) [
          | inl absent ↦
              first_pick-Holds Q pick safe toks routes (i + 1) n p (rw (first_pick, absent) at e)
          | inr (q, at) ↦
              subst Q (some-injective q p (rw (first_pick, at) at e))
                (pick_at-Holds Q pick safe (arr_at toks routes i) q at)
        ]

  pick_under-Holds :
      (Q : P → Type 0) (pick : ℕ → Option P) (safe : (i : ℕ) (p : P) → pick i ≡ some p → Q p)
      (js : List ℕ) (toks : List Tok) (key : List ℕ) (p : P)
      → pick_under F strtod nan is_finite to_float readable pick js toks key ≡ some p
      → Q p
  unfolding pick_under
  pick_under-Holds Q pick safe js toks key p e =
      elim (Option-cases (of_kind array (token_at toks (obj_get js toks 0 key)))) [
        | inl absent ↦ let wrong = rw (pick_under, absent) at e in cc
        | inr (t, at) ↦ elim (Option-cases (obj_get js toks 0 key)) [
          | inl absent ↦ let wrong = rw (pick_under, at, absent) at e in cc
          | inr (r, found) ↦
              first_pick-Holds Q pick safe toks r 0 t.size p (rw (pick_under, at, found) at e)
        ]
      ]

  from_tokens-Holds :
      (Q : P → Type 0) (o : Outcome) (pick : List Tok → Option P)
      (safe : (toks : List Tok) (p : P) → pick toks ≡ some p → Q p) (p : P)
      → from_tokens F strtod nan is_finite to_float readable o pick ≡ some p
      → Q p
  from_tokens-Holds Q (parsed toks) pick safe p e = safe toks p e
  from_tokens-Holds Q invalid pick safe p e = cc
  from_tokens-Holds Q out_of_fuel pick safe p e = cc

  route_select_json-IsSafePick :
      (js prompt : List ℕ) (p : P)
      → route_select_json F strtod nan is_finite to_float readable js prompt ≡ some p
      → IsSafePick F strtod nan is_finite to_float readable p
  unfolding route_select_json
  route_select_json-IsSafePick js prompt p e =
      from_tokens-Holds (IsSafePick F strtod nan is_finite to_float readable)
        (parse js (token_cap F strtod nan is_finite to_float readable js)) _
        (λ toks q.
          pick_under-Holds (IsSafePick F strtod nan is_finite to_float readable) _
            (prompt_pick-IsSafePick js toks (map lower prompt)) js toks (codes "routes") q)
        p e

  route_select_task_json-IsSafePick :
      (js task : List ℕ) (p : P)
      → route_select_task_json F strtod nan is_finite to_float readable js task ≡ some p
      → IsSafePick F strtod nan is_finite to_float readable p
  unfolding route_select_task_json
  route_select_task_json-IsSafePick js [] p e = cc
  route_select_task_json-IsSafePick js (c ∷ cs) p e =
      from_tokens-Holds (IsSafePick F strtod nan is_finite to_float readable)
        (parse js (token_cap F strtod nan is_finite to_float readable js)) _
        (λ toks q.
          pick_under-Holds (IsSafePick F strtod nan is_finite to_float readable) _
            (task_pick-IsSafePick js toks (c ∷ cs)) js toks (codes "edit_routes") q)
        p e

  -- Whatever bytes the file, the prompt and the task are, a pick has at most four LoRAs. Each has a
  -- name that is a cache id of at most 128 letters, digits, `-`, `_` and `.`, or an absolute path of at
  -- most 256 bytes that is readable and has no `..`, and a scale that is the cast of a finite number
  -- between -4 and 4.
  pub select-IsSafePick :
      (js text : List ℕ) (p : P)
      → (route_select_json F strtod nan is_finite to_float readable js text ≡ some p)
        ⊎ (route_select_task_json F strtod nan is_finite to_float readable js text ≡ some p)
      → IsSafePick F strtod nan is_finite to_float readable p
  select-IsSafePick js text p (inl e) = route_select_json-IsSafePick js text p e
  select-IsSafePick js text p (inr e) = route_select_task_json-IsSafePick js text p e
