-- ===== src/Lora/Safe.antt =====
-- What src/olora_route.c hands on, whatever the operator's JSON says.
use omniserve_native.Prelude.{
  ℕ, zero, suc, ◌+◌, ◌≤◌, ◌<◌, ◌≡◌, refl, subst, ◌⊎◌, inl, inr, Bool, true, false, not, ◌&&◌, List,
  [], ◌∷◌, Option, none, some, arith, Bool-cases, Option-cases, if◌then◌else◌, length, get_elem?,
  codes, All,
}
use mathlib.Core.Option.{some-injective}
use omniserve_native.Floats.{DoubleOps}
use omniserve_native.Json.{object, array, string, Tok}
use omniserve_native.Json.Lookup.{obj_get, arr_at}
use omniserve_native.Json.Text.{c_string}
use omniserve_native.Lora.Text.{
  has_dots, is_absolute, safe_path, safe_char, safe_chars, safe_id, token_at, of_kind, is_some,
}
use omniserve_native.Lora.Pick.{
  Lora, Pick, in_scale, name_token, safe_lora, lora_of, lora_at, loras_from, loras_of, fill_pick,
}

module _ (F : DoubleOps) (strtod : List ℕ → F.Double × ℕ) (nan : F.Double)
    (is_finite : F.Double → Bool) (to_float : F.Double → F.Double) (readable : List ℕ → Bool) where
  open F use {Double}

  abbrev L : Type 0
  L = Lora F strtod nan is_finite to_float readable

  abbrev P : Type 0
  P = Pick F strtod nan is_finite to_float readable

  -- A cache id of letters, digits, `-`, `_` and `.`, or a readable absolute path without `..`.
  abbrev pub IsSafeName : List ℕ → Type 0
  IsSafeName id =
      ((0 < length id) × (length id ≤ 128) × All (λ c. safe_char c ≡ true) id)
      ⊎ ((is_absolute id ≡ true) × (length id ≤ 256) × (has_dots id ≡ false) × (readable id ≡ true))

  abbrev pub IsSafe : L → Type 0
  IsSafe l =
      IsSafeName l.id
      × ((s : Double) × (l.scale ≡ to_float s)
          × (in_scale F strtod nan is_finite to_float readable s ≡ true))

  abbrev pub IsSafePick : P → Type 0
  IsSafePick p = (length p.loras ≤ 4) × All IsSafe p.loras

  safe_chars-All : (id : List ℕ) → safe_chars id ≡ true → All (λ c. safe_char c ≡ true) id
  safe_chars-All [] h = tt
  safe_chars-All (c ∷ id) h = elim (Bool-cases (safe_char c)) [
    | inl good ↦ (good, safe_chars-All id (rw good at h))
    | inr bad ↦ let wrong = rw bad at h in cc
  ]

  safe_id-IsSafeName : (id : List ℕ) → safe_id id ≡ true → IsSafeName id
  unfolding safe_id
  safe_id-IsSafeName id h = inl (ground arith, ground arith, safe_chars-All id (ground arith))

  safe_path-IsSafeName : (id : List ℕ) → safe_path readable id ≡ true → IsSafeName id
  unfolding safe_path
  safe_path-IsSafeName id h = inr (ground arith, ground arith, ground arith, ground arith)

  guarded :
      {A : Type 0} (b : Bool) {x y : A}
      → (if b then some x else none) ≡ some y
      → (b ≡ true) × (x ≡ y)
  guarded true {x} {y} e = (refl, some-injective x y e)
  guarded false e = cc

  either-IsSafeName :
      (is_path : Bool) (slot : List ℕ)
      → (if is_path then safe_path readable slot else safe_id slot) ≡ true
      → IsSafeName slot
  either-IsSafeName true slot h = safe_path-IsSafeName slot h
  either-IsSafeName false slot h = safe_id-IsSafeName slot h

  and_true : (a b c : Bool) → (a && (b && c)) ≡ true → (b ≡ true) × (c ≡ true)
  and_true true true c h = (refl, h)
  and_true true false c h = cc
  and_true false b c h = cc

  safe_lora-IsSafe :
      (is_path : Bool) (raw : List ℕ) (scale : Double) (l : L)
      → safe_lora F strtod nan is_finite to_float readable is_path raw scale ≡ some l
      → IsSafe l
  unfolding safe_lora
  safe_lora-IsSafe is_path raw scale l e =
      let (held, same) = guarded _ e in
      let (safe, scaled) = and_true _ _ _ held in
      subst IsSafe same (either-IsSafeName is_path (c_string raw) safe, (scale, refl, scaled))

  lora_of-IsSafe :
      (js : List ℕ) (toks : List Tok) (item : ℕ) (l : L)
      → lora_of F strtod nan is_finite to_float readable js toks item ≡ some l
      → IsSafe l
  unfolding lora_of
  lora_of-IsSafe js toks item l e =
      elim (Bool-cases (not (is_some (of_kind object (get_elem? toks item))))) [
        | inl bad ↦ let wrong = rw bad at e in cc
        | inr good ↦
            elim (Option-cases (
              of_kind string
                (name_token F strtod nan is_finite to_float readable js toks item).1)) [
                  | inl absent ↦ let wrong = rw (good, absent) at e in cc
                  | inr (t, at) ↦ safe_lora-IsSafe _ _ _ l (rw (good, at) at e)
                ]
      ]

  lora_at-IsSafe :
      (js : List ℕ) (toks : List Tok) (item : Option ℕ) (l : L)
      → lora_at F strtod nan is_finite to_float readable js toks item ≡ some l
      → IsSafe l
  lora_at-IsSafe js toks none l e = cc
  lora_at-IsSafe js toks (some item) l e = lora_of-IsSafe js toks item l e

  abbrev AreSafe : ℕ → List L → Type 0
  AreSafe room ls = (length ls ≤ room) × All IsSafe ls

  loras_from-AreSafe :
      (js : List ℕ) (toks : List Tok) (arr i n room : ℕ) (ls : List L)
      → loras_from F strtod nan is_finite to_float readable js toks arr i n room ≡ some ls
      → AreSafe room ls
  unfolding loras_from
  loras_from-AreSafe js toks arr i zero room ls e =
      subst (AreSafe room) (some-injective [] ls e) (omega arith, tt)
  loras_from-AreSafe js toks arr i (suc n) zero ls e =
      subst (AreSafe zero) (some-injective [] ls e) (omega arith, tt)
  loras_from-AreSafe js toks arr i (suc n) (suc room) ls e =
      elim (Option-cases
        (lora_at F strtod nan is_finite to_float readable js toks (arr_at toks arr i))) [
          | inl absent ↦ let wrong = rw (loras_from, absent) at e in cc
          | inr (l, at) ↦
              elim (Option-cases
                (loras_from F strtod nan is_finite to_float readable js toks arr (i + 1) n room)) [
                  | inl absent ↦ let wrong = rw (loras_from, at, absent) at e in cc
                  | inr (rest, more) ↦
                      let (few, safe) = loras_from-AreSafe js toks arr (i + 1) n room rest more in
                      subst (AreSafe (suc room))
                        (some-injective (l ∷ rest) ls (rw (loras_from, at, more) at e))
                        (omega arith, (lora_at-IsSafe js toks _ l at, safe))
                ]
        ]

  loras_of-AreSafe :
      (js : List ℕ) (toks : List Tok) (route : ℕ) (ls : List L)
      → loras_of F strtod nan is_finite to_float readable js toks route ≡ some ls
      → AreSafe 4 ls
  unfolding loras_of
  loras_of-AreSafe js toks route ls e =
      elim (Option-cases (of_kind array (token_at toks (obj_get js toks route (codes "loras"))))) [
        | inl absent ↦
            subst (AreSafe 4) (some-injective [] ls (rw (loras_of, absent) at e)) (omega arith, tt)
        | inr (t, at) ↦ elim (Option-cases (obj_get js toks route (codes "loras"))) [
          | inl absent ↦
              subst (AreSafe 4) (some-injective [] ls (rw (loras_of, at, absent) at e))
                (omega arith, tt)
          | inr (arr, found) ↦
              loras_from-AreSafe js toks arr 0 t.size 4 ls (rw (loras_of, at, found) at e)
        ]
      ]

  pub fill_pick-IsSafePick :
      (js : List ℕ) (toks : List Tok) (route : ℕ) (p : P)
      → fill_pick F strtod nan is_finite to_float readable js toks route ≡ some p
      → IsSafePick p
  unfolding fill_pick
  fill_pick-IsSafePick js toks route p e =
      elim (Option-cases (loras_of F strtod nan is_finite to_float readable js toks route)) [
        | inl absent ↦ let wrong = rw (fill_pick, absent) at e in cc
        | inr (ls, at) ↦
            let (shown, same) = guarded _ (rw (fill_pick, at) at e) in
            subst IsSafePick same (loras_of-AreSafe js toks route ls at)
      ]
