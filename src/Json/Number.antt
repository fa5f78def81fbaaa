-- ===== src/Json/Number.antt =====
-- `oj_number` of src/ojson.c. `strtod` of the C library is a parameter: the value of a text and how
-- many of its bytes it has read.
use omniserve_native.Prelude.{
  ℕ, ◌-◌, not, ◌||◌, List, none, some, ltb, ◌==◌, if◌then◌else◌, take, drop,
}
use omniserve_native.Floats.{DoubleOps}
use omniserve_native.Json.{primitive, Tok, same_kind}

module _ (F : DoubleOps) (strtod : List ℕ → F.Double × ℕ) where
  open F use {Double}

  abbrev text_of : List ℕ → Tok → ℕ → List ℕ
  text_of js t e = take (e - t.start) (drop t.start js)

  -- On a token that is closed.
  unfoldable pub number : List ℕ → Tok → Double → Double
  number js t fallback = if not (same_kind t.kind primitive) then fallback else elim t.end [
    | none ↦ fallback
    | some e ↦
        let len = e - t.start in
        let (value, read) = strtod (text_of js t e) in
        if len == 0 || ltb 127 len then fallback else if read == len then value else fallback
  ]
