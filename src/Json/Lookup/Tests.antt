-- ===== src/Json/Lookup/Tests.antt =====
-- Lookups of src/ojson.c in the tokens of a small object.
use omniserve_native.Prelude.{ℕ, ◌≡◌, ◌++◌, arith, refl, List, [], ◌∷◌, Option, none, some, codes}
use omniserve_native.Json.{Kind, Tok, object, array, string, primitive}
use omniserve_native.Json.Lookup.{obj_get, str_eq, same_bytes}
use omniserve_native.Json.Lookup.Members.{Member, flat}
use omniserve_native.Json.Lookup.Find.{obj_get-find_member}

abbrev tok : Kind → ℕ → ℕ → ℕ → Option ℕ → Tok
tok kind start end size parent = record {
  kind = kind;
  start = start;
  end = some end;
  size = size;
  parent = parent;
}

-- {"x":"k","k":[1],"k":2}
abbrev object_doc : List ℕ
object_doc = codes "{\"x\":\"k\",\"k\":[1],\"k\":2}"

abbrev whole_object : Tok
whole_object = tok object 0 23 6 none

abbrev object_members : List Member
object_members =
    record { key = tok string 2 3 0 (some 0); val = tok string 6 7 0 (some 0); inner = [] }
    ∷ record {
      key = tok string 10 11 0 (some 0);
      val = tok array 13 16 1 (some 0);
      inner = tok primitive 14 15 0 (some 4) ∷ [];
    }
    ∷ record { key = tok string 18 19 0 (some 0); val = tok primitive 21 22 0 (some 0); inner = [] }
    ∷ []

-- The text `k` as a value is no key, and the first of two equal keys counts.
obj_get-find_member_example :
    obj_get object_doc ([] ++ (whole_object ∷ (flat object_members ++ []))) 0 (codes "k") ≡ some 4
unfolding str_eq same_bytes
obj_get-find_member_example =
    obj_get-find_member object_doc (codes "k") [] whole_object object_members [] refl
      (refl, refl, tt, (refl, refl, ((4, refl, omega arith), tt), (refl, refl, tt, tt))) tt
