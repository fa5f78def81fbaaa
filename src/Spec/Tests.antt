-- ===== src/Spec/Tests.antt =====
-- Runs of src/ospec.c on small contexts.
use omniserve_native.Prelude.{ℕ, ◌≡◌, refl, List, [], ◌∷◌, arith}
use omniserve_native.Spec.{config_default, shortest, longest, draft, Gov, governor_init}
use omniserve_native.Spec.Draft.{Longest, draft-Longest}
use omniserve_native.Spec.Governor.{IsGoverned, session, session-IsGoverned}

-- The suffix 1 2 3 has occurred before, followed by 4 and 9.
abbrev quoting : List ℕ
quoting = 1 ∷ 2 ∷ 3 ∷ 4 ∷ 9 ∷ 1 ∷ 2 ∷ 3 ∷ []

copies : draft config_default quoting 2 ≡ 4 ∷ 9 ∷ []
unfolding draft config_default
copies = refl

draft-Longest_example :
    Longest quoting 2
      (shortest config_default)
      (longest config_default)
      (draft config_default quoting 2)
draft-Longest_example = draft-Longest config_default quoting 2 (omega arith)

session-IsGoverned_example :
    IsGoverned (session (governor_init 4 8 1) ((4, 0) ∷ (0, 0) ∷ (1, 1) ∷ []))
session-IsGoverned_example = session-IsGoverned 4 8 1 ((4, 0) ∷ (0, 0) ∷ (1, 1) ∷ [])

abbrev off : Gov
off = record {
  length = 0;
  max_length = 4;
  probe_interval = 5;
  idle_rounds = 2;
  patience = 1;
  misses = 0;
  rounds = 9;
  drafted = 7;
  accepted = 3;
  saved_calls = 3;
}
