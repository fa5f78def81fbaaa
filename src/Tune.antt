-- ===== src/Tune.antt =====
-- src/otune.c: inference defaults by device description. A text is the list of its bytes; the null
-- pointer is the empty text.
mod Tests
use omniserve_native.Prelude.{
  ℕ, zero, suc, ◌+◌, ◌*◌, ◌%◌, ◌≤◌, ◌<◌, ◌≡◌, refl, ap, ◌∙◌, sym, inl, inr, Bool, true, false, ◌&&◌,
  ◌||◌, List, [], ◌∷◌, map, arith, Bool-cases, ◌==◌, ltb, leb, if◌then◌else◌, length, length-map,
  codes,
}
use omniserve_native.Sched.Tier.{lower, lower_idem}

pub data DeviceClass : Type 0 where
  unknown cpu blackwell ada ampere hopper turing : DeviceClass

pub record Profile : Type 0 where
  pub device_class : DeviceClass
  pub class_name : List ℕ
  pub n_batch : ℕ
  pub n_ubatch : ℕ
  pub kv_type : List ℕ
  pub flash_attn : Bool
  pub parallel_contexts : ℕ

-- The text starts with the needle, in either case of the letters.
pub starts : List ℕ → List ℕ → Bool
starts text [] = true
starts [] (n ∷ needle) = false
starts (c ∷ text) (n ∷ needle) = lower c == lower n && starts text needle

-- `strcasestr(text, needle) != NULL`.
pub strcasestr : List ℕ → List ℕ → Bool
unfolding starts
strcasestr [] needle = starts [] needle
strcasestr (c ∷ text) needle = starts (c ∷ text) needle || strcasestr text needle

-- `strcasecmp(text, other) == 0`.
pub same_text : List ℕ → List ℕ → Bool
same_text [] [] = true
same_text (c ∷ text) (d ∷ other) = lower c == lower d && same_text text other
same_text text other = false

abbrev pub any_of : List ℕ → List (List ℕ) → Bool
any_of d [] = false
any_of d (n ∷ ns) = strcasestr d n || any_of d ns

pub classify : List ℕ → DeviceClass
unfolding strcasestr same_text
classify d =
    if length d == 0
    then unknown
    else if any_of d
        (codes "5090" ∷ codes "5080" ∷ codes "B200" ∷ codes "GB200" ∷ codes "Blackwell" ∷ [])
    then blackwell
    else if any_of d (codes "H100" ∷ codes "H200" ∷ codes "Hopper" ∷ [])
    then hopper
    else if any_of d (codes "4090" ∷ codes "4080" ∷ codes "L40" ∷ codes "L4" ∷ codes "Ada" ∷ [])
    then ada
    else if any_of d (
        codes "3090"
        ∷ codes "A100"
        ∷ codes "A40"
        ∷ codes "A10"
        ∷ codes "A6000"
        ∷ codes "Ampere"
        ∷ [])
    then ampere
    else if any_of d (codes "T4" ∷ codes "2080" ∷ codes "Turing" ∷ [])
    then turing
    else if same_text d (codes "cpu") || strcasestr d (codes "CPU")
    then cpu
    else unknown

pub class_name : DeviceClass → List ℕ
class_name cpu = codes "cpu"
class_name blackwell = codes "blackwell"
class_name ada = codes "ada"
class_name ampere = codes "ampere"
class_name hopper = codes "hopper"
class_name turing = codes "turing"
class_name unknown = codes "unknown"

abbrev profile : DeviceClass → ℕ → ℕ → List ℕ → Bool → ℕ → Profile
profile k n_batch n_ubatch kv_type flash_attn parallel_contexts = record {
  device_class = k;
  class_name = class_name k;
  n_batch = n_batch;
  n_ubatch = n_ubatch;
  kv_type = kv_type;
  flash_attn = flash_attn;
  parallel_contexts = parallel_contexts;
}

pub profile_of : DeviceClass → Profile
unfolding class_name
profile_of blackwell = profile blackwell 4096 1024 (codes "q8_0") true 4
profile_of hopper = profile hopper 4096 1024 (codes "q8_0") true 6
profile_of ada = profile ada 2048 512 (codes "q8_0") true 3
profile_of ampere = profile ampere 2048 512 (codes "q8_0") true 3
profile_of turing = profile turing 1024 256 (codes "f16") false 1
profile_of cpu = profile cpu 512 128 (codes "f16") false 1
profile_of unknown = profile unknown 2048 512 (codes "f16") true 2

pub profile_for : List ℕ → Profile
unfolding profile_of classify
profile_for d = profile_of (classify d)

starts-map : (s t : List ℕ) → starts (map lower s) t ≡ starts s t
unfolding starts
starts-map s [] = refl
starts-map [] (d ∷ t) = refl
starts-map (c ∷ s) (d ∷ t) = rw (lower_idem c, starts-map s t) refl

strcasestr-map : (s t : List ℕ) → strcasestr (map lower s) t ≡ strcasestr s t
unfolding strcasestr
strcasestr-map [] t = refl
strcasestr-map (c ∷ s) t = rw (starts-map (c ∷ s) t, strcasestr-map s t) refl

same_text-map : (s t : List ℕ) → same_text (map lower s) t ≡ same_text s t
unfolding same_text
same_text-map [] [] = refl
same_text-map [] (d ∷ t) = refl
same_text-map (c ∷ s) [] = refl
same_text-map (c ∷ s) (d ∷ t) = rw (lower_idem c, same_text-map s t) refl

any_of-map : (s : List ℕ) (ns : List (List ℕ)) → any_of (map lower s) ns ≡ any_of s ns
any_of-map s [] = refl
any_of-map s (n ∷ ns) = rw (strcasestr-map s n, any_of-map s ns) refl

classify-map : (d : List ℕ) → classify (map lower d) ≡ classify d
unfolding classify
classify-map d = simp (strcasestr-map, same_text-map, length-map) refl

-- The profile does not depend on the case of the description's letters.
profile_for-map : (d : List ℕ) → profile_for (map lower d) ≡ profile_for d
unfolding profile_for
profile_for-map d = ap profile_of (classify-map d)

-- A profile that llama.cpp can run: a quantized cache only with flash attention, whole
-- micro-batches, and some contexts.
IsUsable : Profile → Type 0
IsUsable p =
    (p.kv_type ≡ codes "q8_0" → p.flash_attn ≡ true)
    × (p.n_batch ≡ 4 * p.n_ubatch)
    × (0 < p.n_ubatch)
    × (1 ≤ p.parallel_contexts)
    × (p.parallel_contexts ≤ 6)

profile_of-IsUsable : (k : DeviceClass) → IsUsable (profile_of k)
unfolding profile_of IsUsable
profile_of-IsUsable blackwell = ((λ e. refl), refl, omega arith, omega arith, omega arith)
profile_of-IsUsable hopper = ((λ e. refl), refl, omega arith, omega arith, omega arith)
profile_of-IsUsable ada = ((λ e. refl), refl, omega arith, omega arith, omega arith)
profile_of-IsUsable ampere = ((λ e. refl), refl, omega arith, omega arith, omega arith)
profile_of-IsUsable turing = ((λ e. cc), refl, omega arith, omega arith, omega arith)
profile_of-IsUsable cpu = ((λ e. cc), refl, omega arith, omega arith, omega arith)
profile_of-IsUsable unknown = ((λ e. refl), refl, omega arith, omega arith, omega arith)

-- Every description gets a profile with a quantized cache only under flash attention, four whole
-- micro-batches to a batch, and one to six contexts.
profile_for-IsUsable : (d : List ℕ) → IsUsable (profile_for d)
unfolding profile_for
profile_for-IsUsable d = profile_of-IsUsable (classify d)
