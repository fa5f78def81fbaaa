-- ===== src/Admission.antt =====
-- src/admission.c: admission of a model by free device memory, and the model lookup. `unsigned` is
-- 32 bits wide. The reason is the branch that its text names; the numbers in the text are fields.
-- `nvidia-smi` and the model file are read by library calls, which are not modelled.
mod Tests
use omniserve_native.Prelude.{
  ℕ, zero, suc, ◌+◌, ◌-◌, ◌%◌, ◌^◌, ◌≤◌, ◌<◌, ◌≡◌, ◌≢◌, refl, ap, subst, inl, inr, Bool, true,
  false, not, ◌||◌, List, [], ◌∷◌, ◌++◌, Option, none, some, arith, Bool-cases, ltb, leb, ◌==◌,
  if◌then◌else◌,
}
use omniserve_native.Json.Lookup.{same_bytes}

pub record GpuSnapshot : Type 0 where
  pub available : Bool
  pub total_mib : ℕ
  pub used_mib : ℕ

pub record Model : Type 0 where
  pub id : List ℕ
  pub label : List ℕ
  pub weights_mib : ℕ
  pub runtime_mib : ℕ

pub data AdmissionReason : Type 0 where
  no_telemetry no_reserve does_not_fit admitted : AdmissionReason

pub record Admission : Type 0 where
  pub allowed : Bool
  pub available_mib : ℕ
  pub required_mib : ℕ
  pub reason : AdmissionReason

pub admit_model : GpuSnapshot → Model → ℕ → Admission
admit_model gpu model reserve_mib =
    let required = (model.weights_mib + model.runtime_mib) % 2 ^ 32 in
    let available = gpu.total_mib - gpu.used_mib - reserve_mib in
    if not gpu.available
    then record {
      allowed = false;
      available_mib = 0;
      required_mib = required;
      reason = no_telemetry;
    }
    else if ltb gpu.total_mib gpu.used_mib || ltb (gpu.total_mib - gpu.used_mib) reserve_mib
    then record { allowed = false; available_mib = 0; required_mib = required; reason = no_reserve }
    else if ltb available required
    then record {
      allowed = false;
      available_mib = available;
      required_mib = required;
      reason = does_not_fit;
    }
    else record {
      allowed = true;
      available_mib = available;
      required_mib = required;
      reason = admitted;
    }

pub find_model : List Model → List ℕ → Option Model
find_model [] id = none
find_model (m ∷ ms) id = if same_bytes m.id id then some m else find_model ms id

-- A model whose sizes do not wrap around is admitted exactly when the telemetry is there and its
-- memory fits beside what is used and the reserve.
pub admit_model-fits :
    (gpu : GpuSnapshot) (model : Model) (reserve_mib : ℕ)
    → model.weights_mib + model.runtime_mib < 2 ^ 32
    → ((admit_model gpu model reserve_mib).allowed ≡ true
        → (gpu.available ≡ true)
          × (gpu.used_mib + reserve_mib + model.weights_mib + model.runtime_mib ≤ gpu.total_mib))
      × (gpu.available ≡ true
          → gpu.used_mib + reserve_mib + model.weights_mib + model.runtime_mib ≤ gpu.total_mib
          → (admit_model gpu model reserve_mib).allowed ≡ true)
unfolding admit_model
admit_model-fits gpu model reserve_mib small =
    let same : (model.weights_mib + model.runtime_mib) % 2 ^ 32
        ≡ model.weights_mib + model.runtime_mib =
      omega arith in
    ground (arith, same)

-- Where the telemetry is there, sizes whose sum wraps around to no more than the free memory are
-- admitted although their sum is more than the device has.
pub admit_model-wraps :
    (gpu : GpuSnapshot) (model : Model) (reserve_mib : ℕ)
    → gpu.available ≡ true
    → gpu.total_mib < 2 ^ 32
    → model.weights_mib < 2 ^ 32
    → model.runtime_mib < 2 ^ 32
    → 2 ^ 32 ≤ model.weights_mib + model.runtime_mib
    → gpu.used_mib + reserve_mib + (model.weights_mib + model.runtime_mib - 2 ^ 32) ≤ gpu.total_mib
    → ((admit_model gpu model reserve_mib).allowed ≡ true)
      × (gpu.total_mib < model.weights_mib + model.runtime_mib)
unfolding admit_model
admit_model-wraps gpu model reserve_mib on fits w r over room =
    let sum : (model.weights_mib + model.runtime_mib) % 2 ^ 32
        ≡ model.weights_mib + model.runtime_mib - 2 ^ 32 =
      omega arith in
    ground (arith, sum)
