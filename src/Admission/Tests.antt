-- ===== src/Admission/Tests.antt =====
-- Admission by src/admission.c on a device of 24 GiB.
use omniserve_native.Prelude.{◌+◌, ◌<◌, ◌≡◌, refl, true, arith, codes}
use omniserve_native.Admission.{GpuSnapshot, Model, admit_model, admit_model-wraps}

abbrev gpu : GpuSnapshot
gpu = record { available = true; total_mib = 24576; used_mib = 4096 }

abbrev small : Model
small = record { id = codes "tts"; label = codes "TTS"; weights_mib = 6000; runtime_mib = 2000 }

-- 4 TiB and a little more.
abbrev huge : Model
huge = record small { weights_mib = 4294967295; runtime_mib = 100 }

admit_model-wraps_example :
    ((admit_model gpu huge 2048).allowed ≡ true) × (24576 < 4294967295 + 100)
admit_model-wraps_example =
    admit_model-wraps gpu huge 2048 refl (omega arith) (omega arith) (omega arith) (omega arith)
      (omega arith)
