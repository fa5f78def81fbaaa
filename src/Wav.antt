-- ===== src/Wav.antt =====
-- src/wavwrap.c: a 44-byte RIFF/WAVE header before mono PCM16 samples. A buffer is the list of its
-- bytes; `alloc` says whether `malloc` succeeds.
mod Tests
use omniserve_native.Prelude.{
  ℕ, zero, suc, ◌+◌, ◌-◌, ◌*◌, ◌/◌, ◌%◌, ◌^◌, ◌≤◌, ◌<◌, ◌≡◌, refl, ap, subst, ◌∙◌, sym, inl, inr,
  Bool, true, false, ◌||◌, List, [], ◌∷◌, ◌++◌, arith, Bool-cases, ltb, leb, ◌==◌, if◌then◌else◌,
  length, length-append, take, drop, codes,
}

abbrev pub max_data : ℕ
max_data = 4294967295 - 36

pub put_u16 : ℕ → List ℕ
put_u16 v = v % 256 ∷ v / 2 ^ 8 % 256 ∷ []

pub put_u32 : ℕ → List ℕ
put_u32 v = v % 256 ∷ v / 2 ^ 8 % 256 ∷ v / 2 ^ 16 % 256 ∷ v / 2 ^ 24 % 256 ∷ []

pub data Wrapped : Type 0 where
  wrapped : List ℕ → Wrapped
  invalid_arguments no_memory : Wrapped

pub header : ℕ → ℕ → List ℕ
unfolding put_u16 put_u32
header pcm_len sample_rate =
    codes "RIFF"
    ++ put_u32 ((36 + pcm_len) % 2 ^ 32)
    ++ codes "WAVE"
    ++ codes "fmt "
    ++ put_u32 16
    ++ put_u16 1
    ++ put_u16 1
    ++ put_u32 sample_rate
    ++ put_u32 (sample_rate * 2 % 2 ^ 32)
    ++ put_u16 2
    ++ put_u16 16
    ++ codes "data"
    ++ put_u32 (pcm_len % 2 ^ 32)

pub wav_wrap_pcm16 : Bool → List ℕ → ℕ → Wrapped
unfolding header
wav_wrap_pcm16 alloc pcm sample_rate =
    if length pcm == 0 || (length pcm % 2 == 1 || (sample_rate == 0 || ltb max_data (length pcm)))
    then invalid_arguments
    else if alloc
    then wrapped (header (length pcm) sample_rate ++ pcm)
    else no_memory

-- A reader of the format: the little-endian number in the `n` bytes at `at`.
pub le_at : ℕ → ℕ → List ℕ → ℕ
le_at at zero bytes = 0
le_at at (suc n) bytes = elim (drop at bytes) [ [] ↦ 0 | b ∷ bs ↦ b + 256 * le_at 0 n bs ]

-- The fields that a player reads back: sizes, format, rates, and the samples.
unfoldable pub Plays : List ℕ → ℕ → List ℕ → Type 0
Plays bytes sample_rate pcm =
    (le_at 4 4 bytes + 8 ≡ length bytes)
    × (le_at 22 2 bytes ≡ 1)
    × (le_at 24 4 bytes ≡ sample_rate)
    × (le_at 28 4 bytes ≡ sample_rate * le_at 32 2 bytes)
    × (le_at 34 2 bytes ≡ 16)
    × (le_at 40 4 bytes ≡ length pcm)
    × (drop 44 bytes ≡ pcm)

abbrev buffer_of : Wrapped → List ℕ
buffer_of (wrapped bytes) = bytes
buffer_of invalid_arguments = []
buffer_of no_memory = []

bytes_of :
    (v : ℕ)
    → v < 2 ^ 32
    → v % 256
        + 256 * (v / 2 ^ 8 % 256 + 256 * (v / 2 ^ 16 % 256 + 256 * (v / 2 ^ 24 % 256 + 256 * 0)))
      ≡ v
bytes_of v h = omega arith

header-Plays :
    (pcm : List ℕ) (rate : ℕ)
    → length pcm ≤ max_data
    → rate < 2 ^ 31
    → Plays (header (length pcm) rate ++ pcm) rate pcm
unfolding header put_u16 put_u32 le_at Plays
header-Plays pcm rate fits small = (
  omega (arith, bytes_of ((36 + length pcm) % 2 ^ 32) (omega arith)),
  refl,
  bytes_of rate (omega arith),
  bytes_of (rate * 2 % 2 ^ 32) (omega arith) ∙ omega arith,
  refl,
  bytes_of (length pcm % 2 ^ 32) (omega arith) ∙ omega arith,
  refl,
)

-- For a sample rate below 2 ^ 31, a reader of what is wrapped finds the size of the file, one
-- channel of 16 bits, the sample rate, the byte rate, the number of the sample bytes, and the
-- samples.
pub wav_wrap_pcm16-Plays :
    (pcm : List ℕ) (sample_rate : ℕ) (bytes : List ℕ)
    → sample_rate < 2 ^ 31
    → wav_wrap_pcm16 true pcm sample_rate ≡ wrapped bytes
    → Plays bytes sample_rate pcm
unfolding wav_wrap_pcm16
wav_wrap_pcm16-Plays pcm sample_rate bytes fits e =
    elim (Bool-cases (
      length pcm == 0
      || (length pcm % 2 == 1 || (sample_rate == 0 || ltb max_data (length pcm))))) [
        | inl bad ↦ let e' = rw (bad, wav_wrap_pcm16) at e in cc
        | inr ok ↦
            let e' = rw (ok, wav_wrap_pcm16) at e in
            let same : header (length pcm) sample_rate ++ pcm ≡ bytes = ap buffer_of e' in
            subst (λ b. Plays b sample_rate pcm) same
              (header-Plays pcm sample_rate (ground arith) fits)
      ]
