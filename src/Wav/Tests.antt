-- ===== src/Wav/Tests.antt =====
-- Two samples at 24 kHz through src/wavwrap.c.
use omniserve_native.Prelude.{ℕ, refl, List, [], ◌∷◌, ◌++◌, arith}
use omniserve_native.Wav.{header, wav_wrap_pcm16, Plays, wav_wrap_pcm16-Plays}

abbrev samples : List ℕ
samples = 1 ∷ 0 ∷ 255 ∷ 127 ∷ []

wav_wrap_pcm16-Plays_example : Plays (header 4 24000 ++ samples) 24000 samples
unfolding wav_wrap_pcm16
wav_wrap_pcm16-Plays_example =
    wav_wrap_pcm16-Plays samples 24000 (header 4 24000 ++ samples) (omega arith) refl
