-- ===== src/Pipeline/Audio/Tests.antt =====
-- Five bytes of audio at 100 samples a second, in frames of 10 ms: one sample each, and a byte over.
use voice_mesh.Prelude.{ℕ, ◌≡◌, refl, List, [], ◌∷◌, arith}
use voice_mesh.Prelude.Results.{ok, err, value_error}
use voice_mesh.Pipeline.Audio.{bytes_per_frame, pcm16_sample_count, split_pcm16_frames}
use voice_mesh.Pipeline.Audio.Frames.{Splits, split_pcm16_frames_exact}

abbrev chunk : List ℕ
chunk = 1 ∷ 2 ∷ 3 ∷ 4 ∷ 5 ∷ []

split : split_pcm16_frames chunk 100 10 ≡ ok ((1 ∷ 2 ∷ []) ∷ (3 ∷ 4 ∷ []) ∷ [])
unfolding split_pcm16_frames
split = refl

refused : split_pcm16_frames chunk 100 15 ≡ err value_error
unfolding split_pcm16_frames
refused = refl

half_sample : pcm16_sample_count chunk ≡ err value_error
unfolding pcm16_sample_count
half_sample = refl

split_pcm16_frames_exact_example :
    Splits (bytes_per_frame 100 10) chunk (split_pcm16_frames chunk 100 10)
split_pcm16_frames_exact_example = split_pcm16_frames_exact chunk 100 10 refl (omega arith)
