-- ===== src/Pipeline/Audio.antt =====
-- apps/api/pipeline/audio.py: PCM16 audio, a list of bytes, and its frames. A sample rate is a natural
-- number here; the code treats a negative one as it treats 0.
pub mod Frames
mod Tests
use voice_mesh.Prelude.{
  ℕ, zero, suc, ◌+◌, ◌-◌, ◌*◌, ◌/◌, ◌%◌, ◌||◌, not, Bool, List, [], ◌∷◌, length, take, drop,
  if◌then◌else◌, ltb, leb, ◌==◌,
}
use voice_mesh.Prelude.Results.{Result, ok, err, value_error}

unfoldable pub pcm16_sample_count : List ℕ → Result ℕ
pcm16_sample_count audio_chunk =
    if length audio_chunk % 2 == 0 then ok (length audio_chunk / 2) else err value_error

-- `[audio_chunk[offset : offset + size] for offset in range(offset, stop, size)]`, where each round
-- uses up one of `fuel`.
abbrev pub slices : ℕ → ℕ → ℕ → ℕ → List ℕ → List (List ℕ)
slices zero offset stop size audio_chunk = []
slices (suc fuel) offset stop size audio_chunk =
    let rest = slices fuel (offset + size) stop size audio_chunk in
    if ltb offset stop then take size (drop offset audio_chunk) ∷ rest else []

abbrev pub bytes_per_frame : ℕ → ℕ → ℕ
bytes_per_frame sample_rate frame_ms = sample_rate * frame_ms / 1000 * 2

abbrev pub is_frame_ms : ℕ → Bool
is_frame_ms frame_ms = frame_ms == 10 || frame_ms == 20 || frame_ms == 30

-- Since a frame has a byte at least, there are at most as many rounds as bytes.
unfoldable pub split_pcm16_frames : List ℕ → ℕ → ℕ → Result (List (List ℕ))
split_pcm16_frames audio_chunk sample_rate frame_ms =
    let size = bytes_per_frame sample_rate frame_ms in
    let complete_bytes = length audio_chunk - length audio_chunk % size in
    if not (is_frame_ms frame_ms)
    then err value_error
    else if leb (sample_rate * frame_ms / 1000) 0 || ltb (length audio_chunk) size
    then ok []
    else ok (slices (length audio_chunk) 0 complete_bytes size audio_chunk)
