-- ===== src/Pipeline/Audio/Frames.antt =====
-- What the frames of `split_pcm16_frames` are of the audio.
use native.Mathlib.Nat.{suc-mul, mod-eq_of_lt, div-add-mod', le-mul_of_pos_right}
use native.Mathlib.Numerals.{unary_clauses}
use voice_mesh.Prelude.{
  ℕ, zero, suc, ◌+◌, ◌-◌, ◌*◌, ◌/◌, ◌%◌, ◌≤◌, ◌<◌, ◌≡◌, refl, ap, sym, subst, ◌∙◌, ◌-◌, List, [],
  ◌∷◌, ◌++◌, arith, length, take, drop, ltb, true, inl, inr, Bool-cases, ltb→lt, ltb_false→le,
}
use voice_mesh.Prelude.Results.{Result, ok}
use voice_mesh.Pipeline.Audio.{is_frame_ms, slices, bytes_per_frame, split_pcm16_frames}

-- The frames, one after another.
abbrev pub joined : List (List ℕ) → List ℕ
joined [] = []
joined (f ∷ fs) = f ++ joined fs

abbrev pub AllSized : ℕ → List (List ℕ) → Type 0
AllSized n [] = Unit
AllSized n (f ∷ fs) = (length f ≡ n) × AllSized n fs

drop-drop : (m n : ℕ) (xs : List ℕ) → drop (m + n) xs ≡ drop n (drop m xs)
drop-drop zero n xs = ap (λ i. drop i xs) (omega arith)
drop-drop (suc m) zero [] = simp unary_clauses refl
drop-drop (suc m) (suc n) [] = simp unary_clauses refl
drop-drop (suc m) n (x ∷ xs) =
    let e : suc m + n ≡ suc (m + n) = omega arith in ap (λ i. drop i (x ∷ xs)) e ∙ drop-drop m n xs

take-add : (m n : ℕ) (xs : List ℕ) → take (m + n) xs ≡ take m xs ++ take n (drop m xs)
take-add zero n xs = ap (λ i. take i xs) (omega arith)
take-add (suc m) zero [] = simp unary_clauses refl
take-add (suc m) (suc n) [] = simp unary_clauses refl
take-add (suc m) n (x ∷ xs) =
    let e : suc m + n ≡ suc (m + n) = omega arith in
    ap (λ i. take i (x ∷ xs)) e ∙ ap (◌∷◌ x) (take-add m n xs)

length-take : (n : ℕ) (xs : List ℕ) → n ≤ length xs → length (take n xs) ≡ n
length-take zero xs h = refl
length-take (suc n) [] h = absurd (omega (arith, h))
length-take (suc n) (x ∷ xs) h = ap suc (length-take n xs (omega (arith, h)))

length-drop : (n : ℕ) (xs : List ℕ) → length (drop n xs) ≡ length xs - n
length-drop zero xs = omega arith
length-drop (suc n) [] = omega arith
length-drop (suc n) (x ∷ xs) = omega (arith, length-drop n xs)

-- Frames of `size` bytes that are, one after another, the first `n` bytes.
pub record IsCut (size n : ℕ) (audio_chunk : List ℕ) (frames : List (List ℕ)) : Type 0 where
  pub cut : joined frames ≡ take n audio_chunk
  pub sized : AllSized size frames

slices_done : (fuel offset size : ℕ) (xs : List ℕ) → slices fuel offset offset size xs ≡ []
slices_done zero offset size xs = refl
slices_done (suc fuel) offset size xs = ground arith

slices_more :
    (fuel offset stop size : ℕ) (xs : List ℕ)
    → offset < stop
    → slices (suc fuel) offset stop size xs
      ≡ take size (drop offset xs) ∷ slices fuel (offset + size) stop size xs
slices_more fuel offset stop size xs h = ground arith

slices-IsCut :
    (k fuel offset stop size : ℕ) (xs : List ℕ)
    → k ≤ fuel
    → 0 < size
    → stop ≡ offset + k * size
    → stop ≤ length xs
    → IsCut size (k * size) (drop offset xs) (slices fuel offset stop size xs)
slices-IsCut zero fuel offset stop size xs h p q l =
    let e : stop ≡ offset = omega (arith, q) in
    let z : zero * size ≡ 0 = omega arith in
    let s : slices fuel offset stop size xs ≡ [] =
      ap (λ i. slices fuel offset i size xs) e ∙ slices_done fuel offset size xs in
    record {
      cut = ap joined s ∙ sym (ap (λ i. take i (drop offset xs)) z);
      sized = subst (AllSized size) (sym s) tt;
    }
slices-IsCut (suc k) zero offset stop size xs h p q l = absurd (omega (arith, h))
slices-IsCut (suc k) (suc fuel) offset stop size xs h p q l =
    let m = suc-mul k size in
    let ys = drop offset xs in
    let s = slices_more fuel offset stop size xs (omega (arith, m, q, p)) in
    let ih =
      slices-IsCut k fuel (offset + size) stop size xs (omega (arith, h)) p (omega (arith, m, q))
        l in
    let n : size ≤ length ys = omega (arith, length-drop offset xs, m, q, l) in
    let joint : size + k * size ≡ suc k * size = omega (arith, m) in
    record {
      cut =
          ap joined s
          ∙ ap (λ zs. take size ys ++ zs) ih.cut
          ∙ ap (λ zs. take size ys ++ take (k * size) zs) (drop-drop offset size xs)
          ∙ sym (take-add size (k * size) ys)
          ∙ ap (λ i. take i ys) joint;
      sized = subst (AllSized size) (sym s) (length-take size ys n, ih.sized);
    }

split_short :
    (audio_chunk : List ℕ) (rate ms : ℕ)
    → is_frame_ms ms ≡ true
    → length audio_chunk < bytes_per_frame rate ms
    → split_pcm16_frames audio_chunk rate ms ≡ ok []
unfolding split_pcm16_frames
split_short audio_chunk rate ms h l = ground arith

split_long :
    (audio_chunk : List ℕ) (rate ms : ℕ)
    → is_frame_ms ms ≡ true
    → 0 < rate * ms / 1000
    → bytes_per_frame rate ms ≤ length audio_chunk
    → split_pcm16_frames audio_chunk rate ms
      ≡ ok (
          slices
            (length audio_chunk)
            0
            (length audio_chunk - length audio_chunk % bytes_per_frame rate ms)
            (bytes_per_frame rate ms)
            audio_chunk)
unfolding split_pcm16_frames
split_long audio_chunk rate ms h p l = ground arith

pub record Splits (size : ℕ) (audio_chunk : List ℕ) (res : Result (List (List ℕ))) : Type 0 where
  frames : List (List ℕ)
  returns : res ≡ ok frames
  is_cut : IsCut size (length audio_chunk - length audio_chunk % size) audio_chunk frames

complete_rest : (n size : ℕ) → n - n % size ≡ n / size * size
complete_rest n size = omega (arith, div-add-mod' n size)

complete-IsCut :
    (size : ℕ) (xs : List ℕ)
    → 0 < size
    → size ≤ length xs
    → IsCut size
        (length xs - length xs % size)
        xs
        (slices (length xs) 0 (length xs - length xs % size) size xs)
complete-IsCut size xs p l =
    let c = complete_rest (length xs) size in
    let k = length xs / size in
    let few = le-mul_of_pos_right k p in
    let i =
      slices-IsCut k (length xs) 0 (length xs - length xs % size) size xs (omega (arith, few, c)) p
        (omega (arith, c)) (omega arith) in
    record { cut = i.cut ∙ ap (λ n. take n xs) (sym c); sized = i.sized }

-- For a frame of 10, 20 or 30 ms that has a sample at least, `split_pcm16_frames` returns frames of its
-- number of bytes, which are, one after another, the audio but for the last bytes that fill no frame.
pub split_pcm16_frames_exact :
    (audio_chunk : List ℕ) (rate ms : ℕ)
    → is_frame_ms ms ≡ true
    → 0 < rate * ms / 1000
    → Splits (bytes_per_frame rate ms) audio_chunk (split_pcm16_frames audio_chunk rate ms)
split_pcm16_frames_exact audio_chunk rate ms h p =
    let size = bytes_per_frame rate ms in
    let n = length audio_chunk in
    elim (Bool-cases (ltb n size)) [
      | inl b ↦
          let l = ltb→lt n size b in
          let z : n - n % size ≡ 0 = omega (arith, mod-eq_of_lt l) in
          record {
            frames = [];
            returns = split_short audio_chunk rate ms h l;
            is_cut = record { cut = sym (ap (λ i. take i audio_chunk) z); sized = tt };
          }
      | inr b ↦
          let l = ltb_false→le n size b in
          record {
            frames = slices n 0 (n - n % size) size audio_chunk;
            returns = split_long audio_chunk rate ms h p l;
            is_cut = complete-IsCut size audio_chunk (omega (arith, p)) l;
          }
    ]
