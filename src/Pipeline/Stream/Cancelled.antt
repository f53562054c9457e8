-- ===== src/Pipeline/Stream/Cancelled.antt =====
-- stream_module.py: `_cancel_response` as a whole, with the sections of other tasks while it waits.
use voice_mesh.Prelude.{
  ℕ, subst, ◌≡◌, refl, String, Bool, true, false, List, [], ◌∷◌, arith, bit, has_text, length,
  if◌then◌else◌, eq_iff, ◌≤◌,
}
use voice_mesh.Prelude.Traces.{run}
use voice_mesh.Prelude.Dict.{has_key}
use voice_mesh.Pipeline.Queue.{FlowControlledQueue, flush_loop, flush_locked, observe_locked, after}
use voice_mesh.Pipeline.Responses.{cancel_response}
use voice_mesh.Pipeline.Stream.{Stream, emit}
use voice_mesh.Pipeline.Stream.Cancelling.{
  start_cancelling, flush_text, flush_audio, finish_cancelling, mark_interrupted, is_text_of,
  is_audio_of,
}
use voice_mesh.Pipeline.Stream.Steps.{Op, step}
use voice_mesh.Pipeline.Stream.Silence.{
  sent_of, IsHushed, start_cancelling-cancels, run-IsHushed, step-IsHushed,
  finish_cancelling-IsHushed,
}
use voice_mesh.Pipeline.Stream.Once.{
  IsOnce, marks_of, run-IsOnce, start_cancelling-IsOnce, finish_cancelling-IsOnce, step-IsOnce,
}

-- What other tasks do before the lock of the text queue is had, between the two flushes, among it the
-- report of a transition, and after them; and when each flush and the end take place.
pub record Pauses : Type 0 where
  pub before_texts : List Op
  pub before_audios : List Op
  pub before_end : List Op
  pub texts_at : ℕ
  pub audios_at : ℕ
  pub ended_at : ℕ

-- The state before and after each flush, and at the end.
pub record Cancellation : Type 0 where
  pub at_texts : Stream
  pub texts_flushed : Stream
  pub at_audios : Stream
  pub audios_flushed : Stream
  pub ended : Stream

-- `_cancel_response` after its first section.
unfoldable pub cancel_rest : String → String → Pauses → Stream → Cancellation
cancel_rest r reason p started =
    let at_texts = run step started p.before_texts in
    let (texts_flushed, texts) = flush_text r p.texts_at at_texts in
    let at_audios = run step texts_flushed p.before_audios in
    let (audios_flushed, audios) = flush_audio r p.audios_at at_audios in
    let at_end = run step audios_flushed p.before_end in
    record {
      at_texts = at_texts;
      texts_flushed = texts_flushed;
      at_audios = at_audios;
      audios_flushed = audios_flushed;
      ended = finish_cancelling r reason (length texts) (length audios) p.ended_at at_end;
    }

abbrev unchanged : Stream → Cancellation
unchanged s = record {
  at_texts = s;
  texts_flushed = s;
  at_audios = s;
  audios_flushed = s;
  ended = s;
}

-- `_cancel_response`, which goes no further where the response was cancelled before.
unfoldable pub cancel_among : String → String → Pauses → Stream → Cancellation
cancel_among r reason p s =
    let (started, fresh) = start_cancelling r reason s in
    if fresh then cancel_rest r reason p started else unchanged started

-- No item of the list meets the test.
abbrev pub NoneOf : {T : Type 0} → (T → Bool) → List (T × ℕ) → Type 0
NoneOf p [] = Unit {0}
NoneOf p ((x, w) ∷ xs) = (p x ≡ false) × NoneOf p xs

flush_loop-NoneOf : {T : Type 0} (p : T → Bool) (xs : List (T × ℕ)) → NoneOf p (flush_loop p xs).1
unfolding flush_loop
flush_loop-NoneOf p [] = tt
flush_loop-NoneOf p ((x, w) ∷ xs) = ground (arith, flush_loop-NoneOf p xs)

observe-entries :
    {T : Type 0} (q : FlowControlledQueue T) (now : ℕ)
    → (observe_locked q now).0.entries ≡ q.entries
unfolding observe_locked
observe-entries q now = ground arith

flush-NoneOf :
    {T : Type 0} (p : T → Bool) (now : ℕ) (q : FlowControlledQueue T)
    → NoneOf p (after q (flush_locked p now q)).entries
unfolding flush_locked
flush-NoneOf p now q =
    let (removed, kept, depth) = flush_loop p q.entries in
    rw (observe-entries (record q { entries = kept; depth_weight = depth }) now)
      (flush_loop-NoneOf p q.entries)

flush_text-NoneOf :
    (r : String) (now : ℕ) (s : Stream)
    → s.is_live ≡ true
    → NoneOf (is_text_of r) (flush_text r now s).0.text_queue.entries
unfolding flush_text
flush_text-NoneOf r now s l = rw l (flush-NoneOf (is_text_of r) now s.text_queue)

flush_audio-NoneOf :
    (r : String) (now : ℕ) (s : Stream)
    → s.is_live ≡ true
    → NoneOf (is_audio_of r) (flush_audio r now s).0.audio_queue.entries
unfolding flush_audio
flush_audio-NoneOf r now s l = rw l (flush-NoneOf (is_audio_of r) now s.audio_queue)

start_cancelling-fresh :
    (r reason : String) (s : Stream)
    → has_key r s.responses.cancelled ≡ false
    → let (started, fresh) = start_cancelling r reason s in
      (fresh ≡ true) × (sent_of r started.sent ≡ sent_of r s.sent)
unfolding start_cancelling cancel_response
start_cancelling-fresh r reason s h = rw h (refl, refl)

finish_cancelling-marks :
    (r reason : String) (texts audios now : ℕ) (s : Stream)
    → 1 ≤ bit (has_text r (finish_cancelling r reason texts audios now s).interrupted_ids)
unfolding finish_cancelling mark_interrupted emit
finish_cancelling-marks r reason texts audios now s = ground (arith, eq_iff r r)

-- What the end of a cancellation leaves for good: response `r` is cancelled and has one mark, and `n`
-- chunks of it were sent.
pub record IsSettled (r : String) (n : ℕ) (s : Stream) : Type 0 where
  pub is_cancelled : has_key r s.responses.cancelled ≡ true
  pub marked_once : marks_of r s.conversation ≡ 1
  pub said : sent_of r s.sent ≡ n

settled :
    (r : String) (n : ℕ) (s : Stream) (ops : List Op)
    → IsHushed r n 1 s
    → IsOnce r s
    → IsSettled r n (run step s ops)
settled r n s ops h o =
    let k = run-IsHushed r n 1 s ops h in
    let q = run-IsOnce r s ops o in
    record {
      is_cancelled = k.is_cancelled;
      marked_once = ground (arith, k.marked, q.one_mark);
      said = k.said;
    }

rest-IsSettled :
    (r reason : String) (p : Pauses) (n : ℕ) (s : Stream) (ops : List Op)
    → IsHushed r n 0 s
    → IsOnce r s
    → IsSettled r n (run step (cancel_rest r reason p s).ended ops)
unfolding cancel_rest step
rest-IsSettled r reason p n s ops h o =
    let s₁ = run step s p.before_texts in
    let h₁ = run-IsHushed r n 0 s p.before_texts h in
    let o₁ = run-IsOnce r s p.before_texts o in
    let (s₂, texts) = flush_text r p.texts_at s₁ in
    let h₂ = step-IsHushed r n 0 s₁ (Op.flushing_text r p.texts_at) h₁ in
    let o₂ = step-IsOnce r s₁ (Op.flushing_text r p.texts_at) o₁ in
    let s₃ = run step s₂ p.before_audios in
    let h₃ = run-IsHushed r n 0 s₂ p.before_audios h₂ in
    let o₃ = run-IsOnce r s₂ p.before_audios o₂ in
    let (s₄, audios) = flush_audio r p.audios_at s₃ in
    let h₄ = step-IsHushed r n 0 s₃ (Op.flushing_audio r p.audios_at) h₃ in
    let o₄ = step-IsOnce r s₃ (Op.flushing_audio r p.audios_at) o₃ in
    let s₅ = run step s₄ p.before_end in
    let h₅ = run-IsHushed r n 0 s₄ p.before_end h₄ in
    let o₅ = run-IsOnce r s₄ p.before_end o₄ in
    let n_texts = length texts in
    let n_audios = length audios in
    let h₆ = finish_cancelling-IsHushed r n 0 r reason n_texts n_audios p.ended_at s₅ h₅ in
    let o₆ = finish_cancelling-IsOnce r r reason n_texts n_audios p.ended_at s₅ o₅ in
    settled r n (finish_cancelling r reason n_texts n_audios p.ended_at s₅) ops
      (record {
        is_cancelled = h₆.is_cancelled;
        said = h₆.said;
        marked = finish_cancelling-marks r reason n_texts n_audios p.ended_at s₅;
      })
      o₆

-- The cancellation of a response that was not cancelled before, carried through to its end among any
-- sections of other tasks, from a call with the invariant IsOnce for the response. Where the queues are
-- live at the flushes, no chunk of the response is left in a queue right after its flush; another task
-- may put one later. From the end on, in every interleaving, the response is cancelled, the
-- conversation has it as interrupted exactly once, and no chunk of its audio was sent to the browser
-- since the start of the cancellation.
pub cancel_among-IsSettled :
    (r reason : String) (p : Pauses) (s : Stream) (ops : List Op)
    → has_key r s.responses.cancelled ≡ false
    → IsOnce r s
    → (cancel_among r reason p s).at_texts.is_live ≡ true
    → (cancel_among r reason p s).at_audios.is_live ≡ true
    → let c = cancel_among r reason p s in
      NoneOf (is_text_of r) c.texts_flushed.text_queue.entries
      × NoneOf (is_audio_of r) c.audios_flushed.audio_queue.entries
      × IsSettled r (sent_of r s.sent) (run step c.ended ops)
unfolding cancel_among cancel_rest
cancel_among-IsSettled r reason p s ops h o =
    let f = start_cancelling-fresh r reason s h in
    let s' = (start_cancelling r reason s).0 in
    rw f.0 (λ l k. (
      flush_text-NoneOf r p.texts_at _ l,
      flush_audio-NoneOf r p.audios_at _ k,
      subst (λ n. IsSettled r n (run step (cancel_rest r reason p s').ended ops)) f.1
          (rest-IsSettled r reason p (sent_of r s'.sent) s' ops
            (start_cancelling-cancels r reason s) (start_cancelling-IsOnce r r reason s o)),
    ))
