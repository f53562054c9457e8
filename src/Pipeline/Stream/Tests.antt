-- ===== src/Pipeline/Stream/Tests.antt =====
-- A call with one response, which the user interrupts.
use voice_mesh.Prelude.{◌≡◌, refl, String, true, false, none, some, List, [], ◌∷◌, length, arith}
use voice_mesh.Prelude.Int.{ℤ}
use voice_mesh.Prelude.Dict.{has_key, lookup}
use voice_mesh.Prelude.Lower.{same_codes}
use voice_mesh.Prelude.Traces.{run}
use voice_mesh.Events.Schemas.{user_barge_in_confirmed}
use voice_mesh.Pipeline.Queue.{
  FlowControlledQueue, DepthUnit, put_locked, flush_locked, observe_locked, get_locked, flush_loop,
}
use voice_mesh.Pipeline.Responses.{is_response_active, cancel_response}
use voice_mesh.Pipeline.BargeIn
use voice_mesh.Pipeline.BargeIn.{
  BargeInCandidate, rejected, candidate, correction, backchannel, cancellation_request,
  set_assistant_playing,
}
use voice_mesh.Pipeline.BargeIn.Classify.{classify_interruption}
use voice_mesh.Pipeline.TurnDetector.{TurnUpdate, speaking}
use voice_mesh.Pipeline.Stream.{
  Stream, Settings, TextQueueItem, text_chunk, audio_chunk, AudioChunk, about_response, emit,
  is_stale_response, drop_stale_chunk,
}
use voice_mesh.Pipeline.Stream.Speaking.{
  text_weight, audio_weight, send_item, get_text, put_text, take_token,
}
use voice_mesh.Pipeline.Stream.Interrupting.{is_sustained, confirm_from_vad}
use voice_mesh.Pipeline.Stream.Cancelling.{
  start_cancelling, flush_text, flush_audio, finish_cancelling, is_text_of, is_audio_of,
}
use voice_mesh.Pipeline.Stream.Ending.{usage_manifest_payload}
use voice_mesh.Pipeline.Stream.Steps.{Op, step}
use voice_mesh.Pipeline.Stream.Coherence.{IsCoherent, run-IsCoherent}
use voice_mesh.Pipeline.Stream.Silence.{sent_of, start_cancelling-silent}
use voice_mesh.Pipeline.Stream.Once.{IsOnce, run-IsOnce}
use voice_mesh.Pipeline.Stream.Confirming.{stale_candidate_cancels}
use voice_mesh.Pipeline.Stream.Cancelled.{
  Pauses, cancel_among, cancel_rest, NoneOf, IsSettled, cancel_among-IsSettled,
}
use voice_mesh.Pipeline.Stream.Manifest.{lists, expect, was_expected, usage_manifest_exact}

abbrev settings : Settings
settings = record {
  llm_to_tts = record { low_watermark = 2000; high_watermark = 5000; hard_limit = 9000 };
  tts_to_transport = record { low_watermark = 500; high_watermark = 1500; hard_limit = 5000 };
  flow_queue_max_items = 100;
  speech_chars_per_second = 15;
  tts_output_sample_rate = 24000;
  barge_in_confirmation_ms = 200;
  barge_in_min_speech_ratio = record { over = 60; under = 100 };
  barge_in_backend_confirmation_ms = 350;
  barge_in_backend_min_speech_ratio = record { over = 75; under = 100 };
  barge_in_backend_echo_grace_ms = 600;
  barge_in_recent_response_grace_ms = 6000;
  barge_in_candidate_retention_ms = 1200;
  barge_in_backchannel_policy = "low";
  backpressure_hard_limit_policy = "cancel_response";
  vad_min_turn_audio_ms = 300;
  vad_min_speech_frame_ratio = record { over = 60; under = 100 };
  vad_min_transcribed_turn_audio_ms = 700;
  billing_pricing_version = "v1";
}

abbrev text_item : TextQueueItem
text_item = text_chunk (record {
  turn_id = "t1";
  response_id = "r1";
  sequence = 1;
  text = "Hello.";
  estimated_speech_ms = 400;
})

abbrev spoken : AudioChunk
spoken = record { turn_id = "t1"; response_id = "r1"; sequence = 1; audio = []; duration_ms = 40 }

abbrev empty_queue : {T : Type 0} → (T → ℤ) → FlowControlledQueue T
empty_queue weight = record {
  config = record {
    call_id = "c1";
    stage = "test";
    depth_unit = DepthUnit.audio_ms;
    low_watermark = 500;
    high_watermark = 1500;
    hard_limit = 5000;
    weight_fn = weight;
    max_items = 100;
  };
  corked = false;
  hard_limited = false;
  depth_weight = 0;
  corked_at = none;
  entries = [];
  closed = false;
  cancelled = false;
}

-- Response "r1" is playing in turn "t1".
abbrev playing : Stream
playing = record {
  call_id = "c1";
  settings = settings;
  current_stage = "transport";
  turn_id = "t1";
  transcript = "";
  response = "";
  active_response_id = some "r1";
  sequence_number = 0;
  corked_stages = [];
  responses = record {
    active_response_id = some "r1";
    response_turns = ("r1", "t1") ∷ [];
    cancelled = [];
  };
  barge_in = record {
    call_id = "c1";
    candidate_retention_ms = 1200;
    state = BargeIn.assistant_playing;
    active_turn_id = some "t1";
    active_response_id = some "r1";
    current_candidate = none;
    processed_candidate_ids = [];
    playback_cursor = none;
    interrupted_responses = [];
    last_semantic = none;
  };
  text_queue = record (empty_queue text_weight) {
    entries = (text_item, 400) ∷ [];
    depth_weight = 400;
  };
  audio_queue = record (empty_queue audio_weight) {
    entries = (audio_chunk spoken, 40) ∷ [];
    depth_weight = 40;
  };
  is_live = true;
  turn_stats = [];
  conversation = [];
  response_text = ("r1", "Hello.") ∷ [];
  estimated_ms = ("r1", 400) ∷ [];
  audio_sequences = ("r1", 1) ∷ [];
  first_audio_at = [];
  last_audio_sent_at = [];
  transport_complete = [];
  playback_done = [];
  interrupted_ids = [];
  last_interruption = none;
  usage_expectations = [];
  is_closed = false;
  is_ending = false;
  has_failed = false;
  published = [];
  sent = [];
}

-- The user interrupts, the transport still has a chunk, and the call ends.
abbrev interruption : List Op
interruption =
    Op.starting
    ∷ Op.cancelling "r1" "barge_in_confirmed"
    ∷ Op.sending "r1" (audio_chunk spoken)
    ∷ Op.cancelled "r1" "barge_in_confirmed" 1 1 8
    ∷ Op.ending
    ∷ Op.ending
    ∷ Op.ending_published false
    ∷ []

-- The chunk is sent where nothing is cancelled.
sent_before : sent_of "r1" (send_item "r1" (audio_chunk spoken) playing).sent ≡ 1
unfolding send_item is_stale_response is_response_active lookup
sent_before = refl

run-IsCoherent_example : IsCoherent (run step playing interruption)
run-IsCoherent_example =
    run-IsCoherent playing interruption
      (record { one_active = refl; counted = refl; numbered = tt })

start_cancelling-silent_example :
    let s' = (start_cancelling "r1" "barge_in_confirmed" playing).0 in
    sent_of "r1" (run step s' interruption).sent ≡ sent_of "r1" s'.sent
start_cancelling-silent_example =
    start_cancelling-silent "r1" "barge_in_confirmed" playing interruption

playing-IsOnce : IsOnce "r1" playing
unfolding lookup
playing-IsOnce = record {
  one_mark = refl;
  barred = omega arith;
  ended = omega arith;
  no_session = refl;
}

run-IsOnce_example : IsOnce "r1" (run step playing interruption)
run-IsOnce_example = run-IsOnce "r1" playing interruption playing-IsOnce

not_cancelled : has_key "r1" playing.responses.cancelled ≡ false
unfolding lookup
not_cancelled = refl

-- A producer was waiting: after the flush of the text it puts another chunk of the response.
abbrev pauses : Pauses
pauses = record {
  before_texts = Op.getting_text 8 ∷ [];
  before_audios = Op.putting_text text_item 9 ∷ [];
  before_end = Op.token "t1" "r1" "Yes." ∷ [];
  texts_at = 9;
  audios_at = 9;
  ended_at = 10;
}

stays_live :
    let c = cancel_among "r1" "queue_hard_limit" pauses playing in
    (c.at_texts.is_live ≡ true) × (c.at_audios.is_live ≡ true)
unfolding cancel_among cancel_rest start_cancelling cancel_response flush_text step get_text
    put_text lookup
stays_live = (refl, refl)

-- The chunk that was put after the flush is still there at the end.
left_behind :
    length (cancel_among "r1" "queue_hard_limit" pauses playing).ended.text_queue.entries ≡ 1
unfolding cancel_among cancel_rest start_cancelling cancel_response flush_text flush_audio step
    get_text put_text take_token finish_cancelling emit is_stale_response is_response_active
    drop_stale_chunk put_locked flush_locked observe_locked get_locked flush_loop lookup
left_behind = refl

cancel_among-IsSettled_example :
    let c = cancel_among "r1" "queue_hard_limit" pauses playing in
    NoneOf (is_text_of "r1") c.texts_flushed.text_queue.entries
    × NoneOf (is_audio_of "r1") c.audios_flushed.audio_queue.entries
    × IsSettled "r1" (sent_of "r1" playing.sent) (run step c.ended interruption)
cancel_among-IsSettled_example =
    cancel_among-IsSettled "r1" "queue_hard_limit" pauses playing interruption not_cancelled
      playing-IsOnce stays_live.0 stays_live.1

-- A candidate of response "r0", left over when "r1" started.
abbrev left_over : BargeInCandidate
left_over = record {
  barge_in_id = "b0";
  call_id = "c1";
  turn_id = "t0";
  response_id = "r0";
  detected_at_monotonic_ms = 1;
  last_played_sequence = ℤ.pos 0;
  played_audio_ms = ℤ.pos 0;
  source = "browser";
}

abbrev speech : TurnUpdate
speech = record {
  previous_state = speaking;
  state = speaking;
  started = false;
  ended = false;
  collect_audio = true;
  state_changed = false;
  speech_duration_ms = 400;
  total_duration_ms = 400;
  speech_frame_ratio = record { over = 9; under = 10 };
}

abbrev with_left_over : Stream
with_left_over = record playing {
  barge_in = record playing.barge_in { current_candidate = some left_over; state = candidate };
}

is_sustained_speech : is_sustained true speech with_left_over ≡ true
unfolding is_sustained
is_sustained_speech = refl

stale_candidate_cancels_example :
    let (s', cancelled) = confirm_from_vad speech 5 with_left_over in
    (cancelled ≡ some "r1")
    × (s'.barge_in.state ≡ rejected)
    × (s'.published
        ≡ (emit user_barge_in_confirmed "barge_in" none
            (about_response "r1" "stale_response")
            with_left_over).published)
stale_candidate_cancels_example =
    stale_candidate_cancels left_over "r1" speech 5 with_left_over refl refl refl refl
      is_sustained_speech

abbrev usages : List (String × String)
usages =
    ("t2", "llm_input_tokens") ∷ ("t1", "stt_audio_seconds") ∷ ("session", "tts_characters") ∷ []

usage_manifest_exact_example :
    lists "t1" "stt_audio_seconds" (usage_manifest_payload (run expect playing usages))
    ≡ was_expected "t1" "stt_audio_seconds" usages
usage_manifest_exact_example = usage_manifest_exact "t1" "stt_audio_seconds" playing usages refl

says_correction : classify_interruption "  Actually, I meant TWO. " ≡ correction
unfolding classify_interruption same_codes
says_correction = refl

says_yeah : classify_interruption "Uh   huh!" ≡ backchannel
unfolding classify_interruption same_codes
says_yeah = refl
