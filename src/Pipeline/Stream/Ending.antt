-- ===== src/Pipeline/Stream/Ending.antt =====
-- stream_module.py: the end of a call, with the manifest of the usage that billing has to wait for.
use Prim.Native.Nat.{Ordering}
use Prim.Native.String.{compare}
use voice_mesh.Prelude.{String, Bool, true, false, some, not, List, [], ◌∷◌, if◌then◌else◌}
use voice_mesh.Prelude.Dict.{Dict}
use voice_mesh.Events.Schemas.{call_started, call_ended, call_failed, usage_finalization_barrier}
use voice_mesh.Pipeline.Stream.{Stream, ExpectedTurn, plain, usage_manifest, emit}

abbrev pub text_leb : String → String → Bool
text_leb s t = elim (compare s t) [ Ordering.gt ↦ false | _ ↦ true ]

-- `sorted(texts)`, and `sorted(d.items())` for a dict, whose keys differ.
abbrev pub insert_text : String → List String → List String
insert_text s [] = s ∷ []
insert_text s (t ∷ ts) =
    let rest = insert_text s ts in if text_leb s t then s ∷ t ∷ ts else t ∷ rest

abbrev pub sort_texts : List String → List String
sort_texts [] = []
sort_texts (s ∷ ss) = insert_text s (sort_texts ss)

abbrev pub insert_item : String × List String → Dict (List String) → Dict (List String)
insert_item i [] = i ∷ []
insert_item i (j ∷ js) =
    let rest = insert_item i js in if text_leb i.0 j.0 then i ∷ j ∷ js else j ∷ rest

abbrev pub sort_items : Dict (List String) → Dict (List String)
sort_items [] = []
sort_items (i ∷ is) = insert_item i (sort_items is)

-- The turns with at least one expectation.
unfoldable pub expected_turns : Dict (List String) → List ExpectedTurn
expected_turns [] = []
expected_turns ((turn_id, []) ∷ d) = expected_turns d
expected_turns ((turn_id, u ∷ us) ∷ d) =
    record { turn_id = turn_id; expected_usage = sort_texts (u ∷ us) } ∷ expected_turns d

-- `_usage_manifest_payload`
unfoldable pub usage_manifest_payload : Stream → List ExpectedTurn
unfolding expected_turns
usage_manifest_payload s = expected_turns (sort_items s.usage_expectations)

-- The first event of `run`.
unfoldable pub start_call : Stream → Stream
start_call s = emit call_started "transport" (some "session") plain s

-- `_fail_call`
unfoldable pub fail_call : Stream → Stream
fail_call s =
    emit call_failed s.current_stage (some "session") plain (record s { has_failed = true })

-- `_end_call`, up to the publication of the barrier, which it waits for.
unfoldable pub end_call : Stream → Stream
unfolding usage_manifest_payload
end_call s =
    let closed : Stream = record s { is_closed = true } in
    if s.is_closed
    then s
    else if s.has_failed
    then closed
    else let manifest =
        usage_manifest s.settings.billing_pricing_version (usage_manifest_payload closed) in
      emit usage_finalization_barrier "billing" (some "session") manifest
        (record closed { is_ending = true })

-- `_end_call`, once that publication is over: if it raised, the exception leaves `_end_call`.
unfoldable pub barrier_published : Bool → Stream → Stream
barrier_published raised s =
    let going_on : Stream = record s { is_ending = false } in
    if not s.is_ending
    then s
    else if raised
    then going_on
    else emit call_ended "transport" (some "session") plain going_on
