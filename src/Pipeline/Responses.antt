-- ===== src/Pipeline/Responses.antt =====
-- apps/api/pipeline/stream_module.py: ResponseController, which says what audio and text is stale.
-- The identifier that `uuid4` makes is an argument of `start_response`.
use voice_mesh.Prelude.{
  String, Bool, true, false, not, ◌&&◌, Option, none, some, [], if◌then◌else◌, is_text,
}
use voice_mesh.Prelude.Dict.{Dict, lookup, insert, has_key}

pub record ResponseController : Type 0 where
  pub active_response_id : Option String
  pub response_turns : Dict String
  pub cancelled : Dict String

unfoldable pub init : ResponseController
init = record { active_response_id = none; response_turns = []; cancelled = [] }

unfoldable pub start_response : String → String → ResponseController → ResponseController × String
start_response response_id turn_id c = (
  record c {
    active_response_id = some response_id;
    response_turns = insert response_id turn_id c.response_turns;
  },
  response_id,
)

unfoldable pub cancel_response : String → String → ResponseController → ResponseController × Bool
cancel_response response_id reason c = if has_key response_id c.cancelled then (c, false) else (
  record c {
    active_response_id =
        if is_text response_id c.active_response_id then none else c.active_response_id;
    cancelled = insert response_id reason c.cancelled;
  },
  true,
)

unfoldable pub finish_response : String → ResponseController → ResponseController × Bool
finish_response response_id c =
    if is_text response_id c.active_response_id
    then (record c { active_response_id = none }, true)
    else (c, false)

unfoldable pub is_response_cancelled : String → ResponseController → Bool
is_response_cancelled response_id c = has_key response_id c.cancelled

unfoldable pub is_response_active : String → String → ResponseController → Bool
is_response_active response_id turn_id c =
    is_text response_id c.active_response_id
    && is_text turn_id (lookup response_id c.response_turns)
    && not (has_key response_id c.cancelled)
