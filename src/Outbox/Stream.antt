-- ===== src/Outbox/Stream.antt =====
-- app/services/event/stream_service.py: get_event_updates. The format_ functions only write text.
use madcamp_w2_decision_make.Prelude.{ℕ, String, Option, some, List, [], ◌∷◌, map}
use madcamp_w2_decision_make.Model.{OutboxEvent}
use madcamp_w2_decision_make.Session.{Action, pure, ◌>>=◌}
use madcamp_w2_decision_make.Proposal.Responses.{Body}
use madcamp_w2_decision_make.Repositories.OutboxStream.{get_events_for_sse}

pub record EventUpdateResponse : Type 0 where
  pub id : ℕ
  pub event_type : String
  pub payload : Body
  pub created_at : ℕ

abbrev pub update_response : OutboxEvent → EventUpdateResponse
update_response e = record {
  id = e.id;
  event_type = e.event_type;
  payload = e.payload;
  created_at = e.created_at;
}

-- `events[-1].id if events else last_id`
abbrev pub last_event_id : List OutboxEvent → Option ℕ → Option ℕ
last_event_id [] last_id = last_id
last_event_id (e ∷ es) last_id = last_event_id es (some e.id)

unfoldable pub get_event_updates : ℕ → Option ℕ → ℕ → Action (List EventUpdateResponse × Option ℕ)
get_event_updates target_event_id last_id limit = do
  events ← get_events_for_sse target_event_id last_id limit
  pure (map update_response events, last_event_id events last_id)
