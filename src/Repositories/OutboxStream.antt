-- ===== src/Repositories/OutboxStream.antt =====
-- app/repositories/outbox_repository.py: the events of the stream, by creation time and then id.
-- The order of UUIDs is that of the numbers.
use madcamp_w2_decision_make.Prelude.{
  ℕ, Bool, Option, none, some, List, [], ◌∷◌, ltb, ◌==◌, ◌&&◌, ◌||◌, where_rows, take,
  if◌then◌else◌,
}
use madcamp_w2_decision_make.Model.{Database, OutboxEvent}
use madcamp_w2_decision_make.Session.{Action, query}
use madcamp_w2_decision_make.Repositories.OutboxQueue.{outbox_of}

-- Later than a time and an id.
abbrev pub is_after : ℕ → ℕ → OutboxEvent → Bool
is_after created_at id e =
    ltb created_at e.created_at || (created_at == e.created_at && ltb id e.id)

abbrev pub insert_event : OutboxEvent → List OutboxEvent → List OutboxEvent
insert_event e [] = e ∷ []
insert_event e (x ∷ xs) =
    let rest = insert_event e xs in if is_after e.created_at e.id x then e ∷ x ∷ xs else x ∷ rest

-- ORDER BY created_at ASC, id ASC
abbrev pub order_events : List OutboxEvent → List OutboxEvent
order_events [] = []
order_events (e ∷ es) = insert_event e (order_events es)

abbrev pub created_at_of : Option OutboxEvent → Option ℕ
created_at_of none = none
created_at_of (some e) = some e.created_at

abbrev pub after_last : ℕ → Option ℕ → OutboxEvent → Bool
after_last last_id none e = ltb last_id e.id
after_last last_id (some last_created_at) e = is_after last_created_at last_id e

-- The WHERE clause.
abbrev pub is_streamed : ℕ → Option ℕ → Database → OutboxEvent → Bool
is_streamed target_event_id none d e = e.target_event_id == target_event_id
is_streamed target_event_id (some last_id) d e =
    e.target_event_id == target_event_id
    && after_last last_id (created_at_of (outbox_of last_id d)) e

unfoldable pub get_events_for_sse : ℕ → Option ℕ → ℕ → Action (List OutboxEvent)
get_events_for_sse target_event_id last_id limit = query λ d.
    take limit (order_events (where_rows (is_streamed target_event_id last_id d) d.outbox_events))
