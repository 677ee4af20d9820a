-- ===== src/Creation/Service.antt =====
-- app/services/event/creation_service.py, and create_event of app/routers/event/creation.py, which
-- calls it step by step. `is_code` is the database's test of the format of a code, and `draw` gives
-- the codes that Python's random.choices comes up with, one after the other.
use madcamp_w2_decision_make.Prelude.{
  true, false, some, ℕ, zero, suc, String, Bool, Option, none, List, [], ◌∷◌, ◌+◌, not,
}
use madcamp_w2_decision_make.Model.{Event, EventStatusType}
use madcamp_w2_decision_make.Session.{Action, pure, raise, internal, transaction, ◌>>=◌, ◌>>◌}
use madcamp_w2_decision_make.Repositories.Events
use madcamp_w2_decision_make.Repositories.Events.{exists_by_entrance_code}
use madcamp_w2_decision_make.Repositories.Contents.{
  create_option, create_assumption, create_criterion,
}
use madcamp_w2_decision_make.Membership.Service.{create_admin_membership}

pub record EventCreateRequest : Type 0 where
  pub decision_subject : String
  pub entrance_code : String
  pub assumption_is_auto_approved_by_votes : Bool
  pub criteria_is_auto_approved_by_votes : Bool
  pub membership_is_auto_approved : Bool
  pub conclusion_is_auto_approved_by_votes : Bool
  pub assumption_min_votes_required : Option ℕ
  pub criteria_min_votes_required : Option ℕ
  pub conclusion_approval_threshold_percent : Option ℕ
  pub max_membership : ℕ
  pub options : List String
  pub assumptions : List String
  pub criteria : List String

abbrev pub create_event_from_request : EventCreateRequest → ℕ → ℕ → Event
create_event_from_request request admin_id id = record {
  id = id;
  decision_subject = request.decision_subject;
  entrance_code = request.entrance_code;
  assumption_is_auto_approved_by_votes = request.assumption_is_auto_approved_by_votes;
  criteria_is_auto_approved_by_votes = request.criteria_is_auto_approved_by_votes;
  membership_is_auto_approved = request.membership_is_auto_approved;
  conclusion_is_auto_approved_by_votes = request.conclusion_is_auto_approved_by_votes;
  assumption_min_votes_required = request.assumption_min_votes_required;
  criteria_min_votes_required = request.criteria_min_votes_required;
  conclusion_approval_threshold_percent = request.conclusion_approval_threshold_percent;
  event_status = EventStatusType.not_started;
  max_membership = request.max_membership;
  updated_at = none;
  admin_id = admin_id;
}

unfoldable pub create_event : (String → Bool) → EventCreateRequest → ℕ → Action Event
create_event is_code request admin_id =
    transaction (Events.create_event is_code (create_event_from_request request admin_id))

-- The rows of a request, one after the other.
unfoldable pub create_each : (String → Action (Unit {0})) → List String → Action (Unit {0})
create_each create [] = pure tt
create_each create (content ∷ rest) = create content >> create_each create rest

unfoldable pub attach_options : ℕ → List String → ℕ → Action (Unit {0})
attach_options event_id contents created_by =
    transaction
      (create_each (λ content. create_option event_id content created_by >> pure tt) contents)

unfoldable pub attach_assumptions : ℕ → List String → ℕ → Action (Unit {0})
attach_assumptions event_id contents created_by = transaction (
    create_each (λ content. create_assumption event_id (some content) created_by >> pure tt)
      contents)

unfoldable pub attach_criteria : ℕ → List String → ℕ → Action (Unit {0})
attach_criteria event_id contents created_by = transaction (
    create_each (λ content. create_criterion event_id (some content) created_by >> pure tt)
      contents)

unfoldable pub check_entrance_code_availability : String → Action Bool
check_entrance_code_availability code = do taken ← exists_by_entrance_code code; pure (not taken)

-- The rounds of the loop that are left, and the draws so far.
unfoldable pub try_codes : (ℕ → String) → ℕ → ℕ → Action String
try_codes draw zero drawn = raise (internal "Failed to generate unique entrance code")
try_codes draw (suc left) drawn = exists_by_entrance_code (draw drawn) >>= λ taken. elim taken [
  | true ↦ try_codes draw left (drawn + 1)
  | false ↦ pure (draw drawn)
]

unfoldable pub get_random_code : (ℕ → String) → Action String
get_random_code draw = try_codes draw 30 0

-- `if contents: attach(…)`
abbrev pub attach_if : List String → Action (Unit {0}) → Action (Unit {0})
attach_if [] attach = pure tt
attach_if (content ∷ rest) attach = attach

-- The handler of POST /events.
unfoldable pub post_event : (String → Bool) → EventCreateRequest → ℕ → Action Event
post_event is_code request user_id = do
  event ← create_event is_code request user_id
  attach_if request.options (attach_options event.id request.options user_id)
  attach_if request.assumptions (attach_assumptions event.id request.assumptions user_id)
  attach_if request.criteria (attach_criteria event.id request.criteria user_id)
  create_admin_membership event.id user_id
  pure event
