-- ===== src/Model/Rows.antt =====
-- Rows of the tables of events, members, contents, final votes, comments, outbox events and
-- idempotency records. A UUID is a number, a time a number, and a JSON payload a list of named values.
use madcamp_w2_decision_make.Prelude.{ℕ, String, Bool, Option, List}
use madcamp_w2_decision_make.Model.Enums.{
  EventStatusType, MembershipStatusType, OutboxStatusType, IdempotencyStatusType,
}

pub record Event : Type 0 where
  pub id : ℕ
  pub decision_subject : String
  pub entrance_code : String
  pub assumption_is_auto_approved_by_votes : Bool
  pub criteria_is_auto_approved_by_votes : Bool
  pub membership_is_auto_approved : Bool
  pub conclusion_is_auto_approved_by_votes : Bool
  pub assumption_min_votes_required : Option ℕ
  pub criteria_min_votes_required : Option ℕ
  pub conclusion_approval_threshold_percent : Option ℕ
  pub event_status : EventStatusType
  pub max_membership : ℕ
  pub updated_at : Option ℕ
  pub admin_id : ℕ

pub record EventMembership : Type 0 where
  pub id : ℕ
  pub user_id : ℕ
  pub event_id : ℕ
  pub membership_status : MembershipStatusType
  pub joined_at : Option ℕ

-- The model `Option`; the name is taken here by the type of optional values.
pub record OptionRow : Type 0 where
  pub id : ℕ
  pub event_id : ℕ
  pub content : String
  pub created_by : ℕ
  pub updated_at : Option ℕ

pub record Assumption : Type 0 where
  pub id : ℕ
  pub event_id : ℕ
  pub content : String
  pub is_deleted : Bool
  pub is_modified : Bool
  pub original_content : Option String
  pub created_by : ℕ
  pub updated_at : Option ℕ
  pub updated_by : Option ℕ

pub record Criterion : Type 0 where
  pub id : ℕ
  pub event_id : ℕ
  pub content : String
  pub conclusion : Option String
  pub is_deleted : Bool
  pub is_modified : Bool
  pub original_content : Option String
  pub created_by : ℕ
  pub updated_at : Option ℕ
  pub updated_by : Option ℕ

pub record OptionVote : Type 0 where
  pub id : ℕ
  pub option_id : ℕ
  pub created_at : ℕ
  pub created_by : ℕ

pub record CriterionPriority : Type 0 where
  pub id : ℕ
  pub criterion_id : ℕ
  pub created_by : ℕ
  pub priority_rank : ℕ
  pub updated_at : Option ℕ

pub record Comment : Type 0 where
  pub id : ℕ
  pub criterion_id : ℕ
  pub content : String
  pub created_at : ℕ
  pub created_by : ℕ
  pub updated_at : Option ℕ

-- The values of a payload or of a stored response: `str(uuid)`, a text, a number or time, a list
-- of ids, a Boolean, or None.
pub data Value : Type 0 where
  uuid : ℕ → Value
  text : String → Value
  number : ℕ → Value
  uuids : List ℕ → Value
  boolean : Bool → Value
  null : Value

pub record OutboxEvent : Type 0 where
  pub id : ℕ
  pub event_type : String
  pub payload : List (String × Value)
  pub target_event_id : ℕ
  pub status : OutboxStatusType
  pub attempts : ℕ
  pub next_retry_at : ℕ
  pub locked_at : Option ℕ
  pub locked_by : Option String
  pub last_error : Option String
  pub created_at : ℕ
  pub processed_at : Option ℕ

pub record IdempotencyRecord : Type 0 where
  pub id : ℕ
  pub user_id : ℕ
  pub key : String
  pub method : String
  pub path : String
  pub request_hash : String
  pub status : IdempotencyStatusType
  pub response_code : Option ℕ
  pub response_body : Option (List (String × Value))
  pub expires_at : ℕ
