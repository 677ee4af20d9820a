-- ===== src/Setting/Page.antt =====
-- app/services/event/setting_service.py: what the page of the settings shows.
use madcamp_w2_decision_make.Prelude.{ℕ, String, Bool, Option, List, ◌==◌, map, where_rows}
use madcamp_w2_decision_make.Session.{Action, pure, query, ◌>>=◌}
use madcamp_w2_decision_make.BaseService.{get_event_with_all_relations}
use madcamp_w2_decision_make.Repositories.Votes.{is_option_in, is_criterion_in}

-- OptionInfo, AssumptionInfo and CriterionInfo are pairs of an id and a content.
pub record EventSettingResponse : Type 0 where
  pub decision_subject : String
  pub options : List (ℕ × String)
  pub assumptions : List (ℕ × String)
  pub criteria : List (ℕ × String)
  pub max_membership : ℕ
  pub assumption_is_auto_approved_by_votes : Bool
  pub assumption_min_votes_required : Option ℕ
  pub criteria_is_auto_approved_by_votes : Bool
  pub criteria_min_votes_required : Option ℕ
  pub conclusion_approval_threshold_percent : Option ℕ
  pub membership_is_auto_approved : Bool
  pub entrance_code : String

-- The user is not looked at.
unfoldable pub get_event_setting : ℕ → ℕ → Action EventSettingResponse
get_event_setting event_id user_id = do
  event ← get_event_with_all_relations event_id
  options ← query (λ d. where_rows (is_option_in event_id) d.options)
  assumptions ← query (λ d. where_rows (λ a. a.event_id == event_id) d.assumptions)
  criteria ← query (λ d. where_rows (is_criterion_in event_id) d.criteria)
  pure record {
    decision_subject = event.decision_subject;
    options = map (λ o. (o.id, o.content)) options;
    assumptions = map (λ a. (a.id, a.content)) assumptions;
    criteria = map (λ c. (c.id, c.content)) criteria;
    max_membership = event.max_membership;
    assumption_is_auto_approved_by_votes = event.assumption_is_auto_approved_by_votes;
    assumption_min_votes_required = event.assumption_min_votes_required;
    criteria_is_auto_approved_by_votes = event.criteria_is_auto_approved_by_votes;
    criteria_min_votes_required = event.criteria_min_votes_required;
    conclusion_approval_threshold_percent = event.conclusion_approval_threshold_percent;
    membership_is_auto_approved = event.membership_is_auto_approved;
    entrance_code = event.entrance_code;
  }
