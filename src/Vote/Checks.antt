-- ===== src/Vote/Checks.antt =====
-- The checks of a vote pass where the rules allow it.
use madcamp_w2_decision_make.Prelude.{
  ℕ, ◌≤◌, ◌≡◌, refl, ◌∙◌, true, some, List, [], ◌∷◌, length, arith, All, where_rows, ==_refl,
  Option-cases, inl, inr,
}
use madcamp_w2_decision_make.Model.{Database, Event, EventStatusType}
use madcamp_w2_decision_make.Session.{Session, ok, ◌>>=◌, pure, raise_if}
use madcamp_w2_decision_make.Session.Runs.{bind-ok, bind-query}
use madcamp_w2_decision_make.Vote.Service.{
  VoteResponse, validate_each, validate_option, validate_criteria,
}
use madcamp_w2_decision_make.Vote.Replace.{Ranking, scalar_one_or_none-run}
use madcamp_w2_decision_make.Repositories.Events.{
  event_of, get_membership_status, membership_status_of, is_membership_of,
}
use madcamp_w2_decision_make.BaseService.{
  validate_membership_accepted, get_event_with_all_relations, is_accepted_status,
}
use madcamp_w2_decision_make.Repositories.Events
use madcamp_w2_decision_make.Repositories.Votes.{criterion_in, option_in, user_option_votes}
use madcamp_w2_decision_make.Repositories.Contents.{option_of, criterion_of}

-- What a vote needs of the database.
pub record CanVote (event_id user_id option_id : ℕ) (criterion_ids : List ℕ) (e : Event)
    (d : Database) : Type 0 where
  pub event_found : event_of event_id d ≡ some e
  pub in_progress : e.event_status ≡ EventStatusType.in_progress
  pub accepted : is_accepted_status (membership_status_of user_id event_id d) ≡ true
  pub one_membership : length (where_rows (is_membership_of user_id event_id) d.memberships) ≤ 1
  pub option_belongs : option_in event_id (option_of option_id d) ≡ true
  pub ranking : Ranking event_id criterion_ids d
  pub one_vote : length (user_option_votes event_id user_id d) ≤ 1

abbrev pub vote_response : ℕ → List ℕ → ℕ → VoteResponse
vote_response option_id criterion_ids now = record {
  option_id = option_id;
  criterion_order = criterion_ids;
  created_at = now;
  updated_at = now;
}

module _ (event_id : ℕ) (s : Session) where
  pub get_event_with_all_relations-run :
      (e : Event)
      → event_of event_id s.working ≡ some e
      → get_event_with_all_relations event_id s ≡ (ok e, s)
  unfolding get_event_with_all_relations Events.get_by_id ◌>>=◌
  get_event_with_all_relations-run e found = ground (arith, found)

  get_membership_status-run :
      (user_id : ℕ)
      → length (where_rows (is_membership_of user_id event_id) s.working.memberships) ≤ 1
      → get_membership_status user_id event_id s
        ≡ (ok (membership_status_of user_id event_id s.working), s)
  unfolding get_membership_status pure
  get_membership_status-run user_id one =
      bind-query _ _ ∙ bind-ok _ _ (scalar_one_or_none-run _ s one) ∙ refl

  pub validate_membership_accepted-run :
      (user_id : ℕ)
      → length (where_rows (is_membership_of user_id event_id) s.working.memberships) ≤ 1
      → is_accepted_status (membership_status_of user_id event_id s.working) ≡ true
      → validate_membership_accepted user_id event_id s ≡ (ok tt, s)
  unfolding validate_membership_accepted raise_if pure
  validate_membership_accepted-run user_id one accepted =
      bind-ok _ _ (get_membership_status-run user_id one) ∙ ground (arith, accepted)

  pub validate_option-run :
      (option_id : ℕ)
      → option_in event_id (option_of option_id s.working) ≡ true
      → validate_option event_id option_id s ≡ (ok tt, s)
  unfolding validate_option ◌>>=◌
  validate_option-run option_id inside = elim (Option-cases (option_of option_id s.working)) [
    | inl missing ↦ absurd (ground (arith, inside, missing))
    | inr (o, found) ↦ ground (arith, inside, found)
  ]

  validate_each-run :
      (ids : List ℕ)
      → All (λ c. criterion_in event_id (criterion_of c s.working) ≡ true) ids
      → validate_each event_id ids s ≡ (ok tt, s)
  unfolding validate_each ◌>>=◌
  validate_each-run [] h = refl
  validate_each-run (c ∷ cs) (inside, h) = elim (Option-cases (criterion_of c s.working)) [
    | inl missing ↦ absurd (ground (arith, inside, missing))
    | inr (o, found) ↦ ground (arith, inside, found, validate_each-run cs h)
  ]

  pub validate_criteria-run :
      (ids : List ℕ)
      → Ranking event_id ids s.working
      → validate_criteria event_id ids s ≡ (ok tt, s)
  unfolding validate_criteria ◌>>=◌
  validate_criteria-run ids r = ground (
    arith,
    r.some_criterion,
    r.no_repetition,
    r.all_active,
    ==_refl (length ids),
    validate_each-run ids r.belong,
  )
