-- ===== src/Vote/Guards.antt =====
-- What must have held when a vote returns.
use madcamp_w2_decision_make.Session.{Session, ok, ◌>>=◌}
use madcamp_w2_decision_make.Vote.Checks.{CanVote}
use madcamp_w2_decision_make.Prelude.{
  ℕ, List, All, length, where_rows, ◌≤◌, ◌≡◌, first_row, true, some, Option-cases, arith, inl, ◌∷◌,
  inr, sym, [], ◌∙◌, ap, not, false, refl,
}
use madcamp_w2_decision_make.Repositories.Events.{
  scalar_one_or_none, get_membership_status, event_of, is_membership_of, membership_status_of,
  status_of,
}
use madcamp_w2_decision_make.Vote.Service.{
  validate_option, validate_each, validate_criteria, execute_vote, VoteResponse,
}
use madcamp_w2_decision_make.BaseService.{
  get_event_with_all_relations, validate_membership_accepted, is_accepted_status,
}
use madcamp_w2_decision_make.Session.Runs.{
  Passes, after_raise_if, after_query, after_or_raise, pure-inv, raise_if-inv, after_check,
}
use madcamp_w2_decision_make.Repositories.Events
use madcamp_w2_decision_make.Repositories.Votes.{
  option_in, get_user_option_vote, criterion_in, user_option_votes,
}
use madcamp_w2_decision_make.Vote.Replace.{Ranking}
use madcamp_w2_decision_make.Repositories.Contents.{option_of, criterion_of}
use madcamp_w2_decision_make.Model.{Event, EventStatusType, is_in_progress}

is_in_progress-is :
    (st : EventStatusType) → not (is_in_progress st) ≡ false → st ≡ EventStatusType.in_progress
is_in_progress-is EventStatusType.in_progress h = refl
is_in_progress-is EventStatusType.not_started h = absurd (ground arith)
is_in_progress-is EventStatusType.paused h = absurd (ground arith)
is_in_progress-is EventStatusType.finished h = absurd (ground arith)

pub scalar_one_or_none-inv :
    {R : Type 0} (rows : List R) (s : Session)
    → Passes (scalar_one_or_none rows) s (λ o. (length rows ≤ 1) × (o ≡ first_row rows))
unfolding scalar_one_or_none ◌>>=◌
scalar_one_or_none-inv [] s o t h = ((omega arith, ground arith), ground arith)
scalar_one_or_none-inv (r ∷ []) s o t h = ((omega arith, ground arith), ground arith)
scalar_one_or_none-inv (r ∷ r' ∷ rows) s o t h = absurd (ground arith)

module _ (event_id : ℕ) (s : Session) where
  pub get_event_with_all_relations-inv :
      Passes (get_event_with_all_relations event_id) s (λ e. event_of event_id s.working ≡ some e)
  unfolding get_event_with_all_relations Events.get_by_id ◌>>=◌
  get_event_with_all_relations-inv e t h = elim (Option-cases (event_of event_id s.working)) [
    | inl missing ↦ absurd (ground arith)
    | inr (x, found) ↦ ground arith
  ]

  get_membership_status-inv :
      (user_id : ℕ)
      → Passes (get_membership_status user_id event_id) s (λ o.
        (length (where_rows (is_membership_of user_id event_id) s.working.memberships) ≤ 1)
        × (o ≡ membership_status_of user_id event_id s.working))
  unfolding get_membership_status
  get_membership_status-inv user_id o t h =
      after_check _ _ _ (scalar_one_or_none-inv _ s) (after_query _ _ h) λ m known h₁.
        let (result, same) = pure-inv h₁ in ((known.0, sym result ∙ ap status_of known.1), same)

  pub validate_membership_accepted-inv :
      (user_id : ℕ)
      → Passes (validate_membership_accepted user_id event_id) s (λ _.
        (length (where_rows (is_membership_of user_id event_id) s.working.memberships) ≤ 1)
        × (is_accepted_status (membership_status_of user_id event_id s.working) ≡ true))
  unfolding validate_membership_accepted
  validate_membership_accepted-inv user_id x t h =
      after_check _ _ _ (get_membership_status-inv user_id) h λ o known h₁.
        let (passed, same) = raise_if-inv _ _ h₁ in
        ((known.0, ground (arith, known.1, passed)), same)

  pub validate_option-inv :
      (option_id : ℕ)
      → Passes
          (validate_option event_id option_id)
          s
          (λ _. option_in event_id (option_of option_id s.working) ≡ true)
  unfolding validate_option
  validate_option-inv option_id x t h =
      let (o, found, h₁) = after_or_raise _ _ _ (after_query _ _ h) in
      let (passed, same) = raise_if-inv _ _ h₁ in (ground (arith, found, passed), same)

  validate_each-inv :
      (ids : List ℕ)
      → Passes
          (validate_each event_id ids)
          s
          (λ _. All (λ c. criterion_in event_id (criterion_of c s.working) ≡ true) ids)
  unfolding validate_each
  validate_each-inv [] x t h = (tt, (pure-inv h).1)
  validate_each-inv (c ∷ cs) x t h =
      let (o, found, h₁) = after_or_raise _ _ _ (after_query _ _ h) in
      let (passed, h₂) = after_raise_if _ _ _ h₁ in
      let (rest, same) = validate_each-inv cs x t h₂ in
      ((ground (arith, found, passed), rest), same)

  pub validate_criteria-inv :
      (ids : List ℕ)
      → Passes (validate_criteria event_id ids) s (λ _. Ranking event_id ids s.working)
  unfolding validate_criteria
  validate_criteria-inv ids x t h =
      let (filled, h₁) = after_raise_if _ _ _ h in
      let (distinct, h₂) = after_raise_if _ _ _ h₁ in
      let (same_ids, h₃) = after_raise_if _ _ _ (after_query _ _ h₂) in
      let (belong, same) = validate_each-inv ids x t h₃ in
      (
        record {
          some_criterion = filled;
          no_repetition = ground (arith, distinct);
          all_active = ground (arith, same_ids);
          belong = belong;
        },
        same,
      )

module _ (event_id user_id option_id : ℕ) (criterion_ids : List ℕ) (s : Session) where
  -- A vote that returns was cast while the event was in progress, by an accepted member, for an
  -- option of the event and with each of its active criteria ranked once.
  pub execute_vote-inv :
      {r : VoteResponse} {t : Session}
      → execute_vote event_id user_id option_id criterion_ids s ≡ (ok r, t)
      → (e : Event) × CanVote event_id user_id option_id criterion_ids e s.working
  unfolding execute_vote get_user_option_vote
  execute_vote-inv h =
      after_check _ _ _ (get_event_with_all_relations-inv event_id s) h λ e found h₁.
        after_check _ _ _ (validate_membership_accepted-inv event_id s user_id) h₁ λ _ member h₂.
          let (going, h₃) = after_raise_if _ _ _ h₂ in
          after_check _ _ _ (validate_option-inv event_id s option_id) h₃ λ _ inside h₄.
            after_check _ _ _ (validate_criteria-inv event_id s criterion_ids) h₄ λ _ ranking h₅.
              after_check _ _ _ (existing-inv) h₅ λ o single h₆. (
                e,
                record {
                  event_found = found;
                  in_progress = is_in_progress-is e.event_status going;
                  one_membership = member.0;
                  accepted = member.1;
                  option_belongs = inside;
                  ranking = ranking;
                  one_vote = single;
                },
              )
    where
      existing-inv :
          Passes
            (get_user_option_vote event_id user_id)
            s
            (λ _. length (user_option_votes event_id user_id s.working) ≤ 1)
      existing-inv o t h =
          let (known, same) = scalar_one_or_none-inv _ s o t (after_query _ _ h) in (known.0, same)
