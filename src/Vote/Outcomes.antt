-- ===== src/Vote/Outcomes.antt =====
-- What a vote does on every path: it is cast, or a check refuses it.
use mathlib.Core.Path.{subst}
use madcamp_w2_decision_make.Prelude.{
  ℕ, List, [], ◌∷◌, Option, ◌≡◌, ◌∙◌, sym, ap, ◌⊎◌, inl, inr, arith, first_row, length, ◌≤◌, true,
}
use madcamp_w2_decision_make.Model.{Event, OptionVote}
use madcamp_w2_decision_make.Session.{Session, Error, ok, err, pure, ◌>>=◌, transaction, utc_now}
use madcamp_w2_decision_make.Session.Reading.{Reading, reading_rules, Reading-bind, after-Reading}
use madcamp_w2_decision_make.Session.Runs.{
  Result-cases, result-run, bind-ok, bind-query, transaction-ok, utc_now-run, after_query, landed,
}
use madcamp_w2_decision_make.BaseService.{
  validate_membership_accepted, get_event_with_all_relations,
}
use madcamp_w2_decision_make.Repositories.Events
use madcamp_w2_decision_make.Repositories.Events.{scalar_one_or_none, get_membership_status}
use madcamp_w2_decision_make.Repositories.Votes.{
  get_user_option_vote, get_user_criterion_priorities, user_option_votes, user_criterion_priorities,
  option_in,
}
use madcamp_w2_decision_make.Vote.Service.{
  execute_vote, validate_criteria, validate_option, validate_each, replace_vote, VoteResponse,
}
use madcamp_w2_decision_make.Vote.Checks.{CanVote, vote_response}
use madcamp_w2_decision_make.Vote.Guards.{
  execute_vote-inv, validate_option-inv, validate_criteria-inv, scalar_one_or_none-inv,
}
use madcamp_w2_decision_make.Vote.Replace.{replace_vote-run, Ranking, cast_vote, after_vote}
use madcamp_w2_decision_make.Vote.RoundTrip.{execute_vote-run}
use madcamp_w2_decision_make.Repositories.Contents.{option_of}

-- The checks only read.
scalar_one_or_none-Reading : {R : Type 0} (rows : List R) → Reading (scalar_one_or_none rows)
unfolding scalar_one_or_none
scalar_one_or_none-Reading [] = search reading_rules
scalar_one_or_none-Reading (r ∷ []) = search reading_rules
scalar_one_or_none-Reading (r ∷ r' ∷ rows) = search reading_rules

event-Reading : (e : ℕ) → Reading (get_event_with_all_relations e)
unfolding get_event_with_all_relations Events.get_by_id
event-Reading e = search reading_rules

membership-Reading : (u e : ℕ) → Reading (validate_membership_accepted u e)
unfolding validate_membership_accepted get_membership_status
membership-Reading u e = search (reading_rules, scalar_one_or_none-Reading) depth 12

option-Reading : (e o : ℕ) → Reading (validate_option e o)
unfolding validate_option
option-Reading e o = search reading_rules depth 12

validate_each-Reading : (e : ℕ) (ids : List ℕ) → Reading (validate_each e ids)
unfolding validate_each
validate_each-Reading e [] = search reading_rules
validate_each-Reading e (c ∷ cs) = Reading-bind _ _ (search reading_rules) λ found.
    Reading-bind _ _ (search reading_rules)
      λ criterion. Reading-bind _ _ (search reading_rules) λ _. validate_each-Reading e cs

criteria-Reading : (e : ℕ) (cs : List ℕ) → Reading (validate_criteria e cs)
unfolding validate_criteria
criteria-Reading e cs = Reading-bind _ _ (search reading_rules) λ _.
    Reading-bind _ _ (search reading_rules) λ _.
      Reading-bind _ _ (search reading_rules)
        λ ids. Reading-bind _ _ (search reading_rules) λ _. validate_each-Reading e cs

existing-Reading : (e u : ℕ) → Reading (get_user_option_vote e u)
unfolding get_user_option_vote
existing-Reading e u = search (reading_rules, scalar_one_or_none-Reading)

module _ (event_id user_id option_id : ℕ) (criterion_ids : List ℕ) (s : Session) where
  existing-inv :
      (o : Option OptionVote)
      → get_user_option_vote event_id user_id s ≡ (ok o, s)
      → (length (user_option_votes event_id user_id s.working) ≤ 1)
        × (first_row (user_option_votes event_id user_id s.working) ≡ o)
  unfolding get_user_option_vote
  existing-inv o h =
      let (known, same) = scalar_one_or_none-inv _ s o s (after_query _ _ h) in
      (known.0, sym known.1)

  replaced :
      (o : Option OptionVote)
      → option_in event_id (option_of option_id s.working) ≡ true
      → Ranking event_id criterion_ids s.working
      → length (user_option_votes event_id user_id s.working) ≤ 1
      → first_row (user_option_votes event_id user_id s.working) ≡ o
      → transaction
          (replace_vote user_id option_id criterion_ids s.clock o
            (user_criterion_priorities event_id user_id s.working))
          s
        ≡ (
          ok (cast_vote user_id option_id s.clock s.working.next_id),
          landed (after_vote event_id user_id option_id criterion_ids s.clock s.working) s,
        )
  replaced o inside ranking single own = transaction-ok _ (
      subst
        (λ y.
          replace_vote user_id option_id criterion_ids s.clock y
            (user_criterion_priorities event_id user_id s.working) s
          ≡ (
            ok (cast_vote user_id option_id s.clock s.working.next_id),
            record s {
              working = after_vote event_id user_id option_id criterion_ids s.clock s.working;
            },
          ))
        own (replace_vote-run event_id user_id option_id criterion_ids s inside ranking single))

  -- What follows on the checks returns.
  never_raises :
      (o : Option OptionVote) (k : OptionVote → ℕ → VoteResponse) (x : Error)
      → option_in event_id (option_of option_id s.working) ≡ true
      → Ranking event_id criterion_ids s.working
      → length (user_option_votes event_id user_id s.working) ≤ 1
      → first_row (user_option_votes event_id user_id s.working) ≡ o
      → ((get_user_criterion_priorities event_id user_id >>= λ ps. utc_now >>= λ now.
            transaction (replace_vote user_id option_id criterion_ids now o ps) >>= λ v.
            pure (k v now))
          s).0
        ≡ err x
      → ⊥
  unfolding get_user_criterion_priorities pure
  never_raises o k x inside ranking single own h =
      let ran =
        bind-query (user_criterion_priorities event_id user_id) _
        ∙ bind-ok _ _ (utc_now-run s)
        ∙ bind-ok _ (λ v. pure (k v s.clock)) (replaced o inside ranking single own) in
      let clash = sym (ap (λ y. y.0) ran) ∙ h in absurd (ground (arith, clash))

  -- A vote that raises has written nothing: with the checks passed, the transaction returns.
  refused :
      (x : Error)
      → (execute_vote event_id user_id option_id criterion_ids s).0 ≡ err x
      → (execute_vote event_id user_id option_id criterion_ids s).1 ≡ s
  unfolding execute_vote get_user_criterion_priorities
  refused x h = after-Reading _ _ s x (event-Reading event_id) h λ e p₁ h₁.
      after-Reading _ _ s x (membership-Reading user_id event_id) h₁ λ _ p₂ h₂.
        after-Reading _ _ s x (search reading_rules) h₂ λ _ p₃ h₃.
          after-Reading _ _ s x (option-Reading event_id option_id) h₃ λ _ p₄ h₄.
            after-Reading _ _ s x (criteria-Reading event_id criterion_ids) h₄ λ _ p₅ h₅.
              after-Reading _ _ s x (existing-Reading event_id user_id) h₅ λ o p₆ h₆.
                let (single, own) = existing-inv o p₆ in
                absurd (
                  never_raises o _ x (validate_option-inv event_id s option_id _ s p₄).0
                    (validate_criteria-inv event_id s criterion_ids _ s p₅).0 single own h₆)

  -- Every vote either finds what the rules ask for, returns and is committed, or raises and leaves
  -- the session as it was: no vote fails between its first write and its last.
  pub execute_vote-outcomes :
      ((e : Event) × CanVote event_id user_id option_id criterion_ids e s.working
        × (execute_vote event_id user_id option_id criterion_ids s ≡ (
          ok (vote_response option_id criterion_ids s.clock),
          landed (after_vote event_id user_id option_id criterion_ids s.clock s.working) s,
        )))
      ⊎ ((x : Error) × (execute_vote event_id user_id option_id criterion_ids s ≡ (err x, s)))
  execute_vote-outcomes =
      elim (Result-cases (execute_vote event_id user_id option_id criterion_ids s).0) [
        | inl (r, h) ↦
            let (e, can) =
              execute_vote-inv event_id user_id option_id criterion_ids s
                (result-run (execute_vote event_id user_id option_id criterion_ids) s h) in
            inl (e, can, execute_vote-run event_id user_id option_id criterion_ids e s can)
        | inr (x, h) ↦ inr (x, λ i. (h i, refused x h i))
      ]
