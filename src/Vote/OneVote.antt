-- ===== src/Vote/OneVote.antt =====
-- No user has two final votes in one event.
use mathlib.Core.Path.{subst}
use madcamp_w2_decision_make.Prelude.{
  ◌∙◌, ◌≡◌, ◌≤◌, ℕ, List, Option, count_rows, delete_ids, map, sym, true, count-delete_ids,
  length-where_rows, arith, ◌&&◌, ◌==◌, ==_refl, Bool-cases, inl, some, inr, none, ap, length,
}
use madcamp_w2_decision_make.Vote.Service.{execute_vote, VoteResponse}
use madcamp_w2_decision_make.Model.{Database, OptionRow}
use madcamp_w2_decision_make.Session.{Session, ok}
use madcamp_w2_decision_make.Repositories.Contents.{option_of}
use madcamp_w2_decision_make.Repositories.Votes.{option_in, is_user_vote, user_option_votes}
use madcamp_w2_decision_make.Vote.Replace.{after_vote, vote_key, kept_votes-nil}
use madcamp_w2_decision_make.Vote.Guards.{execute_vote-inv}
use madcamp_w2_decision_make.Vote.RoundTrip.{execute_vote-run}

abbrev pub user_votes : ℕ → ℕ → Database → ℕ
user_votes event_id user_id d = count_rows (is_user_vote event_id user_id d) d.option_votes

abbrev pub OneVoteEach : Database → Type 0
OneVoteEach d = (event_id user_id : ℕ) → user_votes event_id user_id d ≤ 1

same_voter :
    (e e' u u' : ℕ) (o : Option OptionRow)
    → option_in e o ≡ true
    → (option_in e' o && u == u') ≡ true
    → (e' ≡ e) × (u' ≡ u)
same_voter e e' u u' none h k = absurd (ground arith)
same_voter e e' u u' (some o) h k = ground arith

module _ (event_id user_id option_id : ℕ) (criterion_ids : List ℕ) (s : Session) where
  abbrev d : Database
  d = s.working

  abbrev d' : Database
  d' = after_vote event_id user_id option_id criterion_ids s.clock s.working

  after_vote-none :
      count_rows
        (is_user_vote event_id user_id d)
        (delete_ids vote_key (map vote_key (user_option_votes event_id user_id d)) d.option_votes)
      ≡ 0
  after_vote-none =
      sym (
        length-where_rows (is_user_vote event_id user_id d) (
          delete_ids vote_key (map vote_key (user_option_votes event_id user_id d)) d.option_votes))
      ∙ ap length (kept_votes-nil event_id user_id d)

  after_vote-user_votes :
      option_in event_id (option_of option_id d) ≡ true → user_votes event_id user_id d' ≡ 1
  unfolding option_of
  after_vote-user_votes inside = ground (arith, inside, ==_refl user_id, after_vote-none)

  after_vote-OneVoteEach :
      option_in event_id (option_of option_id d) ≡ true → OneVoteEach d → OneVoteEach d'
  unfolding option_of
  after_vote-OneVoteEach inside one e u =
      let fewer =
        count-delete_ids vote_key (is_user_vote e u d)
          (map vote_key (user_option_votes event_id user_id d)) d.option_votes in
      elim (Bool-cases (option_in e (option_of option_id d) && user_id == u)) [
        | inl own ↦
            let (at, by) = same_voter event_id e user_id u (option_of option_id d) inside own in
            subst (λ x. user_votes x u d' ≤ 1) (sym at)
              (subst (λ x. user_votes event_id x d' ≤ 1) (sym by)
                (omega (arith, after_vote-user_votes inside)))
        | inr other ↦ ground (arith, other, fewer, one e u)
      ]

  -- A vote that returns leaves the user with exactly one vote in the event, committed, and no user
  -- with two votes in one event, if there was none before.
  pub execute_vote-OneVoteEach :
      {r : VoteResponse} {t : Session}
      → execute_vote event_id user_id option_id criterion_ids s ≡ (ok r, t)
      → OneVoteEach s.working
      → (user_votes event_id user_id t.committed ≡ 1) × OneVoteEach t.committed
  execute_vote-OneVoteEach {r} {t} h one =
      let (e, can) = execute_vote-inv event_id user_id option_id criterion_ids s h in
      let run = execute_vote-run event_id user_id option_id criterion_ids e s can in
      let at : d' ≡ t.committed = ap (λ x. x.1.committed) (sym run ∙ h) in
      subst (λ x. (user_votes event_id user_id x ≡ 1) × OneVoteEach x) at
        (after_vote-user_votes can.option_belongs, after_vote-OneVoteEach can.option_belongs one)
