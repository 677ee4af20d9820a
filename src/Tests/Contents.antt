-- ===== src/Tests/Contents.antt =====
-- Comments, entrance codes and the creation of an event.
use madcamp_w2_decision_make.Prelude.{
  ℕ, String, Bool, true, false, some, none, [], ◌∷◌, ◌≡◌, ◌+◌, refl, arith, ltb, if◌then◌else◌,
  delete_rows, update_by_id, ◌==◌, find_by_id,
}
use madcamp_w2_decision_make.Model.{
  Comment, Event, EventMembership, MembershipStatusType, EventStatusType,
}
use madcamp_w2_decision_make.Session.{Session, ok, ◌>>=◌, transaction}
use madcamp_w2_decision_make.Session.Runs.{result-run}
use madcamp_w2_decision_make.Repositories.Events
use madcamp_w2_decision_make.Repositories.Memberships
use madcamp_w2_decision_make.Repositories.Comments
use madcamp_w2_decision_make.Tests.{database, event, session, start}
use madcamp_w2_decision_make.Tests.Votes.{vote_database}
use madcamp_w2_decision_make.Creation.Service.{
  create_event_from_request, post_event, EventCreateRequest, create_event, get_random_code,
  check_entrance_code_availability, attach_options, attach_assumptions, attach_criteria,
  create_each,
}
use madcamp_w2_decision_make.Comment.Service.{
  delete_comment, update_comment, create_comment, validate_comment_exists_and_belongs_to_event,
  create_block, validate_criterion_belongs_to_event, get_comment_count,
}
use madcamp_w2_decision_make.Creation.Codes.{UniqueCodes, Found, get_random_code-Found, is_taken}
use madcamp_w2_decision_make.Membership.Service.{create_admin_membership}
use madcamp_w2_decision_make.Repositories.Outbox.{create_outbox_event}
use madcamp_w2_decision_make.BaseService.{validate_membership_accepted}
use madcamp_w2_decision_make.Repositories.Events.{
  get_membership_status, scalar_one_or_none, is_allowed,
}
use madcamp_w2_decision_make.Repositories.Comments.{comment_of, comment_key}
use madcamp_w2_decision_make.Repositories.Contents.{
  criterion_of, create_option, create_assumption, create_criterion,
}
use madcamp_w2_decision_make.Comment.Owner.{OwnComment, delete_comment-inv, update_comment-inv}
use madcamp_w2_decision_make.Comment.Counts.{create_comment-get_comment_count}
use madcamp_w2_decision_make.Creation.Event.{post_event-inv, requested_event}

abbrev remark : Comment
remark = record {
  id = 70;
  criterion_id = 50;
  content = "Too dear";
  created_at = 4;
  created_by = 11;
  updated_at = none;
}

abbrev comment_start : Session
comment_start =
    session (record (vote_database EventStatusType.in_progress) { comments = remark ∷ [] })

create_comment-get_comment_count_example :
    (get_comment_count 1 50 11 (create_comment 1 50 "Fair" 11 comment_start).1
      ≡ (ok (1 + 1), (create_comment 1 50 "Fair" 11 comment_start).1))
    × ((create_comment 1 50 "Fair" 11 comment_start).1.committed
        ≡ (create_comment 1 50 "Fair" 11 comment_start).1.working)
unfolding create_comment create_block Comments.create_comment create_outbox_event
    validate_membership_accepted get_membership_status scalar_one_or_none
    validate_criterion_belongs_to_event criterion_of find_by_id transaction ◌>>=◌
create_comment-get_comment_count_example =
    create_comment-get_comment_count 1 50 "Fair" 11 comment_start
      (result-run (create_comment 1 50 "Fair" 11) comment_start refl)

update_comment-inv_example :
    (c : Comment) × OwnComment 1 70 11 c comment_start.working
    × ((update_comment 1 70 "Fair" 11 comment_start).1.committed.comments
        ≡ update_by_id comment_key 70
            (λ x. record x { content = "Fair"; updated_at = some 7 })
            (remark ∷ []))
unfolding update_comment Comments.update_comment validate_comment_exists_and_belongs_to_event
    validate_membership_accepted get_membership_status scalar_one_or_none
    validate_criterion_belongs_to_event comment_of criterion_of find_by_id transaction ◌>>=◌
update_comment-inv_example =
    update_comment-inv 1 70 11 comment_start "Fair"
      (result-run (update_comment 1 70 "Fair" 11) comment_start refl)

delete_comment-inv_example :
    (c : Comment) × OwnComment 1 70 11 c comment_start.working
    × ((delete_comment 1 70 11 comment_start).1.committed.comments
        ≡ delete_rows (λ y. y.id == 70) (remark ∷ []))
unfolding delete_comment Comments.delete_comment validate_comment_exists_and_belongs_to_event
    validate_membership_accepted get_membership_status scalar_one_or_none
    validate_criterion_belongs_to_event comment_of criterion_of find_by_id transaction ◌>>=◌
delete_comment-inv_example =
    delete_comment-inv 1 70 11 comment_start
      (result-run (delete_comment 1 70 11) comment_start refl)

-- The first draw is the code of the event.
abbrev draw : ℕ → String
draw n = if ltb n 1 then "ABC123" else "NEW001"

start-UniqueCodes : UniqueCodes (database event [])
start-UniqueCodes code = ground arith

get_random_code-Found_example :
    Found draw start (get_random_code draw) 0 30
    × ((code : String) (t : Session)
        → get_random_code draw start ≡ (ok code, t)
        → check_entrance_code_availability code start ≡ (ok true, start))
get_random_code-Found_example = get_random_code-Found draw start start-UniqueCodes

abbrev request : EventCreateRequest
request = record {
  decision_subject = "Where to go";
  entrance_code = "NEW001";
  assumption_is_auto_approved_by_votes = true;
  criteria_is_auto_approved_by_votes = false;
  membership_is_auto_approved = true;
  conclusion_is_auto_approved_by_votes = true;
  assumption_min_votes_required = some 2;
  criteria_min_votes_required = none;
  conclusion_approval_threshold_percent = some 50;
  max_membership = 4;
  options = "Sea" ∷ "Hills" ∷ [];
  assumptions = [];
  criteria = "Price" ∷ [];
}

abbrev any_code : String → Bool
any_code code = true

abbrev new_event : Event
new_event = create_event_from_request request 13 100

post_event-inv_example :
    (m : EventMembership) × (new_event ≡ requested_event request 13 100)
    × (is_allowed any_code new_event ≡ true)
    × (is_taken "NEW001" start.working ≡ false)
    × ((post_event any_code request 13 start).1.committed.events ≡ new_event ∷ event ∷ [])
    × ((post_event any_code request 13 start).1.committed.memberships
        ≡ m ∷ start.working.memberships)
    × (m.user_id ≡ 13)
    × (m.event_id ≡ 100)
    × (m.membership_status ≡ MembershipStatusType.accepted)
unfolding post_event create_event Events.create_event create_admin_membership
    Memberships.create_membership attach_options attach_assumptions attach_criteria create_each
    create_option create_assumption create_criterion transaction ◌>>=◌
post_event-inv_example =
    post_event-inv any_code request 13 start
      (result-run (post_event any_code request 13) start refl)
