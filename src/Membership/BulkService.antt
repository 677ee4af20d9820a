-- ===== src/Membership/BulkService.antt =====
-- The bulk operations as the admin calls them.
use madcamp_w2_decision_make.Repositories.Memberships.{
  membership_of, membership_key, is_pending_in, get_pending_by_event_id,
}
use madcamp_w2_decision_make.Prelude.{
  ℕ, List, ◌≡◌, Keyed, some, length, All, ◌-◌, min, where_rows, ◌+◌, arith, ◌∷◌, All-map, All-zip,
  All-where_rows, Keyed-found, [], where_rows-All, count_rows, where_rows-Keyed, length-where_rows,
  refl, ◌∙◌,
}
use madcamp_w2_decision_make.Membership.Service.{
  approve_pending, Tally, approve_each, bulk_approve_memberships,
}
use madcamp_w2_decision_make.Repositories.Events.{count_accepted_members, event_of, accepted_count}
use madcamp_w2_decision_make.Model.{Event, EventMembership, Database}
use madcamp_w2_decision_make.Session.{pure, Session, ok, transaction, ◌>>=◌}
use madcamp_w2_decision_make.Membership.Bulk.{Waiting, approve_each-run}
use madcamp_w2_decision_make.Repositories.Events
use madcamp_w2_decision_make.Session.Runs.{landed, bind-ok}
use madcamp_w2_decision_make.BaseService.Inversion.{verify_admin-ok}

pending-Waiting :
    (event_id : ℕ) (rows : List EventMembership) (d : Database)
    → d.memberships ≡ rows
    → Keyed membership_key rows
    → All (Waiting event_id d) (where_rows (is_pending_in event_id) rows)
unfolding membership_of
pending-Waiting event_id rows d same keyed =
    All-map _ _ (where_rows (is_pending_in event_id) rows)
      (λ m h. (rw same h.0, ground (arith, h.1), ground (arith, h.1)))
      (All-zip _ _ (where_rows (is_pending_in event_id) rows)
        (All-where_rows _ (is_pending_in event_id) rows (Keyed-found membership_key rows keyed))
        (where_rows-All (is_pending_in event_id) rows))

approve_pending-cons :
    (event_id : ℕ) (e : Event) (m : EventMembership) (ms : List EventMembership) (s u : Session)
    (t : Tally)
    → event_of event_id s.working ≡ some e
    → approve_each e.max_membership s.clock
        (m ∷ ms)
        (record {
          approved_count = 0;
          failed_count = 0;
          current_count = accepted_count event_id s.working;
        })
        s
      ≡ (ok t, u)
    → approve_pending event_id (m ∷ ms) s
      ≡ (ok (t.approved_count, t.failed_count), landed u.working u)
unfolding approve_pending count_accepted_members Events.get_by_id transaction ◌>>=◌
approve_pending-cons event_id e m ms s u t found run = ground (arith, found, run)

-- What approve_pending does with members that wait: how many it approves is `k`.
abbrev Approves : ℕ → ℕ → Event → List EventMembership → Session → Type 0
Approves k event_id e ms s =
    ((approve_pending event_id ms s).0 ≡ ok (k, length ms - k))
    × (accepted_count event_id (approve_pending event_id ms s).1.committed
        ≡ accepted_count event_id s.working + k)

approve_pending-run :
    (event_id : ℕ) (e : Event) (ms : List EventMembership) (s : Session)
    → s.working ≡ s.committed
    → event_of event_id s.working ≡ some e
    → Keyed membership_key ms
    → All (Waiting event_id s.working) ms
    → Approves
        (min (length ms) (e.max_membership - accepted_count event_id s.working))
        event_id
        e
        ms
        s
unfolding approve_pending pure
approve_pending-run event_id e [] s fresh found keyed waiting =
    (ground arith, rw fresh (omega arith))
approve_pending-run event_id e (m ∷ ms) s fresh found keyed waiting =
    let t : Tally = record {
      approved_count = 0;
      failed_count = 0;
      current_count = accepted_count event_id s.working;
    } in
    let (u, run, kept, events, count) =
      approve_each-run e.max_membership s.clock event_id (m ∷ ms) t s keyed waiting in
    let whole = approve_pending-cons event_id e m ms s u _ found run in
    (rw whole (ground arith), rw whole count)

-- How many members of an event are pending.
abbrev pub pending_count : ℕ → Database → ℕ
pending_count event_id d = count_rows (is_pending_in event_id) d.memberships

-- How many a bulk approval has room for.
abbrev pub approvable : ℕ → Event → Database → ℕ
approvable event_id e d =
    min (pending_count event_id d) (e.max_membership - accepted_count event_id d)

bulk_approve_memberships-rest :
    (event_id user_id : ℕ) (e : Event) (s : Session)
    → event_of event_id s.working ≡ some e
    → e.admin_id ≡ user_id
    → bulk_approve_memberships event_id user_id s
      ≡ approve_pending event_id (where_rows (is_pending_in event_id) s.working.memberships) s
unfolding bulk_approve_memberships get_pending_by_event_id
bulk_approve_memberships-rest event_id user_id e s found admin =
    bind-ok _ _ (verify_admin-ok event_id user_id e s found admin) ∙ unfold ◌>>=◌ in refl

-- From a fresh session whose members have distinct ids, the admin's bulk approval returns: it
-- approves as many pending members as there is room for, reports the others as failed, and commits
-- just that many new accepted members.
pub bulk_approve_memberships-run :
    (event_id user_id : ℕ) (e : Event) (s : Session)
    → s.working ≡ s.committed
    → Keyed membership_key s.working.memberships
    → event_of event_id s.working ≡ some e
    → e.admin_id ≡ user_id
    → let k = approvable event_id e s.working in
      let (r, t) = bulk_approve_memberships event_id user_id s in
      (r ≡ ok (k, pending_count event_id s.working - k))
      × (accepted_count event_id t.committed ≡ accepted_count event_id s.working + k)
bulk_approve_memberships-run event_id user_id e s fresh keyed found admin =
    let rows = s.working.memberships in
    let result =
      approve_pending-run event_id e (where_rows (is_pending_in event_id) rows) s fresh found
        (where_rows-Keyed membership_key (is_pending_in event_id) rows keyed)
        (pending-Waiting event_id rows s.working refl keyed) in
    rw (bulk_approve_memberships-rest event_id user_id e s found admin)
      (rw (length-where_rows (is_pending_in event_id) rows) at result)
