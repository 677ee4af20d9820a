-- ===== src/Membership/Bulk.antt =====
-- The loops of bulk_approve_memberships and bulk_reject_memberships.
use madcamp_w2_decision_make.Prelude.{
  ℕ, ◌≢◌, ◌≡◌, some, arith, find-update_ne, ◌∙◌, refl, List, length, leb, min, Keyed, All, true,
  false, ◌-◌, ◌+◌, ◌∷◌, Bool-cases, suc, inl, ap, inr, All-map, All-zip, Keyed-ne, [],
}
use madcamp_w2_decision_make.Repositories.Memberships.{
  approve_membership_if_pending, membership_of, set_membership, accept, membership_key,
}
use madcamp_w2_decision_make.Model.{Database, EventMembership, MembershipStatusType}
use madcamp_w2_decision_make.Session.{◌>>=◌, Session, ok, pure}
use madcamp_w2_decision_make.Membership.Service.{Tally, approve_one, approve_each}
use madcamp_w2_decision_make.Repositories.Events.{accepted_count}
use madcamp_w2_decision_make.Session.Runs.{bind-ok}
use madcamp_w2_decision_make.Membership.Capacity.{accepted_count-accept}

-- A member that the loop has still to decide.
abbrev pub Waiting : ℕ → Database → EventMembership → Type 0
Waiting event_id d m =
    (membership_of m.id d ≡ some m)
    × (m.event_id ≡ event_id)
    × (m.membership_status ≡ MembershipStatusType.pending)

accept_other :
    (event_id k at : ℕ) (d : Database) (m : EventMembership)
    → (m.id ≢ k) × Waiting event_id d m
    → Waiting event_id (set_membership k (accept at) d) m
unfolding membership_of
accept_other event_id k at d m h = (
  find-update_ne membership_key m.id k (accept at) d.memberships (λ r. refl) h.0 ∙ h.1.0,
  h.1.1,
  h.1.2,
)

-- A pending row is approved.
approve-Waiting :
    (event_id at : ℕ) (m : EventMembership) (s : Session)
    → Waiting event_id s.working m
    → approve_membership_if_pending m.id at s
      ≡ (ok (some (accept at m)), record s { working = set_membership m.id (accept at) s.working })
unfolding approve_membership_if_pending ◌>>=◌
approve-Waiting event_id at m s w = ground (arith, w.0, w.2)

-- The tally after the loop over `n` waiting members: approvals until the limit, failures after.
abbrev pub decided : ℕ → ℕ → Tally → Tally
decided limit n t =
    let k = min n (limit - t.current_count) in
    record {
      approved_count = t.approved_count + k;
      failed_count = t.failed_count + (n - k);
      current_count = t.current_count + k;
    }

decided-full :
    (limit n : ℕ) (t : Tally)
    → leb limit t.current_count ≡ true
    → decided limit n (record t { failed_count = t.failed_count + 1 }) ≡ decided limit (suc n) t
decided-full limit n t full = ground arith

decided-room :
    (limit n : ℕ) (t : Tally)
    → leb limit t.current_count ≡ false
    → decided limit n
        (record t { approved_count = t.approved_count + 1; current_count = t.current_count + 1 })
      ≡ decided limit (suc n) t
decided-room limit n t room = ground arith

approve_one-full :
    (limit at : ℕ) (m : EventMembership) (t : Tally) (s : Session)
    → leb limit t.current_count ≡ true
    → approve_one limit at m t s ≡ (ok (record t { failed_count = t.failed_count + 1 }), s)
unfolding approve_one pure
approve_one-full limit at m t s full = rw full

approve_one-room :
    (limit at event_id : ℕ) (m : EventMembership) (t : Tally) (s : Session)
    → leb limit t.current_count ≡ false
    → Waiting event_id s.working m
    → approve_one limit at m t s ≡ (
      ok (record t { approved_count = t.approved_count + 1; current_count = t.current_count + 1 }),
      record s { working = set_membership m.id (accept at) s.working },
    )
unfolding approve_one
approve_one-room limit at event_id m t s room w =
    rw room (bind-ok _ _ (approve-Waiting event_id at m s w) ∙ unfold pure in refl)

-- What the loop does from a session in which the members wait: it returns, and the accepted
-- members grow by the approvals.
abbrev pub Decides : ℕ → ℕ → ℕ → List EventMembership → Tally → Session → Type 0
Decides limit at event_id ms t s =
    (u : Session) × (approve_each limit at ms t s ≡ (ok (decided limit (length ms) t), u))
    × (u.committed ≡ s.committed)
    × (u.working.events ≡ s.working.events)
    × (accepted_count event_id u.working
        ≡ accepted_count event_id s.working + min (length ms) (limit - t.current_count))

pub approve_each-run :
    (limit at event_id : ℕ) (ms : List EventMembership) (t : Tally) (s : Session)
    → Keyed membership_key ms
    → All (Waiting event_id s.working) ms
    → Decides limit at event_id ms t s
unfolding approve_each
approve_each-run limit at event_id [] t s keyed waiting =
    (s, unfold pure in ground arith, refl, refl, omega arith)
approve_each-run limit at event_id (m ∷ ms) t s keyed waiting =
    elim (Bool-cases (leb limit t.current_count)) [
      | inl full ↦
          let (u, run, kept, events, count) =
            approve_each-run limit at event_id ms (record t { failed_count = t.failed_count + 1 }) s
              keyed.1 waiting.1 in
          (
            u,
            bind-ok _ _ (approve_one-full limit at m t s full)
                ∙ run
                ∙ ap (λ x. (ok x, u)) (decided-full limit (length ms) t full),
            kept,
            events,
            ground (arith, count),
          )
      | inr room ↦
          let d = set_membership m.id (accept at) s.working in
          let (u, run, kept, events, count) =
            approve_each-run limit at event_id ms
              (record t {
                approved_count = t.approved_count + 1;
                current_count = t.current_count + 1;
              })
              (record s { working = d }) keyed.1
              (All-map _ _ ms (accept_other event_id m.id at s.working)
                (All-zip _ _ ms (Keyed-ne membership_key m.id ms keyed.0) waiting.1)) in
          (
            u,
            bind-ok _ _ (approve_one-room limit at event_id m t s room waiting.0)
                ∙ run
                ∙ ap (λ x. (ok x, u)) (decided-room limit (length ms) t room),
            kept,
            events,
            ground (
              arith,
              count,
              accepted_count-accept event_id m.id at m s.working waiting.0.0 waiting.0.2,
              waiting.0.1,
            ),
          )
    ]
