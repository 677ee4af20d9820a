-- ===== src/Creation/Event.antt =====
-- What the creation of an event leaves.
use mathlib.Core.Path.{subst}
use madcamp_w2_decision_make.Prelude.{
  ℕ, String, Bool, true, false, ◌≡◌, ◌∙◌, sym, ap, some, Option, List, [], ◌∷◌, arith, is_some,
  first_row, where_rows, none,
}
use madcamp_w2_decision_make.Model.{
  Event, EventMembership, MembershipStatusType, Database, EventStatusType,
}
use madcamp_w2_decision_make.Repositories.Events
use madcamp_w2_decision_make.Repositories.Memberships
use madcamp_w2_decision_make.Session.{Session, Action, ok, ◌>>=◌, write, uuid4, Result, utc_now}
use madcamp_w2_decision_make.Session.Keeps.{
  Keeps, Both, Keeps-bind, Keeps-pure, Keeps-write, Keeps-uuid4, Keeps-or_raise, Keeps-transaction,
}
use madcamp_w2_decision_make.Creation.Service.{
  create_event, EventCreateRequest, post_event, attach_if, create_each, attach_criteria,
  attach_assumptions, attach_options,
}
use madcamp_w2_decision_make.Repositories.Contents.{
  create_assumption, create_option, create_criterion,
}
use madcamp_w2_decision_make.Repositories.Events.{is_allowed, has_code}
use madcamp_w2_decision_make.Creation.Codes.{is_taken}
use madcamp_w2_decision_make.Membership.Service.{create_admin_membership}
use madcamp_w2_decision_make.Session.Runs.{
  after, transaction-inv, after_raise_if, pure-inv, after_query,
}

-- The tables of events and of members.
abbrev Tables : List Event → List EventMembership → Database → Type 0
Tables es ms d = (d.events ≡ es) × (d.memberships ≡ ms)

module _ (es : List Event) (ms : List EventMembership) where
  create_each-Keeps :
      (create : String → Action (Unit {0})) (contents : List String)
      → ((content : String) → Keeps (Tables es ms) (create content))
      → Keeps (Tables es ms) (create_each create contents)
  unfolding create_each
  create_each-Keeps create [] k = Keeps-pure tt
  create_each-Keeps create (content ∷ rest) k =
      Keeps-bind _ _ (k content) λ _. create_each-Keeps create rest k

  create_option-Keeps :
      (e : ℕ) (content : String) (u : ℕ) → Keeps (Tables es ms) (create_option e content u)
  unfolding create_option
  create_option-Keeps e content u =
      Keeps-bind _ _ (Keeps-uuid4 λ d q. q)
        λ id. Keeps-bind _ _ (Keeps-write _ λ d q. q) λ _. Keeps-pure _

  create_assumption-Keeps :
      (e : ℕ) (content : Option String) (u : ℕ)
      → Keeps (Tables es ms) (create_assumption e content u)
  unfolding create_assumption
  create_assumption-Keeps e content u = Keeps-bind _ _ (Keeps-or_raise content _) λ x.
      Keeps-bind _ _ (Keeps-uuid4 λ d q. q)
        λ id. Keeps-bind _ _ (Keeps-write _ λ d q. q) λ _. Keeps-pure _

  create_criterion-Keeps :
      (e : ℕ) (content : Option String) (u : ℕ)
      → Keeps (Tables es ms) (create_criterion e content u)
  unfolding create_criterion
  create_criterion-Keeps e content u = Keeps-bind _ _ (Keeps-or_raise content _) λ x.
      Keeps-bind _ _ (Keeps-uuid4 λ d q. q)
        λ id. Keeps-bind _ _ (Keeps-write _ λ d q. q) λ _. Keeps-pure _

  attach_if-Keeps :
      (contents : List String) (attach : Action (Unit {0}))
      → Keeps (Tables es ms) attach
      → Keeps (Tables es ms) (attach_if contents attach)
  attach_if-Keeps [] attach k = Keeps-pure tt
  attach_if-Keeps (x ∷ rest) attach k = k

  attach_options-Keeps :
      (e : ℕ) (contents : List String) (u : ℕ) → Keeps (Tables es ms) (attach_options e contents u)
  unfolding attach_options
  attach_options-Keeps e contents u = Keeps-transaction _ (
      create_each-Keeps _ contents
        λ content. Keeps-bind _ _ (create_option-Keeps e content u) λ _. Keeps-pure tt)

  attach_assumptions-Keeps :
      (e : ℕ) (contents : List String) (u : ℕ)
      → Keeps (Tables es ms) (attach_assumptions e contents u)
  unfolding attach_assumptions
  attach_assumptions-Keeps e contents u = Keeps-transaction _ (
      create_each-Keeps _ contents
        λ content. Keeps-bind _ _ (create_assumption-Keeps e (some content) u) λ _. Keeps-pure tt)

  attach_criteria-Keeps :
      (e : ℕ) (contents : List String) (u : ℕ) → Keeps (Tables es ms) (attach_criteria e contents u)
  unfolding attach_criteria
  attach_criteria-Keeps e contents u = Keeps-transaction _ (
      create_each-Keeps _ contents
        λ content. Keeps-bind _ _ (create_criterion-Keeps e (some content) u) λ _. Keeps-pure tt)

fresh_id :
    (s : Session) {id : ℕ} {t : Session}
    → uuid4 s ≡ (ok id, t)
    → (s.working.next_id ≡ id)
      × (t.working.events ≡ s.working.events)
      × (t.working.memberships ≡ s.working.memberships)
unfolding uuid4
fresh_id s h = ground (arith, h)

-- The insertion of an event.
insert_event-inv :
    (is_code : String → Bool) (e : ℕ → Event) (s : Session) {x : Event} {t : Session}
    → Events.create_event is_code e s ≡ (ok x, t)
    → (x ≡ e s.working.next_id)
      × (is_allowed is_code x ≡ true)
      × (is_taken x.entrance_code s.working ≡ false)
      × (t.working.events ≡ x ∷ s.working.events)
      × (t.working.memberships ≡ s.working.memberships)
unfolding Events.create_event write
insert_event-inv is_code e s {x} {t} h = after _ _ h λ id s₁ p h₁.
    let (allowed, h₂) = after_raise_if _ _ _ h₁ in
    let (free, h₃) = after_raise_if _ _ _ (after_query _ _ h₂) in
    after _ _ h₃ λ u s₂ q h₄.
      let (result, same) = pure-inv h₄ in
      let (fresh, kept, members) = fresh_id s p in
      let at = ap (λ y. y.1.working) (sym q) in
      (
        sym result ∙ ap e (sym fresh),
        subst (λ y. is_allowed is_code y ≡ true) result (ground (arith, allowed)),
        subst (λ y. is_taken y.entrance_code s.working ≡ false) result
            (ap (λ l. is_some (first_row (where_rows (has_code (e id).entrance_code) l))) (sym kept)
              ∙ free),
        ap (λ y. y.working.events) same
            ∙ ap (λ d. d.events) at
            ∙ ap (λ l. e id ∷ l) kept
            ∙ ap (λ y. y ∷ s.working.events) result,
        ap (λ y. y.working.memberships) same ∙ ap (λ d. d.memberships) at ∙ members,
      )

insert_member-inv :
    (u e : ℕ) (at : Option ℕ) (s : Session) {m : EventMembership} {t : Session}
    → Memberships.create_membership u e MembershipStatusType.accepted at s ≡ (ok m, t)
    → (t.working.events ≡ s.working.events)
      × (t.working.memberships ≡ m ∷ s.working.memberships)
      × (m.user_id ≡ u)
      × (m.event_id ≡ e)
      × (m.membership_status ≡ MembershipStatusType.accepted)
unfolding Memberships.create_membership ◌>>=◌
insert_member-inv u e at s h = ground arith

admin_inv :
    (e u : ℕ) (s : Session) {m : EventMembership} {t : Session}
    → create_admin_membership e u s ≡ (ok m, t)
    → (t.committed.events ≡ s.working.events)
      × (t.committed.memberships ≡ m ∷ s.working.memberships)
      × (m.user_id ≡ u)
      × (m.event_id ≡ e)
      × (m.membership_status ≡ MembershipStatusType.accepted)
unfolding create_admin_membership utc_now
admin_inv e u s {m} {t} h = after _ _ h λ now s' p h₁.
    let (w, q, landing) = transaction-inv _ h₁ in
    let (events, members, by, on, accepted) = insert_member-inv u e (some now) s' q in
    let same = ap (λ y. y.1.working) (sym p) in
    let at = ap (λ y. y.committed) landing in
    (
      ap (λ d. d.events) at ∙ events ∙ ap (λ d. d.events) same,
      ap (λ d. d.memberships) at ∙ members ∙ ap (λ d. m ∷ d.memberships) same,
      by,
      on,
      accepted,
    )

-- What an action keeps, after a run of it.
kept_run {ℓ} :
    {A : Type ℓ} {Q : Database → Type 0} {m : Action A} {s t : Session} {r : Result A}
    → Keeps Q m
    → m s ≡ (r, t)
    → Both Q s
    → Both Q t
kept_run {Q = Q} {s = s} k p q = subst (Both Q) (λ i. (p i).1) (k.at s q)

-- The event that a request of a user asks for.
abbrev pub requested_event : EventCreateRequest → ℕ → ℕ → Event
requested_event request user_id id = record {
  id = id;
  decision_subject = request.decision_subject;
  entrance_code = request.entrance_code;
  assumption_is_auto_approved_by_votes = request.assumption_is_auto_approved_by_votes;
  criteria_is_auto_approved_by_votes = request.criteria_is_auto_approved_by_votes;
  membership_is_auto_approved = request.membership_is_auto_approved;
  conclusion_is_auto_approved_by_votes = request.conclusion_is_auto_approved_by_votes;
  assumption_min_votes_required = request.assumption_min_votes_required;
  criteria_min_votes_required = request.criteria_min_votes_required;
  conclusion_approval_threshold_percent = request.conclusion_approval_threshold_percent;
  event_status = EventStatusType.not_started;
  max_membership = request.max_membership;
  updated_at = none;
  admin_id = user_id;
}

module _ (is_code : String → Bool) (request : EventCreateRequest) (user_id : ℕ) (s : Session) where
  -- The creation of an event that returns was asked with a code that no event had, and within the
  -- constraints of the table. It commits one new event, NOT_STARTED and with the requested values,
  -- and one new member, the ACCEPTED admin of the event.
  pub post_event-inv :
      {e : Event} {t : Session}
      → post_event is_code request user_id s ≡ (ok e, t)
      → (m : EventMembership) × (e ≡ requested_event request user_id s.working.next_id)
        × (is_allowed is_code e ≡ true)
        × (is_taken e.entrance_code s.working ≡ false)
        × (t.committed.events ≡ e ∷ s.working.events)
        × (t.committed.memberships ≡ m ∷ s.working.memberships)
        × (m.user_id ≡ user_id)
        × (m.event_id ≡ e.id)
        × (m.membership_status ≡ MembershipStatusType.accepted)
  unfolding post_event create_event
  post_event-inv {e} {t} h = after _ _ h λ x s₁ p₁ h₁.
      let (u, q, landing) = transaction-inv _ p₁ in
      let (made, allowed, free, events, members) = insert_event-inv is_code _ s q in
      let es = x ∷ s.working.events in
      let ms = s.working.memberships in
      let start : Both (Tables es ms) s₁ =
        subst (Both (Tables es ms)) (sym landing) ((events, members), (events, members)) in
      after _ _ h₁ λ a s₂ p₂ h₂. after _ _ h₂ λ b s₃ p₃ h₃. after _ _ h₃ λ c s₄ p₄ h₄.
        let k₂ =
          kept_run
            (attach_if-Keeps es ms _ _ (attach_options-Keeps es ms x.id request.options user_id)) p₂
            start in
        let k₃ =
          kept_run
            (attach_if-Keeps es ms _ _
              (attach_assumptions-Keeps es ms x.id request.assumptions user_id))
            p₃ k₂ in
        let k₄ =
          kept_run
            (attach_if-Keeps es ms _ _ (attach_criteria-Keeps es ms x.id request.criteria user_id))
            p₄ k₃ in
        after _ _ h₄ λ m s₅ p₅ h₅.
          let (result, same) = pure-inv h₅ in
          let (events', members', by, on, accepted) = admin_inv x.id user_id s₄ p₅ in
          let at = ap (λ y. y.committed) same in
          (
            m,
            sym result ∙ made,
            subst (λ y. is_allowed is_code y ≡ true) result allowed,
            subst (λ y. is_taken y.entrance_code s.working ≡ false) result free,
            ap (λ d. d.events) at ∙ events' ∙ k₄.0.0 ∙ ap (λ y. y ∷ s.working.events) result,
            ap (λ d. d.memberships) at ∙ members' ∙ ap (λ l. m ∷ l) k₄.0.1,
            by,
            on ∙ ap (λ y. y.id) result,
            accepted,
          )
