-- ===== src/Outbox/Paging.antt =====
-- The pages of the event stream, and what they leave to deliver.
use mathlib.Core.Path.{subst}
use mathlib.Core.List.{append_assoc}
use madcamp_w2_decision_make.Prelude.{
  ℕ, Bool, true, false, ◌≡◌, ◌∙◌, refl, sym, ap, Option, none, some, List, [], ◌∷◌, ◌++◌, ◌&&◌, ◌+◌,
  map, take, drop, All, Keyed, count_rows, where_rows, arith, ◌==◌, where_rows-Keyed, All-zip,
  where_rows-All, All-where_rows, Keyed-found, length, ◌<◌, ◌≤◌, length-take,
}
use madcamp_w2_decision_make.Model.{OutboxEvent, Database}
use madcamp_w2_decision_make.Repositories.OutboxQueue.{outbox_key, outbox_of}
use madcamp_w2_decision_make.Repositories.OutboxStream.{
  order_events, is_streamed, get_events_for_sse,
}
use madcamp_w2_decision_make.Outbox.Stream.{last_event_id, get_event_updates, update_response}
use madcamp_w2_decision_make.Session.{pure, Session, ok}
use madcamp_w2_decision_make.Session.Runs.{bind-query}
use madcamp_w2_decision_make.Outbox.Order.{
  comes_after, order_events-All, order_events-Ascending, count-order_events, All-middle, take-drop,
  last-split, count-where_rows, count-same, page-rest, order_events-nil, take-nil,
}

-- The cursor names no event yet, or one of the table.
abbrev pub IsCursor : Option ℕ → Database → Type 0
IsCursor none d = Unit
IsCursor (some last_id) d = (e : OutboxEvent) × (outbox_of last_id d ≡ some e)

-- The events that a stream has still to deliver.
abbrev pub undelivered : ℕ → Option ℕ → Database → List OutboxEvent
undelivered target last_id d = where_rows (is_streamed target last_id d) d.outbox_events

moved_on :
    (target : ℕ) (last_id : Option ℕ) (d : Database) (x e : OutboxEvent)
    → IsCursor last_id d
    → is_streamed target last_id d x ≡ true
    → (is_streamed target last_id d e && comes_after x e)
      ≡ (e.target_event_id == target && comes_after x e)
moved_on target none d x e cursor h = refl
moved_on target (some l) d x e (c, found) h = ground (arith, found, h)

new_cursor :
    (target : ℕ) (d : Database) (x e : OutboxEvent)
    → outbox_of x.id d ≡ some x
    → is_streamed target (some x.id) d e ≡ (e.target_event_id == target && comes_after x e)
new_cursor target d x e found = rw found refl

and_shift : (a b c s : Bool) → (a && b) ≡ s → (a && (b && c)) ≡ (s && c)
and_shift true b c s e = ap (λ x. x && c) e
and_shift false b c s e = ap (λ x. x && c) e

module _ (target : ℕ) (last_id : Option ℕ) (d : Database) (p : OutboxEvent → Bool) where
  -- The events after one that was to be delivered are those of the new cursor.
  rest-undelivered :
      (x : OutboxEvent)
      → IsCursor last_id d
      → is_streamed target last_id d x ≡ true
      → outbox_of x.id d ≡ some x
      → count_rows p (where_rows (comes_after x) (order_events (undelivered target last_id d)))
        ≡ count_rows p (undelivered target (some x.id) d)
  rest-undelivered x cursor h found =
      count-where_rows p (comes_after x) _
      ∙ count-order_events _ (undelivered target last_id d)
      ∙ count-where_rows _ (is_streamed target last_id d) d.outbox_events
      ∙ count-same _ _ d.outbox_events (λ e.
        and_shift _ _ (p e) _
          (moved_on target last_id d x e cursor h ∙ sym (new_cursor target d x e found)))
      ∙ sym (count-where_rows p (is_streamed target (some x.id) d) d.outbox_events)

  abbrev ordered : List OutboxEvent
  ordered = order_events (undelivered target last_id d)

  -- An event that is delivered was to be delivered, and is found by its id.
  delivered-All :
      Keyed outbox_key d.outbox_events
      → All (λ x. (is_streamed target last_id d x ≡ true) × (outbox_of x.id d ≡ some x)) ordered
  unfolding outbox_of
  delivered-All keyed = order_events-All _ _ (
      All-zip _ _ _ (where_rows-All (is_streamed target last_id d) d.outbox_events) (
        All-where_rows _ (is_streamed target last_id d) d.outbox_events
          (Keyed-found outbox_key d.outbox_events keyed)))

  page_cases :
      (limit : ℕ) (page : List OutboxEvent)
      → take limit (order_events (undelivered target last_id d)) ≡ page
      → IsCursor last_id d
      → Keyed outbox_key d.outbox_events
      → count_rows p (undelivered target last_id d)
        ≡ count_rows p page + count_rows p (undelivered target (last_event_id page last_id) d)
  page_cases limit [] at cursor keyed = omega arith
  page_cases limit (e ∷ es) at cursor keyed =
      let (before, x, split, id) = last-split e es last_id in
      let rest = drop limit ordered in
      let whole : before ++ (x ∷ rest) ≡ ordered =
        sym (append_assoc before (x ∷ []) rest)
        ∙ ap (λ l. l ++ rest) (sym split ∙ sym at)
        ∙ take-drop limit ordered in
      let known = All-middle _ before x rest (subst (All _) (sym whole) (delivered-All keyed)) in
      let ascending =
        order_events-Ascending (undelivered target last_id d)
          (where_rows-Keyed outbox_key (is_streamed target last_id d) d.outbox_events keyed) in
      sym (count-order_events p (undelivered target last_id d))
      ∙ page-rest p before x rest ordered whole ascending
      ∙ ap (λ n. count_rows p (before ++ (x ∷ [])) + n) (rest-undelivered x cursor known.0 known.1)
      ∙ ap (λ l. count_rows p l + count_rows p (undelivered target (some x.id) d)) (sym split)
      ∙ ap (λ i. count_rows p (e ∷ es) + count_rows p (undelivered target i d)) (sym id)

-- From a cursor that names no event or one of the table, where no two events have one id, a page of
-- the stream and what its new cursor leaves to deliver are together what the old cursor left to
-- deliver, each event as often: nothing is skipped and nothing comes twice. A page is no
-- longer than the limit, and it is only empty, for a positive limit, where nothing is left.
pub get_event_updates-pages :
    (target : ℕ) (last_id : Option ℕ) (limit : ℕ) (s : Session)
    → IsCursor last_id s.working
    → Keyed outbox_key s.working.outbox_events
    → (page : List OutboxEvent) × (next : Option ℕ) × (get_event_updates target last_id limit s
        ≡ (ok (map update_response page, next), s))
      × ((p : OutboxEvent → Bool)
          → count_rows p (undelivered target last_id s.working)
            ≡ count_rows p page + count_rows p (undelivered target next s.working))
      × (length page ≤ limit)
      × (0 < limit → page ≡ [] → undelivered target last_id s.working ≡ [])
unfolding get_event_updates get_events_for_sse pure
get_event_updates-pages target last_id limit s cursor keyed = (
  take limit (order_events (undelivered target last_id s.working)),
  _,
  bind-query _ _ ∙ refl,
  λ p. page_cases target last_id s.working p limit _ refl cursor keyed,
  length-take limit _,
  λ pos h. order_events-nil _ (take-nil limit _ pos h),
)
