-- ===== src/Outbox/Order.antt =====
-- app/repositories/outbox_repository.py: the order that a page of the event stream is taken in.
use mathlib.Core.Path.{subst}
use madcamp_w2_decision_make.Prelude.{
  ℕ, Bool, true, false, ◌≡◌, ◌≢◌, refl, ap, Option, some, List, [], ◌∷◌, ◌++◌, ◌&&◌, ◌+◌, take,
  drop, All, All-map, Keyed, Keyed-ne, count_rows, where_rows, Bool-cases, inl, inr, arith, suc,
  zero, ◌<◌,
}
use madcamp_w2_decision_make.Model.{OutboxEvent}
use madcamp_w2_decision_make.Repositories.OutboxQueue.{outbox_key}
use madcamp_w2_decision_make.Repositories.OutboxStream.{is_after, insert_event, order_events}
use madcamp_w2_decision_make.Outbox.Stream.{last_event_id}

-- `y` comes after `x`.
abbrev pub comes_after : OutboxEvent → OutboxEvent → Bool
comes_after x y = is_after x.created_at x.id y

abbrev pub Ascending : List OutboxEvent → Type 0
Ascending [] = Unit
Ascending (x ∷ xs) = All (λ y. comes_after x y ≡ true) xs × Ascending xs

after_trans :
    (x y z : OutboxEvent) → comes_after x y ≡ true → comes_after y z ≡ true → comes_after x z ≡ true
after_trans x y z h k = ground (arith, h, k)

after_total : (x y : OutboxEvent) → comes_after x y ≡ false → y.id ≢ x.id → comes_after y x ≡ true
after_total x y h k = ground (arith, h, k)

after_asym : (x y : OutboxEvent) → comes_after x y ≡ true → comes_after y x ≡ false
after_asym x y h = ground (arith, h)

after_self : (x : OutboxEvent) → comes_after x x ≡ false
after_self x = ground arith

insert_event-All :
    (P : OutboxEvent → Type 0) (e : OutboxEvent) (xs : List OutboxEvent)
    → P e
    → All P xs
    → All P (insert_event e xs)
insert_event-All P e [] p h = (p, h)
insert_event-All P e (x ∷ xs) p (q, h) = ground (arith, insert_event-All P e xs p h)

pub order_events-All :
    (P : OutboxEvent → Type 0) (xs : List OutboxEvent) → All P xs → All P (order_events xs)
order_events-All P [] h = tt
order_events-All P (x ∷ xs) (p, h) =
    insert_event-All P x (order_events xs) p (order_events-All P xs h)

insert_event-Ascending :
    (e : OutboxEvent) (xs : List OutboxEvent)
    → All (λ x. x.id ≢ e.id) xs
    → Ascending xs
    → Ascending (insert_event e xs)
insert_event-Ascending e [] ne h = (tt, tt)
insert_event-Ascending e (x ∷ xs) (n, ne) (low, h) = elim (Bool-cases (comes_after e x)) [
  | inl p ↦ rw p ((p, All-map _ _ xs (λ y k. after_trans e x y p k) low), (low, h))
  | inr p ↦ rw p (
    insert_event-All (λ y. comes_after x y ≡ true) e xs (after_total e x p n) low,
    insert_event-Ascending e xs ne h,
  )
]

pub order_events-Ascending :
    (xs : List OutboxEvent) → Keyed outbox_key xs → Ascending (order_events xs)
order_events-Ascending [] h = tt
order_events-Ascending (x ∷ xs) (fresh, h) =
    insert_event-Ascending x (order_events xs)
      (order_events-All _ xs (Keyed-ne outbox_key x.id xs fresh)) (order_events-Ascending xs h)

count-insert_event :
    (p : OutboxEvent → Bool) (e : OutboxEvent) (xs : List OutboxEvent)
    → count_rows p (insert_event e xs) ≡ count_rows p (e ∷ xs)
count-insert_event p e [] = refl
count-insert_event p e (x ∷ xs) = ground (arith, count-insert_event p e xs)

pub count-order_events :
    (p : OutboxEvent → Bool) (xs : List OutboxEvent)
    → count_rows p (order_events xs) ≡ count_rows p xs
count-order_events p [] = refl
count-order_events p (x ∷ xs) =
    ground (arith, count-insert_event p x (order_events xs), count-order_events p xs)

where_rows_whole :
    (p : OutboxEvent → Bool) (xs : List OutboxEvent)
    → All (λ x. p x ≡ true) xs
    → where_rows p xs ≡ xs
where_rows_whole p [] h = refl
where_rows_whole p (x ∷ xs) (q, h) = ground (arith, q, where_rows_whole p xs h)

pub All-middle :
    (P : OutboxEvent → Type 0) (before : List OutboxEvent) (x : OutboxEvent)
    (rest : List OutboxEvent)
    → All P (before ++ (x ∷ rest))
    → P x
All-middle P [] x rest h = h.0
All-middle P (y ∷ before) x rest h = All-middle P before x rest h.1

-- What comes after an event in an ordered list.
after-Ascending :
    (before : List OutboxEvent) (x : OutboxEvent) (rest : List OutboxEvent)
    → Ascending (before ++ (x ∷ rest))
    → where_rows (comes_after x) (before ++ (x ∷ rest)) ≡ rest
after-Ascending [] x rest (low, h) = rw (after_self x) (where_rows_whole (comes_after x) rest low)
after-Ascending (y ∷ before) x rest (low, h) =
    rw (after_asym y x (All-middle _ before x rest low)) (after-Ascending before x rest h)

pub take-drop : (n : ℕ) (xs : List OutboxEvent) → take n xs ++ drop n xs ≡ xs
take-drop zero xs = refl
take-drop (suc n) [] = refl
take-drop (suc n) (x ∷ xs) = ap (λ l. x ∷ l) (take-drop n xs)

pub last-split :
    (e : OutboxEvent) (es : List OutboxEvent) (last : Option ℕ)
    → (before : List OutboxEvent) × (x : OutboxEvent) × (e ∷ es ≡ before ++ (x ∷ []))
      × (last_event_id (e ∷ es) last ≡ some x.id)
last-split e [] last = ([], e, refl, refl)
last-split e (e' ∷ es) last =
    let (before, x, split, id) = last-split e' es (some e.id) in
    (e ∷ before, x, ap (λ l. e ∷ l) split, id)

count-append :
    (p : OutboxEvent → Bool) (xs ys : List OutboxEvent)
    → count_rows p (xs ++ ys) ≡ count_rows p xs + count_rows p ys
count-append p [] ys = omega arith
count-append p (x ∷ xs) ys = ground (arith, count-append p xs ys)

pub count-where_rows :
    (p q : OutboxEvent → Bool) (xs : List OutboxEvent)
    → count_rows p (where_rows q xs) ≡ count_rows (λ x. q x && p x) xs
count-where_rows p q [] = refl
count-where_rows p q (x ∷ xs) = ground (arith, count-where_rows p q xs)

pub count-same :
    (p q : OutboxEvent → Bool) (xs : List OutboxEvent)
    → ((x : OutboxEvent) → p x ≡ q x)
    → count_rows p xs ≡ count_rows q xs
count-same p q [] h = refl
count-same p q (x ∷ xs) h = ground (arith, h x, count-same p q xs h)

-- A page of an ordered list: the rest is what comes after its last event.
pub page-rest :
    (p : OutboxEvent → Bool) (before : List OutboxEvent) (x : OutboxEvent)
    (rest all : List OutboxEvent)
    → before ++ (x ∷ rest) ≡ all
    → Ascending all
    → count_rows p all
      ≡ count_rows p (before ++ (x ∷ [])) + count_rows p (where_rows (comes_after x) all)
page-rest p before x rest all at h =
    subst
      (λ l.
        Ascending l
        → count_rows p l
          ≡ count_rows p (before ++ (x ∷ [])) + count_rows p (where_rows (comes_after x) l))
      at
      (λ a. rw (after-Ascending before x rest a) (
        omega (
          arith,
          count-append p before (x ∷ rest),
          count-append p before (x ∷ []),
          count-append p (x ∷ []) rest,
        )))
      h

insert_event-nil : (e : OutboxEvent) (xs : List OutboxEvent) → insert_event e xs ≡ [] → ⊥
insert_event-nil e [] h = ground (arith, h)
insert_event-nil e (x ∷ xs) h = ground (arith, h)

pub order_events-nil : (xs : List OutboxEvent) → order_events xs ≡ [] → xs ≡ []
order_events-nil [] h = refl
order_events-nil (x ∷ xs) h = absurd (insert_event-nil x (order_events xs) h)

pub take-nil : (n : ℕ) (xs : List OutboxEvent) → 0 < n → take n xs ≡ [] → xs ≡ []
take-nil zero xs pos h = absurd (omega arith)
take-nil (suc n) [] pos h = refl
take-nil (suc n) (x ∷ xs) pos h = absurd (ground (arith, h))
