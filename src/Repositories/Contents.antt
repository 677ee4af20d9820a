-- ===== src/Repositories/Contents.antt =====
-- app/repositories/content/: options, assumptions and criteria. A flush of a new row gives it a
-- fresh id; the column `content` may not be NULL, so a None raises IntegrityError.
use madcamp_w2_decision_make.Prelude.{
  ℕ, Option, String, ◌∷◌, find_by_id, update_by_id, some, none, false,
}
use madcamp_w2_decision_make.Model.{Assumption, Criterion, OptionRow, Database}
use madcamp_w2_decision_make.Session.{
  Action, ◌>>=◌, or_raise, utc_now, uuid4, write, integrity, ◌>>◌, pure,
}

abbrev pub option_key : OptionRow → ℕ
option_key o = o.id

abbrev pub assumption_key : Assumption → ℕ
assumption_key a = a.id

abbrev pub criterion_key : Criterion → ℕ
criterion_key c = c.id

unfoldable pub option_of : ℕ → Database → Option OptionRow
option_of id d = find_by_id option_key id d.options

unfoldable pub assumption_of : ℕ → Database → Option Assumption
assumption_of id d = find_by_id assumption_key id d.assumptions

unfoldable pub criterion_of : ℕ → Database → Option Criterion
criterion_of id d = find_by_id criterion_key id d.criteria

-- A lookup by an id that may be None, which no row has.
abbrev pub maybe_of {ℓ} : {R : Type ℓ} → (ℕ → Database → Option R) → Option ℕ → Database → Option R
maybe_of find none d = none
maybe_of find (some id) d = find id d

abbrev pub add_option : OptionRow → Database → Database
add_option o d = record d { options = o ∷ d.options }

abbrev pub add_assumption : Assumption → Database → Database
add_assumption a d = record d { assumptions = a ∷ d.assumptions }

abbrev pub add_criterion : Criterion → Database → Database
add_criterion c d = record d { criteria = c ∷ d.criteria }

unfoldable pub create_option : ℕ → String → ℕ → Action OptionRow
create_option event_id content created_by = do
  id ← uuid4
  let option : OptionRow = record {
    id = id;
    event_id = event_id;
    content = content;
    created_by = created_by;
    updated_at = none;
  }
  write (add_option option)
  pure option

unfoldable pub create_assumption : ℕ → Option String → ℕ → Action Assumption
create_assumption event_id content created_by = do
  text ← or_raise content (integrity "assumptions.content")
  id ← uuid4
  let assumption : Assumption = record {
    id = id;
    event_id = event_id;
    content = text;
    is_deleted = false;
    is_modified = false;
    original_content = none;
    created_by = created_by;
    updated_at = none;
    updated_by = none;
  }
  write (add_assumption assumption)
  pure assumption

unfoldable pub create_criterion : ℕ → Option String → ℕ → Action Criterion
create_criterion event_id content created_by = do
  text ← or_raise content (integrity "criterion.content")
  id ← uuid4
  let criterion : Criterion = record {
    id = id;
    event_id = event_id;
    content = text;
    conclusion = none;
    is_deleted = false;
    is_modified = false;
    original_content = none;
    created_by = created_by;
    updated_at = none;
    updated_by = none;
  }
  write (add_criterion criterion)
  pure criterion

abbrev pub set_option : ℕ → (OptionRow → OptionRow) → Database → Database
set_option id f d = record d { options = update_by_id option_key id f d.options }

abbrev pub set_assumption : ℕ → (Assumption → Assumption) → Database → Database
set_assumption id f d = record d { assumptions = update_by_id assumption_key id f d.assumptions }

abbrev pub set_criterion : ℕ → (Criterion → Criterion) → Database → Database
set_criterion id f d = record d { criteria = update_by_id criterion_key id f d.criteria }

-- `f` is what the service assigned to the row before the flush.
unfoldable pub update_assumption : (Assumption → Assumption) → Assumption → ℕ → Action (Unit {0})
update_assumption f a updated_by = do
  now ← utc_now
  write (
      set_assumption a.id
        (λ r. record (f r) { updated_at = some now; updated_by = some updated_by }))

unfoldable pub update_criterion : (Criterion → Criterion) → Criterion → ℕ → Action (Unit {0})
update_criterion f c updated_by = do
  now ← utc_now
  write (
      set_criterion c.id
        (λ r. record (f r) { updated_at = some now; updated_by = some updated_by }))
