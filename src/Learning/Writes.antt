-- ===== src/Learning/Writes.antt =====
-- The writes to items, units and revisions in apps/api/src/learning/learning.service.ts.
use edupay_academico.Prelude.{
  ℕ, ◌+◌, Bool, true, Option, none, some, ◌∷◌, Text, text_eq, ◌&&◌, ◌==◌, find, any, update_first,
  Result, ok, err, ◌>>=◌, require_some, if◌then◌else◌,
}
use edupay_academico.Learning.{
  LearningItem, LearningUnit, ContentRevision, Operation, State, Refusal, not_found, stale_revision,
  unique_violation,
}

-- `...(expectedRevision !== undefined ? { version: expectedRevision } : {})`
abbrev pub version_fits : Option ℕ → ℕ → Bool
version_fits none version = true
version_fits (some expected) version = version == expected

abbrev pub is_unit : Text → ℕ → LearningUnit → Bool
is_unit tenant_id id u = text_eq u.tenant_id tenant_id && u.id == id

abbrev pub unit_fits : Text → ℕ → Option ℕ → LearningUnit → Bool
unit_fits tenant_id id expected u = is_unit tenant_id id u && version_fits expected u.version

module _ {C : Type 0} where
  abbrev pub is_item : Text → ℕ → LearningItem C → Bool
  is_item tenant_id id i = text_eq i.tenant_id tenant_id && i.id == id

  -- `{ ...data, version: { increment: 1 } }`
  abbrev pub bump : (LearningItem C → LearningItem C) → LearningItem C → LearningItem C
  bump change i = record (change i) { version = i.version + 1 }

  -- `tx.learningItem.update` with an incremented version; a missing row is an error.
  unfoldable pub update_item_row :
      Text
      → ℕ
      → (LearningItem C → LearningItem C)
      → State C
      → Result Refusal (LearningItem C × State C)
  update_item_row tenant_id id change s = do
    i ← require_some not_found (find (is_item tenant_id id) s.items)
    ok (
      bump change i,
      record s { items = update_first (is_item tenant_id id) (bump change) s.items },
    )

  abbrev pub fits : Text → ℕ → Option ℕ → LearningItem C → Bool
  fits tenant_id id expected i = is_item tenant_id id i && version_fits expected i.version

  unfoldable pub apply_versioned_item_update :
      Text
      → ℕ
      → (expected_revision : Option ℕ) → (LearningItem C → LearningItem C)
      → State C
      → Result Refusal (LearningItem C × State C)
  apply_versioned_item_update tenant_id id expected change s = do
    i ← require_some stale_revision (find (fits tenant_id id expected) s.items)
    ok (
      bump change i,
      record s { items = update_first (fits tenant_id id expected) (bump change) s.items },
    )

  -- `learningUnit.updateMany` with an incremented version
  unfoldable pub bump_unit : Text → ℕ → (expected : Option ℕ) → State C → Result Refusal (State C)
  bump_unit tenant_id id expected s = do
    u ← require_some stale_revision (find (unit_fits tenant_id id expected) s.units)
    ok (record s {
      units =
          update_first (unit_fits tenant_id id expected) (λ u. record u { version = u.version + 1 })
            s.units;
    })

  -- The unique key of the table, for items
  abbrev pub is_revision : Text → ℕ → ℕ → ContentRevision C → Bool
  is_revision tenant_id id number r =
      text_eq r.tenant_id tenant_id && r.entity_id == id && r.revision_number == number

  unfoldable pub record_revision : ContentRevision C → State C → Result Refusal (State C)
  record_revision r s =
      if any (is_revision r.tenant_id r.entity_id r.revision_number) s.revisions
      then err unique_violation
      else ok (record s { revisions = r ∷ s.revisions })

  -- The revision of an item as it has become.
  abbrev pub revision_of : Operation → (actor : Text) → LearningItem C → ContentRevision C
  revision_of operation actor i = record {
    tenant_id = i.tenant_id;
    entity_id = i.id;
    revision_number = i.version;
    operation = operation;
    snapshot = some i;
    actor = actor;
  }

  -- An update and the revision that records it.
  unfoldable pub update_recorded :
      Operation
      → (actor tenant_id : Text) → ℕ
      → (LearningItem C → LearningItem C)
      → State C
      → Result Refusal (LearningItem C × State C)
  unfolding update_item_row record_revision
  update_recorded operation actor tenant_id id change s = do
    updated ← update_item_row tenant_id id change s
    recorded ← record_revision (revision_of operation actor updated.0) updated.1
    ok (updated.0, recorded)

  unfoldable pub update_versioned :
      Operation
      → (actor tenant_id : Text) → ℕ
      → Option ℕ
      → (LearningItem C → LearningItem C)
      → State C
      → Result Refusal (LearningItem C × State C)
  unfolding apply_versioned_item_update record_revision
  update_versioned operation actor tenant_id id expected change s = do
    updated ← apply_versioned_item_update tenant_id id expected change s
    recorded ← record_revision (revision_of operation actor updated.0) updated.1
    ok (updated.0, recorded)
