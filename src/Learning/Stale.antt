-- ===== src/Learning/Stale.antt =====
-- Optimistic concurrency of `applyVersionedItemUpdate` in
-- apps/api/src/learning/learning.service.ts.
use edupay_academico.Prelude.{
  ℕ, ◌<◌, ◌≡◌, refl, sym, true, false, Option, some, All, All-imp, Text, ◌∙◌, find, find-test, ok,
  err, require_some, bind-eq-ok, require_some-eq-ok, arith, update_first,
}
use edupay_academico.Learning.{LearningItem, State, stale_revision}
use edupay_academico.Learning.Writes.{
  is_item, fits, bump, update_item_row, apply_versioned_item_update,
}
use edupay_academico.Prelude.Keys.{AtMostOne, All-update_first, All-key, find-none}

module _ {C : Type 0} where
  -- A change that leaves the key of the row.
  pub record KeepsKey (change : LearningItem C → LearningItem C) : Type 0 where
    pub tenant_id : (i : LearningItem C) → (change i).tenant_id ≡ i.tenant_id
    pub id : (i : LearningItem C) → (change i).id ≡ i.id

  abbrev pub HasKeys : State C → Type 0
  HasKeys s = (t : Text) (id : ℕ) → AtMostOne (is_item t id) s.items

  pub is_item-bump :
      (change : LearningItem C → LearningItem C)
      → KeepsKey change
      → (t : Text) (id : ℕ) (i : LearningItem C) → is_item t id (bump change i) ≡ is_item t id i
  is_item-bump change keep t id i = rw (keep.tenant_id i, keep.id i) refl

  -- Writes to rows of items, one after the other: anyone's, to any row.
  pub data Written : State C → State C → Type 0 where
    same : {s : State C} → Written s s
    row :
        {s s' s'' : State C} (t : Text) (id : ℕ) (change : LearningItem C → LearningItem C)
        (i : LearningItem C)
        → KeepsKey change
        → update_item_row t id change s ≡ ok (i, s')
        → Written s' s''
        → Written s s''
    versioned :
        {s s' s'' : State C} (t : Text) (id : ℕ) (expected : Option ℕ)
        (change : LearningItem C → LearningItem C) (i : LearningItem C)
        → KeepsKey change
        → apply_versioned_item_update t id expected change s ≡ ok (i, s')
        → Written s' s''
        → Written s s''

  -- The row is past the version.
  abbrev pub Past : Text → ℕ → ℕ → LearningItem C → Type 0
  Past t id v i = is_item t id i ≡ true → v < i.version

  Past-bump :
      (change : LearningItem C → LearningItem C)
      → KeepsKey change
      → (t : Text) (id v : ℕ) (i : LearningItem C) → Past t id v i
      → Past t id v (bump change i)
  Past-bump change keep t id v i h k =
      let earlier = h (sym (is_item-bump change keep t id i) ∙ k) in omega arith

  -- What a write of a row does, guarded or not.
  pub update_item_row-eq-ok :
      (t : Text) (id : ℕ) (change : LearningItem C → LearningItem C) (s : State C)
      {i : LearningItem C} {s' : State C}
      → update_item_row t id change s ≡ ok (i, s')
      → (r : LearningItem C) × (find (is_item t id) s.items ≡ some r)
        × (i ≡ bump change r)
        × (s' ≡ record s { items = update_first (is_item t id) (bump change) s.items })
  unfolding update_item_row
  update_item_row-eq-ok t id change s h =
      let (r, found, rest) = bind-eq-ok (require_some _ (find (is_item t id) s.items)) _ h in
      (r, require_some-eq-ok _ _ found, cc, cc)

  pub apply_versioned_item_update-eq-ok :
      (t : Text) (id : ℕ) (expected : Option ℕ) (change : LearningItem C → LearningItem C)
      (s : State C) {i : LearningItem C} {s' : State C}
      → apply_versioned_item_update t id expected change s ≡ ok (i, s')
      → (r : LearningItem C) × (find (fits t id expected) s.items ≡ some r)
        × (i ≡ bump change r)
        × (s' ≡ record s { items = update_first (fits t id expected) (bump change) s.items })
  unfolding apply_versioned_item_update
  apply_versioned_item_update-eq-ok t id expected change s h =
      let (r, found, rest) = bind-eq-ok (require_some _ (find (fits t id expected) s.items)) _ h in
      (r, require_some-eq-ok _ _ found, cc, cc)

  Written-Past :
      (t : Text) (id v : ℕ) {s s' : State C}
      → Written s s'
      → All (Past t id v) s.items
      → All (Past t id v) s'.items
  Written-Past t id v same h = h
  Written-Past t id v (row {s = s} t' id' change i keep e rest) h =
      let (r, found, i_eq, s_eq) = update_item_row-eq-ok t' id' change s e in
      Written-Past t id v rest (
        rw s_eq (
          All-update_first (Past t id v) (is_item t' id') (bump change) s.items
            (Past-bump change keep t id v) h))
  Written-Past t id v (versioned {s = s} t' id' expected change i keep e rest) h =
      let (r, found, i_eq, s_eq) = apply_versioned_item_update-eq-ok t' id' expected change s e in
      Written-Past t id v rest (
        rw s_eq (
          All-update_first (Past t id v) (fits t' id' expected) (bump change) s.items
            (Past-bump change keep t id v) h))

  fits-Past :
      (t : Text) (id v : ℕ) (i : LearningItem C) → Past t id v i → fits t id (some v) i ≡ false
  fits-Past t id v i h = ground (arith, h)

  refused :
      (t : Text) (id v : ℕ) (other : LearningItem C → LearningItem C) (u : State C)
      → All (Past t id v) u.items
      → apply_versioned_item_update t id (some v) other u ≡ err stale_revision
  unfolding apply_versioned_item_update
  refused t id v other u h =
      rw (find-none (fits t id (some v)) u.items (All-imp (fits-Past t id v) u.items h)) refl

  -- After an update that expected a revision, and whatever writes to items follow, every other
  -- update that expects the same revision of the item is refused as stale, where ids are unique.
  pub apply_versioned_item_update-stale :
      (t : Text) (id v : ℕ) (change other : LearningItem C → LearningItem C) (s s' s'' : State C)
      (i : LearningItem C)
      → HasKeys s
      → KeepsKey change
      → apply_versioned_item_update t id (some v) change s ≡ ok (i, s')
      → Written s' s''
      → apply_versioned_item_update t id (some v) other s'' ≡ err stale_revision
  apply_versioned_item_update-stale t id v change other s s' s'' i keys keep e writes =
      refused t id v other s'' (Written-Past t id v writes past)
    where
      past : All (Past t id v) s'.items
      past =
          let (r, found, i_eq, s_eq) = apply_versioned_item_update-eq-ok t id (some v) change s e in
          let at_v : fits t id (some v) r ≡ true = find-test (fits t id (some v)) s.items found in
          rw s_eq (
            All-key (λ y. v < y.version) (is_item t id) (fits t id (some v)) (bump change) s.items r
              (λ y k. ground arith) (keys t id) found (ground (arith, at_v)))
