-- ===== src/CourseBuilder.antt =====
-- apps/web/src/features/course-builder/types.ts and course-builder-reducer.ts, the reducer.
-- `C` stands for the fields of items and units that the reducer only passes on; an update's field
-- that is absent is `none`, and `content` is the effect of the update on those fields.
pub mod Reorder
pub mod Rollback
pub mod Items
pub mod Moves
mod Examples
use edupay_academico.Prelude.{
  includes, ℕ, Bool, true, false, Option, none, some, List, [], ◌∷◌, ◌++◌, map, ◌==◌, ◌!=◌, filter,
  find, any, not, Text, if◌then◌else◌,
}

pub data PublicationStatus : Type 0 where
  draft scheduled published archived : PublicationStatus

pub data UnitStatus : Type 0 where
  draft active archived : UnitStatus

pub record Item (C : Type 0) : Type 0 where
  pub id : ℕ
  pub learning_unit_id : ℕ
  pub publication_status : PublicationStatus
  pub content : C

-- `LearningUnitWithItems`
pub record UnitWithItems (C : Type 0) : Type 0 where
  pub id : ℕ
  pub status : UnitStatus
  pub content : C
  pub items : List (Item C)

pub data ActionType : Type 0 where
  reorder_items move_item reorder_units update_item update_unit archive_item : ActionType
  restore_item delete_item activate_unit archive_unit restore_unit : ActionType

pub record PendingCommand (C : Type 0) : Type 0 where
  pub id : ℕ
  pub action_type : ActionType
  pub previous_units : List (UnitWithItems C)

pub record State (C : Type 0) : Type 0 where
  pub units : List (UnitWithItems C)
  pub pending_commands : List (PendingCommand C)
  pub conflict_notice : Option Text
  pub is_syncing : Bool

-- `Partial<LearningItem>`
pub record ItemUpdates (C : Type 0) : Type 0 where
  pub id : Option ℕ
  pub learning_unit_id : Option ℕ
  pub publication_status : Option PublicationStatus
  pub content : C → C

-- `Partial<LearningUnitWithItems>`
pub record UnitUpdates (C : Type 0) : Type 0 where
  pub id : Option ℕ
  pub status : Option UnitStatus
  pub content : C → C
  pub items : Option (List (Item C))

-- The actions `OPTIMISTIC_…`, without their `commandId`.
pub data Edit (C : Type 0) : Type 0 where
  reorder_items : (unit_id : ℕ) → (ordered_ids : List ℕ) → Edit C
  move_item : (item_id source_unit_id target_unit_id : ℕ) → Edit C
  reorder_units : (ordered_ids : List ℕ) → Edit C
  update_item : (item_id : ℕ) → ItemUpdates C → Edit C
  update_unit : (unit_id : ℕ) → UnitUpdates C → Edit C
  archive_item : (item_id : ℕ) → Edit C
  restore_item : (item_id : ℕ) → Edit C
  delete_item : (item_id : ℕ) → Edit C
  activate_unit : (unit_id : ℕ) → Edit C
  archive_unit : (unit_id : ℕ) → Edit C
  restore_unit : (unit_id : ℕ) → Edit C

pub data Action (C : Type 0) : Type 0 where
  set_route : List (UnitWithItems C) → Action C
  optimistic : (command_id : ℕ) → Edit C → Action C
  confirm_command : (command_id : ℕ) → Option (List (UnitWithItems C)) → Action C
  rollback_command : (command_id : ℕ) → Action C
  set_conflict : Text → Action C
  clear_conflict : Action C
  set_syncing : Bool → Action C

abbrev pub override {ℓ} : {A : Type ℓ} → Option A → A → A
override none a = a
override (some b) a = b

module _ {ℓ} {A : Type ℓ} (key : A → ℕ) where
  -- `new Map(xs.map((x) => [x.id, x])).get(id)`: the last element with the id
  abbrev pub map_get : List A → ℕ → Option A
  map_get [] id = none
  map_get (x ∷ xs) id = elim (map_get xs id) [
    | none ↦ if key x == id then some x else none
    | some y ↦ some y
  ]

  abbrev pub found : List A → List ℕ → List A
  found xs [] = []
  found xs (id ∷ ids) = elim (map_get xs id) [ none ↦ found xs ids | some x ↦ x ∷ found xs ids ]

  -- The elements with the ordered ids in their order, and then the others.
  unfoldable pub reorder : List ℕ → List A → List A
  reorder ordered_ids xs =
      found xs ordered_ids ++ filter (λ x. not (includes ordered_ids (key x))) xs

module _ {C : Type 0} where
  abbrev pub apply_item_updates : ItemUpdates C → Item C → Item C
  apply_item_updates u item = record {
    id = override u.id item.id;
    learning_unit_id = override u.learning_unit_id item.learning_unit_id;
    publication_status = override u.publication_status item.publication_status;
    content = u.content item.content;
  }

  abbrev pub apply_unit_updates : UnitUpdates C → UnitWithItems C → UnitWithItems C
  apply_unit_updates u unit = record {
    id = override u.id unit.id;
    status = override u.status unit.status;
    content = u.content unit.content;
    items = override u.items unit.items;
  }

  -- `state.units.map((unit) => unit.id === id ? f(unit) : unit)`
  abbrev pub on_unit :
      ℕ → (UnitWithItems C → UnitWithItems C) → List (UnitWithItems C) → List (UnitWithItems C)
  on_unit id f = map (λ u. if u.id == id then f u else u)

  -- The same for the items of every unit.
  abbrev pub with_item : ℕ → (Item C → Item C) → UnitWithItems C → UnitWithItems C
  with_item id f u = record u {
    items = map (λ item. if item.id == id then f item else item) u.items;
  }

  abbrev pub on_item : ℕ → (Item C → Item C) → List (UnitWithItems C) → List (UnitWithItems C)
  on_item id f = map (with_item id f)

  -- `movedItem`: the item as the last unit with the source's id holds it, in the target unit
  pub moved_item : ℕ → ℕ → ℕ → List (UnitWithItems C) → Option (Item C)
  moved_item item_id source target [] = none
  moved_item item_id source target (u ∷ us) = elim (moved_item item_id source target us) [
    | some item ↦ some item
    | none ↦
        if u.id == source
        then elim (find (λ item. item.id == item_id) u.items) [
          | none ↦ none
          | some item ↦ some (record item { learning_unit_id = target })
        ]
        else none
  ]

  pub without_item : ℕ → UnitWithItems C → UnitWithItems C
  without_item item_id u = record u { items = filter (λ item. item.id != item_id) u.items }

  -- The units after an optimistic action, or `none` where the reducer returns the state itself.
  unfoldable pub edit_units : Edit C → List (UnitWithItems C) → Option (List (UnitWithItems C))
  unfolding moved_item without_item
  edit_units (reorder_items unit_id ordered_ids) units = some (
      on_unit unit_id (λ u. record u { items = reorder (λ item. item.id) ordered_ids u.items })
        units)
  edit_units (move_item item_id source target) units =
      elim (moved_item item_id source target units) [
        | none ↦ none
        | some item ↦ some (
            on_unit target (λ u. record u { items = u.items ++ item ∷ [] })
              (on_unit source (without_item item_id) units))
      ]
  edit_units (reorder_units ordered_ids) units = some (reorder (λ u. u.id) ordered_ids units)
  edit_units (update_item item_id updates) units =
      some (on_item item_id (apply_item_updates updates) units)
  edit_units (update_unit unit_id updates) units =
      some (on_unit unit_id (apply_unit_updates updates) units)
  edit_units (archive_item item_id) units =
      some (on_item item_id (λ item. record item { publication_status = archived }) units)
  edit_units (restore_item item_id) units =
      some (on_item item_id (λ item. record item { publication_status = draft }) units)
  edit_units (delete_item item_id) units = some (map (without_item item_id) units)
  edit_units (activate_unit unit_id) units =
      some (on_unit unit_id (λ u. record u { status = active }) units)
  edit_units (archive_unit unit_id) units =
      some (on_unit unit_id (λ u. record u { status = archived }) units)
  edit_units (restore_unit unit_id) units =
      some (on_unit unit_id (λ u. record u { status = draft }) units)

  abbrev pub action_type : Edit C → ActionType
  action_type (reorder_items u ids) = reorder_items
  action_type (move_item i s t) = move_item
  action_type (reorder_units ids) = reorder_units
  action_type (update_item i u) = update_item
  action_type (update_unit i u) = update_unit
  action_type (archive_item i) = archive_item
  action_type (restore_item i) = restore_item
  action_type (delete_item i) = delete_item
  action_type (activate_unit i) = activate_unit
  action_type (archive_unit i) = archive_unit
  action_type (restore_unit i) = restore_unit

  abbrev pub without_command : ℕ → List (PendingCommand C) → List (PendingCommand C)
  without_command command_id = filter (λ c. c.id != command_id)

  unfoldable pub course_builder_reducer : State C → Action C → State C
  unfolding edit_units
  course_builder_reducer s (set_route units) = record s { units = units }
  course_builder_reducer s (optimistic command_id edit) = elim (edit_units edit s.units) [
    | none ↦ s
    | some next_units ↦ record s {
      pending_commands =
          s.pending_commands
          ++ record { id = command_id; action_type = action_type edit; previous_units = s.units }
            ∷ [];
      units = next_units;
    }
  ]
  course_builder_reducer s (confirm_command command_id consolidated_units) = record s {
    pending_commands = without_command command_id s.pending_commands;
    units = override consolidated_units s.units;
  }
  course_builder_reducer s (rollback_command command_id) =
      elim (find (λ c. c.id == command_id) s.pending_commands) [
        | none ↦ s
        | some c ↦ record s {
          pending_commands = without_command command_id s.pending_commands;
          units = c.previous_units;
        }
      ]
  course_builder_reducer s (set_conflict message) = record s { conflict_notice = some message }
  course_builder_reducer s clear_conflict = record s { conflict_notice = none }
  course_builder_reducer s (set_syncing b) = record s { is_syncing = b }
