-- ===== src/CourseBuilder/Examples.antt =====
-- Tests of the reducer, and its theorems on a board of two units.
use mathlib.Core.List.{Perm}
use edupay_academico.Prelude.{ℕ, ◌≡◌, refl, false, none, some, List, [], ◌∷◌, arith}
use edupay_academico.CourseBuilder.{
  PublicationStatus, UnitStatus, Item, UnitWithItems, State, reorder_items, move_item, archive_item,
  delete_item, optimistic, rollback_command, confirm_command, reorder, edit_units,
  course_builder_reducer,
}
use edupay_academico.CourseBuilder.Items.{all_of, all_ids}
use edupay_academico.CourseBuilder.Reorder.{reorder-perm}
use edupay_academico.CourseBuilder.Rollback.{rollback-optimistic, rollback-rollback_first}
use edupay_academico.CourseBuilder.Moves.{kept, edit_units-move_perm, edit_units-move_lost}

abbrev item : ℕ → ℕ → Item ℕ
item id unit = record {
  id = id;
  learning_unit_id = unit;
  publication_status = PublicationStatus.published;
  content = id;
}

abbrev unit : ℕ → List (Item ℕ) → UnitWithItems ℕ
unit id items = record { id = id; status = UnitStatus.active; content = id; items = items }

abbrev board : List (UnitWithItems ℕ)
board = unit 1 (item 11 1 ∷ item 12 1 ∷ item 13 1 ∷ []) ∷ unit 2 (item 21 2 ∷ []) ∷ []

abbrev state : State ℕ
state = record { units = board; pending_commands = []; conflict_notice = none; is_syncing = false }

abbrev archived_item : Item ℕ
archived_item = record (item 21 2) { publication_status = PublicationStatus.archived }

reducing : Unit {0}
unfolding course_builder_reducer edit_units reorder
reducing = tt

reducer_tests :
    ((course_builder_reducer state (optimistic 7 (reorder_items 1 (13 ∷ 99 ∷ 11 ∷ [])))).units
      ≡ unit 1 (item 13 1 ∷ item 11 1 ∷ item 12 1 ∷ []) ∷ unit 2 (item 21 2 ∷ []) ∷ [])
    × (edit_units (move_item 12 1 2) board
        ≡ some (unit 1 (item 11 1 ∷ item 13 1 ∷ []) ∷ unit 2 (item 21 2 ∷ item 12 2 ∷ []) ∷ []))
    × (edit_units (archive_item 21) board
        ≡ some (unit 1 (item 11 1 ∷ item 12 1 ∷ item 13 1 ∷ []) ∷ unit 2 (archived_item ∷ []) ∷ []))
    × (course_builder_reducer
          (course_builder_reducer state (optimistic 7 (delete_item 21)))
          (confirm_command 7 (some []))
        ≡ record state { units = [] })
unfolding reducing
reducer_tests = (refl, refl, refl, refl)

reorder-perm_example :
    Perm (reorder (λ (i : ℕ). i) (3 ∷ 9 ∷ 1 ∷ []) (1 ∷ 2 ∷ 3 ∷ [])) (1 ∷ 2 ∷ 3 ∷ [])
reorder-perm_example =
    reorder-perm (λ (i : ℕ). i) (3 ∷ 9 ∷ 1 ∷ []) (1 ∷ 2 ∷ 3 ∷ []) (refl, (refl, (refl, tt)))
      (omega arith)

rollback-optimistic_example :
    course_builder_reducer
      (course_builder_reducer state (optimistic 7 (move_item 12 1 2)))
      (rollback_command 7)
    ≡ state
rollback-optimistic_example = rollback-optimistic state 7 (move_item 12 1 2) tt

rollback-rollback_first_example :
    course_builder_reducer
      (course_builder_reducer
        (course_builder_reducer
          (course_builder_reducer state (optimistic 7 (move_item 12 1 2)))
          (optimistic 8 (delete_item 21)))
        (rollback_command 7))
      (rollback_command 8)
    ≡ record state {
      units = unit 1 (item 11 1 ∷ item 13 1 ∷ []) ∷ unit 2 (item 21 2 ∷ item 12 2 ∷ []) ∷ [];
    }
unfolding reducing
rollback-rollback_first_example =
    rollback-rollback_first state 7 8 (move_item 12 1 2) (delete_item 21) _ _ tt tt (omega arith)
      refl refl

edit_units-move_perm_example :
    Perm
      (all_of kept (unit 1 (item 11 1 ∷ item 13 1 ∷ []) ∷ unit 2 (item 21 2 ∷ item 12 2 ∷ []) ∷ []))
      (all_of kept board)
unfolding reducing
edit_units-move_perm_example = edit_units-move_perm 12 1 2 board _ (omega arith) refl refl

edit_units-move_lost_example :
    Perm
      (12 ∷ all_ids (unit 1 (item 11 1 ∷ item 13 1 ∷ []) ∷ unit 2 (item 21 2 ∷ []) ∷ []))
      (all_ids board)
unfolding reducing
edit_units-move_lost_example = edit_units-move_lost 12 1 3 board _ (omega arith) (omega arith) refl
