-- ===== src/Visibility/Windows.antt =====
-- How the visibility of apps/api/src/learning/read/learning-visibility.policy.ts varies with time,
-- and its relation to the tests of apps/api/src/learning/learning.service.ts.
use edupay_academico.Prelude.{ℕ, ◌≤◌, ◌≡◌, true, Option, none, some, arith}
use edupay_academico.Visibility.{
  reached, begun, not_over, effective_published, unit_available_now, can_view_student_item,
  StudentItemVisibilityInput,
}

reached-later :
    (now later : ℕ) (at : Option ℕ) → now ≤ later → reached now at ≡ true → reached later at ≡ true
reached-later now later none l h = h
reached-later now later (some at) l h = ground arith

begun-later :
    (now later : ℕ) (at : Option ℕ) → now ≤ later → begun now at ≡ true → begun later at ≡ true
begun-later now later none l h = h
begun-later now later (some at) l h = ground arith

-- An item that students may see at one time is one that they may see at any later time at which the
-- unit is not over: the publication date and the start of the unit, once passed, stay passed.
pub can_view-later :
    (i : StudentItemVisibilityInput) (later : ℕ)
    → i.now ≤ later
    → not_over later i.unit.end_at ≡ true
    → can_view_student_item i ≡ true
    → can_view_student_item (record i { now = later }) ≡ true
unfolding can_view_student_item unit_available_now effective_published
can_view-later i later l h₁ h = ground (
  arith,
  reached-later i.now later i.item.publish_at l,
  begun-later i.now later i.unit.start_at l,
)
