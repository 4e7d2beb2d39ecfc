-- ===== src/Submissions/Query.antt =====
-- The academic rows that apps/api/src/storage/submission.service.ts reads, and the test of
-- `requireEligibleVisibleItem`.
use edupay_academico.Prelude.{
  ℕ, Bool, true, false, Option, List, ◌&&◌, ◌||◌, ◌==◌, Text, text_eq, any,
}
use edupay_academico.Visibility.{
  UnitRow, PublicationStatus, is_published, is_scheduled, reached, is_active_unit, begun, not_over,
}

pub record StudentRow : Type 0 where
  pub tenant_id : Text
  pub id : ℕ
  pub identity_user_id : Text
  pub is_active : Bool

pub record TeacherRow : Type 0 where
  pub tenant_id : Text
  pub id : ℕ
  pub identity_user_id : Text
  pub is_active : Bool

pub data ItemType : Type 0 where
  material assignment assessment announcement : ItemType

-- A learning item with the unit it includes.
pub record Item : Type 0 where
  pub tenant_id : Text
  pub id : ℕ
  pub course_subject_id : ℕ
  pub type : ItemType
  pub publication_status : PublicationStatus
  pub publish_at : Option ℕ
  pub due_at : Option ℕ
  pub learning_unit : UnitRow

pub record Enrolled : Type 0 where
  pub student_id : ℕ
  pub is_active : Bool

-- A course subject with the enrollments in its course and in itself.
pub record CourseSubject : Type 0 where
  pub tenant_id : Text
  pub id : ℕ
  pub is_active : Bool
  pub default_for_course : Bool
  pub course_enrollments : List Enrolled
  pub direct_enrollments : List Enrolled

pub record Assignment : Type 0 where
  pub tenant_id : Text
  pub teacher_id : ℕ
  pub course_subject_id : ℕ
  pub is_active : Bool

pub record Academic : Type 0 where
  pub students : List StudentRow
  pub teachers : List TeacherRow
  pub items : List Item
  pub course_subjects : List CourseSubject
  pub assignments : List Assignment

abbrev pub is_submittable : ItemType → Bool
is_submittable assignment = true
is_submittable assessment = true
is_submittable _ = false

-- `enrollments: { some: { studentId, status: 'ACTIVE' } }`
abbrev pub is_enrolled : ℕ → List Enrolled → Bool
is_enrolled student_id = any (λ e. e.student_id == student_id && e.is_active)

-- The where of `courseSubject.findFirst`
unfoldable pub grants : Text → Item → ℕ → CourseSubject → Bool
grants tenant_id item student_id s =
    text_eq s.tenant_id tenant_id
    && s.id == item.course_subject_id
    && s.is_active
    && ((s.default_for_course && is_enrolled student_id s.course_enrollments)
        || is_enrolled student_id s.direct_enrollments)

unfoldable pub is_eligible_visible : Academic → Text → Item → ℕ → ℕ → Bool
unfolding grants
is_eligible_visible academic tenant_id item student_id now =
    any (grants tenant_id item student_id) academic.course_subjects
    && is_active_unit item.learning_unit.status
    && begun now item.learning_unit.start_at
    && not_over now item.learning_unit.end_at
    && (is_published item.publication_status
        || (is_scheduled item.publication_status && reached now item.publish_at))
