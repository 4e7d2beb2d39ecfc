-- ===== src/Visibility.antt =====
-- What a student may read and a teacher may edit:
-- apps/api/src/learning/read/learning-visibility.policy.ts with the rows of learning-read.types.ts,
-- and the tests of apps/api/src/learning/learning.service.ts on units and items.
-- Dates are milliseconds since the epoch.
pub mod Windows
pub mod Tenants
mod Examples
use edupay_academico.Prelude.{
  ℕ, Bool, true, false, not, Option, none, some, List, ◌&&◌, ◌||◌, leb, Text, text_eq,
  if◌then◌else◌,
}
use edupay_academico.Access.{IdentityRole, has_role, system_admin, tenant_admin, teacher}

-- `AcademicLifecycleStatus` is 'ACTIVE' or another string.
pub data LifecycleStatus : Type 0 where
  active : LifecycleStatus
  other : Text → LifecycleStatus

abbrev pub is_active : LifecycleStatus → Bool
is_active active = true
is_active (other _) = false

pub data CourseSubjectStatus : Type 0 where
  active archived : CourseSubjectStatus

abbrev pub is_active_subject : CourseSubjectStatus → Bool
is_active_subject active = true
is_active_subject archived = false

pub data UnitStatus : Type 0 where
  draft active archived : UnitStatus

abbrev pub is_active_unit : UnitStatus → Bool
is_active_unit active = true
is_active_unit _ = false

pub data PublicationStatus : Type 0 where
  draft scheduled published archived : PublicationStatus

abbrev pub is_published : PublicationStatus → Bool
is_published published = true
is_published _ = false

abbrev pub is_scheduled : PublicationStatus → Bool
is_scheduled scheduled = true
is_scheduled _ = false

abbrev pub is_archived : PublicationStatus → Bool
is_archived archived = true
is_archived _ = false

-- The fields of the rows that the policy reads.
pub record CourseSubjectRow : Type 0 where
  pub id : Text
  pub tenant_id : Text
  pub course_id : Text
  pub status : CourseSubjectStatus
  pub course_status : LifecycleStatus
  pub academic_year_status : LifecycleStatus

pub record UnitRow : Type 0 where
  pub id : Text
  pub tenant_id : Text
  pub course_subject_id : Text
  pub start_at : Option ℕ
  pub end_at : Option ℕ
  pub status : UnitStatus

pub record ItemRow : Type 0 where
  pub id : Text
  pub tenant_id : Text
  pub course_subject_id : Text
  pub learning_unit_id : Text
  pub publication_status : PublicationStatus
  pub publish_at : Option ℕ

pub record StudentRow : Type 0 where
  pub tenant_id : Text
  pub status : LifecycleStatus

-- An enrollment in a course or in a subject of a course; `target_id` is `courseId` or
-- `courseSubjectId`.
pub record Enrollment : Type 0 where
  pub tenant_id : Text
  pub target_id : Text
  pub status : LifecycleStatus

pub record StudentReadEligibility : Type 0 where
  pub student : StudentRow
  pub course_enrollment : Option Enrollment
  pub subject_enrollment : Option Enrollment

-- `date !== null && date <= now`, and `date === null || date <= now`
abbrev pub reached : ℕ → Option ℕ → Bool
reached now none = false
reached now (some at) = leb at now

abbrev pub begun : ℕ → Option ℕ → Bool
begun now none = true
begun now (some at) = leb at now

abbrev pub not_over : ℕ → Option ℕ → Bool
not_over now none = true
not_over now (some at) = leb now at

unfoldable pub effective_published : ItemRow → ℕ → Bool
effective_published item now =
    is_published item.publication_status
    || (is_scheduled item.publication_status && reached now item.publish_at)

-- One of the two disjuncts of `enrollmentEligible`.
unfoldable pub enrollment_holds : Text → Text → Option Enrollment → Bool
enrollment_holds trusted_tenant_id target none = false
enrollment_holds trusted_tenant_id target (some e) =
    text_eq e.tenant_id trusted_tenant_id && text_eq e.target_id target && is_active e.status

unfoldable pub enrollment_eligible : Text → CourseSubjectRow → StudentReadEligibility → Bool
unfolding enrollment_holds
enrollment_eligible trusted_tenant_id subject eligibility =
    if not (text_eq eligibility.student.tenant_id trusted_tenant_id)
      || not (is_active eligibility.student.status)
      || not (text_eq subject.tenant_id trusted_tenant_id)
    then false
    else enrollment_holds trusted_tenant_id subject.course_id eligibility.course_enrollment
      || enrollment_holds trusted_tenant_id subject.id eligibility.subject_enrollment

unfoldable pub unit_available_now : UnitRow → ℕ → Bool
unit_available_now unit now =
    is_active_unit unit.status && begun now unit.start_at && not_over now unit.end_at

pub record StudentItemVisibilityInput : Type 0 where
  pub trusted_tenant_id : Text
  pub course_subject : CourseSubjectRow
  pub unit : UnitRow
  pub item : ItemRow
  pub now : ℕ
  pub enrollment_allowed : Bool

unfoldable pub can_view_student_item : StudentItemVisibilityInput → Bool
unfolding unit_available_now effective_published
can_view_student_item i =
    i.enrollment_allowed
    && text_eq i.course_subject.tenant_id i.trusted_tenant_id
    && text_eq i.unit.tenant_id i.trusted_tenant_id
    && text_eq i.item.tenant_id i.trusted_tenant_id
    && text_eq i.unit.course_subject_id i.course_subject.id
    && text_eq i.item.course_subject_id i.course_subject.id
    && text_eq i.item.learning_unit_id i.unit.id
    && is_active i.course_subject.academic_year_status
    && is_active i.course_subject.course_status
    && is_active_subject i.course_subject.status
    && unit_available_now i.unit i.now
    && not (is_archived i.item.publication_status)
    && effective_published i.item i.now

pub record TeacherAuthoringAccessInput : Type 0 where
  pub trusted_tenant_id : Text
  pub resource_tenant_id : Text
  pub roles : List IdentityRole
  pub elevated_support_context : Bool
  pub teacher_status : Option LifecycleStatus
  pub assignment_status : Option LifecycleStatus

-- `status === 'ACTIVE'` where the status may be missing
abbrev pub is_some_active : Option LifecycleStatus → Bool
is_some_active none = false
is_some_active (some s) = is_active s

unfoldable pub can_access_teacher_authoring : TeacherAuthoringAccessInput → Bool
can_access_teacher_authoring i =
    if not (text_eq i.trusted_tenant_id i.resource_tenant_id)
    then false
    else if has_role system_admin i.roles && i.elevated_support_context
    then true
    else if has_role tenant_admin i.roles
    then true
    else has_role teacher i.roles
      && is_some_active i.teacher_status
      && is_some_active i.assignment_status

-- `isVisibleUnit` and `isVisibleItem` of LearningService
unfoldable pub is_visible_unit : UnitRow → ℕ → Bool
is_visible_unit unit now =
    is_active_unit unit.status && begun now unit.start_at && not_over now unit.end_at

unfoldable pub is_visible_item : ItemRow → ℕ → Bool
is_visible_item item now =
    is_published item.publication_status
    || (is_scheduled item.publication_status && reached now item.publish_at)
