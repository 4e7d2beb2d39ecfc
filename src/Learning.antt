-- ===== src/Learning.antt =====
-- apps/api/src/learning/learning.service.ts: learning items, their versions and the revisions that
-- record each of them (apps/api/prisma/schema.prisma), and who may change them
-- (`requireCourseSubjectForMutation`, with apps/api/src/academic/academic-year.policy.ts).
-- `C` is what an item holds besides: the fields that these commands only pass on;
-- `updatedByIdentityUserId` is left out.
pub mod Writes
pub mod Commands
pub mod Reordering
pub mod ExactSet
pub mod Stale
pub mod Chronicle
pub mod History
pub mod Kept
pub mod Positions
mod Examples
use edupay_academico.Prelude.{
  ℕ, Bool, true, false, not, Option, none, some, List, Text, text_eq, ◌&&◌, ◌||◌, ◌==◌, find, any,
  Result, ok, err, ◌>>=◌, ◌>>◌, require, require_some, if◌then◌else◌,
}
use edupay_academico.Access.{
  TrustedIdentityPrincipal, TrustedTenantContext, has_role, tenant_admin, teacher, student,
  require_capability, manage_learning_content, Outcome, pass, deny,
}
use edupay_academico.Visibility.{PublicationStatus}
use edupay_academico.Preparation.{YearStatus}
use edupay_academico.Submissions.Query.{Academic, ItemType, is_enrolled}

pub record LearningItem (C : Type 0) : Type 0 where
  pub tenant_id : Text
  pub id : ℕ
  pub course_subject_id : ℕ
  pub learning_unit_id : ℕ
  pub type : ItemType
  pub content : C
  pub sort_order : ℕ
  pub publication_status : PublicationStatus
  pub publish_at : Option ℕ
  pub published_at : Option ℕ
  pub published_by : Option Text
  pub version : ℕ

pub data UnitStatus : Type 0 where
  draft active archived : UnitStatus

pub record LearningUnit : Type 0 where
  pub tenant_id : Text
  pub id : ℕ
  pub course_subject_id : ℕ
  pub status : UnitStatus
  pub version : ℕ

pub record LearningItemDraft (C : Type 0) : Type 0 where
  pub tenant_id : Text
  pub learning_item_id : ℕ
  pub content : C
  pub based_on_version : ℕ

pub data Operation : Type 0 where
  scheduled published unpublished archived reordered moved draft_discarded restored : Operation

-- The revisions of items; `snapshot` is the mapped item, `none` where it is of a draft.
pub record ContentRevision (C : Type 0) : Type 0 where
  pub tenant_id : Text
  pub entity_id : ℕ
  pub revision_number : ℕ
  pub operation : Operation
  pub snapshot : Option (LearningItem C)
  pub actor : Text

-- `createLearningPublicationIntent`
pub record PublicationIntent : Type 0 where
  pub tenant_id : Text
  pub learning_item_id : ℕ
  pub type : ItemType
  pub occurred_at : ℕ

pub record State (C : Type 0) : Type 0 where
  pub items : List (LearningItem C)
  pub units : List LearningUnit
  pub drafts : List (LearningItemDraft C)
  pub revisions : List (ContentRevision C)
  pub intents : List PublicationIntent

pub data Refusal : Type 0 where
  denied not_found conflict stale_revision unique_violation : Refusal

pub data CourseStatus : Type 0 where
  draft active archived : CourseStatus

-- A course subject with the status of its course and of the academic year.
pub record CourseSubjectStatus : Type 0 where
  pub tenant_id : Text
  pub id : ℕ
  pub is_active : Bool
  pub course_status : CourseStatus
  pub academic_year_status : YearStatus

-- A request of the actor to change content.
pub record RequestContext : Type 0 where
  pub principal : TrustedIdentityPrincipal
  pub tenant : TrustedTenantContext

unfoldable pub require_academic_year_mutable : YearStatus → Result Refusal (Unit {0})
require_academic_year_mutable YearStatus.closed = err conflict
require_academic_year_mutable YearStatus.archived = err conflict
require_academic_year_mutable _ = ok tt

abbrev pub is_course_archived : CourseStatus → Bool
is_course_archived CourseStatus.archived = true
is_course_archived _ = false

abbrev pub of_outcome : Outcome (Unit {0}) → Result Refusal (Unit {0})
of_outcome (pass u) = ok tt
of_outcome (deny r) = err denied

-- The tenant in which the manager works.
unfoldable pub manager_scope : RequestContext → Result Refusal Text
manager_scope context = do
  of_outcome (require_capability context.principal (some context.tenant) manage_learning_content)
  ok context.tenant.tenant_id

module _ (academic : Academic) (context : RequestContext) (tenant_id : Text) (subject_id : ℕ) where
  -- The teacher's assignment
  unfoldable pub read_as_teacher : Result Refusal (Unit {0})
  read_as_teacher = do
    t ← require_some denied (
        find
          (λ t.
            text_eq t.tenant_id tenant_id
            && text_eq t.identity_user_id context.principal.identity_user_id
            && t.is_active)
          academic.teachers)
    require denied (
        any
          (λ a.
            text_eq a.tenant_id tenant_id
            && a.teacher_id == t.id
            && a.course_subject_id == subject_id
            && a.is_active)
          academic.assignments)

  -- The student's enrollment
  unfoldable pub read_as_student : Result Refusal (Unit {0})
  read_as_student = do
    s ← require_some denied (
        find
          (λ s.
            text_eq s.tenant_id tenant_id
            && text_eq s.identity_user_id context.principal.identity_user_id
            && s.is_active)
          academic.students)
    require denied (
        any
          (λ c.
            text_eq c.tenant_id tenant_id
            && c.id == subject_id
            && c.is_active
            && ((c.default_for_course && is_enrolled s.id c.course_enrollments)
                || is_enrolled s.id c.direct_enrollments))
          academic.course_subjects)

  unfoldable pub require_course_subject_read : Result Refusal (Unit {0})
  unfolding read_as_teacher read_as_student
  require_course_subject_read =
      if has_role tenant_admin context.principal.roles
      then ok tt
      else if has_role teacher context.principal.roles
      then read_as_teacher
      else if has_role student context.principal.roles
      then read_as_student
      else err denied

  unfoldable pub require_course_subject_for_mutation :
      List CourseSubjectStatus → Result Refusal (Unit {0})
  unfolding require_course_subject_read require_academic_year_mutable
  require_course_subject_for_mutation subjects = do
    subject ←
        require_some not_found
          (find (λ c. text_eq c.tenant_id tenant_id && c.id == subject_id) subjects)
    if has_role tenant_admin context.principal.roles then ok tt else require_course_subject_read
    require conflict subject.is_active
    require_academic_year_mutable subject.academic_year_status
    require conflict (not (is_course_archived subject.course_status))
