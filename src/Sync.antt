-- ===== src/Sync.antt =====
-- apps/api/src/sync/sync-item-application.service.ts: the items of EduPay applied to the courses,
-- students and enrollments of a tenant (apps/api/prisma/schema.prisma). Each is one transaction.
pub mod Courses
pub mod Replay
pub mod Late
pub mod StudentRows
pub mod Students
pub mod Placed
pub mod Enrolled
pub mod Drain
mod Examples
use edupay_academico.Prelude.{
  ℕ, Bool, true, false, not, Option, none, some, List, [], ◌∷◌, map, filter, length, Text, text_eq,
  ◌&&◌, ◌==◌, ltb, if◌then◌else◌,
}
use edupay_academico.Learning.{CourseStatus}

-- `sourceStatus`, and the status that EduPay gives a student
pub data SourceStatus : Type 0 where
  deleted active inactive graduated : SourceStatus

abbrev pub source_status_eq : SourceStatus → SourceStatus → Bool
source_status_eq deleted deleted = true
source_status_eq active active = true
source_status_eq inactive inactive = true
source_status_eq graduated graduated = true
source_status_eq _ _ = false

pub record Course : Type 0 where
  pub tenant_id : Text
  pub id : ℕ
  pub academic_year_id : ℕ
  pub source : Text
  pub external_reference : Option Text
  pub label : Text
  pub status : CourseStatus
  pub source_updated_at : Option ℕ
  pub last_synced_at : Option ℕ
  pub source_status : Option SourceStatus

pub data PersonStatus : Type 0 where
  active inactive : PersonStatus

pub record Student : Type 0 where
  pub tenant_id : Text
  pub id : ℕ
  pub source : Text
  pub external_reference : Option Text
  pub first_name : Text
  pub last_name : Text
  pub status : PersonStatus
  pub source_updated_at : Option ℕ
  pub last_synced_at : Option ℕ
  pub source_status : Option SourceStatus

pub record CourseEnrollment : Type 0 where
  pub tenant_id : Text
  pub id : ℕ
  pub student_id : ℕ
  pub course_id : ℕ
  pub source : Text
  pub external_reference : Option Text
  pub is_active : Bool
  pub last_synced_at : Option ℕ

pub record State : Type 0 where
  pub courses : List Course
  pub students : List Student
  pub enrollments : List CourseEnrollment

pub record ItemContext : Type 0 where
  pub academic_year_id : ℕ
  pub source : Text
  pub tenant_id : Text

pub data Change : Type 0 where
  created updated unchanged : Change

pub data SyncError : Type 0 where
  source_course_academic_year_conflict source_course_mapping_missing : SyncError
  source_course_not_active manual_enrollment_conflict : SyncError
  source_enrollment_identity_conflict : SyncError

pub record AppliedItemResult : Type 0 where
  pub change : Change
  pub deactivated : ℕ
  pub error : Option SyncError
  pub target_id : Option ℕ

-- `externalReference: reference` in a `where`; NULL is equal to nothing.
abbrev pub refers_to : Text → Option Text → Bool
refers_to reference none = false
refers_to reference (some t) = text_eq t reference

-- `sourceUpdatedAt && sourceUpdatedAt > updatedAt`
abbrev pub is_after : Option ℕ → ℕ → Bool
is_after none at = false
is_after (some t) at = ltb at t

abbrev pub is_at : Option ℕ → ℕ → Bool
is_at none at = false
is_at (some t) at = t == at

abbrev pub has_source_status : Option SourceStatus → SourceStatus → Bool
has_source_status none status = false
has_source_status (some s) status = source_status_eq s status

abbrev pub course_status_eq : CourseStatus → CourseStatus → Bool
course_status_eq CourseStatus.draft CourseStatus.draft = true
course_status_eq CourseStatus.active CourseStatus.active = true
course_status_eq CourseStatus.archived CourseStatus.archived = true
course_status_eq _ _ = false

-- `courseEnrollment.updateMany` to INACTIVE: the rows, and how many there were.
abbrev pub end_row : ℕ → (CourseEnrollment → Bool) → CourseEnrollment → CourseEnrollment
end_row now p e = if p e then record e { is_active = false; last_synced_at = some now } else e

abbrev pub deactivate :
    ℕ → (CourseEnrollment → Bool) → List CourseEnrollment → List CourseEnrollment
deactivate now p es = map (end_row now p) es

abbrev pub count : (CourseEnrollment → Bool) → List CourseEnrollment → ℕ
count p es = length (filter p es)

-- Prisma's codes of what a write throws
pub data Thrown : Type 0 where
  p2002 p2003 other : Thrown

pub data SafeErrorCode : Type 0 where
  source_external_identity_conflict source_relationship_scope_conflict : SafeErrorCode
  sync_item_application_failed : SafeErrorCode

abbrev pub safe_sync_item_error_code : Thrown → SafeErrorCode
safe_sync_item_error_code p2002 = source_external_identity_conflict
safe_sync_item_error_code p2003 = source_relationship_scope_conflict
safe_sync_item_error_code other = sync_item_application_failed
