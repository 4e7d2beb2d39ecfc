-- ===== src/Sync/Courses.antt =====
-- `applyCourse` of apps/api/src/sync/sync-item-application.service.ts.
use edupay_academico.Prelude.{
  ℕ, ◌+◌, Bool, not, Option, none, some, ◌∷◌, Text, text_eq, ◌&&◌, ◌||◌, ◌==◌, find, update_first,
  if◌then◌else◌,
}
use edupay_academico.Learning.{CourseStatus, is_course_archived}
use edupay_academico.Sync.{
  Course, CourseEnrollment, State, ItemContext, Change, created, updated, unchanged, SourceStatus,
  AppliedItemResult, source_course_academic_year_conflict, refers_to, is_after, is_at,
  has_source_status, course_status_eq, deactivate, count,
}

pub record EduPayCourseItem : Type 0 where
  pub integration_id : Text
  pub name : Text
  pub updated_at : ℕ
  pub is_deleted : Bool

abbrev pub source_status_of : EduPayCourseItem → SourceStatus
source_status_of item = if item.is_deleted then SourceStatus.deleted else SourceStatus.active

abbrev pub course_status_of : EduPayCourseItem → CourseStatus
course_status_of item = if item.is_deleted then CourseStatus.archived else CourseStatus.active

-- `tenantId_source_externalReference`
abbrev pub has_course_key : ItemContext → Text → Course → Bool
has_course_key context reference c =
    text_eq c.tenant_id context.tenant_id
    && text_eq c.source context.source
    && refers_to reference c.external_reference

abbrev pub is_course : Text → ℕ → Course → Bool
is_course tenant_id id c = text_eq c.tenant_id tenant_id && c.id == id

abbrev pub write_course : ℕ → EduPayCourseItem → Course → Course
write_course now item c = record c {
  label = item.name;
  status = course_status_of item;
  source_updated_at = some item.updated_at;
  last_synced_at = some now;
  source_status = some (source_status_of item);
}

abbrev pub new_course : (now new_id : ℕ) → ItemContext → EduPayCourseItem → Course
new_course now new_id context item = record {
  tenant_id = context.tenant_id;
  id = new_id;
  academic_year_id = context.academic_year_id;
  source = context.source;
  external_reference = some item.integration_id;
  label = item.name;
  status = course_status_of item;
  source_updated_at = some item.updated_at;
  last_synced_at = some now;
  source_status = some (source_status_of item);
}

abbrev pub course_differs : EduPayCourseItem → Course → Bool
course_differs item c =
    not (text_eq c.label item.name)
    || not (course_status_eq c.status (course_status_of item))
    || not (has_source_status c.source_status (source_status_of item))
    || not (is_at c.source_updated_at item.updated_at)

-- The active enrollments of the source in the course
abbrev pub is_in_course : ItemContext → ℕ → CourseEnrollment → Bool
is_in_course context course_id e =
    text_eq e.tenant_id context.tenant_id
    && e.course_id == course_id
    && text_eq e.source context.source
    && e.is_active

-- What follows the write of the course: an archived course ends its enrollments.
unfoldable pub finish_course :
    ℕ
    → ItemContext
    → EduPayCourseItem
    → (target_id : ℕ) → Change
    → (course_deactivated : ℕ) → State
    → State × AppliedItemResult
finish_course now context item target_id change course_deactivated s =
    if is_course_archived (course_status_of item)
    then (
      record s { enrollments = deactivate now (is_in_course context target_id) s.enrollments },
      record {
        change = change;
        deactivated = course_deactivated + count (is_in_course context target_id) s.enrollments;
        error = none;
        target_id = some target_id;
      },
    )
    else (
      s,
      record {
        change = change;
        deactivated = course_deactivated;
        error = none;
        target_id = some target_id;
      },
    )

unfoldable pub sync_course :
    (now new_id : ℕ)
    → ItemContext
    → EduPayCourseItem
    → (current : Option Course) → State
    → State × AppliedItemResult
unfolding finish_course
sync_course now new_id context item none s =
    finish_course now context item new_id created
      (if is_course_archived (course_status_of item) then 1 else 0)
      (record s { courses = new_course now new_id context item ∷ s.courses })
sync_course now new_id context item (some current) s =
    if not (current.academic_year_id == context.academic_year_id)
    then (
      s,
      record {
        change = unchanged;
        deactivated = 0;
        error = some source_course_academic_year_conflict;
        target_id = some current.id;
      },
    )
    else if is_after current.source_updated_at item.updated_at
    then (
      s,
      record { change = unchanged; deactivated = 0; error = none; target_id = some current.id },
    )
    else finish_course now context item current.id
        (if course_differs item current then updated else unchanged)
        (if not (is_course_archived current.status) && is_course_archived (course_status_of item)
          then 1
          else 0)
        (record s {
          courses =
              update_first (is_course context.tenant_id current.id) (write_course now item)
                s.courses;
        })

unfoldable pub apply_course :
    (now new_id : ℕ) → ItemContext → EduPayCourseItem → State → State × AppliedItemResult
unfolding sync_course
apply_course now new_id context item s =
    sync_course now new_id context item
      (find (has_course_key context item.integration_id) s.courses) s
