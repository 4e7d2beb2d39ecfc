-- ===== src/Sync/StudentRows.antt =====
-- The rows of students and enrollments that `applyStudent` of apps/api/src/sync/sync-item-application.service.ts
-- finds and writes.
use edupay_academico.Prelude.{
  ℕ, Bool, true, false, not, Option, none, some, List, [], ◌∷◌, ◌++◌, Text, text_eq, ◌&&◌, ◌||◌,
  ◌==◌, update_first, if◌then◌else◌,
}
use edupay_academico.Sync.{
  Student, PersonStatus, CourseEnrollment, ItemContext, Change, created, updated, unchanged,
  SourceStatus, AppliedItemResult, SyncError, refers_to, is_after, is_at, has_source_status,
}

pub data StudentStatus : Type 0 where
  active inactive graduated : StudentStatus

pub record EduPayStudentItem : Type 0 where
  pub integration_id : Text
  pub course_integration_id : Text
  pub first_name : Text
  pub last_name : Text
  pub status : StudentStatus
  pub updated_at : ℕ
  pub is_deleted : Bool

pub data Refusal : Type 0 where
  unique_violation : Refusal

abbrev pub is_active_status : StudentStatus → Bool
is_active_status StudentStatus.active = true
is_active_status _ = false

abbrev pub source_of : StudentStatus → SourceStatus
source_of StudentStatus.active = SourceStatus.active
source_of StudentStatus.inactive = SourceStatus.inactive
source_of StudentStatus.graduated = SourceStatus.graduated

-- `mappedStatus === 'ACTIVE'`
abbrev pub is_mapped_active : EduPayStudentItem → Bool
is_mapped_active item = not (item.is_deleted || not (is_active_status item.status))

abbrev pub mapped_status : EduPayStudentItem → PersonStatus
mapped_status item = if is_mapped_active item then PersonStatus.active else PersonStatus.inactive

abbrev pub student_source_status : EduPayStudentItem → SourceStatus
student_source_status item = if item.is_deleted then SourceStatus.deleted else source_of item.status

abbrev pub is_active_person : PersonStatus → Bool
is_active_person PersonStatus.active = true
is_active_person PersonStatus.inactive = false

abbrev pub person_status_eq : PersonStatus → PersonStatus → Bool
person_status_eq p q = if is_active_person p then is_active_person q else not (is_active_person q)

-- `student:${…}|course:${…}`
abbrev pub enrollment_reference : (student course : Text) → Text
enrollment_reference student course =
    (b's' ∷ b't' ∷ b'u' ∷ b'd' ∷ b'e' ∷ b'n' ∷ b't' ∷ b':' ∷ [])
    ++ (student ++ ((b'|' ∷ b'c' ∷ b'o' ∷ b'u' ∷ b'r' ∷ b's' ∷ b'e' ∷ b':' ∷ []) ++ course))

-- 'MANUAL'
abbrev pub manual : Text
manual = b'M' ∷ b'A' ∷ b'N' ∷ b'U' ∷ b'A' ∷ b'L' ∷ []

abbrev pub has_student_key : ItemContext → Text → Student → Bool
has_student_key context reference p =
    text_eq p.tenant_id context.tenant_id
    && text_eq p.source context.source
    && refers_to reference p.external_reference

abbrev pub is_student : Text → ℕ → Student → Bool
is_student tenant_id id p = text_eq p.tenant_id tenant_id && p.id == id

abbrev pub has_enrollment_key : ItemContext → Text → CourseEnrollment → Bool
has_enrollment_key context reference e =
    text_eq e.tenant_id context.tenant_id
    && text_eq e.source context.source
    && refers_to reference e.external_reference

abbrev pub is_enrollment : Text → ℕ → CourseEnrollment → Bool
is_enrollment tenant_id id e = text_eq e.tenant_id tenant_id && e.id == id

-- An active enrollment of the student by a source
abbrev pub is_active_by : Text → (source : Text) → (student_id : ℕ) → CourseEnrollment → Bool
is_active_by tenant_id source student_id e =
    text_eq e.tenant_id tenant_id
    && e.student_id == student_id
    && text_eq e.source source
    && e.is_active

-- `NOT: { externalReference }` does not hold of NULL.
abbrev pub refers_elsewhere : Text → Option Text → Bool
refers_elsewhere reference none = false
refers_elsewhere reference (some t) = not (text_eq t reference)

abbrev pub write_student : ℕ → EduPayStudentItem → Student → Student
write_student now item p = record p {
  first_name = item.first_name;
  last_name = item.last_name;
  status = mapped_status item;
  source_updated_at = some item.updated_at;
  last_synced_at = some now;
  source_status = some (student_source_status item);
}

abbrev pub new_student : (now new_id : ℕ) → ItemContext → EduPayStudentItem → Student
new_student now new_id context item = record {
  tenant_id = context.tenant_id;
  id = new_id;
  source = context.source;
  external_reference = some item.integration_id;
  first_name = item.first_name;
  last_name = item.last_name;
  status = mapped_status item;
  source_updated_at = some item.updated_at;
  last_synced_at = some now;
  source_status = some (student_source_status item);
}

abbrev pub student_differs : EduPayStudentItem → Student → Bool
student_differs item p =
    not (text_eq p.first_name item.first_name)
    || not (text_eq p.last_name item.last_name)
    || not (person_status_eq p.status (mapped_status item))
    || not (has_source_status p.source_status (student_source_status item))
    || not (is_at p.source_updated_at item.updated_at)

abbrev pub student_change : EduPayStudentItem → Option Student → Change
student_change item none = created
student_change item (some p) = if student_differs item p then updated else unchanged

abbrev pub id_of : ℕ → Option Student → ℕ
id_of new_id none = new_id
id_of new_id (some p) = p.id

abbrev pub id_or_null : Option Student → Option ℕ
id_or_null none = none
id_or_null (some p) = some p.id

-- `student.update` or `student.create`
abbrev pub put_student :
    (now new_id : ℕ)
    → ItemContext
    → EduPayStudentItem
    → Option Student
    → List Student
    → List Student
put_student now new_id context item none ps = new_student now new_id context item ∷ ps
put_student now new_id context item (some p) ps =
    update_first (is_student context.tenant_id p.id) (write_student now item) ps

abbrev pub was_active : Option Student → Bool
was_active none = false
was_active (some p) = is_active_person p.status

abbrev pub is_newer : EduPayStudentItem → Option Student → Bool
is_newer item none = false
is_newer item (some p) = is_after p.source_updated_at item.updated_at

-- `itemConflict`
abbrev pub item_conflict : Option ℕ → SyncError → AppliedItemResult
item_conflict target_id e = record {
  change = unchanged;
  deactivated = 0;
  error = some e;
  target_id = target_id;
}
