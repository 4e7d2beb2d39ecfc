-- ===== src/Sync/Students.antt =====
-- `applyStudent` of apps/api/src/sync/sync-item-application.service.ts. An error is a write that the
-- unique keys of the enrollments refuse.
use edupay_academico.Prelude.{
  ℕ, ◌+◌, Bool, true, false, not, Option, none, some, List, ◌∷◌, Text, text_eq, ◌&&◌, ◌||◌, ◌==◌,
  find, any, update_first, if◌then◌else◌, Result, ok, err, ◌>>=◌,
}
use edupay_academico.Learning.{CourseStatus}
use edupay_academico.Sync.{
  Course, Student, CourseEnrollment, State, ItemContext, unchanged, AppliedItemResult,
  source_course_mapping_missing, source_course_not_active, manual_enrollment_conflict,
  source_enrollment_identity_conflict, deactivate, count, course_status_eq,
}
use edupay_academico.Sync.Courses.{has_course_key}
use edupay_academico.Sync.StudentRows.{
  EduPayStudentItem, Refusal, enrollment_reference, has_enrollment_key, has_student_key, id_of,
  id_or_null, is_active_by, is_enrollment, is_mapped_active, is_newer, item_conflict, manual,
  put_student, refers_elsewhere, student_change, unique_violation, was_active,
}

-- The item of a student who is not active: all enrollments by the source end.
unfoldable pub end_student :
    (now new_id : ℕ)
    → ItemContext
    → EduPayStudentItem
    → Option Student
    → State
    → State × AppliedItemResult
end_student now new_id context item current s =
    let ending = is_active_by context.tenant_id context.source (id_of new_id current) in
    (
      record s {
        students = put_student now new_id context item current s.students;
        enrollments = deactivate now ending s.enrollments;
      },
      record {
        change = student_change item current;
        deactivated = count ending s.enrollments + (if was_active current then 1 else 0);
        error = none;
        target_id = some (id_of new_id current);
      },
    )

-- The unique index on the active enrollments of a student in a course
abbrev pub has_active : Text → (student_id course_id : ℕ) → List CourseEnrollment → Bool
has_active tenant_id student_id course_id es =
    any
      (λ e.
        text_eq e.tenant_id tenant_id
        && e.student_id == student_id
        && e.course_id == course_id
        && e.is_active)
      es

abbrev pub activate : ℕ → CourseEnrollment → CourseEnrollment
activate now e = record e { is_active = true; last_synced_at = some now }

-- `courseEnrollment.update` of the historical row, or `courseEnrollment.create`
unfoldable pub put_enrollment :
    (now new_id : ℕ)
    → ItemContext
    → (reference : Text) → (student_id course_id : ℕ) → (historical : Option CourseEnrollment)
    → List CourseEnrollment
    → Result Refusal (List CourseEnrollment)
put_enrollment now new_id context reference student_id course_id none es =
    if any (has_enrollment_key context reference) es
      || has_active context.tenant_id student_id course_id es
    then err unique_violation
    else ok (
        (record {
          tenant_id = context.tenant_id;
          id = new_id;
          student_id = student_id;
          course_id = course_id;
          source = context.source;
          external_reference = some reference;
          is_active = true;
          last_synced_at = some now;
        })
        ∷ es)
put_enrollment now new_id context reference student_id course_id (some h) es =
    if not h.is_active && has_active context.tenant_id student_id course_id es
    then err unique_violation
    else ok (update_first (is_enrollment context.tenant_id h.id) (activate now) es)

-- The student is written, other enrollments by the source end, and the one in the course is active.
unfoldable pub enroll_student :
    (now new_id new_enrollment_id : ℕ)
    → ItemContext
    → EduPayStudentItem
    → (current : Option Student) → (historical : Option CourseEnrollment) → Course
    → State
    → Result Refusal (State × AppliedItemResult)
unfolding put_enrollment
enroll_student now new_id new_enrollment_id context item current historical course s = do
  let reference = enrollment_reference item.integration_id item.course_integration_id
  let ending = λ (e : CourseEnrollment).
      is_active_by context.tenant_id context.source (id_of new_id current) e
      && refers_elsewhere reference e.external_reference
  es ←
      put_enrollment now new_enrollment_id context reference (id_of new_id current) course.id
        historical (deactivate now ending s.enrollments)
  ok (
    record s {
      students = put_student now new_id context item current s.students;
      enrollments = es;
    },
    record {
      change = student_change item current;
      deactivated = count ending s.enrollments;
      error = none;
      target_id = some (id_of new_id current);
    },
  )

-- `manualEnrollment`
abbrev pub has_manual : ItemContext → Option Student → State → Bool
has_manual context none s = false
has_manual context (some p) s = any (is_active_by context.tenant_id manual p.id) s.enrollments

abbrev pub find_historical : ItemContext → Text → Option Student → State → Option CourseEnrollment
find_historical context reference none s = none
find_historical context reference (some p) s =
    find (has_enrollment_key context reference) s.enrollments

-- The historical row is of another student or course.
abbrev pub is_foreign : Option Student → Course → Option CourseEnrollment → Bool
is_foreign current course none = false
is_foreign none course (some h) = true
is_foreign (some p) course (some h) = not (h.student_id == p.id) || not (h.course_id == course.id)

-- The item of an active student, with the course that it names
unfoldable pub place_student :
    (now new_id new_enrollment_id : ℕ)
    → ItemContext
    → EduPayStudentItem
    → (current : Option Student) → (course : Option Course) → State
    → Result Refusal (State × AppliedItemResult)
unfolding enroll_student
place_student now new_id new_enrollment_id context item current none s =
    ok (s, item_conflict (id_or_null current) source_course_mapping_missing)
place_student now new_id new_enrollment_id context item current (some course) s =
    let reference = enrollment_reference item.integration_id item.course_integration_id in
    let historical = find_historical context reference current s in
    if not (course.academic_year_id == context.academic_year_id)
      || not (course_status_eq course.status CourseStatus.active)
    then ok (s, item_conflict (id_or_null current) source_course_not_active)
    else if has_manual context current s
    then ok (s, item_conflict (id_or_null current) manual_enrollment_conflict)
    else if is_foreign current course historical
    then ok (s, item_conflict (id_or_null current) source_enrollment_identity_conflict)
    else enroll_student now new_id new_enrollment_id context item current historical course s

unfoldable pub apply_student :
    (now new_id new_enrollment_id : ℕ)
    → ItemContext
    → EduPayStudentItem
    → State
    → Result Refusal (State × AppliedItemResult)
unfolding end_student place_student
apply_student now new_id new_enrollment_id context item s =
    let current = find (has_student_key context item.integration_id) s.students in
    if is_newer item current
    then ok (
      s,
      record { change = unchanged; deactivated = 0; error = none; target_id = id_or_null current },
    )
    else if is_mapped_active item
    then place_student now new_id new_enrollment_id context item current
        (find (has_course_key context item.course_integration_id) s.courses) s
    else ok (end_student now new_id context item current s)
