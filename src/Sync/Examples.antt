-- ===== src/Sync/Examples.antt =====
-- Tests of applying items, and the theorems for a course and a student who changes it.
use edupay_academico.Prelude.{
  ◌≡◌, refl, true, false, none, some, [], ◌∷◌, ok, All, arith, ℕ, List, Option, Text, Result, err,
}
use edupay_academico.Learning.{CourseStatus}
use edupay_academico.Sync.{
  Course, Student, PersonStatus, CourseEnrollment, State, ItemContext, AppliedItemResult,
  SourceStatus, updated, manual_enrollment_conflict,
}
use edupay_academico.Sync.Courses.{EduPayCourseItem, apply_course, sync_course, finish_course}
use edupay_academico.Sync.StudentRows.{
  EduPayStudentItem, StudentStatus, enrollment_reference, manual, item_conflict,
}
use edupay_academico.Sync.Students.{
  apply_student, place_student, enroll_student, put_enrollment, end_student,
}
use edupay_academico.Sync.Drain.{
  DrainError, source_tenant_mismatch, out_of_fuel, Page, Drained, nothing_drained, drain_pages,
  drain, last, more, Gathers, drain-Gathers,
}
use edupay_academico.Sync.Replay.{IsQuiet, apply_course-replay}
use edupay_academico.Sync.Late.{apply_course-late}
use edupay_academico.Sync.Placed.{IsPlaced}
use edupay_academico.Sync.Enrolled.{apply_student-IsPlaced}

abbrev context : ItemContext
context = record { academic_year_id = 1; source = b'e' ∷ []; tenant_id = b't' ∷ [] }

abbrev course : Course
course = record {
  tenant_id = b't' ∷ [];
  id = 1;
  academic_year_id = 1;
  source = b'e' ∷ [];
  external_reference = some (b'c' ∷ []);
  label = b'A' ∷ [];
  status = CourseStatus.active;
  source_updated_at = some 3;
  last_synced_at = some 3;
  source_status = some SourceStatus.active;
}

abbrev student : Student
student = record {
  tenant_id = b't' ∷ [];
  id = 5;
  source = b'e' ∷ [];
  external_reference = some (b'p' ∷ []);
  first_name = b'F' ∷ [];
  last_name = b'L' ∷ [];
  status = PersonStatus.active;
  source_updated_at = some 3;
  last_synced_at = some 3;
  source_status = some SourceStatus.active;
}

-- The student is in another course, of an item 'd'.
abbrev enrollment : CourseEnrollment
enrollment = record {
  tenant_id = b't' ∷ [];
  id = 7;
  student_id = 5;
  course_id = 2;
  source = b'e' ∷ [];
  external_reference = some (enrollment_reference (b'p' ∷ []) (b'd' ∷ []));
  is_active = true;
  last_synced_at = some 3;
}

abbrev one : State
one = record { courses = course ∷ []; students = student ∷ []; enrollments = enrollment ∷ [] }

abbrev renamed : EduPayCourseItem
renamed = record {
  integration_id = b'c' ∷ [];
  name = b'B' ∷ [];
  updated_at = 9;
  is_deleted = false;
}

abbrev removed : EduPayCourseItem
removed = record renamed { updated_at = 8; is_deleted = true }

renames : (apply_course 10 20 context renamed one).1.change ≡ updated
unfolding apply_course sync_course finish_course
renames = refl

removes : (apply_course 10 20 context removed one).1.deactivated ≡ 1
unfolding apply_course sync_course finish_course
removes = refl

apply_course-replay_example :
    IsQuiet (apply_course 11 21 context removed (apply_course 10 20 context removed one).0).1
apply_course-replay_example =
    apply_course-replay 10 11 20 21 context removed one (λ t id. ((λ h. tt), tt))

apply_course-late_example :
    (apply_course 11 21 context removed (apply_course 10 20 context renamed one).0).0
    ≡ (apply_course 10 20 context renamed one).0
apply_course-late_example =
    apply_course-late 10 20 context renamed removed refl (omega arith) 11 21 one
      (λ t id. ((λ h. tt), tt))

abbrev moves : EduPayStudentItem
moves = record {
  integration_id = b'p' ∷ [];
  course_integration_id = b'c' ∷ [];
  first_name = b'F' ∷ [];
  last_name = b'L' ∷ [];
  status = StudentStatus.active;
  updated_at = 4;
  is_deleted = false;
}

abbrev moved : State
moved = record one {
  students = record student { source_updated_at = some 4; last_synced_at = some 10 } ∷ [];
  enrollments =
      (record {
        tenant_id = b't' ∷ [];
        id = 8;
        student_id = 5;
        course_id = 1;
        source = b'e' ∷ [];
        external_reference = some (enrollment_reference (b'p' ∷ []) (b'c' ∷ []));
        is_active = true;
        last_synced_at = some 10;
      })
      ∷ record enrollment { is_active = false; last_synced_at = some 10 }
      ∷ [];
}

abbrev move_result : AppliedItemResult
move_result = record { change = updated; deactivated = 1; error = none; target_id = some 5 }

moves_student : apply_student 10 6 8 context moves one ≡ ok (moved, move_result)
unfolding apply_student place_student enroll_student put_enrollment end_student
moves_student = refl

-- A student whom the school has enrolled by hand is left alone.
by_hand :
    apply_student 10 6 8 context moves
      (record one { enrollments = record enrollment { source = manual } ∷ [] })
    ≡ ok (
      record one { enrollments = record enrollment { source = manual } ∷ [] },
      item_conflict (some 5) manual_enrollment_conflict,
    )
unfolding apply_student place_student enroll_student put_enrollment end_student
by_hand = refl

apply_student-IsPlaced_example : All (IsPlaced context moves 5 (some course)) moved.enrollments
apply_student-IsPlaced_example =
    apply_student-IsPlaced 10 6 8 context moves one moved move_result
      (record { by_id = λ t id. ((λ h. tt), tt); by_reference = ((λ h. tt), tt) }) ((λ h e. cc), tt)
      refl moves_student refl

-- Two pages: the second is at the cursor 'x', which the first gives.
abbrev page_of : List ℕ → Option Text → Page ℕ ℕ
page_of items next = record {
  source_tenant_id = b't' ∷ [];
  run_id = b'r' ∷ [];
  items = items;
  conflicts = [];
  next_cursor = next;
  next_watermark = some (b'w' ∷ []);
}

abbrev feed : Option Text → Result DrainError (Page ℕ ℕ)
feed none = ok (page_of (1 ∷ 2 ∷ []) (some (b'x' ∷ [])))
feed (some cursor) = ok (page_of (3 ∷ []) none)

abbrev pages : List (Page ℕ ℕ)
pages = page_of (1 ∷ 2 ∷ []) (some (b'x' ∷ [])) ∷ page_of (3 ∷ []) none ∷ []

drain-Gathers_example :
    (d : Drained ℕ ℕ) × (drain feed (b't' ∷ []) none 2 ≡ ok d)
    × Gathers feed (b't' ∷ []) none pages nothing_drained d
drain-Gathers_example =
    drain-Gathers feed (b't' ∷ []) none (b'r' ∷ []) (b'w' ∷ []) 2 pages refl
      (more (b'x' ∷ []) refl refl refl refl (last refl refl refl refl)) (omega arith) refl

-- A source that gives the same cursor for ever runs out of fuel.
endless : drain (λ c. ok (page_of [] (some (b'x' ∷ [])))) (b't' ∷ []) none 5 ≡ err out_of_fuel
unfolding drain drain_pages
endless = refl

other_tenant : drain feed (b'u' ∷ []) none 5 ≡ err source_tenant_mismatch
unfolding drain drain_pages
other_tenant = refl
