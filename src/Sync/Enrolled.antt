-- ===== src/Sync/Enrolled.antt =====
-- Where an item of a student leaves the enrollments of the student in
-- apps/api/src/sync/sync-item-application.service.ts.
use edupay_academico.Prelude.{
  ℕ, ◌≡◌, ap, subst, true, false, not, Option, none, some, List, All, All-imp₂, Text, ◌||◌, ◌==◌,
  ==_refl, find, find-test, Bool-cases, inl, inr, arith, ok, bind-eq-ok, ok-injective,
}
use edupay_academico.Prelude.Keys.{AtMostOne}
use edupay_academico.Learning.{CourseStatus}
use edupay_academico.Sync.{
  Course, Student, CourseEnrollment, State, ItemContext, AppliedItemResult, deactivate,
  course_status_eq,
}
use edupay_academico.Sync.Courses.{has_course_key}
use edupay_academico.Sync.StudentRows.{
  EduPayStudentItem, is_mapped_active, enrollment_reference, has_student_key, has_enrollment_key,
  is_enrollment, id_of, is_newer,
}
use edupay_academico.Sync.Students.{
  end_student, put_enrollment, enroll_student, find_historical, is_foreign, has_manual,
  place_student, apply_student,
}
use edupay_academico.Sync.Placed.{
  AtKey, IsKeyed, IsPlaced, IsReferenced, conflicting, deactivate-All, end_student-IsPlaced, ending,
  kept-IsKeyed, key-All, put_enrollment-IsPlaced,
}

foreign_course :
    (current : Option Student) (course : Course) (h : CourseEnrollment)
    → is_foreign current course (some h) ≡ false
    → h.course_id ≡ course.id
foreign_course none course h own = cc
foreign_course (some p) course h own = ground (arith, own)

-- Enrollments have unique ids, and unique references within a source.
pub record HasKeys (context : ItemContext) (reference : Text) (es : List CourseEnrollment)
    : Type 0 where
  pub by_id : (t : Text) (id : ℕ) → AtMostOne (is_enrollment t id) es
  pub by_reference : AtMostOne (has_enrollment_key context reference) es

module _ (now new_id new_enrollment_id : ℕ) (context : ItemContext) (item : EduPayStudentItem) where
  abbrev pub reference_of_item : Text
  reference_of_item = enrollment_reference item.integration_id item.course_integration_id

  find_historical-AtKey :
      (current : Option Student) (course : Course) (s : State) (h : CourseEnrollment)
      → HasKeys context reference_of_item s.enrollments
      → is_foreign current course (some h) ≡ false
      → find_historical context reference_of_item current s ≡ some h
      → All (AtKey context item (id_of new_id current) course.id h.id) s.enrollments
  find_historical-AtKey none course s h keys own e = cc
  find_historical-AtKey (some p) course s h keys own e =
      let key = has_enrollment_key context reference_of_item in
      let found = find-test key s.enrollments e in
      All-imp₂ (λ e a b. (a, b)) s.enrollments
        (key-All (λ y. y.course_id ≡ course.id) key key s.enrollments h keys.by_reference e found
          (foreign_course (some p) course h own))
        (key-All (λ y. key y ≡ true) key (is_enrollment context.tenant_id h.id) s.enrollments h
          (keys.by_id context.tenant_id h.id) e (ground (arith, found, ==_refl h.id)) found)

  enroll_student-IsPlaced :
      (current : Option Student) (course : Course) (s s' : State) (r : AppliedItemResult)
      → is_mapped_active item ≡ true
      → HasKeys context reference_of_item s.enrollments
      → All (IsReferenced context item (id_of new_id current)) s.enrollments
      → is_foreign current course (find_historical context reference_of_item current s) ≡ false
      → enroll_student now new_id new_enrollment_id context item current
          (find_historical context reference_of_item current s)
          course
          s
        ≡ ok (s', r)
      → All (IsPlaced context item (id_of new_id current) (some course)) s'.enrollments
  unfolding enroll_student
  enroll_student-IsPlaced current course s s' r active keys referenced own done =
      let id = id_of new_id current in
      let (es, put, last) =
        bind-eq-ok
          (put_enrollment now new_enrollment_id context
            (enrollment_reference item.integration_id item.course_integration_id) id course.id
            (find_historical context
              (enrollment_reference item.integration_id item.course_integration_id) current s)
            (deactivate now (ending context item id) s.enrollments))
          _ done in
      let same : es ≡ s'.enrollments = cc in
      subst (All (IsPlaced context item id (some course))) same (
        put_enrollment-IsPlaced context item id now new_enrollment_id course _ _ es active
          (deactivate-All (IsKeyed context item id) (IsReferenced context item id) now
            (ending context item id) s.enrollments (λ e q f. kept-IsKeyed context item id e q f)
            (λ e q by. absurd (ground (arith, by))) referenced)
          (λ h e.
            deactivate-All (AtKey context item id course.id h.id)
              (AtKey context item id course.id h.id) now (ending context item id) s.enrollments
              (λ y q f. q) (λ y q. q)
              (find_historical-AtKey current course s h keys
                (subst (λ o. is_foreign current course o ≡ false) e own) e))
          put)

  place_student-IsPlaced :
      (current : Option Student) (course : Option Course) (s s' : State) (r : AppliedItemResult)
      → is_mapped_active item ≡ true
      → HasKeys context reference_of_item s.enrollments
      → All (IsReferenced context item (id_of new_id current)) s.enrollments
      → place_student now new_id new_enrollment_id context item current course s ≡ ok (s', r)
      → r.error ≡ none
      → All (IsPlaced context item (id_of new_id current) course) s'.enrollments
  unfolding place_student
  place_student-IsPlaced current none s s' r active keys referenced done fine =
      absurd (conflicting s s' _ _ r done fine)
  place_student-IsPlaced current (some course) s s' r active keys referenced done fine =
      elim (Bool-cases (
        not (course.academic_year_id == context.academic_year_id)
        || not (course_status_eq course.status CourseStatus.active))) [
          | inl t ↦ absurd (conflicting s s' _ _ r (rw t at done) fine)
          | inr f ↦ elim (Bool-cases (has_manual context current s)) [
            | inl t ↦ absurd (conflicting s s' _ _ r (rw (f, t) at done) fine)
            | inr g ↦
                elim (Bool-cases (
                  is_foreign current course (
                    find_historical context
                      (enrollment_reference item.integration_id item.course_integration_id) current
                      s))) [
                        | inl t ↦ absurd (conflicting s s' _ _ r (rw (f, g, t) at done) fine)
                        | inr k ↦
                            enroll_student-IsPlaced current course s s' r active keys referenced k
                              (rw (f, g, k) at done)
                      ]
          ]
        ]

  -- The student's row before the item, and the course that the item names
  abbrev pub known : State → Option Student
  known s = find (has_student_key context item.integration_id) s.students

  abbrev pub course_of_item : State → Option Course
  course_of_item s = find (has_course_key context item.course_integration_id) s.courses

  -- An item of a student that is no older than what is known of the student and is applied without
  -- a conflict: afterwards every active enrollment of the student by the source is in the course
  -- that the item names, and carries the reference of the item, and there is none where the student
  -- is not active; provided that enrollments have unique ids and references within the source, and
  -- that those of the source carry a reference.
  pub apply_student-IsPlaced :
      (s s' : State) (r : AppliedItemResult)
      → HasKeys context reference_of_item s.enrollments
      → All (IsReferenced context item (id_of new_id (known s))) s.enrollments
      → is_newer item (known s) ≡ false
      → apply_student now new_id new_enrollment_id context item s ≡ ok (s', r)
      → r.error ≡ none
      → All (IsPlaced context item (id_of new_id (known s)) (course_of_item s)) s'.enrollments
  unfolding apply_student end_student
  apply_student-IsPlaced s s' r keys referenced fresh done fine =
      elim (Bool-cases (is_mapped_active item)) [
        | inl t ↦
            place_student-IsPlaced (known s) (course_of_item s) s s' r t keys referenced
              (rw (fresh, t) at done) fine
        | inr f ↦
            let ends = rw (fresh, f) at done in
            subst
              (λ (u : State).
                All (IsPlaced context item (id_of new_id (known s)) (course_of_item s))
                  u.enrollments)
              (ap (λ (u : State × AppliedItemResult). u.0) (ok-injective ends))
              (end_student-IsPlaced context item (id_of new_id (known s)) now (course_of_item s)
                s.enrollments)
      ]
