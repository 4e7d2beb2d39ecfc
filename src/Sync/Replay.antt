-- ===== src/Sync/Replay.antt =====
-- Items of courses that come again, or late, in
-- apps/api/src/sync/sync-item-application.service.ts.
use edupay_academico.Prelude.{
  ℕ, ◌≡◌, refl, true, false, not, Option, none, some, List, [], ◌∷◌, Text, text_eq_refl, ltb, ◌==◌,
  ==_refl, find, find-test, Bool-cases, if-elim, inl, inr, arith,
}
use edupay_academico.Prelude.Keys.{AtMostOne, find-update_first_by}
use edupay_academico.Learning.{CourseStatus, is_course_archived}
use edupay_academico.Sync.{
  Course, CourseEnrollment, State, ItemContext, unchanged, created, SourceStatus, source_status_eq,
  Change, AppliedItemResult, is_after, course_status_eq, deactivate, count,
}
use edupay_academico.Sync.Courses.{
  EduPayCourseItem, course_status_of, source_status_of, has_course_key, is_course, write_course,
  new_course, course_differs, is_in_course, finish_course, sync_course, apply_course,
}

-- Nothing was changed and no row ended.
pub record IsQuiet (r : AppliedItemResult) : Type 0 where
  pub change : r.change ≡ unchanged
  pub deactivated : r.deactivated ≡ 0

course_status_refl : (s : CourseStatus) → course_status_eq s s ≡ true
course_status_refl CourseStatus.draft = refl
course_status_refl CourseStatus.active = refl
course_status_refl CourseStatus.archived = refl

source_status_refl : (s : SourceStatus) → source_status_eq s s ≡ true
source_status_refl SourceStatus.deleted = refl
source_status_refl SourceStatus.active = refl
source_status_refl SourceStatus.inactive = refl
source_status_refl SourceStatus.graduated = refl

-- Ended rows are not active, whichever rows of the source and course the test asks for.
count-deactivate :
    (now : ℕ) (context : ItemContext) (id : ℕ) (es : List CourseEnrollment)
    → count (is_in_course context id) (deactivate now (is_in_course context id) es) ≡ 0
count-deactivate now context id [] = refl
count-deactivate now context id (e ∷ es) = elim (Bool-cases (is_in_course context id e)) [
  | inl t ↦
      let ended : is_in_course context id
            (record e { is_active = false; last_synced_at = some now })
          ≡ false =
        ground arith in
      rw (t, ended) (count-deactivate now context id es)
  | inr f ↦ rw (f, f) (count-deactivate now context id es)
]

-- What the course looks like once the item has been written.
pub record HasWritten (context : ItemContext) (item : EduPayCourseItem) (s : State) (c : Course)
    : Type 0 where
  pub found : find (has_course_key context item.integration_id) s.courses ≡ some c
  pub year : (c.academic_year_id == context.academic_year_id) ≡ true
  pub updated_at : c.source_updated_at ≡ some item.updated_at
  pub differs : course_differs item c ≡ false
  pub status : c.status ≡ course_status_of item
  pub ended :
      is_course_archived (course_status_of item) ≡ true
      → count (is_in_course context c.id) s.enrollments ≡ 0

HasWritten-IsQuiet :
    (now new_id : ℕ) (context : ItemContext) (item : EduPayCourseItem) (s : State) (c : Course)
    → HasWritten context item s c
    → IsQuiet (apply_course now new_id context item s).1
unfolding apply_course sync_course finish_course
HasWritten-IsQuiet now new_id context item s c h =
    let not_after : ltb item.updated_at item.updated_at ≡ false = ground arith in
    elim (Bool-cases (is_course_archived (course_status_of item))) [
      | inl t ↦
          rw (h.found, h.differs, h.year, h.updated_at, not_after, h.status, t, h.ended t)
            (record { change = refl; deactivated = refl })
      | inr f ↦
          rw (h.found, h.differs, h.year, h.updated_at, not_after, h.status, f)
            (record { change = refl; deactivated = refl })
    ]

writes-differs :
    (now : ℕ) (item : EduPayCourseItem) (c : Course)
    → course_differs item (write_course now item c) ≡ false
writes-differs now item c =
    rw
      (
        text_eq_refl item.name,
        course_status_refl (course_status_of item),
        source_status_refl (source_status_of item),
        ==_refl item.updated_at,
      )
      refl

-- The step that ends an applied item, on a state whose course is written.
finish_course-HasWritten :
    (now : ℕ) (context : ItemContext) (item : EduPayCourseItem) (change : Change) (n : ℕ)
    (s : State) (c : Course)
    → find (has_course_key context item.integration_id) s.courses ≡ some c
    → (c.academic_year_id == context.academic_year_id) ≡ true
    → c.source_updated_at ≡ some item.updated_at
    → course_differs item c ≡ false
    → c.status ≡ course_status_of item
    → HasWritten context item (finish_course now context item c.id change n s).0 c
unfolding finish_course
finish_course-HasWritten now context item change n s c found year at same status =
    elim (Bool-cases (is_course_archived (course_status_of item))) [
      | inl t ↦ rw t (record {
        found = found;
        year = year;
        updated_at = at;
        differs = same;
        status = status;
        ended = λ _. count-deactivate now context c.id s.enrollments;
      })
      | inr f ↦ rw f (record {
        found = found;
        year = year;
        updated_at = at;
        differs = same;
        status = status;
        ended = λ t. cc;
      })
    ]

-- The item, applied later, changes nothing.
abbrev Quiets : ItemContext → EduPayCourseItem → State → Type 0
Quiets context item s =
    (later other_id : ℕ) → IsQuiet (apply_course later other_id context item s).1

sync_course-Quiets :
    (now new_id : ℕ) (context : ItemContext) (item : EduPayCourseItem) (current : Option Course)
    (s : State)
    → ((t : Text) (id : ℕ) → AtMostOne (is_course t id) s.courses)
    → find (has_course_key context item.integration_id) s.courses ≡ current
    → Quiets context item (sync_course now new_id context item current s).0
unfolding sync_course apply_course
sync_course-Quiets now new_id context item none s keys e = λ later other_id.
    let same_key : has_course_key context item.integration_id (new_course now new_id context item)
        ≡ true =
      rw
        (
          text_eq_refl context.tenant_id,
          text_eq_refl context.source,
          text_eq_refl item.integration_id,
        )
        refl in
    HasWritten-IsQuiet later other_id context item _ (new_course now new_id context item) (
      finish_course-HasWritten now context item created _ _ (new_course now new_id context item)
        (rw same_key refl) (==_refl context.academic_year_id) refl
        (writes-differs now item (new_course now new_id context item)) refl)
sync_course-Quiets now new_id context item (some c) s keys e =
    if-elim (λ (r : State × AppliedItemResult). Quiets context item r.0)
      (not (c.academic_year_id == context.academic_year_id)) _ _
      (λ other later other_id. rw (e, other) (record { change = refl; deactivated = refl }))
      (λ same.
        if-elim (λ (r : State × AppliedItemResult). Quiets context item r.0)
          (is_after c.source_updated_at item.updated_at) _ _
          (λ after later other_id.
            rw (e, same, after) (record { change = refl; deactivated = refl }))
          (λ fresh later other_id.
            HasWritten-IsQuiet later other_id context item _ (write_course now item c) (
              finish_course-HasWritten now context item _ _ _ (write_course now item c)
                (find-update_first_by (has_course_key context item.integration_id)
                  (is_course context.tenant_id c.id) (write_course now item) s.courses c (λ y. refl)
                  (keys context.tenant_id c.id)
                  (ground (
                    arith,
                    find-test (has_course_key context item.integration_id) s.courses e,
                    ==_refl c.id,
                  ))
                  e)
                (ground (arith, same)) refl (writes-differs now item c) refl)))

-- An item of a course that is applied once more, whatever the first time did, reports that nothing
-- changed and that no row ended, where ids are unique.
pub apply_course-replay :
    (now later new_id other_id : ℕ) (context : ItemContext) (item : EduPayCourseItem) (s : State)
    → ((t : Text) (id : ℕ) → AtMostOne (is_course t id) s.courses)
    → IsQuiet
        (apply_course later other_id context item (apply_course now new_id context item s).0).1
unfolding apply_course
apply_course-replay now later new_id other_id context item s keys =
    sync_course-Quiets now new_id context item
      (find (has_course_key context item.integration_id) s.courses) s keys refl later other_id
