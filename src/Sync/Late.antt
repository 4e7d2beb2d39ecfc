-- ===== src/Sync/Late.antt =====
-- Items of courses that come out of order, in
-- apps/api/src/sync/sync-item-application.service.ts.
use edupay_academico.Prelude.{
  ℕ, ◌<◌, ◌≡◌, refl, true, not, Option, none, some, Text, text_eq_refl, ◌==◌, ==_refl, find,
  find-test, if-elim, arith,
}
use edupay_academico.Prelude.Keys.{AtMostOne, find-update_first_by}
use edupay_academico.Sync.{Course, State, ItemContext, Change, created, AppliedItemResult, is_after}
use edupay_academico.Sync.Courses.{
  EduPayCourseItem, has_course_key, is_course, write_course, new_course, finish_course, sync_course,
  apply_course,
}

-- The item leaves the state as it is.
abbrev Ignores : ItemContext → EduPayCourseItem → State → Type 0
Ignores context item s = (later other_id : ℕ) → (apply_course later other_id context item s).0 ≡ s

-- The course is of the item and newer.
Ignores-after :
    (context : ItemContext) (item : EduPayCourseItem) (s : State) (c : Course)
    → find (has_course_key context item.integration_id) s.courses ≡ some c
    → is_after c.source_updated_at item.updated_at ≡ true
    → Ignores context item s
unfolding apply_course sync_course
Ignores-after context item s c found after later other_id = rw found (
    if-elim (λ (r : State × AppliedItemResult). r.0 ≡ s)
      (not (c.academic_year_id == context.academic_year_id)) _ _ (λ other. refl)
      (λ same. rw after refl))

Ignores-other_year :
    (context : ItemContext) (item : EduPayCourseItem) (s : State) (c : Course)
    → find (has_course_key context item.integration_id) s.courses ≡ some c
    → not (c.academic_year_id == context.academic_year_id) ≡ true
    → Ignores context item s
unfolding apply_course sync_course
Ignores-other_year context item s c found other later other_id = rw (found, other) refl

finish_course-courses :
    (now : ℕ) (context : ItemContext) (item : EduPayCourseItem) (id : ℕ) (change : Change) (n : ℕ)
    (s : State)
    → (finish_course now context item id change n s).0.courses ≡ s.courses
unfolding finish_course
finish_course-courses now context item id change n s =
    if-elim (λ (r : State × AppliedItemResult). r.0.courses ≡ s.courses) _ _ _ (λ t. refl)
      (λ f. refl)

module _ (now new_id : ℕ) (context : ItemContext) (newer older : EduPayCourseItem)
    (same_course : older.integration_id ≡ newer.integration_id)
    (earlier : older.updated_at < newer.updated_at) where
  after_both :
      (t : Option ℕ) → is_after t newer.updated_at ≡ true → is_after t older.updated_at ≡ true
  after_both none h = h
  after_both (some t) h = ground (arith, earlier, h)

  sync_course-Ignores :
      (current : Option Course) (s : State)
      → ((t : Text) (id : ℕ) → AtMostOne (is_course t id) s.courses)
      → find (has_course_key context newer.integration_id) s.courses ≡ current
      → Ignores context older (sync_course now new_id context newer current s).0
  unfolding sync_course
  sync_course-Ignores none s keys e =
      let same_key : has_course_key context newer.integration_id
            (new_course now new_id context newer)
          ≡ true =
        rw
          (
            text_eq_refl context.tenant_id,
            text_eq_refl context.source,
            text_eq_refl newer.integration_id,
          )
          refl in
      Ignores-after context older _ (new_course now new_id context newer)
        (rw (same_course, finish_course-courses now context newer new_id created _ _, same_key)
          refl)
        (ground (arith, earlier))
  sync_course-Ignores (some c) s keys e =
      if-elim (λ (r : State × AppliedItemResult). Ignores context older r.0)
        (not (c.academic_year_id == context.academic_year_id)) _ _
        (λ other. Ignores-other_year context older s c (rw same_course e) other)
        (λ same.
          if-elim (λ (r : State × AppliedItemResult). Ignores context older r.0)
            (is_after c.source_updated_at newer.updated_at) _ _
            (λ after.
              Ignores-after context older s c (rw same_course e)
                (after_both c.source_updated_at after))
            (λ fresh.
              Ignores-after context older _ (write_course now newer c)
                (rw (same_course, finish_course-courses now context newer c.id _ _ _)
                  (find-update_first_by (has_course_key context newer.integration_id)
                    (is_course context.tenant_id c.id) (write_course now newer) s.courses c
                    (λ y. refl) (keys context.tenant_id c.id)
                    (ground (
                      arith,
                      find-test (has_course_key context newer.integration_id) s.courses e,
                      ==_refl c.id,
                    ))
                    e))
                (ground (arith, earlier))))

  -- An item of a course that comes after a newer one of the same course writes nothing, whatever the
  -- newer one did, where ids are unique.
  pub apply_course-late :
      (later other_id : ℕ) (s : State)
      → ((t : Text) (id : ℕ) → AtMostOne (is_course t id) s.courses)
      → (apply_course later other_id context older (apply_course now new_id context newer s).0).0
        ≡ (apply_course now new_id context newer s).0
  unfolding apply_course
  apply_course-late later other_id s keys =
      sync_course-Ignores (find (has_course_key context newer.integration_id) s.courses) s keys refl
        later other_id
