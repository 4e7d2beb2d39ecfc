-- ===== src/Sync/Placed.antt =====
-- Where the writes of apps/api/src/sync/sync-item-application.service.ts leave a student.
use edupay_academico.Prelude.{
  ℕ, ◌≡◌, ◌≢◌, refl, sym, subst, Bool, true, false, not, Option, none, some, List, [], ◌∷◌, All,
  All-imp, All-imp₂, Text, text_eq, text_eq_refl, ◌&&◌, find, any, Bool-cases, inl, inr, arith,
  Result, ok, ok-injective,
}
use mathlib.Core.Option.{some-injective}
use edupay_academico.Prelude.Keys.{AtMostOne, All-update_first_at, All-unless, All-find, none_pass}
use edupay_academico.Sync.{
  Course, CourseEnrollment, State, ItemContext, SyncError, AppliedItemResult, refers_to, deactivate,
}
use edupay_academico.Sync.StudentRows.{
  EduPayStudentItem, Refusal, is_mapped_active, enrollment_reference, has_enrollment_key,
  is_enrollment, is_active_by, refers_elsewhere, item_conflict,
}
use edupay_academico.Sync.Students.{has_active, activate, put_enrollment}

-- A conflict is no success.
pub conflicting :
    (s s' : State) (target : Option ℕ) (e : SyncError) (r : AppliedItemResult)
    → ◌≡◌ {A = Result Refusal (State × AppliedItemResult)}
        (ok (s, item_conflict target e))
        (ok (s', r))
    → r.error ≢ none
conflicting s s' target e r done fine = cc

-- What a row that is not ended keeps, and an ended one has.
pub deactivate-All :
    (P Q : CourseEnrollment → Type 0) (now : ℕ) (p : CourseEnrollment → Bool)
    (es : List CourseEnrollment)
    → ((e : CourseEnrollment) → Q e → p e ≡ false → P e)
    → ((e : CourseEnrollment) → Q e → P (record e { is_active = false; last_synced_at = some now }))
    → All Q es
    → All P (deactivate now p es)
deactivate-All P Q now p [] keeps ends h = tt
deactivate-All P Q now p (e ∷ es) keeps ends (q, h) = elim (Bool-cases (p e)) [
  | inl t ↦ rw t (ends e q, deactivate-All P Q now p es keeps ends h)
  | inr f ↦ rw f (keeps e q f, deactivate-All P Q now p es keeps ends h)
]

-- The row that a test finds is the only one with its key.
pub key-All :
    (P : CourseEnrollment → Type 0) (p q : CourseEnrollment → Bool) (es : List CourseEnrollment)
    (x : CourseEnrollment)
    → AtMostOne q es
    → find p es ≡ some x
    → q x ≡ true
    → P x
    → All (λ e. q e ≡ true → P e) es
key-All P p q [] x u h k a = tt
key-All P p q (e ∷ es) x (one, u) h k a = elim (Bool-cases (p e)) [
  | inl t ↦
      let same : e ≡ x = some-injective e x (rw t at h) in
      (λ _. subst P (sym same) a, All-unless P q es (one (subst (λ y. q y ≡ true) (sym same) k)))
  | inr f ↦
      let later = rw f at h in
      (
        λ t. absurd (let fails = All-find (λ y. q y ≡ false) p es x later (one t) in cc),
        key-All P p q es x u later k a,
      )
]

module _ (context : ItemContext) (item : EduPayStudentItem) (student_id : ℕ) where
  -- The row refers to the item's student and course.
  abbrev pub IsOfItem : CourseEnrollment → Type 0
  IsOfItem e =
      refers_to (enrollment_reference item.integration_id item.course_integration_id)
        e.external_reference
      ≡ true

  -- An active enrollment by the source: the student is active, and it refers to the item and is in
  -- the course.
  abbrev pub IsPlaced : Option Course → CourseEnrollment → Type 0
  IsPlaced course e =
      is_active_by context.tenant_id context.source student_id e ≡ true
      → (is_mapped_active item ≡ true)
        × IsOfItem e
        × ((c : Course) × (course ≡ some c) × (e.course_id ≡ c.id))

  -- The rows of the source carry a reference.
  abbrev pub IsReferenced : CourseEnrollment → Type 0
  IsReferenced e = text_eq e.source context.source ≡ true → e.external_reference ≢ none

  -- A row with the key of the item's enrollment
  abbrev pub has_key : CourseEnrollment → Bool
  has_key =
      has_enrollment_key context
        (enrollment_reference item.integration_id item.course_integration_id)

  -- The active rows of the student by the source have the key.
  abbrev pub IsKeyed : CourseEnrollment → Type 0
  IsKeyed e = is_active_by context.tenant_id context.source student_id e ≡ true → has_key e ≡ true

  -- The row with the key is in the course, and the row with the id has the key.
  abbrev pub AtKey : (course_id id : ℕ) → CourseEnrollment → Type 0
  AtKey course_id id e =
      (has_key e ≡ true → e.course_id ≡ course_id)
      × (is_enrollment context.tenant_id id e ≡ true → has_key e ≡ true)

  abbrev pub ending : CourseEnrollment → Bool
  ending e =
      is_active_by context.tenant_id context.source student_id e
      && refers_elsewhere (enrollment_reference item.integration_id item.course_integration_id)
          e.external_reference

  -- A row that is kept has the key.
  pub kept-IsKeyed : (e : CourseEnrollment) → IsReferenced e → ending e ≡ false → IsKeyed e
  kept-IsKeyed e referenced kept by =
      let own =
        of_item e.external_reference (referenced (ground (arith, by))) (ground (arith, kept, by)) in
      ground (arith, own, by)
    where
      of_item :
          (o : Option Text)
          → o ≢ none
          → refers_elsewhere (enrollment_reference item.integration_id item.course_integration_id) o
            ≡ false
          → refers_to (enrollment_reference item.integration_id item.course_integration_id) o ≡ true
      of_item none n h = absurd (n refl)
      of_item (some t) n h = ground (arith, h)

  pub end_student-IsPlaced :
      (now : ℕ) (course : Option Course) (es : List CourseEnrollment)
      → All
          (IsPlaced course)
          (deactivate now (is_active_by context.tenant_id context.source student_id) es)
  end_student-IsPlaced now course [] = tt
  end_student-IsPlaced now course (e ∷ es) =
      elim (Bool-cases (is_active_by context.tenant_id context.source student_id e)) [
        | inl t ↦ rw t ((λ by. absurd (ground (arith, by))), end_student-IsPlaced now course es)
        | inr f ↦ rw f ((λ by. cc), end_student-IsPlaced now course es)
      ]

  -- No row has the key: none that is active by the source is left.
  unkeyed-IsPlaced :
      (course : Course) (es : List CourseEnrollment)
      → any has_key es ≡ false
      → All IsKeyed es
      → All (IsPlaced (some course)) es
  unkeyed-IsPlaced course es none_keyed keyed =
      All-imp₂ (λ e k unkeyed by. absurd (let yes_key = k by in cc)) es keyed
        (none_pass has_key es none_keyed)

  pub put_enrollment-IsPlaced :
      (now new_id : ℕ) (course : Course) (historical : Option CourseEnrollment)
      (es es' : List CourseEnrollment)
      → is_mapped_active item ≡ true
      → All IsKeyed es
      → ((h : CourseEnrollment) → historical ≡ some h → All (AtKey course.id h.id) es)
      → put_enrollment now new_id context
          (enrollment_reference item.integration_id item.course_integration_id)
          student_id
          course.id
          historical
          es
        ≡ ok es'
      → All (IsPlaced (some course)) es'
  unfolding put_enrollment
  put_enrollment-IsPlaced now new_id course none es es' active keyed at_key done =
      elim (Bool-cases (any has_key es)) [
        | inl t ↦ let fails = rw t at done in cc
        | inr f ↦ elim (Bool-cases (has_active context.tenant_id student_id course.id es)) [
          | inl t ↦ let fails = rw (f, t) at done in cc
          | inr g ↦ subst (All (IsPlaced (some course))) (ok-injective (rw (f, g) at done)) (
            (λ by. (
              active,
              text_eq_refl (enrollment_reference item.integration_id item.course_integration_id),
              (course, refl, refl),
            )),
            unkeyed-IsPlaced course es f keyed,
          )
        ]
      ]
  put_enrollment-IsPlaced now new_id course (some h) es es' active keyed at_key done =
      elim (Bool-cases (not h.is_active && has_active context.tenant_id student_id course.id es)) [
        | inl t ↦ let fails = rw t at done in cc
        | inr f ↦ subst (All (IsPlaced (some course))) (ok-injective (rw f at done)) (
            All-imp (λ e k. k.0) _
              (All-update_first_at (λ e. IsPlaced (some course) e × AtKey course.id h.id e)
                (is_enrollment context.tenant_id h.id) (activate now) es
                (λ y found k. (
                  (λ by.
                      (active, ground (arith, k.1.1 found), (course, refl, k.1.0 (k.1.1 found)))),
                  k.1,
                ))
                (All-imp₂ {P = IsKeyed} {Q = AtKey course.id h.id}
                  (λ e keyed_e k. (
                    (λ by. (active, ground (arith, keyed_e by), (course, refl, k.0 (keyed_e by)))),
                    k,
                  ))
                  es keyed (at_key h refl))))
      ]
