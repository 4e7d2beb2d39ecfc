-- ===== src/Visibility/Tenants.antt =====
-- What follows from a positive answer of the policy on the rows and the enrollment it was asked on:
-- apps/api/src/learning/read/learning-visibility.policy.ts.
use edupay_academico.Prelude.{
  ◌≡◌, ◌⊎◌, inl, inr, true, false, ◌||◌, Bool, Option, none, some, Text, text_eq_iff, arith, refl,
}
use edupay_academico.Visibility.{
  enrollment_holds, enrollment_eligible, can_view_student_item, Enrollment, is_active,
  CourseSubjectRow, StudentReadEligibility, StudentItemVisibilityInput,
}

-- An enrollment that gives access: of the tenant, for the target, and active.
pub record Enrolls (tenant target : Text) (o : Option Enrollment) : Type 0 where
  pub enrollment : Enrollment
  pub found : o ≡ some enrollment
  pub tenant_id : enrollment.tenant_id ≡ tenant
  pub target_id : enrollment.target_id ≡ target
  pub active : is_active enrollment.status ≡ true

pub enrollment_holds-Enrolls :
    (tenant target : Text) (o : Option Enrollment)
    → enrollment_holds tenant target o ≡ true
    → Enrolls tenant target o
unfolding enrollment_holds
enrollment_holds-Enrolls tenant target none h = cc
enrollment_holds-Enrolls tenant target (some e) h = record {
  enrollment = e;
  found = refl;
  tenant_id = ground (arith, text_eq_iff e.tenant_id tenant);
  target_id = ground (arith, text_eq_iff e.target_id target);
  active = ground arith;
}

pub or_true : (a b : Bool) → (a || b) ≡ true → (a ≡ true) ⊎ (b ≡ true)
or_true true b h = inl refl
or_true false b h = inr h

pub record IsEnrolled (tenant : Text) (subject : CourseSubjectRow) (e : StudentReadEligibility)
    : Type 0 where
  pub student_tenant : e.student.tenant_id ≡ tenant
  pub student_active : is_active e.student.status ≡ true
  pub enrolled :
      Enrolls tenant subject.course_id e.course_enrollment
      ⊎ Enrolls tenant subject.id e.subject_enrollment

pub enrollment_eligible-IsEnrolled :
    (tenant : Text) (subject : CourseSubjectRow) (e : StudentReadEligibility)
    → enrollment_eligible tenant subject e ≡ true
    → IsEnrolled tenant subject e
unfolding enrollment_eligible
enrollment_eligible-IsEnrolled tenant subject e h = record {
  student_tenant = ground (arith, text_eq_iff e.student.tenant_id tenant);
  student_active = ground arith;
  enrolled =
      elim (or_true (enrollment_holds tenant subject.course_id e.course_enrollment)
        (enrollment_holds tenant subject.id e.subject_enrollment) (ground arith)) [
          | inl a ↦ inl (enrollment_holds-Enrolls _ _ _ a)
          | inr b ↦ inr (enrollment_holds-Enrolls _ _ _ b)
        ];
}

-- The three rows of one item: of the tenant, and one in the other.
pub record IsOfTenant (tenant : Text) (i : StudentItemVisibilityInput) : Type 0 where
  pub subject_tenant : i.course_subject.tenant_id ≡ tenant
  pub unit_tenant : i.unit.tenant_id ≡ tenant
  pub item_tenant : i.item.tenant_id ≡ tenant
  pub unit_subject : i.unit.course_subject_id ≡ i.course_subject.id
  pub item_subject : i.item.course_subject_id ≡ i.course_subject.id
  pub item_unit : i.item.learning_unit_id ≡ i.unit.id
  pub year_active : is_active i.course_subject.academic_year_status ≡ true
  pub course_active : is_active i.course_subject.course_status ≡ true

can_view-IsOfTenant :
    (i : StudentItemVisibilityInput)
    → can_view_student_item i ≡ true
    → IsOfTenant i.trusted_tenant_id i
unfolding can_view_student_item
can_view-IsOfTenant i h = record {
  subject_tenant = ground (arith, text_eq_iff i.course_subject.tenant_id i.trusted_tenant_id);
  unit_tenant = ground (arith, text_eq_iff i.unit.tenant_id i.trusted_tenant_id);
  item_tenant = ground (arith, text_eq_iff i.item.tenant_id i.trusted_tenant_id);
  unit_subject = ground (arith, text_eq_iff i.unit.course_subject_id i.course_subject.id);
  item_subject = ground (arith, text_eq_iff i.item.course_subject_id i.course_subject.id);
  item_unit = ground (arith, text_eq_iff i.item.learning_unit_id i.unit.id);
  year_active = ground arith;
  course_active = ground arith;
}

-- An item that a student may see, asked with the student's own eligibility: subject, unit and item
-- belong to the trusted tenant and to each other, academic year and course are active, the student
-- is an active one of the tenant, and has an active enrollment of the tenant in that course or in
-- that subject.
pub can_view-IsEnrolled :
    (i : StudentItemVisibilityInput) (e : StudentReadEligibility)
    → i.enrollment_allowed ≡ enrollment_eligible i.trusted_tenant_id i.course_subject e
    → can_view_student_item i ≡ true
    → IsOfTenant i.trusted_tenant_id i × IsEnrolled i.trusted_tenant_id i.course_subject e
unfolding can_view_student_item
can_view-IsEnrolled i e eq h = (
  can_view-IsOfTenant i h,
  enrollment_eligible-IsEnrolled i.trusted_tenant_id i.course_subject e (ground arith),
)
