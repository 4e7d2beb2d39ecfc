-- ===== src/Visibility/Examples.antt =====
-- Tests of the policy, and its theorems for one item.
use edupay_academico.Prelude.{◌≡◌, refl, sym, true, false, none, some, [], ◌∷◌}
use edupay_academico.Access.{teacher, system_admin}
use edupay_academico.Visibility.{
  active, scheduled, CourseSubjectRow, UnitRow, ItemRow, StudentReadEligibility,
  StudentItemVisibilityInput, can_view_student_item, enrollment_eligible, unit_available_now,
  effective_published, enrollment_holds, can_access_teacher_authoring,
}
use edupay_academico.Visibility.Tenants.{can_view-IsEnrolled, IsOfTenant, IsEnrolled}

-- Tenant "t", course "c", subject "s", unit "u" and item "i"; the item appears at 10, the unit is
-- over after 20.
abbrev subject : CourseSubjectRow
subject = record {
  id = b's' ∷ [];
  tenant_id = b't' ∷ [];
  course_id = b'c' ∷ [];
  status = active;
  course_status = active;
  academic_year_status = active;
}

abbrev unit : UnitRow
unit = record {
  id = b'u' ∷ [];
  tenant_id = b't' ∷ [];
  course_subject_id = b's' ∷ [];
  start_at = none;
  end_at = some 20;
  status = active;
}

abbrev item : ItemRow
item = record {
  id = b'i' ∷ [];
  tenant_id = b't' ∷ [];
  course_subject_id = b's' ∷ [];
  learning_unit_id = b'u' ∷ [];
  publication_status = scheduled;
  publish_at = some 10;
}

abbrev eligibility : StudentReadEligibility
eligibility = record {
  student = record { tenant_id = b't' ∷ []; status = active };
  course_enrollment =
      some (record { tenant_id = b't' ∷ []; target_id = b'c' ∷ []; status = active });
  subject_enrollment = none;
}

abbrev input : StudentItemVisibilityInput
input = record {
  trusted_tenant_id = b't' ∷ [];
  course_subject = subject;
  unit = unit;
  item = item;
  now = 12;
  enrollment_allowed = true;
}

is_eligible_student : enrollment_eligible (b't' ∷ []) subject eligibility ≡ true
unfolding enrollment_eligible enrollment_holds
is_eligible_student = refl

can_view : can_view_student_item input ≡ true
unfolding can_view_student_item unit_available_now effective_published
can_view = refl

too_early : can_view_student_item (record input { now = 9 }) ≡ false
unfolding can_view_student_item unit_available_now effective_published
too_early = refl

unassigned_teacher :
    can_access_teacher_authoring (record {
      trusted_tenant_id = b't' ∷ [];
      resource_tenant_id = b't' ∷ [];
      roles = teacher ∷ system_admin ∷ [];
      elevated_support_context = false;
      teacher_status = some active;
      assignment_status = none;
    })
    ≡ false
unfolding can_access_teacher_authoring
unassigned_teacher = refl

can_view-IsEnrolled_example :
    IsOfTenant (b't' ∷ []) input × IsEnrolled (b't' ∷ []) subject eligibility
can_view-IsEnrolled_example =
    can_view-IsEnrolled input eligibility (sym is_eligible_student) can_view
