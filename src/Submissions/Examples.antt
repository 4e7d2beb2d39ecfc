-- ===== src/Submissions/Examples.antt =====
-- Tests of submissions and reviews, and the theorems for one submission.
use edupay_academico.Prelude.{ℕ, ◌≡◌, refl, true, false, none, some, List, [], ◌∷◌, ◌++◌}
use edupay_academico.Access.{
  student, teacher, require_capability, require_trusted_tenant, IdentityRole,
}
use edupay_academico.Visibility.{active, published}
use edupay_academico.Submissions.Query.{Academic, assignment, is_eligible_visible, grants}
use edupay_academico.Submissions.Tables.{
  RequestContext, Submission, Revision, State, Submit, Reply, ok, refused, conflict, submitted,
  reviewed, changes_requested, resubmission_received, submission_reviewed, changes_requested_of,
  Status, Review, ReviewAction,
}
use edupay_academico.Submissions.{
  submit, review, require_student, require_eligible_visible_item, set_status, max_number,
  open_submission, require_teacher, require_assigned_item, write_review, update_status,
}
use edupay_academico.Submissions.Numbers.{Appends, submit-Appends}
use edupay_academico.Submissions.Machine.{HasKeys, Submitted, submit-Submitted}
use edupay_academico.Submissions.Reviews.{Reviewed, review-Reviewed}

abbrev context : IdentityRole → RequestContext
context role = record {
  principal = record {
    identity_user_id = b'u' ∷ [];
    session_id = b's' ∷ [];
    tenant_id = some (b't' ∷ []);
    membership_id = some (b'm' ∷ []);
    roles = role ∷ [];
  };
  tenant = some (record {
    identity_user_id = b'u' ∷ [];
    tenant_id = b't' ∷ [];
    membership_id = b'm' ∷ [];
    roles = role ∷ [];
    session_id = b's' ∷ [];
  });
}

abbrev academic : Academic
academic = record {
  students =
      record { tenant_id = b't' ∷ []; id = 1; identity_user_id = b'u' ∷ []; is_active = true } ∷ [];
  teachers =
      record { tenant_id = b't' ∷ []; id = 2; identity_user_id = b'u' ∷ []; is_active = true } ∷ [];
  items =
      record {
        tenant_id = b't' ∷ [];
        id = 3;
        course_subject_id = 4;
        type = assignment;
        publication_status = published;
        publish_at = none;
        due_at = some 10;
        learning_unit = record {
          id = b'u' ∷ [];
          tenant_id = b't' ∷ [];
          course_subject_id = b's' ∷ [];
          start_at = none;
          end_at = none;
          status = active;
        };
      }
      ∷ [];
  course_subjects =
      record {
        tenant_id = b't' ∷ [];
        id = 4;
        is_active = true;
        default_for_course = true;
        course_enrollments = record { student_id = 1; is_active = true } ∷ [];
        direct_enrollments = [];
      }
      ∷ [];
  assignments =
      record { tenant_id = b't' ∷ []; teacher_id = 2; course_subject_id = 4; is_active = true }
      ∷ [];
}

abbrev work : Status → Submission
work status = record {
  tenant_id = b't' ∷ [];
  id = 5;
  student_id = 1;
  learning_item_id = 3;
  status = status;
}

abbrev first : Revision
first = record {
  tenant_id = b't' ∷ [];
  id = 6;
  submission_id = 5;
  revision_number = 1;
  student_comment = none;
  submitted_at = 7;
  effective_due_at = 10;
  is_late = false;
  created_by = b'u' ∷ [];
}

abbrev table : Status → State
table status = record {
  submissions = work status ∷ [];
  revisions = first ∷ [];
  reviews = [];
  intents = [];
}

abbrev input : Submit
input = record {
  file_object_ids = 9 ∷ [];
  student_comment = none;
  now = 12;
  new_submission_id = 20;
  new_revision_id = 21;
}

abbrev attach : (revision_id item_id : ℕ) → List ℕ → Reply (Unit {0})
attach revision_id item_id ids = ok tt

abbrev resubmitted : State
resubmitted = record (table submitted) {
  revisions =
      first ∷ record first { id = 21; revision_number = 2; submitted_at = 12; is_late = true } ∷ [];
  intents = resubmission_received 21 ∷ [];
}

resubmits :
    submit attach academic (context student) 3 input (table changes_requested) ≡ ok (5, resubmitted)
unfolding submit require_student require_eligible_visible_item is_eligible_visible grants set_status
    max_number open_submission require_capability require_trusted_tenant
resubmits = refl

refuses_second :
    submit attach academic (context student) 3 input (table submitted) ≡ refused conflict
unfolding submit require_student require_eligible_visible_item is_eligible_visible grants
    require_capability require_trusted_tenant
refuses_second = refl

abbrev row_of : ℕ → ReviewAction → Review
row_of id action = record {
  tenant_id = b't' ∷ [];
  id = id;
  submission_revision_id = 6;
  reviewer_teacher_id = 2;
  reviewer_identity_user_id = b'u' ∷ [];
  action = action;
  comment = none;
}

abbrev approved : State
approved = record (table reviewed) {
  reviews = row_of 8 reviewed ∷ [];
  intents = submission_reviewed 8 ∷ [];
}

abbrev alone : State → State
alone s = s

approves :
    review alone academic (context teacher) 6 8 reviewed none (table submitted) ≡ ok (5, approved)
unfolding review require_teacher require_assigned_item write_review update_status set_status
approves = refl

refuses_decided :
    review alone academic (context teacher) 6 8 changes_requested none (table reviewed)
    ≡ refused conflict
unfolding review require_teacher require_assigned_item write_review update_status set_status
refuses_decided = refl

-- A second decision, whose reads came before the first was written
abbrev overtaken : State
overtaken = record (table changes_requested) {
  reviews = approved.reviews ++ row_of 9 changes_requested ∷ [];
  intents = submission_reviewed 8 ∷ changes_requested_of 9 ∷ [];
}

overtakes :
    review (λ s. approved) academic (context teacher) 6 9 changes_requested none (table submitted)
    ≡ ok (5, overtaken)
unfolding review require_teacher require_assigned_item write_review update_status set_status
overtakes = refl

one-HasKeys : (s : Submission) → HasKeys (s ∷ [])
one-HasKeys s tenant id = ((λ t. tt), tt)

submit-Submitted_example :
    Submitted academic (context student) 3 20 (table changes_requested) 5 resubmitted
submit-Submitted_example =
    submit-Submitted attach academic (context student) 3 input (table changes_requested) resubmitted
      5 (one-HasKeys (work changes_requested)) (refl, tt) resubmits

review-Reviewed_example :
    Reviewed (context teacher) 6 changes_requested (table submitted) approved 5 overtaken
review-Reviewed_example =
    review-Reviewed (λ s. approved) academic (context teacher) 6 9 changes_requested none
      (table submitted) overtaken 5 (one-HasKeys (work reviewed)) overtakes

submit-Appends_example : Appends (context student) 5 (table changes_requested) resubmitted
submit-Appends_example =
    submit-Appends attach academic (context student) 3 input (table changes_requested) resubmitted 5
      (refl, tt) resubmits
