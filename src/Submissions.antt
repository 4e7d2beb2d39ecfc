-- ===== src/Submissions.antt =====
-- apps/api/src/storage/submission.service.ts: the submission of work and its review, over the tables
-- that they read and write (apps/api/prisma/schema.prisma). Dates are milliseconds.
-- Storage's answer on the files is a parameter, and so are the ids that the database gives. The
-- intents are the notifications asked for; the audit's log lines are left out.
pub mod Query
pub mod Tables
pub mod Machine
pub mod Reviews
pub mod Numbers
mod Examples
use edupay_academico.Prelude.{
  ℕ, ◌+◌, max, Bool, true, false, not, Option, none, some, List, [], ◌∷◌, ◌++◌, map, ◌&&◌, ◌||◌,
  ltb, ◌==◌, if◌then◌else◌, Text, text_eq, filter, find, any,
}
use edupay_academico.Access.{
  TrustedIdentityPrincipal, TrustedTenantContext, has_role, student, teacher, require_capability,
  access_tenant, Outcome, pass, deny,
}
use edupay_academico.Submissions.Query.{
  Item, Academic, StudentRow, TeacherRow, is_eligible_visible, is_submittable,
}
use edupay_academico.Submissions.Tables.{
  Status, is_submitted, is_changes_requested, ReviewAction, Submission, Revision, Review, Intent,
  State, Refusal, Reply, ◌>>=◌, ◌>>◌, require, found_or, of_outcome, RequestContext, tenant_scope,
  Submit, pending, submitted, reviewed, changes_requested, commented, submission_received,
  resubmission_received, submission_reviewed, changes_requested_of, denied, not_found, conflict,
  untrusted, ok, refused,
}

unfoldable pub require_student : Academic → RequestContext → Reply StudentRow
require_student academic context = do
  of_outcome (require_capability context.principal context.tenant access_tenant)
  require denied (has_role student context.principal.roles)
  tenant_id ← tenant_scope context
  found_or denied (
      find
        (λ s.
          text_eq s.tenant_id tenant_id
          && text_eq s.identity_user_id context.principal.identity_user_id
          && s.is_active)
        academic.students)

unfoldable pub require_eligible_visible_item :
    Academic → RequestContext → (item_id student_id now : ℕ) → Reply Item
unfolding is_eligible_visible
require_eligible_visible_item academic context item_id student_id now = do
  tenant_id ← tenant_scope context
  item ←
      found_or not_found
        (find (λ i. text_eq i.tenant_id tenant_id && i.id == item_id) academic.items)
  require conflict (is_submittable item.type)
  require denied (is_eligible_visible academic tenant_id item student_id now)
  ok item

-- The unique key tenantId, studentId, learningItemId
abbrev pub has_work_key : Text → ℕ → ℕ → Submission → Bool
has_work_key tenant_id student_id item_id s =
    text_eq s.tenant_id tenant_id && s.student_id == student_id && s.learning_item_id == item_id

abbrev pub has_id : Text → ℕ → Submission → Bool
has_id tenant_id id s = text_eq s.tenant_id tenant_id && s.id == id

unfoldable pub set_status : Text → ℕ → Status → List Submission → List Submission
set_status tenant_id id status =
    map (λ s. if has_id tenant_id id s then record s { status = status } else s)

-- `_max.revisionNumber ?? 0`
unfoldable pub max_number : Text → ℕ → List Revision → ℕ
max_number tenant_id submission_id [] = 0
max_number tenant_id submission_id (r ∷ revisions) =
    let rest = max_number tenant_id submission_id revisions in
    if text_eq r.tenant_id tenant_id && r.submission_id == submission_id
    then max r.revision_number rest
    else rest

-- `existing`, or the submission that `create` adds
unfoldable pub open_submission :
    Text
    → StudentRow
    → Item
    → Submit
    → Option Submission
    → List Submission
    → Submission × List Submission
open_submission tenant_id s item input (some existing) submissions = (existing, submissions)
open_submission tenant_id s item input none submissions =
    let submission : Submission = record {
      tenant_id = tenant_id;
      id = input.new_submission_id;
      student_id = s.id;
      learning_item_id = item.id;
      status = pending;
    } in
    (submission, submissions ++ submission ∷ [])

abbrev pub next_number : Text → Option Submission → List Revision → ℕ
next_number tenant_id none revisions = 1
next_number tenant_id (some existing) revisions = max_number tenant_id existing.id revisions + 1

abbrev pub effective_due_at : ℕ → Option ℕ → ℕ
effective_due_at now none = now
effective_due_at now (some due) = due

abbrev pub is_late_at : ℕ → Option ℕ → Bool
is_late_at now none = false
is_late_at now (some due) = ltb due now

-- A new revision is allowed at first and when changes were requested.
abbrev pub accepts_revision : Option Submission → Bool
accepts_revision none = true
accepts_revision (some existing) = is_changes_requested existing.status

abbrev pub submission_intent : Option Submission → ℕ → Intent
submission_intent none = submission_received
submission_intent (some existing) = resubmission_received

-- The data of `submissionRevision.create`
abbrev pub new_revision :
    RequestContext → Text → Submit → (submission_id : ℕ) → Item → (number : ℕ) → Revision
new_revision context tenant_id input submission_id item number = record {
  tenant_id = tenant_id;
  id = input.new_revision_id;
  submission_id = submission_id;
  revision_number = number;
  student_comment = input.student_comment;
  submitted_at = input.now;
  effective_due_at = effective_due_at input.now item.due_at;
  is_late = is_late_at input.now item.due_at;
  created_by = context.principal.identity_user_id;
}

-- `attach` is StorageService.attachSubmissionFiles: `ok` where it throws nothing.
unfoldable pub submit :
    (attach : (revision_id item_id : ℕ) → List ℕ → Reply (Unit {0}))
    → Academic
    → RequestContext
    → (learning_item_id : ℕ) → Submit
    → State
    → Reply (ℕ × State)
unfolding require_student require_eligible_visible_item set_status max_number open_submission
submit attach academic context learning_item_id input state = do
  tenant_id ← tenant_scope context
  s ← require_student academic context
  item ← require_eligible_visible_item academic context learning_item_id s.id input.now
  let existing = find (has_work_key tenant_id s.id learning_item_id) state.submissions
  require conflict (accepts_revision existing)
  let opened = open_submission tenant_id s item input existing state.submissions
  let revision =
      new_revision context tenant_id input opened.0.id item
        (next_number tenant_id existing state.revisions)
  attach revision.id item.id input.file_object_ids
  ok (
    opened.0.id,
    record state {
      submissions = set_status tenant_id opened.0.id submitted opened.1;
      revisions = state.revisions ++ revision ∷ [];
      intents = state.intents ++ submission_intent existing revision.id ∷ [];
    },
  )

unfoldable pub submit_revision :
    (attach : (revision_id item_id : ℕ) → List ℕ → Reply (Unit {0}))
    → Academic
    → RequestContext
    → (submission_id : ℕ) → Submit
    → State
    → Reply (ℕ × State)
unfolding submit
submit_revision attach academic context submission_id input state = do
  tenant_id ← tenant_scope context
  submission ← found_or not_found (find (has_id tenant_id submission_id) state.submissions)
  submit attach academic context submission.learning_item_id input state

abbrev pub is_comment : ReviewAction → Bool
is_comment commented = true
is_comment _ = false

abbrev pub reviewed_status : ReviewAction → Status
reviewed_status reviewed = reviewed
reviewed_status _ = changes_requested

abbrev pub review_intents : ReviewAction → ℕ → List Intent
review_intents commented id = []
review_intents reviewed id = submission_reviewed id ∷ []
review_intents changes_requested id = changes_requested_of id ∷ []

unfoldable pub require_teacher : Academic → RequestContext → Text → Reply TeacherRow
require_teacher academic context tenant_id = do
  require denied (has_role teacher context.principal.roles)
  found_or denied (
      find
        (λ t.
          text_eq t.tenant_id tenant_id
          && text_eq t.identity_user_id context.principal.identity_user_id
          && t.is_active)
        academic.teachers)

-- The submission's item, to whose subject the teacher is assigned
unfoldable pub require_assigned_item :
    Academic → (tenant_id : Text) → TeacherRow → Submission → Reply Item
require_assigned_item academic tenant_id t submission = do
  item ← found_or not_found (
      find (λ i. text_eq i.tenant_id tenant_id && i.id == submission.learning_item_id)
        academic.items)
  require denied (
      any
        (λ a.
          text_eq a.tenant_id tenant_id
          && a.teacher_id == t.id
          && a.course_subject_id == item.course_subject_id
          && a.is_active)
        academic.assignments)
  ok item

-- `tx.submission.update`: where the row is gone it throws, and the transaction is undone.
unfoldable pub update_status : Text → ℕ → Status → List Submission → Reply (List Submission)
unfolding set_status
update_status tenant_id id status submissions = do
  submission ← found_or not_found (find (has_id tenant_id id) submissions)
  ok (set_status tenant_id id status submissions)

-- The transaction of `review`.
unfoldable pub write_review :
    (tenant_id : Text) → (submission_id : ℕ) → Review → State → Reply (ℕ × State)
unfolding update_status
write_review tenant_id submission_id row state = do
  submissions ←
      if is_comment row.action
      then ok state.submissions
      else update_status tenant_id submission_id (reviewed_status row.action) state.submissions
  ok (
    submission_id,
    record state {
      submissions = submissions;
      reviews = state.reviews ++ row ∷ [];
      intents = state.intents ++ review_intents row.action row.id;
    },
  )

abbrev pub find_revision : Text → ℕ → State → Reply Revision
find_revision tenant_id id state =
    found_or not_found (find (λ r. text_eq r.tenant_id tenant_id && r.id == id) state.revisions)

abbrev pub find_submission : Text → ℕ → State → Reply Submission
find_submission tenant_id id state =
    found_or not_found (find (has_id tenant_id id) state.submissions)

-- `meanwhile` is what others write between the reads, with the test of the status, and the
-- transaction.
unfoldable pub review :
    (meanwhile : State → State)
    → Academic
    → RequestContext
    → (revision_id new_review_id : ℕ) → ReviewAction
    → Option Text
    → State
    → Reply (ℕ × State)
unfolding require_teacher require_assigned_item write_review
review meanwhile academic context revision_id new_review_id action comment state = do
  tenant_id ← tenant_scope context
  t ← require_teacher academic context tenant_id
  revision ← find_revision tenant_id revision_id state
  submission ← find_submission tenant_id revision.submission_id state
  item ← require_assigned_item academic tenant_id t submission
  require conflict (is_comment action || is_submitted submission.status)
  write_review tenant_id submission.id
      (record {
        tenant_id = tenant_id;
        id = new_review_id;
        submission_revision_id = revision.id;
        reviewer_teacher_id = t.id;
        reviewer_identity_user_id = context.principal.identity_user_id;
        action = action;
        comment = comment;
      })
      (meanwhile state)
