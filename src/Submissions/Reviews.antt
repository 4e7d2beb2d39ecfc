-- ===== src/Submissions/Reviews.antt =====
-- What a review writes, in apps/api/src/storage/submission.service.ts, and what others write while it
-- is made.
use edupay_academico.Prelude.{
  ℕ, ◌≡◌, refl, ap, sym, subst, true, Option, some, List, [], ◌∷◌, ◌++◌, find, find-test, Text,
  text_eq_iff, ◌||◌, arith, if◌then◌else◌,
}
use edupay_academico.Submissions.{
  find_revision, find_submission, require_teacher, require_assigned_item, write_review,
  update_status, is_comment, reviewed_status, has_id, set_status, review,
}
use edupay_academico.Submissions.Query.{Academic, Item, TeacherRow}
use edupay_academico.Submissions.Tables.{
  Revision, Review, is_submitted, commented, RequestContext, ReviewAction, require, found_or,
  tenant_scope, not_found, conflict, Status, submitted, reviewed, changes_requested, Submission,
  State, Reply, ok, refused,
}
use edupay_academico.Submissions.Machine.{
  bind-eq-ok, require-ok, found_or-ok, HasKeys, Replaces, set_status-Replaces, submissions_of,
  id_of,
}

-- The status that a decision gives
pub data Decides : ReviewAction → Status → Type 0 where
  approves : Decides reviewed reviewed
  returns : Decides changes_requested changes_requested

-- What an accepted review of `y` does to the submissions that it finds when it writes: a comment
-- nothing; a decision, which `y` was submitted for, gives the row with the key of `y` its status.
pub data Reviews (y : Submission) (xs : List Submission)
    : ReviewAction → List Submission → Type 0 where
  remarks : Reviews y xs commented xs
  decides :
      {action : ReviewAction} {new : Status} {z : Submission} {xs' : List Submission}
      → Decides action new
      → y.status ≡ submitted
      → has_id y.tenant_id y.id z ≡ true
      → Replaces z (record z { status = new }) xs xs'
      → Reviews y xs action xs'

is_submitted-eq : (s : Status) → is_submitted s ≡ true → s ≡ submitted
is_submitted-eq submitted h = refl
is_submitted-eq _ h = cc

find-has_id :
    (tenant : Text) (id : ℕ) (xs : List Submission) (y : Submission)
    → find (has_id tenant id) xs ≡ some y
    → y.tenant_id ≡ tenant
find-has_id tenant id xs y h =
    let t = find-test (has_id tenant id) xs h in ground (arith, text_eq_iff y.tenant_id tenant)

update_status-Reviews :
    (tenant : Text) (y : Submission) (action : ReviewAction) (new : Status)
    (xs xs' : List Submission)
    → HasKeys xs
    → y.tenant_id ≡ tenant
    → y.status ≡ submitted
    → Decides action new
    → update_status tenant y.id new xs ≡ ok xs'
    → Reviews y xs action xs'
unfolding update_status
update_status-Reviews tenant y action new xs xs' keys own was d e =
    let (z, e₀, e₁) =
      bind-eq-ok {A = Submission} (found_or not_found (find (has_id tenant y.id) xs)) _ e in
    let found = found_or-ok not_found _ e₀ in
    let test = find-test (has_id tenant y.id) xs found in
    let same : set_status tenant y.id new xs ≡ xs' = cc in
    subst (Reviews y xs action) same (
      decides d was (rw own test) (
        set_status-Replaces (has_id tenant y.id) tenant y.id new xs z (keys tenant y.id) found
          test))

review_status-Reviews :
    (tenant : Text) (y : Submission) (action : ReviewAction) (xs xs' : List Submission)
    → HasKeys xs
    → y.tenant_id ≡ tenant
    → (is_comment action || is_submitted y.status) ≡ true
    → (if is_comment action then ok xs else update_status tenant y.id (reviewed_status action) xs)
      ≡ ok xs'
    → Reviews y xs action xs'
review_status-Reviews tenant y commented xs xs' keys own allowed e =
    let same : xs ≡ xs' = cc in subst (Reviews y xs commented) same remarks
review_status-Reviews tenant y reviewed xs xs' keys own allowed e =
    update_status-Reviews tenant y reviewed reviewed xs xs' keys own
      (is_submitted-eq y.status allowed) approves e
review_status-Reviews tenant y changes_requested xs xs' keys own allowed e =
    update_status-Reviews tenant y changes_requested changes_requested xs xs' keys own
      (is_submitted-eq y.status allowed) returns e

-- The submission that the review read in `s`, and what it did to the rows of `w`, which it found
-- when it wrote.
pub record Reviewed (context : RequestContext) (revision_id : ℕ) (action : ReviewAction)
    (s w : State) (id : ℕ) (s' : State) : Type 0 where
  pub tenant : Text
  pub scoped : tenant_scope context ≡ ok tenant
  pub revision : Revision
  pub is_revision : find_revision tenant revision_id s ≡ ok revision
  pub y : Submission
  pub is_submission : find_submission tenant revision.submission_id s ≡ ok y
  pub answered : id ≡ y.id
  pub rows : Reviews y w.submissions action s'.submissions
  pub row : Review
  pub recorded : s'.reviews ≡ w.reviews ++ row ∷ []
  pub of_revision : row.submission_revision_id ≡ revision.id
  pub as_asked : row.action ≡ action

abbrev reviews_of : Reply (ℕ × State) → List Review
reviews_of (ok (id, s)) = s.reviews
reviews_of (refused r) = []

-- A review that is accepted, whatever others write between its reads and its transaction: the
-- submission of the revision, as it was read, was submitted, unless the review is a comment; of the
-- rows that the transaction finds, a comment changes none, and a decision gives the row with the
-- key of that submission the status decided on, whatever status it has by then, its other fields
-- and every other row as they were; one review of the revision with the action is added. Submissions
-- have unique keys when the transaction starts.
pub review-Reviewed :
    (meanwhile : State → State) (academic : Academic) (context : RequestContext)
    (revision_id new_review_id : ℕ) (action : ReviewAction) (comment : Option Text) (s s' : State)
    (id : ℕ)
    → HasKeys (meanwhile s).submissions
    → review meanwhile academic context revision_id new_review_id action comment s ≡ ok (id, s')
    → Reviewed context revision_id action s (meanwhile s) id s'
unfolding review write_review
review-Reviewed meanwhile academic context revision_id new_review_id action comment s s' id keys e =
    let w = meanwhile s in
    let (tenant, e₀, e₁) = bind-eq-ok {A = Text} (tenant_scope context) _ e in
    let (t, e₂, e₃) = bind-eq-ok {A = TeacherRow} (require_teacher academic context tenant) _ e₁ in
    let (revision, e₄, e₅) = bind-eq-ok {A = Revision} (find_revision tenant revision_id s) _ e₃ in
    let (y, e₆, e₇) =
      bind-eq-ok {A = Submission} (find_submission tenant revision.submission_id s) _ e₅ in
    let (item, e₈, e₉) = bind-eq-ok {A = Item} (require_assigned_item academic tenant t y) _ e₇ in
    let (u, e₁₀, e₁₁) =
      bind-eq-ok {A = Unit} (require conflict (is_comment action || is_submitted y.status)) _ e₉ in
    let (xs, e₁₂, e₁₃) =
      bind-eq-ok {A = List Submission}
        (if is_comment action
          then ok w.submissions
          else update_status tenant y.id (reviewed_status action) w.submissions)
        _ e₁₁ in
    record {
      tenant = tenant;
      scoped = e₀;
      revision = revision;
      is_revision = e₄;
      y = y;
      is_submission = e₆;
      answered = sym (ap id_of e₁₃);
      rows = subst (Reviews y w.submissions action) (ap submissions_of e₁₃) (
          review_status-Reviews tenant y action w.submissions xs keys
            (find-has_id tenant revision.submission_id s.submissions y (found_or-ok not_found _ e₆))
            (require-ok conflict _ e₁₀) e₁₂);
      row = record {
        tenant_id = tenant;
        id = new_review_id;
        submission_revision_id = revision.id;
        reviewer_teacher_id = t.id;
        reviewer_identity_user_id = context.principal.identity_user_id;
        action = action;
        comment = comment;
      };
      recorded = sym (ap reviews_of e₁₃);
      of_revision = refl;
      as_asked = refl;
    }
