-- ===== src/Submissions/Numbers.antt =====
-- The numbers of revisions in apps/api/src/storage/submission.service.ts.
use edupay_academico.Prelude.{
  ℕ, ◌≡◌, ◌≤◌, ◌<◌, refl, ap, sym, subst, Bool, true, false, Option, none, some, List, [], ◌∷◌,
  ◌++◌, Text, text_eq, ◌==◌, ◌&&◌, All, All-imp, find, arith,
}
use edupay_academico.Submissions.{
  new_revision, max_number, next_number, open_submission, submit, has_work_key, require_student,
  require_eligible_visible_item, accepts_revision,
}
use edupay_academico.Submissions.Query.{Academic, Item, StudentRow}
use edupay_academico.Submissions.Tables.{
  Revision, Submission, State, Submit, Reply, ok, RequestContext, tenant_scope, require, conflict,
  refused,
}
use edupay_academico.Submissions.Machine.{bind-eq-ok}

-- `revision` is one of the submission.
abbrev pub is_of : Text → ℕ → Revision → Bool
is_of tenant_id submission_id revision =
    text_eq revision.tenant_id tenant_id && revision.submission_id == submission_id

max_number-bounds :
    (tenant : Text) (id : ℕ) (xs : List Revision)
    → All (λ r. is_of tenant id r ≡ true → r.revision_number ≤ max_number tenant id xs) xs
unfolding max_number
max_number-bounds tenant id [] = tt
max_number-bounds tenant id (x ∷ xs) = (
  λ t. ground arith,
  All-imp (λ r le t. ground (arith, le t)) xs (max_number-bounds tenant id xs),
)

-- No revision belongs to a submission that does not exist yet.
abbrev pub HasNone : ℕ → List Revision → Type 0
HasNone id = All (λ r. (r.submission_id == id) ≡ false)

next_number-bounds :
    (tenant : Text) (st : StudentRow) (item : Item) (input : Submit) (existing : Option Submission)
    (xs : List Submission) (revisions : List Revision)
    → HasNone input.new_submission_id revisions
    → All
        (λ r.
          is_of tenant (open_submission tenant st item input existing xs).0.id r ≡ true
          → r.revision_number < next_number tenant existing revisions)
        revisions
unfolding open_submission
next_number-bounds tenant st item input none xs revisions h =
    All-imp (λ r n t. ground (arith, n)) revisions h
next_number-bounds tenant st item input (some y) xs revisions h =
    All-imp (λ r le t. ground (arith, le t)) revisions (max_number-bounds tenant y.id revisions)

-- The revision that a submission of work appends.
pub record Appends (context : RequestContext) (id : ℕ) (s s' : State) : Type 0 where
  pub revision : Revision
  pub scoped : tenant_scope context ≡ ok revision.tenant_id
  pub appended : s'.revisions ≡ s.revisions ++ revision ∷ []
  pub own : revision.submission_id ≡ id
  pub later :
      All
        (λ r. is_of revision.tenant_id id r ≡ true → r.revision_number < revision.revision_number)
        s.revisions

abbrev revisions_of : Reply (ℕ × State) → List Revision
revisions_of (ok (id, s)) = s.revisions
revisions_of (refused r) = []

abbrev id_of : Reply (ℕ × State) → ℕ
id_of (ok (id, s)) = id
id_of (refused r) = 0

-- A submission of work that is accepted appends one revision, of the request's tenant and of the
-- submission whose id it returns, with a number above those of all earlier revisions of that submission. No revision
-- belongs to the id of the submission that may be created.
pub submit-Appends :
    (attach : (revision_id item_id : ℕ) → List ℕ → Reply (Unit {0})) (academic : Academic)
    (context : RequestContext) (learning_item_id : ℕ) (input : Submit) (s s' : State) (id : ℕ)
    → HasNone input.new_submission_id s.revisions
    → submit attach academic context learning_item_id input s ≡ ok (id, s')
    → Appends context id s s'
unfolding submit
submit-Appends attach academic context learning_item_id input s s' id h e =
    let (tenant, e₀, e₁) = bind-eq-ok {A = Text} (tenant_scope context) _ e in
    let (st, e₂, e₃) = bind-eq-ok {A = StudentRow} (require_student academic context) _ e₁ in
    let (item, e₄, e₅) =
      bind-eq-ok {A = Item}
        (require_eligible_visible_item academic context learning_item_id st.id input.now) _ e₃ in
    let existing = find (has_work_key tenant st.id learning_item_id) s.submissions in
    let (u, e₆, e₇) = bind-eq-ok {A = Unit} (require conflict (accepts_revision existing)) _ e₅ in
    let (v, e₈, e₉) =
      bind-eq-ok {A = Unit} (attach input.new_revision_id item.id input.file_object_ids) _ e₇ in
    let opened = (open_submission tenant st item input existing s.submissions).0 in
    subst (λ n. Appends context n s s') (ap id_of e₉)
      (record {
        revision =
            new_revision context tenant input opened.id item
              (next_number tenant existing s.revisions);
        scoped = e₀;
        appended = sym (ap revisions_of e₉);
        own = refl;
        later = next_number-bounds tenant st item input existing s.submissions s.revisions h;
      })
