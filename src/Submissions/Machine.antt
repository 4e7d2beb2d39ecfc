-- ===== src/Submissions/Machine.antt =====
-- What a submission of work writes to the submissions, in
-- apps/api/src/storage/submission.service.ts.
use edupay_academico.Prelude.{
  ℕ, ◌≡◌, refl, sym, subst, inl, inr, Bool, true, false, Option, none, some, List, [], ◌∷◌, ◌++◌,
  find, find-test, Bool-cases, Text, text_eq, text_eq_iff, ◌==◌, ==_refl, ◌&&◌, arith, All,
}
use mathlib.Core.Option.{some-injective}
use edupay_academico.Prelude.Keys.{AtMostOne, All-find}
use edupay_academico.Submissions.{
  accepts_revision, require_student, require_eligible_visible_item, has_id, has_work_key,
  set_status, open_submission, submit,
}
use edupay_academico.Submissions.Query.{
  Academic, Item, StudentRow, is_submittable, is_eligible_visible,
}
use edupay_academico.Submissions.Tables.{
  is_changes_requested, pending, RequestContext, Refusal, require, found_or, tenant_scope,
  not_found, conflict, denied, Status, submitted, changes_requested, Submission, State, Submit,
  Reply, ok, refused, ◌>>=◌,
}

pub bind-eq-ok {ℓ κ} :
    {A : Type ℓ} {B : Type κ} (m : Reply A) (f : A → Reply B) {b : B}
    → (m >>= f) ≡ ok b
    → (a : A) × (m ≡ ok a) × (f a ≡ ok b)
bind-eq-ok (ok a) f e = (a, refl, e)
bind-eq-ok (refused r) f e = cc

pub require-ok : (r : Refusal) (b : Bool) {u : Unit {0}} → require r b ≡ ok u → b ≡ true
require-ok r true h = refl
require-ok r false h = cc

pub found_or-ok :
    {A : Type 0} (r : Refusal) (o : Option A) {a : A} → found_or r o ≡ ok a → o ≡ some a
found_or-ok r none h = cc
found_or-ok r (some a) h = cc

-- The primary key tenantId, id
abbrev pub HasKeys : List Submission → Type 0
HasKeys xs = (tenant : Text) (id : ℕ) → AtMostOne (has_id tenant id) xs

-- The second list is the first with one row in place of another.
pub data Replaces (y y' : Submission) : List Submission → List Submission → Type 0 where
  here : {xs : List Submission} → Replaces y y' (y ∷ xs) (y' ∷ xs)
  there :
      {x : Submission} {xs xs' : List Submission}
      → Replaces y y' xs xs'
      → Replaces y y' (x ∷ xs) (x ∷ xs')

set_status-none :
    (tenant : Text) (id : ℕ) (new : Status) (xs : List Submission)
    → All (λ x. has_id tenant id x ≡ false) xs
    → set_status tenant id new xs ≡ xs
unfolding set_status
set_status-none tenant id new [] h = refl
set_status-none tenant id new (x ∷ xs) (f, h) = rw (f, set_status-none tenant id new xs h) refl

-- The update under the key changes the row that a search found, and no other.
pub set_status-Replaces :
    (p : Submission → Bool) (tenant : Text) (id : ℕ) (new : Status) (xs : List Submission)
    (y : Submission)
    → AtMostOne (has_id tenant id) xs
    → find p xs ≡ some y
    → has_id tenant id y ≡ true
    → Replaces y (record y { status = new }) xs (set_status tenant id new xs)
unfolding set_status
set_status-Replaces p tenant id new [] y one found own = cc
set_status-Replaces p tenant id new (x ∷ xs) y (first, one) found own = elim (Bool-cases (p x)) [
  | inl t ↦
      let same : x ≡ y = some-injective x y (rw t at found) in
      let own_x : has_id tenant id x ≡ true =
        subst (λ z. has_id tenant id z ≡ true) (sym same) own in
      subst
        (λ z. Replaces z (record z { status = new }) (x ∷ xs) (set_status tenant id new (x ∷ xs)))
        same (rw (own_x, set_status-none tenant id new xs (first own_x)) here)
  | inr f ↦
      let later = rw f at found in
      elim (Bool-cases (has_id tenant id x)) [
        | inl t ↦
            let fails = All-find (λ z. has_id tenant id z ≡ false) p xs y later (first t) in cc
        | inr n ↦ rw n (there (set_status-Replaces p tenant id new xs y one later own))
      ]
]

-- What an accepted submission of work does, from the row of the student and the item if there is
-- one: it adds a row that is submitted, or resubmits the one for which changes were requested.
pub data Submits (tenant : Text) (student_id item_id new_id : ℕ) (xs : List Submission)
    : Option Submission → (id : ℕ) → List Submission → Type 0 where
  created : Submits tenant student_id item_id new_id xs none new_id (
      xs
      ++ record {
        tenant_id = tenant;
        id = new_id;
        student_id = student_id;
        learning_item_id = item_id;
        status = submitted;
      }
        ∷ [])
  resubmitted :
      {y : Submission} {xs' : List Submission}
      → y.status ≡ changes_requested
      → Replaces y (record y { status = submitted }) xs xs'
      → Submits tenant student_id item_id new_id xs (some y) y.id xs'

abbrev pub submissions_of : Reply (ℕ × State) → List Submission
submissions_of (ok (id, s)) = s.submissions
submissions_of (refused r) = []

abbrev pub id_of : Reply (ℕ × State) → ℕ
id_of (ok (id, s)) = id
id_of (refused r) = 0

-- No submission has the id of the one to be created.
abbrev pub IsFresh : ℕ → List Submission → Type 0
IsFresh id = All (λ x. (x.id == id) ≡ false)

set_status-new :
    (tenant : Text) (xs : List Submission) (y : Submission)
    → y.tenant_id ≡ tenant
    → IsFresh y.id xs
    → set_status tenant y.id submitted (xs ++ y ∷ []) ≡ xs ++ record y { status = submitted } ∷ []
unfolding set_status
set_status-new tenant [] y own fresh =
    let itself : has_id tenant y.id y ≡ true =
      ground (arith, ==_refl y.id, text_eq_iff y.tenant_id tenant) in
    rw itself refl
set_status-new tenant (x ∷ xs) y own (n, fresh) =
    let other : has_id tenant y.id x ≡ false = ground (arith, n) in
    rw (other, set_status-new tenant xs y own fresh) refl

is_changes_requested-eq : (s : Status) → is_changes_requested s ≡ true → s ≡ changes_requested
is_changes_requested-eq changes_requested h = refl
is_changes_requested-eq _ h = cc

open_submission-Submits :
    (xs : List Submission) (tenant : Text) (st : StudentRow) (item : Item) (input : Submit)
    (item_id : ℕ) (existing : Option Submission)
    → HasKeys xs
    → IsFresh input.new_submission_id xs
    → item.id ≡ item_id
    → find (has_work_key tenant st.id item_id) xs ≡ existing
    → accepts_revision existing ≡ true
    → Submits tenant st.id item_id input.new_submission_id xs existing
        (open_submission tenant st item input existing xs).0.id
        (set_status tenant
          (open_submission tenant st item input existing xs).0.id
          submitted
          (open_submission tenant st item input existing xs).1)
unfolding open_submission
open_submission-Submits xs tenant st item input item_id none keys fresh same found allowed =
    rw⁻¹ same (
      rw
        (set_status-new tenant xs
          (record {
            tenant_id = tenant;
            id = input.new_submission_id;
            student_id = st.id;
            learning_item_id = item.id;
            status = pending;
          })
          refl fresh)
        created)
open_submission-Submits xs tenant st item input item_id (some y) keys fresh same found allowed =
    let test = find-test (has_work_key tenant st.id item_id) xs found in
    resubmitted (is_changes_requested-eq y.status allowed) (
      set_status-Replaces (has_work_key tenant st.id item_id) tenant y.id submitted xs y
        (keys tenant y.id) found (ground (arith, test, ==_refl y.id)))

require_eligible_visible_item-id :
    (academic : Academic) (context : RequestContext) (item_id student_id now : ℕ) (item : Item)
    → require_eligible_visible_item academic context item_id student_id now ≡ ok item
    → item.id ≡ item_id
unfolding require_eligible_visible_item
require_eligible_visible_item-id academic context item_id student_id now item e =
    let (tenant, e₀, e₁) = bind-eq-ok {A = Text} (tenant_scope context) _ e in
    let (i, e₂, e₃) =
      bind-eq-ok {A = Item}
        (found_or not_found
          (find (λ (x : Item). text_eq x.tenant_id tenant && x.id == item_id) academic.items))
        _ e₁ in
    let (u, e₄, e₅) = bind-eq-ok {A = Unit} (require conflict (is_submittable i.type)) _ e₃ in
    let (v, e₆, e₇) =
      bind-eq-ok {A = Unit} (require denied (is_eligible_visible academic tenant i student_id now))
        _ e₅ in
    let test =
      find-test (λ (x : Item). text_eq x.tenant_id tenant && x.id == item_id) academic.items
        (found_or-ok not_found _ e₂) in
    let same : i ≡ item = cc in subst (λ (x : Item). x.id ≡ item_id) same (ground (arith, test))

-- The request's tenant and student, and what the submission of work does for them.
pub record Submitted (academic : Academic) (context : RequestContext) (item_id new_id : ℕ)
    (s : State) (id : ℕ) (s' : State) : Type 0 where
  pub tenant : Text
  pub scoped : tenant_scope context ≡ ok tenant
  pub st : StudentRow
  pub is_student : require_student academic context ≡ ok st
  pub work :
      Submits tenant st.id item_id new_id s.submissions
        (find (has_work_key tenant st.id item_id) s.submissions)
        id
        s'.submissions

-- A submission of work that is accepted: where the student has no submission of the item, it adds
-- one that is submitted, under the new id; otherwise changes were requested for the one there is,
-- and it is submitted again, its other fields and every other row as they were. It returns the id
-- of that row. Submissions have unique keys and the new id is fresh.
pub submit-Submitted :
    (attach : (revision_id item_id : ℕ) → List ℕ → Reply (Unit {0})) (academic : Academic)
    (context : RequestContext) (learning_item_id : ℕ) (input : Submit) (s s' : State) (id : ℕ)
    → HasKeys s.submissions
    → IsFresh input.new_submission_id s.submissions
    → submit attach academic context learning_item_id input s ≡ ok (id, s')
    → Submitted academic context learning_item_id input.new_submission_id s id s'
unfolding submit
submit-Submitted attach academic context learning_item_id input s s' id keys fresh e =
    let (tenant, e₀, e₁) = bind-eq-ok {A = Text} (tenant_scope context) _ e in
    let (st, e₂, e₃) = bind-eq-ok {A = StudentRow} (require_student academic context) _ e₁ in
    let (item, e₄, e₅) =
      bind-eq-ok {A = Item}
        (require_eligible_visible_item academic context learning_item_id st.id input.now) _ e₃ in
    let existing = find (has_work_key tenant st.id learning_item_id) s.submissions in
    let (u, e₆, e₇) = bind-eq-ok {A = Unit} (require conflict (accepts_revision existing)) _ e₅ in
    let (v, e₈, e₉) =
      bind-eq-ok {A = Unit} (attach input.new_revision_id item.id input.file_object_ids) _ e₇ in
    let same =
      require_eligible_visible_item-id academic context learning_item_id st.id input.now item e₄ in
    record {
      tenant = tenant;
      scoped = e₀;
      st = st;
      is_student = e₂;
      work =
          subst
            (λ r.
              Submits tenant st.id learning_item_id input.new_submission_id s.submissions existing
                (id_of r) (submissions_of r))
            e₉
            (open_submission-Submits s.submissions tenant st item input learning_item_id existing
              keys fresh same refl (require-ok conflict _ e₆));
    }
