-- ===== src/Submissions/Tables.antt =====
-- The tables, replies and requests of apps/api/src/storage/submission.service.ts.
use edupay_academico.Prelude.{ℕ, Bool, true, false, Option, none, some, List, Text}
use edupay_academico.Access.{TrustedIdentityPrincipal, TrustedTenantContext, Outcome, pass, deny}

pub data Status : Type 0 where
  pending submitted reviewed changes_requested : Status

abbrev pub is_submitted : Status → Bool
is_submitted submitted = true
is_submitted _ = false

abbrev pub is_changes_requested : Status → Bool
is_changes_requested changes_requested = true
is_changes_requested _ = false

pub data ReviewAction : Type 0 where
  commented reviewed changes_requested : ReviewAction

pub record Submission : Type 0 where
  pub tenant_id : Text
  pub id : ℕ
  pub student_id : ℕ
  pub learning_item_id : ℕ
  pub status : Status

pub record Revision : Type 0 where
  pub tenant_id : Text
  pub id : ℕ
  pub submission_id : ℕ
  pub revision_number : ℕ
  pub student_comment : Option Text
  pub submitted_at : ℕ
  pub effective_due_at : ℕ
  pub is_late : Bool
  pub created_by : Text

pub record Review : Type 0 where
  pub tenant_id : Text
  pub id : ℕ
  pub submission_revision_id : ℕ
  pub reviewer_teacher_id : ℕ
  pub reviewer_identity_user_id : Text
  pub action : ReviewAction
  pub comment : Option Text

pub data Intent : Type 0 where
  submission_received resubmission_received : (revision_id : ℕ) → Intent
  submission_reviewed changes_requested_of : (review_id : ℕ) → Intent

pub record State : Type 0 where
  pub submissions : List Submission
  pub revisions : List Revision
  pub reviews : List Review
  pub intents : List Intent

pub data Refusal : Type 0 where
  denied not_found conflict untrusted : Refusal

pub data Reply {ℓ} (A : Type ℓ) : Type ℓ where
  ok : A → Reply A
  refused : Refusal → Reply A

infixl 5 ◌>>=◌ ◌>>◌
abbrev pub ◌>>=◌ {ℓ κ} : {A : Type ℓ} {B : Type κ} → Reply A → (A → Reply B) → Reply B
ok a >>= f = f a
refused r >>= f = refused r

abbrev pub ◌>>◌ {ℓ} : {B : Type ℓ} → Reply (Unit {0}) → Reply B → Reply B
m >> k = m >>= λ _. k

abbrev pub require : Refusal → Bool → Reply (Unit {0})
require r true = ok tt
require r false = refused r

abbrev pub found_or {ℓ} : {A : Type ℓ} → Refusal → Option A → Reply A
found_or r none = refused r
found_or r (some a) = ok a

abbrev pub of_outcome : Outcome (Unit {0}) → Reply (Unit {0})
of_outcome (pass u) = ok tt
of_outcome (deny r) = refused denied

pub record RequestContext : Type 0 where
  pub principal : TrustedIdentityPrincipal
  pub tenant : Option TrustedTenantContext

-- `TenantQueryScope.fromTrustedContext(context.tenant).tenantId`
abbrev pub tenant_scope : RequestContext → Reply Text
tenant_scope context = elim context.tenant [
  | none ↦ refused untrusted
  | some tenant ↦ ok tenant.tenant_id
]

-- Input and what the database and the clock give.
pub record Submit : Type 0 where
  pub file_object_ids : List ℕ
  pub student_comment : Option Text
  pub now : ℕ
  pub new_submission_id : ℕ
  pub new_revision_id : ℕ
