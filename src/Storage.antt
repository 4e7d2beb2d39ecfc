-- ===== src/Storage.antt =====
-- apps/api/src/storage/storage.service.ts: upload intents, the blobs and files they become, and the
-- accounts of bytes that are used and reserved, globally and for each tenant
-- (apps/api/prisma/schema.prisma).
pub mod Accounts
pub mod Uploads
pub mod Completion
pub mod Balance
pub mod Releases
pub mod Flow
pub mod Reservations
pub mod Quota
pub mod Stale
mod Examples
use edupay_academico.Prelude.{
  ℕ, Bool, true, false, Option, none, some, List, Text, text_eq, ◌&&◌, ◌==◌, find, update_first,
}

-- 'GLOBAL' and `tenantScopeKey(tenantId)`
pub data Scope : Type 0 where
  global : Scope
  tenant : Text → Scope

abbrev pub scope_eq : Scope → Scope → Bool
scope_eq global global = true
scope_eq (tenant s) (tenant t) = text_eq s t
scope_eq _ _ = false

pub record Account : Type 0 where
  pub used_bytes : ℕ
  pub reserved_bytes : ℕ
  pub file_count : ℕ
  pub blob_count : ℕ

pub data IntentStatus : Type 0 where
  reserved staged finalized failed expired : IntentStatus

-- RESERVED or STAGED: the bytes of the intent are reserved.
abbrev pub is_live : IntentStatus → Bool
is_live reserved = true
is_live staged = true
is_live _ = false

abbrev pub is_staged : IntentStatus → Bool
is_staged staged = true
is_staged _ = false

pub data Category : Type 0 where
  learning_material assignment_source assessment_source student_submission die_attachment : Category

pub record UploadIntent : Type 0 where
  pub tenant_id : Text
  pub id : ℕ
  pub created_by : Text
  pub parent_id : ℕ
  pub category : Category
  pub expected_filename : Text
  pub expected_size_bytes : ℕ
  pub expected_mime : Text
  pub reserved_bytes : ℕ
  pub status : IntentStatus
  pub expires_at : ℕ
  pub finalized_file_object_id : Option ℕ

-- Blobs that are 'AVAILABLE' and 'CLEAR', as this service writes them.
pub record StoredBlob : Type 0 where
  pub tenant_id : Text
  pub id : ℕ
  pub sha256 : Text
  pub stored_size_bytes : ℕ
  pub detected_mime : Text

-- Files that are 'AVAILABLE', as this service writes them.
pub record FileObject : Type 0 where
  pub tenant_id : Text
  pub id : ℕ
  pub stored_blob_id : ℕ
  pub normalized_filename : Text
  pub authoritative_size_bytes : ℕ
  pub category : Category
  pub uploaded_by : Text

pub record FileReference : Type 0 where
  pub tenant_id : Text
  pub file_object_id : ℕ
  pub category : Category
  pub parent_id : ℕ

-- An account that has no row yet is one of zeros, as `ensureScopeRows` creates it.
pub record State : Type 0 where
  pub accounts : Scope → Account
  pub intents : List UploadIntent
  pub blobs : List StoredBlob
  pub files : List FileObject
  pub references : List FileReference

pub data Refusal : Type 0 where
  global_quota_exceeded tenant_quota_exceeded no_capacity : Refusal
  denied not_found unavailable intent_expired content_mismatch file_too_large scan_failed
        size_invalid :
      Refusal
  check_violation unique_violation : Refusal

-- `tenantId_id`
abbrev pub is_intent : Text → ℕ → UploadIntent → Bool
is_intent tenant_id id i = text_eq i.tenant_id tenant_id && i.id == id

abbrev pub find_intent : Text → ℕ → State → Option UploadIntent
find_intent tenant_id id s = find (is_intent tenant_id id) s.intents

-- `uploadIntent.update` on the row with the primary key
unfoldable pub set_intent_status : Text → ℕ → IntentStatus → State → State
set_intent_status tenant_id id status s = record s {
  intents = update_first (is_intent tenant_id id) (λ i. record i { status = status }) s.intents;
}
