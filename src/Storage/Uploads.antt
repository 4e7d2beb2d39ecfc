-- ===== src/Storage/Uploads.antt =====
-- Operations of apps/api/src/storage/storage.service.ts on upload intents. Physical storage, the
-- validator of contents and the malware scanner are parameters: what they answered is in `Transfer`.
-- What other requests and the cleanup write while this one waits is `meanwhile` and `at_the_end`.
use edupay_academico.Prelude.{
  ℕ, ◌+◌, Bool, true, false, not, Option, none, some, List, ◌∷◌, Text, text_eq, ◌&&◌, ◌==◌,
  update_first, any, if◌then◌else◌, Result, ok, err, ◌>>=◌, ◌>>◌, require, require_some,
}
use edupay_academico.Storage.{
  Scope, global, tenant, State, UploadIntent, StoredBlob, FileObject, FileReference, Category,
  student_submission, IntentStatus, reserved, finalized, failed, expired, is_live, is_staged,
  is_intent, find_intent, set_intent_status, Refusal, global_quota_exceeded, tenant_quota_exceeded,
  no_capacity, not_found, unavailable, unique_violation,
}
use edupay_academico.Storage.Accounts.{Delta, adjust_account, reserve_account}

pub record UploadMetadata : Type 0 where
  pub normalized_filename : Text
  pub declared_mime : Text
  pub declared_size_bytes : ℕ

pub record Reservation : Type 0 where
  pub tenant_id : Text
  pub identity_user_id : Text
  pub parent_id : ℕ
  pub category : Category
  pub metadata : UploadMetadata
  pub new_intent_id : ℕ
  pub now : ℕ
  -- `assertPhysicalCapacity` throws nothing.
  pub has_capacity : Bool

-- 15 * 60 * 1000
abbrev pub expiry_ms : ℕ
expiry_ms = 900000

unfoldable pub new_intent : Reservation → UploadIntent
new_intent r = record {
  tenant_id = r.tenant_id;
  id = r.new_intent_id;
  created_by = r.identity_user_id;
  parent_id = r.parent_id;
  category = r.category;
  expected_filename = r.metadata.normalized_filename;
  expected_size_bytes = r.metadata.declared_size_bytes;
  expected_mime = r.metadata.declared_mime;
  reserved_bytes = r.metadata.declared_size_bytes;
  status = reserved;
  expires_at = r.now + expiry_ms;
  finalized_file_object_id = none;
}

-- `quota` is the table of policies.
unfoldable pub reserve_upload : (quota : Scope → ℕ) → Reservation → State → Result Refusal State
unfolding new_intent reserve_account
reserve_upload quota r s = do
  require no_capacity r.has_capacity
  let size = r.metadata.declared_size_bytes
  with_global ← reserve_account global_quota_exceeded global size (quota global) s.accounts
  with_tenant ←
      reserve_account tenant_quota_exceeded (tenant r.tenant_id) size (quota (tenant r.tenant_id))
        with_global
  ok (record s { accounts = with_tenant; intents = new_intent r ∷ s.intents })

-- The transactions of `failIntent` and `expireIntent`, with the status they write, for the intent
-- that they find.
unfoldable pub release_found :
    IntentStatus → Text → ℕ → Option UploadIntent → State → Result Refusal State
unfolding adjust_account set_intent_status
release_found status tenant_id id none s = ok s
release_found status tenant_id id (some intent) s = if not (is_live intent.status) then ok s else do
  accounts ←
      adjust_account tenant_id
        (record { files = 0; blobs = 0; used = 0; released = intent.reserved_bytes }) s.accounts
  ok (set_intent_status tenant_id id status (record s { accounts = accounts }))

unfoldable pub release_intent : IntentStatus → Text → ℕ → State → Result Refusal State
unfolding release_found
release_intent status tenant_id id s =
    release_found status tenant_id id (find_intent tenant_id id s) s

abbrev pub fail_intent : Text → ℕ → State → Result Refusal State
fail_intent = release_intent failed

abbrev pub expire_intent : Text → ℕ → State → Result Refusal State
expire_intent = release_intent expired

abbrev pub new_file_delta : (size_bytes : ℕ) → (is_new_blob : Bool) → UploadIntent → Delta
new_file_delta size_bytes is_new_blob intent = record {
  files = 1;
  blobs = if is_new_blob then 1 else 0;
  used = if is_new_blob then size_bytes else 0;
  released = intent.reserved_bytes;
}

unfoldable pub release_and_account :
    Text → ℕ → (size_bytes : ℕ) → (is_new_blob : Bool) → State → Result Refusal State
unfolding adjust_account
release_and_account tenant_id id size_bytes is_new_blob s = do
  intent ← require_some not_found (find_intent tenant_id id s)
  require unavailable (is_staged intent.status)
  accounts ← adjust_account tenant_id (new_file_delta size_bytes is_new_blob intent) s.accounts
  ok (record s { accounts = accounts })

pub record ValidatedFile : Type 0 where
  pub normalized_filename : Text
  pub declared_mime : Text
  pub declared_size_bytes : ℕ
  pub detected_mime : Text
  pub authoritative_size_bytes : ℕ
  pub sha256 : Text

-- A user's upload of the content of an intent.
pub record Transfer : Type 0 where
  pub tenant_id : Text
  pub identity_user_id : Text
  pub now : ℕ
  -- `fileBytes` is given, not `filePath`.
  pub in_memory : Bool
  pub validated : Result Refusal ValidatedFile
  pub scanned : Result Refusal (Unit {0})
  pub staged_size : Result Refusal ℕ
  pub promoted : Result Refusal (Unit {0})
  pub new_blob_id : ℕ
  pub new_file_id : ℕ

-- The key of `storedBlob.findFirst`, which the table has as a unique key.
abbrev pub is_blob : Text → ValidatedFile → StoredBlob → Bool
is_blob tenant_id v b =
    text_eq b.tenant_id tenant_id
    && text_eq b.sha256 v.sha256
    && b.stored_size_bytes == v.authoritative_size_bytes

abbrev pub new_blob : Text → Transfer → ValidatedFile → StoredBlob
new_blob tenant_id t v = record {
  tenant_id = tenant_id;
  id = t.new_blob_id;
  sha256 = v.sha256;
  stored_size_bytes = v.authoritative_size_bytes;
  detected_mime = v.detected_mime;
}

unfoldable pub create_blob :
    Text → Transfer → ValidatedFile → List StoredBlob → Result Refusal (List StoredBlob)
create_blob tenant_id t v blobs =
    if any (is_blob tenant_id v) blobs
    then err unique_violation
    else ok (new_blob tenant_id t v ∷ blobs)

abbrev pub is_new : Option ℕ → Bool
is_new none = true
is_new (some id) = false

abbrev pub blob_id : Transfer → Option ℕ → ℕ
blob_id t none = t.new_blob_id
blob_id t (some id) = id

abbrev pub blobs_with :
    Text → Transfer → ValidatedFile → Option ℕ → List StoredBlob → Result Refusal (List StoredBlob)
blobs_with tenant_id t v none blobs = create_blob tenant_id t v blobs
blobs_with tenant_id t v (some id) blobs = ok blobs

abbrev pub is_submission : Category → Bool
is_submission student_submission = true
is_submission _ = false

abbrev pub new_file : Transfer → UploadIntent → ValidatedFile → Option ℕ → FileObject
new_file t intent v existing = record {
  tenant_id = intent.tenant_id;
  id = t.new_file_id;
  stored_blob_id = blob_id t existing;
  normalized_filename = v.normalized_filename;
  authoritative_size_bytes = v.authoritative_size_bytes;
  category = intent.category;
  uploaded_by = t.identity_user_id;
}

abbrev pub references_with : Transfer → UploadIntent → List FileReference → List FileReference
references_with t intent references =
    if is_submission intent.category
    then references
    else record {
      tenant_id = intent.tenant_id;
      file_object_id = t.new_file_id;
      category = intent.category;
      parent_id = intent.parent_id;
    }
      ∷ references

abbrev pub mark_finalized : Text → ℕ → ℕ → State → State
mark_finalized tenant_id id file_id s = record s {
  intents =
      update_first (is_intent tenant_id id)
        (λ i. record i { status = finalized; finalized_file_object_id = some file_id }) s.intents;
}

-- The rows that `finalizeUpload` creates.
abbrev pub with_file :
    Transfer → UploadIntent → ValidatedFile → Option ℕ → List StoredBlob → State → State
with_file t intent v existing blobs s = record s {
  blobs = blobs;
  files = new_file t intent v existing ∷ s.files;
  references = references_with t intent s.references;
}

-- `existing` is the blob with the same content, if there is one.
unfoldable pub finalize_upload :
    Transfer
    → UploadIntent
    → ValidatedFile
    → (existing : Option ℕ) → State
    → Result Refusal (State × FileObject)
unfolding create_blob release_and_account
finalize_upload t intent v existing s = do
  blobs ← blobs_with intent.tenant_id t v existing s.blobs
  released ←
      release_and_account intent.tenant_id intent.id v.authoritative_size_bytes (is_new existing)
        (with_file t intent v existing blobs s)
  let file = new_file t intent v existing
  ok (mark_finalized intent.tenant_id intent.id file.id released, file)
