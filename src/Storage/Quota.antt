-- ===== src/Storage/Quota.antt =====
-- The quotas of apps/api/src/storage/storage.service.ts: bytes that are used or reserved stay within
-- the quota of the tenant and the global one, in any sequence of the writes on intents.
use edupay_academico.Prelude.{ℕ, ◌+◌, ◌≤◌, ◌≡◌, Option, some, Text, ok, All, Result}
use edupay_academico.Storage.Completion.{match_intent}
use edupay_academico.Storage.{
  Scope, Account, State, UploadIntent, FileObject, staged, IntentStatus, find_intent,
  set_intent_status, Refusal,
}
use edupay_academico.Storage.Uploads.{
  Reservation, reserve_upload, release_intent, finalize_upload, Transfer, ValidatedFile,
}

abbrev pub held : Account → ℕ
held a = a.used_bytes + a.reserved_bytes

-- An intent expects no more bytes than it has reserved.
abbrev pub IsSized : State → Type 0
IsSized st = All (λ i. i.expected_size_bytes ≤ i.reserved_bytes) st.intents

module _ (quota : Scope → ℕ) {Upload : Type 0}
    (validate : Upload → Result Refusal ValidatedFile) where
  -- One write to the rows of intents: a reservation; the release of an intent; the staging of one
  -- by its key alone; or the finalization of an upload whose content was valid and matched the
  -- intent as it was read, where the row of the intent still expects that size.
  pub data Step : State → State → Type 0 where
    reserves : (r : Reservation) {st st' : State} → reserve_upload quota r st ≡ ok st' → Step st st'
    releases :
        (status : IntentStatus) (t : Text) (id : ℕ) {st st' : State}
        → release_intent status t id st ≡ ok st'
        → Step st st'
    stages : (t : Text) (id : ℕ) {st : State} → Step st (set_intent_status t id staged st)
    finalizes :
        (u : Upload) (t : Transfer) (intent i : UploadIntent) (v : ValidatedFile)
        (existing : Option ℕ) (file : FileObject) {st st' : State}
        → match_intent intent (validate u) ≡ ok v
        → find_intent intent.tenant_id intent.id st ≡ some i
        → i.expected_size_bytes ≡ intent.expected_size_bytes
        → finalize_upload t intent v existing st ≡ ok (st', file)
        → Step st st'

  pub data Run : State → State → Type 0 where
    stop : {s : State} → Run s s
    step : {s t u : State} → Step s t → Run t u → Run s u
