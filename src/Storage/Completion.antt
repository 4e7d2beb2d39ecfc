-- ===== src/Storage/Completion.antt =====
-- `completeUpload` and `cleanupExpiredUploads` of apps/api/src/storage/storage.service.ts.
-- The access rules of the parent are a parameter; the removal of physical objects is left out.
use edupay_academico.Prelude.{
  ℕ, Bool, true, false, not, Option, none, some, List, [], ◌∷◌, Text, text_eq, ◌&&◌, leb, ◌==◌,
  find, if◌then◌else◌, Result, ok, err, ◌>>=◌, ◌>>◌, require, require_some, try_catch,
}
use edupay_academico.Storage.{
  State, UploadIntent, FileObject, staged, finalized, IntentStatus, is_live, find_intent,
  set_intent_status, Refusal, denied, unavailable, intent_expired, content_mismatch, size_invalid,
  unique_violation,
}
use edupay_academico.Storage.Uploads.{
  Transfer, ValidatedFile, is_new, is_blob, finalize_upload, fail_intent, expire_intent,
}

-- MAX_FILE_SIZE_BYTES of packages/contracts
abbrev pub max_file_size_bytes : ℕ
max_file_size_bytes = 25000000

-- What a request waits for: the state that others leave behind meanwhile.
pub record Others : Type 0 where
  pub before_stage : State → State
  pub before_finalize : State → State

module _ (may_use : UploadIntent → Result Refusal (Unit {0})) where
  unfoldable pub get_authorized_intent : Transfer → ℕ → State → Result Refusal UploadIntent
  get_authorized_intent t id s = do
    intent ← require_some denied (find_intent t.tenant_id id s)
    require denied (text_eq intent.created_by t.identity_user_id)
    may_use intent
    ok intent

-- `catch { await this.failIntent(…); throw error; }`: where releasing fails, its error is thrown.
abbrev pub after_release :
    {A : Type 0} → Refusal → State → Result Refusal State → State × Result Refusal A
after_release e s (ok s') = (s', err e)
after_release e s (err e') = (s, err e')

abbrev pub is_own : Transfer → Option UploadIntent → Bool
is_own t none = false
is_own t (some intent) = text_eq intent.created_by t.identity_user_id

abbrev pub is_finalized : IntentStatus → Bool
is_finalized finalized = true
is_finalized _ = false

-- The file that an upload which is repeated has become.
abbrev pub file_of : Text → UploadIntent → State → Option FileObject
file_of tenant_id intent s = elim intent.finalized_file_object_id [
  | none ↦ none
  | some id ↦
      if is_finalized intent.status
      then find (λ f. text_eq f.tenant_id tenant_id && f.id == id) s.files
      else none
]

-- The content is valid and it is the one that the intent was made for.
unfoldable pub match_intent :
    UploadIntent → Result Refusal ValidatedFile → Result Refusal ValidatedFile
match_intent intent validated = do
  v ← validated
  require content_mismatch (
      text_eq v.normalized_filename intent.expected_filename
      && text_eq v.declared_mime intent.expected_mime
      && v.declared_size_bytes == intent.expected_size_bytes)
  ok v

abbrev pub find_blob : Text → ValidatedFile → State → Option ℕ
find_blob tenant_id v s = elim (find (is_blob tenant_id v) s.blobs) [
  | none ↦ none
  | some b ↦ some b.id
]

abbrev pub is_unique_violation : Refusal → Bool
is_unique_violation unique_violation = true
is_unique_violation _ = false

unfoldable pub reuse_winner :
    Transfer
    → UploadIntent
    → ValidatedFile
    → (winner : Option ℕ) → State
    → Refusal
    → Result Refusal (State × FileObject)
reuse_winner t intent v none s e = err e
reuse_winner t intent v (some winner) s e = finalize_upload t intent v (some winner) s

-- After the first `finalizeUpload`: a unique violation of a new blob is answered with the winner's.
unfoldable pub finalize_again :
    Transfer
    → UploadIntent
    → ValidatedFile
    → (existing : Option ℕ) → State
    → Refusal
    → Result Refusal (State × FileObject)
unfolding reuse_winner
finalize_again t intent v existing s e =
    if is_new existing && is_unique_violation e
    then reuse_winner t intent v (find_blob t.tenant_id v s) s e
    else err e

unfoldable pub finalize_or_reuse :
    Transfer
    → UploadIntent
    → ValidatedFile
    → (existing : Option ℕ) → State
    → Result Refusal (State × FileObject)
unfolding finalize_again
finalize_or_reuse t intent v existing s =
    try_catch (finalize_upload t intent v existing s) (finalize_again t intent v existing s) ok

abbrev pub promote_new : Transfer → Option ℕ → Result Refusal (Unit {0})
promote_new t none = t.promoted
promote_new t (some id) = ok tt

-- The checks before the intent is staged, and those after it.
unfoldable pub check_before : Transfer → ValidatedFile → Result Refusal (Unit {0})
check_before t v = do
  if t.in_memory then t.scanned else ok tt
  size ← t.staged_size
  require size_invalid (size == v.authoritative_size_bytes && leb size max_file_size_bytes)

abbrev pub check_after : Transfer → Result Refusal (Unit {0})
check_after t = if t.in_memory then ok tt else t.scanned

-- The steps of the `try` block once the intent is staged.
unfoldable pub store :
    Others → Transfer → UploadIntent → ValidatedFile → State → State × Result Refusal FileObject
unfolding finalize_or_reuse
store others t intent v s =
    let existing = find_blob t.tenant_id v s in
    try_catch (check_after t >> promote_new t existing)
      (λ e. after_release e s (fail_intent t.tenant_id intent.id s))
      (λ u.
        let s' = others.before_finalize s in
        try_catch (finalize_or_reuse t intent v existing s')
          (λ e. after_release e s' (fail_intent t.tenant_id intent.id s'))
          (λ done. (done.0, ok done.1)))

unfoldable pub stage_and_store :
    Others → Transfer → UploadIntent → ValidatedFile → State → State × Result Refusal FileObject
unfolding check_before store
stage_and_store others t intent v s =
    try_catch (check_before t v) (λ e. after_release e s (fail_intent t.tenant_id intent.id s))
      (λ u. store others t intent v (set_intent_status t.tenant_id intent.id staged s))

unfoldable pub answer_with :
    Others → Transfer → UploadIntent → State → Option FileObject → State × Result Refusal FileObject
unfolding match_intent stage_and_store
answer_with others t intent s (some file) = (s, ok file)
answer_with others t intent s none =
    if not (is_live intent.status)
    then (s, err unavailable)
    else if leb intent.expires_at t.now
    then after_release intent_expired s (expire_intent t.tenant_id intent.id s)
    else try_catch (match_intent intent t.validated)
        (λ e. after_release e s (fail_intent t.tenant_id intent.id s))
        (λ v. stage_and_store others t intent v (others.before_stage s))

-- The answer for an intent that the user may upload to.
unfoldable pub receive :
    Others → Transfer → UploadIntent → State → State × Result Refusal FileObject
unfolding answer_with
receive others t intent s = answer_with others t intent s (file_of t.tenant_id intent s)

module _ (may_use may_change : UploadIntent → Result Refusal (Unit {0})) where
  unfoldable pub complete_upload :
      Others → Transfer → (intent_id : ℕ) → State → State × Result Refusal FileObject
  unfolding get_authorized_intent receive
  complete_upload others t id s =
      try_catch (get_authorized_intent may_use t id s)
        (λ e.
          if is_own t (find_intent t.tenant_id id s)
          then after_release e s (fail_intent t.tenant_id id s)
          else (s, err e))
        (λ intent. try_catch (may_change intent) (λ e. (s, err e)) (λ u. receive others t intent s))

-- `cleanupExpiredUploads`, for the intents that `findMany` gave; an error ends the loop.
unfoldable pub cleanup : List UploadIntent → State → State × Result Refusal (Unit {0})
cleanup [] s = (s, ok tt)
cleanup (intent ∷ intents) s =
    if is_live intent.status
    then try_catch (expire_intent intent.tenant_id intent.id s) (λ e. (s, err e)) (cleanup intents)
    else cleanup intents s
