-- ===== src/Storage/Stale.antt =====
-- An intent that ends while its upload is being validated: `completeUpload` of
-- apps/api/src/storage/storage.service.ts then stages it without regard to its status.
use edupay_academico.Prelude.{
  ok-injective, ℕ, ◌+◌, ◌≡◌, refl, sym, subst, true, some, Text, ok, bind-eq-ok, sum,
  sum-update_first, find-update_first, arith, ap, Result, err, Option-cases, inl, inr, none, false,
  leb,
}
use edupay_academico.Storage.{
  Scope, Account, State, UploadIntent, failed, expired, staged, is_live, is_intent, find_intent,
  IntentStatus, set_intent_status, finalized, Refusal, FileObject,
}
use edupay_academico.Storage.Accounts.{Delta, adjust_account}
use edupay_academico.Storage.Uploads.{
  release_found, release_intent, expire_intent, fail_intent, Transfer, ValidatedFile,
}
use edupay_academico.Storage.Balance.{
  Balanced, adjust_account-Adjusted, counted, reserved_in, reserved-ended, own_tenant,
}
use edupay_academico.Storage.Completion.{
  Others, after_release, is_finalized, file_of, match_intent, check_before, check_after, store,
  stage_and_store, answer_with, receive, get_authorized_intent, complete_upload,
}
use edupay_academico.Storage.Flow.{authorized-found}
use edupay_academico.Storage.Releases.{release_intent-Balanced}

abbrev release_delta : UploadIntent → Delta
release_delta i = record { files = 0; blobs = 0; used = 0; released = i.reserved_bytes }

-- What the release of a live intent has done.
release_intent-ok :
    (status : IntentStatus) (t : Text) (id : ℕ) (i : UploadIntent) (st st' : State)
    → find_intent t id st ≡ some i
    → is_live i.status ≡ true
    → release_intent status t id st ≡ ok st'
    → (accounts : Scope → Account) × (adjust_account t (release_delta i) st.accounts ≡ ok accounts)
      × (st' ≡ set_intent_status t id status (record st { accounts = accounts }))
unfolding release_intent release_found
release_intent-ok status t id i st st' found live e =
    let e₀ : release_found status t id (some i) st ≡ ok st' =
      subst (λ o. release_found status t id o st ≡ ok st') found e in
    let (accounts, ea, es) =
      bind-eq-ok {A = Scope → Account} (adjust_account t (release_delta i) st.accounts) _
        (rw live at e₀) in
    (accounts, ea, sym (ok-injective es))

module _ (t : Text) (id : ℕ) (i : UploadIntent) (st st₁ : State) (h : Balanced st)
    (found : find_intent t id st ≡ some i) (live : is_live i.status ≡ true)
    (ended : expire_intent t id st ≡ ok st₁) where
  abbrev i₁ : UploadIntent
  i₁ = record i { status = expired }

  found_expired : find_intent t id st₁ ≡ some i₁
  unfolding set_intent_status
  found_expired =
      let (accounts, ea, eq) = release_intent-ok expired t id i st st₁ found live ended in
      subst (λ (r : State). find_intent t id r ≡ some i₁) (sym eq)
        (find-update_first (is_intent t id) (λ j. record j { status = expired }) st.intents i
          (λ y. refl) found)

  abbrev i₂ : UploadIntent
  i₂ = record i { status = staged }

  staged_again : State
  staged_again = set_intent_status t id staged st₁

  found_staged : find_intent t id staged_again ≡ some i₂
  unfolding set_intent_status staged_again
  found_staged =
      find-update_first (is_intent t id) (λ j. record j { status = staged }) st₁.intents i₁
        (λ y. refl) found_expired

  -- Staging gives the reservation back to the intent, but not to the accounts.
  reserved-staged_again :
      (s : Scope)
      → sum (reserved_in s) staged_again.intents
        ≡ sum (reserved_in s) st₁.intents + counted s t i.reserved_bytes
  unfolding set_intent_status staged_again
  reserved-staged_again s = ground (
    arith,
    own_tenant t id st i found,
    sum-update_first (reserved_in s) (is_intent t id) (λ j. record j { status = staged })
        st₁.intents i₁ found_expired,
  )

  accounts-staged_again : (s : Scope) → staged_again.accounts s ≡ st₁.accounts s
  unfolding set_intent_status staged_again
  accounts-staged_again s = refl

  -- What is missing in a state's accounts of reserved bytes
  abbrev Undercounts : State → Type 0
  Undercounts z =
      (s : Scope)
      → (z.accounts s).reserved_bytes + counted s t i.reserved_bytes ≡ sum (reserved_in s) z.intents

  staged_again-Undercounts : Undercounts staged_again
  staged_again-Undercounts s =
      let b = (release_intent-Balanced expired t id st st₁ refl h ended s).reserved in
      omega (arith, b, reserved-staged_again s, ap Account.reserved_bytes (accounts-staged_again s))

  -- The release of an intent that is staged again gives its bytes back a second time.
  fail_intent-Undercounts : (st₂ : State) → fail_intent t id staged_again ≡ ok st₂ → Undercounts st₂
  unfolding set_intent_status staged_again
  fail_intent-Undercounts st₂ again s =
      let (accounts, ea, eq) =
        release_intent-ok failed t id i₂ staged_again st₂ found_staged refl again in
      let a = adjust_account-Adjusted t (release_delta i₂) staged_again.accounts accounts s ea in
      let r =
        reserved-ended t id staged_again i₂ found_staged s (λ j. record j { status = failed }) refl
          refl in
      let b = (release_intent-Balanced expired t id st st₁ refl h ended s).reserved in
      let g = reserved-staged_again s in
      subst
        (λ (z : State).
          (z.accounts s).reserved_bytes + counted s t i.reserved_bytes
          ≡ sum (reserved_in s) z.intents)
        (sym eq) (ground (arith, a.reserved, r, b, g))

  after_release-Undercounts :
      (e : Refusal) (r : Result Refusal State)
      → fail_intent t id staged_again ≡ r
      → Undercounts (after_release {A = FileObject} e staged_again r).0
  after_release-Undercounts e (ok st₂) again = fail_intent-Undercounts st₂ again
  after_release-Undercounts e (err e') again = staged_again-Undercounts

file_of-live :
    (t : Text) (i : UploadIntent) (s : State) → is_live i.status ≡ true → file_of t i s ≡ none
file_of-live t i s live = elim (Option-cases i.finalized_file_object_id) [
  | inl n ↦ rw n refl
  | inr (id, e) ↦
      let not_finalized : is_finalized i.status ≡ false = live_only i.status live in
      rw (e, not_finalized) refl
]
  where
    live_only : (status : IntentStatus) → is_live status ≡ true → is_finalized status ≡ false
    live_only finalized h = cc
    live_only _ h = refl

module _ (may_use may_change : UploadIntent → Result Refusal (Unit {0})) (others : Others)
    (t : Transfer) (id : ℕ) (st st₁ : State) (i : UploadIntent) (v : ValidatedFile)
    (e : Refusal) where
  late_upload-eq :
      get_authorized_intent may_use t id st ≡ ok i
      → i.id ≡ id
      → may_change i ≡ ok tt
      → is_live i.status ≡ true
      → leb i.expires_at t.now ≡ false
      → others.before_stage st ≡ st₁
      → match_intent i t.validated ≡ ok v
      → check_before t v ≡ ok tt
      → check_after t ≡ err e
      → complete_upload may_use may_change others t id st
        ≡ after_release e
            (set_intent_status t.tenant_id id staged st₁)
            (fail_intent t.tenant_id id (set_intent_status t.tenant_id id staged st₁))
  unfolding complete_upload receive answer_with stage_and_store store
  late_upload-eq authorized own allowed live in_time waits matched checked infected =
      rw
        (
          authorized,
          allowed,
          file_of-live t.tenant_id i st live,
          live,
          in_time,
          matched,
          checked,
          infected,
          waits,
          own,
        )
        refl

  -- While the content of an upload is validated, others expire its intent, and do nothing else;
  -- `completeUpload` had found the intent live and in time, and stages it nevertheless, and the scan
  -- that follows fails. In the state that `completeUpload` then leaves, every account of the tenant
  -- and the global one hold less than the live intents have reserved, by the bytes of this intent.
  -- When the upload starts the accounts are the sums over their rows; the user may use the intent
  -- and change its parent, and the content matches it.
  pub late_stage-undercounts :
      Balanced st
      → get_authorized_intent may_use t id st ≡ ok i
      → may_change i ≡ ok tt
      → is_live i.status ≡ true
      → leb i.expires_at t.now ≡ false
      → expire_intent t.tenant_id id st ≡ ok st₁
      → others.before_stage st ≡ st₁
      → match_intent i t.validated ≡ ok v
      → check_before t v ≡ ok tt
      → check_after t ≡ err e
      → (s : Scope)
      → ((complete_upload may_use may_change others t id st).0.accounts s).reserved_bytes
          + counted s t.tenant_id i.reserved_bytes
        ≡ sum (reserved_in s) (complete_upload may_use may_change others t id st).0.intents
  unfolding staged_again
  late_stage-undercounts h authorized allowed live in_time ended waits matched checked infected s =
      let (own, found) = authorized-found t others may_use id st i authorized in
      let found' : find_intent t.tenant_id id st ≡ some i = rw⁻¹ own found in
      rw (late_upload-eq authorized own allowed live in_time waits matched checked infected) (
        after_release-Undercounts t.tenant_id id i st st₁ h found' live ended e
          (fail_intent t.tenant_id id (set_intent_status t.tenant_id id staged st₁)) refl s)
