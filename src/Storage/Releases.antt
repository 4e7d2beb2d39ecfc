-- ===== src/Storage/Releases.antt =====
-- Releasing an intent and finalizing an upload keep the accounts of
-- apps/api/src/storage/storage.service.ts the sums over their rows.
use edupay_academico.Prelude.{
  ok-injective, ℕ, ◌+◌, ◌≡◌, refl, ap, sym, subst, Bool, true, false, Option, none, some, List,
  Text, if◌then◌else◌, ok, bind-eq-ok, require-eq-ok, require_some-eq-ok, require_some, require,
  sum, arith, Bool-cases, inl, inr, any,
}
use edupay_academico.Storage.{
  Scope, Account, State, UploadIntent, StoredBlob, FileObject, finalized, is_live, is_staged,
  staged, find_intent, set_intent_status, IntentStatus, not_found, unavailable,
}
use edupay_academico.Storage.Accounts.{Delta, adjust_account}
use edupay_academico.Storage.Uploads.{
  release_intent, release_found, release_and_account, finalize_upload, Transfer, ValidatedFile,
  blobs_with, create_blob, new_blob, new_file_delta, with_file, is_blob, is_new, mark_finalized,
}
use edupay_academico.Storage.Balance.{
  Balanced, adjust_account-Adjusted, reserved-ended, counted, used_in,
}

release_found-Balanced :
    (status : IntentStatus) (t : Text) (id : ℕ) (found : Option UploadIntent) (st st' : State)
    → find_intent t id st ≡ found
    → is_live status ≡ false
    → Balanced st
    → release_found status t id found st ≡ ok st'
    → Balanced st'
unfolding release_found set_intent_status
release_found-Balanced status t id none st st' f dead h e = subst Balanced (ok-injective e) h
release_found-Balanced status t id (some intent) st st' found dead h e =
    elim (Bool-cases (is_live intent.status)) [
      | inr f ↦ subst Balanced (ok-injective (rw f at e)) h
      | inl live ↦
          let d : Delta = record {
            files = 0;
            blobs = 0;
            used = 0;
            released = intent.reserved_bytes;
          } in
          let (accounts, ea, es) =
            bind-eq-ok {A = Scope → Account} (adjust_account t d st.accounts) _ (rw live at e) in
          subst Balanced (ok-injective es) (λ s.
            let a = adjust_account-Adjusted t d st.accounts accounts s ea in
            let r =
              reserved-ended t id st intent found s (λ i. record i { status = status }) live dead in
            record {
              used = ground (arith, (h s).used, a.used);
              reserved = ground (arith, (h s).reserved, a.reserved, r);
              files = ground (arith, (h s).files, a.files);
              blobs = ground (arith, (h s).blobs, a.blobs);
            })
    ]

-- Releasing an intent, as failed or as expired, keeps every account balanced.
pub release_intent-Balanced :
    (status : IntentStatus) (t : Text) (id : ℕ) (st st' : State)
    → is_live status ≡ false
    → Balanced st
    → release_intent status t id st ≡ ok st'
    → Balanced st'
unfolding release_intent
release_intent-Balanced status t id st st' =
    release_found-Balanced status t id (find_intent t id st) st st' refl

-- The blob that is new, if one is, in a sum over the blobs.
blobs_with-sum :
    (g : StoredBlob → ℕ) (n : ℕ) (tenant : Text) (t : Transfer) (v : ValidatedFile)
    (existing : Option ℕ) (blobs blobs' : List StoredBlob)
    → g (new_blob tenant t v) ≡ n
    → blobs_with tenant t v existing blobs ≡ ok blobs'
    → sum g blobs' ≡ sum g blobs + (if is_new existing then n else 0)
unfolding create_blob
blobs_with-sum g n tenant t v (some id) blobs blobs' each e =
    subst (λ bs. sum g bs ≡ sum g blobs + 0) (ok-injective e) (omega arith)
blobs_with-sum g n tenant t v none blobs blobs' each e =
    elim (Bool-cases (any (is_blob tenant v) blobs)) [
      | inl taken ↦ let e' = rw taken at e in cc
      | inr free ↦
          subst (λ bs. sum g bs ≡ sum g blobs + n) (ok-injective (rw free at e))
            (omega (arith, each))
    ]

-- What a success of `releaseAndAccount` has found and done.
pub release_and_account-ok :
    (t : Text) (id size : ℕ) (new : Bool) (st st' : State)
    → release_and_account t id size new st ≡ ok st'
    → (i : UploadIntent) × (find_intent t id st ≡ some i)
      × (is_staged i.status ≡ true)
      × (accounts : Scope → Account) × (adjust_account t (new_file_delta size new i) st.accounts
          ≡ ok accounts)
      × (st' ≡ record st { accounts = accounts })
unfolding release_and_account
release_and_account-ok t id size new st st' e =
    let (i, ei, e₁) =
      bind-eq-ok {A = UploadIntent} (require_some not_found (find_intent t id st)) _ e in
    let (u, eu, e₂) = bind-eq-ok {A = Unit} (require unavailable (is_staged i.status)) _ e₁ in
    let (accounts, ea, e₃) =
      bind-eq-ok {A = Scope → Account} (adjust_account t (new_file_delta size new i) st.accounts) _
        e₂ in
    (
      i,
      require_some-eq-ok not_found _ ei,
      require-eq-ok unavailable _ eu,
      accounts,
      ea,
      sym (ok-injective e₃),
    )

staged-live : (s : IntentStatus) → is_staged s ≡ true → is_live s ≡ true
staged-live staged h = refl
staged-live _ h = cc

module _ (t : Transfer) (intent : UploadIntent) (v : ValidatedFile) (existing : Option ℕ) where
  -- Finalizing an upload keeps every account balanced.
  pub finalize_upload-Balanced :
      (st st' : State) (file : FileObject)
      → Balanced st
      → finalize_upload t intent v existing st ≡ ok (st', file)
      → Balanced st'
  unfolding finalize_upload
  finalize_upload-Balanced st st' file h e =
      let (blobs, eb, e₁) =
        bind-eq-ok {A = List StoredBlob} (blobs_with intent.tenant_id t v existing st.blobs) _ e in
      let filed = with_file t intent v existing blobs st in
      let (released, er, e₂) =
        bind-eq-ok {A = State}
          (release_and_account intent.tenant_id intent.id v.authoritative_size_bytes
            (is_new existing) filed)
          _ e₁ in
      let (i, found, is_staged_i, accounts, ea, eq) =
        release_and_account-ok intent.tenant_id intent.id v.authoritative_size_bytes
          (is_new existing) filed released er in
      subst Balanced (ap (λ p. p.0) (ok-injective e₂)) (
        subst (λ r. Balanced (mark_finalized intent.tenant_id intent.id t.new_file_id r)) (sym eq)
          (λ s.
            let a = adjust_account-Adjusted intent.tenant_id _ st.accounts accounts s ea in
            let r =
              reserved-ended intent.tenant_id intent.id st i found s
                (λ j. record j {
                  status = finalized;
                  finalized_file_object_id = some t.new_file_id;
                })
                (staged-live i.status is_staged_i) refl in
            let u =
              blobs_with-sum (used_in s) (counted s intent.tenant_id v.authoritative_size_bytes)
                intent.tenant_id t v existing st.blobs blobs refl eb in
            let c =
              blobs_with-sum (λ b. counted s b.tenant_id 1) (counted s intent.tenant_id 1)
                intent.tenant_id t v existing st.blobs blobs refl eb in
            record {
              used = ground (arith, (h s).used, a.used, u);
              reserved = ground (arith, (h s).reserved, a.reserved, r);
              files = ground (arith, (h s).files, a.files);
              blobs = ground (arith, (h s).blobs, a.blobs, c);
            }))
