-- ===== src/Storage/Flow.antt =====
-- The whole of `completeUpload` of apps/api/src/storage/storage.service.ts keeps the accounts the
-- sums over their rows.
use edupay_academico.Prelude.{
  ok-injective, ℕ, ◌≡◌, refl, subst, true, not, Option, none, some, Text, if-elim, find-test,
  Result, ok, err, ◌>>◌, ◌∙◌, ◌&&◌, try_catch-elim, bind-eq-ok, require, require_some-eq-ok,
  require_some, Bool-cases, inl, inr, sum-update_first, arith, leb, text_eq,
}
use edupay_academico.Storage.{
  State, UploadIntent, FileObject, staged, is_live, is_intent, find_intent, set_intent_status,
  Refusal, denied, intent_expired,
}
use edupay_academico.Storage.Uploads.{
  Transfer, ValidatedFile, is_new, finalize_upload, fail_intent, expire_intent,
}
use edupay_academico.Storage.Completion.{
  Others, after_release, find_blob, finalize_again, finalize_or_reuse, store, stage_and_store,
  receive, get_authorized_intent, complete_upload, file_of, match_intent, check_before, check_after,
  promote_new, is_own, reuse_winner, is_unique_violation, answer_with,
}
use edupay_academico.Storage.Balance.{Balanced, reserved_in}
use edupay_academico.Storage.Releases.{release_intent-Balanced, finalize_upload-Balanced}

fail_intent-Balanced :
    (e : Refusal) (t : Text) (id : ℕ) (s : State)
    → Balanced s
    → Balanced (after_release {A = FileObject} e s (fail_intent t id s)).0
fail_intent-Balanced e t id s h =
    released (fail_intent t id s) (λ s'. release_intent-Balanced _ t id s s' refl h)
  where
    released :
        (r : Result Refusal State)
        → ((s' : State) → r ≡ ok s' → Balanced s')
        → Balanced (after_release {A = FileObject} e s r).0
    released (ok s') k = k s' refl
    released (err e') k = h

-- Staging an intent that is live changes no sum.
pub set_staged-Balanced :
    (t : Text) (id : ℕ) (s : State) (i : UploadIntent)
    → find_intent t id s ≡ some i
    → is_live i.status ≡ true
    → Balanced s
    → Balanced (set_intent_status t id staged s)
unfolding set_intent_status
set_staged-Balanced t id s i found live h scope = record {
  used = (h scope).used;
  files = (h scope).files;
  blobs = (h scope).blobs;
  reserved = ground (
    arith,
    live,
    (h scope).reserved,
    sum-update_first (reserved_in scope) (is_intent t id) (λ j. record j { status = staged })
        s.intents i found,
  );
}

module _ (t : Transfer) (intent : UploadIntent) (v : ValidatedFile) where
  reuse_winner-Balanced :
      (winner : Option ℕ) (s : State) (e : Refusal) (done : State × FileObject)
      → Balanced s
      → reuse_winner t intent v winner s e ≡ ok done
      → Balanced done.0
  unfolding reuse_winner
  reuse_winner-Balanced none s e done h eq = cc
  reuse_winner-Balanced (some w) s e done h eq =
      finalize_upload-Balanced t intent v (some w) s done.0 done.1 h eq

  finalize_again-Balanced :
      (existing : Option ℕ) (s : State) (e : Refusal) (done : State × FileObject)
      → Balanced s
      → finalize_again t intent v existing s e ≡ ok done
      → Balanced done.0
  unfolding finalize_again
  finalize_again-Balanced existing s e done h eq =
      elim (Bool-cases (is_new existing && is_unique_violation e)) [
        | inl new ↦ reuse_winner-Balanced (find_blob t.tenant_id v s) s e done h (rw new at eq)
        | inr old ↦ let no_result = rw old at eq in cc
      ]

  finalize_or_reuse-Balanced :
      (existing : Option ℕ) (s : State) (done : State × FileObject)
      → Balanced s
      → finalize_or_reuse t intent v existing s ≡ ok done
      → Balanced done.0
  unfolding finalize_or_reuse
  finalize_or_reuse-Balanced existing s done h =
      try_catch-elim (λ r. r ≡ ok done → Balanced done.0) (finalize_upload t intent v existing s)
        (finalize_again t intent v existing s) ok
        (λ e first. finalize_again-Balanced existing s e done h)
        (λ d first e. finalize_upload-Balanced t intent v existing s done.0 done.1 h (first ∙ e))

  -- What others write leaves the accounts balanced.
  abbrev pub Keep : (State → State) → Type 0
  Keep f = (s : State) → Balanced s → Balanced (f s)

  store-Balanced :
      (others : Others) (s : State)
      → Keep others.before_finalize
      → Balanced s
      → Balanced (store others t intent v s).0
  unfolding store
  store-Balanced others s keep h =
      let existing = find_blob t.tenant_id v s in
      let s' = others.before_finalize s in
      try_catch-elim (λ (r : State × Result Refusal FileObject). Balanced r.0)
        (check_after t >> promote_new t existing) _ _
        (λ e _. fail_intent-Balanced e t.tenant_id intent.id s h)
        (λ u _.
          try_catch-elim (λ (r : State × Result Refusal FileObject). Balanced r.0)
            (finalize_or_reuse t intent v existing s') _ _
            (λ e _. fail_intent-Balanced e t.tenant_id intent.id s' (keep s h))
            (λ done eq. finalize_or_reuse-Balanced existing s' done (keep s h) eq))

  -- The intent that is being uploaded to still holds its reservation in `s`.
  abbrev pub IsHeld : State → Type 0
  IsHeld s =
      (i : UploadIntent) × (find_intent t.tenant_id intent.id s ≡ some i)
      × (is_live i.status ≡ true)

  stage_and_store-Balanced :
      (others : Others) (s : State)
      → Keep others.before_finalize
      → IsHeld s
      → Balanced s
      → Balanced (stage_and_store others t intent v s).0
  unfolding stage_and_store
  stage_and_store-Balanced others s keep (i, found, live) h =
      try_catch-elim (λ (r : State × Result Refusal FileObject). Balanced r.0) (check_before t v) _
        _ (λ e _. fail_intent-Balanced e t.tenant_id intent.id s h)
        (λ u _.
          store-Balanced others (set_intent_status t.tenant_id intent.id staged s) keep
            (set_staged-Balanced t.tenant_id intent.id s i found live h))

module _ (t : Transfer) (others : Others) where
  -- Other requests keep the accounts balanced, and none of them ends the intent of this request, if
  -- it has found it live, before it is staged.
  pub record Considerate (id : ℕ) (s : State) : Type 0 where
    pub stage_keeps : Balanced s → Balanced (others.before_stage s)
    pub finalize_keeps : (s' : State) → Balanced s' → Balanced (others.before_finalize s')
    pub holds :
        (i : UploadIntent)
        → find_intent t.tenant_id id s ≡ some i
        → is_live i.status ≡ true
        → (j : UploadIntent) × (find_intent t.tenant_id id (others.before_stage s) ≡ some j)
          × (is_live j.status ≡ true)

  pub authorized-found :
      (may_use : UploadIntent → Result Refusal (Unit {0})) (id : ℕ) (s : State)
      (intent : UploadIntent)
      → get_authorized_intent may_use t id s ≡ ok intent
      → (intent.id ≡ id) × (find_intent t.tenant_id intent.id s ≡ some intent)
  unfolding get_authorized_intent
  authorized-found may_use id s intent e =
      let (i, ei, e₁) =
        bind-eq-ok {A = UploadIntent} (require_some denied (find_intent t.tenant_id id s)) _ e in
      let (u, eu, e₂) =
        bind-eq-ok {A = Unit} (require denied (text_eq i.created_by t.identity_user_id)) _ e₁ in
      let (w, ew, e₃) = bind-eq-ok {A = Unit} (may_use i) _ e₂ in
      let found = require_some-eq-ok denied _ ei in
      let test = find-test (is_intent t.tenant_id id) s.intents found in
      let same : i.id ≡ id = ground (arith, test) in
      subst (λ j. (j.id ≡ id) × (find_intent t.tenant_id j.id s ≡ some j)) (ok-injective e₃)
        (same, rw same found)

  expire_intent-Balanced :
      (id : ℕ) (s : State)
      → Balanced s
      → Balanced
          (after_release {A = FileObject} intent_expired s (expire_intent t.tenant_id id s)).0
  expire_intent-Balanced id s h =
      released (expire_intent t.tenant_id id s)
        (λ s'. release_intent-Balanced _ t.tenant_id id s s' refl h)
    where
      released :
          (r : Result Refusal State)
          → ((s' : State) → r ≡ ok s' → Balanced s')
          → Balanced (after_release {A = FileObject} intent_expired s r).0
      released (ok s') k = k s' refl
      released (err e') k = h

  answer_with-Balanced :
      (intent : UploadIntent) (s : State) (o : Option FileObject)
      → Considerate intent.id s
      → find_intent t.tenant_id intent.id s ≡ some intent
      → Balanced s
      → Balanced (answer_with others t intent s o).0
  unfolding answer_with
  answer_with-Balanced intent s (some file) c found h = h
  answer_with-Balanced intent s none c found h =
      if-elim (λ (r : State × Result Refusal FileObject). Balanced r.0)
        (not (is_live intent.status)) _ _ (λ _. h)
        (λ not_dead.
          if-elim (λ (r : State × Result Refusal FileObject). Balanced r.0)
            (leb intent.expires_at t.now) _ _ (λ _. expire_intent-Balanced intent.id s h)
            (λ _.
              try_catch-elim (λ (r : State × Result Refusal FileObject). Balanced r.0)
                (match_intent intent t.validated) _ _
                (λ e _. fail_intent-Balanced e t.tenant_id intent.id s h)
                (λ v _.
                  stage_and_store-Balanced t intent v others (others.before_stage s)
                    c.finalize_keeps (c.holds intent found (ground (arith, not_dead)))
                    (c.stage_keeps h))))

  -- `completeUpload`, whatever it answers, keeps every account the sum over its rows, provided that
  -- the other requests do, and that none of them ends the intent before it is staged.
  pub complete_upload-Balanced :
      (may_use may_change : UploadIntent → Result Refusal (Unit {0})) (id : ℕ) (s : State)
      → Considerate id s
      → Balanced s
      → Balanced (complete_upload may_use may_change others t id s).0
  unfolding complete_upload receive
  complete_upload-Balanced may_use may_change id s c h =
      try_catch-elim (λ (r : State × Result Refusal FileObject). Balanced r.0)
        (get_authorized_intent may_use t id s) _ _
        (λ e _.
          if-elim (λ (r : State × Result Refusal FileObject). Balanced r.0)
            (is_own t (find_intent t.tenant_id id s)) _ _
            (λ _. fail_intent-Balanced e t.tenant_id id s h) (λ _. h))
        (λ intent found.
          try_catch-elim (λ (r : State × Result Refusal FileObject). Balanced r.0)
            (may_change intent) _ _ (λ e _. h)
            (λ u _.
              let (same, row) = authorized-found may_use id s intent found in
              answer_with-Balanced intent s (file_of t.tenant_id intent s) (rw same c) row h))
