-- ===== src/Storage/Reservations.antt =====
-- What `reserveUpload` of apps/api/src/storage/storage.service.ts does to the accounts.
use edupay_academico.Prelude.{
  ok-injective, ℕ, ◌+◌, ◌≤◌, ◌≡◌, refl, sym, subst, true, ◌∷◌, Text, leb, ok, bind-eq-ok, require,
  arith, Bool-cases, inl, inr, text_eq, text_eq_iff,
}
use edupay_academico.Storage.{
  Scope, global, tenant, Account, State, Refusal, global_quota_exceeded, tenant_quota_exceeded,
  no_capacity,
}
use edupay_academico.Storage.Accounts.{put, reserve_account}
use edupay_academico.Storage.Uploads.{Reservation, reserve_upload, new_intent}
use edupay_academico.Storage.Balance.{Balanced, in_scope, counted}

-- A reservation adds its bytes to the account of a scope.
reserve_account-ok :
    (e : Refusal) (scope : Scope) (size quota : ℕ) (f f' : Scope → Account)
    → reserve_account e scope size quota f ≡ ok f'
    → ((f scope).used_bytes + (f scope).reserved_bytes + size ≤ quota)
      × (f' ≡ put scope (record (f scope) { reserved_bytes = (f scope).reserved_bytes + size }) f)
unfolding reserve_account
reserve_account-ok e scope size quota f f' h =
    elim (Bool-cases (leb ((f scope).used_bytes + (f scope).reserved_bytes + size) quota)) [
      | inl t ↦ (ground (arith, t), sym (ok-injective (rw t at h)))
      | inr n ↦ let no_result = rw n at h in cc
    ]

-- The accounts after `reserveUpload`: the bytes are added in each scope of the tenant, where they
-- are within the quota.
pub record Reserved (quota : Scope → ℕ) (t : Text) (size : ℕ) (s : Scope) (a a' : Account)
    : Type 0 where
  pub used : a'.used_bytes ≡ a.used_bytes
  pub reserved : a'.reserved_bytes ≡ a.reserved_bytes + counted s t size
  pub files : a'.file_count ≡ a.file_count
  pub blobs : a'.blob_count ≡ a.blob_count
  pub within : in_scope s t ≡ true → a'.used_bytes + a'.reserved_bytes ≤ quota s

two_reservations :
    (quota : Scope → ℕ) (t : Text) (size : ℕ) (f : Scope → Account) (s : Scope)
    → (f global).used_bytes + (f global).reserved_bytes + size ≤ quota global
    → (f (tenant t)).used_bytes + (f (tenant t)).reserved_bytes + size ≤ quota (tenant t)
    → Reserved quota t size s (f s) (
        put
          (tenant t)
          (record (f (tenant t)) { reserved_bytes = (f (tenant t)).reserved_bytes + size })
          (put global (record (f global) { reserved_bytes = (f global).reserved_bytes + size }) f)
          s)
two_reservations quota t size f global h k = record {
  used = refl;
  reserved = refl;
  files = refl;
  blobs = refl;
  within = λ _. omega arith;
}
two_reservations quota t size f (tenant u) h k = elim (Bool-cases (text_eq u t)) [
  | inl same ↦
      let u_eq = (text_eq_iff u t).0 same in
      let same' = subst (λ w. text_eq w t ≡ true) u_eq same in
      rw (u_eq, same')
        (record {
          used = refl;
          reserved = ground (arith, same');
          files = refl;
          blobs = refl;
          within = λ _. omega arith;
        })
  | inr other ↦ rw other (record {
    used = refl;
    reserved = ground (arith, other);
    files = refl;
    blobs = refl;
    within = λ c. cc;
  })
]

module _ (quota : Scope → ℕ) where
  pub reserve_upload-ok :
      (r : Reservation) (st st' : State)
      → reserve_upload quota r st ≡ ok st'
      → (accounts : Scope → Account) × (st'
          ≡ record st { accounts = accounts; intents = new_intent r ∷ st.intents })
        × ((s : Scope)
            → Reserved quota r.tenant_id r.metadata.declared_size_bytes s
                (st.accounts s)
                (accounts s))
  unfolding reserve_upload
  reserve_upload-ok r st st' e =
      let size = r.metadata.declared_size_bytes in
      let (u, eu, e₁) = bind-eq-ok {A = Unit} (require no_capacity r.has_capacity) _ e in
      let (f, ef, e₂) =
        bind-eq-ok {A = Scope → Account}
          (reserve_account global_quota_exceeded global size (quota global) st.accounts) _ e₁ in
      let (g, eg, e₃) =
        bind-eq-ok {A = Scope → Account}
          (reserve_account tenant_quota_exceeded (tenant r.tenant_id) size
            (quota (tenant r.tenant_id)) f)
          _ e₂ in
      let (h, f_eq) =
        reserve_account-ok global_quota_exceeded global size (quota global) st.accounts f ef in
      let (k, g_eq) =
        reserve_account-ok tenant_quota_exceeded (tenant r.tenant_id) size
          (quota (tenant r.tenant_id)) f g eg in
      let t = r.tenant_id in
      (
        g,
        sym (ok-injective e₃),
        λ s.
            subst (λ g'. Reserved quota t size s (st.accounts s) (g' s))
              (sym (
                subst
                  (λ (f' : Scope → Account).
                    g
                    ≡ put (tenant t)
                        (record (f' (tenant t)) {
                          reserved_bytes = (f' (tenant t)).reserved_bytes + size;
                        })
                        f')
                  f_eq g_eq))
              (two_reservations quota t size st.accounts s h (
                subst
                  (λ (f' : Scope → Account).
                    (f' (tenant t)).used_bytes + (f' (tenant t)).reserved_bytes + size
                    ≤ quota (tenant t))
                  f_eq k)),
      )

  -- A reservation that is made keeps every account the sum over its rows.
  pub reserve_upload-Balanced :
      (r : Reservation) (st st' : State)
      → reserve_upload quota r st ≡ ok st'
      → Balanced st
      → Balanced st'
  unfolding new_intent
  reserve_upload-Balanced r st st' e h =
      let (accounts, eq, each) = reserve_upload-ok r st st' e in
      subst Balanced (sym eq) (λ s.
        let a = each s in
        record {
          used = ground (arith, (h s).used, a.used);
          reserved = ground (arith, (h s).reserved, a.reserved);
          files = ground (arith, (h s).files, a.files);
          blobs = ground (arith, (h s).blobs, a.blobs);
        })

  abbrev pub WithinQuota : State → Type 0
  WithinQuota st =
      (s : Scope) → (st.accounts s).used_bytes + (st.accounts s).reserved_bytes ≤ quota s

  pub reserve_upload-WithinQuota :
      (r : Reservation) (st st' : State)
      → reserve_upload quota r st ≡ ok st'
      → WithinQuota st
      → WithinQuota st'
  reserve_upload-WithinQuota r st st' e h =
      let (accounts, eq, each) = reserve_upload-ok r st st' e in
      subst WithinQuota (sym eq)
        (λ s. let a = each s in ground (arith, h s, a.used, a.reserved, a.within))
