-- ===== src/Storage/Balance.antt =====
-- The accounts of apps/api/src/storage/storage.service.ts against the rows they count: each account
-- is the sum over the intents, blobs and files of its scope.
use edupay_academico.Prelude.{
  ok-injective, ℕ, ◌+◌, ◌≡◌, refl, sym, subst, Bool, true, false, some, Text, text_eq, text_eq_iff,
  leb, if◌then◌else◌, ok, bind-eq-ok, sum, update_first, sum-update_first, find-test, arith,
  Bool-cases, inl, inr,
}
use edupay_academico.Storage.{
  Scope, global, tenant, Account, State, UploadIntent, StoredBlob, is_live, is_intent, find_intent,
}
use edupay_academico.Storage.Accounts.{Delta, adjust, adjust_scope, adjust_account, put}

abbrev pub in_scope : Scope → Text → Bool
in_scope global t = true
in_scope (tenant s) t = text_eq s t

abbrev pub counted : Scope → Text → ℕ → ℕ
counted s t n = if in_scope s t then n else 0

abbrev pub reserved_in : Scope → UploadIntent → ℕ
reserved_in s i = if is_live i.status then counted s i.tenant_id i.reserved_bytes else 0

abbrev pub used_in : Scope → StoredBlob → ℕ
used_in s b = counted s b.tenant_id b.stored_size_bytes

pub record BalancedAt (s : Scope) (st : State) : Type 0 where
  pub used : (st.accounts s).used_bytes ≡ sum (used_in s) st.blobs
  pub reserved : (st.accounts s).reserved_bytes ≡ sum (reserved_in s) st.intents
  pub files : (st.accounts s).file_count ≡ sum (λ f. counted s f.tenant_id 1) st.files
  pub blobs : (st.accounts s).blob_count ≡ sum (λ b. counted s b.tenant_id 1) st.blobs

-- Every account, the global one included, is the sum over the rows of its scope.
abbrev pub Balanced : State → Type 0
Balanced st = (s : Scope) → BalancedAt s st

-- What an adjustment does to the account of a scope in which it counts, or does not.
pub record Adjusted (count : Bool) (d : Delta) (a a' : Account) : Type 0 where
  pub used : a'.used_bytes ≡ a.used_bytes + (if count then d.used else 0)
  pub reserved : a'.reserved_bytes + (if count then d.released else 0) ≡ a.reserved_bytes
  pub files : a'.file_count ≡ a.file_count + (if count then d.files else 0)
  pub blobs : a'.blob_count ≡ a.blob_count + (if count then d.blobs else 0)

adjust-Adjusted : (d : Delta) (a a' : Account) → adjust d a ≡ ok a' → Adjusted true d a a'
unfolding adjust
adjust-Adjusted d a a' h = elim (Bool-cases (leb d.released a.reserved_bytes)) [
  | inl t ↦
      rw (← ok-injective (rw t at h))
        (record { used = refl; reserved = ground (arith, t); files = refl; blobs = refl })
  | inr f ↦ let h' = rw f at h in cc
]

Adjusted-none : (d : Delta) (a : Account) → Adjusted false d a a
Adjusted-none d a = record {
  used = omega arith;
  reserved = omega arith;
  files = omega arith;
  blobs = omega arith;
}

adjust_scope-ok :
    (scope : Scope) (d : Delta) (f f' : Scope → Account)
    → adjust_scope scope d f ≡ ok f'
    → (a : Account) × (adjust d (f scope) ≡ ok a) × (f' ≡ put scope a f)
unfolding adjust_scope
adjust_scope-ok scope d f f' h =
    let (a, e, e') = bind-eq-ok {A = Account} (adjust d (f scope)) _ h in
    (a, e, sym (ok-injective e'))

two_updates :
    (t : Text) (d : Delta) (f : Scope → Account) (a b : Account) (s : Scope)
    → Adjusted true d (f global) a
    → Adjusted true d (f (tenant t)) b
    → (g : Scope → Account) → g ≡ put global a f
    → Adjusted (in_scope s t) d (f s) (put (tenant t) b g s)
two_updates t d f a b global h k g e =
    subst (λ g'. Adjusted true d (f global) (g' global)) (sym e) h
two_updates t d f a b (tenant u) h k g e = elim (Bool-cases (text_eq u t)) [
  | inl same ↦ let u_eq = (text_eq_iff u t).0 same in rw (same, u_eq) k
  | inr other ↦ rw other (
      subst (λ g'. Adjusted false d (f (tenant u)) (g' (tenant u))) (sym e)
        (Adjusted-none d (f (tenant u))))
]

-- The two updates together, at any scope.
pub adjust_account-Adjusted :
    (t : Text) (d : Delta) (f f' : Scope → Account) (s : Scope)
    → adjust_account t d f ≡ ok f'
    → Adjusted (in_scope s t) d (f s) (f' s)
unfolding adjust_account
adjust_account-Adjusted t d f f' s h =
    let (g, e, e') = bind-eq-ok {A = Scope → Account} (adjust_scope global d f) _ h in
    let (a, ea, g_eq) = adjust_scope-ok global d f g e in
    let (b, eb, f_eq) = adjust_scope-ok (tenant t) d g f' e' in
    subst (λ k. Adjusted (in_scope s t) d (f s) (k s)) (sym f_eq)
      (two_updates t d f a b s (adjust-Adjusted d (f global) a ea)
        (adjust-Adjusted d (f (tenant t)) b (subst (λ k. adjust d (k (tenant t)) ≡ ok b) g_eq eb)) g
        g_eq)

module _ (t : Text) (id : ℕ) (st : State) (intent : UploadIntent)
    (found : find_intent t id st ≡ some intent) where
  pub own_tenant : intent.tenant_id ≡ t
  own_tenant =
      let test = find-test (is_intent t id) st.intents found in
      ground (arith, text_eq_iff intent.tenant_id t)

  -- An intent ends: the bytes it reserved are given back to the accounts, and what else an
  -- adjustment counts is in the new rows.
  pub reserved-ended :
      (s : Scope) (end : UploadIntent → UploadIntent)
      → is_live intent.status ≡ true
      → is_live (end intent).status ≡ false
      → sum (reserved_in s) (update_first (is_intent t id) end st.intents)
          + (if in_scope s t then intent.reserved_bytes else 0)
        ≡ sum (reserved_in s) st.intents
  reserved-ended s end live ended = ground (
    arith,
    live,
    ended,
    own_tenant,
    sum-update_first (reserved_in s) (is_intent t id) end st.intents intent found,
  )
