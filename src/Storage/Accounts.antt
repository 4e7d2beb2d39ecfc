-- ===== src/Storage/Accounts.antt =====
-- The accounts of apps/api/src/storage/storage.service.ts. The columns are not negative, by a CHECK
-- of the table, so that an update that would make one negative fails.
use edupay_academico.Prelude.{ℕ, ◌+◌, ◌-◌, Text, leb, if◌then◌else◌, Result, ok, err, ◌>>=◌}
use edupay_academico.Storage.{Scope, global, tenant, scope_eq, Account, Refusal, check_violation}

-- `reservedBytes` is subtracted, the rest added.
pub record Delta : Type 0 where
  pub files : ℕ
  pub blobs : ℕ
  pub used : ℕ
  pub released : ℕ

abbrev pub put : Scope → Account → (Scope → Account) → Scope → Account
put scope account accounts s = if scope_eq s scope then account else accounts s

unfoldable pub adjust : Delta → Account → Result Refusal Account
adjust d a =
    if leb d.released a.reserved_bytes
    then ok (record {
      used_bytes = a.used_bytes + d.used;
      reserved_bytes = a.reserved_bytes - d.released;
      file_count = a.file_count + d.files;
      blob_count = a.blob_count + d.blobs;
    })
    else err check_violation

unfoldable pub adjust_scope : Scope → Delta → (Scope → Account) → Result Refusal (Scope → Account)
unfolding adjust
adjust_scope scope d accounts = do a ← adjust d (accounts scope); ok (put scope a accounts)

-- The loop over the two scopes
unfoldable pub adjust_account : Text → Delta → (Scope → Account) → Result Refusal (Scope → Account)
unfolding adjust_scope
adjust_account tenant_id d accounts = do
  updated ← adjust_scope global d accounts
  adjust_scope (tenant tenant_id) d updated

-- The conditional update; `refusal` is thrown where it changes no row.
unfoldable pub reserve_account :
    Refusal → Scope → (size quota : ℕ) → (Scope → Account) → Result Refusal (Scope → Account)
reserve_account refusal scope size quota accounts =
    if leb ((accounts scope).used_bytes + (accounts scope).reserved_bytes + size) quota
    then ok (
        put scope
          (record (accounts scope) { reserved_bytes = (accounts scope).reserved_bytes + size })
          accounts)
    else err refusal
