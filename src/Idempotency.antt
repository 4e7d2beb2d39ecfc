-- ===== src/Idempotency.antt =====
-- apps/api/src/learning/idempotency/command-idempotency.service.ts, `execute`.
-- The state is what the action works on, `domain`, and the table `command_receipts`. A transaction
-- whose callback raises an error leaves both as they were. Other requests commit receipts between
-- the statements of this one: `Others` says what the table has become at each of them. What other
-- requests write to the domain is not modelled.
pub mod Once
pub mod Retry
mod Examples
use edupay_academico.Prelude.{
  ℕ, Bool, true, false, Option, none, some, List, [], ◌∷◌, ◌&&◌, ◌==◌, find, Text, text_eq, trim,
  is_empty, if◌then◌else◌, ◌≡◌, refl, ◌⊎◌, inl, inr,
}

-- `data` is the result of the action, kept as JSON in `responseBody`.
pub record Response (T : Type 0) : Type 0 where
  pub status : Option ℕ
  pub body : T

pub record Receipt (T : Type 0) : Type 0 where
  pub tenant_id : ℕ
  pub actor_identity_user_id : ℕ
  pub command_name : ℕ
  pub idempotency_key : Text
  pub payload_fingerprint : Text
  pub response_status : ℕ
  pub response_body : T

-- An error carries a code, of which only `P2002` (unique constraint) is told apart.
pub data Error : Type 0 where
  idempotency_key_reused : Error
  unique_violation : Error
  other : ℕ → Error

pub data Result (A : Type 0) : Type 0 where
  ok : A → Result A
  err : Error → Result A

pub Result-cases :
    {A : Type 0} (r : Result A) → ((e : Error) × (r ≡ err e)) ⊎ ((a : A) × (r ≡ ok a))
Result-cases (ok a) = inr (a, refl)
Result-cases (err e) = inl (e, refl)

pub record Command : Type 0 where
  pub tenant_id : ℕ
  pub actor_identity_user_id : ℕ
  pub command_name : ℕ
  pub idempotency_key : Option Text
  pub fingerprint : Text

pub record State (D T : Type 0) : Type 0 where
  pub domain : D
  pub receipts : List (Receipt T)

-- What the receipts have become, by the commits of other requests, when the transaction begins,
-- when the receipt is created, and when the lookup after a unique violation is made.
pub record Others (T : Type 0) : Type 0 where
  pub before_transaction : List (Receipt T) → List (Receipt T)
  pub before_create : List (Receipt T) → List (Receipt T)
  pub before_recovery : List (Receipt T) → List (Receipt T)

abbrev pub or_ok : Option ℕ → ℕ
or_ok none = 200
or_ok (some n) = n

-- `idempotencyKey.trim()`, or `none` where there is no key or a blank one
abbrev pub trimmed_key : Option Text → Option Text
trimmed_key none = none
trimmed_key (some key) = if is_empty (trim key) then none else some (trim key)

module _ {T : Type 0} where
  abbrev pub has_key : Command → Text → Receipt T → Bool
  has_key c key r =
      r.tenant_id == c.tenant_id
      && r.actor_identity_user_id == c.actor_identity_user_id
      && r.command_name == c.command_name
      && text_eq r.idempotency_key key

  -- `commandReceipt.findUnique` by the tenant, actor, command and key
  abbrev pub find_unique : Command → Text → List (Receipt T) → Option (Receipt T)
  find_unique c key = find (has_key c key)

  abbrev pub receipt_for : Command → Text → Response T → Receipt T
  receipt_for c key result = record {
    tenant_id = c.tenant_id;
    actor_identity_user_id = c.actor_identity_user_id;
    command_name = c.command_name;
    idempotency_key = key;
    payload_fingerprint = c.fingerprint;
    response_status = or_ok result.status;
    response_body = result.body;
  }

  -- `commandReceipt.create`: the database refuses a second receipt with the same unique key.
  abbrev pub create : Command → Text → Response T → List (Receipt T) → Result (List (Receipt T))
  create c key result receipts = elim (find_unique c key receipts) [
    | none ↦ ok (receipt_for c key result ∷ receipts)
    | some r ↦ err unique_violation
  ]

  -- The stored response, or the refusal of a key that was used with another payload.
  abbrev pub answer : Command → Receipt T → Result (Response T)
  answer c r =
      if text_eq r.payload_fingerprint c.fingerprint
      then ok (record { status = some r.response_status; body = r.response_body })
      else err idempotency_key_reused

module _ {D T : Type 0} (others : Others T) (action : D → Result (D × Response T)) where
  -- Without a key: `$transaction(async (tx) => action(tx))`.
  run_plain : State D T → State D T × Result (Response T)
  run_plain s = elim (action s.domain) [
    | err e ↦ (s, err e)
    | ok (d, result) ↦ (record s { domain = d }, ok result)
  ]

  -- The `catch` block, on the state that the transaction left.
  recover : Command → Text → State D T → Error → State D T × Result (Response T)
  recover c key s unique_violation =
      let s' = record s { receipts = others.before_recovery s.receipts } in
      elim (find_unique c key s'.receipts) [
        | none ↦ (s', err unique_violation)
        | some r ↦ (s', answer c r)
      ]
  recover c key s idempotency_key_reused = (s, err idempotency_key_reused)
  recover c key s (other code) = (s, err (other code))

  -- The receipt is created in the transaction that the action ran in.
  commit : Command → Text → State D T → D → Response T → State D T × Result (Response T)
  unfolding recover
  commit c key s d result =
      let s' = record s { receipts = others.before_create s.receipts } in
      elim (create c key result s'.receipts) [
        | err e ↦ recover c key s' e
        | ok receipts ↦ (record { domain = d; receipts = receipts }, ok result)
      ]

  -- The callback of the transaction. The refusal of a used key has no `code` of its own, so that
  -- the `catch` block passes it on.
  run_in_transaction : Command → Text → State D T → State D T × Result (Response T)
  unfolding commit
  run_in_transaction c key s = elim (find_unique c key s.receipts) [
    | some r ↦ (s, answer c r)
    | none ↦ elim (action s.domain) [
      | err e ↦ recover c key s e
      | ok (d, result) ↦ commit c key s d result
    ]
  ]

  unfoldable pub execute : Command → State D T → State D T × Result (Response T)
  unfolding run_in_transaction run_plain
  execute c s = elim (trimmed_key c.idempotency_key) [
    | none ↦ run_plain s
    | some key ↦ elim (find_unique c key s.receipts) [
      | some r ↦ (s, answer c r)
      | none ↦
          run_in_transaction c key (record s { receipts = others.before_transaction s.receipts })
    ]
  ]
