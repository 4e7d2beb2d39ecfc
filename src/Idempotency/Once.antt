-- ===== src/Idempotency/Once.antt =====
-- A command with a key takes effect at most once, and what it answers is on record.
use edupay_academico.Prelude.{
  ◌≡◌, ◌⊎◌, inl, inr, refl, none, some, List, ◌∷◌, arith, Option-cases, Bool-cases, Text, text_eq,
  text_eq_iff, true,
}
use edupay_academico.Idempotency.{
  Response, Receipt, Command, State, Others, Result, ok, err, Error, unique_violation,
  idempotency_key_reused, other, find_unique, receipt_for, trimmed_key, answer, recover, commit,
  Result-cases, run_in_transaction, execute,
}

module _ {T : Type 0} where
  -- A receipt of the key with this payload, that holds the body of the answer.
  abbrev pub Recorded : Command → Text → List (Receipt T) → Response T → Type 0
  Recorded c key receipts result =
      (r : Receipt T) × (find_unique c key receipts ≡ some r)
      × (text_eq r.payload_fingerprint c.fingerprint ≡ true)
      × (r.response_body ≡ result.body)

  -- If the call answers, the answer is on record in the receipts that it leaves.
  abbrev pub Records : {D : Type 0} → Command → Text → State D T × Result (Response T) → Type 0
  Records c key (s, ok result) = Recorded c key s.receipts result
  Records c key (s, err e) = Unit

  find_created :
      (c : Command) (key : Text) (result : Response T) (rs : List (Receipt T))
      → find_unique c key (receipt_for c key result ∷ rs) ≡ some (receipt_for c key result)
  find_created c key result rs = ground (arith, text_eq_iff key key)

-- The state that a call leaves, against the one that it began with: either the domain is as it was,
-- or the action ran on it and made it what it is, no receipt of the key was there, and the call
-- created it and gave the result of the action.
abbrev pub Once :
    {D T : Type 0}
    → Others T
    → (D → Result (D × Response T))
    → Command
    → Text
    → State D T
    → State D T × Result (Response T)
    → Type 0
Once {T} others action c key s out =
    (out.0.domain ≡ s.domain)
    ⊎ ((result : Response T) × (action s.domain ≡ ok (out.0.domain, result))
        × (out.1 ≡ ok result)
        × (find_unique c key s.receipts ≡ none)
        × (find_unique c key (others.before_create (others.before_transaction s.receipts)) ≡ none)
        × (out.0.receipts
            ≡ receipt_for c key result
              ∷ others.before_create (others.before_transaction s.receipts)))

module _ {D T : Type 0} (others : Others T) (action : D → Result (D × Response T)) where
  answer-Records :
      (c : Command) (key : Text) (s : State D T) (r : Receipt T)
      → find_unique c key s.receipts ≡ some r
      → Records c key (s, answer c r)
  answer-Records c key s r e = elim (Bool-cases (text_eq r.payload_fingerprint c.fingerprint)) [
    | inl same ↦ rw same (r, e, same, refl)
    | inr differs ↦ rw differs tt
  ]

  recover-Records :
      (c : Command) (key : Text) (s : State D T) (e : Error)
      → Records c key (recover others action c key s e)
  unfolding recover
  recover-Records c key s unique_violation =
      elim (Option-cases (find_unique c key (others.before_recovery s.receipts))) [
        | inl e ↦ rw (e, recover) tt
        | inr (r, e) ↦
            rw (e, recover)
              (answer-Records c key (record s { receipts = others.before_recovery s.receipts }) r e)
      ]
  recover-Records c key s idempotency_key_reused = tt
  recover-Records c key s (other code) = tt

  recover-domain :
      (c : Command) (key : Text) (s : State D T) (e : Error)
      → (recover others action c key s e).0.domain ≡ s.domain
  unfolding recover
  recover-domain c key s unique_violation = ground arith
  recover-domain c key s idempotency_key_reused = refl
  recover-domain c key s (other code) = refl

  commit-Records :
      (c : Command) (key : Text) (s : State D T) (d : D) (result : Response T)
      → Records c key (commit others action c key s d result)
  unfolding commit
  commit-Records c key s d result =
      elim (Option-cases (find_unique c key (others.before_create s.receipts))) [
        | inl e ↦
            rw (e, commit)
              (
                receipt_for c key result,
                find_created c key result (others.before_create s.receipts),
                (text_eq_iff c.fingerprint c.fingerprint).1 refl,
                refl,
              )
        | inr (r, e) ↦ rw (e, commit) (recover-Records c key _ unique_violation)
      ]

  run_in_transaction-Records :
      (c : Command) (key : Text) (s : State D T)
      → Records c key (run_in_transaction others action c key s)
  unfolding run_in_transaction
  run_in_transaction-Records c key s = elim (Option-cases (find_unique c key s.receipts)) [
    | inr (r, e) ↦ rw (e, run_in_transaction) (answer-Records c key s r e)
    | inl e ↦ elim (Result-cases (action s.domain)) [
      | inl (code, f) ↦ rw (e, f, run_in_transaction) (recover-Records c key s code)
      | inr ((d, result), f) ↦ rw (e, f, run_in_transaction) (commit-Records c key s d result)
    ]
  ]

  -- For a command with a key that is not blank, however other requests interleave: if the call
  -- answers, then a receipt of the key with this payload and the body of the answer is among the
  -- receipts that it leaves.
  pub execute-Records :
      (c : Command) (key : Text) (s : State D T)
      → trimmed_key c.idempotency_key ≡ some key
      → Records c key (execute others action c s)
  unfolding execute
  execute-Records c key s k = elim (Option-cases (find_unique c key s.receipts)) [
    | inr (r, e) ↦ rw (k, e, execute) (answer-Records c key s r e)
    | inl e ↦
        rw (k, e, execute)
          (run_in_transaction-Records c key
            (record s { receipts = others.before_transaction s.receipts }))
  ]

  in_transaction-Once :
      (c : Command) (key : Text) (s : State D T)
      → find_unique c key s.receipts ≡ none
      → Once others action c key s (
          run_in_transaction others action c key
            (record s { receipts = others.before_transaction s.receipts }))
  unfolding run_in_transaction commit
  in_transaction-Once c key s e = elim (Option-cases (find_unique c key first)) [
    | inr (r, f) ↦ inl (rw (f, run_in_transaction))
    | inl f ↦ elim (Result-cases (action s.domain)) [
      | inl (code, g) ↦ rw (f, g, run_in_transaction) (inl (recover-domain c key _ code))
      | inr ((d, result), g) ↦
          elim (Option-cases (find_unique c key (others.before_create first))) [
            | inr (r, i) ↦
                rw (f, g, i, run_in_transaction, commit)
                  (inl (recover-domain c key _ unique_violation))
            | inl i ↦
                rw (f, g, i, run_in_transaction, commit) (inr (result, refl, refl, e, refl, refl))
          ]
    ]
  ]
    where
      first : List (Receipt T)
      first = others.before_transaction s.receipts

  -- For a command with a key that is not blank, however other requests interleave: either the
  -- domain is as it was, or the action ran once on it, no receipt of the key was there, neither at
  -- first nor at the end of the transaction, and the call added the receipt of its own result,
  -- which it returned.
  pub execute-Once :
      (c : Command) (key : Text) (s : State D T)
      → trimmed_key c.idempotency_key ≡ some key
      → Once others action c key s (execute others action c s)
  unfolding execute
  execute-Once c key s k = elim (Option-cases (find_unique c key s.receipts)) [
    | inr (r, e) ↦ inl (rw (k, e, execute))
    | inl e ↦ rw (k, e, execute) (rw e at (in_transaction-Once c key s e))
  ]
