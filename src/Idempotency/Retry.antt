-- ===== src/Idempotency/Retry.antt =====
-- What a repeated command answers, and the race of two commands with one key.
use mathlib.Core.Bool.{false≢true}
use edupay_academico.Prelude.{
  ◌≡◌, refl, sym, ◌∙◌, subst, none, some, List, Text, text_eq, text_eq_iff, Bool-cases, inl, inr,
}
use edupay_academico.Idempotency.{
  Response, Receipt, Command, State, Others, Result, ok, err, idempotency_key_reused, find_unique,
  answer, recover, commit, run_in_transaction, trimmed_key, execute,
}
use edupay_academico.Idempotency.Once.{Recorded, Records, execute-Records}

-- The same key, from the same actor of the tenant and for the same command.
pub record SameScope (c d : Command) : Type 0 where
  pub tenant : d.tenant_id ≡ c.tenant_id
  pub actor : d.actor_identity_user_id ≡ c.actor_identity_user_id
  pub command : d.command_name ≡ c.command_name
  pub key : trimmed_key d.idempotency_key ≡ trimmed_key c.idempotency_key

find_unique-SameScope :
    {T : Type 0} (c d : Command) (key : Text) (rs : List (Receipt T))
    → SameScope c d
    → find_unique d key rs ≡ find_unique c key rs
find_unique-SameScope c d key rs same = rw (same.tenant, same.actor, same.command)

-- What the second command answers, given the body of the first answer.
abbrev pub Replays : {T : Type 0} → Command → Command → Response T → Result (Response T) → Type 0
Replays {T} c d first (ok second) = (d.fingerprint ≡ c.fingerprint) × (second.body ≡ first.body)
Replays {T} c d first (err e) = (e ≡ idempotency_key_reused) × (d.fingerprint ≡ c.fingerprint → ⊥)

answer-Replays :
    {D T : Type 0} (c d : Command) (s : State D T) (first : Response T) (r : Receipt T)
    → r.payload_fingerprint ≡ c.fingerprint
    → r.response_body ≡ first.body
    → (s ≡ s) × Replays c d first (answer d r)
answer-Replays c d s first r payload body =
    elim (Bool-cases (text_eq r.payload_fingerprint d.fingerprint)) [
      | inl e ↦ rw e (refl, (sym ((text_eq_iff _ _).0 e) ∙ payload, body))
      | inr e ↦
          rw e (refl, (refl, λ same. false≢true (sym e ∙ (text_eq_iff _ _).1 (payload ∙ sym same))))
    ]

module _ {D T : Type 0} where
  -- After a command with a key that is not blank has answered, the same key, from the same actor
  -- and for the same command, leaves the state as it is, whatever action it comes with: with the
  -- same payload it answers the same body, and with another payload it is refused.
  pub execute-execute :
      (others others' : Others T) (action action' : D → Result (D × Response T)) (c d : Command)
      (key : Text) (s s' : State D T) (first : Response T)
      → trimmed_key c.idempotency_key ≡ some key
      → SameScope c d
      → execute others action c s ≡ (s', ok first)
      → ((execute others' action' d s').0 ≡ s') × Replays c d first (execute others' action' d s').1
  unfolding execute
  execute-execute others others' action action' c d key s s' first k same h =
      let recorded : Recorded c key s'.receipts first =
        subst (Records c key) h (execute-Records others action c key s k) in
      let (r, at_r, same_payload, same_body) = recorded in
      let at_r' : find_unique d key s'.receipts ≡ some r =
        find_unique-SameScope c d key s'.receipts same ∙ at_r in
      rw (same.key ∙ k, at_r', execute)
        (answer-Replays c d s' first r ((text_eq_iff _ _).0 same_payload) same_body)

  -- Another request commits a receipt of the same key while the action runs, and it is still there
  -- at the lookup: the domain is left as it was, though the action had run, and the answer is the
  -- stored one, or the refusal if the payloads differ.
  pub execute-lost_race :
      (others : Others T) (action : D → Result (D × Response T)) (c : Command) (key : Text)
      (s : State D T) (d : D) (result : Response T) (winner : Receipt T)
      → trimmed_key c.idempotency_key ≡ some key
      → find_unique c key s.receipts ≡ none
      → find_unique c key (others.before_transaction s.receipts) ≡ none
      → action s.domain ≡ ok (d, result)
      → find_unique c key (others.before_create (others.before_transaction s.receipts))
        ≡ some winner
      → find_unique c key
          (others.before_recovery (others.before_create (others.before_transaction s.receipts)))
        ≡ some winner
      → ((execute others action c s).0.domain ≡ s.domain)
        × ((execute others action c s).1 ≡ answer c winner)
  unfolding execute run_in_transaction commit recover
  execute-lost_race others action c key s d result winner k none_first none_then done lost found =
      rw (k, none_first, none_then, done, lost, found, execute, run_in_transaction, commit, recover)
        (refl, refl)
