-- ===== src/Idempotency/Examples.antt =====
-- Tests of the idempotent execution, and its theorems for a counter.
use edupay_academico.Prelude.{ℕ, ◌+◌, ◌≡◌, refl, some, [], ◌∷◌, Text, trim}
use edupay_academico.Idempotency.{
  Response, Receipt, Command, State, Others, Result, ok, err, idempotency_key_reused, receipt_for,
  execute,
}
use edupay_academico.Idempotency.Once.{Once, Records, execute-Once, execute-Records}
use edupay_academico.Idempotency.Retry.{Replays, execute-execute}

-- " k "
abbrev spaced : Text
spaced = 32 ∷ b'k' ∷ 32 ∷ []

abbrev command : Text → ℕ → Command
command key payload = record {
  tenant_id = 1;
  actor_identity_user_id = 2;
  command_name = 3;
  idempotency_key = some key;
  fingerprint = payload ∷ [];
}

abbrev count_up : ℕ → Result (ℕ × Response ℕ)
count_up n = ok (n + 1, record { status = some 201; body = n + 1 })

abbrev alone : Others ℕ
alone = record {
  before_transaction = λ rs. rs;
  before_create = λ rs. rs;
  before_recovery = λ rs. rs;
}

abbrev start : State ℕ ℕ
start = record { domain = 7; receipts = [] }

abbrev receipt : ℕ → Receipt ℕ
receipt body =
    receipt_for (command spaced 5) (b'k' ∷ []) (record { status = some 201; body = body })

abbrev counted : State ℕ ℕ
counted = record { domain = 8; receipts = receipt 8 ∷ [] }

-- Another request commits the same key with the body 40 while the action runs.
abbrev racing : Others ℕ
racing = record alone { before_create = λ rs. receipt 40 ∷ rs }

execution : Unit {0}
unfolding execute trim
execution = tt

execute_tests :
    (execute alone count_up (command spaced 5) start
      ≡ (counted, ok (record { status = some 201; body = 8 })))
    × (execute alone count_up (command (b'k' ∷ []) 6) counted
        ≡ (counted, err idempotency_key_reused))
    × (execute alone count_up (command (32 ∷ []) 5) counted
        ≡ (record counted { domain = 9 }, ok (record { status = some 201; body = 9 })))
unfolding execution
execute_tests = (refl, refl, refl)

execute-Records_example :
    Records (command spaced 5) (b'k' ∷ []) (execute alone count_up (command spaced 5) start)
unfolding execution
execute-Records_example = execute-Records alone count_up (command spaced 5) (b'k' ∷ []) start refl

execute-Once_example :
    Once racing count_up
      (command spaced 5)
      (b'k' ∷ [])
      start
      (execute racing count_up (command spaced 5) start)
unfolding execution
execute-Once_example = execute-Once racing count_up (command spaced 5) (b'k' ∷ []) start refl

execute-execute_example :
    ((execute racing count_up (command (b'k' ∷ []) 5) counted).0 ≡ counted)
    × Replays
        (command spaced 5)
        (command (b'k' ∷ []) 5)
        (record { status = some 201; body = 8 })
        (execute racing count_up (command (b'k' ∷ []) 5) counted).1
unfolding execution
execute-execute_example =
    execute-execute alone racing count_up count_up (command spaced 5) (command (b'k' ∷ []) 5)
      (b'k' ∷ []) start counted (record { status = some 201; body = 8 }) refl
      (record { tenant = refl; actor = refl; command = refl; key = refl }) execute_tests.0
