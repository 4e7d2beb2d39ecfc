-- ===== src/Deliveries/Examples.antt =====
-- Tests of the worker, and its theorems for one delivery.
use edupay_academico.Prelude.{
  All, ◌≡◌, refl, true, false, Bool, none, some, List, [], ◌∷◌, get_elem?, arith, Text,
}
use edupay_academico.Deliveries.{
  same_row, is_processing, Delivery, Settings, Sent, rejected, email, processing, pending, retry,
  delivered, claim_deliveries, candidates, is_candidate, claim_row, settle_by, sent_row, settle_row,
  fail_row, is_terminal, delay_seconds, settle, process_claim,
}
use edupay_academico.Deliveries.Final.{Run, stop, step, settles, claims, Run-final, is_final}
use edupay_academico.Deliveries.Released.{process_claim-released}
use edupay_academico.Deliveries.Attempts.{attempts, attempts-final}

abbrev settings : Settings
settings = record {
  lease_seconds = 900;
  batch_size = 50;
  max_attempts = 2;
  retry_schedule_seconds = 60 ∷ 300 ∷ [];
  unknown_category = b'u' ∷ [];
  unknown_message = b'f' ∷ [];
}

abbrev fresh : Delivery
fresh = record {
  tenant_id = b't' ∷ [];
  id = 1;
  channel = email;
  recipient_email = some (b'@' ∷ []);
  not_before = 0;
  status = pending;
  attempt_count = 0;
  next_attempt_at = 10;
  locked_at = none;
  last_attempt_at = none;
  sent_at = none;
  provider_message_id = none;
  last_error_category = none;
  last_error_message = none;
  skip_reason = none;
}

-- The provider is down.
abbrev down : Delivery → Text → Sent
down d to = rejected none

abbrev is_unlocked : Delivery → Bool
is_unlocked d = false

retried :
    process_claim settings 20 down (λ s. s) fresh (record fresh { status = processing } ∷ [])
    ≡ record fresh {
      status = retry;
      next_attempt_at = 60020;
      last_error_category = some (b'u' ∷ []);
      last_error_message = some (b'f' ∷ []);
    }
      ∷ []
unfolding process_claim settle settle_row settle_by sent_row fail_row is_terminal delay_seconds
retried = refl

claimed :
    (claim_deliveries settings (λ s. s) is_unlocked 10 (fresh ∷ [])).0
    ≡ record fresh {
      status = processing;
      locked_at = some 10;
      attempt_count = 1;
      last_attempt_at = some 10;
    }
      ∷ []
unfolding claim_deliveries candidates is_candidate claim_row
claimed = refl

abbrev done : Delivery
done = record fresh { status = delivered }

abbrev after_claim : List Delivery
after_claim = (claim_deliveries settings (λ s. s) is_unlocked 90 (done ∷ [])).0

abbrev after : List Delivery
after = settle settings 95 down fresh after_claim

run : Run settings (done ∷ []) after
run = step (claims (λ s. s) is_unlocked 90) (step (settles 95 down fresh) stop)

Run-final_example : get_elem? after 0 ≡ some done
Run-final_example = Run-final settings run 0 done refl refl

attempts-final_example : is_final (attempts settings down (20 ∷ 90000 ∷ []) fresh).status ≡ true
attempts-final_example = attempts-final settings down 20 (90000 ∷ []) fresh (omega arith)

abbrev busy : Delivery
busy = record fresh { status = processing }

process_claim-released_example :
    All
      (λ d. same_row busy d ≡ true → is_processing d.status ≡ false)
      (process_claim settings 20 down (λ s. s) fresh (busy ∷ []))
process_claim-released_example =
    process_claim-released settings 20 down (λ s. s) fresh busy (busy ∷ []) refl refl
