-- ===== src/Publisher/Examples.antt =====
-- Tests of a drain of the outbox, and the theorem for a published event beside a pending one.
use edupay_academico.Prelude.{◌+◌, ◌≡◌, refl, true, false, none, some, List, [], ◌∷◌, map}
use edupay_academico.Publisher.{
  OutboxEvent, Settings, pending, publishing, retry, published, failed, settle_event,
  process_claimed, process_event, process_events, publish_pending,
}
use edupay_academico.Publisher.Final.{IsFinal, publish_pending-IsFinal}

abbrev settings : Settings
settings = record {
  enabled = true;
  timeout_ms = 10;
  max_attempts = 2;
  retry_schedule_seconds = 1 ∷ 5 ∷ [];
}

abbrev sent : OutboxEvent
sent = record {
  id = 1;
  status = published;
  attempt_count = 1;
  next_attempt_at = 0;
  publishing_at = none;
  published_at = some 3;
  last_error_code = none;
}

abbrev waiting : OutboxEvent
waiting = record sent { id = 2; status = pending; attempt_count = 0; published_at = none }

-- Its publisher has died.
abbrev abandoned : OutboxEvent
abandoned = record waiting {
  id = 3;
  status = publishing;
  attempt_count = 1;
  publishing_at = some 5;
}

abbrev outbox : List OutboxEvent
outbox = sent ∷ waiting ∷ abandoned ∷ []

abbrev alone : List OutboxEvent → List OutboxEvent
alone rows = rows

accepted :
    map OutboxEvent.status
      (publish_pending settings (λ e. true) alone (λ n. 101 + n) alone 100 50 outbox)
    ≡ published ∷ published ∷ published ∷ []
unfolding publish_pending process_events process_event process_claimed settle_event
accepted = refl

-- The first attempt is tried again after a second, the second one was the last.
rejected :
    map OutboxEvent.status
      (publish_pending settings (λ e. false) alone (λ n. 101 + n) alone 100 50 outbox)
    ≡ published ∷ retry ∷ failed ∷ []
unfolding publish_pending process_events process_event process_claimed settle_event
rejected = refl

publish_pending-IsFinal_example :
    IsFinal sent (publish_pending settings (λ e. false) alone (λ n. 101 + n) alone 100 50 outbox)
publish_pending-IsFinal_example =
    publish_pending-IsFinal settings (λ e. false) alone (λ n. 101 + n) sent (λ rows h. h) alone 100
      50 outbox (record { found = refl; final = refl })
