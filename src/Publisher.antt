-- ===== src/Publisher.antt =====
-- `publishPending` of apps/api/src/financial-projection/financial-projection-publisher.service.ts over
-- the outbox of financial projections. `post` is whether Finance accepts an event; `order_by` is the
-- order in which the database returns events; `others` is what other publishers write while an event
-- is posted. `clock` gives the time of a write, from the number of events before it.
pub mod Final
mod Examples
use edupay_academico.Prelude.{
  ℕ, zero, suc, ◌+◌, ◌-◌, ◌*◌, min, max, Bool, true, false, not, Option, none, some, List, [], ◌∷◌,
  map, filter, find, take, ◌&&◌, ◌||◌, ◌==◌, ltb, leb, length, get_elem?, update_first,
  if◌then◌else◌,
}

pub data Status : Type 0 where
  pending publishing retry published failed : Status

pub data ErrorCode : Type 0 where
  lease_recovered publish_failed : ErrorCode

pub record OutboxEvent : Type 0 where
  pub id : ℕ
  pub status : Status
  pub attempt_count : ℕ
  pub next_attempt_at : ℕ
  pub publishing_at : Option ℕ
  pub published_at : Option ℕ
  pub last_error_code : Option ErrorCode

-- What the publisher reads of its configuration
pub record Settings : Type 0 where
  pub enabled : Bool
  pub timeout_ms : ℕ
  pub max_attempts : ℕ
  pub retry_schedule_seconds : List ℕ

-- `publishableStatuses`
abbrev pub is_publishable : Status → Bool
is_publishable pending = true
is_publishable retry = true
is_publishable _ = false

abbrev pub is_publishing : Status → Bool
is_publishing publishing = true
is_publishing _ = false

-- `publishingAt < now - timeoutMs * 3`
abbrev pub is_abandoned : ℕ → ℕ → Option ℕ → Bool
is_abandoned now timeout_ms none = false
is_abandoned now timeout_ms (some at) = ltb (at + timeout_ms * 3) now

abbrev pub recover_event : ℕ → ℕ → OutboxEvent → OutboxEvent
recover_event now timeout_ms e =
    if is_publishing e.status && is_abandoned now timeout_ms e.publishing_at
    then record e {
      status = retry;
      next_attempt_at = now;
      publishing_at = none;
      last_error_code = some lease_recovered;
    }
    else e

abbrev pub is_due : ℕ → OutboxEvent → Bool
is_due now e = is_publishable e.status && leb e.next_attempt_at now

abbrev pub is_claimable : ℕ → ℕ → OutboxEvent → Bool
is_claimable id now e = e.id == id && is_due now e

abbrev pub claim_event : ℕ → OutboxEvent → OutboxEvent
claim_event at e = record e {
  status = publishing;
  publishing_at = some at;
  attempt_count = e.attempt_count + 1;
}

abbrev pub is_claimed : ℕ → OutboxEvent → Bool
is_claimed id e = e.id == id && is_publishing e.status

abbrev pub publish_event : ℕ → OutboxEvent → OutboxEvent
publish_event at e = record e {
  status = published;
  published_at = some at;
  publishing_at = none;
  last_error_code = none;
}

-- `retryScheduleSeconds[…] ?? 60`
abbrev pub retry_delay : Settings → (attempt : ℕ) → ℕ
retry_delay settings attempt =
    elim (get_elem? settings.retry_schedule_seconds
      (min (attempt - 1) (length settings.retry_schedule_seconds - 1))) [
        | none ↦ 60
        | some seconds ↦ seconds
      ]

abbrev pub fail_event : Settings → (attempt at : ℕ) → OutboxEvent → OutboxEvent
fail_event settings attempt at e = record e {
  status = if leb settings.max_attempts attempt then failed else retry;
  publishing_at = none;
  next_attempt_at = at + retry_delay settings attempt * 1000;
  last_error_code = some publish_failed;
}

-- The `candidates`: the ids of at most 100 events that are due
abbrev pub due_candidates :
    (order_by : List OutboxEvent → List OutboxEvent) → (now limit : ℕ) → List OutboxEvent → List ℕ
due_candidates order_by now limit rows =
    map OutboxEvent.id (take (min (max limit 1) 100) (order_by (filter (is_due now) rows)))

module _ (settings : Settings) (post : OutboxEvent → Bool)
    (others : List OutboxEvent → List OutboxEvent) (clock : ℕ → ℕ) where
  -- The outcome of the event that was claimed and read.
  unfoldable pub settle_event : (at : ℕ) → OutboxEvent → List OutboxEvent → List OutboxEvent
  settle_event at event rows =
      if post event
      then update_first (is_claimed event.id) (publish_event at) rows
      else update_first (is_claimed event.id) (fail_event settings event.attempt_count at) rows

  -- A turn of the loop, with the event that the claim finds: none when another publisher was faster.
  unfoldable pub process_claimed :
      (now at id : ℕ) → Option OutboxEvent → List OutboxEvent → List OutboxEvent
  unfolding settle_event
  process_claimed now at id none rows = rows
  process_claimed now at id (some e) rows =
      settle_event at (claim_event at e)
        (others (update_first (is_claimable id now) (claim_event at) rows))

  unfoldable pub process_event : (now at id : ℕ) → List OutboxEvent → List OutboxEvent
  unfolding process_claimed
  process_event now at id rows = process_claimed now at id (find (is_claimable id now) rows) rows

  unfoldable pub process_events : (now n : ℕ) → (ids : List ℕ) → List OutboxEvent → List OutboxEvent
  unfolding process_event
  process_events now n [] rows = rows
  process_events now n (id ∷ ids) rows =
      process_events now (n + 1) ids (process_event now (clock n) id (others rows))

  unfoldable pub publish_pending :
      (order_by : List OutboxEvent → List OutboxEvent)
      → (now limit : ℕ) → List OutboxEvent
      → List OutboxEvent
  unfolding process_events
  publish_pending order_by now limit rows =
      if not settings.enabled
      then rows
      else let recovered = others (map (recover_event now settings.timeout_ms) rows) in
        process_events now 0 (due_candidates order_by now limit recovered) recovered
