-- ===== src/Deliveries.antt =====
-- apps/api/src/notifications/notification-worker.service.ts: claiming, sending and retrying the rows
-- of notification_deliveries (apps/api/prisma/schema.prisma), each with `not_before` of its event.
-- Dates are milliseconds. Rendering and sending of an e-mail are one parameter, as are the order of
-- the candidates and the rows that other transactions have locked.
pub mod Final
pub mod Attempts
pub mod Released
mod Examples
use edupay_academico.Prelude.{
  ℕ, zero, suc, ◌+◌, ◌*◌, ◌-◌, min, max, Bool, true, false, not, Option, none, some, List, [], ◌∷◌,
  map, ◌&&◌, ◌||◌, leb, ◌==◌, if◌then◌else◌, Text, text_eq, filter, find, any, take, get_elem?,
  length,
}
use edupay_academico.Access.{truthy}

pub data DeliveryStatus : Type 0 where
  pending processing delivered retry failed skipped : DeliveryStatus

abbrev pub is_processing : DeliveryStatus → Bool
is_processing processing = true
is_processing _ = false

abbrev pub is_waiting : DeliveryStatus → Bool
is_waiting pending = true
is_waiting retry = true
is_waiting _ = false

pub data Channel : Type 0 where
  in_app email : Channel

pub data SkipReason : Type 0 where
  unsupported_channel email_address_missing : SkipReason

pub record Delivery : Type 0 where
  pub tenant_id : Text
  pub id : ℕ
  pub channel : Channel
  pub recipient_email : Option Text
  pub not_before : ℕ
  pub status : DeliveryStatus
  pub attempt_count : ℕ
  pub next_attempt_at : ℕ
  pub locked_at : Option ℕ
  pub last_attempt_at : Option ℕ
  pub sent_at : Option ℕ
  pub provider_message_id : Option Text
  pub last_error_category : Option Text
  pub last_error_message : Option Text
  pub skip_reason : Option SkipReason

-- `AcademicEmailDeliveryError`; an error of another class is `none` in `rejected`.
pub record EmailError : Type 0 where
  pub category : Text
  pub retryable : Bool
  pub message : Text

pub data Sent : Type 0 where
  accepted : (provider_message_id : Option Text) → Sent
  rejected : Option EmailError → Sent

pub record Settings : Type 0 where
  pub lease_seconds : ℕ
  pub batch_size : ℕ
  pub max_attempts : ℕ
  pub retry_schedule_seconds : List ℕ
  -- "unknown" and "The academic email delivery failed."
  pub unknown_category : Text
  pub unknown_message : Text

abbrev pub same_row : Delivery → Delivery → Bool
same_row d e = text_eq d.tenant_id e.tenant_id && d.id == e.id

-- The lease on a row has run out; a row without `locked_at` has none.
abbrev pub is_expired : Settings → ℕ → Option ℕ → Bool
is_expired settings now none = false
is_expired settings now (some at) = leb (at + settings.lease_seconds * 1000) now

-- The WHERE of `claimDeliveries`
unfoldable pub is_candidate : Settings → ℕ → Delivery → Bool
is_candidate settings now d =
    (is_waiting d.status && leb d.next_attempt_at now && leb d.not_before now)
    || (is_processing d.status && is_expired settings now d.locked_at && leb d.not_before now)

unfoldable pub claim_row : ℕ → Delivery → Delivery
claim_row now d = record d {
  status = processing;
  locked_at = some now;
  attempt_count = d.attempt_count + 1;
  last_attempt_at = some now;
}

unfoldable pub skip_row : SkipReason → Delivery → Delivery
skip_row reason d = record d { status = skipped; skip_reason = some reason; locked_at = none }

unfoldable pub deliver_row : ℕ → Option Text → Delivery → Delivery
deliver_row at provider_message_id d = record d {
  status = delivered;
  sent_at = some at;
  locked_at = none;
  provider_message_id = provider_message_id;
  last_error_category = none;
  last_error_message = none;
}

-- `new AcademicEmailDeliveryError('unknown', true, …)` for an error of another class
abbrev pub provider_error : Settings → Option EmailError → EmailError
provider_error settings none = record {
  category = settings.unknown_category;
  retryable = true;
  message = settings.unknown_message;
}
provider_error settings (some error) = error

unfoldable pub is_terminal : Settings → Delivery → EmailError → Bool
is_terminal settings read error =
    not error.retryable || leb settings.max_attempts read.attempt_count

-- `schedule[Math.min(Math.max(attemptCount - 1, 0), schedule.length - 1)] ?? 60`; for an empty
-- schedule the index is -1, where there is no element.
unfoldable pub delay_seconds : List ℕ → ℕ → ℕ
delay_seconds [] attempts = 60
delay_seconds (s ∷ schedule) attempts =
    elim (get_elem? (s ∷ schedule) (min (attempts - 1) (length schedule))) [
      | some delay ↦ delay
      | none ↦ 60
    ]

unfoldable pub fail_row : Settings → ℕ → Delivery → EmailError → Delivery → Delivery
unfolding is_terminal delay_seconds
fail_row settings at read error d = record d {
  status = if is_terminal settings read error then failed else retry;
  next_attempt_at =
      if is_terminal settings read error
      then at
      else at + delay_seconds settings.retry_schedule_seconds read.attempt_count * 1000;
  locked_at = none;
  last_error_category = some error.category;
  last_error_message = some (take 500 error.message);
}

unfoldable pub sent_row : Settings → ℕ → Sent → Delivery → Delivery → Delivery
unfolding deliver_row fail_row
sent_row settings at (accepted message_id) read d = deliver_row at message_id d
sent_row settings at (rejected error) read d =
    fail_row settings at read (provider_error settings error) d

-- `!delivery.recipientEmail` first decides the reason for skipping.
unfoldable pub settle_by :
    Settings → ℕ → (Text → Sent) → Option Text → Channel → Delivery → Delivery → Delivery
unfolding sent_row skip_row
settle_by settings at send none channel read d = skip_row email_address_missing d
settle_by settings at send (some to) in_app read d = skip_row unsupported_channel d
settle_by settings at send (some to) email read d = sent_row settings at (send to) read d

-- The row that a worker writes for the delivery it has read, by what became of the e-mail.
unfoldable pub settle_row : Settings → ℕ → (Delivery → Text → Sent) → Delivery → Delivery → Delivery
unfolding settle_by
settle_row settings at send read d =
    settle_by settings at (send read) (truthy read.recipient_email) read.channel read d

module _ (settings : Settings) where
  module _ (order_by : List Delivery → List Delivery) (is_locked : Delivery → Bool) where
    -- ORDER BY, FOR UPDATE SKIP LOCKED and LIMIT
    unfoldable pub candidates : ℕ → List Delivery → List Delivery
    unfolding is_candidate
    candidates now deliveries =
        take settings.batch_size
          (order_by (filter (λ d. is_candidate settings now d && not (is_locked d)) deliveries))

    -- A row is updated if its primary key is that of a candidate; being the candidate then, it still
    -- satisfies the WHERE, since its lock is held.
    unfoldable pub claim_deliveries : ℕ → List Delivery → List Delivery × List Delivery
    unfolding candidates claim_row
    claim_deliveries now deliveries =
        let chosen = candidates now deliveries in
        (
          map
              (λ d.
                if is_candidate settings now d && any (same_row d) chosen
                then claim_row now d
                else d)
              deliveries,
          chosen,
        )

  -- updateMany where tenantId, id and status 'PROCESSING'
  unfoldable pub settle : ℕ → (Delivery → Text → Sent) → Delivery → List Delivery → List Delivery
  unfolding settle_row
  settle at send read deliveries =
      map
        (λ d.
          if same_row read d && is_processing d.status
          then settle_row settings at send read d
          else d)
        deliveries

  -- `meanwhile` is what other workers do while the e-mail is sent.
  unfoldable pub process_claim :
      ℕ
      → (Delivery → Text → Sent)
      → (meanwhile : List Delivery → List Delivery) → Delivery
      → List Delivery
      → List Delivery
  unfolding settle
  process_claim at send meanwhile claim deliveries = elim (find (same_row claim) deliveries) [
    | none ↦ deliveries
    | some read ↦
        if is_processing read.status then settle at send read (meanwhile deliveries) else deliveries
  ]
