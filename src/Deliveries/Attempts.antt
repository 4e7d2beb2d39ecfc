-- ===== src/Deliveries/Attempts.antt =====
-- Retries of one delivery in apps/api/src/notifications/notification-worker.service.ts.
use edupay_academico.Prelude.{
  ℕ, ◌+◌, ◌≤◌, ◌<◌, ◌≡◌, ◌⊎◌, inl, refl, true, Option, none, some, Text, List, [], ◌∷◌, length,
  if◌then◌else◌, arith,
}
use edupay_academico.Deliveries.{
  Delivery, Sent, accepted, rejected, Settings, claim_row, settle_row, fail_row, skip_row,
  deliver_row, is_terminal, provider_error, EmailError, settle_by, sent_row, Channel, in_app, email,
}
use edupay_academico.Deliveries.Final.{is_final}
use edupay_academico.Access.{truthy}

module _ (settings : Settings) (send : Delivery → Text → Sent) where
  -- A claim and its outcome, with nothing between them.
  abbrev pub attempt : ℕ → Delivery → Delivery
  attempt now d = settle_row settings now send (claim_row now d) (claim_row now d)

  -- Final, or with attempts left.
  abbrev Ends : Delivery → Type 0
  Ends d = (is_final d.status ≡ true) ⊎ (d.attempt_count < settings.max_attempts)

  fail_row-Ends : (now : ℕ) (d : Delivery) (e : EmailError) → Ends (fail_row settings now d e d)
  unfolding fail_row is_terminal
  fail_row-Ends now d e = ground arith

  settle_by-Ends :
      (now : ℕ) (o : Option Text) (c : Channel) (d : Delivery)
      → Ends (settle_by settings now (send d) o c d d)
  unfolding settle_by sent_row deliver_row skip_row
  settle_by-Ends now none c d = inl refl
  settle_by-Ends now (some to) in_app d = inl refl
  settle_by-Ends now (some to) email d =
      elim (send d to) as (λ sent. Ends (sent_row settings now sent d d)) [
        | accepted message_id ↦ inl refl
        | rejected error ↦ fail_row-Ends now d (provider_error settings error)
      ]

  attempt_count-settle_by :
      (now : ℕ) (o : Option Text) (c : Channel) (d : Delivery)
      → (settle_by settings now (send d) o c d d).attempt_count ≡ d.attempt_count
  unfolding settle_by sent_row deliver_row skip_row fail_row
  attempt_count-settle_by now none c d = refl
  attempt_count-settle_by now (some to) in_app d = refl
  attempt_count-settle_by now (some to) email d =
      elim (send d to)
        as (λ sent. (sent_row settings now sent d d).attempt_count ≡ d.attempt_count) [
          | accepted message_id ↦ refl
          | rejected error ↦ refl
        ]

  attempt-Ends : (now : ℕ) (d : Delivery) → Ends (attempt now d)
  unfolding settle_row claim_row
  attempt-Ends now d = settle_by-Ends now (truthy d.recipient_email) d.channel (claim_row now d)

  attempt_count-attempt :
      (now : ℕ) (d : Delivery) → (attempt now d).attempt_count ≡ d.attempt_count + 1
  unfolding settle_row claim_row
  attempt_count-attempt now d =
      attempt_count-settle_by now (truthy d.recipient_email) d.channel (claim_row now d)

  -- Attempts one after the other, at the given times, until the delivery is final.
  abbrev pub attempts : List ℕ → Delivery → Delivery
  attempts [] d = d
  attempts (now ∷ times) d =
      if is_final (attempt now d).status then attempt now d else attempts times (attempt now d)

  -- Attempts end: once as many attempts have been made as there may be, counted with the ones made
  -- before, the delivery is delivered, failed or skipped, whatever the provider answered.
  pub attempts-final :
      (now : ℕ) (times : List ℕ) (d : Delivery)
      → settings.max_attempts ≤ d.attempt_count + length (now ∷ times)
      → is_final (attempts (now ∷ times) d).status ≡ true
  attempts-final now [] d h = ground (arith, attempt-Ends now d, attempt_count-attempt now d)
  attempts-final now (next ∷ times) d h = ground (
    arith,
    attempt-Ends now d,
    attempt_count-attempt now d,
    attempts-final next times (attempt now d),
  )
