-- ===== src/Deliveries/Released.antt =====
-- `processClaim` of apps/api/src/notifications/notification-worker.service.ts gives up the delivery
-- that it was called for.
use edupay_academico.Prelude.{
  ℕ, ◌≡◌, sym, subst, refl, Bool, true, false, Option, none, some, List, find, All, All-map,
  for_each, ◌&&◌, Text, arith, if◌then◌else◌, Bool-cases, inl, inr,
}
use edupay_academico.Deliveries.{
  Delivery, Sent, accepted, rejected, Settings, Channel, in_app, email, is_processing, same_row,
  settle, settle_row, settle_by, sent_row, deliver_row, skip_row, fail_row, is_terminal,
  provider_error, process_claim, failed, retry,
}
use edupay_academico.Access.{truthy}

written-released :
    (same : Delivery → Bool) (x d : Delivery)
    → is_processing x.status ≡ false
    → same (if same d && is_processing d.status then x else d) ≡ true
    → is_processing (if same d && is_processing d.status then x else d).status ≡ false
written-released same x d h same_d = elim (Bool-cases (same d && is_processing d.status)) [
  | inl t ↦ rw t h
  | inr f ↦ let own = rw f at same_d in rw f (ground (arith, own, f))
]

module _ (settings : Settings) (at : ℕ) where
  sent_row-released :
      (o : Sent) (read d : Delivery) → is_processing (sent_row settings at o read d).status ≡ false
  unfolding sent_row deliver_row fail_row
  sent_row-released (accepted message_id) read d = refl
  sent_row-released (rejected error) read d =
      elim (is_terminal settings read (provider_error settings error))
        as (λ b. is_processing (if b then failed else retry) ≡ false) [ true ↦ refl | false ↦ refl ]

  settle_by-released :
      (send : Text → Sent) (o : Option Text) (c : Channel) (read d : Delivery)
      → is_processing (settle_by settings at send o c read d).status ≡ false
  unfolding settle_by skip_row
  settle_by-released send none c read d = refl
  settle_by-released send (some to) in_app read d = refl
  settle_by-released send (some to) email read d = sent_row-released (send to) read d

  settle-released :
      (send : Delivery → Text → Sent) (read : Delivery) (s : List Delivery)
      → All
          (λ d. same_row read d ≡ true → is_processing d.status ≡ false)
          (settle settings at send read s)
  unfolding settle settle_row
  settle-released send read s =
      All-map (λ d. same_row read d ≡ true → is_processing d.status ≡ false) _ s
        (for_each
          (λ d.
            written-released (same_row read) (settle_row settings at send read d) d
              (settle_by-released (send read) (truthy read.recipient_email) read.channel read d))
          s)

  process_claim-settle :
      (send : Delivery → Text → Sent) (meanwhile : List Delivery → List Delivery)
      (claim read : Delivery) (s : List Delivery)
      → find (same_row claim) s ≡ some read
      → is_processing read.status ≡ true
      → process_claim settings at send meanwhile claim s
        ≡ settle settings at send read (meanwhile s)
  unfolding process_claim
  process_claim-settle send meanwhile claim read s found p = rw (found, process_claim) (rw p refl)

  -- A worker that has found the delivery of its claim in processing gives it up: after its write no
  -- row with the primary key of that delivery is in processing, whatever the provider answers and
  -- whatever other workers have written while the e-mail was sent.
  pub process_claim-released :
      (send : Delivery → Text → Sent) (meanwhile : List Delivery → List Delivery)
      (claim read : Delivery) (s : List Delivery)
      → find (same_row claim) s ≡ some read
      → is_processing read.status ≡ true
      → All
          (λ d. same_row read d ≡ true → is_processing d.status ≡ false)
          (process_claim settings at send meanwhile claim s)
  process_claim-released send meanwhile claim read s found p =
      subst (All (λ d. same_row read d ≡ true → is_processing d.status ≡ false))
        (sym (process_claim-settle send meanwhile claim read s found p))
        (settle-released send read (meanwhile s))
