-- ===== src/Deliveries/Final.antt =====
-- Which rows of notification_deliveries the worker of
-- apps/api/src/notifications/notification-worker.service.ts leaves alone, whatever the interleaving
-- of several workers.
use edupay_academico.Prelude.{
  ℕ, ◌+◌, ◌*◌, ◌<◌, ◌≡◌, ◌∙◌, refl, ap, Bool, true, false, some, List, any, get_elem?,
  get_elem?-map, if◌then◌else◌, ◌&&◌, arith, Text,
}
use edupay_academico.Deliveries.{
  candidates, settle_row, Delivery, DeliveryStatus, delivered, failed, skipped, processing,
  is_processing, is_waiting, is_expired, same_row, Sent, Settings, is_candidate, claim_row,
  claim_deliveries, settle,
}

abbrev pub is_final : DeliveryStatus → Bool
is_final delivered = true
is_final failed = true
is_final skipped = true
is_final _ = false

if_false {ℓ} : {A : Type ℓ} (b : Bool) (x y : A) → b ≡ false → (if b then x else y) ≡ y
if_false false x y h = refl
if_false true x y h = cc

final-not_waiting : (s : DeliveryStatus) → is_final s ≡ true → is_waiting s ≡ false
final-not_waiting delivered h = refl
final-not_waiting failed h = refl
final-not_waiting skipped h = refl
final-not_waiting _ h = cc

final-not_processing : (s : DeliveryStatus) → is_final s ≡ true → is_processing s ≡ false
final-not_processing delivered h = refl
final-not_processing failed h = refl
final-not_processing skipped h = refl
final-not_processing _ h = cc

module _ (settings : Settings) where
  -- One write to the table by some worker: a claim, or the outcome of a delivery it has read at any
  -- earlier time.
  pub data Step : List Delivery → List Delivery → Type 0 where
    claims :
        (order_by : List Delivery → List Delivery) (is_locked : Delivery → Bool) (now : ℕ)
        {s : List Delivery}
        → Step s (claim_deliveries settings order_by is_locked now s).0
    settles :
        (at : ℕ) (send : Delivery → Text → Sent) (read : Delivery) {s : List Delivery}
        → Step s (settle settings at send read s)

  pub data Run : List Delivery → List Delivery → Type 0 where
    stop : {s : List Delivery} → Run s s
    step : {s t u : List Delivery} → Step s t → Run t u → Run s u

  claim_deliveries-keeps :
      (order_by : List Delivery → List Delivery) (is_locked : Delivery → Bool) (now : ℕ)
      (s : List Delivery) (i : ℕ) (d : Delivery)
      → get_elem? s i ≡ some d
      → is_candidate settings now d ≡ false
      → get_elem? (claim_deliveries settings order_by is_locked now s).0 i ≡ some d
  unfolding claim_deliveries
  claim_deliveries-keeps order_by is_locked now s i d h p =
      get_elem?-map _ s i d h
      ∙ ap some (
          if_false
            (is_candidate settings now d
              && any (same_row d) (candidates settings order_by is_locked now s))
            (claim_row now d) d (ground arith))

  settle-keeps :
      (at : ℕ) (send : Delivery → Text → Sent) (read : Delivery) (s : List Delivery) (i : ℕ)
      (d : Delivery)
      → get_elem? s i ≡ some d
      → is_processing d.status ≡ false
      → get_elem? (settle settings at send read s) i ≡ some d
  unfolding settle
  settle-keeps at send read s i d h p =
      get_elem?-map _ s i d h
      ∙ ap some (
          if_false (same_row read d && is_processing d.status) (settle_row settings at send read d)
            d (ground arith))

  final-not_candidate :
      (now : ℕ) (d : Delivery) → is_final d.status ≡ true → is_candidate settings now d ≡ false
  unfolding is_candidate
  final-not_candidate now d h =
      ground (arith, final-not_waiting d.status h, final-not_processing d.status h)

  leased-not_candidate :
      (now since : ℕ) (d : Delivery)
      → d.status ≡ processing
      → d.locked_at ≡ some since
      → now < since + settings.lease_seconds * 1000
      → is_candidate settings now d ≡ false
  unfolding is_candidate
  leased-not_candidate now since d p l lt =
      ground (arith, ap is_waiting p, ap (is_expired settings now) l)

  Step-final :
      {s t : List Delivery}
      → Step s t
      → (i : ℕ) (d : Delivery) → get_elem? s i ≡ some d
      → is_final d.status ≡ true
      → get_elem? t i ≡ some d
  Step-final (claims order_by is_locked now) i d h f =
      claim_deliveries-keeps order_by is_locked now _ i d h (final-not_candidate now d f)
  Step-final (settles at send read) i d h f =
      settle-keeps at send read _ i d h (final-not_processing d.status f)

  -- A delivery that is delivered, failed or skipped is never written again, whatever claims and
  -- outcomes several workers write in whatever order, outcomes of outdated reads included.
  pub Run-final :
      {s t : List Delivery}
      → Run s t
      → (i : ℕ) (d : Delivery) → get_elem? s i ≡ some d
      → is_final d.status ≡ true
      → get_elem? t i ≡ some d
  Run-final stop i d h f = h
  Run-final (step a run) i d h f = Run-final run i d (Step-final a i d h f) f

  -- A claim leaves a delivery alone that another worker is processing and whose lease has not run
  -- out.
  pub claim_deliveries-leased :
      (order_by : List Delivery → List Delivery) (is_locked : Delivery → Bool) (now since : ℕ)
      (s : List Delivery) (i : ℕ) (d : Delivery)
      → get_elem? s i ≡ some d
      → d.status ≡ processing
      → d.locked_at ≡ some since
      → now < since + settings.lease_seconds * 1000
      → get_elem? (claim_deliveries settings order_by is_locked now s).0 i ≡ some d
  claim_deliveries-leased order_by is_locked now since s i d h p l lt =
      claim_deliveries-keeps order_by is_locked now s i d h
        (leased-not_candidate now since d p l lt)
