-- ===== src/Publisher/Final.antt =====
-- What `publishPending` of
-- apps/api/src/financial-projection/financial-projection-publisher.service.ts leaves alone.
use edupay_academico.Prelude.{
  ℕ, ◌+◌, ◌≡◌, refl, subst, Bool, true, false, not, Option, none, some, List, [], ◌∷◌, map, find,
  ◌==◌, update_first, if-elim, Bool-cases, inl, inr, arith,
}
use mathlib.Core.Option.{some-injective}
use edupay_academico.Publisher.{
  Status, published, failed, OutboxEvent, Settings, pending, publishing, retry, is_publishable,
  is_publishing, is_claimable, is_claimed, claim_event, recover_event, publish_event, fail_event,
  settle_event, process_claimed, process_event, process_events, due_candidates, publish_pending,
}

-- PUBLISHED or FAILED
abbrev pub is_final : Status → Bool
is_final published = true
is_final failed = true
is_final _ = false

abbrev pub has_id : ℕ → OutboxEvent → Bool
has_id id e = e.id == id

-- The event is in the table, and it is final.
pub record IsFinal (e : OutboxEvent) (rows : List OutboxEvent) : Type 0 where
  pub found : find (has_id e.id) rows ≡ some e
  pub final : is_final e.status ≡ true

find-kept :
    (p q : OutboxEvent → Bool) (f : OutboxEvent → OutboxEvent) (xs : List OutboxEvent)
    (e : OutboxEvent)
    → ((y : OutboxEvent) → p (f y) ≡ p y)
    → q e ≡ false
    → find p xs ≡ some e
    → find p (update_first q f xs) ≡ some e
find-kept p q f [] e keep n h = cc
find-kept p q f (y ∷ ys) e keep n h = elim (Bool-cases (p y)) [
  | inl t ↦
      let same : y ≡ e = some-injective y e (rw t at h) in
      rw (same, n, subst (λ z. p z ≡ true) same t) refl
  | inr m ↦ elim (Bool-cases (q y)) [
    | inl t ↦ rw (t, keep y, m) (rw m at h)
    | inr k ↦ rw (k, m) (find-kept p q f ys e keep n (rw m at h))
  ]
]

find-map_kept :
    (p : OutboxEvent → Bool) (f : OutboxEvent → OutboxEvent) (xs : List OutboxEvent)
    (e : OutboxEvent)
    → ((y : OutboxEvent) → p (f y) ≡ p y)
    → f e ≡ e
    → find p xs ≡ some e
    → find p (map f xs) ≡ some e
find-map_kept p f [] e keep n h = cc
find-map_kept p f (y ∷ ys) e keep n h = elim (Bool-cases (p y)) [
  | inl t ↦
      let same : y ≡ e = some-injective y e (rw t at h) in
      rw (same, n, subst (λ z. p z ≡ true) same t) refl
  | inr m ↦ rw (keep y, m) (find-map_kept p f ys e keep n (rw m at h))
]

final_apart :
    (s : Status) → is_final s ≡ true → (is_publishable s ≡ false) × (is_publishing s ≡ false)
final_apart published h = (refl, refl)
final_apart failed h = (refl, refl)
final_apart pending h = cc
final_apart publishing h = cc
final_apart retry h = cc

not_claimable :
    (id now : ℕ) (e : OutboxEvent) → is_final e.status ≡ true → is_claimable id now e ≡ false
not_claimable id now e h = ground (arith, (final_apart e.status h).0)

not_claimed : (id : ℕ) (e : OutboxEvent) → is_final e.status ≡ true → is_claimed id e ≡ false
not_claimed id e h = ground (arith, (final_apart e.status h).1)

module _ (settings : Settings) (post : OutboxEvent → Bool)
    (others : List OutboxEvent → List OutboxEvent) (clock : ℕ → ℕ) (e : OutboxEvent)
    (considerate : (rows : List OutboxEvent) → IsFinal e rows → IsFinal e (others rows)) where
  update-IsFinal :
      (q : OutboxEvent → Bool) (f : OutboxEvent → OutboxEvent) (rows : List OutboxEvent)
      → ((y : OutboxEvent) → (f y).id ≡ y.id)
      → q e ≡ false
      → IsFinal e rows
      → IsFinal e (update_first q f rows)
  update-IsFinal q f rows keep n h = record {
    found = find-kept (has_id e.id) q f rows e (λ y. rw (keep y) refl) n h.found;
    final = h.final;
  }

  settle_event-IsFinal :
      (at : ℕ) (event : OutboxEvent) (rows : List OutboxEvent)
      → IsFinal e rows
      → IsFinal e (settle_event settings post others clock at event rows)
  unfolding settle_event
  settle_event-IsFinal at event rows h =
      if-elim (IsFinal e) (post event) _ _
        (λ accepted.
          update-IsFinal (is_claimed event.id) (publish_event at) rows (λ y. refl)
            (not_claimed event.id e h.final) h)
        (λ refused.
          update-IsFinal (is_claimed event.id) (fail_event settings event.attempt_count at) rows
            (λ y. refl) (not_claimed event.id e h.final) h)

  process_claimed-IsFinal :
      (now at id : ℕ) (claimed : Option OutboxEvent) (rows : List OutboxEvent)
      → IsFinal e rows
      → IsFinal e (process_claimed settings post others clock now at id claimed rows)
  unfolding process_claimed
  process_claimed-IsFinal now at id none rows h = h
  process_claimed-IsFinal now at id (some x) rows h = settle_event-IsFinal at (claim_event at x) _ (
      considerate _ (
        update-IsFinal (is_claimable id now) (claim_event at) rows (λ y. refl)
          (not_claimable id now e h.final) h))

  process_event-IsFinal :
      (now at id : ℕ) (rows : List OutboxEvent)
      → IsFinal e rows
      → IsFinal e (process_event settings post others clock now at id rows)
  unfolding process_event
  process_event-IsFinal now at id rows h =
      process_claimed-IsFinal now at id (find (is_claimable id now) rows) rows h

  process_events-IsFinal :
      (now n : ℕ) (ids : List ℕ) (rows : List OutboxEvent)
      → IsFinal e rows
      → IsFinal e (process_events settings post others clock now n ids rows)
  unfolding process_events
  process_events-IsFinal now n [] rows h = h
  process_events-IsFinal now n (id ∷ ids) rows h =
      process_events-IsFinal now (n + 1) ids _
        (process_event-IsFinal now (clock n) id (others rows) (considerate rows h))

  -- An event that is published or has failed stays in the outbox as it is, whatever the publisher
  -- does in a drain, and whatever Finance answers; provided that the other publishers leave it so.
  pub publish_pending-IsFinal :
      (order_by : List OutboxEvent → List OutboxEvent) (now limit : ℕ) (rows : List OutboxEvent)
      → IsFinal e rows
      → IsFinal e (publish_pending settings post others clock order_by now limit rows)
  unfolding publish_pending
  publish_pending-IsFinal order_by now limit rows h =
      if-elim (IsFinal e) (not settings.enabled) _ _ (λ off. h)
        (λ on.
          process_events-IsFinal now 0
            (due_candidates order_by now limit
              (others (map (recover_event now settings.timeout_ms) rows)))
            _
            (considerate _ (record {
              found =
                  find-map_kept (has_id e.id) (recover_event now settings.timeout_ms) rows e
                    (λ y. recovers y) (rw ((final_apart e.status h.final).1) refl) h.found;
              final = h.final;
            })))
    where
      recovers :
          (y : OutboxEvent) → has_id e.id (recover_event now settings.timeout_ms y) ≡ has_id e.id y
      recovers y =
          if-elim (λ (z : OutboxEvent). has_id e.id z ≡ has_id e.id y) _ _ y (λ t. refl) (λ f. refl)
