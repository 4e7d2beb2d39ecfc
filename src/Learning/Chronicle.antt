-- ===== src/Learning/Chronicle.antt =====
-- Versions and revisions in apps/api/src/learning/learning.service.ts: what a write and the revision
-- that records it do to the history of the items.
use edupay_academico.Prelude.{
  ℕ, ◌+◌, ◌≤◌, ◌≡◌, ◌≢◌, refl, sym, ap, Bool, true, false, Option, none, some, All, All-imp, Text,
  text_eq_iff, ==_iff, ◌∙◌, find, find-test, any, Result, ok, err, ◌>>=◌, ◌>>◌, require,
  require_some, arith, update_first, Bool-cases, inl, inr, if◌then◌else◌,
}
use edupay_academico.Learning.{
  LearningItem, ContentRevision, State, Refusal, unique_violation, denied, not_found, conflict,
  stale_revision, Operation,
}
use edupay_academico.Learning.Writes.{is_item, bump, is_revision, record_revision, revision_of}
use edupay_academico.Prelude.Keys.{
  AtMostOne-update_first, All-update_first, All-key, any-false, All-find,
}
use edupay_academico.Learning.Stale.{KeepsKey, HasKeys, is_item-bump}

-- A result that is no violation of the unique key of the revisions, and of which `P` holds.
pub data Settles {A : Type 0} (P : A → Type 0) : Result Refusal A → Type 0 where
  settled : {a : A} → P a → Settles P (ok a)
  refused : {e : Refusal} → e ≢ unique_violation → Settles P (err e)

pub denied_apart : denied ≢ unique_violation
denied_apart h = cc

pub not_found_apart : not_found ≢ unique_violation
not_found_apart h = cc

pub conflict_apart : conflict ≢ unique_violation
conflict_apart h = cc

pub stale_revision_apart : stale_revision ≢ unique_violation
stale_revision_apart h = cc

pub bind-Settles :
    {A B : Type 0} {P : A → Type 0} {Q : B → Type 0} {m : Result Refusal A}
    {f : A → Result Refusal B}
    → Settles P m
    → ((a : A) → P a → Settles Q (f a))
    → Settles Q (m >>= f)
bind-Settles (settled {a = a} h) k = k a h
bind-Settles (refused n) k = refused n

pub require-Settles :
    (e : Refusal) (b : Bool) → e ≢ unique_violation → Settles (λ _. b ≡ true) (require e b)
require-Settles e true n = settled refl
require-Settles e false n = refused n

pub then-Settles :
    {B : Type 0} {Q : B → Type 0} (e : Refusal) (b : Bool) (r : Result Refusal B)
    → e ≢ unique_violation
    → Settles Q r
    → Settles Q (require e b >> r)
then-Settles e true r n h = h
then-Settles e false r n h = refused n

pub require_some-Settles :
    {A : Type 0} (e : Refusal) (o : Option A)
    → e ≢ unique_violation
    → Settles (λ a. o ≡ some a) (require_some e o)
require_some-Settles e (some a) n = settled refl
require_some-Settles e none n = refused n

pub if-Settles :
    {A : Type 0} {Q : A → Type 0} (b : Bool) {x y : Result Refusal A}
    → Settles Q x
    → Settles Q y
    → Settles Q (if b then x else y)
if-Settles true h k = h
if-Settles false h k = k

module _ {C : Type 0} where
  -- The item is at the version of the revision or past it, if it is the revision's item.
  abbrev pub Covers : ContentRevision C → LearningItem C → Type 0
  Covers r i = is_item r.tenant_id r.entity_id i ≡ true → r.revision_number ≤ i.version

  -- Items have unique keys, and no revision of an item has a number past the item's version.
  pub record Chronicled (s : State C) : Type 0 where
    pub keys : HasKeys s
    pub covered : All (λ r. All (Covers r) s.items) s.revisions

  Covers-bump :
      (change : LearningItem C → LearningItem C)
      → KeepsKey change
      → (r : ContentRevision C) (i : LearningItem C) → Covers r i
      → Covers r (bump change i)
  Covers-bump change keep r i h k =
      let earlier = h (sym (is_item-bump change keep r.tenant_id r.entity_id i) ∙ k) in omega arith

  pub is_item-key :
      (t : Text) (id : ℕ) (i : LearningItem C)
      → is_item t id i ≡ true
      → (i.tenant_id ≡ t) × (i.id ≡ id)
  is_item-key t id i h =
      ((text_eq_iff i.tenant_id t).0 (ground (arith, h)), (==_iff i.id id).0 (ground (arith, h)))

  -- The number of the next revision of an item is free.
  is_revision-next :
      (t : Text) (id : ℕ) (i : LearningItem C) (r : ContentRevision C)
      → is_item t id i ≡ true
      → Covers r i
      → is_revision t id (i.version + 1) r ≡ false
  is_revision-next t id i r k h = elim (Bool-cases (is_revision t id (i.version + 1) r)) [
    | inr f ↦ f
    | inl same ↦
        let t_eq : r.tenant_id ≡ t = (text_eq_iff r.tenant_id t).0 (ground (arith, same)) in
        let id_eq : r.entity_id ≡ id = (==_iff r.entity_id id).0 (ground (arith, same)) in
        let number : r.revision_number ≡ i.version + 1 =
          (==_iff r.revision_number (i.version + 1)).0 (ground (arith, same)) in
        let below : r.revision_number ≤ i.version = h (rw (t_eq, id_eq) k) in absurd (omega arith)
  ]

  -- A row is written by a guarded or an unguarded update and its revision is recorded: that is
  -- no violation of the key, and the history covers the revision. `s'` differs from `s` elsewhere.
  pub record_revision-Settles :
      (change : LearningItem C → LearningItem C)
      → KeepsKey change
      → (t : Text) (id : ℕ) (q : LearningItem C → Bool)
      → ((y : LearningItem C) → q y ≡ true → is_item t id y ≡ true)
      → (i : LearningItem C) (r : ContentRevision C) (s s' : State C) → find q s.items ≡ some i
      → s'.items ≡ update_first q (bump change) s.items
      → s'.revisions ≡ s.revisions
      → r.tenant_id ≡ t
      → r.entity_id ≡ id
      → r.revision_number ≡ i.version + 1
      → Chronicled s
      → Settles Chronicled (record_revision r s')
  unfolding record_revision
  record_revision-Settles change keep t id q sub i r s s' found items revisions t_eq id_eq number
        h =
      rw (revisions, free)
        (settled (record {
          keys = λ t' id'. rw items (
              AtMostOne-update_first (is_item t' id') q (bump change) s.items
                (is_item-bump change keep t' id') (h.keys t' id'));
          covered = (new, old);
        }))
    where
      at_key : is_item t id i ≡ true
      at_key = sub i (find-test q s.items found)

      free : any (is_revision r.tenant_id r.entity_id r.revision_number) s.revisions ≡ false
      free =
          rw (t_eq, id_eq, number)
            (any-false (is_revision t id (i.version + 1)) s.revisions (
              All-imp
                (λ x c. is_revision-next t id i x at_key (All-find (Covers x) q s.items i found c))
                s.revisions h.covered))

      new : All (Covers r) s'.items
      new =
          rw (items, t_eq, id_eq, number)
            (All-key (λ y. i.version + 1 ≤ y.version) (is_item t id) q (bump change) s.items i sub
              (h.keys t id) found (omega arith))

      old : All (λ x. All (Covers x) s'.items) s.revisions
      old = rw items (
          All-imp
            (λ x c.
              All-update_first (Covers x) q (bump change) s.items (Covers-bump change keep x) c)
            s.revisions h.covered)

  -- The revision that shows the item as it has become.
  pub revision_of-Settles :
      (change : LearningItem C → LearningItem C)
      → KeepsKey change
      → (t : Text) (id : ℕ) (q : LearningItem C → Bool)
      → ((y : LearningItem C) → q y ≡ true → is_item t id y ≡ true)
      → (o : Operation) (actor : Text) (i u : LearningItem C) (s s' : State C)
      → find q s.items ≡ some i
      → u ≡ bump change i
      → s'.items ≡ update_first q (bump change) s.items
      → s'.revisions ≡ s.revisions
      → Chronicled s
      → Settles Chronicled (record_revision (revision_of o actor u) s')
  revision_of-Settles change keep t id q sub o actor i u s s' found u_eq items revisions h =
      let (t_eq, id_eq) = is_item-key t id i (sub i (find-test q s.items found)) in
      record_revision-Settles change keep t id q sub i (revision_of o actor u) s s' found items
        revisions (ap LearningItem.tenant_id u_eq ∙ keep.tenant_id i ∙ t_eq)
        (ap LearningItem.id u_eq ∙ keep.id i ∙ id_eq) (ap LearningItem.version u_eq) h
