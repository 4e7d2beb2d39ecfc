-- ===== src/Die/Numbered.antt =====
-- The revisions of the journal (apps/api/src/die/die.service.ts): their numbers, and what the writes do
-- to them.
use edupay_academico.Prelude.{
  ℕ, ◌+◌, ◌≤◌, ◌≡◌, refl, ◌∙◌, Bool, true, false, some, List, ◌∷◌, All, All-imp, Text, text_eq_iff,
  text_eq_refl, ==_iff, ==_refl, find, find-test, any, update_first, arith, Bool-cases, inl, inr,
}
use edupay_academico.Prelude.Keys.{
  AtMostOne, or_true, any-find, any-update_first, AtMostOne-update_first, All-update_first_at,
  All-update_found, All-key,
}
use edupay_academico.Die.{JournalEntry, JournalRevision, State, is_entry}
use edupay_academico.Die.Entries.{is_journal_revision, to_number}

pub is_entry-key :
    (t : Text) (id : ℕ) (e : JournalEntry)
    → is_entry t id e ≡ true
    → (e.tenant_id ≡ t) × (e.id ≡ id)
is_entry-key t id e h =
    ((text_eq_iff e.tenant_id t).0 (ground (arith, h)), (==_iff e.id id).0 (ground (arith, h)))

pub is_entry_self : (e : JournalEntry) → is_entry e.tenant_id e.id e ≡ true
is_entry_self e = rw (text_eq_refl e.tenant_id, ==_refl e.id) refl

module _ {C : Type 0} where
  -- The entry's current revision is there.
  abbrev pub HasLatest : List (JournalRevision C) → JournalEntry → Type 0
  HasLatest revisions e =
      any (λ r. is_journal_revision e.tenant_id e.id e.current_revision_number r) revisions ≡ true

  -- The revision is none past the entry's current one, if it is the entry's.
  abbrev pub IsBelow : JournalRevision C → JournalEntry → Type 0
  IsBelow r e =
      is_entry r.tenant_id r.journal_entry_id e ≡ true
      → r.revision_number ≤ e.current_revision_number

  -- Entries have unique keys and their current revision; a revision is of an entry that is there, and has no
  -- number past the entry's.
  pub record Numbered (s : State C) : Type 0 where
    pub keys : (t : Text) (id : ℕ) → AtMostOne (is_entry t id) s.entries
    pub latest : All (HasLatest s.revisions) s.entries
    pub below : All (λ r. All (IsBelow r) s.entries) s.revisions
    pub known :
        All (λ r. any (is_entry r.tenant_id r.journal_entry_id) s.entries ≡ true) s.revisions

  abbrev pub numbered : ℕ → JournalRevision C → JournalRevision C
  numbered n draft = record draft { revision_number = n }

  pub is_journal_revision_self :
      (r : JournalRevision C)
      → is_journal_revision r.tenant_id r.journal_entry_id r.revision_number r ≡ true
  is_journal_revision_self r =
      rw (text_eq_refl r.tenant_id, ==_refl r.journal_entry_id, ==_refl r.revision_number) refl

  -- The number after the current one is free.
  pub is_journal_revision-next :
      (t : Text) (id : ℕ) (e : JournalEntry) (r : JournalRevision C)
      → is_entry t id e ≡ true
      → IsBelow r e
      → is_journal_revision t id (e.current_revision_number + 1) r ≡ false
  is_journal_revision-next t id e r k h =
      elim (Bool-cases (is_journal_revision t id (e.current_revision_number + 1) r)) [
        | inr f ↦ f
        | inl same ↦
            let t_eq : r.tenant_id ≡ t = (text_eq_iff r.tenant_id t).0 (ground (arith, same)) in
            let id_eq : r.journal_entry_id ≡ id =
              (==_iff r.journal_entry_id id).0 (ground (arith, same)) in
            let number : r.revision_number ≡ e.current_revision_number + 1 =
              (==_iff r.revision_number (e.current_revision_number + 1)).0 (ground (arith, same)) in
            let below : r.revision_number ≤ e.current_revision_number = h (rw (t_eq, id_eq) k) in
            absurd (omega arith)
      ]

  -- The tables after the correction of the entry `e`
  abbrev pub corrected : JournalRevision C → JournalEntry → State C → State C
  corrected draft e s = record s {
    revisions = numbered (e.current_revision_number + 1) draft ∷ s.revisions;
    entries =
        update_first (is_entry draft.tenant_id draft.journal_entry_id)
          (to_number (e.current_revision_number + 1)) s.entries;
  }

  pub corrected-Numbered :
      (draft : JournalRevision C) (e : JournalEntry) (s : State C)
      → find (is_entry draft.tenant_id draft.journal_entry_id) s.entries ≡ some e
      → Numbered s
      → Numbered (corrected draft e s)
  corrected-Numbered draft e s found h = record {
    keys = λ t id.
        AtMostOne-update_first (is_entry t id) q (to_number n) s.entries (λ _. refl) (h.keys t id);
    latest =
        All-update_first_at (HasLatest (new ∷ s.revisions)) q (to_number n) s.entries
          (λ y k _.
            let (t_eq, id_eq) = is_entry-key draft.tenant_id draft.journal_entry_id y k in
            rw (t_eq, id_eq, is_journal_revision_self new) refl)
          (All-imp (λ y k. or_true _ _ k) s.entries h.latest);
    below = (
      All-key (λ y. n ≤ y.current_revision_number) q q (to_number n) s.entries e (λ _ k. k)
          (h.keys draft.tenant_id draft.journal_entry_id) found (omega arith),
      All-imp
          (λ r k.
            All-update_found (IsBelow r) q (to_number n) s.entries e found
              (λ b j. omega (arith, b j)) k)
          s.revisions h.below,
    );
    known = (
      same draft.tenant_id draft.journal_entry_id
          ∙ any-find q q s.entries e found (find-test q s.entries found),
      All-imp (λ r k. same r.tenant_id r.journal_entry_id ∙ k) s.revisions h.known,
    );
  }
    where
      n : ℕ
      n = e.current_revision_number + 1

      q : JournalEntry → Bool
      q = is_entry draft.tenant_id draft.journal_entry_id

      new : JournalRevision C
      new = numbered n draft

      same :
          (t : Text) (id : ℕ)
          → any (is_entry t id) (update_first q (to_number n) s.entries)
            ≡ any (is_entry t id) s.entries
      same t id = any-update_first (is_entry t id) q (to_number n) s.entries (λ _ _. refl)
