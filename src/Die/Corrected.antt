-- ===== src/Die/Corrected.antt =====
-- What the writes to the journal of apps/api/src/die/die.service.ts leave of its numbers.
use edupay_academico.Prelude.{
  ℕ, ◌+◌, ◌≡◌, refl, sym, ◌∙◌, Bool, true, false, not, none, some, ◌∷◌, All, All-imp, Text, find,
  find-test, any, All-imp₂, Option-cases, ok, ◌>>=◌, require, update_first, arith, Bool-cases, inl,
  inr, IfOk, if_ok, threw, bind-IfOk,
}
use edupay_academico.Prelude.Keys.{
  any-false, or_true, any-update_first, AtMostOne-update_first, All-update_first, All-find,
  none_pass,
}
use edupay_academico.Die.{JournalEntry, JournalRevision, State, unique_violation, is_entry}
use edupay_academico.Die.Entries.{
  is_journal_revision, to_voided, create_entry, create_revision, correct_action,
}
use edupay_academico.Die.Numbered.{
  HasLatest, IsBelow, Numbered, numbered, corrected, corrected-Numbered, is_journal_revision-next,
  is_journal_revision_self, is_entry-key, is_entry_self,
}

module _ {C : Type 0} where
  -- A correction in a numbered journal succeeds: it adds the revision after the entry's current one before the
  -- earlier ones, which stay as they are, and the journal is numbered again.
  pub correct_action-Appends :
      (draft : JournalRevision C) (e : JournalEntry) (s : State C)
      → find (is_entry draft.tenant_id draft.journal_entry_id) s.entries ≡ some e
      → Numbered s
      → (s' : State C) × (correct_action draft.tenant_id draft.journal_entry_id draft s ≡ ok s')
        × (s'.revisions ≡ numbered (e.current_revision_number + 1) draft ∷ s.revisions)
        × Numbered s'
  unfolding correct_action create_revision
  correct_action-Appends draft e s found h =
      (corrected draft e s, rw (found, free) refl, refl, corrected-Numbered draft e s found h)
    where
      free :
          any
            (λ r.
              is_journal_revision draft.tenant_id draft.journal_entry_id
                (e.current_revision_number + 1)
                r)
            s.revisions
          ≡ false
      free = any-false _ s.revisions (
          All-imp
            (λ r k.
              is_journal_revision-next draft.tenant_id draft.journal_entry_id e r
                (find-test (is_entry draft.tenant_id draft.journal_entry_id) s.entries found)
                (All-find (IsBelow r) (is_entry draft.tenant_id draft.journal_entry_id) s.entries e
                  found k))
            s.revisions h.below)

  correct_action-gone :
      (draft : JournalRevision C) (s : State C)
      → find (is_entry draft.tenant_id draft.journal_entry_id) s.entries ≡ none
      → IfOk Numbered (correct_action draft.tenant_id draft.journal_entry_id draft s)
  unfolding correct_action
  correct_action-gone draft s gone = rw gone threw

  pub correct_action-Numbered :
      (draft : JournalRevision C) (s : State C)
      → Numbered s
      → IfOk Numbered (correct_action draft.tenant_id draft.journal_entry_id draft s)
  correct_action-Numbered draft s h =
      elim (Option-cases (find (is_entry draft.tenant_id draft.journal_entry_id) s.entries)) [
        | inr (e, found) ↦
            let (s', answers, _, k) = correct_action-Appends draft e s found h in
            rw answers (if_ok k)
        | inl gone ↦ correct_action-gone draft s gone
      ]

  pub voided-Numbered :
      (q : JournalEntry → Bool) (reason actor : Text) (now : ℕ) (s : State C)
      → Numbered s
      → Numbered (record s { entries = update_first q (to_voided reason actor now) s.entries })
  voided-Numbered q reason actor now s h = record {
    keys = λ t id.
        AtMostOne-update_first (is_entry t id) q (to_voided reason actor now) s.entries (λ _. refl)
          (h.keys t id);
    latest =
        All-update_first (HasLatest s.revisions) q (to_voided reason actor now) s.entries (λ _ k. k)
          h.latest;
    below =
        All-imp
          (λ r k.
            All-update_first (IsBelow r) q (to_voided reason actor now) s.entries (λ _ j. j) k)
          s.revisions h.below;
    known =
        All-imp
          (λ r k.
            any-update_first (is_entry r.tenant_id r.journal_entry_id) q
              (to_voided reason actor now) s.entries (λ _ _. refl)
            ∙ k)
          s.revisions h.known;
  }

  -- An entry comes with its first revision.
  created-Numbered :
      (e : JournalEntry) (r : JournalRevision C) (s : State C)
      → r.tenant_id ≡ e.tenant_id
      → r.journal_entry_id ≡ e.id
      → r.revision_number ≡ e.current_revision_number
      → any (is_entry e.tenant_id e.id) s.entries ≡ false
      → Numbered s
      → Numbered (record s { entries = e ∷ s.entries; revisions = r ∷ s.revisions })
  created-Numbered e r s t_eq id_eq n_eq free h = record {
    keys = λ t id. (λ k. new_key t id k, h.keys t id);
    latest = (
      rw (sym t_eq, sym id_eq, sym n_eq, is_journal_revision_self r) refl,
      All-imp (λ y k. or_true _ _ k) s.entries h.latest,
    );
    below = (
      (
        (λ _. omega (arith, n_eq)),
        All-imp (λ y n k. absurd cc) s.entries
            (none_pass (is_entry e.tenant_id e.id) s.entries free),
      ),
      All-imp₂
          (λ x k there. (
            (λ same.
                let (xt, xid) = is_entry-key x.tenant_id x.journal_entry_id e same in
                absurd (cc (rw (sym xt, sym xid) at there))),
            k,
          ))
          s.revisions h.below h.known,
    );
    known = (
      rw (t_eq, id_eq, is_entry_self e) refl,
      All-imp (λ x k. or_true _ _ k) s.revisions h.known,
    );
  }
    where
      new_key :
          (t : Text) (id : ℕ)
          → is_entry t id e ≡ true
          → All (λ y. is_entry t id y ≡ false) s.entries
      new_key t id k =
          let (et, eid) = is_entry-key t id e k in
          none_pass (is_entry t id) s.entries (rw (sym et, sym eid) free)

  pub create-Numbered :
      (e : JournalEntry) (r : JournalRevision C) (s : State C)
      → r.tenant_id ≡ e.tenant_id
      → r.journal_entry_id ≡ e.id
      → r.revision_number ≡ e.current_revision_number
      → Numbered s
      → IfOk Numbered (create_entry e s >>= λ s'. create_revision r s')
  unfolding create_entry create_revision
  create-Numbered e r s t_eq id_eq n_eq h =
      elim (Bool-cases (any (is_entry e.tenant_id e.id) s.entries)) [
        | inl taken ↦ rw taken threw
        | inr free ↦ rw free (
            bind-IfOk
              (require unique_violation (
                not (
                  any (λ x. is_journal_revision r.tenant_id r.journal_entry_id r.revision_number x)
                    s.revisions)))
              {f = λ _. ok (record s { entries = e ∷ s.entries; revisions = r ∷ s.revisions })}
              λ _ _. if_ok (created-Numbered e r s t_eq id_eq n_eq free h))
      ]
