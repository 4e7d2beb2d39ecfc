-- ===== src/CourseBuilder/Rollback.antt =====
-- Rolling optimistic commands back.
use edupay_academico.Prelude.{
  ℕ, ◌≡◌, ◌≢◌, inl, inr, refl, ap, ◌∙◌, none, some, List, [], ◌∷◌, ◌++◌, ◌==◌, ◌!=◌, filter-append,
  find, find-append, All, arith, Option-cases,
}
use edupay_academico.CourseBuilder.{
  State, PendingCommand, Edit, UnitWithItems, optimistic, rollback_command, edit_units, action_type,
  without_command, course_builder_reducer,
}

module _ {C : Type 0} where
  -- No pending command has the id.
  abbrev pub IsFresh : ℕ → List (PendingCommand C) → Type 0
  IsFresh command_id = All (λ c. c.id ≢ command_id)

  find_fresh :
      (command_id : ℕ) (cs : List (PendingCommand C))
      → IsFresh command_id cs
      → find (λ c. c.id == command_id) cs ≡ none
  find_fresh command_id [] h = refl
  find_fresh command_id (c ∷ cs) (h, hs) = ground (arith, find_fresh command_id cs hs, h)

  find_last :
      (command_id : ℕ) (cs : List (PendingCommand C)) (p : PendingCommand C)
      → IsFresh command_id cs
      → p.id ≡ command_id
      → find (λ c. c.id == command_id) (cs ++ p ∷ []) ≡ some p
  find_last command_id [] p h e = ground arith
  find_last command_id (c ∷ cs) p (h, hs) e = ground (arith, find_last command_id cs p hs e, h)

  without_last :
      (command_id : ℕ) (cs : List (PendingCommand C)) (p : PendingCommand C)
      → IsFresh command_id cs
      → p.id ≡ command_id
      → without_command command_id (cs ++ p ∷ []) ≡ cs
  without_last command_id [] p h e = ground arith
  without_last command_id (c ∷ cs) p (h, hs) e =
      ground (arith, without_last command_id cs p hs e, h)

  -- The command that an edit leaves pending.
  abbrev pub pending : State C → ℕ → Edit C → PendingCommand C
  pending s command_id edit = record {
    id = command_id;
    action_type = action_type edit;
    previous_units = s.units;
  }

  optimistic-none :
      (s : State C) (command_id : ℕ) (edit : Edit C)
      → edit_units edit s.units ≡ none
      → course_builder_reducer s (optimistic command_id edit) ≡ s
  unfolding course_builder_reducer
  optimistic-none s command_id edit e = rw (e, course_builder_reducer)

  pub optimistic-some :
      (s : State C) (command_id : ℕ) (edit : Edit C) {units : List (UnitWithItems C)}
      → edit_units edit s.units ≡ some units
      → course_builder_reducer s (optimistic command_id edit) ≡ record s {
        pending_commands = s.pending_commands ++ pending s command_id edit ∷ [];
        units = units;
      }
  unfolding course_builder_reducer
  optimistic-some s command_id edit e = rw (e, course_builder_reducer)

  rollback-fresh :
      (s : State C) (command_id : ℕ)
      → IsFresh command_id s.pending_commands
      → course_builder_reducer s (rollback_command command_id) ≡ s
  unfolding course_builder_reducer
  rollback-fresh s command_id fresh =
      rw (find_fresh command_id s.pending_commands fresh, course_builder_reducer)

  pub rollback-found :
      (s : State C) (command_id : ℕ) {p : PendingCommand C}
      → find (λ c. c.id == command_id) s.pending_commands ≡ some p
      → course_builder_reducer s (rollback_command command_id) ≡ record s {
        pending_commands = without_command command_id s.pending_commands;
        units = p.previous_units;
      }
  unfolding course_builder_reducer
  rollback-found s command_id e = rw (e, course_builder_reducer)

  -- Rolling back an optimistic edit, of any kind, whose id was not pending gives back the state
  -- before it, the pending commands, notice and flag included.
  pub rollback-optimistic :
      (s : State C) (command_id : ℕ) (edit : Edit C)
      → IsFresh command_id s.pending_commands
      → course_builder_reducer
          (course_builder_reducer s (optimistic command_id edit))
          (rollback_command command_id)
        ≡ s
  rollback-optimistic s command_id edit fresh = elim (Option-cases (edit_units edit s.units)) [
    | inl e ↦ rw (optimistic-none s command_id edit e) (rollback-fresh s command_id fresh)
    | inr (units, e) ↦
        let p = pending s command_id edit in
        rw (optimistic-some s command_id edit e) (
          rollback-found _ command_id (find_last command_id s.pending_commands p fresh refl)
          ∙ ap (λ cs. record s { pending_commands = cs })
              (without_last command_id s.pending_commands p fresh refl))
  ]

  -- Two edits are pending under different fresh ids, and both had an effect. Rolling them back in
  -- the order in which they were made ends with the units that the first edit made, and not with
  -- those before it, though no command is left pending.
  pub rollback-rollback_first :
      (s : State C) (first_id second_id : ℕ) (first second : Edit C)
      (units_first units_second : List (UnitWithItems C))
      → IsFresh first_id s.pending_commands
      → IsFresh second_id s.pending_commands
      → first_id ≢ second_id
      → edit_units first s.units ≡ some units_first
      → edit_units second units_first ≡ some units_second
      → course_builder_reducer
          (course_builder_reducer
            (course_builder_reducer
              (course_builder_reducer s (optimistic first_id first))
              (optimistic second_id second))
            (rollback_command first_id))
          (rollback_command second_id)
        ≡ record s { units = units_first }
  rollback-rollback_first s i j a b us vs fresh_i fresh_j ne ea eb =
      let s1 : State C = record s { pending_commands = cs ++ p ∷ []; units = us } in
      let q = pending s1 j b in
      let s2 : State C = record s { pending_commands = (cs ++ p ∷ []) ++ q ∷ []; units = vs } in
      let q_kept : without_command i (q ∷ []) ≡ q ∷ [] = ground arith in
      let without_i : without_command i ((cs ++ p ∷ []) ++ q ∷ []) ≡ cs ++ q ∷ [] = rw (
        filter-append (λ c. c.id != i) (cs ++ p ∷ []) (q ∷ []),
        without_last i cs p fresh_i refl,
        q_kept,
      ) in
      let found_i =
        find-append (λ c. c.id == i) (cs ++ p ∷ []) (q ∷ []) (find_last i cs p fresh_i refl) in
      rw (optimistic-some s i a ea) (
        rw (optimistic-some s1 j b eb) (
          rw (rollback-found s2 i found_i) (
            rw without_i (
              rollback-found _ j (find_last j cs q fresh_j refl)
              ∙ ap (λ ps. record s { pending_commands = ps; units = us })
                  (without_last j cs q fresh_j refl)))))
    where
      cs : List (PendingCommand C)
      cs = s.pending_commands

      p : PendingCommand C
      p = pending s i a
