-- ===== src/Die/Removed.antt =====
-- `removeMember` of apps/api/src/die/die.service.ts goes through where its checks do: no reassignment
-- stumbles on the key of the assignments.
use edupay_academico.Prelude.{
  ℕ, ◌≡◌, refl, sym, ◌∙◌, true, false, Option, some, List, [], ◌∷◌, map, All, All-imp, All-map,
  All-filter, Text, text_eq_iff, text_eq_refl, ◌||◌, ==_refl, filter, any, ok, update_first, arith,
  Bool-cases, inl, inr, if-elim,
}
use edupay_academico.Prelude.Keys.{or_true, any-find_inv, any-update_first}
use edupay_academico.Learning.{RequestContext}
use edupay_academico.Die.{Member, Action, ActionAssignment, State, is_member, is_action}
use edupay_academico.Die.Actor.{
  Identity, DieAccess, require_access, require_coordinator, active_member,
}
use edupay_academico.Die.Duties.{
  is_duty, is_charge, is_current_assignment, end_assignment, removal_note, next_assignment,
  create_assignment, reassign, reassign_each, hand_over, move_charge,
}
use edupay_academico.Die.Members.{
  to_removed, require_removable, verify_replacement, require_replacement, relieve, remove_action,
  remove_member,
}
use edupay_academico.Die.Handing.{with_assignee}

-- Once its assignments are ended an action has no current one.
end_assignment-frees :
    (t : Text) (id now : ℕ) (assignments : List ActionAssignment)
    → any (is_current_assignment t id) (map (end_assignment t id now) assignments) ≡ false
end_assignment-frees t id now [] = refl
end_assignment-frees t id now (a ∷ rest) =
    let ended : is_current_assignment t id (end_assignment t id now a) ≡ false =
      if-elim (λ (x : ActionAssignment). is_current_assignment t id x ≡ false)
        (is_current_assignment t id a) (record a { unassigned_at = some now }) a (λ _. ground arith)
        (λ n. n) in
    rw ended (end_assignment-frees t id now rest)

-- The actions of a member are there.
duties-there :
    (t : Text) (m : ℕ) (actions : List Action)
    → All (λ a. is_duty t m a ≡ true → any (is_action t a.id) actions ≡ true) actions
duties-there t m [] = tt
duties-there t m (a ∷ rest) = (
  λ k.
      let t_eq : a.tenant_id ≡ t = (text_eq_iff a.tenant_id t).0 (ground (arith, k)) in
      rw (sym t_eq, text_eq_refl a.tenant_id, ==_refl a.id) refl,
  All-imp (λ b h k. or_true _ _ (h k)) rest (duties-there t m rest),
)

module _ {C : Type 0} (t : Text) (r now : ℕ) (actor : Text) where
  reassign-succeeds :
      (id : ℕ) (s : State C)
      → any (is_action t id) s.actions ≡ true
      → (s' : State C) × (reassign t id r now actor removal_note s ≡ ok s')
        × (s'.members ≡ s.members)
        × (s'.actions ≡ update_first (is_action t id) (with_assignee r) s.actions)
  unfolding reassign create_assignment
  reassign-succeeds id s h =
      let (a, found) = any-find_inv (is_action t id) s.actions h in
      (
        record s {
          actions = update_first (is_action t id) (with_assignee r) s.actions;
          assignments =
              next_assignment t id r actor removal_note
              ∷ map (end_assignment t id now) s.assignments;
        },
        rw (found, end_assignment-frees t id now s.assignments) refl,
        refl,
        refl,
      )

  reassign_each-succeeds :
      (ids : List ℕ) (s : State C)
      → All (λ id. any (is_action t id) s.actions ≡ true) ids
      → (s' : State C) × (reassign_each t r now actor ids s ≡ ok s') × (s'.members ≡ s.members)
  unfolding reassign_each
  reassign_each-succeeds [] s h = (s, refl, refl)
  reassign_each-succeeds (id ∷ ids) s (k, h) =
      let (s₁, done, members, moved) = reassign-succeeds id s k in
      let (s₂, rest, kept) = reassign_each-succeeds ids s₁ (
        All-imp
          (λ j e. rw moved (
            any-update_first (is_action t j) (is_action t id) (with_assignee r) s.actions
              (λ _ _. refl)
            ∙ e))
          ids h) in
      (s₂, rw done rest, kept ∙ members)

  hand_over-succeeds :
      (m : ℕ) (s : State C)
      → (s' : State C) × (hand_over t m r now actor s ≡ ok s') × (s'.members ≡ s.members)
  unfolding hand_over
  hand_over-succeeds m s =
      reassign_each-succeeds (map Action.id (filter (is_duty t m) s.actions))
        (record s { episodes = map (move_charge t m r) s.episodes })
        (All-map (λ id. any (is_action t id) s.actions ≡ true) Action.id
          (filter (is_duty t m) s.actions)
          (All-imp (λ a (h, k). h k) (filter (is_duty t m) s.actions)
            (All-filter (λ a. is_duty t m a ≡ true → any (is_action t a.id) s.actions ≡ true)
              (is_duty t m) s.actions (duties-there t m s.actions))))

module _ {C : Type 0} (c : RequestContext) where
  relieve-succeeds :
      (to verified : Option ℕ) (m now : ℕ) (r : Member) (s : State C)
      → require_replacement c to verified m s ≡ ok r
      → (s' : State C) × (relieve c to verified m now s ≡ ok s') × (s'.members ≡ s.members)
  unfolding relieve
  relieve-succeeds to verified m now r s named =
      elim (Bool-cases (
        any (is_duty c.tenant.tenant_id m) s.actions
        || any (is_charge c.tenant.tenant_id m) s.episodes)) [
          | inl busy ↦
              let (s', done, kept) =
                hand_over-succeeds c.tenant.tenant_id r.id now c.principal.identity_user_id m s in
              (s', rw (busy, named) done, kept)
          | inr free ↦ (s, rw free refl, refl)
        ]

  module _ (identity : Identity) (meanwhile : State C → State C) where
    -- A member who may be removed is removed: where the actor has access as a coordinator, the
    -- member is active and removable both before the transaction and in it, and the replacement is
    -- verified before it and accepted in it, the command succeeds, whatever actions and episodes
    -- there are, and all that it does to the table of members is to mark the member as removed.
    pub remove_member-succeeds :
        (id now : ℕ) (reason : Text) (to verified : Option ℕ) (actor : DieAccess) (m m' r : Member)
        (s : State C)
        → require_access identity c s ≡ ok actor
        → require_coordinator actor ≡ ok tt
        → active_member c.tenant.tenant_id id s.members ≡ ok m
        → require_removable c actor m ≡ ok tt
        → verify_replacement identity c to s ≡ ok verified
        → active_member c.tenant.tenant_id m.id (meanwhile s).members ≡ ok m'
        → require_removable c actor m' ≡ ok tt
        → require_replacement c to verified m'.id (meanwhile s) ≡ ok r
        → (s' : State C) × (remove_member identity c meanwhile id reason to now s ≡ ok s')
          × (s'.members
              ≡ update_first
                  (is_member c.tenant.tenant_id m'.id)
                  (to_removed now c.principal.identity_user_id reason)
                  (meanwhile s).members)
    unfolding remove_member remove_action
    remove_member-succeeds id now reason to verified actor m m' r s granted leads there may checked
          there' may' named =
        let (s', done, kept) = relieve-succeeds to verified m'.id now r (meanwhile s) named in
        (
          record s' {
            members =
                update_first (is_member c.tenant.tenant_id m'.id)
                  (to_removed now c.principal.identity_user_id reason) s'.members;
          },
          rw (granted, leads, there, may, checked, there', may', done) refl,
          rw kept refl,
        )
