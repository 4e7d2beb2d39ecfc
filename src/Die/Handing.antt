-- ===== src/Die/Handing.antt =====
-- How the work of a member passes to another: the loop of `removeMember` of
-- apps/api/src/die/die.service.ts.
use edupay_academico.Prelude.{
  ℕ, ◌≡◌, refl, sym, ◌∙◌, true, false, not, List, [], ◌∷◌, All, All-imp, All-imp₂, Text, text_eq,
  text_eq_iff, ◌==◌, ==_iff, ==_refl, find, any, includes, ok, require, require_some, update_first,
  arith, Bool-cases, inl, inr, if-elim, IfOk, if_ok, bind-IfOk, then-IfOk,
}
use edupay_academico.Prelude.Keys.{AtMostOne, All-update_first_at, AtMostOne-update_first}
use edupay_academico.Die.{
  Member, SupportEpisode, Action, ActionAssignment, State, unavailable, unique_violation, is_action,
}
use edupay_academico.Die.Duties.{
  is_duty, is_charge, is_current_assignment, move_charge, create_assignment, reassign,
  reassign_each,
}
use edupay_academico.Die.Staffed.{staffs, IsStaffed, HasResponsible}

abbrev pub with_assignee : ℕ → Action → Action
with_assignee r a = record a { assignee = r }

-- The work in hand of the member is among the actions on the list.
abbrev pub Held : Text → ℕ → List ℕ → Action → Type 0
Held t m ids a = is_duty t m a ≡ true → includes ids a.id ≡ true

pub is_action-tenant : (t : Text) (id : ℕ) (a : Action) → is_action t id a ≡ true → a.tenant_id ≡ t
is_action-tenant t id a h = (text_eq_iff a.tenant_id t).0 (ground (arith, h))

module _ (t : Text) (id r : ℕ) where
  pub with_assignee-IsStaffed :
      (members : List Member) (actions : List Action)
      → staffs members t r ≡ true
      → All (IsStaffed members) actions
      → All (IsStaffed members) (update_first (is_action t id) (with_assignee r) actions)
  with_assignee-IsStaffed members actions h k =
      All-update_first_at (IsStaffed members) (is_action t id) (with_assignee r) actions
        (λ a q _ _. rw (is_action-tenant t id a q) h) k

  pub with_assignee-keys :
      (actions : List Action)
      → ((t' : Text) (id' : ℕ) → AtMostOne (is_action t' id') actions)
      → (t' : Text) (id' : ℕ)
      → AtMostOne (is_action t' id') (update_first (is_action t id) (with_assignee r) actions)
  with_assignee-keys actions k t' id' =
      AtMostOne-update_first (is_action t' id') (is_action t id) (with_assignee r) actions
        (λ y. refl) (k t' id')

  Held-other :
      (m : ℕ) (ids : List ℕ) (a : Action)
      → Held t m (id ∷ ids) a
      → is_action t id a ≡ false
      → Held t m ids a
  Held-other m ids a h n k = elim (Bool-cases (id == a.id)) [
    | inr f ↦ rw f at h k
    | inl same ↦
        let at_tenant : text_eq a.tenant_id t ≡ true = ground (arith, k) in
        let at_id : a.id ≡ id = sym ((==_iff id a.id).0 same) in
        let found : is_action t id a ≡ true = rw (at_tenant, at_id, ==_refl id) refl in cc
  ]

  -- One action less is on the list.
  Held-next :
      (m : ℕ) (ids : List ℕ) (actions : List Action)
      → (r == m) ≡ false
      → AtMostOne (is_action t id) actions
      → All (Held t m (id ∷ ids)) actions
      → All (Held t m ids) (update_first (is_action t id) (with_assignee r) actions)
  Held-next m ids [] d u h = tt
  Held-next m ids (a ∷ rest) d (one, u) (h, hs) = elim (Bool-cases (is_action t id a)) [
    | inl y ↦ rw y (
      (λ k. let no : (r == m) ≡ true = ground (arith, k) in cc),
      All-imp₂ (λ b x n. Held-other m ids b x n) rest hs (one y),
    )
    | inr n ↦ rw n (Held-other m ids a h n, Held-next m ids rest d u hs)
  ]

pub any-left :
    (t : Text) (m : ℕ) (actions : List Action)
    → All (Held t m []) actions
    → All (λ a. is_duty t m a ≡ false) actions
any-left t m actions h =
    All-imp (λ a k. elim (Bool-cases (is_duty t m a)) [ inl y ↦ absurd (cc (k y)) | inr n ↦ n ])
      actions h

pub move_charge-HasResponsible :
    (t : Text) (m r : ℕ) (members : List Member) (e : SupportEpisode)
    → staffs members t r ≡ true
    → HasResponsible members e
    → HasResponsible members (move_charge t m r e)
move_charge-HasResponsible t m r members e at h =
    if-elim (λ (x : SupportEpisode). HasResponsible members x) (is_charge t m e) _ e
      (λ y id same _.
        let at_tenant : e.tenant_id ≡ t = (text_eq_iff e.tenant_id t).0 (ground (arith, y)) in
        rw (at_tenant, sym ((==_iff r id).0 same)) at)
      (λ _. h)

pub move_charge-free :
    (t : Text) (m r : ℕ) (e : SupportEpisode)
    → (r == m) ≡ false
    → is_charge t m (move_charge t m r e) ≡ false
move_charge-free t m r e d =
    if-elim (λ (x : SupportEpisode). is_charge t m x ≡ false) (is_charge t m e) _ e
      (λ y. rw d (ground arith)) (λ n. n)

module _ {C : Type 0} where
  -- What an assignment leaves of the tables that the staff stands in
  abbrev pub Rows : List Member → List SupportEpisode → List Action → State C → Type 0
  Rows members episodes actions s =
      (s.members ≡ members) × (s.episodes ≡ episodes) × (s.actions ≡ actions)

  pub create_assignment-Rows :
      (new : ActionAssignment) (s : State C)
      → IfOk (Rows s.members s.episodes s.actions) (create_assignment new s)
  unfolding create_assignment
  create_assignment-Rows new s =
      bind-IfOk
        (require unique_violation
          (not (any (is_current_assignment new.tenant_id new.action_id) s.assignments)))
        {f = λ _. ok (record s { assignments = new ∷ s.assignments })}
        λ u e. if_ok (refl, refl, refl)

  pub reassign-Rows :
      (t : Text) (id r now : ℕ) (actor reason : Text) (s : State C)
      → IfOk
          (Rows s.members s.episodes (update_first (is_action t id) (with_assignee r) s.actions))
          (reassign t id r now actor reason s)
  unfolding reassign
  reassign-Rows t id r now actor reason s =
      bind-IfOk (require_some unavailable (find (is_action t id) s.actions))
        λ a e. search create_assignment-Rows

  pub record Handing (t : Text) (m : ℕ) (ids : List ℕ) (members : List Member)
      (episodes : List SupportEpisode) (s : State C) : Type 0 where
    pub members_eq : s.members ≡ members
    pub episodes_eq : s.episodes ≡ episodes
    pub keys : (t' : Text) (id : ℕ) → AtMostOne (is_action t' id) s.actions
    pub actions : All (IsStaffed members) s.actions
    pub left : All (Held t m ids) s.actions

  pub reassign_each-Handing :
      (t : Text) (m r now : ℕ) (actor : Text) (members : List Member)
      (episodes : List SupportEpisode) (ids : List ℕ) (s : State C)
      → (r == m) ≡ false
      → staffs members t r ≡ true
      → Handing t m ids members episodes s
      → IfOk (Handing t m [] members episodes) (reassign_each t r now actor ids s)
  unfolding reassign_each
  reassign_each-Handing t m r now actor members episodes [] s d at h = if_ok h
  reassign_each-Handing t m r now actor members episodes (id ∷ ids) s d at h =
      then-IfOk (reassign-Rows t id r now actor _ s) λ s' (ms, es, moved).
        reassign_each-Handing t m r now actor members episodes ids s' d at (record {
          members_eq = ms ∙ h.members_eq;
          episodes_eq = es ∙ h.episodes_eq;
          keys = rw moved (with_assignee-keys t id r s.actions h.keys);
          actions = rw moved (with_assignee-IsStaffed t id r members s.actions at h.actions);
          left = rw moved (Held-next t id r m ids s.actions d (h.keys t id) h.left);
        })
