-- ===== src/Die/Staffed.antt =====
-- Who answers for what in the department (apps/api/src/die/die.service.ts): the invariant that work
-- in hand is with active members, and what the writes to the tables of members, episodes, actions
-- and assignments do to it.
use edupay_academico.Prelude.{
  ℕ, ◌≡◌, refl, sym, ◌∙◌, ap, Bool, true, false, List, ◌∷◌, All, All-imp, Text, text_eq_iff, ◌&&◌,
  ==_iff, find, find-test, any, ok, require, require-eq-ok, require_some, update_first, arith,
  Bool-cases, inl, inr, bind-eq-ok, require_some-eq-ok, ok-injective,
}
use edupay_academico.Prelude.Keys.{AtMostOne, any-update_first, any-find}
use edupay_academico.Die.{
  Member, SupportEpisode, Action, State, Refusal, not_found, is_absent, is_open, is_member,
  is_action,
}
use edupay_academico.Die.Actor.{active_member}
use edupay_academico.Die.Duties.{is_responsible}

abbrev pub is_active_member : Text → ℕ → Member → Bool
is_active_member t id m = is_member t id m && is_absent m.removed_at

abbrev pub staffs : List Member → Text → ℕ → Bool
staffs members t id = any (is_active_member t id) members

-- Work in hand is with an active member.
abbrev pub IsStaffed : List Member → Action → Type 0
IsStaffed members a = is_open a.status ≡ true → staffs members a.tenant_id a.assignee ≡ true

abbrev pub HasResponsible : List Member → SupportEpisode → Type 0
HasResponsible members e =
    (id : ℕ)
    → is_responsible id e.responsible ≡ true
    → is_absent e.ended_at ≡ true
    → staffs members e.tenant_id id ≡ true

-- Actions have unique keys; open actions and active episodes are with active members.
pub record Staffed {C : Type 0} (s : State C) : Type 0 where
  pub keys : (t : Text) (id : ℕ) → AtMostOne (is_action t id) s.actions
  pub actions : All (IsStaffed s.members) s.actions
  pub episodes : All (HasResponsible s.members) s.episodes

is_member-key :
    (t : Text) (id : ℕ) (m : Member) → is_member t id m ≡ true → (m.tenant_id ≡ t) × (m.id ≡ id)
is_member-key t id m h =
    ((text_eq_iff m.tenant_id t).0 (ground (arith, h)), (==_iff m.id id).0 (ground (arith, h)))

-- The member that is found is one of the active ones.
pub active_member-staffs :
    (t : Text) (id : ℕ) (members : List Member) (m : Member)
    → active_member t id members ≡ ok m
    → (staffs members t id ≡ true) × (m.id ≡ id)
unfolding active_member
active_member-staffs t id members m h =
    let (x, e, h₁) = bind-eq-ok (require_some not_found (find (is_member t id) members)) _ h in
    let (u, present, h₂) = bind-eq-ok (require not_found (is_absent x.removed_at)) _ h₁ in
    let found = require_some-eq-ok not_found (find (is_member t id) members) e in
    let active = require-eq-ok not_found (is_absent x.removed_at) present in
    let at_key = find-test (is_member t id) members found in
    let same : x ≡ m = ok-injective {E = Refusal} h₂ in
    (
      any-find (is_member t id) (is_active_member t id) members x found (rw (at_key, active) refl),
      ap Member.id (sym same) ∙ (is_member-key t id x at_key).1,
    )

another :
    (t : Text) (id : ℕ) (t' : Text) (id' : ℕ) (m : Member)
    → (t ≡ t' → id ≡ id' → ⊥)
    → (m.tenant_id ≡ t) × (m.id ≡ id)
    → is_active_member t' id' m ≡ false
another t id t' id' m apart (t_eq, id_eq) = elim (Bool-cases (is_member t' id' m)) [
  | inr f ↦ rw f refl
  | inl same ↦
      let (t_eq', id_eq') = is_member-key t' id' m same in
      absurd (apart (sym t_eq ∙ t_eq') (sym id_eq ∙ id_eq'))
]

-- Others stay when a member goes.
pub staffs-removed :
    (t : Text) (id : ℕ) (f : Member → Member) (members : List Member) (t' : Text) (id' : ℕ)
    → ((y : Member) → ((f y).tenant_id ≡ y.tenant_id) × ((f y).id ≡ y.id))
    → (t ≡ t' → id ≡ id' → ⊥)
    → staffs members t' id' ≡ true
    → staffs (update_first (is_member t id) f members) t' id' ≡ true
staffs-removed t id f members t' id' keep apart h =
    any-update_first (is_active_member t' id') (is_member t id) f members (λ y k.
      let (t_eq, id_eq) = is_member-key t id y k in
      another t id t' id' (f y) apart ((keep y).0 ∙ t_eq, (keep y).1 ∙ id_eq)
      ∙ sym (another t id t' id' y apart (t_eq, id_eq)))
    ∙ h

-- A new member takes nobody's place.
pub staffs-new :
    (new : Member) (members : List Member) (t : Text) (id : ℕ)
    → staffs members t id ≡ true
    → staffs (new ∷ members) t id ≡ true
staffs-new new members t id h = rw h (ground arith)

module _ {C : Type 0} where
  -- The members change and everyone stays.
  pub Staffed-members :
      (members : List Member) (s : State C)
      → ((t : Text) (id : ℕ) → staffs s.members t id ≡ true → staffs members t id ≡ true)
      → Staffed s
      → Staffed (record s { members = members })
  Staffed-members members s stay h = record {
    keys = h.keys;
    actions = All-imp (λ a k live. stay a.tenant_id a.assignee (k live)) s.actions h.actions;
    episodes = All-imp (λ e k id r u. stay e.tenant_id id (k id r u)) s.episodes h.episodes;
  }
