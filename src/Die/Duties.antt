-- ===== src/Die/Duties.antt =====
-- The members of the department and what they answer for: the rows that the commands of
-- apps/api/src/die/die.service.ts on members write. `new_id` is the identifier that the database gives.
use edupay_academico.Prelude.{
  ℕ, Bool, false, not, Option, none, some, List, [], ◌∷◌, map, Text, text_eq, ◌&&◌, ◌||◌, ◌==◌,
  find, any, filter, Result, ok, err, ◌>>=◌, ◌>>◌, require, require_some, if◌then◌else◌,
  update_first,
}
use edupay_academico.Die.{
  Member, SupportEpisode, Action, ActionAssignment, Teacher, State, Refusal, conflict, unavailable,
  unique_violation, is_absent, is_open, is_member, is_action,
}

-- `isUniqueConflict(error)`: the violation is answered as a conflict.
abbrev pub as_conflict : {A : Type 0} → Result Refusal A → Result Refusal A
as_conflict (ok a) = ok a
as_conflict (err unique_violation) = err conflict
as_conflict (err e) = err e

abbrev pub same_teacher : Option ℕ → Option ℕ → Bool
same_teacher (some a) (some b) = a == b
same_teacher _ _ = false

-- An active assignment of the user, or of the teacher
abbrev pub is_active_user : Text → Text → Member → Bool
is_active_user tenant_id user m =
    text_eq m.tenant_id tenant_id && text_eq m.identity_user_id user && is_absent m.removed_at

abbrev pub is_active_teacher : Text → Option ℕ → Member → Bool
is_active_teacher tenant_id teacher_id m =
    text_eq m.tenant_id tenant_id && same_teacher m.teacher_id teacher_id && is_absent m.removed_at

-- The rows on whose keys a new assignment stumbles
abbrev pub clashes : Member → Member → Bool
clashes new m =
    is_member new.tenant_id new.id m
    || is_active_user new.tenant_id new.identity_user_id m
    || is_active_teacher new.tenant_id new.teacher_id m

abbrev pub is_teacher_of : Text → Text → Teacher → Bool
is_teacher_of tenant_id user t =
    text_eq t.tenant_id tenant_id && text_eq t.identity_user_id user && t.is_active

-- `teacher?.id ?? null`
abbrev pub teacher_id_of : Option Teacher → Option ℕ
teacher_id_of none = none
teacher_id_of (some t) = some t.id

module _ {C : Type 0} where
  unfoldable pub create_member : Member → State C → Result Refusal (State C)
  create_member new s = do
    require unique_violation (not (any (clashes new) s.members))
    ok (record s { members = new ∷ s.members })

-- An open action of the member, and an active episode that the member is responsible for
abbrev pub is_duty : Text → ℕ → Action → Bool
is_duty tenant_id id a = text_eq a.tenant_id tenant_id && a.assignee == id && is_open a.status

abbrev pub is_responsible : ℕ → Option ℕ → Bool
is_responsible id none = false
is_responsible id (some r) = r == id

abbrev pub is_charge : Text → ℕ → SupportEpisode → Bool
is_charge tenant_id id e =
    text_eq e.tenant_id tenant_id && is_responsible id e.responsible && is_absent e.ended_at

abbrev pub is_current_assignment : Text → ℕ → ActionAssignment → Bool
is_current_assignment tenant_id action_id a =
    text_eq a.tenant_id tenant_id && a.action_id == action_id && is_absent a.unassigned_at

abbrev pub end_assignment : Text → ℕ → ℕ → ActionAssignment → ActionAssignment
end_assignment tenant_id action_id now a =
    if is_current_assignment tenant_id action_id a then record a { unassigned_at = some now } else a

abbrev pub move_charge : Text → ℕ → ℕ → SupportEpisode → SupportEpisode
move_charge tenant_id id replacement e =
    if is_charge tenant_id id e then record e { responsible = some replacement } else e

-- 'Reasignación por retiro de miembro DIE.'
abbrev pub removal_note : Text
removal_note =
    b'R' ∷ b'e' ∷ b'a' ∷ b's' ∷ b'i' ∷ b'g' ∷ b'n' ∷ b'a' ∷ b'c' ∷ b'i' ∷ 243 ∷ b'n' ∷ b' ' ∷ b'p'
    ∷ b'o' ∷ b'r' ∷ b' ' ∷ b'r' ∷ b'e' ∷ b't' ∷ b'i' ∷ b'r' ∷ b'o' ∷ b' ' ∷ b'd' ∷ b'e' ∷ b' '
    ∷ b'm' ∷ b'i' ∷ b'e' ∷ b'm' ∷ b'b' ∷ b'r' ∷ b'o' ∷ b' ' ∷ b'D' ∷ b'I' ∷ b'E' ∷ b'.' ∷ []

-- The assignment that takes the place of the ended one
abbrev pub next_assignment :
    Text → (action_id assignee : ℕ) → (actor reason : Text) → ActionAssignment
next_assignment tenant_id action_id assignee actor reason = record {
  tenant_id = tenant_id;
  action_id = action_id;
  member_id = assignee;
  assigned_by = actor;
  reason = some reason;
  unassigned_at = none;
}

module _ {C : Type 0} where
  -- The assignment of a member to an action: one member at a time
  unfoldable pub create_assignment : ActionAssignment → State C → Result Refusal (State C)
  create_assignment new s = do
    require unique_violation
        (not (any (is_current_assignment new.tenant_id new.action_id) s.assignments))
    ok (record s { assignments = new ∷ s.assignments })

  -- The action passes from one member to another.
  unfoldable pub reassign :
      Text → ℕ → ℕ → (now : ℕ) → (actor reason : Text) → State C → Result Refusal (State C)
  unfolding create_assignment
  reassign tenant_id action_id assignee now actor reason s = do
    a ← require_some unavailable (find (is_action tenant_id action_id) s.actions)
    create_assignment (next_assignment tenant_id action_id assignee actor reason) (record s {
      assignments = map (end_assignment tenant_id action_id now) s.assignments;
      actions =
          update_first (is_action tenant_id action_id) (λ a. record a { assignee = assignee })
            s.actions;
    })

  unfoldable pub reassign_each :
      Text → ℕ → (now : ℕ) → (actor : Text) → List ℕ → State C → Result Refusal (State C)
  unfolding reassign
  reassign_each tenant_id assignee now actor [] s = ok s
  reassign_each tenant_id assignee now actor (id ∷ ids) s = do
    s' ← reassign tenant_id id assignee now actor removal_note s
    reassign_each tenant_id assignee now actor ids s'

  -- What was open of the member passes to the replacement.
  unfoldable pub hand_over :
      Text → (id replacement : ℕ) → (now : ℕ) → (actor : Text) → State C → Result Refusal (State C)
  unfolding reassign_each
  hand_over tenant_id id replacement now actor s =
      reassign_each tenant_id replacement now actor
        (map Action.id (filter (is_duty tenant_id id) s.actions))
        (record s { episodes = map (move_charge tenant_id id replacement) s.episodes })
