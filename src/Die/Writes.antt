-- ===== src/Die/Writes.antt =====
-- What the writes of the commands of apps/api/src/die/die.service.ts leave of the staffing.
use edupay_academico.Prelude.{
  ℕ, ◌≡◌, refl, sym, ◌∙◌, subst, Bool, true, false, not, Option, none, some, List, ◌∷◌, All,
  All-imp₂, Text, text_eq_refl, ◌||◌, ◌==◌, ==_iff, ==_refl, any, Result, ok, err, require,
  update_first, arith, require-eq-ok, IfOk, if_ok, threw, bind-IfOk, then-IfOk,
}
use edupay_academico.Prelude.Keys.{none_pass, All-update_first, any-update_first}
use edupay_academico.Learning.{RequestContext}
use edupay_academico.Die.{
  MemberRole, Member, SupportEpisode, Action, State, Refusal, unique_violation, is_member,
  is_action, is_episode,
}
use edupay_academico.Die.Actor.{DieAccess, active_member}
use edupay_academico.Die.Duties.{
  as_conflict, is_responsible, is_duty, is_charge, clashes, create_member,
}
use edupay_academico.Die.Members.{remove_action, require_removable, to_removed}
use edupay_academico.Die.Support.{create_episode, is_active_episode, require_responsible, finish}
use edupay_academico.Die.Actions.{create_row}
use edupay_academico.Die.Staffed.{
  staffs, is_active_member, HasResponsible, Staffed, Staffed-members, active_member-staffs,
  staffs-removed, staffs-new,
}
use edupay_academico.Die.Handing.{
  Rows, with_assignee, with_assignee-keys, with_assignee-IsStaffed, is_action-tenant,
}
use edupay_academico.Die.Relieved.{Relieved, relieve-Relieved}

pub as_conflict-IfOk :
    {A : Type 0} {P : A → Type 0} (r : Result Refusal A) → IfOk P r → IfOk P (as_conflict r)
as_conflict-IfOk (ok a) h = h
as_conflict-IfOk (err unique_violation) h = threw
as_conflict-IfOk (err Refusal.denied) h = threw
as_conflict-IfOk (err Refusal.not_found) h = threw
as_conflict-IfOk (err Refusal.conflict) h = threw
as_conflict-IfOk (err Refusal.bad_request) h = threw
as_conflict-IfOk (err Refusal.unavailable) h = threw

module _ {C : Type 0} where
  -- The member to whom nothing is left goes.
  removed-Staffed :
      (t : Text) (m now : ℕ) (actor reason : Text) (members : List Member) (s : State C)
      → Relieved t m members s
      → Staffed (record s {
        members = update_first (is_member t m) (to_removed now actor reason) s.members;
      })
  removed-Staffed t m now actor reason members s h = record {
    keys = h.staffed.keys;
    actions =
        All-imp₂
          (λ a k n live.
            staffs-removed t m (to_removed now actor reason) s.members a.tenant_id a.assignee
              (λ y. (refl, refl))
              (λ same_t same_id.
                let yes : is_duty t m a ≡ true =
                  rw (same_t, same_id, text_eq_refl a.tenant_id, ==_refl a.assignee, live) refl in
                cc)
              (k live))
          s.actions h.staffed.actions h.no_action;
    episodes =
        All-imp₂
          (λ e k n id r u.
            staffs-removed t m (to_removed now actor reason) s.members e.tenant_id id
              (λ y. (refl, refl))
              (λ same_t same_id.
                let yes : is_charge t m e ≡ true =
                  rw (same_t, same_id, text_eq_refl e.tenant_id, r, u) refl in
                cc)
              (k id r u))
          s.episodes h.staffed.episodes h.no_episode;
  }

  pub remove_action-Staffed :
      (c : RequestContext) (actor : DieAccess) (id : ℕ) (reason : Text) (to verified : Option ℕ)
      (now : ℕ) (s : State C)
      → Staffed s
      → IfOk Staffed (remove_action c actor id reason to verified now s)
  unfolding remove_action
  remove_action-Staffed c actor id reason to verified now s h =
      bind-IfOk (active_member c.tenant.tenant_id id s.members) λ m _.
        bind-IfOk (require_removable c actor m) λ _ _.
          then-IfOk (relieve-Relieved c to verified m.id now s h) λ s' k. if_ok (
            removed-Staffed c.tenant.tenant_id m.id now c.principal.identity_user_id reason
              s.members s' k)

  pub create_member-Staffed :
      (new : Member) (s : State C) → Staffed s → IfOk Staffed (create_member new s)
  unfolding create_member
  create_member-Staffed new s h =
      bind-IfOk (require unique_violation (not (any (clashes new) s.members)))
        {f = λ _. ok (record s { members = new ∷ s.members })}
        λ _ _. if_ok (Staffed-members (new ∷ s.members) s (staffs-new new s.members) h)

  pub role-Staffed :
      (t : Text) (id : ℕ) (role : MemberRole) (s : State C)
      → Staffed s
      → Staffed (record s {
        members = update_first (is_member t id) (λ y. record y { role = role }) s.members;
      })
  role-Staffed t id role s h =
      Staffed-members _ s
        (λ t' id' k.
          any-update_first (is_active_member t' id') (is_member t id)
            (λ y. record y { role = role }) s.members (λ y _. refl)
          ∙ k)
        h

  pub require_responsible-HasResponsible :
      (t : Text) (responsible : Option ℕ) (s : State C)
      → IfOk
          (λ _.
            (e : SupportEpisode)
            → e.tenant_id ≡ t
            → e.responsible ≡ responsible
            → HasResponsible s.members e)
          (require_responsible t responsible s)
  unfolding require_responsible
  require_responsible-HasResponsible t none s = if_ok (λ e _ none_eq id r _.
      let no : is_responsible id none ≡ true = subst (λ o. is_responsible id o ≡ true) none_eq r in
      cc)
  require_responsible-HasResponsible t (some m) s =
      bind-IfOk (active_member t m s.members) λ x found. if_ok (λ e t_eq some_eq id r _.
        let same : (m == id) ≡ true = subst (λ o. is_responsible id o ≡ true) some_eq r in
        rw (t_eq, sym ((==_iff m id).0 same)) (active_member-staffs t m s.members x found).0)

  pub create_episode-Staffed :
      (new : SupportEpisode) (s : State C)
      → HasResponsible s.members new
      → Staffed s
      → IfOk Staffed (create_episode new s)
  unfolding create_episode
  create_episode-Staffed new s r h =
      bind-IfOk
        (require unique_violation (
          not (
            any
              (λ e.
                is_episode new.tenant_id new.id e
                || is_active_episode new.tenant_id new.student_id e)
              s.episodes)))
        {f = λ _. ok (record s { episodes = new ∷ s.episodes })}
        λ _ _. if_ok (record { keys = h.keys; actions = h.actions; episodes = (r, h.episodes) })

  pub finish-Staffed :
      (q : SupportEpisode → Bool) (end_date : ℕ) (reason actor : Text) (s : State C)
      → Staffed s
      → Staffed (record s { episodes = update_first q (finish end_date reason actor) s.episodes })
  finish-Staffed q end_date reason actor s h = record {
    keys = h.keys;
    actions = h.actions;
    episodes =
        All-update_first (HasResponsible s.members) q (finish end_date reason actor) s.episodes
          (λ e _ id _ u. cc) h.episodes;
  }

  pub create_row-Staffed :
      (new : Action) (s : State C)
      → staffs s.members new.tenant_id new.assignee ≡ true
      → Staffed s
      → IfOk (λ s'. (s'.members ≡ s.members) × Staffed s') (create_row new s)
  unfolding create_row
  create_row-Staffed new s at h =
      bind-IfOk (require unique_violation (not (any (is_action new.tenant_id new.id) s.actions)))
        {f = λ _. ok (record s { actions = new ∷ s.actions })}
        λ u free. if_ok (
          refl,
          record {
            keys =
                λ t id. (λ k. new_key t id k (require-eq-ok unique_violation _ free), h.keys t id);
            actions = ((λ _. at), h.actions);
            episodes = h.episodes;
          },
        )
    where
      new_key :
          (t : Text) (id : ℕ)
          → is_action t id new ≡ true
          → not (any (is_action new.tenant_id new.id) s.actions) ≡ true
          → All (λ y. is_action t id y ≡ false) s.actions
      new_key t id k free =
          let t_eq = is_action-tenant t id new k in
          let id_eq : new.id ≡ id = (==_iff new.id id).0 (ground (arith, k)) in
          none_pass (is_action t id) s.actions (rw (sym t_eq, sym id_eq) (ground (arith, free)))

  pub Rows-Staffed :
      (t : Text) (id r : ℕ) (s s' : State C)
      → Rows s.members s.episodes (update_first (is_action t id) (with_assignee r) s.actions) s'
      → staffs s.members t r ≡ true
      → Staffed s
      → Staffed s'
  Rows-Staffed t id r s s' (ms, es, moved) at h = record {
    keys = rw moved (with_assignee-keys t id r s.actions h.keys);
    actions = rw (ms, moved) (with_assignee-IsStaffed t id r s.members s.actions at h.actions);
    episodes = rw (ms, es) h.episodes;
  }
