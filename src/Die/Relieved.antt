-- ===== src/Die/Relieved.antt =====
-- A member who goes leaves nothing open: `removeMember` of apps/api/src/die/die.service.ts.
use edupay_academico.Prelude.{
  ℕ, ◌≡◌, refl, true, false, not, Option, none, some, List, map, All, All-imp, All-map, for_each,
  Text, ◌||◌, ◌==◌, filter, any, require, arith, IfOk, IfOk-imp, if-IfOk, if_ok, threw, bind-IfOk,
  then-IfOk, require-eq-ok,
}
use edupay_academico.Prelude.Keys.{none_pass, includes-map-filter}
use edupay_academico.Learning.{RequestContext}
use edupay_academico.Die.{Member, SupportEpisode, Action, State, conflict, bad_request}
use edupay_academico.Die.Actor.{active_member}
use edupay_academico.Die.Duties.{is_duty, is_charge, move_charge, hand_over}
use edupay_academico.Die.Members.{same_id, require_replacement, relieve}
use edupay_academico.Die.Staffed.{staffs, HasResponsible, Staffed, active_member-staffs}
use edupay_academico.Die.Handing.{
  any-left, move_charge-HasResponsible, move_charge-free, reassign_each-Handing,
}

module _ {C : Type 0} where
  -- What is left to a member: nothing.
  pub record Relieved (t : Text) (m : ℕ) (members : List Member) (s : State C) : Type 0 where
    pub members_eq : s.members ≡ members
    pub staffed : Staffed s
    pub no_action : All (λ a. is_duty t m a ≡ false) s.actions
    pub no_episode : All (λ e. is_charge t m e ≡ false) s.episodes

  pub hand_over-Relieved :
      (t : Text) (m r now : ℕ) (actor : Text) (s : State C)
      → (r == m) ≡ false
      → staffs s.members t r ≡ true
      → Staffed s
      → IfOk (Relieved t m s.members) (hand_over t m r now actor s)
  unfolding hand_over
  hand_over-Relieved t m r now actor s d at h =
      IfOk-imp
        (λ s' k. record {
          members_eq = k.members_eq;
          staffed = record {
            keys = k.keys;
            actions = rw (k.members_eq) k.actions;
            episodes =
                rw (k.members_eq, k.episodes_eq)
                  (All-map (HasResponsible s.members) (move_charge t m r) s.episodes (
                    All-imp (λ e. move_charge-HasResponsible t m r s.members e at) s.episodes
                      h.episodes));
          };
          no_action = any-left t m s'.actions k.left;
          no_episode = rw (k.episodes_eq) (
              All-map (λ e. is_charge t m e ≡ false) (move_charge t m r) s.episodes
                (for_each (λ e. move_charge-free t m r e d) s.episodes));
        })
        (reassign_each-Handing t m r now actor s.members moved
          (map Action.id (filter (is_duty t m) s.actions)) (record s { episodes = moved }) d at
          (record {
            members_eq = refl;
            episodes_eq = refl;
            keys = h.keys;
            actions = h.actions;
            left = includes-map-filter (is_duty t m) Action.id s.actions;
          }))
    where
      moved : List SupportEpisode
      moved = map (move_charge t m r) s.episodes

  unbusy :
      (t : Text) (m : ℕ) (s : State C)
      → (any (is_duty t m) s.actions || any (is_charge t m) s.episodes) ≡ false
      → Staffed s
      → Relieved t m s.members s
  unbusy t m s n h = record {
    members_eq = refl;
    staffed = h;
    no_action = none_pass (is_duty t m) s.actions (ground (arith, n));
    no_episode = none_pass (is_charge t m) s.episodes (ground (arith, n));
  }

module _ {C : Type 0} (c : RequestContext) where
  require_replacement-staffs :
      (to verified : Option ℕ) (m : ℕ) (s : State C)
      → IfOk
          (λ (r : Member).
            ((r.id == m) ≡ false) × (staffs s.members c.tenant.tenant_id r.id ≡ true))
          (require_replacement c to verified m s)
  unfolding require_replacement
  require_replacement-staffs none verified m s = threw
  require_replacement-staffs (some id) verified m s =
      bind-IfOk (active_member c.tenant.tenant_id id s.members) λ r e.
        bind-IfOk (require conflict (same_id verified r.id)) λ _ _.
          bind-IfOk (require bad_request (not (r.id == m))) λ u k.
            let apart = require-eq-ok bad_request (not (r.id == m)) k in
            let (there, id_eq) = active_member-staffs c.tenant.tenant_id id s.members r e in
            if_ok (ground (arith, apart), rw id_eq there)

  pub relieve-Relieved :
      (to verified : Option ℕ) (m now : ℕ) (s : State C)
      → Staffed s
      → IfOk (Relieved c.tenant.tenant_id m s.members) (relieve c to verified m now s)
  unfolding relieve
  relieve-Relieved to verified m now s h =
      if-IfOk
        (any (is_duty c.tenant.tenant_id m) s.actions
          || any (is_charge c.tenant.tenant_id m) s.episodes)
        (λ _. then-IfOk (require_replacement-staffs to verified m s) λ r (d, at).
          hand_over-Relieved c.tenant.tenant_id m r.id now c.principal.identity_user_id s d at h)
        (λ n. if_ok (unbusy c.tenant.tenant_id m s n h))
