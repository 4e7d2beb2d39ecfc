-- ===== src/Learning/Positions.antt =====
-- The order that `reorderItems` of apps/api/src/learning/learning.service.ts leaves behind.
use edupay_academico.Prelude.{
  ℕ, zero, suc, ◌+◌, ◌*◌, ◌≡◌, refl, subst, ap, ◌∙◌, true, false, Option, some, List, [], ◌∷◌, All,
  Text, get_elem?, find, includes, ok, arith, update_first, any, Bool-cases, inl, inr, bind-eq-ok,
  ==_refl, Option-cases, map, filter,
}
use mathlib.Core.Option.{some-injective}
use mathlib.Core.List.{Perm}
use edupay_academico.Ordering.{sparse_order_step}
use edupay_academico.Learning.{LearningItem, ContentRevision, State, reordered}
use edupay_academico.Learning.Writes.{
  is_item, is_revision, bump, update_item_row, record_revision, update_recorded, revision_of,
  bump_unit, unit_fits,
}
use edupay_academico.Learning.Reordering.{
  in_unit, at_position, place_from, reorder_action, require_exact_set, ids_of_unit,
}
use edupay_academico.Learning.ExactSet.{IsDistinct, require_exact_set-perm, IsDistinct-perm}
use edupay_academico.Prelude.Keys.{AtMostOne, All-key, All-update_first_at, AtMostOne-update_first}
use edupay_academico.Learning.Stale.{HasKeys, KeepsKey, is_item-bump, update_item_row-eq-ok}

module _ {C : Type 0} where
  -- The item of the id, where it is in the table, is at the position.
  abbrev pub StandsAt : Text → ℕ → ℕ → State C → Type 0
  StandsAt t id position s = All (λ i. is_item t id i ≡ true → i.sort_order ≡ position) s.items

  record_revision-items :
      (r : ContentRevision C) (s s' : State C) → record_revision r s ≡ ok s' → s'.items ≡ s.items
  unfolding record_revision
  record_revision-items r s s' h =
      elim (Bool-cases (any (is_revision r.tenant_id r.entity_id r.revision_number) s.revisions)) [
        | inl t ↦ let e = rw t at h in cc
        | inr f ↦ let e = rw f at h in cc
      ]

  positioned : (index : ℕ) → KeepsKey {C = C} (at_position index)
  positioned index = record { tenant_id = λ i. refl; id = λ i. refl }

  -- What one step of the loop does to the rows.
  place_step :
      (actor t : Text) (id index : ℕ) (s : State C) (i : LearningItem C) (s' : State C)
      → update_recorded reordered actor t id (at_position index) s ≡ ok (i, s')
      → (r : LearningItem C) × (find (is_item t id) s.items ≡ some r)
        × (s'.items ≡ update_first (is_item t id) (bump (at_position index)) s.items)
  unfolding update_recorded
  place_step actor t id index s i s' h =
      let (u, written, rest) = bind-eq-ok (update_item_row t id (at_position index) s) _ h in
      let (s'', recorded, last) =
        bind-eq-ok (record_revision (revision_of reordered actor u.0) u.1) _ rest in
      let (r, there, u_eq, s_eq) = update_item_row-eq-ok t id (at_position index) s written in
      let same : s' ≡ s'' = cc in
      (
        r,
        there,
        ap State.items same ∙ record_revision-items _ u.1 s'' recorded ∙ ap State.items s_eq,
      )

  -- Placing other ids leaves the item where it stands.
  place_from-StandsAt :
      (actor t : Text) (index : ℕ) (ids : List ℕ) (id position : ℕ) (s s' : State C)
      → includes ids id ≡ false
      → place_from actor t index ids s ≡ ok s'
      → StandsAt t id position s
      → StandsAt t id position s'
  unfolding place_from
  place_from-StandsAt actor t index [] id position s s' absent h k =
      let same : s ≡ s' = cc in rw⁻¹ same k
  place_from-StandsAt actor t index (x ∷ ids) id position s s' absent h k =
      let (u, one, rest) =
        bind-eq-ok (update_recorded reordered actor t x (at_position index) s) _ h in
      let (r, there, items) = place_step actor t x index s u.0 u.1 one in
      place_from-StandsAt actor t (index + 1) ids id position u.1 s' (ground (arith, absent)) rest (
        rw items (
          All-update_first_at (λ i. is_item t id i ≡ true → i.sort_order ≡ position) (is_item t x)
            (bump (at_position index)) s.items
            (λ y at_x before at_id. absurd (ground (arith, absent, at_x, at_id))) k))

  -- The k-th of the ids ends at (index + k + 1) steps.
  pub place_from-positions :
      (actor t : Text) (index : ℕ) (ids : List ℕ) (k id : ℕ) (s s' : State C)
      → HasKeys s
      → IsDistinct ids
      → place_from actor t index ids s ≡ ok s'
      → get_elem? ids k ≡ some id
      → StandsAt t id ((index + k + 1) * sparse_order_step) s'
  unfolding place_from
  place_from-positions actor t index [] k id s s' keys d h e = cc
  place_from-positions actor t index (x ∷ ids) zero id s s' keys (absent, d) h e =
      let (u, one, rest) =
        bind-eq-ok (update_recorded reordered actor t x (at_position index) s) _ h in
      let (r, there, items) = place_step actor t x index s u.0 u.1 one in
      let x_eq : x ≡ id = some-injective x id e in
      let at_index : index + 0 + 1 ≡ index + 1 = omega arith in
      rw⁻¹ x_eq (
        rw at_index (
          place_from-StandsAt actor t (index + 1) ids x ((index + 1) * sparse_order_step) u.1 s'
            absent rest
            (rw items (
              All-key (λ i. i.sort_order ≡ (index + 1) * sparse_order_step) (is_item t x)
                (is_item t x) (bump (at_position index)) s.items r (λ y h. h) (keys t x) there
                refl))))
  place_from-positions actor t index (x ∷ ids) (suc k) id s s' keys (absent, d) h e =
      let (u, one, rest) =
        bind-eq-ok (update_recorded reordered actor t x (at_position index) s) _ h in
      let (r, there, items) = place_step actor t x index s u.0 u.1 one in
      let keys' : HasKeys u.1 = λ t' id'. rw items (
        AtMostOne-update_first (is_item t' id') (is_item t x) (bump (at_position index)) s.items
          (is_item-bump (at_position index) (positioned index) t' id') (keys t' id')) in
      let at_index : index + suc k + 1 ≡ index + 1 + k + 1 = omega arith in
      rw at_index (place_from-positions actor t (index + 1) ids k id u.1 s' keys' d rest e)

module _ {C : Type 0} where
  bump_unit-items :
      (t : Text) (unit_id : ℕ) (expected : Option ℕ) (s s' : State C)
      → bump_unit t unit_id expected s ≡ ok s'
      → s'.items ≡ s.items
  unfolding bump_unit
  bump_unit-items t unit_id expected s s' h =
      elim (Option-cases (find (unit_fits t unit_id expected) s.units)) [
        | inl n ↦ let e = rw n at h in cc
        | inr (u, f) ↦ let e = rw f at h in cc
      ]

  absent_id :
      (t : Text) (unit_id id : ℕ) (items : List (LearningItem C))
      → All (λ y. is_item t id y ≡ false) items
      → includes (map LearningItem.id (filter (in_unit t unit_id) items)) id ≡ false
  absent_id t unit_id id [] h = refl
  absent_id t unit_id id (y ∷ ys) (n, h) = ground (arith, absent_id t unit_id id ys h)

  ids_of_unit-IsDistinct :
      (t : Text) (unit_id : ℕ) (items : List (LearningItem C))
      → ((id : ℕ) → AtMostOne (is_item t id) items)
      → IsDistinct (map LearningItem.id (filter (in_unit t unit_id) items))
  ids_of_unit-IsDistinct t unit_id [] keys = tt
  ids_of_unit-IsDistinct t unit_id (y ∷ ys) keys =
      let rest = ids_of_unit-IsDistinct t unit_id ys (λ id. (keys id).1) in
      elim (Bool-cases (in_unit t unit_id y)) [
        | inl e ↦
            let at_key : is_item t y.id y ≡ true = ground (arith, ==_refl y.id) in
            rw e (absent_id t unit_id y.id ys ((keys y.id).0 at_key), rest)
        | inr n ↦ rw n rest
      ]

  -- Reordering succeeds for nothing but a permutation of the ids of the unit's items, where items
  -- have unique keys, so that no id was given twice; then the k-th of the ids stands at k + 1 sparse
  -- steps.
  pub reorder_action-positions :
      (actor t : Text) (unit_id : ℕ) (expected : Option ℕ) (ordered_ids : List ℕ) (s s' : State C)
      → HasKeys s
      → reorder_action actor t unit_id expected ordered_ids s ≡ ok s'
      → Perm ordered_ids (ids_of_unit t unit_id s)
        × ((k id : ℕ)
            → get_elem? ordered_ids k ≡ some id
            → StandsAt t id ((k + 1) * sparse_order_step) s')
  unfolding reorder_action
  reorder_action-positions actor t unit_id expected ordered_ids s s' keys h =
      let (gated, gate, rest) = bind-eq-ok (bump_unit t unit_id expected s) _ h in
      let (u, exact, placed) =
        bind-eq-ok (require_exact_set (ids_of_unit t unit_id gated) ordered_ids) _ rest in
      let same = bump_unit-items t unit_id expected s gated gate in
      let exact' : require_exact_set (ids_of_unit t unit_id s) ordered_ids ≡ ok tt =
        subst
          (λ items.
            require_exact_set (map LearningItem.id (filter (in_unit t unit_id) items)) ordered_ids
            ≡ ok tt)
          same exact in
      let keys' : HasKeys gated = λ t' id'. rw same (keys t' id') in
      let distinct = ids_of_unit-IsDistinct t unit_id s.items (keys t) in
      let perm = require_exact_set-perm (ids_of_unit t unit_id s) ordered_ids distinct exact' in
      (
        perm,
        λ k id e.
            let from_zero : k + 1 ≡ 0 + k + 1 = omega arith in
            rw from_zero (
              place_from-positions actor t 0 ordered_ids k id gated s' keys'
                (IsDistinct-perm ordered_ids (ids_of_unit t unit_id s) perm distinct) placed e),
      )
