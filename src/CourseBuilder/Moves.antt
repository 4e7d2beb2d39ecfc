-- ===== src/CourseBuilder/Moves.antt =====
-- The optimistic move of an item, on a board that shows its target and on one that does not.
use mathlib.Core.List.{Perm}
use mathlib.Core.List.Perm
use mathlib.Core.Option.{some-injective}
use edupay_academico.Prelude.{
  includes, ℕ, ◌≡◌, ◌≢◌, inl, inr, refl, sym, subst, ◌∙◌, true, some, List, [], ◌∷◌, ◌++◌, All,
  arith, Option-cases, map,
}
use edupay_academico.CourseBuilder.{
  Item, PublicationStatus, UnitWithItems, move_item, on_unit, without_item, moved_item, edit_units,
}
use edupay_academico.CourseBuilder.Items.{
  IsBoard, all_of, all_ids, on_unit_absent, source-perm, target-perm, board-ids, removed,
  removed-ids, removed-All, removed-distinct, moved_item-fields,
}

module _ {C : Type 0} where
  put_in : ℕ → Item C → List (UnitWithItems C) → List (UnitWithItems C)
  put_in target item = on_unit target (λ u. record u { items = u.items ++ item ∷ [] })

  -- An effective move is a removal and an insertion.
  edit_units-move_eq :
      (item_id source target : ℕ) (us us' : List (UnitWithItems C))
      → edit_units (move_item item_id source target) us ≡ some us'
      → (item : Item C) × (moved_item item_id source target us ≡ some item)
        × (us' ≡ put_in target item (removed item_id source us))
  unfolding edit_units removed put_in
  edit_units-move_eq item_id source target us us' e =
      elim (Option-cases (moved_item item_id source target us)) [
        | inl absent ↦ ground (arith, absent)
        | inr (item, at_item) ↦
            (item, at_item, some-injective us' _ (sym e ∙ (rw (at_item, edit_units))))
      ]

  -- What a move leaves an item: its id, its status and its content
  abbrev pub kept : Item C → ℕ × PublicationStatus × C
  kept item = (item.id, item.publication_status, item.content)

  -- On a board where units have different ids and the items of a unit too: if the source holds the
  -- item and the target is one of the units, then the items after the move are those before it, with
  -- their ids, statuses and contents, up to order.
  pub edit_units-move_perm :
      (item_id source target : ℕ) (us us' : List (UnitWithItems C))
      → IsBoard us
      → includes (map (λ u. u.id) us) target ≡ true
      → edit_units (move_item item_id source target) us ≡ some us'
      → Perm (all_of kept us') (all_of kept us)
  unfolding put_in removed
  edit_units-move_perm item_id source target us us' b present e =
      let (item, at_item, us_eq) = edit_units-move_eq item_id source target us us' e in
      rw us_eq (
        Perm.trans
          (target-perm kept target (removed item_id source us) item
            (removed-distinct item_id source us (board-ids us b))
            (rw (removed-ids item_id source us) present))
          (source-perm kept item_id source target us item (λ x. refl) b at_item))

  -- If the source holds the item and the target is none of the units, the item is lost: the ids
  -- before the move are those after it and the item's.
  pub edit_units-move_lost :
      (item_id source target : ℕ) (us us' : List (UnitWithItems C))
      → IsBoard us
      → All (λ u. u.id ≢ target) us
      → edit_units (move_item item_id source target) us ≡ some us'
      → Perm (item_id ∷ all_ids us') (all_ids us)
  unfolding put_in removed
  edit_units-move_lost item_id source target us us' b missing e =
      let (item, at_item, us_eq) = edit_units-move_eq item_id source target us us' e in
      let unchanged =
        on_unit_absent target (λ u. record u { items = u.items ++ item ∷ [] })
          (removed item_id source us) (removed-All item_id source target us missing) in
      let same = (moved_item-fields item_id source target us at_item).0 in
      let rest = on_unit source (without_item item_id) us in
      rw (us_eq ∙ unchanged) (
        subst (λ k. Perm (k ∷ all_ids rest) (all_ids us)) same
          (source-perm (λ x. x.id) item_id source target us item (λ x. refl) b at_item))
