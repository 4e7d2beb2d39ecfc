-- ===== src/CourseBuilder/Items.antt =====
-- How taking an item from a unit and adding it to one changes the items of a board.
use mathlib.Core.List.{Perm, perm_middle, map-append, append_assoc}
use mathlib.Core.List.Perm
use mathlib.Core.Option.{some-injective}
use edupay_academico.Prelude.{
  includes, ℕ, ◌≡◌, ◌≢◌, inl, inr, refl, sym, subst, ap, ◌∙◌, true, none, some, List, [], ◌∷◌, ◌++◌,
  ◌==◌, ◌!=◌, filter, find, find-test, All, All-imp, map_self, arith, Option-cases, Bool-cases, map,
}
use edupay_academico.CourseBuilder.{Item, UnitWithItems, on_unit, moved_item, without_item}
use edupay_academico.CourseBuilder.Reorder.{HasDistinctKeys}

module _ {C : Type 0} where
  -- What a function reads of all items, unit by unit.
  abbrev pub all_of : {B : Type 0} → (Item C → B) → List (UnitWithItems C) → List B
  all_of f [] = []
  all_of f (u ∷ us) = map f u.items ++ all_of f us

  abbrev pub all_ids : List (UnitWithItems C) → List ℕ
  all_ids = all_of (λ item. item.id)

  -- Units have different ids, and so have the items of one unit.
  abbrev pub IsBoard : List (UnitWithItems C) → Type 0
  IsBoard [] = Unit
  IsBoard (u ∷ us) =
      All (λ v. v.id ≢ u.id) us × HasDistinctKeys (λ item. item.id) u.items × IsBoard us

  pub on_unit_absent :
      (id : ℕ) (f : UnitWithItems C → UnitWithItems C) (us : List (UnitWithItems C))
      → All (λ v. v.id ≢ id) us
      → on_unit id f us ≡ us
  on_unit_absent id f us h = map_self _ us (All-imp (λ v ne. ground (arith, ne)) us h)

  -- An item's id leaves the unit that holds it, and only that id.
  remove-absent :
      (id : ℕ) (items : List (Item C))
      → All (λ item. item.id ≢ id) items
      → filter (λ item. item.id != id) items ≡ items
  remove-absent id [] h = refl
  remove-absent id (item ∷ items) (h, hs) = ground (arith, remove-absent id items hs, h)

  remove-perm :
      {B : Type 0} (f : Item C → B) (id : ℕ) (items : List (Item C)) (item : Item C)
      → HasDistinctKeys (λ item. item.id) items
      → find (λ item. item.id == id) items ≡ some item
      → Perm (f item ∷ map f (filter (λ item. item.id != id) items)) (map f items)
  remove-perm f id [] item d e = cc
  remove-perm f id (x ∷ xs) item (fresh, d) e = elim (Bool-cases (x.id == id)) [
    | inl here ↦
        let same : x.id ≡ id = ground arith in
        let gone : filter (λ item. item.id != id) (x ∷ xs) ≡ xs =
          ground
            (arith, here, remove-absent id xs (subst (λ k. All (λ y. y.id ≢ k) xs) same fresh)) in
        let it : x ≡ item = some-injective x item (rw here at e) in
        rw gone (Perm.cons' (sym (ap f it)) Perm.rfl)
    | inr there ↦
        let e' : find (λ item. item.id == id) xs ≡ some item = ground (arith, there) in
        let kept : filter (λ item. item.id != id) (x ∷ xs) ≡ x ∷ filter (λ item. item.id != id) xs =
          ground (arith, there) in
        rw kept (
          Perm.trans (Perm.swap (f x) (f item) _) (Perm.cons (f x) (remove-perm f id xs item d e')))
  ]

  moved_item-absent :
      (id source target : ℕ) (us : List (UnitWithItems C))
      → All (λ v. v.id ≢ source) us
      → moved_item id source target us ≡ none
  unfolding moved_item
  moved_item-absent id source target [] h = refl
  moved_item-absent id source target (u ∷ us) (h, hs) =
      ground (arith, moved_item-absent id source target us hs, h)

  pub source-perm :
      {B : Type 0} (f : Item C → B) (id source target : ℕ) (us : List (UnitWithItems C))
      (item : Item C)
      → ((x : Item C) → f (record x { learning_unit_id = target }) ≡ f x)
      → IsBoard us
      → moved_item id source target us ≡ some item
      → Perm (f item ∷ all_of f (on_unit source (without_item id) us)) (all_of f us)
  unfolding moved_item without_item
  source-perm f id source target [] item blind b e = cc
  source-perm f id source target (u ∷ us) item blind (fresh, d, b) e =
      elim (Bool-cases (u.id == source)) [
        | inl here ↦ elim (Option-cases (find (λ item. item.id == id) u.items)) [
          | inl none_here ↦
              absurd (
                ground
                  (arith, none_here, here, moved_item-absent id source target us (others here)))
          | inr (x, at_x) ↦
              let alone = on_unit_absent source (without_item id) us (others here) in
              let absent = moved_item-absent id source target us (others here) in
              let it : record x { learning_unit_id = target } ≡ item =
                some-injective (record x { learning_unit_id = target }) item
                  (rw (absent, here, at_x) at e) in
              rw (here, alone, sym (ap f it) ∙ blind x)
                (Perm.append_right (all_of f us) (remove-perm f id u.items x d at_x))
        ]
        | inr there ↦
            let e' : moved_item id source target us ≡ some item = ground (arith, there) in
            rw there (
              Perm.trans (Perm.symm (perm_middle (map f u.items) _)) (
                Perm.append_left (map f u.items)
                  (source-perm f id source target us item blind b e')))
      ]
    where
      others : (u.id == source) ≡ true → All (λ v. v.id ≢ source) us
      others here =
          let same : u.id ≡ source = ground arith in subst (λ k. All (λ v. v.id ≢ k) us) same fresh

  pub target-perm :
      {B : Type 0} (f : Item C → B) (target : ℕ) (us : List (UnitWithItems C)) (item : Item C)
      → HasDistinctKeys (λ u. u.id) us
      → includes (map (λ u. u.id) us) target ≡ true
      → Perm
          (all_of f (on_unit target (λ u. record u { items = u.items ++ item ∷ [] }) us))
          (f item ∷ all_of f us)
  target-perm f target [] item b e = cc
  target-perm f target (u ∷ us) item (fresh, b) e = elim (Bool-cases (u.id == target)) [
    | inl here ↦
        let same : u.id ≡ target = ground arith in
        let alone =
          on_unit_absent target (λ v. record v { items = v.items ++ item ∷ [] }) us
            (subst (λ k. All (λ v. v.id ≢ k) us) same fresh) in
        rw
          (
            here,
            alone,
            map-append f u.items (item ∷ []),
            append_assoc (map f u.items) (f item ∷ []) (all_of f us),
          )
          (perm_middle (map f u.items) (all_of f us))
    | inr there ↦
        let e' : includes (map (λ u. u.id) us) target ≡ true = ground (arith, there) in
        rw there (
          Perm.trans (Perm.append_left (map f u.items) (target-perm f target us item b e'))
            (perm_middle (map f u.items) (all_of f us)))
  ]

  pub board-ids : (us : List (UnitWithItems C)) → IsBoard us → HasDistinctKeys (λ u. u.id) us
  board-ids [] b = tt
  board-ids (u ∷ us) (fresh, d, b) = (fresh, board-ids us b)

  unfoldable pub removed : ℕ → ℕ → List (UnitWithItems C) → List (UnitWithItems C)
  removed id source = on_unit source (without_item id)

  pub removed-ids :
      (id source : ℕ) (us : List (UnitWithItems C))
      → map (λ u. u.id) (removed id source us) ≡ map (λ u. u.id) us
  unfolding removed without_item
  removed-ids id source [] = refl
  removed-ids id source (u ∷ us) = ground (arith, removed-ids id source us)

  pub removed-All :
      (id source k : ℕ) (us : List (UnitWithItems C))
      → All (λ v. v.id ≢ k) us
      → All (λ v. v.id ≢ k) (removed id source us)
  unfolding removed without_item
  removed-All id source k [] h = tt
  removed-All id source k (u ∷ us) (h, hs) = (ground (arith, h), removed-All id source k us hs)

  pub removed-distinct :
      (id source : ℕ) (us : List (UnitWithItems C))
      → HasDistinctKeys (λ u. u.id) us
      → HasDistinctKeys (λ u. u.id) (removed id source us)
  unfolding removed without_item
  removed-distinct id source [] h = tt
  removed-distinct id source (u ∷ us) (fresh, h) = elim (Bool-cases (u.id == source)) [
    | inl e ↦ rw e (removed-All id source u.id us fresh, removed-distinct id source us h)
    | inr e ↦ rw e (removed-All id source u.id us fresh, removed-distinct id source us h)
  ]

  pub moved_item-fields :
      (id source target : ℕ) (us : List (UnitWithItems C)) {item : Item C}
      → moved_item id source target us ≡ some item
      → (item.id ≡ id) × (item.learning_unit_id ≡ target)
  unfolding moved_item
  moved_item-fields id source target [] e = cc
  moved_item-fields id source target (u ∷ us) e =
      elim (Option-cases (moved_item id source target us)) [
        | inr (x, at_x) ↦ ground (arith, at_x, moved_item-fields id source target us at_x)
        | inl absent ↦ elim (Option-cases (find (λ item. item.id == id) u.items)) [
          | inl none_here ↦ ground (arith, absent, none_here)
          | inr (x, at_x) ↦
              ground (arith, absent, at_x, find-test (λ (i : Item C). i.id == id) u.items at_x)
        ]
      ]
