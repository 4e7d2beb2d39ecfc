-- ===== src/CourseBuilder/Reorder.antt =====
-- The optimistic reordering of items and of units loses and repeats nothing.
use mathlib.Core.List.{Perm, perm_middle, map-append}
use mathlib.Core.List.Perm
use edupay_academico.Prelude.{
  includes, ℕ, ◌≡◌, ◌≢◌, inl, inr, refl, sym, ap, ap₂, ◌∙◌, true, false, not, none, some, List, [],
  ◌∷◌, ◌++◌, ◌==◌, filter, All, arith, Option-cases, Bool-cases, map,
}
use edupay_academico.CourseBuilder.{map_get, found, reorder}

abbrev pub IsDistinct : List ℕ → Type 0
IsDistinct [] = Unit
IsDistinct (i ∷ is) = (includes is i ≡ false) × IsDistinct is

module _ {ℓ} {A : Type ℓ} (key : A → ℕ) where
  abbrev pub HasDistinctKeys : List A → Type 0
  HasDistinctKeys [] = Unit
  HasDistinctKeys (x ∷ xs) = All (λ y. key y ≢ key x) xs × HasDistinctKeys xs

  -- The elements that the ordered ids do not name.
  abbrev leftover : List ℕ → List A → List A
  leftover ids = filter (λ x. not (includes ids (key x)))

  leftover-nil : (xs : List A) → leftover [] xs ≡ xs
  leftover-nil [] = refl
  leftover-nil (x ∷ xs) = ap (◌∷◌ x) (leftover-nil xs)

  leftover-absent :
      (i : ℕ) (is : List ℕ) (xs : List A)
      → map_get key xs i ≡ none
      → leftover (i ∷ is) xs ≡ leftover is xs
  leftover-absent i is [] e = refl
  leftover-absent i is (x ∷ xs) e = elim (Option-cases (map_get key xs i)) [
    | inl absent ↦ ground (arith, absent, leftover-absent i is xs absent)
    | inr (y, at_y) ↦ ground (arith, at_y)
  ]

  map_get_ne :
      (i j : ℕ) (xs : List A) {y : A} → map_get key xs i ≡ some y → All (λ x. key x ≢ j) xs → i ≢ j
  map_get_ne i j [] e h = cc
  map_get_ne i j (x ∷ xs) e (h, hs) = elim (Option-cases (map_get key xs i)) [
    | inl absent ↦ ground (arith, absent, h)
    | inr (y, at_y) ↦ map_get_ne i j xs at_y hs
  ]

  leftover-perm :
      (i : ℕ) (is : List ℕ) (xs : List A) (x : A)
      → HasDistinctKeys xs
      → includes is i ≡ false
      → map_get key xs i ≡ some x
      → Perm (x ∷ leftover (i ∷ is) xs) (leftover is xs)
  leftover-perm i is [] x d ne e = cc
  leftover-perm i is (y ∷ ys) x (fresh, d) ne e = elim (Option-cases (map_get key ys i)) [
    | inl absent ↦ elim (Bool-cases (key y == i)) [
      | inl here ↦
          let x_eq : y ≡ x = ground (arith, absent, here) in
          let kept : leftover is (y ∷ ys) ≡ y ∷ leftover is ys = ground (arith, here, ne) in
          let dropped : leftover (i ∷ is) (y ∷ ys) ≡ leftover is ys =
            ground (arith, here, leftover-absent i is ys absent) in
          rw (dropped, kept) (Perm.cons' (sym x_eq) Perm.rfl)
      | inr there ↦ ground (arith, absent, there)
    ]
    | inr (z, at_z) ↦
        let x_eq : z ≡ x = ground (arith, at_z) in
        let other : i ≢ key y = map_get_ne i (key y) ys at_z fresh in
        let rest = leftover-perm i is ys x d ne (at_z ∙ ap some x_eq) in
        elim (Bool-cases (includes is (key y))) [
          | inl named ↦
              let dropped : leftover is (y ∷ ys) ≡ leftover is ys = ground (arith, named) in
              let dropped' : leftover (i ∷ is) (y ∷ ys) ≡ leftover (i ∷ is) ys =
                ground (arith, named) in
              rw (dropped, dropped') rest
          | inr left ↦
              let kept : leftover is (y ∷ ys) ≡ y ∷ leftover is ys = ground (arith, left) in
              let kept' : leftover (i ∷ is) (y ∷ ys) ≡ y ∷ leftover (i ∷ is) ys =
                ground (arith, left, other) in
              rw (kept, kept') (Perm.trans (Perm.swap y x _) (Perm.cons y rest))
        ]
  ]

  -- For elements with different ids and ordered ids without repetition, whether the ids exist or
  -- not: the reordered list is a permutation of the list.
  pub reorder-perm :
      (ordered_ids : List ℕ) (xs : List A)
      → IsDistinct ordered_ids
      → HasDistinctKeys xs
      → Perm (reorder key ordered_ids xs) xs
  unfolding reorder
  reorder-perm [] xs ids d = rw (leftover-nil xs) Perm.rfl
  reorder-perm (i ∷ is) xs (ne, ids) d = elim (Option-cases (map_get key xs i)) [
    | inl absent ↦
        rw (absent, leftover-absent i is xs absent, reorder, found) (reorder-perm is xs ids d)
    | inr (x, at_x) ↦
        rw (at_x, reorder, found)
          (Perm.trans (Perm.symm (perm_middle (found key xs is) (leftover (i ∷ is) xs))) (
            Perm.trans (Perm.append_left (found key xs is) (leftover-perm i is xs x d ne at_x))
              (reorder-perm is xs ids d)))
  ]

  map_get-key : (i : ℕ) (xs : List A) {y : A} → map_get key xs i ≡ some y → key y ≡ i
  map_get-key i [] e = cc
  map_get-key i (x ∷ xs) e = elim (Option-cases (map_get key xs i)) [
    | inl absent ↦ ground (arith, absent)
    | inr (y, at_y) ↦ ground (arith, at_y, map_get-key i xs at_y)
  ]

  map_get-includes :
      (i : ℕ) (xs : List A) → map_get key xs i ≡ none → includes (map key xs) i ≡ false
  map_get-includes i [] e = refl
  map_get-includes i (x ∷ xs) e = elim (Option-cases (map_get key xs i)) [
    | inl absent ↦ ground (arith, absent, map_get-includes i xs absent)
    | inr (y, at_y) ↦ ground (arith, at_y)
  ]

  includes-map_get :
      (i : ℕ) (xs : List A) {y : A} → map_get key xs i ≡ some y → includes (map key xs) i ≡ true
  includes-map_get i [] e = cc
  includes-map_get i (x ∷ xs) e = elim (Option-cases (map_get key xs i)) [
    | inl absent ↦ ground (arith, absent)
    | inr (y, at_y) ↦ ground (arith, includes-map_get i xs at_y)
  ]

  map-found :
      (ids : List ℕ) (xs : List A) → map key (found key xs ids) ≡ filter (includes (map key xs)) ids
  map-found [] xs = refl
  map-found (i ∷ is) xs = elim (Option-cases (map_get key xs i)) [
    | inl absent ↦ rw (absent, map_get-includes i xs absent, found) (map-found is xs)
    | inr (x, at_x) ↦
        rw (at_x, includes-map_get i xs at_x, found)
          (ap₂ ◌∷◌ (map_get-key i xs at_x) (map-found is xs))
  ]

  map-leftover :
      (ids : List ℕ) (xs : List A)
      → map key (leftover ids xs) ≡ filter (λ id. not (includes ids id)) (map key xs)
  map-leftover ids [] = refl
  map-leftover ids (x ∷ xs) = elim (Bool-cases (includes ids (key x))) [
    | inl e ↦ rw e (map-leftover ids xs)
    | inr e ↦ rw e (ap (◌∷◌ (key x)) (map-leftover ids xs))
  ]

  -- The ids of a reordered list are the ordered ids that the list has, in the given order, followed
  -- by the list's other ids, in the list's order.
  pub map-reorder :
      (ordered_ids : List ℕ) (xs : List A)
      → map key (reorder key ordered_ids xs)
        ≡ filter (includes (map key xs)) ordered_ids
          ++ filter (λ id. not (includes ordered_ids id)) (map key xs)
  unfolding reorder
  map-reorder ids xs =
      map-append key (found key xs ids) (leftover ids xs)
      ∙ ap₂ ◌++◌ (map-found ids xs) (map-leftover ids xs)
