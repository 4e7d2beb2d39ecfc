-- ===== src/Prelude/Keys.antt =====
-- Rows under a key: what the update of one of them does to all of them.
use Prim.Native.Nat.{ℕ}
use mathlib.Core.Path.{◌≡◌, refl, sym, subst, ◌∙◌}
use mathlib.Core.Logic.{◌≢◌, inl, inr}
use mathlib.Core.Bool.{Bool, true, false, ◌||◌}
use mathlib.Core.Option.{none, some, some-injective}
use mathlib.Core.List.{List, [], ◌∷◌, map}
use native.Mathlib.Omega.{arith}
use edupay_academico.Prelude.Tests.{◌==◌, ==_refl, Bool-cases}
use edupay_academico.Prelude.Lists.{find, filter, any, includes, All, All-imp}
use edupay_academico.Prelude.Sums.{update_first}

pub or_true : (a b : Bool) → b ≡ true → (a || b) ≡ true
or_true a b h = ground (arith, h)

includes-later : (i : ℕ) (is : List ℕ) (j : ℕ) → includes is j ≡ true → includes (i ∷ is) j ≡ true
includes-later i is j h = elim (Bool-cases (i == j)) [ inl t ↦ rw t refl | inr f ↦ rw (f, h) refl ]

module _ {A : Type 0} where
  -- The test is a key: no two rows pass it.
  abbrev pub AtMostOne : (A → Bool) → List A → Type 0
  AtMostOne p [] = Unit
  AtMostOne p (x ∷ xs) = (p x ≡ true → All (λ y. p y ≡ false) xs) × AtMostOne p xs

  pub any-false : (p : A → Bool) (xs : List A) → All (λ y. p y ≡ false) xs → any p xs ≡ false
  any-false p [] h = refl
  any-false p (x ∷ xs) (e, h) = rw (e, any-false p xs h) refl

  pub find-none : (p : A → Bool) (xs : List A) → All (λ y. p y ≡ false) xs → find p xs ≡ none
  find-none p [] h = refl
  find-none p (x ∷ xs) (e, h) = rw e (find-none p xs h)

  -- Nothing that passes is found among rows that fail.
  pub find-fails :
      (p q : A → Bool) (xs : List A) (x : A)
      → ((y : A) → q y ≡ true → p y ≡ true)
      → All (λ y. p y ≡ false) xs
      → find q xs ≢ some x
  find-fails p q [] x i h e = cc
  find-fails p q (y ∷ xs) x i (n, h) e = elim (Bool-cases (q y)) [
    | inl t ↦ let yes_p = i y t in cc
    | inr f ↦ find-fails p q xs x i h (rw f at e)
  ]

  pub All-update_first :
      (P : A → Type 0) (q : A → Bool) (f : A → A) (xs : List A)
      → ((y : A) → P y → P (f y))
      → All P xs
      → All P (update_first q f xs)
  All-update_first P q f [] keep h = tt
  All-update_first P q f (x ∷ xs) keep (a, h) = elim (Bool-cases (q x)) [
    | inl t ↦ rw t (keep x a, h)
    | inr n ↦ rw n (a, All-update_first P q f xs keep h)
  ]

  pub AtMostOne-update_first :
      (p q : A → Bool) (f : A → A) (xs : List A)
      → ((y : A) → p (f y) ≡ p y)
      → AtMostOne p xs
      → AtMostOne p (update_first q f xs)
  AtMostOne-update_first p q f [] keep h = tt
  AtMostOne-update_first p q f (x ∷ xs) keep (a, h) = elim (Bool-cases (q x)) [
    | inl t ↦ rw t ((λ e. a (sym (keep x) ∙ e)), h)
    | inr n ↦ rw n (
      (λ e. All-update_first (λ y. p y ≡ false) q f xs (λ y l. keep y ∙ l) (a e)),
      AtMostOne-update_first p q f xs keep h,
    )
  ]

  pub All-unless :
      (P : A → Type 0) (p : A → Bool) (xs : List A)
      → All (λ y. p y ≡ false) xs
      → All (λ y. p y ≡ true → P y) xs
  All-unless P p [] h = tt
  All-unless P p (x ∷ xs) (n, h) = ((λ k. cc), All-unless P p xs h)

  -- What holds of the changed row holds of every row of its key.
  pub All-key :
      (P : A → Type 0) (p q : A → Bool) (f : A → A) (xs : List A) (x : A)
      → ((y : A) → q y ≡ true → p y ≡ true)
      → AtMostOne p xs
      → find q xs ≡ some x
      → P (f x)
      → All (λ y. p y ≡ true → P y) (update_first q f xs)
  All-key P p q f [] x i u e h = cc
  All-key P p q f (y ∷ xs) x i (a, u) e h = elim (Bool-cases (q y)) [
    | inl t ↦
        let same : y ≡ x = some-injective y x (rw t at e) in
        rw t ((λ _. subst (λ z. P (f z)) (sym same) h), All-unless P p xs (a (i y t)))
    | inr n ↦ rw n (
      (λ k. absurd (find-fails p q xs x i (a k) (rw n at e))),
      All-key P p q f xs x i u (rw n at e) h,
    )
  ]

  pub All-find :
      (P : A → Type 0) (p : A → Bool) (xs : List A) (x : A) → find p xs ≡ some x → All P xs → P x
  All-find P p [] x e h = cc
  All-find P p (y ∷ xs) x e (a, h) = elim (Bool-cases (p y)) [
    | inl t ↦ subst P (some-injective y x (rw t at e)) a
    | inr f ↦ All-find P p xs x (rw f at e) h
  ]

  pub All-filter : (P : A → Type 0) (q : A → Bool) (xs : List A) → All P xs → All P (filter q xs)
  All-filter P q [] h = tt
  All-filter P q (x ∷ xs) (a, h) = elim (Bool-cases (q x)) [
    | inl t ↦ rw t (a, All-filter P q xs h)
    | inr f ↦ rw f (All-filter P q xs h)
  ]

  pub AtMostOne-filter : (p q : A → Bool) (xs : List A) → AtMostOne p xs → AtMostOne p (filter q xs)
  AtMostOne-filter p q [] h = tt
  AtMostOne-filter p q (x ∷ xs) (a, h) = elim (Bool-cases (q x)) [
    | inl t ↦ rw t ((λ k. All-filter (λ y. p y ≡ false) q xs (a k)), AtMostOne-filter p q xs h)
    | inr f ↦ rw f (AtMostOne-filter p q xs h)
  ]

  -- Only the rows that the test lets through change.
  pub All-update_first_at :
      (P : A → Type 0) (q : A → Bool) (f : A → A) (xs : List A)
      → ((y : A) → q y ≡ true → P y → P (f y))
      → All P xs
      → All P (update_first q f xs)
  All-update_first_at P q f [] keep h = tt
  All-update_first_at P q f (x ∷ xs) keep (a, h) = elim (Bool-cases (q x)) [
    | inl t ↦ rw t (keep x t a, h)
    | inr n ↦ rw n (a, All-update_first_at P q f xs keep h)
  ]

  -- A row that one test finds and another, a key, is updated by is found again by the first.
  pub find-update_first_by :
      (p q : A → Bool) (f : A → A) (xs : List A) (x : A)
      → ((y : A) → p (f y) ≡ p y)
      → AtMostOne q xs
      → q x ≡ true
      → find p xs ≡ some x
      → find p (update_first q f xs) ≡ some (f x)
  find-update_first_by p q f [] x keep u at_q h = cc
  find-update_first_by p q f (y ∷ xs) x keep (one, u) at_q h = elim (Bool-cases (p y)) [
    | inl t ↦
        let same : y ≡ x = some-injective y x (rw t at h) in
        rw (same, at_q, keep x, subst (λ z. p z ≡ true) same t) refl
    | inr n ↦
        let found = rw n at h in
        elim (Bool-cases (q y)) [
          | inl t ↦ let fails = All-find (λ z. q z ≡ false) p xs x found (one t) in cc
          | inr m ↦ rw (m, n) (find-update_first_by p q f xs x keep u at_q found)
        ]
  ]

  pub none_pass : (p : A → Bool) (xs : List A) → any p xs ≡ false → All (λ y. p y ≡ false) xs
  none_pass p [] h = tt
  none_pass p (x ∷ xs) h = elim (Bool-cases (p x)) [
    | inl t ↦ absurd (cc (rw t at h))
    | inr f ↦ (f, none_pass p xs (rw f at h))
  ]

  -- A test that the change of the row leaves as it is
  pub any-update_first :
      (p q : A → Bool) (f : A → A) (xs : List A)
      → ((y : A) → q y ≡ true → p (f y) ≡ p y)
      → any p (update_first q f xs) ≡ any p xs
  any-update_first p q f [] keep = refl
  any-update_first p q f (x ∷ xs) keep = elim (Bool-cases (q x)) [
    | inl t ↦ rw (t, keep x t) refl
    | inr n ↦ rw (n, any-update_first p q f xs keep) refl
  ]

  pub any-find :
      (p q : A → Bool) (xs : List A) (x : A) → find p xs ≡ some x → q x ≡ true → any q xs ≡ true
  any-find p q [] x h k = cc
  any-find p q (y ∷ xs) x h k = elim (Bool-cases (p y)) [
    | inl t ↦ let same : y ≡ x = some-injective y x (rw t at h) in rw (same, k) refl
    | inr f ↦ or_true (q y) (any q xs) (any-find p q xs x (rw f at h) k)
  ]

  -- The identifiers of the rows that pass a test
  pub includes-map-filter :
      (q : A → Bool) (id : A → ℕ) (xs : List A)
      → All (λ x. q x ≡ true → includes (map id (filter q xs)) (id x) ≡ true) xs
  includes-map-filter q id [] = tt
  includes-map-filter q id (x ∷ xs) = elim (Bool-cases (q x)) [
    | inl t ↦
        let kept : filter q (x ∷ xs) ≡ x ∷ filter q xs = rw t refl in
        (
          (λ _. rw kept (rw (==_refl (id x)) refl)),
          All-imp (λ y h k. rw kept (includes-later (id x) (map id (filter q xs)) (id y) (h k))) xs
              (includes-map-filter q id xs),
        )
    | inr f ↦
        let kept : filter q (x ∷ xs) ≡ filter q xs = rw f refl in
        ((λ t. cc), All-imp (λ y h k. rw kept (h k)) xs (includes-map-filter q id xs))
  ]

  -- Only the row that is found changes.
  pub All-update_found :
      (P : A → Type 0) (q : A → Bool) (f : A → A) (xs : List A) (x : A)
      → find q xs ≡ some x
      → (P x → P (f x))
      → All P xs
      → All P (update_first q f xs)
  All-update_found P q f [] x e keep h = tt
  All-update_found P q f (y ∷ xs) x e keep (a, h) = elim (Bool-cases (q y)) [
    | inl t ↦
        let same : y ≡ x = some-injective y x (rw t at e) in
        rw t (subst (λ z. P z → P (f z)) (sym same) keep a, h)
    | inr n ↦ rw n (a, All-update_found P q f xs x (rw n at e) keep h)
  ]

  pub any-find_inv : (p : A → Bool) (xs : List A) → any p xs ≡ true → (x : A) × (find p xs ≡ some x)
  any-find_inv p [] h = cc
  any-find_inv p (x ∷ xs) h = elim (Bool-cases (p x)) [
    | inl t ↦ (x, rw t refl)
    | inr f ↦ let (y, e) = any-find_inv p xs (rw f at h) in (y, rw f e)
  ]
