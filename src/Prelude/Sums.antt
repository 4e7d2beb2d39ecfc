-- ===== src/Prelude/Sums.antt =====
-- Sums over lists, and the update of the row that a unique key finds.
use Prim.Native.Nat.{ℕ, ◌+◌, ◌≤◌}
use mathlib.Core.Path.{◌≡◌, refl}
use mathlib.Core.Bool.{Bool}
use mathlib.Core.Option.{some, some-injective}
use mathlib.Core.Logic.{inl, inr}
use mathlib.Core.List.{List, [], ◌∷◌, ◌++◌}
use native.Mathlib.Omega.{arith}
use edupay_academico.Prelude.Tests.{if◌then◌else◌, Bool-cases}
use edupay_academico.Prelude.Lists.{find}

module _ {A : Type 0} where
  abbrev pub sum : (A → ℕ) → List A → ℕ
  sum f [] = 0
  sum f (x ∷ xs) = f x + sum f xs

  pub sum-append : (f : A → ℕ) (xs ys : List A) → sum f (xs ++ ys) ≡ sum f xs + sum f ys
  sum-append f [] ys = omega arith
  sum-append f (x ∷ xs) ys = omega (arith, sum-append f xs ys)

  -- The row with a unique key is changed; other rows are not.
  abbrev pub update_first : (A → Bool) → (A → A) → List A → List A
  update_first p f [] = []
  update_first p f (x ∷ xs) = let rest = update_first p f xs in if p x then f x ∷ xs else x ∷ rest

  pub sum-update_first :
      (g : A → ℕ) (p : A → Bool) (f : A → A) (xs : List A) (x : A)
      → find p xs ≡ some x
      → sum g (update_first p f xs) + g x ≡ sum g xs + g (f x)
  sum-update_first g p f [] x h = cc
  sum-update_first g p f (y ∷ xs) x h = elim (Bool-cases (p y)) [
    | inl t ↦ let e = some-injective y x (rw t at h) in rw (t, e) (omega arith)
    | inr n ↦ rw n (omega (arith, sum-update_first g p f xs x (rw n at h)))
  ]

  pub le-sum-find :
      (g : A → ℕ) (p : A → Bool) (xs : List A) (x : A) → find p xs ≡ some x → g x ≤ sum g xs
  le-sum-find g p [] x h = cc
  le-sum-find g p (y ∷ xs) x h = elim (Bool-cases (p y)) [
    | inl t ↦ let e = some-injective y x (rw t at h) in rw e (omega arith)
    | inr n ↦ omega (arith, le-sum-find g p xs x (rw n at h))
  ]

  -- The key is kept, so that the changed row is found again.
  pub find-update_first :
      (p : A → Bool) (f : A → A) (xs : List A) (x : A)
      → ((y : A) → p (f y) ≡ p y)
      → find p xs ≡ some x
      → find p (update_first p f xs) ≡ some (f x)
  find-update_first p f [] x keep h = cc
  find-update_first p f (y ∷ xs) x keep h = elim (Bool-cases (p y)) [
    | inl t ↦ let e = some-injective y x (rw t at h) in rw (t, keep y, t, e) refl
    | inr n ↦ let rest = find-update_first p f xs x keep (rw n at h) in rw (n, n) rest
  ]
