-- ===== src/Prelude/Lists.antt =====
-- JavaScript's array methods as functions on lists, and the lemmas that the components share.
use Prim.Native.Nat.{ℕ, zero, suc, ◌+◌, ◌≤◌, ◌<◌}
use mathlib.Core.Path.{◌≡◌, refl, subst, ap}
use mathlib.Core.Bool.{Bool, true, false, ◌&&◌, ◌||◌}
use mathlib.Core.Option
use mathlib.Core.Option.{Option, none, some, some-injective}
use mathlib.Core.List.{List, [], ◌∷◌, ◌++◌, map}
use native.Mathlib.Omega.{arith}
use mathlib.Core.Logic.{inl, inr}
use edupay_academico.Prelude.Tests.{◌==◌, if◌then◌else◌, Bool-cases}

module _ {ℓ} {A : Type ℓ} where
  abbrev pub length : List A → ℕ
  length [] = 0
  length (x ∷ xs) = suc (length xs)

  abbrev pub get_elem? : List A → ℕ → Option A
  get_elem? [] i = none
  get_elem? (x ∷ xs) zero = some x
  get_elem? (x ∷ xs) (suc i) = get_elem? xs i

  -- `Array.prototype.filter`
  abbrev pub filter : (A → Bool) → List A → List A
  filter p [] = []
  filter p (x ∷ xs) = let rest = filter p xs in if p x then x ∷ rest else rest

  -- `Array.prototype.find`
  abbrev pub find : (A → Bool) → List A → Option A
  find p [] = none
  find p (x ∷ xs) = let rest = find p xs in if p x then some x else rest

  -- `Array.prototype.findIndex`, with `none` for -1
  abbrev pub find_index : (A → Bool) → List A → Option ℕ
  find_index p [] = none
  find_index p (x ∷ xs) = let rest = find_index p xs in if p x then some 0 else Option.map suc rest

  -- `Array.prototype.some`
  abbrev pub any : (A → Bool) → List A → Bool
  any p [] = false
  any p (x ∷ xs) = p x || any p xs

  -- `Array.prototype.every`
  abbrev pub all : (A → Bool) → List A → Bool
  all p [] = true
  all p (x ∷ xs) = p x && all p xs

  -- `xs.slice(0, n)`
  abbrev pub take : ℕ → List A → List A
  take zero xs = []
  take (suc n) [] = []
  take (suc n) (x ∷ xs) = x ∷ take n xs

  -- `xs[xs.length - 1]`
  abbrev pub last? : List A → Option A
  last? [] = none
  last? (x ∷ []) = some x
  last? (x ∷ y ∷ xs) = last? (y ∷ xs)

  abbrev pub All {κ} : (A → Type κ) → List A → Type κ
  All P [] = Unit
  All P (x ∷ xs) = P x × All P xs

  pub length-append : (xs ys : List A) → length (xs ++ ys) ≡ length xs + length ys
  length-append [] ys = omega arith
  length-append (x ∷ xs) ys = omega (arith, length-append xs ys)

module _ {ℓ κ μ} {A : Type ℓ} {P : A → Type κ} {Q : A → Type μ} where
  pub All-imp : ((x : A) → P x → Q x) → (xs : List A) → All P xs → All Q xs
  All-imp f [] h = tt
  All-imp f (x ∷ xs) h = (f x h.0, All-imp f xs h.1)

module _ {ℓ κ μ ν} {A : Type ℓ} {P : A → Type κ} {Q : A → Type μ} {R : A → Type ν} where
  pub All-imp₂ : ((x : A) → P x → Q x → R x) → (xs : List A) → All P xs → All Q xs → All R xs
  All-imp₂ f [] h k = tt
  All-imp₂ f (x ∷ xs) h k = (f x h.0 k.0, All-imp₂ f xs h.1 k.1)

module _ {ℓ κ} {A : Type ℓ} {P : A → Type κ} where
  pub for_each : ((x : A) → P x) → (xs : List A) → All P xs
  for_each f [] = tt
  for_each f (x ∷ xs) = (f x, for_each f xs)

module _ {ℓ κ μ} {A : Type ℓ} {B : Type κ} (P : B → Type μ) (f : A → B) where
  pub All-map : (xs : List A) → All (λ x. P (f x)) xs → All P (map f xs)
  All-map [] h = tt
  All-map (x ∷ xs) h = (h.0, All-map xs h.1)

  pub All-map_inv : (xs : List A) → All P (map f xs) → All (λ x. P (f x)) xs
  All-map_inv [] h = tt
  All-map_inv (x ∷ xs) h = (h.0, All-map_inv xs h.1)

module _ {ℓ κ} {A : Type ℓ} {B : Type κ} where
  pub map-eq : (f g : A → B) (xs : List A) → All (λ x. f x ≡ g x) xs → map f xs ≡ map g xs
  map-eq f g [] h = refl
  map-eq f g (x ∷ xs) (e, h) = rw (e, map-eq f g xs h)

module _ {ℓ} {A : Type ℓ} where
  pub map_self : (f : A → A) (xs : List A) → All (λ x. f x ≡ x) xs → map f xs ≡ xs
  map_self f [] h = refl
  map_self f (x ∷ xs) (e, h) = rw (e, map_self f xs h)

module _ {ℓ κ μ} {A : Type ℓ} {B : Type κ} {C : Type μ} where
  pub map-map : (f : B → C) (g : A → B) (xs : List A) → map f (map g xs) ≡ map (λ x. f (g x)) xs
  map-map f g [] = refl
  map-map f g (x ∷ xs) = rw (map-map f g xs)

module _ {ℓ κ} {A : Type ℓ} (P : A → Type κ) where
  -- What holds of a list holds of the part that passes a test, with the test.
  pub All-filter :
      (p : A → Bool) (xs : List A) → All P xs → All (λ x. P x × (p x ≡ true)) (filter p xs)
  All-filter p [] h = tt
  All-filter p (x ∷ xs) (a, h) = elim (Bool-cases (p x)) [
    | inl e ↦ rw e ((a, e), All-filter p xs h)
    | inr e ↦ rw e (All-filter p xs h)
  ]

  pub All-filter_inv :
      (p : A → Bool) (xs : List A) → All P (filter p xs) → All (λ x. p x ≡ true → P x) xs
  All-filter_inv p [] h = tt
  All-filter_inv p (x ∷ xs) h = elim (Bool-cases (p x)) [
    | inl e ↦ let h' = rw e at h in ((λ _. h'.0), All-filter_inv p xs h'.1)
    | inr e ↦ let h' = rw e at h in ((λ t. cc), All-filter_inv p xs h')
  ]

  pub All-get_elem? : (xs : List A) (i : ℕ) {a : A} → All P xs → get_elem? xs i ≡ some a → P a
  All-get_elem? [] i h e = cc
  All-get_elem? (x ∷ xs) zero {a} h e = subst P (some-injective x a e) h.0
  All-get_elem? (x ∷ xs) (suc i) h e = All-get_elem? xs i h.1 e

module _ {ℓ} {A : Type ℓ} where
  -- Below an index that holds an element every index holds one.
  pub get_elem?-below :
      (xs : List A) (i k : ℕ) {a : A}
      → get_elem? xs k ≡ some a
      → i ≤ k
      → (b : A) × (get_elem? xs i ≡ some b)
  get_elem?-below [] i k e h = cc
  get_elem?-below (x ∷ xs) zero k e h = (x, refl)
  get_elem?-below (x ∷ xs) (suc i) zero e h = absurd (omega arith)
  get_elem?-below (x ∷ xs) (suc i) (suc k) e h = get_elem?-below xs i k e (omega arith)

  -- An index that holds an element is below the length.
  pub get_elem?-lt : (xs : List A) (i : ℕ) {a : A} → get_elem? xs i ≡ some a → i < length xs
  get_elem?-lt [] i e = cc
  get_elem?-lt (x ∷ xs) zero e = omega arith
  get_elem?-lt (x ∷ xs) (suc i) e = omega (arith, get_elem?-lt xs i e)

  pub get_elem?-some : (xs : List A) (i : ℕ) → i < length xs → (b : A) × (get_elem? xs i ≡ some b)
  get_elem?-some [] i h = absurd (omega arith)
  get_elem?-some (x ∷ xs) zero h = (x, refl)
  get_elem?-some (x ∷ xs) (suc i) h = get_elem?-some xs i (omega arith)

module _ {ℓ} {A : Type ℓ} (p : A → Bool) where
  pub filter-append : (xs ys : List A) → filter p (xs ++ ys) ≡ filter p xs ++ filter p ys
  filter-append [] ys = refl
  filter-append (x ∷ xs) ys = elim (Bool-cases (p x)) [
    | inl e ↦ rw (e, filter-append xs ys)
    | inr e ↦ rw (e, filter-append xs ys)
  ]

  pub find-append : (xs ys : List A) {a : A} → find p xs ≡ some a → find p (xs ++ ys) ≡ some a
  find-append [] ys e = cc
  find-append (x ∷ xs) ys e = elim (Bool-cases (p x)) [
    | inl t ↦ rw t (rw t at e)
    | inr f ↦ rw f (find-append xs ys (rw f at e))
  ]

  pub find-test : (xs : List A) {a : A} → find p xs ≡ some a → p a ≡ true
  find-test [] e = cc
  find-test (x ∷ xs) {a} e = elim (Bool-cases (p x)) [
    | inl t ↦ let e' = rw t at e in subst (λ y. p y ≡ true) (some-injective x a e') t
    | inr f ↦ find-test xs (rw f at e)
  ]

pub get_elem?-map {ℓ κ} :
    {A : Type ℓ} {B : Type κ} (f : A → B) (xs : List A) (i : ℕ) (x : A)
    → get_elem? xs i ≡ some x
    → get_elem? (map f xs) i ≡ some (f x)
get_elem?-map f [] i x h = cc
get_elem?-map f (y ∷ xs) zero x h = ap (Option.map f) h
get_elem?-map f (y ∷ xs) (suc i) x h = get_elem?-map f xs i x h

-- `ids.includes(id)`
abbrev pub includes : List ℕ → ℕ → Bool
includes [] id = false
includes (i ∷ is) id = let rest = includes is id in if i == id then true else rest
