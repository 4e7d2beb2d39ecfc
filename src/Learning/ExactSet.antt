-- ===== src/Learning/ExactSet.antt =====
-- `requireExactSet` of apps/api/src/learning/learning.service.ts.
use edupay_academico.Prelude.{
  ℕ, ◌+◌, ◌≡◌, refl, Bool, true, false, not, List, [], ◌∷◌, length, any, includes, ◌==◌, ==_iff,
  ◌!=◌, ◌||◌, ◌∙◌, if◌then◌else◌, Bool-cases, inl, inr, ok, arith,
}
use edupay_academico.Learning.Reordering.{require_exact_set}
use mathlib.Core.Bool.{Bool-set}
use mathlib.Core.HLevel.{×_prop}
use mathlib.Core.Logic.{∥∥₁_elim}
use mathlib.Core.List.{Perm, Permᴰ}
use mathlib.Core.List.Perm

-- Ids without repetition
abbrev pub IsDistinct : List ℕ → Type 0
IsDistinct [] = Unit
IsDistinct (i ∷ is) = (includes is i ≡ false) × IsDistinct is

abbrev erase : ℕ → List ℕ → List ℕ
erase a [] = []
erase a (x ∷ xs) = let rest = erase a xs in if x == a then xs else x ∷ rest

erase-perm : (a : ℕ) (ys : List ℕ) → includes ys a ≡ true → Perm ys (a ∷ erase a ys)
erase-perm a [] h = cc
erase-perm a (y ∷ ys) h = elim (Bool-cases (y == a)) [
  | inl t ↦ rw t (Perm.cons' ((==_iff y a).0 t) Perm.rfl)
  | inr f ↦
      rw f (Perm.trans (Perm.cons y (erase-perm a ys (rw f at h))) (Perm.swap a y (erase a ys)))
]

length-erase : (a : ℕ) (ys : List ℕ) → includes ys a ≡ true → length (erase a ys) + 1 ≡ length ys
length-erase a [] h = cc
length-erase a (y ∷ ys) h = ground (arith, length-erase a ys)

includes-erase :
    (a b : ℕ) (ys : List ℕ)
    → (a == b) ≡ false
    → includes ys b ≡ true
    → includes (erase a ys) b ≡ true
includes-erase a b [] ne h = cc
includes-erase a b (y ∷ ys) ne h = ground (arith, includes-erase a b ys ne)

-- Some element is not among the requested ids.
abbrev misses : List ℕ → List ℕ → Bool
misses ys = any (λ id. not (includes ys id))

misses-erase :
    (a : ℕ) (xs ys : List ℕ)
    → includes xs a ≡ false
    → misses ys xs ≡ false
    → misses (erase a ys) xs ≡ false
misses-erase a [] ys fresh h = refl
misses-erase a (x ∷ xs) ys fresh h = ground (arith, includes-erase a x ys, misses-erase a xs ys)

exact-perm :
    (xs ys : List ℕ) → IsDistinct xs → length xs ≡ length ys → misses ys xs ≡ false → Perm ys xs
exact-perm [] [] d l m = Perm.rfl
exact-perm [] (y ∷ ys) d l m = absurd (omega arith)
exact-perm (x ∷ xs) ys (fresh, d) l m =
    let there : includes ys x ≡ true = ground (arith, m) in
    let rest : misses ys xs ≡ false = ground (arith, m) in
    Perm.trans (erase-perm x ys there) (
      Perm.cons x (
        exact-perm xs (erase x ys) d (omega (arith, length-erase x ys there, l))
          (misses-erase x xs ys fresh rest)))

-- Ids that pass the test against ids without repetition are a permutation of them: none is missing,
-- foreign or repeated.
pub require_exact_set-perm :
    (actual requested : List ℕ)
    → IsDistinct actual
    → require_exact_set actual requested ≡ ok tt
    → Perm requested actual
unfolding require_exact_set
require_exact_set-perm actual requested d h =
    elim (Bool-cases (length actual != length requested || misses requested actual)) [
      | inl t ↦ let e = rw t at h in cc
      | inr f ↦ exact-perm actual requested d (ground (arith, f)) (ground (arith, f))
    ]

includes-perm : {xs ys : List ℕ} (a : ℕ) → Permᴰ xs ys → includes xs a ≡ includes ys a
includes-perm a Permᴰ.nil = refl
includes-perm a (Permᴰ.cons {a = x} {b = y} e p) = rw (e, includes-perm a p) refl
includes-perm a (Permᴰ.swap e e') = rw (e, e') (ground arith)
includes-perm a (Permᴰ.trans p q) = includes-perm a p ∙ includes-perm a q

distinct : {xs ys : List ℕ} → Permᴰ xs ys → IsDistinct ys → IsDistinct xs
distinct Permᴰ.nil d = tt
distinct (Permᴰ.cons {a = x} {b = y} e p) (fresh, d) =
    (rw e (includes-perm y p ∙ fresh), distinct p d)
distinct (Permᴰ.swap e e') (n, (m, d)) =
    rw (e, e') ((ground (arith, n, m), (ground (arith, n, m), d)))
distinct (Permᴰ.trans p q) d = distinct p (distinct q d)

IsDistinct-prop : (xs : List ℕ) → IsProp (IsDistinct xs)
IsDistinct-prop [] = hlevel
IsDistinct-prop (x ∷ xs) = ×_prop (Bool-set (includes xs x) false) (IsDistinct-prop xs)

-- A permutation of ids without repetition repeats none.
pub IsDistinct-perm : (xs ys : List ℕ) → Perm xs ys → IsDistinct ys → IsDistinct xs
IsDistinct-perm xs ys p d = ∥∥₁_elim p (IsDistinct-prop xs) (λ q. distinct q d)
