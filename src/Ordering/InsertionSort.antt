-- ===== src/Ordering/InsertionSort.antt =====
-- A database whose `orderBy` is an insertion sort: the assumptions on queries can be met.
use edupay_academico.Prelude.{
  ◌≡◌, sym, ◌≢◌, Bool, true, false, List, [], ◌∷◌, ◌&&◌, ◌||◌, ◌==◌, ltb, leb, All, All-imp,
  if◌then◌else◌, arith, Bool-cases, inl, inr,
}
use edupay_academico.Ordering.Rows.{Row, OrderBy, Precedes, IsSorted, IsDistinct}

abbrev comes_first : Row → Row → Bool
comes_first r s = ltb r.sort_order s.sort_order || (r.sort_order == s.sort_order && leb r.id s.id)

abbrev insert : Row → List Row → List Row
insert r [] = r ∷ []
insert r (s ∷ rs) = let later = insert r rs in if comes_first r s then r ∷ s ∷ rs else s ∷ later

abbrev insertion_sort : List Row → List Row
insertion_sort [] = []
insertion_sort (r ∷ rs) = insert r (insertion_sort rs)

module _ {κ} (P : Row → Type κ) where
  insert-All : (r : Row) (rs : List Row) → P r → All P rs → All P (insert r rs)
  insert-All r [] p h = (p, tt)
  insert-All r (s ∷ rs) p h = elim (Bool-cases (comes_first r s)) [
    | inl e ↦ rw e (p, h)
    | inr e ↦ rw e (h.0, insert-All r rs p h.1)
  ]

  All-insert : (r : Row) (rs : List Row) → All P (insert r rs) → P r × All P rs
  All-insert r [] h = (h.0, tt)
  All-insert r (s ∷ rs) h = elim (Bool-cases (comes_first r s)) [
    | inl e ↦ let h' = rw e at h in (h'.0, h'.1)
    | inr e ↦ let h' = rw e at h in let (p, rest) = All-insert r rs h'.1 in (p, (h'.0, rest))
  ]

  pub sort-All : (rs : List Row) → All P rs → All P (insertion_sort rs)
  sort-All [] h = tt
  sort-All (r ∷ rs) h = insert-All r (insertion_sort rs) h.0 (sort-All rs h.1)

  pub All-sort : (rs : List Row) → All P (insertion_sort rs) → All P rs
  All-sort [] h = tt
  All-sort (r ∷ rs) h = let (p, rest) = All-insert r (insertion_sort rs) h in (p, All-sort rs rest)

insert-IsDistinct :
    (r : Row) (rs : List Row) → All (λ s. s.id ≢ r.id) rs → IsDistinct rs → IsDistinct (insert r rs)
insert-IsDistinct r [] h d = (tt, tt)
insert-IsDistinct r (s ∷ rs) h d = elim (Bool-cases (comes_first r s)) [
  | inl e ↦ rw e (h, d)
  | inr e ↦ rw e (
    insert-All (λ t. t.id ≢ s.id) r rs (λ same. h.0 (sym same)) d.0,
    insert-IsDistinct r rs h.1 d.1,
  )
]

pub sort-IsDistinct : (rs : List Row) → IsDistinct rs → IsDistinct (insertion_sort rs)
sort-IsDistinct [] d = tt
sort-IsDistinct (r ∷ rs) d =
    insert-IsDistinct r (insertion_sort rs) (sort-All (λ s. s.id ≢ r.id) rs d.0)
      (sort-IsDistinct rs d.1)

Precedes-trans : (r s t : Row) → Precedes r s → Precedes s t → Precedes r t
Precedes-trans r s t h k = ground arith

Precedes-first : (r s : Row) → comes_first r s ≡ true → Precedes r s
Precedes-first r s e = ground arith

Precedes-second : (r s : Row) → comes_first r s ≡ false → Precedes s r
Precedes-second r s e = ground arith

insert-IsSorted : (r : Row) (rs : List Row) → IsSorted rs → IsSorted (insert r rs)
insert-IsSorted r [] h = (tt, tt)
insert-IsSorted r (s ∷ rs) h = elim (Bool-cases (comes_first r s)) [
  | inl e ↦
      let first = Precedes-first r s e in
      rw e ((first, All-imp (λ t k. Precedes-trans r s t first k) rs h.0), h)
  | inr e ↦
      rw e (insert-All (Precedes s) r rs (Precedes-second r s e) h.0, insert-IsSorted r rs h.1)
]

pub sort-IsSorted : (rs : List Row) → IsSorted (insertion_sort rs)
sort-IsSorted [] = tt
sort-IsSorted (r ∷ rs) = insert-IsSorted r (insertion_sort rs) (sort-IsSorted rs)

abbrev pub sorting_database : OrderBy
sorting_database = record {
  sort = insertion_sort;
  sort-All = λ P. sort-All P;
  All-sort = λ P. All-sort P;
  sort-IsDistinct = sort-IsDistinct;
  sort-IsSorted = sort-IsSorted;
}
