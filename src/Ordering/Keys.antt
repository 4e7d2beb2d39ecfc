-- ===== src/Ordering/Keys.antt =====
-- What keys and order of a table give for the listings made from it.
use edupay_academico.Prelude.{
  ℕ, zero, suc, ◌≤◌, ◌≡◌, refl, sym, ◌∙◌, ◌≢◌, Bool, true, some, List, [], ◌∷◌, filter, get_elem?,
  All, All-imp, All-imp₂, All-filter, All-get_elem?, arith, Bool-cases, inl, inr,
}
use edupay_academico.Ordering.Rows.{Row, IsSorted, IsDistinct, HasKeys, place}

-- Rows with the same key have the same sort order.
abbrev pub SameKeySameOrder : Row → Row → Type 0
SameKeySameOrder r s = s.tenant_id ≡ r.tenant_id → s.id ≡ r.id → s.sort_order ≡ r.sort_order

pub HasKeys-agree :
    (table : List Row) → HasKeys table → All (λ r. All (SameKeySameOrder r) table) table
HasKeys-agree [] h = tt
HasKeys-agree (x ∷ xs) (fresh, h) = (
  (λ t e. refl, All-imp (λ s ne t e. absurd (ne t e)) xs fresh),
  All-imp₂ {P = λ s. s.tenant_id ≡ x.tenant_id → s.id ≢ x.id} {Q = λ r. All (SameKeySameOrder r) xs}
      (λ r ne same. (λ t e. absurd (ne (sym t) (sym e)), same)) xs fresh (HasKeys-agree xs h),
)

-- A filter that keeps to one tenant keeps ids apart.
pub filter-IsDistinct :
    (tenant : ℕ) (p : Row → Bool) (table : List Row)
    → ((r : Row) → p r ≡ true → r.tenant_id ≡ tenant)
    → HasKeys table
    → IsDistinct (filter p table)
filter-IsDistinct tenant p [] own h = tt
filter-IsDistinct tenant p (x ∷ xs) own (fresh, h) = elim (Bool-cases (p x)) [
  | inl e ↦ rw e (
    All-imp {P = λ s. (s.tenant_id ≡ x.tenant_id → s.id ≢ x.id) × (p s ≡ true)}
        (λ s both. both.0 (own s both.1 ∙ sym (own x e))) (filter p xs) (All-filter _ p xs fresh),
    filter-IsDistinct tenant p xs own h,
  )
  | inr e ↦ rw e (filter-IsDistinct tenant p xs own h)
]

-- A row stands in the listing, at the place of its id.
abbrev pub Listed : List Row → Row → Type 0
Listed items r = (j : ℕ) × (place r.id items ≡ some j) × (get_elem? items j ≡ some r)

pub Listed-self : (items : List Row) → IsDistinct items → All (Listed items) items
Listed-self [] d = tt
Listed-self (x ∷ xs) (fresh, d) = (
  (0, ground arith, refl),
  All-imp₂ {P = λ s. s.id ≢ x.id} {Q = Listed xs}
      (λ r ne at. (suc at.0, ground (arith, at.1), at.2)) xs fresh (Listed-self xs d),
)

pub sorted_le :
    (items : List Row) (i j : ℕ) (r s : Row)
    → IsSorted items
    → get_elem? items i ≡ some r
    → get_elem? items j ≡ some s
    → i ≤ j
    → r.sort_order ≤ s.sort_order
sorted_le [] i j r s h p q le = cc
sorted_le (x ∷ xs) zero zero r s h p q le = ground arith
sorted_le (x ∷ xs) zero (suc j) r s h p q le = ground (arith, All-get_elem? _ xs j h.0 q)
sorted_le (x ∷ xs) (suc i) zero r s h p q le = absurd (omega arith)
sorted_le (x ∷ xs) (suc i) (suc j) r s h p q le = sorted_le xs i j r s h.1 p q (omega arith)
