-- ===== src/Ordering/Rows.antt =====
-- The rows that the ordering service reads and writes, and its queries.
-- A row of `learning_items` has its learning unit as parent, a row of `learning_units` its course
-- subject; the other columns are not touched here. Ids are UUIDs, read as numbers.
use edupay_academico.Prelude.{
  ℕ, ◌≤◌, ◌<◌, ◌≡◌, ◌≢◌, ◌⊎◌, Bool, Option, none, some, List, [], ◌∷◌, ◌&&◌, map, ◌==◌, ◌!=◌,
  find_index, All, if◌then◌else◌,
}

pub record Row : Type 0 where
  pub tenant_id : ℕ
  pub id : ℕ
  pub parent_id : ℕ
  pub sort_order : ℕ

-- `orderBy: [{ sortOrder: 'asc' }, { id: 'asc' }]`
abbrev pub Precedes : Row → Row → Type 0
Precedes r s = (r.sort_order < s.sort_order) ⊎ ((r.sort_order ≡ s.sort_order) × (r.id ≤ s.id))

abbrev pub IsSorted : List Row → Type 0
IsSorted [] = Unit
IsSorted (r ∷ rs) = All (Precedes r) rs × IsSorted rs

-- No two rows have the same id.
abbrev pub IsDistinct : List Row → Type 0
IsDistinct [] = Unit
IsDistinct (r ∷ rs) = All (λ s. s.id ≢ r.id) rs × IsDistinct rs

-- What the database answers for `orderBy` on the rows that a `where` selects: the same rows, in
-- order.
pub record OrderBy : Type 1 where
  pub sort : List Row → List Row
  pub sort-All : (P : Row → Type 0) (rs : List Row) → All P rs → All P (sort rs)
  pub All-sort : (P : Row → Type 0) (rs : List Row) → All P (sort rs) → All P rs
  pub sort-IsDistinct : (rs : List Row) → IsDistinct rs → IsDistinct (sort rs)
  pub sort-IsSorted : (rs : List Row) → IsSorted (sort rs)

-- `where: { tenantId, learningUnitId }`
abbrev pub in_parent : ℕ → ℕ → Row → Bool
in_parent tenant parent r = r.tenant_id == tenant && r.parent_id == parent

-- `...(excludeItemId ? { id: { not: excludeItemId } } : {})`
abbrev pub not_excluded : Option ℕ → Row → Bool
not_excluded none r = Bool.true
not_excluded (some id) r = r.id != id

-- `update({ where: { tenantId_id: { tenantId, id } }, data: { sortOrder } })`
abbrev pub write_row : ℕ → ℕ → ℕ → Row → Row
write_row tenant id position r =
    if r.tenant_id == tenant && r.id == id then record r { sort_order = position } else r

abbrev pub update : ℕ → ℕ → ℕ → List Row → List Row
update tenant id position = map (write_row tenant id position)

-- `(tenant_id, id)` is the primary key of both tables.
abbrev pub HasKeys : List Row → Type 0
HasKeys [] = Unit
HasKeys (r ∷ rs) = All (λ s. s.tenant_id ≡ r.tenant_id → s.id ≢ r.id) rs × HasKeys rs

-- The place of an id in a listing.
abbrev pub place : ℕ → List Row → Option ℕ
place id = find_index (λ r. r.id == id)
