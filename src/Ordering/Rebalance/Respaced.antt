-- ===== src/Ordering/Rebalance/Respaced.antt =====
-- The state of the table after a rebalance.
use edupay_academico.Prelude.{
  ℕ, ◌+◌, ◌*◌, ◌≡◌, refl, sym, ◌∙◌, ◌≢◌, inl, inr, Option, none, some, List, [], ◌∷◌, map, ◌==◌,
  ◌!=◌, All, All-imp, All-imp₂, All-map, for_each, map-eq, map-map, map_self, if◌then◌else◌, arith,
  Bool-cases, Option-cases, ap,
}
use edupay_academico.Ordering.Rows.{Row, IsDistinct, update, write_row, place}
use edupay_academico.Ordering.Rebalance.{rebalance_from}

-- The row with the given place among the renumbered ones, counted from `index`.
abbrev pub at_place : ℕ → Option ℕ → Row → Row
at_place index none r = r
at_place index (some j) r = record r { sort_order = (index + j + 1) * 1024 }

-- A row of the tenant that is listed gets its place times the step; every other row is kept.
abbrev pub respaced : ℕ → ℕ → List Row → Row → Row
respaced tenant index items r =
    if r.tenant_id == tenant then at_place index (place r.id items) r else r

-- The listing agrees with a row of the table on its sort order, if it lists its id.
abbrev pub Agrees : ℕ → List Row → Row → Type 0
Agrees tenant items r =
    All (λ s. r.tenant_id ≡ tenant → s.id ≡ r.id → s.sort_order ≡ r.sort_order) items

pub place-none : (id : ℕ) (items : List Row) → All (λ s. s.id ≢ id) items → place id items ≡ none
place-none id [] h = refl
place-none id (s ∷ items) (h, hs) = ground (arith, place-none id items hs, h)

write-Agrees :
    (tenant n : ℕ) (item : Row) (items : List Row) (r : Row)
    → All (λ s. s.id ≢ item.id) items
    → Agrees tenant items r
    → Agrees tenant items (write_row tenant item.id n r)
write-Agrees tenant n item items r fresh agrees =
    All-imp₂ (λ s ne same t e. ground (arith, ne, same)) items fresh agrees

written : ℕ → ℕ → Row → List Row → List Row
written tenant n item table = if item.sort_order != n then update tenant item.id n table else table

written-eq :
    (tenant n : ℕ) (item : Row) (items table : List Row)
    → All (Agrees tenant (item ∷ items)) table
    → written tenant n item table ≡ map (write_row tenant item.id n) table
unfolding written
written-eq tenant n item items table h = elim (Bool-cases (item.sort_order != n)) [
  | inl e ↦ rw e
  | inr e ↦ rw e (
      sym (
        map_self (write_row tenant item.id n) table (All-imp (λ r a. ground (arith, a.0)) table h)))
]

step-eq :
    (tenant index : ℕ) (item : Row) (items : List Row) (r : Row)
    → All (λ s. s.id ≢ item.id) items
    → respaced tenant (index + 1) items (write_row tenant item.id ((index + 1) * 1024) r)
      ≡ respaced tenant index (item ∷ items) r
step-eq tenant index item items r fresh = elim (Bool-cases (item.id == r.id)) [
  | inl e ↦ ground (arith, place-none item.id items fresh)
  | inr e ↦ elim (Option-cases (place r.id items)) [
    | inl absent ↦ ground (arith, absent)
    | inr (j, at_j) ↦ ground (arith, at_j)
  ]
]

pub rebalance_from_lem :
    (tenant index : ℕ) (items table : List Row)
    → IsDistinct items
    → All (Agrees tenant items) table
    → (rebalance_from tenant index items table).0 ≡ map (respaced tenant index items) table
unfolding rebalance_from written
rebalance_from_lem tenant index [] table d h =
    sym (map_self (respaced tenant index []) table (for_each (λ r. ground arith) table))
rebalance_from_lem tenant index (item ∷ items) table (fresh, d) h =
    ap (λ t. (rebalance_from tenant (index + 1) items t).0) (written-eq tenant n item items table h)
    ∙ rebalance_from_lem tenant (index + 1) items (map w table) d (
        All-map (Agrees tenant items) w table
          (All-imp (λ r a. write-Agrees tenant n item items r fresh a.1) table h))
    ∙ map-map (respaced tenant (index + 1) items) w table
    ∙ map-eq _ (respaced tenant index (item ∷ items)) table
        (for_each (λ r. step-eq tenant index item items r fresh) table)
  where
    n : ℕ
    n = (index + 1) * 1024

    w : Row → Row
    w = write_row tenant item.id n
