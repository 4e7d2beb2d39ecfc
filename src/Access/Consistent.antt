-- ===== src/Access/Consistent.antt =====
-- What the walk over the client's values finds, stated without the walk.
use edupay_academico.Prelude.{
  ◌≡◌, ◌↔◌, ◌⊎◌, inl, inr, refl, Bool, true, false, ◌||◌, Text, text_eq_iff, arith, Bool-cases,
}
use edupay_academico.Access.Selectors.{
  Value, undefined, null, bool, num, str, arr, obj, Values, nil, cons, Fields, end, field,
  is_tenant_key, is_membership_key, Collected, push_selector, collect_selectors, collect_items,
  collect_fields, differs, any_differs, conflicts, has_conflict,
}

abbrev pub AllNames : Text → Values → Type 0
AllNames trusted nil = Unit
AllNames trusted (cons item items) = (item ≡ str trusted) × AllNames trusted items

-- The value is absent, names the trusted id, or is an array of the trusted id.
abbrev pub Names : Text → Value → Type 0
Names trusted undefined = Unit
Names trusted (str t) = t ≡ trusted
Names trusted (arr items) = AllNames trusted items
Names trusted null = ⊥
Names trusted (bool b) = ⊥
Names trusted (num n) = ⊥
Names trusted (obj fields) = ⊥

-- A key of the tenant comes with the trusted tenant, a key of the membership with the trusted one.
abbrev pub FieldNames : Text → Text → Text → Value → Type 0
FieldNames tenant membership key item =
    ((is_tenant_key key ≡ true) × Names tenant item)
    ⊎ ((is_tenant_key key ≡ false) × (is_membership_key key ≡ true) × Names membership item)
    ⊎ ((is_tenant_key key ≡ false) × (is_membership_key key ≡ false))

-- So it is at every depth.
abbrev mutual
  pub Consistent : Text → Text → Value → Type 0
  Consistent tenant membership undefined = Unit
  Consistent tenant membership null = Unit
  Consistent tenant membership (bool b) = Unit
  Consistent tenant membership (num n) = Unit
  Consistent tenant membership (str t) = Unit
  Consistent tenant membership (arr items) = ConsistentItems tenant membership items
  Consistent tenant membership (obj fields) = ConsistentFields tenant membership fields

  pub ConsistentItems : Text → Text → Values → Type 0
  ConsistentItems tenant membership nil = Unit
  ConsistentItems tenant membership (cons item items) =
      Consistent tenant membership item × ConsistentItems tenant membership items

  pub ConsistentFields : Text → Text → Fields → Type 0
  ConsistentFields tenant membership end = Unit
  ConsistentFields tenant membership (field key item fields) =
      FieldNames tenant membership key item
      × Consistent tenant membership item
      × ConsistentFields tenant membership fields

differs_iff : (trusted : Text) (v : Value) → (differs trusted v ≡ false) ↔ (v ≡ str trusted)
differs_iff trusted (str t) =
    (λ h. ground (arith, text_eq_iff t trusted), λ h. ground (arith, text_eq_iff t trusted))
differs_iff trusted undefined = (λ h. cc, λ h. cc)
differs_iff trusted null = (λ h. cc, λ h. cc)
differs_iff trusted (bool b) = (λ h. cc, λ h. cc)
differs_iff trusted (num n) = (λ h. cc, λ h. cc)
differs_iff trusted (arr items) = (λ h. cc, λ h. cc)
differs_iff trusted (obj fields) = (λ h. cc, λ h. cc)

any_differs_iff :
    (trusted : Text) (items : Values) → (any_differs trusted items ≡ false) ↔ AllNames trusted items
any_differs_iff trusted nil = (λ h. tt, λ h. refl)
any_differs_iff trusted (cons item items) = (
  λ h. (
    (differs_iff trusted item).0 (ground arith),
    (any_differs_iff trusted items).0 (ground arith),
  ),
  λ h.
      let a = (differs_iff trusted item).1 h.0 in
      let b = (any_differs_iff trusted items).1 h.1 in ground arith,
)

pub conflicts_iff : (trusted : Text) (v : Value) → (conflicts trusted v ≡ false) ↔ Names trusted v
conflicts_iff trusted undefined = (λ h. tt, λ h. refl)
conflicts_iff trusted (str t) =
    (λ h. ground (arith, text_eq_iff t trusted), λ h. ground (arith, text_eq_iff t trusted))
conflicts_iff trusted (arr items) = any_differs_iff trusted items
conflicts_iff trusted null = (λ h. cc, λ h. absurd h)
conflicts_iff trusted (bool b) = (λ h. cc, λ h. absurd h)
conflicts_iff trusted (num n) = (λ h. cc, λ h. absurd h)
conflicts_iff trusted (obj fields) = (λ h. cc, λ h. absurd h)

-- None of the selectors that were found is in conflict.
abbrev pub IsClean : Text → Text → Collected → Type 0
IsClean tenant membership found =
    (has_conflict found.tenant_selectors tenant ≡ false)
    × (has_conflict found.membership_selectors membership ≡ false)

pub or_false : (a b : Bool) → (a || b) ≡ false → (a ≡ false) × (b ≡ false)
or_false true b h = cc
or_false false b h = (refl, h)

false_or : (a b : Bool) → a ≡ false → b ≡ false → (a || b) ≡ false
false_or a b h k = rw h k

push_sound :
    (tenant membership key : Text) (item : Value) (found : Collected)
    → IsClean tenant membership (push_selector key item found)
    → FieldNames tenant membership key item × IsClean tenant membership found
unfolding push_selector
push_sound tenant membership key item found h = elim (Bool-cases (is_tenant_key key)) [
  | inl t ↦
      let (now, rest) = or_false _ (has_conflict found.tenant_selectors tenant) (rw t at h.0) in
      (inl (t, (conflicts_iff tenant item).0 now), (rest, rw t at h.1))
  | inr f ↦ elim (Bool-cases (is_membership_key key)) [
    | inl t ↦
        let (now, rest) =
          or_false _ (has_conflict found.membership_selectors membership) (rw (f, t) at h.1) in
        (inr (inl (f, t, (conflicts_iff membership item).0 now)), (rw (f, t) at h.0, rest))
    | inr g ↦ (inr (inr (f, g)), rw (f, g) at h)
  ]
]

push_complete :
    (tenant membership key : Text) (item : Value) (found : Collected)
    → FieldNames tenant membership key item
    → IsClean tenant membership found
    → IsClean tenant membership (push_selector key item found)
unfolding push_selector
push_complete tenant membership key item found (inl (t, n)) (a, b) =
    rw t (false_or _ _ ((conflicts_iff tenant item).1 n) a, b)
push_complete tenant membership key item found (inr (inl (f, t, n))) (a, b) =
    rw (f, t) (a, false_or _ _ ((conflicts_iff membership item).1 n) b)
push_complete tenant membership key item found (inr (inr (f, g))) clean = rw (f, g) clean

mutual
  unfolding collect_selectors

  collect_sound :
      (tenant membership : Text) (v : Value) (found : Collected)
      → IsClean tenant membership (collect_selectors v found)
      → Consistent tenant membership v × IsClean tenant membership found
  collect_sound t m undefined found h = (tt, h)
  collect_sound t m null found h = (tt, h)
  collect_sound t m (bool b) found h = (tt, h)
  collect_sound t m (num n) found h = (tt, h)
  collect_sound t m (str s) found h = (tt, h)
  collect_sound t m (arr items) found h = collect_items_sound t m items found h
  collect_sound t m (obj fields) found h = collect_fields_sound t m fields found h

  collect_items_sound :
      (tenant membership : Text) (vs : Values) (found : Collected)
      → IsClean tenant membership (collect_items vs found)
      → ConsistentItems tenant membership vs × IsClean tenant membership found
  collect_items_sound t m nil found h = (tt, h)
  collect_items_sound t m (cons item items) found h =
      let (later, h') = collect_items_sound t m items (collect_selectors item found) h in
      let (now, h'') = collect_sound t m item found h' in ((now, later), h'')

  collect_fields_sound :
      (tenant membership : Text) (fs : Fields) (found : Collected)
      → IsClean tenant membership (collect_fields fs found)
      → ConsistentFields tenant membership fs × IsClean tenant membership found
  collect_fields_sound t m end found h = (tt, h)
  collect_fields_sound t m (field key item fields) found h =
      let (later, h') = collect_fields_sound t m fields _ h in
      let (now, h'') = collect_sound t m item (push_selector key item found) h' in
      let (named, h''') = push_sound t m key item found h'' in ((named, now, later), h''')

mutual
  unfolding collect_selectors

  collect_complete :
      (tenant membership : Text) (v : Value) (found : Collected)
      → Consistent tenant membership v
      → IsClean tenant membership found
      → IsClean tenant membership (collect_selectors v found)
  collect_complete t m undefined found c h = h
  collect_complete t m null found c h = h
  collect_complete t m (bool b) found c h = h
  collect_complete t m (num n) found c h = h
  collect_complete t m (str s) found c h = h
  collect_complete t m (arr items) found c h = collect_items_complete t m items found c h
  collect_complete t m (obj fields) found c h = collect_fields_complete t m fields found c h

  collect_items_complete :
      (tenant membership : Text) (vs : Values) (found : Collected)
      → ConsistentItems tenant membership vs
      → IsClean tenant membership found
      → IsClean tenant membership (collect_items vs found)
  collect_items_complete t m nil found c h = h
  collect_items_complete t m (cons item items) found (now, later) h =
      collect_items_complete t m items (collect_selectors item found) later
        (collect_complete t m item found now h)

  collect_fields_complete :
      (tenant membership : Text) (fs : Fields) (found : Collected)
      → ConsistentFields tenant membership fs
      → IsClean tenant membership found
      → IsClean tenant membership (collect_fields fs found)
  collect_fields_complete t m end found c h = h
  collect_fields_complete t m (field key item fields) found (named, now, later) h =
      collect_fields_complete t m fields _ later
        (collect_complete t m item _ now (push_complete t m key item found named h))

-- The walk leaves no conflict exactly if the value is consistent with the trusted ids at every
-- depth and no selector found before was in conflict.
pub collect_selectors_iff :
    (tenant membership : Text) (v : Value) (found : Collected)
    → IsClean tenant membership (collect_selectors v found)
      ↔ (Consistent tenant membership v × IsClean tenant membership found)
collect_selectors_iff t m v found =
    (collect_sound t m v found, λ h. collect_complete t m v found h.0 h.1)
