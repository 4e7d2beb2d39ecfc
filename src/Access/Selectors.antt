-- ===== src/Access/Selectors.antt =====
-- apps/api/src/tenant/tenant-context.guard.ts: what a client says of tenant and membership.
-- Parameters, query and body are JSON trees: no value contains itself, so that the set of visited
-- objects has no effect.
use edupay_academico.Prelude.{
  ℕ, Bool, true, false, not, Option, none, some, List, [], ◌∷◌, ◌||◌, any, Text, text_eq,
  if◌then◌else◌,
}

mutual
  pub data Value : Type 0 where
    undefined null : Value
    bool : Bool → Value
    num : ℕ → Value
    str : Text → Value
    arr : Values → Value
    obj : Fields → Value

  pub data Values : Type 0 where
    nil : Values
    cons : Value → Values → Values

  pub data Fields : Type 0 where
    end : Fields
    field : (key : Text) → Value → Fields → Fields

-- "tenantId", "tenant_id", "membershipId" and "membership_id"
abbrev pub tenant_id_key : Text
tenant_id_key = 116 ∷ 101 ∷ 110 ∷ 97 ∷ 110 ∷ 116 ∷ 73 ∷ 100 ∷ []

abbrev pub tenant_id_snake_key : Text
tenant_id_snake_key = 116 ∷ 101 ∷ 110 ∷ 97 ∷ 110 ∷ 116 ∷ 95 ∷ 105 ∷ 100 ∷ []

abbrev pub membership_id_key : Text
membership_id_key = 109 ∷ 101 ∷ 109 ∷ 98 ∷ 101 ∷ 114 ∷ 115 ∷ 104 ∷ 105 ∷ 112 ∷ 73 ∷ 100 ∷ []

abbrev pub membership_id_snake_key : Text
membership_id_snake_key =
    109 ∷ 101 ∷ 109 ∷ 98 ∷ 101 ∷ 114 ∷ 115 ∷ 104 ∷ 105 ∷ 112 ∷ 95 ∷ 105 ∷ 100 ∷ []

pub is_tenant_key : Text → Bool
is_tenant_key key = text_eq key tenant_id_key || text_eq key tenant_id_snake_key

pub is_membership_key : Text → Bool
is_membership_key key = text_eq key membership_id_key || text_eq key membership_id_snake_key

-- The two arrays that the walk appends to; here the last value found comes first.
pub record Collected : Type 0 where
  pub tenant_selectors : List Value
  pub membership_selectors : List Value

unfoldable pub push_selector : Text → Value → Collected → Collected
unfolding is_tenant_key is_membership_key
push_selector key item found =
    if is_tenant_key key
    then record found { tenant_selectors = item ∷ found.tenant_selectors }
    else if is_membership_key key
    then record found { membership_selectors = item ∷ found.membership_selectors }
    else found

unfoldable mutual
  pub collect_selectors : Value → Collected → Collected
  collect_selectors undefined found = found
  collect_selectors null found = found
  collect_selectors (bool b) found = found
  collect_selectors (num n) found = found
  collect_selectors (str t) found = found
  collect_selectors (arr items) found = collect_items items found
  collect_selectors (obj fields) found = collect_fields fields found

  pub collect_items : Values → Collected → Collected
  collect_items nil found = found
  collect_items (cons item items) found = collect_items items (collect_selectors item found)

  pub collect_fields : Fields → Collected → Collected
  collect_fields end found = found
  collect_fields (field key item fields) found =
      collect_fields fields (collect_selectors item (push_selector key item found))

-- `item !== trustedValue`
abbrev pub differs : Text → Value → Bool
differs trusted (str t) = not (text_eq t trusted)
differs trusted undefined = true
differs trusted null = true
differs trusted (bool b) = true
differs trusted (num n) = true
differs trusted (arr items) = true
differs trusted (obj fields) = true

abbrev pub any_differs : Text → Values → Bool
any_differs trusted nil = false
any_differs trusted (cons item items) = differs trusted item || any_differs trusted items

abbrev pub conflicts : Text → Value → Bool
conflicts trusted undefined = false
conflicts trusted (arr items) = any_differs trusted items
conflicts trusted null = true
conflicts trusted (bool b) = true
conflicts trusted (num n) = true
conflicts trusted (str t) = not (text_eq t trusted)
conflicts trusted (obj fields) = true

abbrev pub has_conflict : List Value → Text → Bool
has_conflict values trusted = any (conflicts trusted) values

-- `request.header(name)`
abbrev pub header_value : Option Text → Value
header_value none = undefined
header_value (some t) = str t
