-- ===== src/TenantProfile.antt =====
-- The tenant's operational profile and its revisions:
-- apps/api/src/tenant-profile/tenant-operational-profile.service.ts. `canonical` is the time zone that
-- the platform (Intl) makes of a name, if it knows it. The membership and the request of the actor are left
-- out of the revisions.
pub mod Log
pub mod History
mod Examples
use edupay_academico.Prelude.{
  ℕ, ◌+◌, Bool, true, false, not, Option, none, some, List, [], ◌∷◌, Text, text_eq, is_empty, ◌&&◌,
  ◌==◌, find, any, Result, ok, err, ◌>>=◌, ◌>>◌, require, require_some, update_first,
}

pub record Profile : Type 0 where
  pub tenant_id : Text
  pub institution_display_name : Option Text
  pub time_zone : Option Text
  pub version : ℕ
  pub updated_by : Text

pub record ProfileRevision : Type 0 where
  pub tenant_id : Text
  pub version : ℕ
  pub institution_display_name : Option Text
  pub time_zone : Option Text
  pub actor : Text

pub record Profiles : Type 0 where
  pub profiles : List Profile
  pub revisions : List ProfileRevision

pub data ProfileError : Type 0 where
  conflict invalid_time_zone time_zone_required unique_violation : ProfileError

-- What is left out of a request is `none`; the inner `none` is an explicit null.
pub record UpdateProfile : Type 0 where
  pub institution_display_name : Option (Option Text)
  pub time_zone : Option (Option Text)
  pub expected_version : ℕ

abbrev pub is_profile : Text → Profile → Bool
is_profile tenant_id p = text_eq p.tenant_id tenant_id

abbrev pub is_profile_revision : Text → ℕ → ProfileRevision → Bool
is_profile_revision tenant_id version r = text_eq r.tenant_id tenant_id && r.version == version

abbrev pub version_of : Option Profile → ℕ
version_of none = 0
version_of (some p) = p.version

abbrev pub name_of : Option Profile → Option Text
name_of none = none
name_of (some p) = p.institution_display_name

abbrev pub zone_of : Option Profile → Option Text
zone_of none = none
zone_of (some p) = p.time_zone

-- `value === undefined ? old : value`
abbrev pub or_current : {A : Type 0} → Option A → A → A
or_current none old = old
or_current (some new) old = new

-- The name of the zone in the request, made canonical
unfoldable pub canonical_zone :
    (canonical : Text → Option Text)
    → Option (Option Text)
    → Result ProfileError (Option (Option Text))
canonical_zone canonical none = ok none
canonical_zone canonical (some none) = ok (some none)
canonical_zone canonical (some (some zone)) = do
  z ← require_some invalid_time_zone (canonical zone)
  ok (some (some z))

-- The row is written over the one that is there, if any.
abbrev pub save_profile : Option Profile → Profile → List Profile → List Profile
save_profile none saved profiles = saved ∷ profiles
save_profile (some p) saved profiles =
    update_first (is_profile saved.tenant_id) (λ _. saved) profiles

unfoldable pub record_profile_revision : ProfileRevision → Profiles → Result ProfileError Profiles
record_profile_revision r s = do
  require unique_violation (not (any (is_profile_revision r.tenant_id r.version) s.revisions))
  ok (record s { revisions = r ∷ s.revisions })

-- `P2002` and `P2034` are answered as a conflict.
abbrev pub as_profile_conflict : {A : Type 0} → Result ProfileError A → Result ProfileError A
as_profile_conflict (ok a) = ok a
as_profile_conflict (err unique_violation) = err conflict
as_profile_conflict (err e) = err e

-- The profile that an accepted request makes of the current one
abbrev pub next_profile :
    (tenant_id actor : Text)
    → (input : UpdateProfile) → (zone : Option (Option Text)) → Option Profile
    → Profile
next_profile tenant_id actor input zone current = record {
  tenant_id = tenant_id;
  institution_display_name = or_current input.institution_display_name (name_of current);
  time_zone = or_current zone (zone_of current);
  version = version_of current + 1;
  updated_by = actor;
}

abbrev pub revision_of_profile : Text → Profile → ProfileRevision
revision_of_profile actor p = record {
  tenant_id = p.tenant_id;
  version = p.version;
  institution_display_name = p.institution_display_name;
  time_zone = p.time_zone;
  actor = actor;
}

unfoldable pub update_profile :
    (canonical : Text → Option Text)
    → (tenant_id actor : Text) → UpdateProfile
    → Profiles
    → Result ProfileError (Profile × Profiles)
unfolding canonical_zone record_profile_revision
update_profile canonical tenant_id actor input s = do
  zone ← canonical_zone canonical input.time_zone
  let current = find (is_profile tenant_id) s.profiles
  require conflict (version_of current == input.expected_version)
  let saved = next_profile tenant_id actor input zone current
  s' ← as_profile_conflict (
      record_profile_revision (revision_of_profile actor saved)
        (record s { profiles = save_profile current saved s.profiles }))
  ok (saved, s')

unfoldable pub configured_time_zone : Text → List Profile → Option Text
configured_time_zone tenant_id profiles = zone_of (find (is_profile tenant_id) profiles)

abbrev pub given : Option Text → Option Text
given none = none
given (some []) = none
given (some (c ∷ cs)) = some (c ∷ cs)

unfoldable pub require_time_zone : Text → List Profile → Result ProfileError Text
unfolding configured_time_zone
require_time_zone tenant_id profiles =
    require_some time_zone_required (given (configured_time_zone tenant_id profiles))
