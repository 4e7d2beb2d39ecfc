-- ===== src/TenantProfile/Examples.antt =====
-- Tests of the tenant's profile, and its theorem for a tenant that names itself.
use edupay_academico.Prelude.{
  ◌≡◌, refl, Option, none, some, [], ◌∷◌, Text, text_eq, ok, err, arith, Bool-cases, inl, inr,
}
use edupay_academico.TenantProfile.{
  Profile, ProfileRevision, Profiles, conflict, invalid_time_zone, UpdateProfile, canonical_zone,
  update_profile,
}
use edupay_academico.TenantProfile.Log.{IsRecorded, Implements, commit_content, log_of}
use edupay_academico.TenantProfile.History.{update_profile-Implements}

abbrev profile : Profile
profile = record {
  tenant_id = b't' ∷ [];
  institution_display_name = some (b'a' ∷ []);
  time_zone = none;
  version = 1;
  updated_by = b'u' ∷ [];
}

abbrev first_version : ProfileRevision
first_version = record {
  tenant_id = b't' ∷ [];
  version = 1;
  institution_display_name = some (b'a' ∷ []);
  time_zone = none;
  actor = b'u' ∷ [];
}

abbrev tables : Profiles
tables = record { profiles = profile ∷ []; revisions = first_version ∷ [] }

-- The request for a time zone by someone who has seen the first version
abbrev request : UpdateProfile
request = record {
  institution_display_name = none;
  time_zone = some (some (b'z' ∷ []));
  expected_version = 1;
}

abbrev canonical : Text → Option Text
canonical t = some t

known : canonical_zone canonical request.time_zone ≡ ok (some (some (b'z' ∷ [])))
unfolding canonical_zone
known = refl

unknown : canonical_zone (λ _. none) request.time_zone ≡ err invalid_time_zone
unfolding canonical_zone
unknown = refl

stale_request :
    update_profile canonical
      (b't' ∷ [])
      (b'u' ∷ [])
      (record request { expected_version = 0 })
      tables
    ≡ err conflict
unfolding update_profile canonical_zone
stale_request = refl

tables-IsRecorded : (t : Text) → IsRecorded t tables
tables-IsRecorded t = elim (Bool-cases (text_eq (b't' ∷ []) t)) [
  | inl y ↦ record {
    count = rw y refl;
    name = rw y refl;
    zone = rw y refl;
    below = ((λ _. rw y (omega arith)), tt);
  }
  | inr n ↦ record {
    count = rw n refl;
    name = rw n refl;
    zone = rw n refl;
    below = ((λ k. absurd cc), tt);
  }
]

update_profile-Implements_example :
    Implements
      (b't' ∷ [])
      tables
      (commit_content request (some (some (b'z' ∷ []))) (log_of (b't' ∷ []) tables))
      (update_profile canonical (b't' ∷ []) (b'u' ∷ []) request tables)
update_profile-Implements_example =
    update_profile-Implements canonical (b't' ∷ []) (b'u' ∷ []) request (some (some (b'z' ∷ [])))
      tables known tables-IsRecorded
