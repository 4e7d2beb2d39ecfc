-- ===== src/TenantProfile/Log.antt =====
-- The log of contents of a tenant's profile, the specification of `update` of
-- apps/api/src/tenant-profile/tenant-operational-profile.service.ts, and how the tables hold it.
use edupay_academico.Prelude.{
  ◌≤◌, ◌≡◌, refl, Bool, true, false, Option, none, some, List, [], ◌∷◌, map, All, Text, text_eq,
  text_eq_iff, text_eq_refl, ◌==◌, find, filter, length, Result, ok, err, update_first, Bool-cases,
  Option-cases, inl, inr, if◌then◌else◌,
}
use edupay_academico.TenantProfile.{
  Profile, ProfileRevision, Profiles, ProfileError, conflict, UpdateProfile, is_profile, version_of,
  name_of, zone_of, or_current, save_profile,
}

pub record Content : Type 0 where
  pub name : Option Text
  pub zone : Option Text

abbrev pub latest : List Content → Content
latest [] = record { name = none; zone = none }
latest (c ∷ cs) = c

-- The specification: a request that has seen the whole log adds to it.
abbrev pub commit_content :
    UpdateProfile → Option (Option Text) → List Content → Option (List Content)
commit_content input zone log =
    if length log == input.expected_version
    then some (
        record {
          name = or_current input.institution_display_name (latest log).name;
          zone = or_current zone (latest log).zone;
        }
        ∷ log)
    else none

abbrev pub content_of : ProfileRevision → Content
content_of r = record { name = r.institution_display_name; zone = r.time_zone }

abbrev pub is_revision_of : Text → ProfileRevision → Bool
is_revision_of t r = text_eq r.tenant_id t

abbrev pub log_of : Text → Profiles → List Content
log_of t s = map content_of (filter (is_revision_of t) s.revisions)

abbrev pub current : Text → Profiles → Option Profile
current t s = find (is_profile t) s.profiles

-- The tables hold the log: the profile is its last content, the version its length.
pub record IsRecorded (t : Text) (s : Profiles) : Type 0 where
  pub count : version_of (current t s) ≡ length (log_of t s)
  pub name : name_of (current t s) ≡ (latest (log_of t s)).name
  pub zone : zone_of (current t s) ≡ (latest (log_of t s)).zone
  pub below : All (λ r. is_revision_of t r ≡ true → r.version ≤ length (log_of t s)) s.revisions

-- The answer that the specification asks for: a conflict, or tables that hold the new log and the old
-- logs of the other tenants.
abbrev pub Implements :
    Text → Profiles → Option (List Content) → Result ProfileError (Profile × Profiles) → Type 0
Implements t s none r = r ≡ err conflict
Implements t s (some log) r =
    (p : Profile) × (s' : Profiles) × (r ≡ ok (p, s'))
    × (current t s' ≡ some p)
    × ((t' : Text)
        → (log_of t' s' ≡ (if text_eq t t' then log else log_of t' s)) × IsRecorded t' s')

module _ {A : Type 0} (p : A → Bool) (new : A) where
  find-replace :
      (xs : List A) (x : A)
      → p new ≡ true
      → find p xs ≡ some x
      → find p (update_first p (λ _. new) xs) ≡ some new
  find-replace [] x h e = cc
  find-replace (y ∷ xs) x h e = elim (Bool-cases (p y)) [
    | inl k ↦ rw (k, h) refl
    | inr n ↦ rw (n, n) (find-replace xs x h (rw n at e))
  ]

  find-replace_other :
      (q : A → Bool) (xs : List A)
      → ((y : A) → p y ≡ true → q y ≡ false)
      → q new ≡ false
      → find q (update_first p (λ _. new) xs) ≡ find q xs
  find-replace_other q [] apart h = refl
  find-replace_other q (y ∷ xs) apart h = elim (Bool-cases (p y)) [
    | inl k ↦ rw (k, h, apart y k) refl
    | inr n ↦ rw (n, find-replace_other q xs apart h) refl
  ]

-- The saved row is the tenant's profile, and no other tenant's.
pub find-save_profile :
    (saved : Profile) (profiles : List Profile)
    → find
        (is_profile saved.tenant_id)
        (save_profile (find (is_profile saved.tenant_id) profiles) saved profiles)
      ≡ some saved
find-save_profile saved profiles =
    elim (Option-cases (find (is_profile saved.tenant_id) profiles)) [
      | inl n ↦ rw (n, text_eq_refl saved.tenant_id) refl
      | inr (p, h) ↦ rw h (
          find-replace (is_profile saved.tenant_id) saved profiles p (text_eq_refl saved.tenant_id)
            h)
    ]

pub find-save_profile_other :
    (t : Text) (o : Option Profile) (saved : Profile) (profiles : List Profile)
    → text_eq saved.tenant_id t ≡ false
    → find (is_profile t) (save_profile o saved profiles) ≡ find (is_profile t) profiles
find-save_profile_other t none saved profiles n = rw n refl
find-save_profile_other t (some p) saved profiles n =
    find-replace_other (is_profile saved.tenant_id) saved (is_profile t) profiles
      (λ y k. rw ((text_eq_iff y.tenant_id saved.tenant_id).0 k, n) refl) n
