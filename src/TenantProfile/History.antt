-- ===== src/TenantProfile/History.antt =====
-- `update` of apps/api/src/tenant-profile/tenant-operational-profile.service.ts implements its
-- specification.
use edupay_academico.Prelude.{
  ℕ, ◌+◌, ◌≤◌, ◌≡◌, refl, ◌∙◌, ap, subst, true, false, Option, List, ◌∷◌, All-imp, Text, text_eq,
  text_eq_iff, text_eq_refl, ◌==◌, ==_iff, any, length, ok, arith, Bool-cases, inl, inr,
  if◌then◌else◌,
}
use edupay_academico.Prelude.Keys.{any-false}
use edupay_academico.TenantProfile.{
  Profile, ProfileRevision, Profiles, UpdateProfile, is_profile_revision, version_of, or_current,
  canonical_zone, save_profile, record_profile_revision, next_profile, revision_of_profile,
  update_profile,
}
use edupay_academico.TenantProfile.Log.{
  Content, Implements, IsRecorded, commit_content, content_of, current, find-save_profile,
  find-save_profile_other, is_revision_of, latest, log_of,
}

-- The number of the next revision is free.
is_profile_revision-next :
    (t : Text) (n : ℕ) (r : ProfileRevision)
    → (is_revision_of t r ≡ true → r.version ≤ n)
    → is_profile_revision t (n + 1) r ≡ false
is_profile_revision-next t n r h = elim (Bool-cases (is_profile_revision t (n + 1) r)) [
  | inr f ↦ f
  | inl same ↦
      let below : r.version ≤ n = h (ground (arith, same)) in
      let number : r.version ≡ n + 1 = (==_iff r.version (n + 1)).0 (ground (arith, same)) in
      absurd (omega arith)
]

-- What is written: the profile over the one that is there, and its revision
abbrev written : (actor : Text) → Profile → Profiles → Profiles
written actor saved s = record {
  profiles = save_profile (current saved.tenant_id s) saved s.profiles;
  revisions = revision_of_profile actor saved ∷ s.revisions;
}

log_of-written :
    (actor : Text) (saved : Profile) (s : Profiles)
    → log_of saved.tenant_id (written actor saved s)
      ≡ content_of (revision_of_profile actor saved) ∷ log_of saved.tenant_id s
log_of-written actor saved s = rw (text_eq_refl saved.tenant_id) refl

written-IsRecorded :
    (actor : Text) (saved : Profile) (s : Profiles)
    → saved.version ≡ length (log_of saved.tenant_id s) + 1
    → IsRecorded saved.tenant_id s
    → IsRecorded saved.tenant_id (written actor saved s)
written-IsRecorded actor saved s number h =
    let found = find-save_profile saved s.profiles in
    let log = log_of-written actor saved s in
    let more : length (log_of saved.tenant_id (written actor saved s))
        ≡ length (log_of saved.tenant_id s) + 1 =
      rw log (omega arith) in
    record {
      count = rw (found, log) (omega (arith, number));
      name = rw (found, log) refl;
      zone = rw (found, log) refl;
      below = (
        (λ _. omega (arith, number, more)),
        All-imp (λ r k e. omega (arith, more, k e)) s.revisions h.below,
      );
    }

written-other :
    (actor : Text) (saved : Profile) (s : Profiles) (t : Text)
    → text_eq saved.tenant_id t ≡ false
    → IsRecorded t s
    → (log_of t (written actor saved s) ≡ log_of t s) × IsRecorded t (written actor saved s)
written-other actor saved s t n h =
    let log : log_of t (written actor saved s) ≡ log_of t s = rw n refl in
    let same = find-save_profile_other t (current saved.tenant_id s) saved s.profiles n in
    (
      log,
      record {
        count = rw (same, log) h.count;
        name = rw (same, log) h.name;
        zone = rw (same, log) h.zone;
        below = ((λ e. cc), All-imp (λ r k e. rw log (k e)) s.revisions h.below);
      },
    )

-- Where the tables hold the log of every tenant and the platform knows the time zone of the request,
-- the update of a tenant's profile answers as the specification does on the tenant's log: a conflict
-- where the request has not seen the whole log; otherwise tables that hold the log with the new
-- content, that content as the profile, and the logs of all other tenants as they were.
pub update_profile-Implements :
    (canonical : Text → Option Text) (t actor : Text) (input : UpdateProfile)
    (zone : Option (Option Text)) (s : Profiles)
    → canonical_zone canonical input.time_zone ≡ ok zone
    → ((t' : Text) → IsRecorded t' s)
    → Implements t s
        (commit_content input zone (log_of t s))
        (update_profile canonical t actor input s)
unfolding update_profile record_profile_revision
update_profile-Implements canonical t actor input zone s known h =
    elim (Bool-cases (length (log_of t s) == input.expected_version)) [
      | inr n ↦ rw (known, (h t).count, n) refl
      | inl y ↦
          let fits : (version_of (current t s) == input.expected_version) ≡ true =
            rw (h t).count y in
          rw (known, fits, y, free)
            (saved, written actor saved s, refl, find-save_profile saved s.profiles, logs)
    ]
  where
    committed : List Content
    committed =
        record {
          name = or_current input.institution_display_name (latest (log_of t s)).name;
          zone = or_current zone (latest (log_of t s)).zone;
        }
        ∷ log_of t s

    saved : Profile
    saved = next_profile t actor input zone (current t s)

    log : log_of t (written actor saved s) ≡ committed
    log = log_of-written actor saved s ∙ rw ((h t).name, (h t).zone) refl

    logs :
        (t' : Text)
        → (log_of t' (written actor saved s) ≡ (if text_eq t t' then committed else log_of t' s))
          × IsRecorded t' (written actor saved s)
    logs t' = elim (Bool-cases (text_eq t t')) [
      | inr n ↦
          let (same, held) = written-other actor saved s t' n (h t') in (same ∙ rw n refl, held)
      | inl y ↦
          subst
            (λ u.
              (log_of u (written actor saved s) ≡ (if text_eq t u then committed else log_of u s))
              × IsRecorded u (written actor saved s))
            ((text_eq_iff t t').0 y)
            (
              log ∙ rw (text_eq_refl t) refl,
              written-IsRecorded actor saved s (ap (λ n. n + 1) (h t).count) (h t),
            )
    ]

    free : any (is_profile_revision t (version_of (current t s) + 1)) s.revisions ≡ false
    free = rw ((h t).count) (
        any-false (is_profile_revision t (length (log_of t s) + 1)) s.revisions
          (All-imp (is_profile_revision-next t (length (log_of t s))) s.revisions (h t).below))
