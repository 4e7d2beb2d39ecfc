-- ===== src/Die/Support.antt =====
-- The episodes of support of a student: `startSupport` and `finishSupport` of
-- apps/api/src/die/die.service.ts. Dates are days.
use edupay_academico.Prelude.{
  ℕ, Bool, not, Option, none, some, ◌∷◌, Text, text_eq, ◌&&◌, ◌||◌, ◌==◌, ltb, find, any, Result,
  ok, ◌>>=◌, ◌>>◌, require, require_some, update_first,
}
use edupay_academico.Learning.{RequestContext}
use edupay_academico.Die.{
  AcademicSnapshot, SupportEpisode, Student, Enrollment, School, State, Refusal, not_found,
  conflict, bad_request, unique_violation, is_absent, is_episode,
}
use edupay_academico.Die.Actor.{Identity, require_access, active_member}
use edupay_academico.Die.Duties.{as_conflict}

abbrev pub is_student : Text → ℕ → Student → Bool
is_student tenant_id id s = text_eq s.tenant_id tenant_id && s.id == id

abbrev pub is_enrollment_of : Text → ℕ → Enrollment → Bool
is_enrollment_of tenant_id student_id e =
    text_eq e.tenant_id tenant_id && e.student_id == student_id && e.is_active

abbrev pub snapshot_of : Option Enrollment → AcademicSnapshot
snapshot_of none = record {
  academic_year_id = none;
  course_id = none;
  academic_year_label = none;
  course_label = none;
}
snapshot_of (some e) = e.academic

-- Where the student is enrolled as this is written down
unfoldable pub capture_academic_context : School → Text → ℕ → AcademicSnapshot
capture_academic_context school tenant_id student_id =
    snapshot_of (find (is_enrollment_of tenant_id student_id) school.enrollments)

abbrev pub is_active_episode : Text → ℕ → SupportEpisode → Bool
is_active_episode tenant_id student_id e =
    text_eq e.tenant_id tenant_id && e.student_id == student_id && is_absent e.ended_at

-- An episode that has an end, and the condition under which one is ended
abbrev pub is_unfinished : Text → ℕ → SupportEpisode → Bool
is_unfinished tenant_id id e = is_episode tenant_id id e && is_absent e.ended_at

abbrev pub finish : ℕ → (reason actor : Text) → SupportEpisode → SupportEpisode
finish end_date reason actor e = record e {
  ended_at = some end_date;
  end_reason = some reason;
  ended_by = some actor;
}

-- The row of a new episode
abbrev pub new_episode :
    RequestContext
    → School
    → (new_id student_id start_date : ℕ) → (reason : Text) → (responsible : Option ℕ)
    → SupportEpisode
new_episode c school new_id student_id start_date reason responsible = record {
  tenant_id = c.tenant.tenant_id;
  id = new_id;
  student_id = student_id;
  start_date = start_date;
  reason = reason;
  responsible = responsible;
  academic = capture_academic_context school c.tenant.tenant_id student_id;
  created_by = c.principal.identity_user_id;
  ended_at = none;
  end_reason = none;
  ended_by = none;
}

module _ {C : Type 0} where
  -- The student has one active episode at most.
  unfoldable pub create_episode : SupportEpisode → State C → Result Refusal (State C)
  create_episode new s = do
    require unique_violation (
        not (
          any
            (λ e.
              is_episode new.tenant_id new.id e || is_active_episode new.tenant_id new.student_id e)
            s.episodes))
    ok (record s { episodes = new ∷ s.episodes })

  -- The one who is responsible, where one is named, is a member.
  unfoldable pub require_responsible : Text → Option ℕ → State C → Result Refusal (Unit {0})
  unfolding active_member
  require_responsible tenant_id none s = ok tt
  require_responsible tenant_id (some id) s = do m ← active_member tenant_id id s.members; ok tt

module _ {C : Type 0} (identity : Identity) (c : RequestContext)
    (meanwhile : State C → State C) where
  unfoldable pub start_support :
      School
      → (new_id student_id start_date : ℕ) → (reason : Text) → (responsible : Option ℕ) → State C
      → Result Refusal (State C)
  unfolding require_access require_responsible create_episode
  start_support school new_id student_id start_date reason responsible s = do
    access ← require_access identity c s
    student ←
        require_some not_found (find (is_student c.tenant.tenant_id student_id) school.students)
    require not_found student.is_active
    as_conflict (
        require_responsible c.tenant.tenant_id responsible (meanwhile s) >>= λ _.
        create_episode (new_episode c school new_id student_id start_date reason responsible)
          (meanwhile s))

  unfoldable pub finish_support :
      (id end_date : ℕ) → (reason : Text) → State C → Result Refusal (State C)
  unfolding require_access
  finish_support id end_date reason s = do
    access ← require_access identity c s
    e ← require_some not_found (find (is_episode c.tenant.tenant_id id) s.episodes)
    require conflict (is_absent e.ended_at)
    require bad_request (not (ltb end_date e.start_date))
    changed ←
        require_some conflict (find (is_unfinished c.tenant.tenant_id e.id) (meanwhile s).episodes)
    ok (record (meanwhile s) {
      episodes =
          update_first (is_unfinished c.tenant.tenant_id e.id)
            (finish end_date reason c.principal.identity_user_id) (meanwhile s).episodes;
    })
