-- ===== src/Preparation.antt =====
-- apps/api/src/academic/academic-preparation.ts: whether a school's academic base is prepared.
-- The Spanish texts are the constructors of `Action` and `Message`, in the order of the source.
pub mod Verdict
mod Examples
use edupay_academico.Prelude.{
  ℕ, Bool, true, false, Option, none, some, List, [], ◌∷◌, Text, length, filter, any, all, ltb,
  ◌==◌, if◌then◌else◌,
}

pub data YearStatus : Type 0 where
  draft active closed archived : YearStatus

pub record Year : Type 0 where
  pub id : Text
  pub status : YearStatus

pub record CourseCounts : Type 0 where
  pub active : ℕ
  pub draft : ℕ

pub data CheckCode : Type 0 where
  academic_year courses : CheckCode

pub data CheckStatus : Type 0 where
  ready action_required blocked : CheckStatus

pub data Action : Type 0 where
  create_year activate_year resolve_active_years activate_year_first activate_course create_course :
      Action

pub data Message : Type 0 where
  no_year no_active_year no_year_to_activate several_active_years one_active_year
        courses_not_evaluated active_courses no_active_course no_course :
      Message

pub record Check : Type 0 where
  pub code : CheckCode
  pub status : CheckStatus
  pub action : Option Action
  pub message : Message

pub record AcademicPreparationStatus : Type 0 where
  pub status : CheckStatus
  pub ready : Bool
  pub evaluated_at : ℕ
  pub total_years : ℕ
  pub active_years : ℕ
  pub draft_years : ℕ
  pub selected_active_year_id : Option Text
  pub active_in_selected_year : Option ℕ
  pub draft_in_selected_year : Option ℕ
  pub checks : List Check

abbrev pub is_active_year : Year → Bool
is_active_year year = elim year.status [ active ↦ true | _ ↦ false ]

abbrev pub is_draft_year : Year → Bool
is_draft_year year = elim year.status [ draft ↦ true | _ ↦ false ]

abbrev pub is_blocked : CheckStatus → Bool
is_blocked blocked = true
is_blocked _ = false

abbrev pub is_ready : CheckStatus → Bool
is_ready ready = true
is_ready _ = false

-- `activeYears.length === 1 ? (activeYears[0]?.id ?? null) : null`
unfoldable pub select_year : List Year → Option Text
select_year (year ∷ []) = some year.id
select_year _ = none

unfoldable pub check_years : (total active drafts : ℕ) → Check
check_years total active_count drafts =
    if total == 0
    then record {
      code = academic_year;
      status = action_required;
      action = some create_year;
      message = no_year;
    }
    else if active_count == 0
    then record {
      code = academic_year;
      status = action_required;
      action = some activate_year;
      message = if drafts == 0 then no_year_to_activate else no_active_year;
    }
    else if ltb 1 active_count
    then record {
      code = academic_year;
      status = blocked;
      action = some resolve_active_years;
      message = several_active_years;
    }
    else record { code = academic_year; status = ready; action = none; message = one_active_year }

-- `courses?.active ?? 0` and `courses?.draft ?? 0`
abbrev pub active_count : Option CourseCounts → ℕ
active_count none = 0
active_count (some c) = c.active

abbrev pub draft_count : Option CourseCounts → ℕ
draft_count none = 0
draft_count (some c) = c.draft

unfoldable pub check_courses : Option Text → Option CourseCounts → Check
check_courses none counts = record {
  code = courses;
  status = action_required;
  action = some activate_year_first;
  message = courses_not_evaluated;
}
check_courses (some id) counts =
    if ltb 0 (active_count counts)
    then record { code = courses; status = ready; action = none; message = active_courses }
    else record {
      code = courses;
      status = action_required;
      action = some (if ltb 0 (draft_count counts) then activate_course else create_course);
      message = if ltb 0 (draft_count counts) then no_active_course else no_course;
    }

unfoldable pub overall : List Check → CheckStatus
overall checks =
    if any (λ c. is_blocked c.status) checks
    then blocked
    else if all (λ c. is_ready c.status) checks
    then ready
    else action_required

-- `selectedActiveYearId === null ? null : n`
abbrev pub when_selected : Option Text → ℕ → Option ℕ
when_selected none n = none
when_selected (some id) n = some n

unfoldable pub evaluate_academic_preparation :
    Option CourseCounts → ℕ → List Year → AcademicPreparationStatus
unfolding select_year check_years check_courses overall
evaluate_academic_preparation counts evaluated_at years =
    let active_years = filter is_active_year years in
    let drafts = length (filter is_draft_year years) in
    let selected = select_year active_years in
    let checks =
      check_years (length years) (length active_years) drafts
      ∷ check_courses selected counts
      ∷ [] in
    record {
      status = overall checks;
      ready = is_ready (overall checks);
      evaluated_at = evaluated_at;
      total_years = length years;
      active_years = length active_years;
      draft_years = drafts;
      selected_active_year_id = selected;
      active_in_selected_year = when_selected selected (active_count counts);
      draft_in_selected_year = when_selected selected (draft_count counts);
      checks = checks;
    }
