-- ===== src/Preparation/Examples.antt =====
-- Tests of the evaluation, and its theorems for some years.
use edupay_academico.Prelude.{◌≡◌, refl, some, List, [], ◌∷◌, map}
use edupay_academico.Preparation.{
  Year, CourseCounts, active, draft, closed, evaluate_academic_preparation, select_year,
  check_years, check_courses, overall, no_active_course, one_active_year, Check,
}

abbrev years : List Year
years =
    record { id = b'a' ∷ []; status = closed }
    ∷ record { id = b'b' ∷ []; status = active }
    ∷ record { id = b'c' ∷ []; status = draft }
    ∷ []

abbrev counts : CourseCounts
counts = record { active = 0; draft = 2 }

draft_courses_only :
    map Check.message (evaluate_academic_preparation (some counts) 5 years).checks
    ≡ one_active_year ∷ no_active_course ∷ []
unfolding evaluate_academic_preparation select_year check_years check_courses overall
draft_courses_only = refl
