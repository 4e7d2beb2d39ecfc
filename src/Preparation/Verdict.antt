-- ===== src/Preparation/Verdict.antt =====
-- When the evaluation of apps/api/src/academic/academic-preparation.ts says ready and when blocked.
use edupay_academico.Prelude.{
  ℕ, ◌≤◌, ◌<◌, ◌≡◌, ◌↔◌, Bool, true, Option, List, [], ◌∷◌, length, filter, arith,
}
use edupay_academico.Preparation.{
  evaluate_academic_preparation, check_years, check_courses, select_year, overall, CourseCounts,
  active_count, Year, is_active_year, blocked, is_ready,
}

length-filter_le : {A : Type 0} (p : A → Bool) (xs : List A) → length (filter p xs) ≤ length xs
length-filter_le p [] = omega arith
length-filter_le p (x ∷ xs) = ground (arith, length-filter_le p xs)

-- The two checks together, by the numbers of years and of active courses.
ready_of_checks :
    (total drafts : ℕ) (act : List Year) (counts : Option CourseCounts)
    → length act ≤ total
    → (is_ready (
          overall
            (check_years total (length act) drafts ∷ check_courses (select_year act) counts ∷ []))
        ≡ true)
      ↔ ((length act ≡ 1) × (0 < active_count counts))
unfolding overall check_years check_courses select_year
ready_of_checks total drafts [] counts le = ground arith
ready_of_checks total drafts (y ∷ []) counts le = ground arith
ready_of_checks total drafts (y ∷ z ∷ act) counts le = ground arith

-- The academic base is ready exactly when there is one active year and it has an active course.
pub evaluate-ready_iff :
    (counts : Option CourseCounts) (at : ℕ) (years : List Year)
    → ((evaluate_academic_preparation counts at years).ready ≡ true)
      ↔ ((length (filter is_active_year years) ≡ 1) × (0 < active_count counts))
unfolding evaluate_academic_preparation
evaluate-ready_iff counts at years =
    ready_of_checks (length years) _ (filter is_active_year years) counts
      (length-filter_le is_active_year years)

blocked_of_checks :
    (total drafts : ℕ) (act : List Year) (counts : Option CourseCounts)
    → length act ≤ total
    → (overall (check_years total (length act) drafts ∷ check_courses (select_year act) counts ∷ [])
        ≡ blocked)
      ↔ (1 < length act)
unfolding overall check_years check_courses select_year
blocked_of_checks total drafts [] counts le = ground arith
blocked_of_checks total drafts (y ∷ []) counts le = ground arith
blocked_of_checks total drafts (y ∷ z ∷ act) counts le = ground arith

-- It is blocked exactly when several years are active.
pub evaluate-blocked_iff :
    (counts : Option CourseCounts) (at : ℕ) (years : List Year)
    → ((evaluate_academic_preparation counts at years).status ≡ blocked)
      ↔ (1 < length (filter is_active_year years))
unfolding evaluate_academic_preparation
evaluate-blocked_iff counts at years =
    blocked_of_checks (length years) _ (filter is_active_year years) counts
      (length-filter_le is_active_year years)
