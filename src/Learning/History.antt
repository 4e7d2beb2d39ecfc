-- ===== src/Learning/History.antt =====
-- The commands on items of apps/api/src/learning/learning.service.ts keep the history of revisions.
use edupay_academico.Prelude.{
  ℕ, ◌≡◌, ◌≢◌, refl, ap, Bool, Option, List, Text, Result, ok, err, ◌>>=◌, require, require_some,
  arith, Bool-cases, inl, inr,
}
use edupay_academico.Access.{Outcome, pass, deny}
use edupay_academico.Submissions.Query.{Academic}
use edupay_academico.Preparation.{YearStatus}
use edupay_academico.Learning.{
  LearningItem, State, Refusal, unique_violation, Operation, RequestContext, of_outcome,
  manager_scope, require_course_subject_for_mutation, require_course_subject_read,
  require_academic_year_mutable, read_as_teacher, read_as_student, CourseSubjectStatus,
}
use edupay_academico.Learning.Writes.{
  is_item, fits, update_recorded, update_versioned, update_item_row, apply_versioned_item_update,
}
use edupay_academico.Learning.Commands.{School, require_item, notify_published, is_material}
use edupay_academico.Learning.Stale.{
  KeepsKey, update_item_row-eq-ok, apply_versioned_item_update-eq-ok,
}
use edupay_academico.Learning.Chronicle.{
  Settles, bind-Settles, require-Settles, require_some-Settles, Chronicled, revision_of-Settles,
  if-Settles, settled, refused, denied_apart, not_found_apart, conflict_apart, stale_revision_apart,
}

abbrev pub Sound : {A : Type 0} → Result Refusal A → Type 0
Sound = Settles (λ _. Unit {0})

is_sound : {A : Type 0} {P : A → Type 0} {r : Result Refusal A} → Settles P r → Sound r
is_sound (settled h) = settled tt
is_sound (refused n) = refused n

test : (e : Refusal) (b : Bool) → e ≢ unique_violation → Sound (require e b)
test e b n = is_sound (require-Settles e b n)

bind-Sound :
    {A B : Type 0} (m : Result Refusal A) (f : A → Result Refusal B)
    → Sound m
    → ((a : A) → Sound (f a))
    → Sound (m >>= f)
bind-Sound (ok a) f h k = k a
bind-Sound (err e) f (refused n) k = refused n

found : {A : Type 0} (e : Refusal) (o : Option A) → e ≢ unique_violation → Sound (require_some e o)
found e o n = is_sound (require_some-Settles e o n)

done : {A : Type 0} (a : A) → Sound (ok a)
done a = settled tt

of_outcome-Settles : (o : Outcome (Unit {0})) → Sound (of_outcome o)
of_outcome-Settles (pass u) = settled tt
of_outcome-Settles (deny r) = refused denied_apart

require_academic_year_mutable-Settles : (y : YearStatus) → Sound (require_academic_year_mutable y)
unfolding require_academic_year_mutable
require_academic_year_mutable-Settles YearStatus.closed = refused conflict_apart
require_academic_year_mutable-Settles YearStatus.archived = refused conflict_apart
require_academic_year_mutable-Settles YearStatus.draft = settled tt
require_academic_year_mutable-Settles YearStatus.active = settled tt

ruleset settling = (
  bind-Sound, if-Settles, test, found, done, of_outcome-Settles,
  require_academic_year_mutable-Settles, refused, denied_apart, not_found_apart, conflict_apart,
)

require_course_subject_read-Settles :
    (a : Academic) (c : RequestContext) (t : Text) (id : ℕ)
    → Sound (require_course_subject_read a c t id)
unfolding require_course_subject_read read_as_teacher read_as_student
require_course_subject_read-Settles a c t id = search settling depth 8

pub require_course_subject_for_mutation-Settles :
    (a : Academic) (c : RequestContext) (t : Text) (id : ℕ) (subjects : List CourseSubjectStatus)
    → Sound (require_course_subject_for_mutation a c t id subjects)
unfolding require_course_subject_for_mutation
require_course_subject_for_mutation-Settles a c t id subjects =
    search (settling, require_course_subject_read-Settles) depth 10

pub manager_scope-Settles : (c : RequestContext) → Sound (manager_scope c)
unfolding manager_scope
manager_scope-Settles c = search settling

pub require_item-Settles :
    {C : Type 0} (school : School) (c : RequestContext) (id : ℕ) (s : State C)
    → Sound (require_item school c id s)
unfolding require_item
require_item-Settles school c id s =
    search (settling, require_course_subject_for_mutation-Settles, manager_scope-Settles) depth 8

self-Settles : {A : Type 0} (r : Result Refusal A) → Sound r → Settles (λ a. r ≡ ok a) r
self-Settles (ok a) h = settled refl
self-Settles (err e) (refused n) = refused n

module _ {C : Type 0} where
  update_item_row-Settles :
      (t : Text) (id : ℕ) (change : LearningItem C → LearningItem C) (s : State C)
      → Sound (update_item_row t id change s)
  unfolding update_item_row
  update_item_row-Settles t id change s = search settling

  -- With the equation of its result
  pub update_item_row_self :
      (t : Text) (id : ℕ) (change : LearningItem C → LearningItem C) (s : State C)
      → Settles (λ u. update_item_row t id change s ≡ ok u) (update_item_row t id change s)
  update_item_row_self t id change s =
      self-Settles (update_item_row t id change s) (update_item_row-Settles t id change s)

  apply_versioned_item_update-Settles :
      (t : Text) (id : ℕ) (e : Option ℕ) (change : LearningItem C → LearningItem C) (s : State C)
      → Sound (apply_versioned_item_update t id e change s)
  unfolding apply_versioned_item_update
  apply_versioned_item_update-Settles t id e change s = search (settling, stale_revision_apart)

  pub update_recorded-Settles :
      (o : Operation) (actor t : Text) (id : ℕ) (change : LearningItem C → LearningItem C)
      (s : State C)
      → KeepsKey change
      → Chronicled s
      → Settles (λ u. Chronicled u.1) (update_recorded o actor t id change s)
  unfolding update_recorded
  update_recorded-Settles o actor t id change s keep h =
      bind-Settles (update_item_row_self t id change s) λ u e.
        let (i, there, u_eq, s_eq) = update_item_row-eq-ok t id change s e in
        bind-Settles
          (revision_of-Settles change keep t id (is_item t id) (λ y k. k) o actor i u.0 s u.1 there
            u_eq (ap State.items s_eq) (ap State.revisions s_eq) h)
          (λ s' k. settled k)

  pub update_versioned-Settles :
      (o : Operation) (actor t : Text) (id : ℕ) (expected : Option ℕ)
      (change : LearningItem C → LearningItem C) (s : State C)
      → KeepsKey change
      → Chronicled s
      → Settles (λ u. Chronicled u.1) (update_versioned o actor t id expected change s)
  unfolding update_versioned
  update_versioned-Settles o actor t id expected change s keep h =
      bind-Settles
        (self-Settles (apply_versioned_item_update t id expected change s)
          (apply_versioned_item_update-Settles t id expected change s))
        λ u e.
          let (i, there, u_eq, s_eq) = apply_versioned_item_update-eq-ok t id expected change s e in
          bind-Settles
            (revision_of-Settles change keep t id (fits t id expected) (λ y k. ground arith) o actor
              i u.0 s u.1 there u_eq (ap State.items s_eq) (ap State.revisions s_eq) h)
            (λ s' k. settled k)

  pub notify_published-keeps :
      (school : School) (c : RequestContext) (meanwhile : State C → State C) (now : ℕ)
      (i : LearningItem C) (s : State C)
      → ((notify_published school c meanwhile now i s).items ≡ s.items)
        × ((notify_published school c meanwhile now i s).revisions ≡ s.revisions)
  unfolding notify_published
  notify_published-keeps school c meanwhile now i s = elim (Bool-cases (is_material i.type)) [
    | inl t ↦ rw t (refl, refl)
    | inr f ↦ rw f (refl, refl)
  ]

  pub keeping : KeepsKey {C = C} (λ i. i)
  keeping = record { tenant_id = λ i. refl; id = λ i. refl }
