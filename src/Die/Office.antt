-- ===== src/Die/Office.antt =====
-- A department for the tests: two members, an episode, an action and an entry of the journal.
use edupay_academico.Prelude.{ℕ, refl, sym, none, some, [], ◌∷◌, Text, ==_iff, ok, arith}
use edupay_academico.Access.{staff, tenant_admin}
use edupay_academico.Learning.{RequestContext}
use edupay_academico.Die.{
  member, coordinator, Member, AcademicSnapshot, SupportEpisode, current, JournalEntry,
  JournalRevision, pending, Action, ActionAssignment, School, State,
}
use edupay_academico.Die.Actor.{Identity, VerifiedMembership}
use edupay_academico.Die.Staffed.{Staffed}
use edupay_academico.Die.Numbered.{Numbered}

abbrev pub admin : RequestContext
admin = record {
  principal = record {
    identity_user_id = b'u' ∷ [];
    session_id = b's' ∷ [];
    tenant_id = some (b't' ∷ []);
    membership_id = some (b'm' ∷ []);
    roles = tenant_admin ∷ [];
  };
  tenant = record {
    identity_user_id = b'u' ∷ [];
    tenant_id = b't' ∷ [];
    membership_id = b'm' ∷ [];
    roles = tenant_admin ∷ [];
    session_id = b's' ∷ [];
  };
}

abbrev verified : Text → VerifiedMembership
verified user = record {
  identity_user_id = user;
  membership_id = b'k' ∷ [];
  institutional_username = user;
  roles = staff ∷ [];
}

abbrev pub identity : Identity
identity = record {
  require_current = λ _. ok tt;
  verify = λ _ user. ok (verified user);
  resolve = λ _ username. ok (verified username);
}

abbrev pub first : Member
first = record {
  tenant_id = b't' ∷ [];
  id = 1;
  teacher_id = none;
  identity_user_id = b'v' ∷ [];
  identity_membership_id = b'k' ∷ [];
  display_label_snapshot = b'v' ∷ [];
  role = coordinator;
  added_by = b'u' ∷ [];
  removed_at = none;
  removed_by = none;
  removal_reason = none;
}

abbrev pub second : Member
second = record first { id = 2; identity_user_id = b'w' ∷ []; role = member }

abbrev no_course : AcademicSnapshot
no_course = record {
  academic_year_id = none;
  course_id = none;
  academic_year_label = none;
  course_label = none;
}

abbrev pub episode : SupportEpisode
episode = record {
  tenant_id = b't' ∷ [];
  id = 3;
  student_id = 9;
  start_date = 100;
  reason = [];
  responsible = some 1;
  academic = no_course;
  created_by = b'u' ∷ [];
  ended_at = none;
  end_reason = none;
  ended_by = none;
}

abbrev pub action : Action
action = record {
  tenant_id = b't' ∷ [];
  id = 5;
  student_id = 9;
  journal_entry_id = none;
  title = [];
  description = none;
  assignee = 1;
  due_date = none;
  created_by = b'u' ∷ [];
  status = pending;
  result = none;
  cancellation_reason = none;
  closed_at = none;
  closed_by = none;
}

abbrev pub assignment : ActionAssignment
assignment = record {
  tenant_id = b't' ∷ [];
  action_id = 5;
  member_id = 1;
  assigned_by = b'u' ∷ [];
  reason = none;
  unassigned_at = none;
}

abbrev pub entry : JournalEntry
entry = record {
  tenant_id = b't' ∷ [];
  id = 7;
  student_id = 9;
  support_episode_id = 3;
  original_author = b'u' ∷ [];
  original_author_label = b'u' ∷ [];
  current_revision_number = 1;
  status = current;
  void_reason = none;
  voided_by = none;
  voided_at = none;
}

abbrev pub revision : JournalRevision ℕ
revision = record {
  tenant_id = b't' ∷ [];
  journal_entry_id = 7;
  revision_number = 1;
  event_time = none;
  event_time_zone = none;
  content = 40;
  academic = no_course;
  corrected_by = b'u' ∷ [];
  corrected_by_label = b'u' ∷ [];
  correction_reason = none;
}

abbrev pub office : State ℕ
office = record {
  members = first ∷ second ∷ [];
  episodes = episode ∷ [];
  entries = entry ∷ [];
  revisions = revision ∷ [];
  actions = action ∷ [];
  assignments = assignment ∷ [];
}

abbrev pub school : School
school = record { teachers = []; students = []; enrollments = []; profiles = [] }

abbrev pub alone : State ℕ → State ℕ
alone s = s

pub office-Staffed : Staffed office
office-Staffed = record {
  keys = λ t id. ((λ _. tt), tt);
  actions = ((λ _. refl), tt);
  episodes = ((λ id r _. rw (sym ((==_iff 1 id).0 r)) refl), tt);
}

pub office-Numbered : Numbered office
office-Numbered = record {
  keys = λ t id. ((λ _. tt), tt);
  latest = (refl, tt);
  below = (((λ _. omega arith), tt), tt);
  known = (refl, tt);
}
