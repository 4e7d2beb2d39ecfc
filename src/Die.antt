-- ===== src/Die.antt =====
-- The department of educational inclusion: the tables that apps/api/src/die/die.service.ts reads and
-- writes (apps/api/prisma/schema.prisma). `C` is what a revision of the journal says besides its time
-- and its academic context. The audit lines and the times of creation are left out.
pub mod Actor
pub mod Duties
pub mod Members
pub mod Support
pub mod Actions
pub mod Entries
pub mod Journal
pub mod Staffed
pub mod Handing
pub mod Relieved
pub mod Writes
pub mod Removed
pub mod Kept
pub mod Late
pub mod Numbered
pub mod Corrected
pub mod Journaled
mod Office
mod Examples
use edupay_academico.TenantProfile.{Profile}
use edupay_academico.Prelude.{
  ℕ, Bool, true, false, Option, none, some, List, Text, text_eq, ◌&&◌, ◌==◌,
}

pub data MemberRole : Type 0 where
  member coordinator : MemberRole

pub record Member : Type 0 where
  pub tenant_id : Text
  pub id : ℕ
  pub teacher_id : Option ℕ
  pub identity_user_id : Text
  pub identity_membership_id : Text
  pub display_label_snapshot : Text
  pub role : MemberRole
  pub added_by : Text
  pub removed_at : Option ℕ
  pub removed_by : Option Text
  pub removal_reason : Option Text

-- `AcademicSnapshot`
pub record AcademicSnapshot : Type 0 where
  pub academic_year_id : Option ℕ
  pub course_id : Option ℕ
  pub academic_year_label : Option Text
  pub course_label : Option Text

pub record SupportEpisode : Type 0 where
  pub tenant_id : Text
  pub id : ℕ
  pub student_id : ℕ
  pub start_date : ℕ
  pub reason : Text
  pub responsible : Option ℕ
  pub academic : AcademicSnapshot
  pub created_by : Text
  pub ended_at : Option ℕ
  pub end_reason : Option Text
  pub ended_by : Option Text

pub data EntryStatus : Type 0 where
  current voided : EntryStatus

pub record JournalEntry : Type 0 where
  pub tenant_id : Text
  pub id : ℕ
  pub student_id : ℕ
  pub support_episode_id : ℕ
  pub original_author : Text
  pub original_author_label : Text
  pub current_revision_number : ℕ
  pub status : EntryStatus
  pub void_reason : Option Text
  pub voided_by : Option Text
  pub voided_at : Option ℕ

pub record JournalRevision (C : Type 0) : Type 0 where
  pub tenant_id : Text
  pub journal_entry_id : ℕ
  pub revision_number : ℕ
  pub event_time : Option ℕ
  pub event_time_zone : Option Text
  pub content : C
  pub academic : AcademicSnapshot
  pub corrected_by : Text
  pub corrected_by_label : Text
  pub correction_reason : Option Text

pub data ActionStatus : Type 0 where
  pending in_progress completed cancelled : ActionStatus

pub record Action : Type 0 where
  pub tenant_id : Text
  pub id : ℕ
  pub student_id : ℕ
  pub journal_entry_id : Option ℕ
  pub title : Text
  pub description : Option Text
  pub assignee : ℕ
  pub due_date : Option ℕ
  pub created_by : Text
  pub status : ActionStatus
  pub result : Option Text
  pub cancellation_reason : Option Text
  pub closed_at : Option ℕ
  pub closed_by : Option Text

pub record ActionAssignment : Type 0 where
  pub tenant_id : Text
  pub action_id : ℕ
  pub member_id : ℕ
  pub assigned_by : Text
  pub reason : Option Text
  pub unassigned_at : Option ℕ

pub record State (C : Type 0) : Type 0 where
  pub members : List Member
  pub episodes : List SupportEpisode
  pub entries : List JournalEntry
  pub revisions : List (JournalRevision C)
  pub actions : List Action
  pub assignments : List ActionAssignment

pub data Refusal : Type 0 where
  -- `unavailable`: a row that was read is no longer there to be written, which Prisma throws
  denied not_found conflict bad_request unavailable unique_violation : Refusal

pub record Teacher : Type 0 where
  pub tenant_id : Text
  pub id : ℕ
  pub identity_user_id : Text
  pub is_active : Bool

pub record Student : Type 0 where
  pub tenant_id : Text
  pub id : ℕ
  pub is_active : Bool

-- A row of course_enrollments with its course and academic year
pub record Enrollment : Type 0 where
  pub tenant_id : Text
  pub student_id : ℕ
  pub is_active : Bool
  pub academic : AcademicSnapshot

-- What the department reads of the school; the enrollments stand newest first.
pub record School : Type 0 where
  pub teachers : List Teacher
  pub students : List Student
  pub enrollments : List Enrollment
  pub profiles : List Profile

abbrev pub is_absent : {A : Type 0} → Option A → Bool
is_absent none = true
is_absent (some a) = false

abbrev pub is_coordinator : MemberRole → Bool
is_coordinator member = false
is_coordinator coordinator = true

-- `OPEN_ACTION_STATUSES`
abbrev pub is_open : ActionStatus → Bool
is_open pending = true
is_open in_progress = true
is_open _ = false

abbrev pub is_member : Text → ℕ → Member → Bool
is_member tenant_id id m = text_eq m.tenant_id tenant_id && m.id == id

abbrev pub is_action : Text → ℕ → Action → Bool
is_action tenant_id id a = text_eq a.tenant_id tenant_id && a.id == id

abbrev pub is_episode : Text → ℕ → SupportEpisode → Bool
is_episode tenant_id id e = text_eq e.tenant_id tenant_id && e.id == id

abbrev pub is_entry : Text → ℕ → JournalEntry → Bool
is_entry tenant_id id e = text_eq e.tenant_id tenant_id && e.id == id
