-- ===== src/Storage/Examples.antt =====
-- Tests of uploads, and the theorems for one intent.
use edupay_academico.Prelude.{ℕ, ◌+◌, ◌≡◌, refl, true, false, none, [], ◌∷◌, Result, ok, err, sum}
use edupay_academico.Storage.{
  Scope, global, tenant, Account, State, UploadIntent, reserved, expired, staged, learning_material,
  set_intent_status, Refusal, global_quota_exceeded, scan_failed,
}
use edupay_academico.Storage.Accounts.{put, adjust, adjust_scope, adjust_account, reserve_account}
use edupay_academico.Storage.Uploads.{
  Reservation, reserve_upload, new_intent, release_intent, release_found, expire_intent, Transfer,
  ValidatedFile, finalize_upload, create_blob, release_and_account, mark_finalized, with_file,
  new_blob,
}
use edupay_academico.Storage.Completion.{
  Others, complete_upload, get_authorized_intent, receive, answer_with, match_intent,
  stage_and_store, store, check_before, finalize_or_reuse, finalize_again,
}
use edupay_academico.Storage.Balance.{Balanced, reserved_in, counted}
use edupay_academico.Storage.Reservations.{reserve_upload-Balanced}
use edupay_academico.Storage.Flow.{Considerate, complete_upload-Balanced}
use edupay_academico.Storage.Stale.{late_stage-undercounts}

abbrev quota : Scope → ℕ
quota s = 8

abbrev zero_account : Account
zero_account = record { used_bytes = 0; reserved_bytes = 0; file_count = 0; blob_count = 0 }

abbrev empty : State
empty = record {
  accounts = λ s. zero_account;
  intents = [];
  blobs = [];
  files = [];
  references = [];
}

abbrev reservation : Reservation
reservation = record {
  tenant_id = b't' ∷ [];
  identity_user_id = b'u' ∷ [];
  parent_id = 3;
  category = learning_material;
  metadata = record {
    normalized_filename = b'f' ∷ [];
    declared_mime = b'm' ∷ [];
    declared_size_bytes = 5;
  };
  new_intent_id = 1;
  now = 0;
  has_capacity = true;
}

abbrev intent : UploadIntent
intent = record {
  tenant_id = b't' ∷ [];
  id = 1;
  created_by = b'u' ∷ [];
  parent_id = 3;
  category = learning_material;
  expected_filename = b'f' ∷ [];
  expected_size_bytes = 5;
  expected_mime = b'm' ∷ [];
  reserved_bytes = 5;
  status = reserved;
  expires_at = 900000;
  finalized_file_object_id = none;
}

abbrev account_of : ℕ → Account
account_of n = record { used_bytes = 0; reserved_bytes = n; file_count = 0; blob_count = 0 }

abbrev one : State
one = record empty {
  accounts =
      put (tenant (b't' ∷ [])) (account_of 5) (put global (account_of 5) (λ s. zero_account));
  intents = intent ∷ [];
}

reserves_one : reserve_upload quota reservation empty ≡ ok one
unfolding reserve_upload reserve_account new_intent
reserves_one = refl

refuses_second :
    reserve_upload quota (record reservation { new_intent_id = 2 }) one ≡ err global_quota_exceeded
unfolding reserve_upload reserve_account new_intent
refuses_second = refl

empty-Balanced : Balanced empty
empty-Balanced s = record { used = refl; reserved = refl; files = refl; blobs = refl }

one-Balanced : Balanced one
one-Balanced = reserve_upload-Balanced quota reservation empty one reserves_one empty-Balanced

abbrev validated : ValidatedFile
validated = record {
  normalized_filename = b'f' ∷ [];
  declared_mime = b'm' ∷ [];
  declared_size_bytes = 5;
  detected_mime = b'm' ∷ [];
  authoritative_size_bytes = 5;
  sha256 = b'h' ∷ [];
}

abbrev transfer : Transfer
transfer = record {
  tenant_id = b't' ∷ [];
  identity_user_id = b'u' ∷ [];
  now = 10;
  in_memory = true;
  validated = ok validated;
  scanned = ok tt;
  staged_size = ok 5;
  promoted = ok tt;
  new_blob_id = 7;
  new_file_id = 8;
}

abbrev staged_one : State
staged_one = set_intent_status (b't' ∷ []) 1 staged one

abbrev used_account : Account
used_account = record { used_bytes = 5; reserved_bytes = 0; file_count = 1; blob_count = 1 }

abbrev finished : State
finished = mark_finalized (b't' ∷ []) 1 8 (
    with_file transfer intent validated none (new_blob (b't' ∷ []) transfer validated ∷ [])
      (record staged_one {
        accounts = put (tenant (b't' ∷ [])) used_account (put global used_account one.accounts);
      }))

abbrev validate : ℕ → Result Refusal ValidatedFile
validate n = ok validated

matches_one : match_intent intent (ok validated) ≡ ok validated
unfolding match_intent
matches_one = refl

abbrev alone : Others
alone = record { before_stage = λ s. s; before_finalize = λ s. s }

abbrev allow : UploadIntent → Result Refusal (Unit {0})
allow i = ok tt

stores :
    (complete_upload allow allow alone transfer 1 one).0.accounts global
    ≡ record { used_bytes = 5; reserved_bytes = 0; file_count = 1; blob_count = 1 }
unfolding complete_upload get_authorized_intent receive answer_with match_intent stage_and_store
    store check_before finalize_or_reuse finalize_again finalize_upload create_blob
    release_and_account adjust_account adjust_scope adjust set_intent_status
stores = refl

infected :
    (complete_upload allow allow alone
        (record transfer { scanned = err scan_failed })
        1
        one).0.accounts
      global
    ≡ zero_account
unfolding complete_upload get_authorized_intent receive answer_with match_intent stage_and_store
    store check_before release_intent release_found adjust_account adjust_scope adjust
    set_intent_status
infected = refl

alone-Considerate : Considerate transfer alone 1 one
alone-Considerate = record {
  stage_keeps = λ h. h;
  finalize_keeps = λ s h. h;
  holds = λ i found live. (i, found, live);
}

complete_upload-Balanced_example : Balanced (complete_upload allow allow alone transfer 1 one).0
complete_upload-Balanced_example =
    complete_upload-Balanced transfer alone allow allow 1 one alone-Considerate one-Balanced

-- Another intent of the tenant is live, so that there are bytes to be given back twice.
abbrev two : State
two = record one {
  accounts = put (tenant (b't' ∷ [])) (account_of 10) (put global (account_of 10) one.accounts);
  intents = record intent { id = 2 } ∷ intent ∷ [];
}

abbrev roomy : Scope → ℕ
roomy s = 100

reserves_two : reserve_upload roomy (record reservation { new_intent_id = 2 }) one ≡ ok two
unfolding reserve_upload reserve_account new_intent
reserves_two = refl

abbrev ended : State
ended = record two {
  accounts = put (tenant (b't' ∷ [])) (account_of 5) (put global (account_of 5) two.accounts);
  intents = record intent { id = 2 } ∷ record intent { status = expired } ∷ [];
}

ends : expire_intent (b't' ∷ []) 1 two ≡ ok ended
unfolding release_intent release_found adjust_account adjust_scope adjust set_intent_status
ends = refl

abbrev slow : Transfer
slow = record transfer { in_memory = false; scanned = err scan_failed }

abbrev meanwhile_ended : Others
meanwhile_ended = record { before_stage = λ s. ended; before_finalize = λ s. s }

authorizes : get_authorized_intent allow slow 1 two ≡ ok intent
unfolding get_authorized_intent
authorizes = refl

checks : check_before slow validated ≡ ok tt
unfolding check_before
checks = refl

late_stage-undercounts_example :
    ((complete_upload allow allow meanwhile_ended slow 1 two).0.accounts global).reserved_bytes
      + counted global (b't' ∷ []) 5
    ≡ sum (reserved_in global) (complete_upload allow allow meanwhile_ended slow 1 two).0.intents
late_stage-undercounts_example =
    late_stage-undercounts allow allow meanwhile_ended slow 1 two ended intent validated scan_failed
      (reserve_upload-Balanced roomy (record reservation { new_intent_id = 2 }) one two reserves_two
        one-Balanced)
      authorizes refl refl refl ends refl matches_one checks refl global
