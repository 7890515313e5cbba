-- ===== src/Examples/Review.antt =====
-- Tests and cases for the review service.
use tg_forwarder.Prelude.{suc, ◌>>=◌, ℕ, ◌≡◌, refl, true, none, some, [], ◌∷◌, List, ok, err, All}
use tg_forwarder.Host.{codes}
use tg_forwarder.Message.{MessageStatus}
use tg_forwarder.Processed.{ProcessedMessage}
use tg_forwarder.Review.StateMachine.{
  is_allowed, assert_transition, ReviewStatus, ReviewActionType, conflict, integrity,
}
use tg_forwarder.Review.Store.{
  require_task, require_revision, insert_revision, find_processed, ReviewTask, RevisionSource,
  ReviewDb, find_task,
}
use tg_forwarder.Review.Service.{
  TransitionCall, editing_status, edit_text, commit_text, claim_for_publish,
}
use tg_forwarder.Review.Create.{
  insert_task, create_from_message, CreateCall, new_task, first_revision,
}
use tg_forwarder.Review.Calls.{
  Call, transitions, edits, restores, claims, creates, call, rolled_back, run, empty_db,
}
use tg_forwarder.Review.Locking.{conflict_after_write}
use tg_forwarder.Review.Final.{Settled, is_final, run-Settled, claim-final}
use tg_forwarder.Review.Approval.{IsSound, run-IsSound}
use tg_forwarder.Review.Drafts.{TextCall, Draft, reads, flush, reads-flush}
use tg_forwarder.Review.Overlaps.{flush-integrity}
use tg_forwarder.Review.Moves.{Move, read_move, flush_move, flush_move-both}
use tg_forwarder.Examples.Data.{py, chat, message}

abbrev processed : ProcessedMessage
processed = record {
  id = 5;
  source_chat_id = chat;
  source_message_id = 7;
  grouped_id = none;
  status = MessageStatus.pending_review;
  target_chat_id = none;
  target_message_ids = none;
  content_hash = none;
  skip_reason = none;
  error_message = none;
  processing_result = none;
  retry_count = 0;
  processed_at = none;
  published_at = none;
  created_at = 0;
}

abbrev create : CreateCall
create = record {
  processed = processed;
  original_text = codes "abcabc";
  message = message;
  matched_rules = [];
  detected_keywords = [];
  decision_reason = none;
  target_destination_ids = 3 ∷ [];
  target_api_endpoint_ids = [];
}

abbrev approve : Call
approve = transitions (record {
  task_id = 1;
  new_status = ReviewStatus.approved;
  user_id = some 9;
  action = ReviewActionType.approved;
  expected_revision = some 2;
  error_message = none;
})

abbrev edit : Call
edit = edits 1 (codes "new") 9 2

abbrev calls : List (ℕ × Call)
calls = (10, creates create) ∷ (20, approve) ∷ (30, claims 1 3 none) ∷ (40, restores 1 1 9 4) ∷ []

abbrev pending_task : ReviewTask
pending_task = new_task create 10 1

abbrev db : ReviewDb
db = record {
  tasks = pending_task ∷ [];
  revisions = first_revision 1 1 RevisionSource.original (codes "abcabc") ∷ [];
  actions = [];
  next_id = 2;
}

creates_one : (run py ((10, creates create) ∷ []) empty_db).tasks ≡ pending_task ∷ []
unfolding run call create_from_message find_processed insert_task insert_revision
creates_one = refl

edited : call py 20 edit db ≡ ok (rolled_back db (call py 20 edit db))
unfolding call edit_text require_task new_task editing_status assert_transition is_allowed
    commit_text insert_revision
edited = refl

-- Two reviewers have read revision 2; the first one edits, the second one approves.
conflict_after_write_example :
    call py 40 approve (run py ((30, restores 1 1 9 3) ∷ []) (rolled_back db (call py 20 edit db)))
    ≡ err conflict
conflict_after_write_example =
    conflict_after_write py 20 40 edit approve 1 2 db (rolled_back db (call py 20 edit db))
      ((30, restores 1 1 9 3) ∷ []) refl refl refl edited

run-IsSound_example : All IsSound (run py calls empty_db).tasks
run-IsSound_example = run-IsSound py calls

-- Two sessions have read revision 2 of the task: one edits, the other restores the original.
abbrev mine : TextCall
mine = TextCall.edit 1 (codes "new") 9 2

abbrev theirs : TextCall
theirs = TextCall.restore 1 1 8 2

abbrev my_draft : Draft
my_draft = record {
  task_id = 1;
  status = some ReviewStatus.editing;
  final_text = some (codes "new");
  revision = 3;
  created = record {
    review_task_id = 1;
    revision_number = 3;
    source = RevisionSource.reviewer;
    content = codes "new";
    created_by = some 9;
  };
  action = record {
    review_task_id = 1;
    user_id = some 9;
    action = ReviewActionType.edited;
    old_status = some ReviewStatus.pending;
    new_status = ReviewStatus.editing;
  };
}

-- The original is what the task has as its text: that column is not written.
abbrev their_draft : Draft
their_draft = record {
  task_id = 1;
  status = some ReviewStatus.editing;
  final_text = none;
  revision = 3;
  created = record {
    review_task_id = 1;
    revision_number = 3;
    source = RevisionSource.restored;
    content = codes "abcabc";
    created_by = some 8;
  };
  action = record {
    review_task_id = 1;
    user_id = some 8;
    action = ReviewActionType.restored_original;
    old_status = some ReviewStatus.pending;
    new_status = ReviewStatus.editing;
  };
}

reads-mine : reads mine db ≡ ok my_draft
unfolding reads require_task new_task editing_status assert_transition is_allowed
reads-mine = refl

reads-theirs : reads theirs db ≡ ok their_draft
unfolding reads require_task new_task require_revision
reads-theirs = refl

flushes_mine : flush my_draft db ≡ ok (rolled_back db (flush my_draft db))
unfolding flush require_task new_task insert_revision
flushes_mine = refl

flush-integrity_example :
    flush their_draft (run py ((30, approve) ∷ []) (rolled_back db (flush my_draft db)))
    ≡ err integrity
flush-integrity_example =
    flush-integrity py mine theirs my_draft their_draft db db db
      (rolled_back db (flush my_draft db)) ((30, approve) ∷ []) refl refl reads-mine reads-theirs
      flushes_mine

reads-flush_example : (reads theirs db >>= λ d. flush d db) ≡ call py 20 (restores 1 1 8 2) db
reads-flush_example = reads-flush py 20 theirs db

-- One reviewer approves the task while another one rejects it.
abbrev approval : TransitionCall
approval = record {
  task_id = 1;
  new_status = ReviewStatus.approved;
  user_id = some 9;
  action = ReviewActionType.approved;
  expected_revision = some 2;
  error_message = none;
}

abbrev rejection : TransitionCall
rejection = record approval {
  new_status = ReviewStatus.rejected;
  user_id = some 8;
  action = ReviewActionType.rejected;
}

abbrev approves : Move
approves = record {
  task_id = 1;
  new_status = ReviewStatus.approved;
  revision = 3;
  now = 20;
  error_message = none;
  action = record {
    review_task_id = 1;
    user_id = some 9;
    action = ReviewActionType.approved;
    old_status = some ReviewStatus.pending;
    new_status = ReviewStatus.approved;
  };
}

abbrev rejects : Move
rejects = record approves {
  new_status = ReviewStatus.rejected;
  now = 21;
  action = record {
    review_task_id = 1;
    user_id = some 8;
    action = ReviewActionType.rejected;
    old_status = some ReviewStatus.pending;
    new_status = ReviewStatus.rejected;
  };
}

finds-pending_task : find_task 1 db.tasks ≡ some pending_task
unfolding find_task new_task
finds-pending_task = refl

reads-approval : read_move approval 20 db ≡ ok approves
unfolding read_move require_task new_task assert_transition is_allowed
reads-approval = refl

reads-rejection : read_move rejection 21 db ≡ ok rejects
unfolding read_move require_task new_task assert_transition is_allowed
reads-rejection = refl

flush_move-both_example :
    (u : ReviewTask) × (v : ReviewTask) × (db1 : ReviewDb) × (db2 : ReviewDb) × (flush_move approves
        db
      ≡ ok (u, db1))
    × (flush_move rejects db1 ≡ ok (v, db2))
    × (find_task 1 db2.tasks ≡ some v)
    × (u.status ≡ ReviewStatus.approved)
    × (v.status ≡ ReviewStatus.rejected)
    × (v.revision ≡ suc pending_task.revision)
flush_move-both_example =
    flush_move-both approval rejection 20 21 db pending_task approves rejects refl
      finds-pending_task reads-approval reads-rejection

abbrev done : ReviewTask
done = record pending_task {
  status = ReviewStatus.published;
  published_at = some 60;
  published_revision = some 5;
}

abbrev done_db : ReviewDb
done_db = record db { tasks = done ∷ [] }

found_done : find_task 1 done_db.tasks ≡ some done
unfolding find_task new_task
found_done = refl

is_done : is_final done.status ≡ true
is_done = refl

run-Settled_example :
    (u : ReviewTask) × (find_task 1 (run py calls done_db).tasks ≡ some u) × Settled done u
run-Settled_example = run-Settled py calls done 1 done_db found_done

claim-final_example : claim_for_publish 1 2 none 70 (run py calls done_db) ≡ none
claim-final_example = claim-final py calls done 1 2 70 none done_db found_done is_done
