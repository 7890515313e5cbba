-- ===== src/Review/Calls.antt =====
-- The calls of `ReviewService` (app/review/service.py), one after the other, and the changes that
-- a call makes to one row of `review_tasks`.
use tg_forwarder.Prelude.{
  ℕ, suc, ◌≡◌, true, Option, none, some, ◌⊎◌, List, [], ◌∷◌, ◌++◌, Result, ok, err, length,
}
use tg_forwarder.Host.{Text, Host}
use tg_forwarder.Message.{NormalizedMessage}
use tg_forwarder.Rules.Types.{RuleDefinition, RuleApplyResult}
use tg_forwarder.Review.StateMachine.{ReviewStatus, ReviewError, is_allowed}
use tg_forwarder.Review.Store.{
  ReviewTask, RevisionSource, ContentRevision, ReviewDb, find_task, put_task,
}
use tg_forwarder.Review.Service.{
  stamp, TransitionCall, transition, editing_status, edit_text, restored_status, restore_revision,
  reapply_status, ReapplyCall, reapply_rules, media_snapshot_from_message, update_media_snapshot,
  is_claimable, claim_for_publish,
}
use tg_forwarder.Review.Create.{first_revision, CreateCall, new_task, create_from_message}

pub data Call : Type 0 where
  transitions : TransitionCall → Call
  -- task, content, user, expected revision
  edits : ℕ → Text → ℕ → ℕ → Call
  -- task, revision number, user, expected revision
  restores : ℕ → ℕ → ℕ → ℕ → Call
  reapplies : List RuleDefinition → ReapplyCall → Call
  snapshots : ℕ → NormalizedMessage → Call
  -- task, expected revision, user
  claims : ℕ → ℕ → Option ℕ → Call
  creates : CreateCall → Call

abbrev pub rows {ℓ} : {A : Type ℓ} → Result ReviewError (A × ReviewDb) → Result ReviewError ReviewDb
rows (err e) = err e
rows (ok p) = ok p.1

abbrev pub rows_or {ℓ} : {A : Type ℓ} → ReviewDb → Option (A × ReviewDb) → ReviewDb
rows_or db none = db
rows_or db (some p) = p.1

-- The rows after a call, or what it raises.
unfoldable pub call : Host → ℕ → Call → ReviewDb → Result ReviewError ReviewDb
call py now (transitions c) db = rows (transition c now db)
call py now (edits i content user rev) db = rows (edit_text i content user rev db)
call py now (restores i n user rev) db = rows (restore_revision i n user rev db)
call py now (reapplies rules c) db = rows (reapply_rules py rules c now db)
call py now (snapshots i m) db = rows (update_media_snapshot i m db)
call py now (claims i rev user) db = ok (rows_or db (claim_for_publish i rev user now db))
call py now (creates c) db = rows (create_from_message c now db)

-- A call that raises is rolled back.
abbrev pub rolled_back : ReviewDb → Result ReviewError ReviewDb → ReviewDb
rolled_back db (err e) = db
rolled_back db (ok db') = db'

unfoldable pub run : Host → List (ℕ × Call) → ReviewDb → ReviewDb
run py [] db = db
run py ((now, c) ∷ cs) db = run py cs (rolled_back db (call py now c db))

abbrev pub empty_db : ReviewDb
empty_db = record { tasks = []; revisions = []; actions = []; next_id = 1 }

-- What one call may do to a row.
pub data Change (t t' : ReviewTask) : Type 0 where
  moved :
      (new : ReviewStatus) (now : ℕ) (e : Option Text)
      → is_allowed t.status new ≡ true
      → t' ≡ stamp new now e (record t { status = new; revision = suc t.revision })
      → Change t t'
  edited :
      (status : ReviewStatus) (content : Text)
      → editing_status t.status ≡ ok status
      → t' ≡ record t { status = status; final_text = content; revision = suc t.revision }
      → Change t t'
  restored :
      (content : Text)
      → t' ≡ record t {
        status = restored_status t.status;
        final_text = content;
        revision = suc t.revision;
      }
      → Change t t'
  ruled :
      (applied : RuleApplyResult) (now : ℕ) (m : ReviewTask)
      → reapply_status applied now t.status t ≡ ok m
      → t' ≡ record m {
        processed_text = applied.text;
        final_text = applied.text;
        matched_rules = applied.hits;
        detected_keywords = applied.flagged;
        revision = suc t.revision;
      }
      → Change t t'
  snapped :
      (m : NormalizedMessage)
      → t' ≡ record t {
        media_snapshot = media_snapshot_from_message m;
        media_count = length m.media_items;
        media_type = m.media_type;
      }
      → Change t t'
  claimed :
      (rev now : ℕ)
      → is_claimable rev t ≡ true
      → t' ≡ record t {
        status = ReviewStatus.publishing;
        revision = suc rev;
        publishing_started_at = some now;
      }
      → Change t t'

-- A written row has at most one new revision, under its new number.
abbrev pub Revised : ReviewTask → ReviewDb → ReviewDb → Type 0
Revised t' db db' =
    (db'.revisions ≡ db.revisions)
    ⊎ ((r : ContentRevision) × (r.review_task_id ≡ t'.id)
        × (r.revision_number ≡ t'.revision)
        × (db'.revisions ≡ db.revisions ++ r ∷ []))

-- What one call may do to the tables of tasks and of revisions.
pub data Effect (db db' : ReviewDb) : Type 0 where
  kept :
      db'.tasks ≡ db.tasks → db'.revisions ≡ db.revisions → db'.next_id ≡ db.next_id → Effect db db'
  changed :
      (i : ℕ) (t t' : ReviewTask)
      → find_task i db.tasks ≡ some t
      → Change t t'
      → db'.tasks ≡ put_task t' db.tasks
      → Revised t' db db'
      → db'.next_id ≡ db.next_id
      → Effect db db'
  added :
      (c : CreateCall) (now : ℕ)
      → db'.tasks ≡ db.tasks ++ new_task c now db.next_id ∷ []
      → db'.revisions
        ≡ (db.revisions ++ first_revision db.next_id 1 RevisionSource.original c.original_text ∷ [])
          ++ first_revision db.next_id 2 RevisionSource.rules c.message.text ∷ []
      → db'.next_id ≡ suc db.next_id
      → Effect db db'

-- A call wrote the row of task `i`, with the next revision.
abbrev pub Wrote : ℕ → ReviewDb → ReviewDb → Type 0
Wrote i db db' =
    (t : ReviewTask) × (t' : ReviewTask) × (find_task i db.tasks ≡ some t)
    × Change t t'
    × (t'.revision ≡ suc t.revision)
    × (db'.tasks ≡ put_task t' db.tasks)
    × Revised t' db db'
    × (db'.next_id ≡ db.next_id)
