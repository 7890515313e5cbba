-- ===== src/Publish/Held.antt =====
-- app/review/publish.py: the end of the publication of a task that nobody else has written.
use mathlib.Core.Path.{subst}
use tg_forwarder.Prelude.{
  ℕ, suc, ◌≡◌, refl, sym, ◌∙◌, Bool, true, false, Option, none, some, List, arith, ==-refl, ok,
}
use tg_forwarder.Host.{Text}
use tg_forwarder.Message.{MessageStatus}
use tg_forwarder.Processed.{no_update}
use tg_forwarder.Review.StateMachine.{ReviewStatus, ReviewActionType, is_allowed, assert_transition}
use tg_forwarder.Review.Store.{ReviewTask, ReviewDb, find_task, put_task, require_task}
use tg_forwarder.Review.Service.{log_action, stamp, commit, transition}
use tg_forwarder.Review.Rows.{find_task-id, find_task-put_task}
use tg_forwarder.Publish.Task.{
  PublishDb, Publishing, PublishResult, published, failed, conflict, Published, settle,
  fail_claimed_task, Attempt, blocked, raised, delivered, conclude, mark,
}

-- The row of a claimed task is as the claim left it, up to its media.
pub record Held (task : ReviewTask) (db : ReviewDb) : Type 0 where
  pub row : ReviewTask
  pub found : find_task task.id db.tasks ≡ some row
  pub same_revision : row.revision ≡ task.revision
  pub publishing : row.status ≡ ReviewStatus.publishing

-- What a result says of the row of the task.
abbrev pub Says : PublishResult → ReviewTask → Type 0
Says (published b ids errors) row = row.status ≡ ReviewStatus.published
Says (failed e) row = (row.status ≡ ReviewStatus.failed) × (row.error_message ≡ some e)
Says conflict row = ⊥

-- The call returns, and its result says what the row shows.
abbrev pub Ends : ℕ → Published → Type 0
Ends i r =
    (result : PublishResult) × (db : PublishDb) × (row : ReviewTask) × (r ≡ ok (result, db))
    × (find_task i db.review.tasks ≡ some row)
    × Says result row

pub put_found :
    (i : ℕ) (t t' : ReviewTask) (ts : List ReviewTask)
    → find_task i ts ≡ some t
    → t'.id ≡ t.id
    → find_task i (put_task t' ts) ≡ some t'
put_found i t t' ts f e =
    let id : t'.id ≡ i = e ∙ find_task-id i ts t f in
    find_task-put_task i t' ts ∙ rw (id, ==-refl i, f) refl

module _ (status : ReviewStatus) (now : ℕ) (error : Option Text) (t : ReviewTask) where
  pub stamp-id : (stamp status now error t).id ≡ t.id
  unfolding stamp
  stamp-id = ground arith

  pub stamp-status : (stamp status now error t).status ≡ t.status
  unfolding stamp
  stamp-status = ground arith

  pub stamp-error : status ≡ ReviewStatus.failed → (stamp status now error t).error_message ≡ error
  unfolding stamp
  stamp-error e = ground arith

pub Ends-at : (i : ℕ) (r r' : Published) → r' ≡ r → Ends i r → Ends i r'
Ends-at i r r' e h = subst (Ends i) (sym e) h

module _ (p : Publishing) (task : ReviewTask) where
  -- The last transition of a held task succeeds.
  pub settled :
      (status : ReviewStatus) (action : ReviewActionType) (error : Option Text) (db : ReviewDb)
      → is_allowed ReviewStatus.publishing status ≡ true
      → Held task db
      → (db' : ReviewDb) × (row : ReviewTask) × (settle p task status action error db ≡ ok db')
        × (find_task task.id db'.tasks ≡ some row)
        × (row.status ≡ status)
        × (status ≡ ReviewStatus.failed → row.error_message ≡ error)
  unfolding settle transition require_task assert_transition commit
  settled status action error db allowed h =
      let m : ReviewTask = record h.row { status = status; revision = suc h.row.revision } in
      let row = stamp status p.now error m in
      let a = log_action h.row p.user_id action (some h.row.status) status in
      let f = h.found in
      let same = h.same_revision in
      let publishing = h.publishing in
      (
        commit row a db,
        row,
        ground arith,
        put_found task.id h.row row db.tasks h.found (stamp-id status p.now error m),
        stamp-status status p.now error m,
        stamp-error status p.now error m,
      )

  pub fail-Ends :
      (e : Text) (retry : Bool) (db : PublishDb)
      → Held task db.review
      → Ends task.id (fail_claimed_task p task e retry db)
  unfolding fail_claimed_task is_allowed
  fail-Ends e retry db h =
      let (review, row, eq, f, st, er) =
        settled ReviewStatus.failed ReviewActionType.publish_failed (some e) db.review allowed h in
      (
        failed e,
        record {
          review = review;
          processed =
              mark p.now task.processed_message_id MessageStatus.failed
                (record no_update { error_message = some e; increment_retry = retry }) db.processed;
        },
        row,
        ground arith,
        f,
        (st, er refl),
      )
    where
      allowed : is_allowed ReviewStatus.publishing ReviewStatus.failed ≡ true
      allowed = refl

  pub conclude-Ends :
      (a : Attempt) (db : PublishDb) → Held task db.review → Ends task.id (conclude p task a db)
  unfolding conclude is_allowed
  conclude-Ends (raised e) db h = fail-Ends e true db h
  conclude-Ends (blocked e) db h =
      let (result, db', row, eq, f, says) = fail-Ends e false db h in
      (result, db', row, ground arith, f, says)
  conclude-Ends (delivered s) db h =
      let (review, row, eq, f, st, er) =
        settled ReviewStatus.published ReviewActionType.published none db.review allowed h in
      (
        published false (some s.all_ids) s.errors,
        record {
          review = review;
          processed =
              mark p.now task.processed_message_id MessageStatus.published
                (record no_update {
                  target_message_ids = some s.all_ids;
                  processing_result = some s.message;
                })
                db.processed;
        },
        row,
        ground arith,
        f,
        st,
      )
    where
      allowed : is_allowed ReviewStatus.publishing ReviewStatus.published ≡ true
      allowed = refl
