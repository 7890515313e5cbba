-- ===== src/Review/Drafts.antt =====
-- app/review/service.py: `edit_text` and `restore_revision` read the task, check its revision in
-- Python and write, without a lock and without the revision in the WHERE of the UPDATE. Here the
-- reads and the flush of such a call are apart, so that other calls may commit between them.
use tg_forwarder.Prelude.{
  ℕ, suc, ◌≡◌, refl, sym, ◌∙◌, ap, Option, none, some, arith, ◌==◌, if◌then◌else◌, Bool-cases,
  Option-cases, Result-cases, inl, inr, Result, ok, ◌>>=◌, ◌>>◌, guard,
}
use tg_forwarder.Host.{Text, Host, same_text, same_text→eq}
use tg_forwarder.Review.StateMachine.{
  ReviewStatus, ReviewActionType, ReviewError, conflict, assert_transition,
}
use tg_forwarder.Review.Store.{
  ReviewTask, RevisionSource, ContentRevision, ReviewAction, ReviewDb, find_task, insert_revision,
  require_task, require_revision,
}
use tg_forwarder.Review.Service.{
  log_action, editing_status, edit_text, restored_status, restore_action, restore_revision, commit,
  commit_text,
}
use tg_forwarder.Review.Calls.{Call, edits, restores, call, rows}
use tg_forwarder.Review.Rows.{find_task-id}

-- The calls that write a text: task, content or number of the revision, user, expected revision.
pub data TextCall : Type 0 where
  edit : ℕ → Text → ℕ → ℕ → TextCall
  restore : ℕ → ℕ → ℕ → ℕ → TextCall

abbrev pub task_of : TextCall → ℕ
task_of (edit i content user rev) = i
task_of (restore i n user rev) = i

abbrev pub expected : TextCall → ℕ
expected (edit i content user rev) = rev
expected (restore i n user rev) = rev

-- What a session holds before its commit: the columns of the task that it changed, and the new rows.
-- A column that is set to the value that was read is not written.
pub record Draft : Type 0 where
  pub task_id : ℕ
  pub status : Option ReviewStatus
  pub final_text : Option Text
  pub revision : ℕ
  pub created : ContentRevision
  pub action : ReviewAction

abbrev changed_status : ReviewStatus → Option ReviewStatus
changed_status ReviewStatus.pending = some ReviewStatus.editing
changed_status _ = none

abbrev changed_text : Text → Text → Option Text
changed_text old new = if same_text new old then none else some new

abbrev or_old {ℓ} : {A : Type ℓ} → A → Option A → A
or_old old none = old
or_old old (some new) = new

abbrev drafted : ReviewTask → ReviewStatus → Text → RevisionSource → ℕ → ReviewActionType → Draft
drafted task status content source user_id action = record {
  task_id = task.id;
  status = changed_status task.status;
  final_text = changed_text task.final_text content;
  revision = suc task.revision;
  created = record {
    review_task_id = task.id;
    revision_number = suc task.revision;
    source = source;
    content = content;
    created_by = some user_id;
  };
  action = log_action task (some user_id) action (some task.status) status;
}

-- The reads and the checks of a call.
unfoldable pub reads : TextCall → ReviewDb → Result ReviewError Draft
reads (edit task_id content user_id expected_revision) db = do
  task ← require_task task_id db
  guard (task.revision == expected_revision) conflict
  status ← editing_status task.status
  ok (drafted task status content RevisionSource.reviewer user_id ReviewActionType.edited)
reads (restore task_id revision_number user_id expected_revision) db = do
  task ← require_task task_id db
  guard (task.revision == expected_revision) conflict
  rev ← require_revision task_id revision_number db
  let status = restored_status task.status
  ok (drafted task status rev.content RevisionSource.restored user_id (restore_action rev.source))

abbrev pub written : Draft → ReviewTask → ReviewTask
written d task = record task {
  status = or_old task.status d.status;
  final_text = or_old task.final_text d.final_text;
  revision = d.revision;
}

-- The UPDATE of the task's row as it is now, the INSERTs, and the commit.
unfoldable pub flush : Draft → ReviewDb → Result ReviewError ReviewDb
flush d db = do
  task ← require_task d.task_id db
  revs ← insert_revision d.created db.revisions
  ok (record (commit (written d task) d.action db) { revisions = revs })

text_written : (old new : Text) → or_old old (changed_text old new) ≡ new
text_written old new = elim (Bool-cases (same_text new old)) [
  | inl b ↦ rw b (sym (same_text→eq new old b))
  | inr b ↦ rw b refl
]

editing_written :
    (old st : ReviewStatus) → editing_status old ≡ ok st → or_old old (changed_status old) ≡ st
unfolding editing_status assert_transition
editing_written old st h = ground arith

restored_written : (old : ReviewStatus) → or_old old (changed_status old) ≡ restored_status old
restored_written old = ground arith

-- A draft that is flushed on the rows that it was read from is the commit of `Review.Service`.
flush-drafted :
    (i : ℕ) (t : ReviewTask) (st : ReviewStatus) (content : Text) (source : RevisionSource)
    (user : ℕ) (a : ReviewActionType) (db : ReviewDb)
    → find_task i db.tasks ≡ some t
    → or_old t.status (changed_status t.status) ≡ st
    → flush (drafted t st content source user a) db
      ≡ rows (
          commit_text
            (record t { status = st; final_text = content; revision = suc t.revision })
            source
            content
            user
            (log_action t (some user) a (some t.status) st)
            db)
unfolding flush commit_text require_task
flush-drafted i t st content source user a db e s =
    let id = find_task-id i db.tasks t e in
    let here : find_task t.id db.tasks ≡ some t = ap (λ k. find_task k db.tasks) id ∙ e in
    let text = text_written t.final_text content in ground arith

edit-flush :
    (i : ℕ) (content : Text) (user rev : ℕ) (db : ReviewDb)
    → (reads (edit i content user rev) db >>= λ d. flush d db)
      ≡ rows (edit_text i content user rev db)
unfolding reads edit_text require_task
edit-flush i content user rev db = elim (Option-cases (find_task i db.tasks)) [
  | inl e ↦ ground arith
  | inr (t, e) ↦ elim (Result-cases (editing_status t.status)) [
    | inl (x, f) ↦ ground arith
    | inr (st, f) ↦
        let k =
          flush-drafted i t st content RevisionSource.reviewer user ReviewActionType.edited db e
            (editing_written t.status st f) in
        ground (arith, k)
  ]
]

restore-flush :
    (i n user rev : ℕ) (db : ReviewDb)
    → (reads (restore i n user rev) db >>= λ d. flush d db)
      ≡ rows (restore_revision i n user rev db)
unfolding reads restore_revision require_task
restore-flush i n user rev db = elim (Option-cases (find_task i db.tasks)) [
  | inl e ↦ ground arith
  | inr (t, e) ↦ elim (Result-cases (require_revision i n db)) [
    | inl (x, f) ↦ ground arith
    | inr (r, f) ↦
        let k =
          flush-drafted i t (restored_status t.status) r.content RevisionSource.restored user
            (restore_action r.source) db e (restored_written t.status) in
        ground (arith, k)
  ]
]

abbrev pub as_call : TextCall → Call
as_call (edit i content user rev) = edits i content user rev
as_call (restore i n user rev) = restores i n user rev

pub reads-flush :
    (py : Host) (now : ℕ) (c : TextCall) (db : ReviewDb)
    → (reads c db >>= λ d. flush d db) ≡ call py now (as_call c) db
unfolding call
reads-flush py now (edit i content user rev) db = edit-flush i content user rev db
reads-flush py now (restore i n user rev) db = restore-flush i n user rev db
