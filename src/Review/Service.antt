-- ===== src/Review/Service.antt =====
-- app/review/service.py, `ReviewService`, but for the creation of tasks (`Review.Create`). Each
-- method is one database transaction, here without another commit between its reads and its own:
-- it returns its result with the new rows, or raises and leaves the rows as they were.
-- `Review.Drafts` and `Review.Moves` take the reads and the commit of some apart. `now` is the clock
-- at the call. The JSON `detail`, the client's address and the counters of
-- `RulesService.persist_hits` are left out of the rows.
use tg_forwarder.Prelude.{
  ℕ, suc, Bool, true, false, not, ◌&&◌, Option, none, some, List, [], ◌∷◌, ◌++◌, ◌==◌,
  if◌then◌else◌, length, is_none, Result, ok, err, ◌>>=◌, ◌>>◌, guard,
}
use tg_forwarder.Host.{Text, Host}
use tg_forwarder.Message.{NormalizedMessage, media_type_value}
use tg_forwarder.Rules.Types.{RuleDefinition, RuleApplyResult}
use tg_forwarder.Rules.Engine.{apply_rules}
use tg_forwarder.Review.StateMachine.{
  ReviewStatus, ReviewActionType, ReviewError, conflict, illegal_transition, cannot_reapply,
  assert_transition,
}
use tg_forwarder.Review.Store.{
  MediaSnapshot, ReviewTask, RevisionSource, ReviewAction, ReviewDb, find_task, put_task,
  insert_revision, require_task, require_revision,
}

abbrev pub Outcome : Type 0
Outcome = Result ReviewError (ReviewTask × ReviewDb)

abbrev pub log_action :
    ReviewTask → Option ℕ → ReviewActionType → Option ReviewStatus → ReviewStatus → ReviewAction
log_action task user_id action old new = record {
  review_task_id = task.id;
  user_id = user_id;
  action = action;
  old_status = old;
  new_status = new;
}

-- The commit of a changed task with one more action.
unfoldable pub commit : ReviewTask → ReviewAction → ReviewDb → ReviewDb
commit task a db = record db { tasks = put_task task db.tasks; actions = db.actions ++ a ∷ [] }

-- The commit of a changed task with a new revision of its text and one more action.
unfoldable pub commit_text :
    ReviewTask → RevisionSource → Text → ℕ → ReviewAction → ReviewDb → Outcome
commit_text task source content user_id a db = do
  revs ←
      insert_revision
        (record {
          review_task_id = task.id;
          revision_number = task.revision;
          source = source;
          content = content;
          created_by = some user_id;
        })
        db.revisions
  ok (task, record (commit task a db) { revisions = revs })

-- `expected_revision is not None and task.revision != expected_revision`.
abbrev pub revision_matches : Option ℕ → ReviewTask → Bool
revision_matches none task = true
revision_matches (some r) task = task.revision == r

-- The timestamps and the error that a new status sets.
unfoldable pub stamp : ReviewStatus → ℕ → Option Text → ReviewTask → ReviewTask
stamp ReviewStatus.approved now error task = record task { approved_at = some now }
stamp ReviewStatus.rejected now error task = record task { rejected_at = some now }
stamp ReviewStatus.publishing now error task = record task { publishing_started_at = some now }
stamp ReviewStatus.published now error task = record task {
  published_at = some now;
  published_revision = some task.revision;
}
stamp ReviewStatus.failed now error task = record task { error_message = error }
stamp _ now error task = task

pub record TransitionCall : Type 0 where
  pub task_id : ℕ
  pub new_status : ReviewStatus
  pub user_id : Option ℕ
  pub action : ReviewActionType
  pub expected_revision : Option ℕ
  pub error_message : Option Text

unfoldable pub transition : TransitionCall → ℕ → ReviewDb → Outcome
transition c now db = do
  task ← require_task c.task_id db
  guard (revision_matches c.expected_revision task) conflict
  assert_transition task.status c.new_status
  let moved : ReviewTask = record task { status = c.new_status; revision = suc task.revision }
  let stamped = stamp c.new_status now c.error_message moved
  ok (
    stamped,
    commit stamped (log_action task c.user_id c.action (some task.status) c.new_status) db,
  )

-- The status after an edit; every status but these two is refused.
unfoldable pub editing_status : ReviewStatus → Result ReviewError ReviewStatus
editing_status ReviewStatus.pending =
    assert_transition ReviewStatus.pending ReviewStatus.editing >> ok ReviewStatus.editing
editing_status ReviewStatus.editing = ok ReviewStatus.editing
editing_status old = err (illegal_transition old ReviewStatus.editing)

unfoldable pub edit_text : ℕ → Text → ℕ → ℕ → ReviewDb → Outcome
edit_text task_id content user_id expected_revision db = do
  task ← require_task task_id db
  guard (task.revision == expected_revision) conflict
  status ← editing_status task.status
  let edited : ReviewTask = record task {
    status = status;
    final_text = content;
    revision = suc task.revision;
  }
  commit_text edited RevisionSource.reviewer content user_id
      (log_action task (some user_id) ReviewActionType.edited (some task.status) status) db

-- `restore_revision` moves a pending task to editing and leaves every other status alone.
abbrev pub restored_status : ReviewStatus → ReviewStatus
restored_status ReviewStatus.pending = ReviewStatus.editing
restored_status old = old

abbrev pub restore_action : RevisionSource → ReviewActionType
restore_action RevisionSource.original = ReviewActionType.restored_original
restore_action _ = ReviewActionType.edited

unfoldable pub restore_revision : ℕ → ℕ → ℕ → ℕ → ReviewDb → Outcome
restore_revision task_id revision_number user_id expected_revision db = do
  task ← require_task task_id db
  guard (task.revision == expected_revision) conflict
  rev ← require_revision task_id revision_number db
  let status = restored_status task.status
  let restored : ReviewTask = record task {
    status = status;
    final_text = rev.content;
    revision = suc task.revision;
  }
  commit_text restored RevisionSource.restored rev.content user_id
      (log_action task (some user_id) (restore_action rev.source) (some task.status) status) db

abbrev pub can_reapply : ReviewStatus → Bool
can_reapply ReviewStatus.pending = true
can_reapply ReviewStatus.editing = true
can_reapply ReviewStatus.failed = true
can_reapply _ = false

-- The status change of `reapply_rules`, from the old status.
unfoldable pub reapply_status :
    RuleApplyResult → ℕ → ReviewStatus → ReviewTask → Result ReviewError ReviewTask
reapply_status applied now old task =
    if applied.reject
    then (assert_transition old ReviewStatus.rejected
        >> ok (record task {
          status = ReviewStatus.rejected;
          rejected_at = some now;
          decision_reason = applied.reject_reason;
        }))
    else by_status old
  where
    by_status : ReviewStatus → Result ReviewError ReviewTask
    by_status ReviewStatus.pending =
        assert_transition ReviewStatus.pending ReviewStatus.editing
        >> ok (record task { status = ReviewStatus.editing })
    by_status ReviewStatus.failed =
        assert_transition ReviewStatus.failed ReviewStatus.pending
        >> ok (record task { status = ReviewStatus.pending; error_message = none })
    by_status _ = ok task

pub record ReapplyCall : Type 0 where
  pub task_id : ℕ
  pub user_id : ℕ
  pub expected_revision : ℕ
  -- `source == "current"`.
  pub from_current : Bool
  pub confirm_reject : Bool

unfoldable pub reapplied : Host → List RuleDefinition → ReapplyCall → ReviewTask → RuleApplyResult
reapplied py rules c task =
    apply_rules py
      (record {
        source_chat_id = some task.source_chat_id;
        target_chat_id = task.target_chat_id;
        media_type = media_type_value task.media_type;
        media_count = 0;
      })
      rules (if c.from_current then task.final_text else task.original_text)

-- The new text of the task, and its commit.
unfoldable pub reapply_commit : RuleApplyResult → ReapplyCall → ℕ → ReviewTask → ReviewDb → Outcome
reapply_commit applied c now task db = do
  moved ← reapply_status applied now task.status task
  let changed : ReviewTask = record moved {
    processed_text = applied.text;
    final_text = applied.text;
    matched_rules = applied.hits;
    detected_keywords = applied.flagged;
    revision = suc task.revision;
  }
  commit_text changed RevisionSource.rules applied.text c.user_id
      (log_action task (some c.user_id) ReviewActionType.rules_reapplied (some task.status)
        changed.status)
      db

-- `none` for the task: the rules reject it, and the caller has to confirm.
abbrev pub some_task : Outcome → Result ReviewError (Option ReviewTask × ReviewDb)
some_task r = r >>= λ p. ok (some p.0, p.1)

-- The enabled rules are an argument; `load_enabled_rules` reads them in the same transaction.
unfoldable pub reapply_rules :
    Host
    → List RuleDefinition
    → ReapplyCall
    → ℕ
    → ReviewDb
    → Result ReviewError (Option ReviewTask × ReviewDb)
reapply_rules py rules c now db = do
  task ← require_task c.task_id db
  guard (task.revision == c.expected_revision) conflict
  guard (can_reapply task.status) (cannot_reapply task.status)
  let applied = reapplied py rules c task
  let changed = some_task (reapply_commit applied c now task db)
  if applied.reject && not c.confirm_reject then ok (none, db) else changed

unfoldable pub media_snapshot_from_message : NormalizedMessage → MediaSnapshot
media_snapshot_from_message m = record {
  raw_metadata = m.raw_metadata;
  media_type = m.media_type;
  album_message_ids = m.album_message_ids;
  media_items = m.media_items;
}

unfoldable pub update_media_snapshot : ℕ → NormalizedMessage → ReviewDb → Outcome
unfolding media_snapshot_from_message
update_media_snapshot task_id m db = do
  task ← require_task task_id db
  let changed : ReviewTask = record task {
    media_snapshot = media_snapshot_from_message m;
    media_count = length m.media_items;
    media_type = m.media_type;
  }
  ok (changed, record db { tasks = put_task changed db.tasks })

abbrev pub can_claim : ReviewStatus → Bool
can_claim ReviewStatus.approved = true
can_claim ReviewStatus.failed = true
can_claim _ = false

-- The `WHERE` clause of the `UPDATE` in `claim_for_publish`.
unfoldable pub is_claimable : ℕ → ReviewTask → Bool
is_claimable expected_revision task =
    task.revision == expected_revision && is_none task.published_at && can_claim task.status

unfoldable pub claim_task :
    ℕ → Option ℕ → ℕ → ReviewTask → ReviewDb → Option (ReviewTask × ReviewDb)
claim_task expected_revision user_id now task db =
    let claimed : ReviewTask = record task {
      status = ReviewStatus.publishing;
      revision = suc expected_revision;
      publishing_started_at = some now;
    } in
    if is_claimable expected_revision task
    then some (
      claimed,
      commit claimed
          (log_action task user_id ReviewActionType.publish_started (some ReviewStatus.approved)
            ReviewStatus.publishing)
          db,
    )
    else none

-- `none`: no row was updated, the race is lost.
unfoldable pub claim_for_publish : ℕ → ℕ → Option ℕ → ℕ → ReviewDb → Option (ReviewTask × ReviewDb)
claim_for_publish task_id expected_revision user_id now db = elim (find_task task_id db.tasks) [
  | none ↦ none
  | some task ↦ claim_task expected_revision user_id now task db
]
