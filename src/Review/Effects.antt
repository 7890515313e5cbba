-- ===== src/Review/Effects.antt =====
-- app/review/service.py: a call that succeeds changes at most one row, in one of the ways of
-- `Change`.
use mathlib.Core.Path.{subst}
use tg_forwarder.Prelude.{
  ℕ, suc, ◌≡◌, refl, true, not, ◌&&◌, Option, none, some, inl, inr, List, arith, if◌then◌else◌,
  Result, ok, length, Option-cases, Result-cases, Bool-cases,
}
use tg_forwarder.Host.{Text, Host}
use tg_forwarder.Message.{NormalizedMessage}
use tg_forwarder.Rules.Types.{RuleDefinition, RuleApplyResult}
use tg_forwarder.Review.StateMachine.{
  ReviewStatus, ReviewActionType, ReviewError, assert_transition,
}
use tg_forwarder.Review.Store.{
  ReviewTask, RevisionSource, ReviewAction, ReviewDb, find_task, find_processed, put_task,
  insert_revision, require_task, require_revision,
}
use tg_forwarder.Review.Service.{
  log_action, restore_action, commit, commit_text, stamp, TransitionCall, transition,
  editing_status, edit_text, restored_status, restore_revision, reapply_status, ReapplyCall,
  reapplied, reapply_commit, reapply_rules, media_snapshot_from_message, update_media_snapshot,
  is_claimable, claim_task, claim_for_publish,
}
use tg_forwarder.Review.Create.{CreateCall, insert_task, create_from_message}
use tg_forwarder.Review.Calls.{
  Call, transitions, edits, restores, reapplies, snapshots, claims, creates, rows, rows_or, call,
  moved, edited, restored, ruled, snapped, claimed, Revised, Effect, kept, changed, added, Wrote,
}

Wrote-Effect : (i : ℕ) (db db' : ReviewDb) → Wrote i db db' → Effect db db'
Wrote-Effect i db db' (t, t', e, ch, _, eq, revs, next) = changed i t t' e ch eq revs next

stamp-revision :
    (new : ReviewStatus) (now : ℕ) (e : Option Text) (t : ReviewTask)
    → (stamp new now e t).revision ≡ t.revision
unfolding stamp
stamp-revision new now e t = ground arith

commit_text-rows :
    (t : ReviewTask) (source : RevisionSource) (content : Text) (user : ℕ) (a : ReviewAction)
    (db db' : ReviewDb)
    → rows (commit_text t source content user a db) ≡ ok db'
    → (db'.tasks ≡ put_task t db.tasks) × Revised t db db' × (db'.next_id ≡ db.next_id)
unfolding commit_text commit insert_revision
commit_text-rows t source content user a db db' h = (
  ground arith,
  inr (
    record {
      review_task_id = t.id;
      revision_number = t.revision;
      source = source;
      content = content;
      created_by = some user;
    },
    refl,
    refl,
    ground arith,
  ),
  ground arith,
)

ok-injective : {a b : ReviewDb} → ◌≡◌ {A = Result ReviewError ReviewDb} (ok a) (ok b) → a ≡ b
ok-injective h = cc

module _ (db : ReviewDb) where
  -- The inversion of a successful `transition`.
  transition-Wrote :
      (c : TransitionCall) (now : ℕ) (db' : ReviewDb)
      → rows (transition c now db) ≡ ok db'
      → Wrote c.task_id db db'
  unfolding transition require_task assert_transition commit
  transition-Wrote c now db' h = elim (Option-cases (find_task c.task_id db.tasks)) [
    | inl e ↦ absurd (ground arith)
    | inr (t, e) ↦
        let m : ReviewTask = record t { status = c.new_status; revision = suc t.revision } in
        let t' = stamp c.new_status now c.error_message m in
        (
          t,
          t',
          e,
          moved c.new_status now c.error_message (ground arith) refl,
          stamp-revision c.new_status now c.error_message m,
          ground arith,
          inl (ground arith),
          ground arith,
        )
  ]

  edit_text-Wrote :
      (i : ℕ) (content : Text) (user rev : ℕ) (db' : ReviewDb)
      → rows (edit_text i content user rev db) ≡ ok db'
      → Wrote i db db'
  unfolding edit_text require_task
  edit_text-Wrote i content user rev db' h = elim (Option-cases (find_task i db.tasks)) [
    | inl e ↦ absurd (ground arith)
    | inr (t, e) ↦ elim (Result-cases (editing_status t.status)) [
      | inl (x, f) ↦ absurd (ground arith)
      | inr (st, f) ↦
          let t' : ReviewTask = record t {
            status = st;
            final_text = content;
            revision = suc t.revision;
          } in
          let a = log_action t (some user) ReviewActionType.edited (some t.status) st in
          let (tasks, revs, next) =
            commit_text-rows t' RevisionSource.reviewer content user a db db' (ground arith) in
          (t, t', e, edited st content f refl, refl, tasks, revs, next)
    ]
  ]

  restore_revision-Wrote :
      (i n user rev : ℕ) (db' : ReviewDb)
      → rows (restore_revision i n user rev db) ≡ ok db'
      → Wrote i db db'
  unfolding restore_revision require_task
  restore_revision-Wrote i n user rev db' h = elim (Option-cases (find_task i db.tasks)) [
    | inl e ↦ absurd (ground arith)
    | inr (t, e) ↦ elim (Result-cases (require_revision i n db)) [
      | inl (x, f) ↦ absurd (ground arith)
      | inr (r, f) ↦
          let st = restored_status t.status in
          let t' : ReviewTask = record t {
            status = st;
            final_text = r.content;
            revision = suc t.revision;
          } in
          let a = log_action t (some user) (restore_action r.source) (some t.status) st in
          let (tasks, revs, next) =
            commit_text-rows t' RevisionSource.restored r.content user a db db' (ground arith) in
          (t, t', e, restored r.content refl, refl, tasks, revs, next)
    ]
  ]

  reapply_commit-Wrote :
      (applied : RuleApplyResult) (c : ReapplyCall) (now i : ℕ) (t : ReviewTask) (db' : ReviewDb)
      → find_task i db.tasks ≡ some t
      → rows (reapply_commit applied c now t db) ≡ ok db'
      → Wrote i db db'
  unfolding reapply_commit
  reapply_commit-Wrote applied c now i t db' e h =
      elim (Result-cases (reapply_status applied now t.status t)) [
        | inl (x, f) ↦ absurd (ground arith)
        | inr (m, f) ↦
            let t' : ReviewTask = record m {
              processed_text = applied.text;
              final_text = applied.text;
              matched_rules = applied.hits;
              detected_keywords = applied.flagged;
              revision = suc t.revision;
            } in
            let a =
              log_action t (some c.user_id) ReviewActionType.rules_reapplied (some t.status)
                t'.status in
            let (tasks, revs, next) =
              commit_text-rows t' RevisionSource.rules applied.text c.user_id a db db'
                (ground arith) in
            (t, t', e, ruled applied now m f refl, refl, tasks, revs, next)
      ]

  reapply_rules-Effect :
      (py : Host) (rules : List RuleDefinition) (c : ReapplyCall) (now : ℕ) (db' : ReviewDb)
      → rows (reapply_rules py rules c now db) ≡ ok db'
      → Effect db db'
  unfolding reapply_rules require_task
  reapply_rules-Effect py rules c now db' h = elim (Option-cases (find_task c.task_id db.tasks)) [
    | inl e ↦ absurd (ground arith)
    | inr (t, e) ↦
        let applied = reapplied py rules c t in
        elim (Bool-cases (applied.reject && not c.confirm_reject)) [
          | inl b ↦ kept (ground arith) (ground arith) (ground arith)
          | inr b ↦
              Wrote-Effect c.task_id db db'
                (reapply_commit-Wrote applied c now c.task_id t db' e (ground arith))
        ]
  ]

  -- A confirmed call of `reapply_rules` that succeeds has written.
  reapply_rules-Wrote :
      (py : Host) (rules : List RuleDefinition) (c : ReapplyCall) (now : ℕ) (db' : ReviewDb)
      → c.confirm_reject ≡ true
      → rows (reapply_rules py rules c now db) ≡ ok db'
      → Wrote c.task_id db db'
  unfolding reapply_rules require_task
  reapply_rules-Wrote py rules c now db' y h = elim (Option-cases (find_task c.task_id db.tasks)) [
    | inl e ↦ absurd (ground arith)
    | inr (t, e) ↦
        reapply_commit-Wrote (reapplied py rules c t) c now c.task_id t db' e (ground arith)
  ]

  update_media_snapshot-Effect :
      (i : ℕ) (m : NormalizedMessage) (db' : ReviewDb)
      → rows (update_media_snapshot i m db) ≡ ok db'
      → Effect db db'
  unfolding update_media_snapshot require_task
  update_media_snapshot-Effect i m db' h = elim (Option-cases (find_task i db.tasks)) [
    | inl e ↦ absurd (ground arith)
    | inr (t, e) ↦
        changed i t
          (record t {
            media_snapshot = media_snapshot_from_message m;
            media_count = length m.media_items;
            media_type = m.media_type;
          })
          e (snapped m refl) (ground arith) (inl (ground arith)) (ground arith)
  ]

  claim_for_publish-Effect :
      (i rev now : ℕ) (user : Option ℕ)
      → Effect db (rows_or db (claim_for_publish i rev user now db))
  unfolding claim_for_publish claim_task commit
  claim_for_publish-Effect i rev now user = elim (Option-cases (find_task i db.tasks)) [
    | inl e ↦ kept (ground arith) (ground arith) (ground arith)
    | inr (t, e) ↦ elim (Bool-cases (is_claimable rev t)) [
      | inl b ↦
          changed i t
            (record t {
              status = ReviewStatus.publishing;
              revision = suc rev;
              publishing_started_at = some now;
            })
            e (claimed rev now b refl) (ground arith) (inl (ground arith)) (ground arith)
      | inr b ↦ kept (ground arith) (ground arith) (ground arith)
    ]
  ]

  create_from_message-Effect :
      (c : CreateCall) (now : ℕ) (db' : ReviewDb)
      → rows (create_from_message c now db) ≡ ok db'
      → Effect db db'
  unfolding create_from_message insert_task insert_revision
  create_from_message-Effect c now db' h =
      elim (Option-cases (find_processed c.processed.id db.tasks)) [
        | inl e ↦ added c now (ground arith) (ground arith) (ground arith)
        | inr (t, e) ↦ kept (ground arith) (ground arith) (ground arith)
      ]

  -- A call that succeeds changes at most one row, in one of the ways of `Change`.
  pub call-Effect :
      (py : Host) (now : ℕ) (c : Call) (db' : ReviewDb) → call py now c db ≡ ok db' → Effect db db'
  unfolding call
  call-Effect py now (transitions c) db' h =
      Wrote-Effect c.task_id db db' (transition-Wrote c now db' h)
  call-Effect py now (edits i content user rev) db' h =
      Wrote-Effect i db db' (edit_text-Wrote i content user rev db' h)
  call-Effect py now (restores i n user rev) db' h =
      Wrote-Effect i db db' (restore_revision-Wrote i n user rev db' h)
  call-Effect py now (reapplies rules c) db' h = reapply_rules-Effect py rules c now db' h
  call-Effect py now (snapshots i m) db' h = update_media_snapshot-Effect i m db' h
  call-Effect py now (claims i rev user) db' h =
      subst (Effect db) (ok-injective h) (claim_for_publish-Effect i rev now user)
  call-Effect py now (creates c) db' h = create_from_message-Effect c now db' h

-- The call moves the revision of its task when it succeeds.
abbrev pub writes : Call → Option ℕ
writes (transitions c) = some c.task_id
writes (edits i content user rev) = some i
writes (restores i n user rev) = some i
writes (reapplies rules c) = if c.confirm_reject then some c.task_id else none
writes _ = none

pub call-Wrote :
    (py : Host) (now : ℕ) (c : Call) (i : ℕ) (db db' : ReviewDb)
    → writes c ≡ some i
    → call py now c db ≡ ok db'
    → Wrote i db db'
unfolding call
call-Wrote py now (transitions c) i db db' w h =
    let e : c.task_id ≡ i = ground arith in
    subst (λ k. Wrote k db db') e (transition-Wrote db c now db' h)
call-Wrote py now (edits j content user rev) i db db' w h =
    let e : j ≡ i = ground arith in
    subst (λ k. Wrote k db db') e (edit_text-Wrote db j content user rev db' h)
call-Wrote py now (restores j n user rev) i db db' w h =
    let e : j ≡ i = ground arith in
    subst (λ k. Wrote k db db') e (restore_revision-Wrote db j n user rev db' h)
call-Wrote py now (reapplies rules c) i db db' w h =
    let e : c.task_id ≡ i = ground arith in
    subst (λ k. Wrote k db db') e (reapply_rules-Wrote db py rules c now db' (ground arith) h)
call-Wrote py now (snapshots j m) i db db' w h = absurd (ground arith)
call-Wrote py now (claims j rev user) i db db' w h = absurd (ground arith)
call-Wrote py now (creates c) i db db' w h = absurd (ground arith)
