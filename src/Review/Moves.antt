-- ===== src/Review/Moves.antt =====
-- app/review/service.py, `transition`, with its reads and its commit apart: nothing holds the row in
-- between, and the UPDATE does not ask for the revision.
use tg_forwarder.Prelude.{
  ℕ, suc, ◌≡◌, refl, ◌∙◌, ap, Option, some, arith, ==-refl, Option-cases, inl, inr, Result, ok,
  ◌>>=◌, ◌>>◌, guard,
}
use tg_forwarder.Host.{Text}
use tg_forwarder.Review.StateMachine.{ReviewStatus, ReviewError, conflict, assert_transition}
use tg_forwarder.Review.Store.{ReviewTask, ReviewAction, ReviewDb, find_task, require_task}
use tg_forwarder.Review.Service.{
  log_action, commit, revision_matches, stamp, TransitionCall, transition, Outcome,
}
use tg_forwarder.Review.Rows.{find_task-id, find_task-put_task}

-- What a session holds before its commit.
pub record Move : Type 0 where
  pub task_id : ℕ
  pub new_status : ReviewStatus
  pub revision : ℕ
  pub now : ℕ
  pub error_message : Option Text
  pub action : ReviewAction

-- The read and the checks.
unfoldable pub read_move : TransitionCall → ℕ → ReviewDb → Result ReviewError Move
read_move c now db = do
  task ← require_task c.task_id db
  guard (revision_matches c.expected_revision task) conflict
  assert_transition task.status c.new_status
  ok (record {
    task_id = task.id;
    new_status = c.new_status;
    revision = suc task.revision;
    now = now;
    error_message = c.error_message;
    action = log_action task c.user_id c.action (some task.status) c.new_status;
  })

abbrev moved_row : Move → ReviewTask → ReviewTask
moved_row d task =
    stamp d.new_status d.now d.error_message
      (record task { status = d.new_status; revision = d.revision })

-- The UPDATE of the task's row as it is now, the INSERT, and the commit.
unfoldable pub flush_move : Move → ReviewDb → Outcome
flush_move d db = do
  task ← require_task d.task_id db
  ok (moved_row d task, commit (moved_row d task) d.action db)

-- A transition that no other call comes into is the one of `Review.Service`.
read_move-flush_move :
    (c : TransitionCall) (now : ℕ) (db : ReviewDb)
    → (read_move c now db >>= λ d. flush_move d db) ≡ transition c now db
unfolding read_move flush_move transition require_task
read_move-flush_move c now db = elim (Option-cases (find_task c.task_id db.tasks)) [
  | inl e ↦ ground arith
  | inr (t, e) ↦
      let id = find_task-id c.task_id db.tasks t e in
      let here : find_task t.id db.tasks ≡ some t = ap (λ k. find_task k db.tasks) id ∙ e in
      ground arith
]

module _ (d : Move) (t : ReviewTask) where
  moved_row-id : (moved_row d t).id ≡ t.id
  unfolding stamp
  moved_row-id = ground arith

  moved_row-status : (moved_row d t).status ≡ d.new_status
  unfolding stamp
  moved_row-status = ground arith

  moved_row-revision : (moved_row d t).revision ≡ d.revision
  unfolding stamp
  moved_row-revision = ground arith

-- What a move has of the row that it read.
read_move-parts :
    (c : TransitionCall) (now : ℕ) (db : ReviewDb) (t : ReviewTask) (d : Move)
    → find_task c.task_id db.tasks ≡ some t
    → read_move c now db ≡ ok d
    → (d.task_id ≡ t.id) × (d.new_status ≡ c.new_status) × (d.revision ≡ suc t.revision)
unfolding read_move require_task assert_transition
read_move-parts c now db t d e h = (ground arith, ground arith, ground arith)

flushed_move :
    (d : Move) (db : ReviewDb) (t : ReviewTask)
    → find_task d.task_id db.tasks ≡ some t
    → flush_move d db ≡ ok (moved_row d t, commit (moved_row d t) d.action db)
unfolding flush_move require_task
flushed_move d db t e = ground arith

committed_row :
    (i : ℕ) (d : Move) (db : ReviewDb) (t : ReviewTask)
    → find_task i db.tasks ≡ some t
    → find_task i (commit (moved_row d t) d.action db).tasks ≡ some (moved_row d t)
unfolding commit
committed_row i d db t e =
    find_task-put_task i (moved_row d t) db.tasks
    ∙ rw (moved_row-id d t, find_task-id i db.tasks t e, ==-refl i, e) refl

-- Two transitions of one task that read the same rows are both committed: the row has the status
-- of the later one, which never saw that of the first, and its revision has gone up by one only.
pub flush_move-both :
    (c c' : TransitionCall) (now now' : ℕ) (db : ReviewDb) (t : ReviewTask) (d d' : Move)
    → c'.task_id ≡ c.task_id
    → find_task c.task_id db.tasks ≡ some t
    → read_move c now db ≡ ok d
    → read_move c' now' db ≡ ok d'
    → (u : ReviewTask) × (v : ReviewTask) × (db1 : ReviewDb) × (db2 : ReviewDb) × (flush_move d db
        ≡ ok (u, db1))
      × (flush_move d' db1 ≡ ok (v, db2))
      × (find_task c.task_id db2.tasks ≡ some v)
      × (u.status ≡ c.new_status)
      × (v.status ≡ c'.new_status)
      × (v.revision ≡ suc t.revision)
flush_move-both c c' now now' db t d d' same e h h' =
    let id = find_task-id c.task_id db.tasks t e in
    let e' : find_task c'.task_id db.tasks ≡ some t = ap (λ k. find_task k db.tasks) same ∙ e in
    let (i, status, _) = read_move-parts c now db t d e h in
    let (i', status', revision') = read_move-parts c' now' db t d' e' h' in
    let one : d.task_id ≡ c.task_id = i ∙ id in
    let two : d'.task_id ≡ c.task_id = i' ∙ id in
    let u = moved_row d t in
    let db1 = commit u d.action db in
    let v = moved_row d' u in
    let there : find_task c.task_id db1.tasks ≡ some u = committed_row c.task_id d db t e in
    (
      u,
      v,
      db1,
      commit v d'.action db1,
      flushed_move d db t (ap (λ k. find_task k db.tasks) one ∙ e),
      flushed_move d' db1 u (ap (λ k. find_task k db1.tasks) two ∙ there),
      committed_row c.task_id d' db1 u there,
      moved_row-status d t ∙ status,
      moved_row-status d' u ∙ status',
      moved_row-revision d' u ∙ revision',
    )
