-- ===== src/Publish/Stuck.antt =====
-- app/review/publish.py and app/review/service.py: a revision that is restored while its task is
-- published.
use tg_forwarder.Prelude.{
  ℕ, suc, ◌≡◌, ◌≢◌, ◌∙◌, ap, Bool, true, false, Option, none, some, arith, ok, err, Result-cases,
  inl, inr,
}
use tg_forwarder.Host.{Text}
use tg_forwarder.Review.StateMachine.{ReviewStatus, ReviewActionType, conflict}
use tg_forwarder.Review.Store.{
  ReviewTask, ReviewDb, find_task, put_task, insert_revision, require_task, require_revision,
}
use tg_forwarder.Review.Service.{commit, commit_text, restored_status, restore_revision, transition}
use tg_forwarder.Publish.Task.{
  PublishDb, Publishing, Attempt, raised, blocked, delivered, settle, fail_claimed_task, conclude,
}
use tg_forwarder.Publish.Held.{Held, put_found}

module _ (p : Publishing) (task : ReviewTask) where
  settle-stale :
      (status : ReviewStatus) (action : ReviewActionType) (error : Option Text) (db : ReviewDb)
      (u : ReviewTask)
      → find_task task.id db.tasks ≡ some u
      → u.revision ≢ task.revision
      → settle p task status action error db ≡ err conflict
  unfolding settle transition require_task
  settle-stale status action error db u f ne = ground arith

  fail-stale :
      (e : Text) (retry : Bool) (db : PublishDb) (u : ReviewTask)
      → find_task task.id db.review.tasks ≡ some u
      → u.revision ≢ task.revision
      → fail_claimed_task p task e retry db ≡ err conflict
  unfolding fail_claimed_task
  fail-stale e retry db u f ne = ground (
    arith,
    settle-stale ReviewStatus.failed ReviewActionType.publish_failed (some e) db.review u f ne,
  )

  conclude-stale :
      (a : Attempt) (db : PublishDb) (u : ReviewTask)
      → find_task task.id db.review.tasks ≡ some u
      → u.revision ≢ task.revision
      → conclude p task a db ≡ err conflict
  unfolding conclude
  conclude-stale (raised e) db u f ne = fail-stale e true db u f ne
  conclude-stale (blocked e) db u f ne =
      let once = fail-stale e false db u f ne in
      let again = fail-stale (p.describe conflict) true db u f ne in ground arith
  conclude-stale (delivered s) db u f ne =
      ground (
        arith,
        settle-stale ReviewStatus.published ReviewActionType.published none db.review u f ne,
      )

-- What a restoration writes.
restore-written :
    (t t' : ReviewTask) (i n user rev : ℕ) (db review : ReviewDb)
    → find_task i db.tasks ≡ some t
    → restore_revision i n user rev db ≡ ok (t', review)
    → (review.tasks ≡ put_task t' db.tasks)
      × (t'.id ≡ t.id)
      × (t'.status ≡ restored_status t.status)
      × (t'.revision ≡ suc t.revision)
unfolding restore_revision require_task commit_text commit insert_revision
restore-written t t' i n user rev db review f e = elim (Result-cases (require_revision i n db)) [
  | inl (x, r) ↦ absurd (ground arith)
  | inr (r, g) ↦ (ground arith, ground arith, ground arith, ground arith)
]

-- A revision that is restored while its task is being published leaves the task in publishing: the
-- restoration succeeds on a claimed task, and then the publication ends in a conflict, however its
-- attempt went, so that nothing records the messages that it may have sent.
pub restore-conflict :
    (p : Publishing) (task t : ReviewTask) (a : Attempt) (n user : ℕ) (db : PublishDb)
    (review : ReviewDb)
    → Held task db.review
    → restore_revision task.id n user task.revision db.review ≡ ok (t, review)
    → (conclude p task a (record db { review = review }) ≡ err conflict)
      × (find_task task.id review.tasks ≡ some t)
      × (t.status ≡ ReviewStatus.publishing)
restore-conflict p task t a n user db review h e =
    let (rows, id, status, revision) =
      restore-written h.row t task.id n user task.revision db.review review h.found e in
    let same = h.same_revision in
    let publishing = h.publishing in
    let found : find_task task.id review.tasks ≡ some t =
      ap (find_task task.id) rows ∙ put_found task.id h.row t db.review.tasks h.found id in
    (
      conclude-stale p task a (record db { review = review }) t found (λ x. omega arith),
      found,
      ground arith,
    )
