-- ===== src/Review/Locking.antt =====
-- app/review/service.py: the revision number as an optimistic lock, and the statuses that are
-- final.
use native.Mathlib.Decide.{ℕ_discrete}
use tg_forwarder.Prelude.{
  ℕ, ◌≤◌, ◌≡◌, ◌≢◌, refl, sym, ◌∙◌, ap, Option, none, some, List, arith, ==-refl, Result, ok, err,
}
use tg_forwarder.Host.{Host}
use tg_forwarder.Review.StateMachine.{ReviewError, conflict}
use tg_forwarder.Review.Store.{ReviewTask, ReviewDb, find_task, put_task, require_task}
use tg_forwarder.Review.Service.{
  stamp, transition, edit_text, restore_revision, reapply_rules, is_claimable,
}
use tg_forwarder.Review.Calls.{
  Call, transitions, edits, restores, reapplies, snapshots, claims, creates, call, run, Change,
  moved, edited, restored, ruled, snapped, claimed,
}
use tg_forwarder.Review.Effects.{writes, call-Wrote}
use tg_forwarder.Review.Rows.{find_task-id, find_task-put_task, Change-id, run-Later}

-- The task and the revision that a call expects.
abbrev expects_revision : ℕ → Option ℕ → Option (ℕ × ℕ)
expects_revision i none = none
expects_revision i (some r) = some (i, r)

abbrev pub expects : Call → Option (ℕ × ℕ)
expects (transitions c) = expects_revision c.task_id c.expected_revision
expects (edits i content user r) = some (i, r)
expects (restores i n user r) = some (i, r)
expects (reapplies rules c) = some (c.task_id, c.expected_revision)
expects _ = none

abbrev pub Grows : ReviewTask → ReviewTask → Type 0
Grows t u = t.revision ≤ u.revision

pub Change-Grows : (t t' : ReviewTask) → Change t t' → Grows t t'
unfolding stamp is_claimable
Change-Grows t t' (moved new now e a eq) = ground arith
Change-Grows t t' (edited st content a eq) = ground arith
Change-Grows t t' (restored content eq) = ground arith
Change-Grows t t' (ruled applied now m a eq) = ground arith
Change-Grows t t' (snapped m eq) = ground arith
Change-Grows t t' (claimed rev now a eq) = ground arith

pub run-Grows :
    (py : Host) (cs : List (ℕ × Call)) (t : ReviewTask) (i : ℕ) (db : ReviewDb)
    → find_task i db.tasks ≡ some t
    → (u : ReviewTask) × (find_task i (run py cs db).tasks ≡ some u) × (t.revision ≤ u.revision)
run-Grows = run-Later Grows (λ t. omega arith) (λ t u v r ch. omega (arith, Change-Grows u v ch))

-- A call that expects a revision which the task has left behind raises a conflict.
stale_call :
    (py : Host) (now : ℕ) (c : Call) (i r : ℕ) (db : ReviewDb) (u : ReviewTask)
    → expects c ≡ some (i, r)
    → find_task i db.tasks ≡ some u
    → r ≢ u.revision
    → call py now c db ≡ err conflict
unfolding call transition edit_text restore_revision reapply_rules require_task
stale_call py now (transitions c) i r db u e f ne = ground arith
stale_call py now (edits j content user s) i r db u e f ne = ground arith
stale_call py now (restores j n user s) i r db u e f ne = ground arith
stale_call py now (reapplies rules c) i r db u e f ne = ground arith
stale_call py now (snapshots j m) i r db u e f ne = absurd (ground arith)
stale_call py now (claims j s user) i r db u e f ne = absurd (ground arith)
stale_call py now (creates c) i r db u e f ne = absurd (ground arith)

accepted :
    (py : Host) (now : ℕ) (c : Call) (i r : ℕ) (db db' : ReviewDb) (t : ReviewTask)
    → expects c ≡ some (i, r)
    → find_task i db.tasks ≡ some t
    → call py now c db ≡ ok db'
    → t.revision ≡ r
accepted py now c i r db db' t ex f h = elim (ℕ_discrete t.revision r) [
  | yes e ↦ e
  | no ne ↦ absurd (clash (stale_call py now c i r db t ex f (λ e. ne (sym e))) h)
]
  where
    clash : {x : Result ReviewError ReviewDb} → x ≡ err conflict → x ≡ ok db' → ⊥
    clash a b = cc

written :
    (i : ℕ) (db db' : ReviewDb) (t t' : ReviewTask)
    → find_task i db.tasks ≡ some t
    → Change t t'
    → db'.tasks ≡ put_task t' db.tasks
    → find_task i db'.tasks ≡ some t'
written i db db' t t' f ch eq =
    let t_id : t.id ≡ i = find_task-id i db.tasks t f in
    let id : t'.id ≡ i = Change-id t t' ch ∙ t_id in
    ap (find_task i) eq ∙ (find_task-put_task i t' db.tasks ∙ rw (id, ==-refl i, f) refl)

-- No lost update between calls that follow one another. Once a call that expects revision `r` of a
-- task has written it, every later call that expects the same revision of that task raises a
-- conflict, whatever calls are made between.
pub conflict_after_write :
    (py : Host) (now now' : ℕ) (c c' : Call) (i r : ℕ) (db db' : ReviewDb) (cs : List (ℕ × Call))
    → expects c ≡ some (i, r)
    → writes c ≡ some i
    → expects c' ≡ some (i, r)
    → call py now c db ≡ ok db'
    → call py now' c' (run py cs db') ≡ err conflict
conflict_after_write py now now' c c' i r db db' cs ex w ex' h =
    let (t, t', f, ch, up, eq, _, _) = call-Wrote py now c i db db' w h in
    let at : t.revision ≡ r = accepted py now c i r db db' t ex f h in
    let here : find_task i db'.tasks ≡ some t' = written i db db' t t' f ch eq in
    let (u, g, le) = run-Grows py cs t' i db' here in
    stale_call py now' c' i r (run py cs db') u ex' g (λ e. omega arith)
