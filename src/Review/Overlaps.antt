-- ===== src/Review/Overlaps.antt =====
-- app/review/service.py, `edit_text` and `restore_revision`: two calls of which one commits between
-- the reads and the commit of the other.
use tg_forwarder.Prelude.{
  ℕ, suc, ◌≡◌, refl, ◌∙◌, ap, true, ◌&&◌, some, List, [], ◌∷◌, ◌++◌, arith, ◌==◌, ==-refl,
  Bool-cases, Option-cases, Result-cases, inl, inr, Result, ok, err,
}
use tg_forwarder.Host.{Host}
use tg_forwarder.Review.StateMachine.{ReviewError, integrity}
use tg_forwarder.Review.Store.{
  ReviewTask, ContentRevision, ReviewDb, find_task, put_task, has_revision, insert_revision,
  require_task, require_revision,
}
use tg_forwarder.Review.Service.{editing_status, commit}
use tg_forwarder.Review.Calls.{Call, call, rolled_back, run, Effect, kept, changed, added}
use tg_forwarder.Review.Effects.{call-Effect}
use tg_forwarder.Review.Locking.{run-Grows}
use tg_forwarder.Review.Rows.{find_task-id, find_task-put_task}
use tg_forwarder.Review.Drafts.{
  TextCall, edit, restore, task_of, expected, Draft, reads, written, flush,
}

has_revision-append :
    (i n : ℕ) (revs more : List ContentRevision)
    → has_revision i n revs ≡ true
    → has_revision i n (revs ++ more) ≡ true
unfolding has_revision
has_revision-append i n [] more h = absurd (ground arith)
has_revision-append i n (r ∷ revs) more h =
    elim (Bool-cases (r.review_task_id == i && r.revision_number == n)) [
      | inl b ↦ rw b refl
      | inr b ↦ rw b (has_revision-append i n revs more (rw b at h))
    ]

has_revision-last :
    (r : ContentRevision) (revs : List ContentRevision)
    → has_revision r.review_task_id r.revision_number (revs ++ r ∷ []) ≡ true
unfolding has_revision
has_revision-last r [] = rw (==-refl r.review_task_id, ==-refl r.revision_number) refl
has_revision-last r (s ∷ revs) = ground (arith, has_revision-last r revs)

module _ (i n : ℕ) where
  Effect-has_revision :
      (db db' : ReviewDb)
      → Effect db db'
      → has_revision i n db.revisions ≡ true
      → has_revision i n db'.revisions ≡ true
  Effect-has_revision db db' (kept _ e _) h = ap (has_revision i n) e ∙ h
  Effect-has_revision db db' (changed _ _ _ _ _ _ (inl e) _) h = ap (has_revision i n) e ∙ h
  Effect-has_revision db db' (changed _ _ _ _ _ _ (inr (r, _, _, e)) _) h =
      ap (has_revision i n) e ∙ has_revision-append i n db.revisions (r ∷ []) h
  Effect-has_revision db db' (added c now _ e _) h =
      ap (has_revision i n) e
      ∙ has_revision-append i n _ _ (has_revision-append i n db.revisions _ h)

  rolled_back-has_revision :
      (py : Host) (now : ℕ) (c : Call) (db : ReviewDb) (r : Result ReviewError ReviewDb)
      → call py now c db ≡ r
      → has_revision i n db.revisions ≡ true
      → has_revision i n (rolled_back db r).revisions ≡ true
  rolled_back-has_revision py now c db (err x) eq h = h
  rolled_back-has_revision py now c db (ok db') eq h =
      Effect-has_revision db db' (call-Effect db py now c db' eq) h

  run-has_revision :
      (py : Host) (cs : List (ℕ × Call)) (db : ReviewDb)
      → has_revision i n db.revisions ≡ true
      → has_revision i n (run py cs db).revisions ≡ true
  unfolding run
  run-has_revision py [] db h = h
  run-has_revision py ((now, c) ∷ cs) db h =
      run-has_revision py cs (rolled_back db (call py now c db))
        (rolled_back-has_revision py now c db (call py now c db) refl h)

-- A draft has the task that its call names, and the number after the expected revision.
abbrev Numbered : ℕ → ℕ → Draft → Type 0
Numbered i r d =
    (d.task_id ≡ i) × (d.created.review_task_id ≡ i) × (d.created.revision_number ≡ suc r)

require_task-some :
    (i : ℕ) (db : ReviewDb) (t : ReviewTask)
    → require_task i db ≡ ok t
    → find_task i db.tasks ≡ some t
unfolding require_task
require_task-some i db t h = ground arith

reads-Numbered :
    (c : TextCall) (db : ReviewDb) (d : Draft)
    → reads c db ≡ ok d
    → Numbered (task_of c) (expected c) d
unfolding reads require_task
reads-Numbered (edit i content user rev) db d h = elim (Option-cases (find_task i db.tasks)) [
  | inl e ↦ absurd (ground arith)
  | inr (t, e) ↦
      let id = find_task-id i db.tasks t e in
      elim (Result-cases (editing_status t.status)) [
        | inl (x, f) ↦ absurd (ground arith)
        | inr (st, f) ↦ (ground arith, ground arith, ground arith)
      ]
]
reads-Numbered (restore i n user rev) db d h = elim (Option-cases (find_task i db.tasks)) [
  | inl e ↦ absurd (ground arith)
  | inr (t, e) ↦
      let id = find_task-id i db.tasks t e in
      elim (Result-cases (require_revision i n db)) [
        | inl (x, f) ↦ absurd (ground arith)
        | inr (r, f) ↦ (ground arith, ground arith, ground arith)
      ]
]

flush-parts :
    (d : Draft) (db db' : ReviewDb)
    → flush d db ≡ ok db'
    → (t : ReviewTask) × (find_task d.task_id db.tasks ≡ some t)
      × (db'.tasks ≡ put_task (written d t) db.tasks)
      × (db'.revisions ≡ db.revisions ++ d.created ∷ [])
unfolding flush insert_revision require_task commit
flush-parts d db db' h = elim (Option-cases (find_task d.task_id db.tasks)) [
  | inl e ↦ absurd (ground arith)
  | inr (t, e) ↦ (t, e, ground arith, ground arith)
]

flush_taken :
    (d : Draft) (db : ReviewDb) (t : ReviewTask)
    → find_task d.task_id db.tasks ≡ some t
    → has_revision d.created.review_task_id d.created.revision_number db.revisions ≡ true
    → flush d db ≡ err integrity
unfolding flush insert_revision require_task
flush_taken d db t f h = ground arith

-- Two texts of one task that were read at the same revision are never both committed: when one of
-- them is, whatever calls follow it, the commit of the other ends in an IntegrityError.
pub flush-integrity :
    (py : Host) (c c' : TextCall) (d d' : Draft) (seen seen' db db' : ReviewDb)
    (cs : List (ℕ × Call))
    → task_of c ≡ task_of c'
    → expected c ≡ expected c'
    → reads c seen ≡ ok d
    → reads c' seen' ≡ ok d'
    → flush d db ≡ ok db'
    → flush d' (run py cs db') ≡ err integrity
flush-integrity py c c' d d' seen seen' db db' cs same at h h' w =
    let (i, own, number) = reads-Numbered c seen d h in
    let (i', own', number') = reads-Numbered c' seen' d' h' in
    let (t, there, rows_after, revs) = flush-parts d db db' w in
    let left = find_task d.task_id db'.tasks in
    let found : find_task d.task_id db'.tasks ≡ some (written d t) =
      ap (find_task d.task_id) rows_after
      ∙ (find_task-put_task d.task_id (written d t) db.tasks
          ∙ rw (find_task-id d.task_id db.tasks t there, ==-refl d.task_id, there) refl) in
    let taken : has_revision d.created.review_task_id d.created.revision_number db'.revisions
        ≡ true =
      ap (has_revision d.created.review_task_id d.created.revision_number) revs
      ∙ has_revision-last d.created db.revisions in
    let (u, later, _) = run-Grows py cs (written d t) d.task_id db' found in
    let kept_taken =
      run-has_revision d.created.review_task_id d.created.revision_number py cs db' taken in
    let one_task : d'.task_id ≡ d.task_id = omega arith in
    let one_key : d'.created.review_task_id ≡ d.created.review_task_id = omega arith in
    let one_number : d'.created.revision_number ≡ d.created.revision_number = omega arith in
    flush_taken d' (run py cs db') u (ap (λ k. find_task k (run py cs db').tasks) one_task ∙ later)
      (rw (one_key, one_number) kept_taken)
