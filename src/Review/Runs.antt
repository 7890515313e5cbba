-- ===== src/Review/Runs.antt =====
-- app/review/service.py: what each change keeps, a sequence of calls keeps for every task.
use mathlib.Core.Path.{subst}
use tg_forwarder.Prelude.{
  ℕ, ◌≡◌, refl, Bool, true, false, some, inl, inr, List, [], ◌∷◌, arith, ◌==◌, if◌then◌else◌, All,
  All-append, Result, ok, err, Bool-cases,
}
use tg_forwarder.Host.{Host}
use tg_forwarder.Review.StateMachine.{ReviewError}
use tg_forwarder.Review.Store.{ReviewTask, ReviewDb, find_task, put_task}
use tg_forwarder.Review.Create.{CreateCall, new_task}
use tg_forwarder.Review.Calls.{Call, call, rolled_back, run, Change, Effect, kept, changed, added}
use tg_forwarder.Review.Effects.{call-Effect}

module _ (P : ReviewTask → Type 0) where
  pub All-put_task :
      (t : ReviewTask) (ts : List ReviewTask) → P t → All P ts → All P (put_task t ts)
  unfolding put_task
  All-put_task t [] p h = tt
  All-put_task t (u ∷ us) p h = (chosen (u.id == t.id), All-put_task t us p h.1)
    where
      chosen : (b : Bool) → P (if b then t else u)
      chosen true = p
      chosen false = h.0

  pub All-find_task :
      (i : ℕ) (ts : List ReviewTask) (t : ReviewTask) → All P ts → find_task i ts ≡ some t → P t
  unfolding find_task
  All-find_task i [] t h e = absurd (ground arith)
  All-find_task i (u ∷ us) t h e = elim (Bool-cases (u.id == i)) [
    | inl b ↦ let same : u ≡ t = ground arith in subst P same h.0
    | inr b ↦ All-find_task i us t h.1 (ground arith)
  ]

-- A property of rows that new rows have and changes keep holds of all rows after any calls.
module _ (P : ReviewTask → Type 0) (new : (c : CreateCall) (now i : ℕ) → P (new_task c now i))
    (keep : (t t' : ReviewTask) → Change t t' → P t → P t') where
  Effect-All : (db db' : ReviewDb) → Effect db db' → All P db.tasks → All P db'.tasks
  Effect-All db db' (kept e _ _) h = rw e h
  Effect-All db db' (changed i t t' e ch eq _ _) h =
      rw eq (All-put_task P t' db.tasks (keep t t' ch (All-find_task P i db.tasks t h e)) h)
  Effect-All db db' (added c now eq _ _) h =
      rw eq (All-append P db.tasks (new_task c now db.next_id ∷ []) h (new c now db.next_id, tt))

  rolled_back-All :
      (py : Host) (now : ℕ) (c : Call) (db : ReviewDb) (r : Result ReviewError ReviewDb)
      → call py now c db ≡ r
      → All P db.tasks
      → All P (rolled_back db r).tasks
  rolled_back-All py now c db (err e) eq h = h
  rolled_back-All py now c db (ok db') eq h = Effect-All db db' (call-Effect db py now c db' eq) h

  pub run-All :
      (py : Host) (cs : List (ℕ × Call)) (db : ReviewDb)
      → All P db.tasks
      → All P (run py cs db).tasks
  unfolding run
  run-All py [] db h = h
  run-All py ((now, c) ∷ cs) db h =
      run-All py cs (rolled_back db (call py now c db))
        (rolled_back-All py now c db (call py now c db) refl h)
