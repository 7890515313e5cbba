-- ===== src/Review/Rows.antt =====
-- One row of `review_tasks` through the calls of app/review/service.py: it keeps its id, and what
-- every change respects holds between the row before and the row after any calls.
use mathlib.Core.Path.{subst}
use tg_forwarder.Prelude.{
  ℕ, ◌≡◌, refl, sym, ◌∙◌, ap, Option, none, some, List, [], inl, inr, ◌∷◌, ◌++◌, arith, ◌==◌, ==→eq,
  if◌then◌else◌, Result, ok, err, Bool-cases,
}
use tg_forwarder.Host.{Host}
use tg_forwarder.Review.StateMachine.{ReviewError}
use tg_forwarder.Review.Store.{ReviewTask, ReviewDb, find_task, put_task}
use tg_forwarder.Review.Service.{stamp, reapply_status}
use tg_forwarder.Review.StateMachine.{assert_transition}
use tg_forwarder.Review.Calls.{
  Call, call, rolled_back, run, Change, moved, edited, restored, ruled, snapped, claimed, Effect,
  kept, changed, added,
}
use tg_forwarder.Review.Effects.{call-Effect}

pub Change-id : (t t' : ReviewTask) → Change t t' → t'.id ≡ t.id
unfolding stamp reapply_status assert_transition
Change-id t t' (moved new now e a eq) = ground arith
Change-id t t' (edited st content a eq) = ground arith
Change-id t t' (restored content eq) = ground arith
Change-id t t' (ruled applied now m a eq) = ground arith
Change-id t t' (snapped m eq) = ground arith
Change-id t t' (claimed rev now a eq) = ground arith

pub find_task-id :
    (i : ℕ) (ts : List ReviewTask) (t : ReviewTask) → find_task i ts ≡ some t → t.id ≡ i
unfolding find_task
find_task-id i [] t h = absurd (ground arith)
find_task-id i (u ∷ us) t h = ground (arith, find_task-id i us t)

-- The row that a commit leaves under an id.
abbrev pub replaced : ReviewTask → Option ReviewTask → Option ReviewTask
replaced t none = none
replaced t (some u) = some t

pub find_task-put_task :
    (j : ℕ) (t : ReviewTask) (ts : List ReviewTask)
    → find_task j (put_task t ts)
      ≡ (if t.id == j then replaced t (find_task j ts) else find_task j ts)
unfolding find_task put_task
find_task-put_task j t [] = ground arith
find_task-put_task j t (u ∷ us) = ground (arith, find_task-put_task j t us)

pub find_task-append :
    (j : ℕ) (ts us : List ReviewTask) (t : ReviewTask)
    → find_task j ts ≡ some t
    → find_task j (ts ++ us) ≡ some t
unfolding find_task
find_task-append j [] us t h = absurd (ground arith)
find_task-append j (u ∷ ts) us t h = ground (arith, find_task-append j ts us t)

some_eq : {t u : ReviewTask} → ◌≡◌ {A = Option ReviewTask} (some t) (some u) → t ≡ u
some_eq h = cc

module _ (R : ReviewTask → ReviewTask → Type 0) (start : (t : ReviewTask) → R t t)
    (step : (t u v : ReviewTask) → R t u → Change u v → R t v) where
  abbrev pub Later : ReviewTask → ℕ → ReviewDb → Type 0
  Later t i db = (u : ReviewTask) × (find_task i db.tasks ≡ some u) × R t u

  Effect-Later :
      (t : ReviewTask) (i : ℕ) (db db' : ReviewDb) → Effect db db' → Later t i db → Later t i db'
  Effect-Later t i db db' (kept e _ _) (u, f, r) = (u, ap (find_task i) e ∙ f, r)
  Effect-Later t i db db' (added c now e _ _) (u, f, r) =
      (u, ap (find_task i) e ∙ find_task-append i db.tasks _ u f, r)
  Effect-Later t i db db' (changed j v w g ch e _ _) (u, f, r) = elim (Bool-cases (w.id == i)) [
    | inl b ↦
        let v_id : v.id ≡ j = find_task-id j db.tasks v g in
        let w_id : w.id ≡ v.id = Change-id v w ch in
        let here : j ≡ i = omega (arith, ==→eq w.id i b) in
        let same : v ≡ u = some_eq (sym g ∙ (ap (λ (k : ℕ). find_task k db.tasks) here ∙ f)) in
        (
          w,
          ap (find_task i) e ∙ (find_task-put_task i w db.tasks ∙ rw (b, f) refl),
          step t u w r (subst (λ x. Change x w) same ch),
        )
    | inr b ↦ (u, ap (find_task i) e ∙ (find_task-put_task i w db.tasks ∙ rw b f), r)
  ]

  rolled_back-Later :
      (py : Host) (now : ℕ) (c : Call) (t : ReviewTask) (i : ℕ) (db : ReviewDb)
      (r : Result ReviewError ReviewDb)
      → call py now c db ≡ r
      → Later t i db
      → Later t i (rolled_back db r)
  rolled_back-Later py now c t i db (err e) eq l = l
  rolled_back-Later py now c t i db (ok db') eq l =
      Effect-Later t i db db' (call-Effect db py now c db' eq) l

  run-Later_of :
      (py : Host) (cs : List (ℕ × Call)) (t : ReviewTask) (i : ℕ) (db : ReviewDb)
      → Later t i db
      → Later t i (run py cs db)
  unfolding run
  run-Later_of py [] t i db l = l
  run-Later_of py ((now, c) ∷ cs) t i db l =
      run-Later_of py cs t i (rolled_back db (call py now c db))
        (rolled_back-Later py now c t i db (call py now c db) refl l)

  -- After any calls the row is still there, and relates to the row before.
  pub run-Later :
      (py : Host) (cs : List (ℕ × Call)) (t : ReviewTask) (i : ℕ) (db : ReviewDb)
      → find_task i db.tasks ≡ some t
      → Later t i (run py cs db)
  run-Later py cs t i db f = run-Later_of py cs t i db (t, f, start t)
