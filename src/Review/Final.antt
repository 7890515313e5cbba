-- ===== src/Review/Final.antt =====
-- app/review/service.py: the statuses that a task never leaves, and what can still change there.
use tg_forwarder.Prelude.{ℕ, ◌≡◌, Bool, true, false, Option, none, some, List, arith}
use tg_forwarder.Host.{Host}
use tg_forwarder.Review.StateMachine.{ReviewStatus, is_allowed, assert_transition}
use tg_forwarder.Review.Store.{ReviewTask, ReviewDb, find_task}
use tg_forwarder.Review.Service.{
  stamp, editing_status, reapply_status, is_claimable, claim_task, claim_for_publish,
}
use tg_forwarder.Review.Calls.{Call, run, Change, moved, edited, restored, ruled, snapped, claimed}
use tg_forwarder.Review.Rows.{run-Later}

abbrev pub is_final : ReviewStatus → Bool
is_final ReviewStatus.published = true
is_final ReviewStatus.rejected = true
is_final ReviewStatus.expired = true
is_final _ = false

-- From a final status on, the status and the publication stay as they are.
pub record Settled (t u : ReviewTask) : Type 0 where
  pub status : is_final t.status ≡ true → u.status ≡ t.status
  pub published_at : is_final t.status ≡ true → u.published_at ≡ t.published_at
  pub published_revision : is_final t.status ≡ true → u.published_revision ≡ t.published_revision

Change-Settled : (t u v : ReviewTask) → Settled t u → Change u v → Settled t v
unfolding stamp is_allowed editing_status assert_transition reapply_status is_claimable
Change-Settled t u v s (moved new now e a eq) = ground arith
Change-Settled t u v s (edited st content a eq) = ground arith
Change-Settled t u v s (restored content eq) = ground arith
Change-Settled t u v s (ruled applied now m a eq) = ground arith
Change-Settled t u v s (snapped m eq) = ground arith
Change-Settled t u v s (claimed rev now a eq) = ground arith

-- A published, rejected or expired task keeps its status, its publication time and its published
-- revision through any calls.
pub run-Settled :
    (py : Host) (cs : List (ℕ × Call)) (t : ReviewTask) (i : ℕ) (db : ReviewDb)
    → find_task i db.tasks ≡ some t
    → (u : ReviewTask) × (find_task i (run py cs db).tasks ≡ some u) × Settled t u
run-Settled = run-Later Settled (λ t. ground arith) Change-Settled

-- A task that was published, rejected or expired is never claimed for publication again, whatever
-- calls come between.
pub claim-final :
    (py : Host) (cs : List (ℕ × Call)) (t : ReviewTask) (i rev now : ℕ) (user : Option ℕ)
    (db : ReviewDb)
    → find_task i db.tasks ≡ some t
    → is_final t.status ≡ true
    → claim_for_publish i rev user now (run py cs db) ≡ none
unfolding claim_for_publish claim_task is_claimable
claim-final py cs t i rev now user db f fin =
    let (u, g, s) = run-Settled py cs t i db f in ground (arith, s.status fin)
