-- ===== src/Review/Approval.antt =====
-- app/review/service.py: what the timestamps of a review task say of its life, whatever the calls.
use tg_forwarder.Prelude.{ℕ, ◌≡◌, ◌≢◌, Bool, true, false, none, List, arith, is_some, All}
use tg_forwarder.Host.{Host}
use tg_forwarder.Review.StateMachine.{ReviewStatus, is_allowed, assert_transition}
use tg_forwarder.Review.Store.{ReviewTask}
use tg_forwarder.Review.Service.{stamp, editing_status, reapply_status, is_claimable}
use tg_forwarder.Review.Create.{CreateCall, new_task}
use tg_forwarder.Review.Calls.{
  Call, Change, moved, edited, restored, ruled, snapped, claimed, run, empty_db,
}
use tg_forwarder.Review.Runs.{run-All}

-- The statuses that come after an approval.
abbrev pub after_approval : ReviewStatus → Bool
after_approval ReviewStatus.approved = true
after_approval ReviewStatus.publishing = true
after_approval ReviewStatus.published = true
after_approval ReviewStatus.failed = true
after_approval _ = false

abbrev pub after_claim : ReviewStatus → Bool
after_claim ReviewStatus.publishing = true
after_claim ReviewStatus.published = true
after_claim ReviewStatus.failed = true
after_claim _ = false

pub record IsSound (t : ReviewTask) : Type 0 where
  pub approved : after_approval t.status ≡ true → is_some t.approved_at ≡ true
  pub started : after_claim t.status ≡ true → is_some t.publishing_started_at ≡ true
  pub rejected : t.status ≡ ReviewStatus.rejected → is_some t.rejected_at ≡ true
  pub published : t.status ≡ ReviewStatus.published → is_some t.published_at ≡ true
  pub unpublished : t.status ≢ ReviewStatus.published → t.published_at ≡ none

new_task-IsSound : (c : CreateCall) (now i : ℕ) → IsSound (new_task c now i)
unfolding new_task
new_task-IsSound c now i = ground arith

Change-IsSound : (t t' : ReviewTask) → Change t t' → IsSound t → IsSound t'
unfolding stamp is_allowed editing_status assert_transition reapply_status is_claimable
Change-IsSound t t' (moved new now e a eq) s = ground arith
Change-IsSound t t' (edited st content a eq) s = ground arith
Change-IsSound t t' (restored content eq) s = ground arith
Change-IsSound t t' (ruled applied now m a eq) s = ground arith
Change-IsSound t t' (snapped m eq) s = ground arith
Change-IsSound t t' (claimed rev now a eq) s = ground arith

-- Whatever calls are made from an empty table, every task that is approved, publishing, published
-- or failed has an approval time; one that is publishing, published or failed has been claimed; one
-- that is rejected has a rejection time; and the publication time is set exactly in the status
-- published.
pub run-IsSound : (py : Host) (cs : List (ℕ × Call)) → All IsSound (run py cs empty_db).tasks
run-IsSound py cs = run-All IsSound new_task-IsSound Change-IsSound py cs empty_db tt
