-- ===== src/Review/StateMachine.antt =====
-- app/review/state_machine.py.
use tg_forwarder.Prelude.{Bool, true, false, List, [], ◌∷◌, if◌then◌else◌, exists, Result, ok, err}

pub data ReviewStatus : Type 0 where
  pending editing approved publishing published rejected failed expired : ReviewStatus

pub data ReviewActionType : Type 0 where
  created opened edited approved rejected publish_started published publish_failed :
      ReviewActionType
  retried rules_reapplied restored_original assigned unassigned : ReviewActionType

unfoldable pub same_status : ReviewStatus → ReviewStatus → Bool
same_status ReviewStatus.pending ReviewStatus.pending = true
same_status ReviewStatus.editing ReviewStatus.editing = true
same_status ReviewStatus.approved ReviewStatus.approved = true
same_status ReviewStatus.publishing ReviewStatus.publishing = true
same_status ReviewStatus.published ReviewStatus.published = true
same_status ReviewStatus.rejected ReviewStatus.rejected = true
same_status ReviewStatus.failed ReviewStatus.failed = true
same_status ReviewStatus.expired ReviewStatus.expired = true
same_status _ _ = false

-- `ALLOWED_TRANSITIONS`.
unfoldable pub allowed_transitions : ReviewStatus → List ReviewStatus
allowed_transitions ReviewStatus.pending =
    ReviewStatus.editing ∷ ReviewStatus.approved ∷ ReviewStatus.rejected ∷ ReviewStatus.expired ∷ []
allowed_transitions ReviewStatus.editing =
    ReviewStatus.pending ∷ ReviewStatus.approved ∷ ReviewStatus.rejected ∷ []
allowed_transitions ReviewStatus.approved = ReviewStatus.publishing ∷ []
allowed_transitions ReviewStatus.publishing = ReviewStatus.published ∷ ReviewStatus.failed ∷ []
allowed_transitions ReviewStatus.failed =
    ReviewStatus.pending ∷ ReviewStatus.rejected ∷ ReviewStatus.approved ∷ []
allowed_transitions ReviewStatus.published = []
allowed_transitions ReviewStatus.rejected = []
allowed_transitions ReviewStatus.expired = []

unfoldable pub is_allowed : ReviewStatus → ReviewStatus → Bool
unfolding allowed_transitions same_status
is_allowed old new = exists (same_status new) (allowed_transitions old)

-- What the operations of `ReviewService` raise; `integrity` is the database's refusal of a second
-- row under the unique key of `content_revisions`.
pub data ReviewError : Type 0 where
  not_found conflict integrity : ReviewError
  illegal_transition : ReviewStatus → ReviewStatus → ReviewError
  cannot_reapply : ReviewStatus → ReviewError

unfoldable pub assert_transition : ReviewStatus → ReviewStatus → Result ReviewError (Unit {0})
assert_transition current target =
    if is_allowed current target then ok tt else err (illegal_transition current target)
