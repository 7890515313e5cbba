-- ===== src/Review.antt =====
-- app/review: the review of messages before they are published. `StateMachine` has the statuses,
-- `Store` the rows, `Service` the operations of `ReviewService`, and the other children what holds
-- of them.
pub mod StateMachine
pub mod Store
pub mod Service
pub mod Create
pub mod Calls
pub mod Effects
pub mod Runs
pub mod Rows
pub mod Approval
pub mod Locking
pub mod Final
pub mod Drafts
pub mod Overlaps
pub mod Moves
