-- ===== src/Review/Store.antt =====
-- app/database/models.py, `ReviewTask`, `ReviewAction` and `ContentRevision`: the rows that
-- `ReviewService` reads and writes, and the access to them. Times are counted from a fixed epoch.
use tg_forwarder.Prelude.{
  ℕ, String, Bool, ◌&&◌, Option, none, some, List, [], ◌∷◌, ◌++◌, ◌==◌, if◌then◌else◌, exists,
  Result, ok, err,
}
use tg_forwarder.Prelude.Chats.{ℤ}
use tg_forwarder.Host.{Text}
use tg_forwarder.Message.{MediaType, MediaItem, Metadata}
use tg_forwarder.Rules.Types.{HitRecord}
use tg_forwarder.Review.StateMachine.{
  ReviewStatus, ReviewActionType, ReviewError, not_found, integrity,
}

pub record MediaSnapshot : Type 0 where
  pub raw_metadata : List (String × Metadata)
  pub media_type : MediaType
  pub album_message_ids : List ℕ
  pub media_items : List MediaItem

-- An empty list stands for `None` in the columns with target ids.
pub record ReviewTask : Type 0 where
  pub id : ℕ
  pub processed_message_id : ℕ
  pub status : ReviewStatus
  pub source_chat_id : ℤ
  pub source_message_id : ℕ
  pub target_chat_id : Option ℤ
  pub target_chat_ids : List ℤ
  pub target_destination_ids : List ℕ
  pub target_api_endpoint_ids : List ℕ
  pub original_text : Text
  pub processed_text : Text
  pub final_text : Text
  pub media_type : MediaType
  pub media_count : ℕ
  pub matched_rules : List HitRecord
  pub detected_keywords : List Text
  pub decision_reason : Option Text
  pub revision : ℕ
  pub published_revision : Option ℕ
  pub media_snapshot : MediaSnapshot
  pub created_at : ℕ
  pub approved_at : Option ℕ
  pub rejected_at : Option ℕ
  pub published_at : Option ℕ
  pub publishing_started_at : Option ℕ
  pub error_message : Option Text

-- `ContentRevision.source`.
pub data RevisionSource : Type 0 where
  original rules reviewer restored : RevisionSource

pub record ContentRevision : Type 0 where
  pub review_task_id : ℕ
  pub revision_number : ℕ
  pub source : RevisionSource
  pub content : Text
  pub created_by : Option ℕ

pub record ReviewAction : Type 0 where
  pub review_task_id : ℕ
  pub user_id : Option ℕ
  pub action : ReviewActionType
  pub old_status : Option ReviewStatus
  pub new_status : ReviewStatus

pub record ReviewDb : Type 0 where
  pub tasks : List ReviewTask
  pub revisions : List ContentRevision
  pub actions : List ReviewAction
  -- The next value of the primary key of `review_tasks`.
  pub next_id : ℕ

-- `session.get(ReviewTask, task_id)`.
unfoldable pub find_task : ℕ → List ReviewTask → Option ReviewTask
find_task i [] = none
find_task i (t ∷ ts) = if t.id == i then some t else find_task i ts

-- `select(ReviewTask).where(ReviewTask.processed_message_id == …)`.
unfoldable pub find_processed : ℕ → List ReviewTask → Option ReviewTask
find_processed i [] = none
find_processed i (t ∷ ts) = if t.processed_message_id == i then some t else find_processed i ts

-- The commit of a changed row.
unfoldable pub put_task : ReviewTask → List ReviewTask → List ReviewTask
put_task t [] = []
put_task t (u ∷ us) = (if u.id == t.id then t else u) ∷ put_task t us

unfoldable pub has_revision : ℕ → ℕ → List ContentRevision → Bool
has_revision i n revs = exists (λ r. r.review_task_id == i && r.revision_number == n) revs

-- An insert into `content_revisions`, under the constraint `uq_review_revision`.
unfoldable pub insert_revision :
    ContentRevision → List ContentRevision → Result ReviewError (List ContentRevision)
unfolding has_revision
insert_revision r revs =
    if has_revision r.review_task_id r.revision_number revs
    then err integrity
    else ok (revs ++ r ∷ [])

-- The `ContentRevision` with a number.
unfoldable pub find_revision : ℕ → ℕ → List ContentRevision → Option ContentRevision
find_revision i n [] = none
find_revision i n (r ∷ rs) =
    if r.review_task_id == i && r.revision_number == n then some r else find_revision i n rs

unfoldable pub require_task : ℕ → ReviewDb → Result ReviewError ReviewTask
unfolding find_task
require_task i db = elim (find_task i db.tasks) [ none ↦ err not_found | some t ↦ ok t ]

unfoldable pub require_revision : ℕ → ℕ → ReviewDb → Result ReviewError ContentRevision
unfolding find_revision
require_revision i n db = elim (find_revision i n db.revisions) [
  | none ↦ err not_found
  | some r ↦ ok r
]
