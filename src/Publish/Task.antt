-- ===== src/Publish/Task.antt =====
-- app/review/publish.py, `message_from_task` and `ReviewPublishService.publish_task`. The calls
-- that other users make of `ReviewService` while a task is published are given as two lists:
-- those before the media snapshot is written and those after it. Where an exception leaves
-- `publish_task`, the result is the exception; the transactions that were committed before it
-- stay as they are.
use tg_forwarder.Prelude.{
  ℕ, Bool, true, false, not, ◌&&◌, Option, none, some, List, [], ◌∷◌, map, ◌==◌, if◌then◌else◌,
  length, is_empty, Result, ok, err, ◌>>=◌,
}
use tg_forwarder.Prelude.Chats.{ℤ}
use tg_forwarder.Host.{Text, Host, codes}
use tg_forwarder.Message.{MessageStatus, NormalizedMessage, message_default}
use tg_forwarder.Processed.{ProcessedMessage, StatusUpdate, no_update, update_status}
use tg_forwarder.Review.StateMachine.{ReviewStatus, ReviewActionType, ReviewError}
use tg_forwarder.Review.Store.{ReviewTask, ReviewDb, find_task}
use tg_forwarder.Review.Service.{transition, update_media_snapshot, claim_for_publish}
use tg_forwarder.Review.Calls.{Call, run}
use tg_forwarder.Publish.Routes.{destination_routes, current_api_targets, routing_block_reason}
use tg_forwarder.Publish.Send.{Failure, World, Snapshot, Sends, block_text, addressed, send_all}

pub record PublishDb : Type 0 where
  pub review : ReviewDb
  pub processed : List ProcessedMessage

-- What surrounds one call of `publish_task`.
pub record Publishing : Type 0 where
  pub py : Host
  pub world : World
  -- `str(exc)` of an exception of `ReviewService`.
  pub describe : ReviewError → Text
  pub before : List (ℕ × Call)
  pub after : List (ℕ × Call)
  pub user_id : Option ℕ
  pub now : ℕ

pub data PublishResult : Type 0 where
  -- `already_published`, the ids of the messages and the partial errors.
  published : Bool → Option (List ℕ) → List Text → PublishResult
  failed : Text → PublishResult
  conflict : PublishResult

abbrev pub Published : Type 0
Published = Result ReviewError (PublishResult × PublishDb)

unfoldable pub message_from_task : ReviewTask → NormalizedMessage
message_from_task task = record (message_default task.source_chat_id task.source_message_id) {
  text = task.final_text;
  media_type = task.media_type;
  media_items = task.media_snapshot.media_items;
  album_message_ids = task.media_snapshot.album_message_ids;
  raw_metadata = task.media_snapshot.raw_metadata;
  target_chat_id = task.target_chat_id;
}

abbrev stored_targets : List ℤ → Option ℤ → List ℤ
stored_targets (c ∷ cs) target = c ∷ cs
stored_targets [] none = []
stored_targets [] (some c) = c ∷ []

unfoldable pub snapshot_of : ReviewTask → Snapshot
snapshot_of task = record {
  targets = stored_targets task.target_chat_ids task.target_chat_id;
  api_targets = task.target_api_endpoint_ids;
  destination_ids = task.target_destination_ids;
}

-- `session.get(ProcessedMessage, id)`.
unfoldable pub find_message : ℕ → List ProcessedMessage → Option ProcessedMessage
find_message i [] = none
find_message i (m ∷ ms) = if m.id == i then some m else find_message i ms

-- `repo.update_status` on the row, if there is one.
unfoldable pub mark :
    ℕ → ℕ → MessageStatus → StatusUpdate → List ProcessedMessage → List ProcessedMessage
mark now i status u [] = []
mark now i status u (m ∷ ms) =
    (if m.id == i then update_status now status u m else m) ∷ mark now i status u ms

abbrev pub is_published : MessageStatus → Bool
is_published MessageStatus.published = true
is_published _ = false

abbrev pub published_row : Option ProcessedMessage → Option ProcessedMessage
published_row none = none
published_row (some m) = if is_published m.status then some m else none

-- The last `transition` of a task that was claimed.
unfoldable pub settle :
    Publishing
    → ReviewTask
    → ReviewStatus
    → ReviewActionType
    → Option Text
    → ReviewDb
    → Result ReviewError ReviewDb
settle p task status action error db =
    transition
      (record {
        task_id = task.id;
        new_status = status;
        user_id = p.user_id;
        action = action;
        expected_revision = some task.revision;
        error_message = error;
      })
      p.now db
    >>= λ r. ok r.1

-- `_fail_claimed_task`; the handler of `except Exception` does the same, with a retry counted.
unfoldable pub fail_claimed_task : Publishing → ReviewTask → Text → Bool → PublishDb → Published
unfolding settle
fail_claimed_task p task error increment_retry db =
    settle p task ReviewStatus.failed ReviewActionType.publish_failed (some error) db.review
    >>= λ review. ok (
      failed error,
      record {
        review = review;
        processed =
            mark p.now task.processed_message_id MessageStatus.failed
              (record no_update { error_message = some error; increment_retry = increment_retry })
              db.processed;
      },
    )

-- How the `try` block of `publish_task` ends.
pub data Attempt : Type 0 where
  blocked : Text → Attempt
  raised : Text → Attempt
  delivered : Sends → Attempt

abbrev first_text : List Text → Text
first_text [] = codes "publish failed"
first_text (e ∷ es) = e

-- The verdict after the loop.
unfoldable pub verdict : Sends × Option Failure → Attempt
verdict (s, some e) = raised e
verdict (s, none) =
    if s.published_count == 0 && (not (is_empty s.routing_errors) && is_empty s.send_errors)
    then blocked (first_text s.routing_errors)
    else (if s.published_count == 0 then raised (first_text s.errors) else delivered s)

-- The deliveries to API endpoints, which come before the loop.
unfoldable pub queued : World → NormalizedMessage → List ℕ → Sends
queued w m apis = elim (w.enqueue m apis) [
  | ok ids ↦ record {
    message = m;
    all_ids = [];
    published_count = length ids;
    errors = [];
    routing_errors = [];
    send_errors = [];
    sent = [];
  }
  | err e ↦ record {
    message = m;
    all_ids = [];
    published_count = 0;
    errors = map (λ (i : ℕ). e) apis;
    routing_errors = [];
    send_errors = map (λ (i : ℕ). e) apis;
    sent = [];
  }
]

-- The deliveries of a task whose media are there: a read of the routing, the API endpoints, the
-- loop.
unfoldable pub deliver : World → ReviewTask → NormalizedMessage → Attempt
unfolding queued verdict snapshot_of
deliver w task m =
    let snap = snapshot_of task in
    elim (w.routing 1) [
      | err e ↦ raised e
      | ok r ↦
          let routes = destination_routes task snap.destination_ids snap.targets r in
          let apis = current_api_targets task snap.api_targets r in
          elim (routing_block_reason task routes apis r) [
            | some b ↦ blocked (block_text b)
            | none ↦ verdict (send_all w task snap 2 routes (queued w (addressed m routes) apis))
          ]
    ]

-- A blocked or failed attempt; an exception of the first `transition` is caught and handled.
unfoldable pub conclude : Publishing → ReviewTask → Attempt → PublishDb → Published
unfolding settle fail_claimed_task
conclude p task (raised e) db = fail_claimed_task p task e true db
conclude p task (blocked e) db = elim (fail_claimed_task p task e false db) [
  | ok r ↦ ok r
  | err x ↦ fail_claimed_task p task (p.describe x) true db
]
conclude p task (delivered s) db =
    settle p task ReviewStatus.published ReviewActionType.published none db.review >>= λ review.
    ok (
      published false (some s.all_ids) s.errors,
      record {
        review = review;
        processed =
            mark p.now task.processed_message_id MessageStatus.published
              (record no_update {
                target_message_ids = some s.all_ids;
                processing_result = some s.message;
              })
              db.processed;
      },
    )

abbrev pub meanwhile : Publishing → List (ℕ × Call) → PublishDb → PublishDb
meanwhile p cs db = record db { review = run p.py cs db.review }

-- `ensure_task_media`: fetched media are written to the task.
unfoldable pub with_media :
    Publishing → ReviewTask → Bool → PublishDb → Result Failure (NormalizedMessage × PublishDb)
unfolding message_from_task
with_media p task false db = ok (message_from_task task, db)
with_media p task true db = p.world.ensure_media (message_from_task task) >>= λ r.
    if r.1
    then elim (update_media_snapshot task.id r.0 db.review) [
      | ok u ↦ ok (r.0, record db { review = u.1 })
      | err x ↦ err (p.describe x)
    ]
    else ok (r.0, db)

-- From the write of `PUBLISHING` to the end.
unfoldable pub publish_checked : Publishing → ReviewTask → Bool → PublishDb → Published
unfolding with_media deliver conclude
publish_checked p task has_routes db =
    let marked : PublishDb = record db {
      processed =
          mark p.now task.processed_message_id MessageStatus.publishing no_update db.processed;
    } in
    let started = meanwhile p p.before marked in
    elim (with_media p task has_routes started) [
      | err e ↦ conclude p task (raised e) (meanwhile p p.after started)
      | ok r ↦ conclude p task (deliver p.world task r.0) (meanwhile p p.after r.1)
    ]

-- The first check of the routing.
unfoldable pub publish_new : Publishing → ReviewTask → PublishDb → Published
unfolding snapshot_of fail_claimed_task publish_checked
publish_new p task db =
    let snap = snapshot_of task in
    elim (p.world.routing 0) [
      | err e ↦ fail_claimed_task p task e true db
      | ok r ↦
          let routes = destination_routes task snap.destination_ids snap.targets r in
          let apis = current_api_targets task snap.api_targets r in
          elim (routing_block_reason task routes apis r) [
            | some b ↦ fail_claimed_task p task (block_text b) false db
            | none ↦ publish_checked p task (not (is_empty routes)) db
          ]
    ]

-- A message that was published is not sent again.
unfoldable pub publish_claimed : Publishing → ReviewTask → PublishDb → Published
unfolding settle find_message publish_new
publish_claimed p task db =
    elim (published_row (find_message task.processed_message_id db.processed)) [
      | none ↦ publish_new p task db
      | some row ↦
          settle p task ReviewStatus.published ReviewActionType.published none db.review
          >>= λ review. ok (published true row.target_message_ids [], record db { review = review })
    ]

abbrev has_status_published : Option ReviewTask → Bool
has_status_published (some t) = elim t.status [ ReviewStatus.published ↦ true | _ ↦ false ]
has_status_published none = false

unfoldable pub publish_task : Publishing → ℕ → ℕ → PublishDb → Published
unfolding publish_claimed
publish_task p task_id expected_revision db =
    elim (claim_for_publish task_id expected_revision p.user_id p.now db.review) [
      | none ↦ ok (
        if has_status_published (find_task task_id db.review.tasks)
            then published true none []
            else conflict,
        db,
      )
      | some (claimed, review) ↦ publish_claimed p claimed (record db { review = review })
    ]
