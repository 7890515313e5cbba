-- ===== src/Messages.antt =====
-- app/services/message_service.py: what the operations of `MessageService` share. `Surroundings` is
-- what a run of `process_one` meets: the routing at each of its reads, the publish mode and the
-- pause flag at each look, the media service, the pipeline, the publisher, and in `meanwhile` what
-- other tasks commit before each of its transactions. `history.write`, the log of the processors
-- and the removal of media files are left out. `sent` records the messages that were handed to the
-- publisher.
pub mod Publish
pub mod Claim
pub mod Process
pub mod Enqueue
pub mod Recover
pub mod Laws
pub mod Stays
pub mod Runs
pub mod Sends
pub mod Delivered
pub mod Final
pub mod Settles
pub mod Rests
pub mod Registers
pub mod Queueing
pub mod Recovery
use tg_forwarder.Prelude.{
  ℕ, suc, Bool, true, false, not, ◌&&◌, Option, none, some, List, [], ◌∷◌, map, leb, take,
  if◌then◌else◌, is_empty, is_some, Result,
}
use tg_forwarder.Prelude.Chats.{ℤ}
use tg_forwarder.Host.{Text, codes}
use tg_forwarder.Message.{MessageStatus, NormalizedMessage, TargetRoute, PublishMode}
use tg_forwarder.Processed.{
  ProcessedMessage, MessageDb, StatusUpdate, no_update, update_status, get_by_source, change_row,
}
pub use tg_forwarder.Processors.Base.{Raised}
use tg_forwarder.Processors.Base.{MessageProcessor}
use tg_forwarder.Channels.{
  Routing, is_configured, is_enabled, get_targets_for, all_active_endpoint_ids,
}
use tg_forwarder.Deliveries.{Queue}
use tg_forwarder.Review.Store.{ReviewDb, find_processed}
use tg_forwarder.Review.StateMachine.{ReviewError}
use tg_forwarder.Backends.{is_api_chat_id}

pub record Db : Type 0 where
  pub messages : MessageDb
  pub review : ReviewDb
  pub deliveries : Queue

pub record Surroundings : Type 0 where
  pub now : ℕ
  pub max_retries : ℕ
  -- The tables at the `n`-th read, or what the read raises.
  pub routing : ℕ → Result Raised Routing
  -- `get_publish_mode` of the cache, and `_paused`, at the `n`-th look.
  pub publish_mode : ℕ → PublishMode
  pub paused : ℕ → Bool
  pub meanwhile : ℕ → Db → Db
  pub materialize : NormalizedMessage → Result Raised NormalizedMessage
  pub media_missing : NormalizedMessage → Bool
  -- The processors of the pipeline, which may read the rows.
  pub processors : List ProcessedMessage → List MessageProcessor
  pub compute_hash : NormalizedMessage → Text
  pub publish_target : ℕ → NormalizedMessage → TargetRoute → Result Raised (List ℕ)
  -- What an error of the review service is as an exception.
  pub describe : ReviewError → Raised

-- A message that was handed to the publisher, with the number of the read before.
pub record Sent : Type 0 where
  pub read : ℕ
  pub route : TargetRoute
  pub message : NormalizedMessage

pub record State : Type 0 where
  pub db : Db
  pub last_error : Option Text
  pub sent : List Sent

abbrev pub rows_of : State → List ProcessedMessage
rows_of s = s.db.messages.rows

abbrev pub with_rows : List ProcessedMessage → State → State
with_rows rows s = record s { db = record s.db { messages = record s.db.messages { rows = rows } } }

abbrev pub fail_with : Text → State → State
fail_with error s = record s { last_error = some error }

abbrev pub elsewhere : Surroundings → ℕ → State → State
elsewhere e k s = record s { db = e.meanwhile k s.db }

pub data Block : Type 0 where
  source_disabled no_enabled_target : Block

abbrev pub block_text : Block → Text
block_text source_disabled = codes "source channel is currently disabled"
block_text no_enabled_target = codes "no enabled target channel configured"

abbrev pub block_error : Block → Text
block_error source_disabled = codes "SourceDisabled"
block_error no_enabled_target = codes "NoEnabledTarget"

unfoldable pub routing_block_reason : ℤ → List ℤ → Bool → Routing → Option Block
routing_block_reason chat targets has_api_target r =
    if is_configured chat r && not (is_enabled chat r)
    then some source_disabled
    else (if is_empty targets && not has_api_target then some no_enabled_target else none)

abbrev pub first_of : List ℤ → Option ℤ
first_of [] = none
first_of (c ∷ cs) = some c

abbrev pub aim : List ℤ → NormalizedMessage → NormalizedMessage
aim targets m = record m { target_chat_ids = targets; target_chat_id = first_of targets }

abbrev pub block_targets : Option Block → List ℤ → List ℤ
block_targets (some source_disabled) targets = []
block_targets _ targets = targets

-- What `_refresh_routing` makes of the tables that it read.
pub record Refreshed : Type 0 where
  pub message : NormalizedMessage
  pub targets : List ℤ
  pub reason : Option Block

unfoldable pub refresh_routing : Routing → NormalizedMessage → Refreshed
unfolding routing_block_reason
refresh_routing r m =
    let apis = all_active_endpoint_ids m.source_chat_id r in
    let targets = get_targets_for m.source_chat_id r in
    let reason = routing_block_reason m.source_chat_id targets (not (is_empty apis)) r in
    let kept = block_targets reason targets in
    record { message = aim kept m; targets = kept; reason = reason }

-- `_api_review_owned`.
unfoldable pub api_review_owned : ProcessedMessage → ReviewDb → Bool
api_review_owned row review =
    is_api_chat_id row.source_chat_id && is_some (find_processed row.id review.tasks)

-- `repo.update_status(record, …)`.
abbrev pub set_status : Surroundings → ℕ → MessageStatus → StatusUpdate → State → State
set_status e i status u s = with_rows (change_row i (update_status e.now status u) (rows_of s)) s

-- `record.target_chat_id = None`, and the status.
abbrev pub blocked_row : ℕ → Block → NormalizedMessage → ProcessedMessage → ProcessedMessage
blocked_row now b m row =
    update_status now MessageStatus.failed
      (record no_update { error_message = some (block_text b); processing_result = some m })
      (record row { target_chat_id = none })

unfoldable pub mark_blocked : Surroundings → ℕ → Block → NormalizedMessage → State → State
mark_blocked e i b m s =
    fail_with (block_error b) (with_rows (change_row i (blocked_row e.now b m) (rows_of s)) s)

-- `_mark_routing_failed`, where the routing is blocked at the time of publishing.
unfoldable pub mark_routing_failed : Surroundings → ℕ → Block → NormalizedMessage → State → State
unfolding mark_blocked
mark_routing_failed e k b m s =
    let s' = elsewhere e k s in
    elim (get_by_source m.source_chat_id m.source_message_id (rows_of s')) [
      | none ↦ fail_with (block_error b) s'
      | some row ↦ mark_blocked e row.id b (aim [] m) s'
    ]

unfoldable pub failed_status : ℕ → Bool → ℕ → MessageStatus
failed_status max_retries increment_retry retry_count =
    if increment_retry && not (leb max_retries (suc retry_count))
    then MessageStatus.retrying
    else MessageStatus.failed

-- `_mark_failed`.
unfoldable pub mark_failed : Surroundings → ℕ → NormalizedMessage → Raised → Bool → State → State
unfolding failed_status
mark_failed e k m exc increment_retry s =
    let s' = fail_with exc.exception_type (elsewhere e k s) in
    elim (get_by_source m.source_chat_id m.source_message_id (rows_of s')) [
      | none ↦ s'
      | some row ↦
          set_status e row.id (failed_status e.max_retries increment_retry row.retry_count)
            (record no_update {
              error_message = some (take 500 exc.message);
              processing_result = some m;
              increment_retry = increment_retry;
            })
            s'
    ]
