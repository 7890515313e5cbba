-- ===== src/Messages/Recover.antt =====
-- app/services/message_service.py: `recover_pending`, `retry_failed` and `_message_from_record`.
-- A stored payload is the message that was written; partial payloads of older versions are left
-- out. The rows are read at the start, and their statuses are those of that read.
use tg_forwarder.Prelude.{
  ℕ, Bool, true, false, ◌&&◌, ◌||◌, not, Option, none, some, List, [], ◌∷◌, ◌++◌, ◌==◌, is_empty,
  if◌then◌else◌,
}
use tg_forwarder.Prelude.Chats.{same_chat}
use tg_forwarder.Host.{Host, codes, strip}
use tg_forwarder.Message.{MessageStatus, NormalizedMessage}
use tg_forwarder.Processed.{
  ProcessedMessage, StatusUpdate, no_update, update_status, change_row, list_by_status, same_status,
}
use tg_forwarder.Messages.{State, rows_of, with_rows, fail_with, api_review_owned}
use tg_forwarder.Messages.Enqueue.{Service, is_full}

-- The checks of `_message_from_record` on the message that it restores.
abbrev pub is_restorable : Host → ProcessedMessage → NormalizedMessage → Bool
is_restorable py row m =
    same_chat m.source_chat_id row.source_chat_id
    && (m.source_message_id == row.source_message_id
        && not (is_empty (strip py m.text) && is_empty m.media_items))

-- `_message_from_record`.
unfoldable pub message_from_record : Host → ProcessedMessage → Option NormalizedMessage
message_from_record py row = elim row.processing_result [
  | none ↦ none
  | some m ↦ (if is_restorable py row m then some m else none)
]

abbrev set_row : ℕ → ℕ → MessageStatus → StatusUpdate → State → State
set_row now i status u s = with_rows (change_row i (update_status now status u) (rows_of s)) s

-- `_mark_invalid_stored_payload`.
unfoldable pub mark_invalid : ℕ → ProcessedMessage → State → State
mark_invalid now row s = fail_with (codes "InvalidStoredPayload") (
    set_row now row.id MessageStatus.failed
      (record no_update {
        error_message =
            some (codes "stored normalized payload is missing or invalid; recovery skipped");
      })
      s)

-- `record.target_message_ids` is not empty.
abbrev pub has_ids : Option (List ℕ) → Bool
has_ids none = false
has_ids (some []) = false
has_ids (some (i ∷ is)) = true

-- What one turn of a loop gives: whether the loop goes on, the messages queued and the service.
pub record Turn : Type 0 where
  pub goes_on : Bool
  pub queued : List NormalizedMessage
  pub service : Service

abbrev on_state : (State → State) → Service → Service
on_state f v = record v { state = f v.state }

abbrev pub turn : Bool → List NormalizedMessage → Service → Turn
turn goes_on queued v = record { goes_on = goes_on; queued = queued; service = v }

abbrev pub push : NormalizedMessage → Service → Service
push m v = record v { queue = v.queue ++ m ∷ [] }

abbrev pub unstick : ℕ → ProcessedMessage → Service → Service
unstick now row v =
    if same_status row.status MessageStatus.publishing
    then on_state (set_row now row.id MessageStatus.retrying no_update) v
    else v

-- `queue.put_nowait`; `QueueFull` ends the loop.
unfoldable pub queue_restored : NormalizedMessage → Service → Turn
unfolding is_full
queue_restored m v =
    if is_full v.maxsize v.queue then turn false [] v else turn true (m ∷ []) (push m v)

-- A turn of `recover_pending`.
unfoldable pub recover_one : Host → ℕ → ProcessedMessage → Service → Turn
unfolding message_from_record mark_invalid queue_restored
recover_one py now row v =
    if has_ids row.target_message_ids
    then turn true [] (on_state (set_row now row.id MessageStatus.published no_update) v)
    else elim (message_from_record py row) [
      | none ↦ turn true [] (on_state (mark_invalid now row) v)
      | some m ↦ queue_restored m (unstick now row v)
    ]

-- A turn of `retry_failed`. `await queue.put` waits for room, which is left out here: the message
-- is queued when there is some.
unfoldable pub retry_one : Host → ℕ → ProcessedMessage → Service → Turn
unfolding message_from_record mark_invalid
retry_one py now row v =
    if has_ids row.target_message_ids || api_review_owned row v.state.db.review
    then turn true [] v
    else elim (message_from_record py row) [
      | none ↦ turn true [] (on_state (mark_invalid now row) v)
      | some m ↦
          turn true (m ∷ [])
            (push m (on_state (set_row now row.id MessageStatus.pending_publish no_update) v))
    ]

-- The loop over the rows: the messages queued, and the service.
unfoldable pub each_row :
    (ProcessedMessage → Service → Turn)
    → List ProcessedMessage
    → Service
    → List NormalizedMessage × Service
each_row one [] v = ([], v)
each_row one (row ∷ rows) v =
    let t = one row v in
    let rest = each_row one rows t.service in
    if t.goes_on then (t.queued ++ rest.0, rest.1) else (t.queued, t.service)

abbrev pub recoverable : List MessageStatus
recoverable =
    MessageStatus.pending_publish ∷ MessageStatus.retrying ∷ MessageStatus.publishing
    ∷ MessageStatus.processing ∷ MessageStatus.received ∷ []

-- `recover_pending`: its result is the number of the messages that it queued.
unfoldable pub recover_pending : Host → ℕ → Service → List NormalizedMessage × Service
unfolding recover_one each_row
recover_pending py now v =
    each_row (recover_one py now) (list_by_status recoverable 200 (rows_of v.state)) v

unfoldable pub retry_failed : Host → ℕ → ℕ → Service → List NormalizedMessage × Service
unfolding retry_one each_row
retry_failed py now limit v =
    each_row (retry_one py now)
      (list_by_status (MessageStatus.failed ∷ MessageStatus.retrying ∷ []) limit (rows_of v.state))
      v
