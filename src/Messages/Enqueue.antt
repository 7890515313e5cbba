-- ===== src/Messages/Enqueue.antt =====
-- app/services/message_service.py, the queue of `MessageService`: `enqueue`, `_worker_loop` and
-- `process_durable`. The media references of a queued item are left out, and the lock of the
-- channel is what makes `process_one` one step here: nothing else takes an item of its channel.
use tg_forwarder.Prelude.{
  ℕ, zero, suc, Bool, true, false, ◌&&◌, ◌||◌, not, Option, none, some, List, [], ◌∷◌, ◌++◌, ◌==◌,
  leb, length, if◌then◌else◌,
}
use tg_forwarder.Host.{codes}
use tg_forwarder.Message.{MessageStatus, NormalizedMessage}
use tg_forwarder.Processed.{
  ProcessedMessage, MessageDb, get_by_source, try_create, change_row, update_payload, has_status,
  same_status,
}
use tg_forwarder.Channels.{Routing, get_targets_for}
use tg_forwarder.Messages.{
  Raised, Db, Surroundings, State, rows_of, with_rows, fail_with, aim, api_review_owned,
}
use tg_forwarder.Messages.Process.{process_one}
use tg_forwarder.Messages.Claim.{as_new}

-- The service with its queue, whose `maxsize` 0 means no limit.
pub record Service : Type 0 where
  pub maxsize : ℕ
  pub queue : List NormalizedMessage
  pub state : State

unfoldable pub is_full : ℕ → List NormalizedMessage → Bool
is_full zero queue = false
is_full (suc n) queue = leb (suc n) (length queue)

abbrev truthy : Option ℕ → Bool
truthy none = false
truthy (some zero) = false
truthy (some (suc n)) = true

abbrev pub part_status : NormalizedMessage → ℕ → MessageStatus
part_status m mid =
    if truthy m.grouped_id && not (mid == m.source_message_id)
    then MessageStatus.collecting_album
    else MessageStatus.received

abbrev pub part_payload : NormalizedMessage → ℕ → Option NormalizedMessage
part_payload m mid = if mid == m.source_message_id then some m else none

-- The statuses of a message that is known and not taken in again.
abbrev pub known_statuses : List MessageStatus
known_statuses =
    MessageStatus.published ∷ MessageStatus.filtered ∷ MessageStatus.publishing
    ∷ MessageStatus.pending_publish ∷ MessageStatus.processing ∷ []

abbrev pub is_duplicate : ProcessedMessage → Db → Bool
is_duplicate row db = api_review_owned row db.review || has_status known_statuses row

-- How the loop over the ids ends: `return False`, or on, with `created_any` and `primary`.
pub data Registered : Type 0 where
  duplicate : Registered
  registered : Bool → Bool → Registered

-- The row of the message is there already.
unfoldable pub register_known : NormalizedMessage → Bool → Bool → State → Registered × State
register_known m any primary s =
    elim (get_by_source m.source_chat_id m.source_message_id (rows_of s)) [
      | none ↦ (registered any primary, s)
      | some row ↦
          (if is_duplicate row s.db then (duplicate, s) else (
            registered any primary,
            with_rows (change_row row.id (update_payload m) (rows_of s)) s,
          ))
    ]

abbrev with_messages : MessageDb → State → State
with_messages messages s = record s { db = record s.db { messages = messages } }

-- What one turn of the loop makes of the answer of `try_create`.
unfoldable pub register_made :
    NormalizedMessage
    → ℕ
    → Bool
    → Bool
    → State
    → Option ProcessedMessage × MessageDb
    → Registered × State
unfolding register_known
register_made m mid any primary s (some row, messages) =
    (registered true (primary || mid == m.source_message_id), with_messages messages s)
register_made m mid any primary s (none, messages) =
    if mid == m.source_message_id
    then register_known m any primary s
    else (registered any primary, s)

-- One turn of the loop.
unfoldable pub register_one : ℕ → NormalizedMessage → ℕ → Bool → Bool → State → Registered × State
unfolding register_made
register_one now m mid any primary s =
    register_made m mid any primary s
      (try_create now (as_new m mid (part_status m mid) (part_payload m mid)) s.db.messages)

unfoldable pub register : ℕ → NormalizedMessage → List ℕ → Registered × State → Registered × State
unfolding register_one
register now m ids (duplicate, s) = (duplicate, s)
register now m [] (registered any primary, s) = (registered any primary, s)
register now m (mid ∷ ids) (registered any primary, s) =
    register now m ids (register_one now m mid any primary s)

abbrev or_own : List ℕ → ℕ → List ℕ
or_own [] mid = mid ∷ []
or_own (i ∷ is) mid = i ∷ is

-- `message.album_message_ids or [message.source_message_id]`.
abbrev pub ids_to_register : NormalizedMessage → List ℕ
ids_to_register m = or_own m.album_message_ids m.source_message_id

abbrev is_published_row : Option ProcessedMessage → Bool
is_published_row none = false
is_published_row (some row) = same_status row.status MessageStatus.published

-- `queue.put_nowait`, or `QueueFull`.
unfoldable pub put_nowait : NormalizedMessage → Service → Bool × Service
unfolding is_full
put_nowait m v =
    if is_full v.maxsize v.queue
    then (false, record v { state = fail_with (codes "QueueFull") v.state })
    else (true, record v { queue = v.queue ++ m ∷ [] })

-- After the loop.
unfoldable pub admit : NormalizedMessage → Registered × State → Service → Bool × Service
unfolding put_nowait
admit m (duplicate, s) v = (false, record v { state = s })
admit m (registered any primary, s) v =
    if not any
      && not primary
      && is_published_row (get_by_source m.source_chat_id m.source_message_id (rows_of s))
    then (false, record v { state = s })
    else put_nowait m (record v { state = s })

-- `enqueue`: whether the message was queued. `r` is the cache of the routing.
unfoldable pub enqueue : ℕ → Routing → NormalizedMessage → Service → Bool × Service
unfolding register admit
enqueue now r m v =
    let aimed = aim (get_targets_for m.source_chat_id r) m in
    admit aimed (register now aimed (ids_to_register aimed) (registered false false, v.state)) v

abbrev pub worker_error : Option Raised × State → State
worker_error (none, s) = s
worker_error (some exc, s) = fail_with exc.exception_type s

unfoldable pub work_on : Surroundings → List NormalizedMessage → Service → Service
work_on e [] v = v
work_on e (m ∷ rest) v = record v { queue = rest; state = worker_error (process_one e m v.state) }

-- One turn of `_worker_loop`; an empty queue is waited for.
unfoldable pub work : Surroundings → Service → Service
unfolding work_on
work e v = work_on e v.queue v
