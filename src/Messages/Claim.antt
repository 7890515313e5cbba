-- ===== src/Messages/Claim.antt =====
-- app/services/message_service.py, the first transaction of `process_one`.
use tg_forwarder.Prelude.{ℕ, Bool, ◌&&◌, ◌||◌, Option, none, some, if◌then◌else◌}
use tg_forwarder.Message.{MessageStatus, NormalizedMessage}
use tg_forwarder.Processed.{
  ProcessedMessage, MessageDb, NewMessage, no_update, get_by_source, try_create, same_status,
}
use tg_forwarder.Backends.{is_api_chat_id}
use tg_forwarder.Messages.{
  Db, Surroundings, State, rows_of, elsewhere, Refreshed, api_review_owned, set_status,
  mark_blocked,
}

-- A new row, as `process_one` and `enqueue` make it.
abbrev pub as_new : NormalizedMessage → ℕ → MessageStatus → Option NormalizedMessage → NewMessage
as_new m mid status payload = record {
  source_chat_id = m.source_chat_id;
  source_message_id = mid;
  grouped_id = m.grouped_id;
  status = status;
  target_chat_id = m.target_chat_id;
  processing_result = payload;
}

abbrev created : State → Option ProcessedMessage × MessageDb → Option ProcessedMessage × State
created s made = (made.0, record s { db = record s.db { messages = made.1 } })

-- The row of the message, made if it is not there.
unfoldable pub get_or_create :
    Surroundings → NormalizedMessage → State → Option ProcessedMessage × State
get_or_create e m s = elim (get_by_source m.source_chat_id m.source_message_id (rows_of s)) [
  | some row ↦ (some row, s)
  | none ↦ created s (
      try_create e.now (as_new m m.source_message_id MessageStatus.received (some m)) s.db.messages)
]

-- A row that `process_one` leaves as it is.
unfoldable pub is_settled : NormalizedMessage → ProcessedMessage → Db → Bool
is_settled m row db =
    same_status row.status MessageStatus.published
    || is_api_chat_id m.source_chat_id
      && (same_status row.status MessageStatus.filtered || api_review_owned row db.review)

-- What the first transaction does with the row: its id, if the message is processed further.
unfoldable pub claim_row :
    Surroundings → Refreshed → Option ProcessedMessage × State → Option ℕ × State
unfolding is_settled
claim_row e fresh (none, s) = (none, s)
claim_row e fresh (some row, s) =
    if is_settled fresh.message row s.db then (none, s) else elim fresh.reason [
      | some b ↦ (none, mark_blocked e row.id b fresh.message s)
      | none ↦ (
        some row.id,
        set_status e row.id MessageStatus.processing
            (record no_update { processing_result = some fresh.message }) s,
      )
    ]

-- The first transaction.
unfoldable pub claim : Surroundings → Refreshed → State → Option ℕ × State
unfolding get_or_create claim_row
claim e fresh s = claim_row e fresh (get_or_create e fresh.message (elsewhere e 0 s))
