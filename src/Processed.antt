-- ===== src/Processed.antt =====
-- app/database/repositories/message_repo.py: the rows of `processed_messages` and the write of a
-- status. Times are counted from a fixed epoch. `received_at` and `updated_at` are left out, and so
-- are the keys `action` and `publish_mode` that some writes add to the stored message.
pub mod Rows
pub mod Lookups
use tg_forwarder.Prelude.{
  ℕ, suc, ◌+◌, ◌*◌, Bool, true, false, ◌&&◌, Option, none, some, List, [], ◌∷◌, ◌++◌, ◌==◌, leb,
  take, keep, exists, if◌then◌else◌,
}
use tg_forwarder.Prelude.Chats.{ℤ, same_chat}
use tg_forwarder.Host.{Text, same_text}
use tg_forwarder.Message.{MessageStatus, NormalizedMessage}

pub record ProcessedMessage : Type 0 where
  pub id : ℕ
  pub source_chat_id : ℤ
  pub source_message_id : ℕ
  pub grouped_id : Option ℕ
  pub status : MessageStatus
  pub target_chat_id : Option ℤ
  pub target_message_ids : Option (List ℕ)
  pub content_hash : Option Text
  pub skip_reason : Option Text
  pub error_message : Option Text
  pub processing_result : Option NormalizedMessage
  pub retry_count : ℕ
  pub processed_at : Option ℕ
  pub published_at : Option ℕ
  pub created_at : ℕ

-- The keyword arguments of `update_status`.
pub record StatusUpdate : Type 0 where
  pub skip_reason : Option Text
  pub error_message : Option Text
  pub content_hash : Option Text
  pub target_message_ids : Option (List ℕ)
  pub processing_result : Option NormalizedMessage
  pub increment_retry : Bool

abbrev pub no_update : StatusUpdate
no_update = record {
  skip_reason = none;
  error_message = none;
  content_hash = none;
  target_message_ids = none;
  processing_result = none;
  increment_retry = false;
}

-- `if value is not None: record.field = value`.
abbrev pub set_if {ℓ} : {A : Type ℓ} → Option A → Option A → Option A
set_if none old = old
set_if (some v) old = some v

abbrev stamp_processed : MessageStatus → ℕ → Option ℕ → Option ℕ
stamp_processed MessageStatus.processing now old = some now
stamp_processed _ now old = old

abbrev stamp_published : MessageStatus → ℕ → Option ℕ → Option ℕ
stamp_published MessageStatus.published now old = some now
stamp_published _ now old = old

unfoldable pub update_status :
    ℕ → MessageStatus → StatusUpdate → ProcessedMessage → ProcessedMessage
update_status now status u r = record r {
  status = status;
  skip_reason = set_if u.skip_reason r.skip_reason;
  error_message = set_if u.error_message r.error_message;
  content_hash = set_if u.content_hash r.content_hash;
  target_message_ids = set_if u.target_message_ids r.target_message_ids;
  processing_result = set_if u.processing_result r.processing_result;
  retry_count = if u.increment_retry then suc r.retry_count else r.retry_count;
  processed_at = stamp_processed status now r.processed_at;
  published_at = stamp_published status now r.published_at;
}

-- The table `processed_messages`, in the order of its ids.
pub record MessageDb : Type 0 where
  pub rows : List ProcessedMessage
  pub next_id : ℕ

abbrev pub is_key : ℤ → ℕ → ProcessedMessage → Bool
is_key chat mid r = same_chat r.source_chat_id chat && r.source_message_id == mid

-- `get_by_source`.
unfoldable pub get_by_source : ℤ → ℕ → List ProcessedMessage → Option ProcessedMessage
get_by_source chat mid [] = none
get_by_source chat mid (r ∷ rs) =
    let rest = get_by_source chat mid rs in if is_key chat mid r then some r else rest

-- The commit of a change to the row with an id.
unfoldable pub change_row :
    ℕ → (ProcessedMessage → ProcessedMessage) → List ProcessedMessage → List ProcessedMessage
change_row i f [] = []
change_row i f (q ∷ qs) = (if q.id == i then f q else q) ∷ change_row i f qs

-- The arguments of `try_create`; no caller gives a `content_hash`.
pub record NewMessage : Type 0 where
  pub source_chat_id : ℤ
  pub source_message_id : ℕ
  pub grouped_id : Option ℕ
  pub status : MessageStatus
  pub target_chat_id : Option ℤ
  pub processing_result : Option NormalizedMessage

abbrev pub new_row : ℕ → NewMessage → ℕ → ProcessedMessage
new_row now n id = record {
  id = id;
  source_chat_id = n.source_chat_id;
  source_message_id = n.source_message_id;
  grouped_id = n.grouped_id;
  status = n.status;
  target_chat_id = n.target_chat_id;
  target_message_ids = none;
  content_hash = none;
  skip_reason = none;
  error_message = none;
  processing_result = n.processing_result;
  retry_count = 0;
  processed_at = none;
  published_at = none;
  created_at = now;
}

-- `try_create`: none where the constraint `uq_source_message` refuses the row.
unfoldable pub try_create : ℕ → NewMessage → MessageDb → Option ProcessedMessage × MessageDb
try_create now n db =
    if exists (is_key n.source_chat_id n.source_message_id) db.rows then (none, db) else (
      some (new_row now n db.next_id),
      record { rows = db.rows ++ new_row now n db.next_id ∷ []; next_id = suc db.next_id },
    )

-- `update_payload`.
unfoldable pub update_payload : NormalizedMessage → ProcessedMessage → ProcessedMessage
update_payload payload r = record r { processing_result = some payload }

abbrev pub status_number : MessageStatus → ℕ
status_number MessageStatus.received = 0
status_number MessageStatus.collecting_album = 1
status_number MessageStatus.processing = 2
status_number MessageStatus.filtered = 3
status_number MessageStatus.pending_review = 4
status_number MessageStatus.pending_publish = 5
status_number MessageStatus.publishing = 6
status_number MessageStatus.published = 7
status_number MessageStatus.retrying = 8
status_number MessageStatus.failed = 9

-- `a == b` on statuses, and `status in statuses`.
abbrev pub same_status : MessageStatus → MessageStatus → Bool
same_status a b = status_number a == status_number b

abbrev pub has_status : List MessageStatus → ProcessedMessage → Bool
has_status statuses r = exists (same_status r.status) statuses

unfoldable pub list_by_status :
    List MessageStatus → ℕ → List ProcessedMessage → List ProcessedMessage
list_by_status statuses limit rows = take limit (keep (has_status statuses) rows)

abbrev has_hash : Text → Option Text → Bool
has_hash hash none = false
has_hash hash (some h) = same_text h hash

-- `find_by_content_hash`, without `exclude_id`; the times are in seconds.
unfoldable pub find_by_content_hash : ℕ → Text → ℕ → List ProcessedMessage → Option ProcessedMessage
find_by_content_hash now hash within_hours [] = none
find_by_content_hash now hash within_hours (r ∷ rs) =
    let rest = find_by_content_hash now hash within_hours rs in
    if has_hash hash r.content_hash
      && (leb now (r.created_at + within_hours * 3600)
          && same_status r.status MessageStatus.published)
    then some r
    else rest
