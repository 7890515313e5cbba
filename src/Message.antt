-- ===== src/Message.antt =====
-- app/schemas/message.py and app/schemas/channel.py: the internal message, its parts, the results
-- of processors, and the routing types. Times are counted from a fixed epoch.
use tg_forwarder.Prelude.{ℕ, String, Bool, true, false, Option, none, List, []}
use tg_forwarder.Prelude.Chats.{ℤ}
use tg_forwarder.Host.{Text, codes}

pub data MediaType : Type 0 where
  text photo video document animation audio voice sticker album unsupported : MediaType

pub data ProcessAction : Type 0 where
  continue drop review fail : ProcessAction

pub data MessageStatus : Type 0 where
  received collecting_album processing filtered pending_review pending_publish : MessageStatus
  publishing published retrying failed : MessageStatus

pub record MessageEntity : Type 0 where
  pub type : String
  pub offset : ℕ
  pub length : ℕ
  pub url : Option Text
  pub user_id : Option ℕ
  pub language : Option Text
  pub custom_emoji_id : Option Text

pub record MediaItem : Type 0 where
  pub media_type : MediaType
  pub local_path : Option Text
  pub file_id : Option Text
  pub file_unique_id : Option Text
  pub original_filename : Option Text
  pub mime_type : Option Text
  pub file_size : Option ℕ
  pub width : Option ℕ
  pub height : Option ℕ
  pub duration : Option ℕ
  pub source_message_id : Option ℕ
  pub order : ℕ

pub record ForwardInfo : Type 0 where
  pub from_chat_id : Option ℤ
  pub from_message_id : Option ℕ
  pub from_name : Option Text
  pub date : Option ℕ

-- The values that the program puts into `raw_metadata`.
pub data Metadata : Type 0 where
  null : Metadata
  str : Text → Metadata
  int : ℕ → Metadata
  bool : Bool → Metadata

pub record NormalizedMessage : Type 0 where
  pub source_chat_id : ℤ
  pub source_message_id : ℕ
  pub source_chat_username : Option Text
  pub source_chat_title : Option Text
  pub grouped_id : Option ℕ
  pub date : Option ℕ
  pub edit_date : Option ℕ
  pub text : Text
  pub entities : List MessageEntity
  pub media_type : MediaType
  pub media_items : List MediaItem
  pub original_filename : Option Text
  pub mime_type : Option Text
  pub file_size : Option ℕ
  pub reply_to_message_id : Option ℕ
  pub forward_info : Option ForwardInfo
  pub raw_metadata : List (String × Metadata)
  pub target_chat_id : Option ℤ
  pub target_chat_ids : List ℤ
  pub album_message_ids : List ℕ

-- `NormalizedMessage(source_chat_id=…, source_message_id=…)`: every other field at its default.
abbrev pub message_default : ℤ → ℕ → NormalizedMessage
message_default chat mid = record {
  source_chat_id = chat;
  source_message_id = mid;
  source_chat_username = none;
  source_chat_title = none;
  grouped_id = none;
  date = none;
  edit_date = none;
  text = [];
  entities = [];
  media_type = MediaType.text;
  media_items = [];
  original_filename = none;
  mime_type = none;
  file_size = none;
  reply_to_message_id = none;
  forward_info = none;
  raw_metadata = [];
  target_chat_id = none;
  target_chat_ids = [];
  album_message_ids = [];
}

-- `MediaItem(media_type=…)`.
abbrev pub media_item_default : MediaType → MediaItem
media_item_default m = record {
  media_type = m;
  local_path = none;
  file_id = none;
  file_unique_id = none;
  original_filename = none;
  mime_type = none;
  file_size = none;
  width = none;
  height = none;
  duration = none;
  source_message_id = none;
  order = 0;
}

-- `MediaType.value`.
unfoldable pub media_type_value : MediaType → Text
media_type_value MediaType.text = codes "text"
media_type_value MediaType.photo = codes "photo"
media_type_value MediaType.video = codes "video"
media_type_value MediaType.document = codes "document"
media_type_value MediaType.animation = codes "animation"
media_type_value MediaType.audio = codes "audio"
media_type_value MediaType.voice = codes "voice"
media_type_value MediaType.sticker = codes "sticker"
media_type_value MediaType.album = codes "album"
media_type_value MediaType.unsupported = codes "unsupported"

abbrev pub is_text : MediaType → Bool
is_text MediaType.text = true
is_text _ = false

pub data PublishMode : Type 0 where
  auto review rule_based paused : PublishMode

pub data TargetBackend : Type 0 where
  telegram safew : TargetBackend

pub record TargetRoute : Type 0 where
  pub id : ℤ
  pub target_backend : TargetBackend
  pub chat_id : ℤ
  pub title : Option Text
