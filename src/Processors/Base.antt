-- ===== src/Processors/Base.antt =====
-- app/schemas/message.py, `ProcessingContext` and `ProcessResult`. The details of a result are left
-- out; of the context's `extra`, the content hash is kept.
use tg_forwarder.Prelude.{String, Bool, Option, none, some, Result}
use tg_forwarder.Prelude.Chats.{ℤ}
use tg_forwarder.Host.{Text}
use tg_forwarder.Message.{ProcessAction, NormalizedMessage}

pub record ProcessingContext : Type 0 where
  pub target_chat_id : ℤ
  pub source_username : Option Text
  pub paused : Bool
  pub content_hash : Option Text

pub record ProcessResult : Type 0 where
  pub action : ProcessAction
  pub message : Option NormalizedMessage
  pub reason : Option String

abbrev pub cont : NormalizedMessage → ProcessResult
cont m = record { action = ProcessAction.continue; message = some m; reason = none }

abbrev pub drop_message : NormalizedMessage → String → ProcessResult
drop_message m reason = record {
  action = ProcessAction.drop;
  message = some m;
  reason = some reason;
}

-- An exception: `type(exc).__name__` and `str(exc)`.
pub record Raised : Type 0 where
  pub exception_type : Text
  pub message : Text

-- A processor: `process(message, context)` returns a result and may write into the context, or it
-- raises.
pub record MessageProcessor : Type 0 where
  pub name : String
  pub process :
      NormalizedMessage → ProcessingContext → Result Raised (ProcessResult × ProcessingContext)
