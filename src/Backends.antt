-- ===== src/Backends.antt =====
-- app/source_backends.py: the ranges of chat ids that tell where a message comes from.
use tg_forwarder.Prelude.{ℕ, ◌+◌, Bool, false, not, ◌&&◌, leb, if◌then◌else◌}
use tg_forwarder.Prelude.Chats.{ℤ, pos, negsuc}

pub data SourceBackend : Type 0 where
  telegram safew api : SourceBackend

abbrev safew_chat_id_base : ℕ
safew_chat_id_base = 2000000000000000

abbrev api_chat_id_base : ℕ
api_chat_id_base = 1000000000000000

-- `chat_id <= -base`.
abbrev at_most_minus : ℕ → ℤ → Bool
at_most_minus base (pos n) = false
at_most_minus base (negsuc n) = leb base (n + 1)

unfoldable pub is_safew_chat_id : ℤ → Bool
is_safew_chat_id chat = at_most_minus safew_chat_id_base chat

unfoldable pub is_api_chat_id : ℤ → Bool
is_api_chat_id chat =
    not (at_most_minus safew_chat_id_base chat) && at_most_minus api_chat_id_base chat

unfoldable pub source_backend_for_chat_id : ℤ → SourceBackend
unfolding is_safew_chat_id is_api_chat_id
source_backend_for_chat_id chat =
    if is_safew_chat_id chat
    then SourceBackend.safew
    else (if is_api_chat_id chat then SourceBackend.api else SourceBackend.telegram)
