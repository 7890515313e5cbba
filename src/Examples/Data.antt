-- ===== src/Examples/Data.antt =====
-- A small runtime and small rows for the tests.
use tg_forwarder.Prelude.{
  ℕ, ◌+◌, Bool, true, false, ◌&&◌, ◌||◌, none, some, [], map, leb, ◌==◌, if◌then◌else◌,
}
use tg_forwarder.Prelude.Chats.{ℤ, pos, negsuc}
use tg_forwarder.Host.{codes, Host, RegexOutcome}
use tg_forwarder.Message.{NormalizedMessage, message_default}
use tg_forwarder.Rules.Types.{RuleType, MatchType, RuleAction, RuleDefinition}
use tg_forwarder.Rules.Engine.{RuleContext}

abbrev lower_code : ℕ → ℕ
lower_code c = if leb 65 c && leb c 90 then c + 32 else c

abbrev is_lower : ℕ → Bool
is_lower c = leb 97 c && leb c 122

-- The runtime, for ASCII texts and without regular expressions.
abbrev pub py : Host
py = record {
  lower = λ s. map lower_code s;
  is_alnum = λ c. is_lower (lower_code c) || (leb 48 c && leb c 57);
  is_space = λ c. c == 32 || c == 10;
  compiles = λ s. true;
  finditer = λ pattern ignore_case s. RegexOutcome.found [];
}

abbrev pub chat : ℤ
chat = negsuc 99

-- A case-sensitive rule that looks for `bc` anywhere.
abbrev pub find_bc : RuleAction → RuleDefinition
find_bc action = record {
  id = some 1;
  name = codes "bc";
  pattern = codes "bc";
  rule_type = RuleType.keyword;
  match_type = MatchType.contains;
  action = action;
  replacement = codes "-";
  case_sensitive = true;
  whole_word = false;
  use_regex = false;
  priority = pos 100;
  enabled = true;
  stop_processing = false;
  source_channel_ids = [];
  target_channel_ids = [];
  message_types = [];
}

abbrev pub context : RuleContext
context = record {
  source_chat_id = some chat;
  target_chat_id = none;
  media_type = codes "text";
  media_count = 0;
}

abbrev pub message : NormalizedMessage
message = record (message_default chat 7) { text = codes "abcabc" }
