-- ===== src/Rules/Types.antt =====
-- app/rules/types.py and `rule_row_to_definition` of app/rules/loader.py.
use tg_forwarder.Prelude.{ℕ, Bool, Option, none, List, [], false}
use tg_forwarder.Prelude.Chats.{ℤ}
use tg_forwarder.Host.{Text}

pub data RuleType : Type 0 where
  keyword phrase username link domain regex has_media : RuleType

pub data MatchType : Type 0 where
  contains equals starts_with ends_with regex : MatchType

pub data RuleAction : Type 0 where
  flag reject require_review replace remove add_tag : RuleAction

pub record RuleDefinition : Type 0 where
  pub id : Option ℕ
  pub name : Text
  pub pattern : Text
  pub rule_type : RuleType
  pub match_type : MatchType
  pub action : RuleAction
  pub replacement : Text
  pub case_sensitive : Bool
  pub whole_word : Bool
  pub use_regex : Bool
  pub priority : ℤ
  pub enabled : Bool
  pub stop_processing : Bool
  pub source_channel_ids : List ℤ
  pub target_channel_ids : List ℤ
  pub message_types : List Text

-- The messages of `RuleValidationError`.
pub data RuleValidationError : Type 0 where
  name_required bad_has_media pattern_required pattern_too_long invalid_regex : RuleValidationError

-- One entry of `RuleApplyResult.hits`; an entry for an invalid rule has `error`, no position.
pub record HitRecord : Type 0 where
  pub rule_id : Option ℕ
  pub rule_name : Text
  pub action : RuleAction
  pub error : Option RuleValidationError
  pub matched_text : Text
  pub replacement_text : Text
  pub match_start : ℕ
  pub match_end : ℕ
  pub before_excerpt : Text
  pub after_excerpt : Text

pub record RuleApplyResult : Type 0 where
  pub text : Text
  pub hits : List HitRecord
  pub tags : List Text
  pub require_review : Bool
  pub reject : Bool
  pub reject_reason : Option Text
  pub flagged : List Text

-- `RuleApplyResult(text=…)`.
abbrev pub apply_result_default : Text → RuleApplyResult
apply_result_default t = record {
  text = t;
  hits = [];
  tags = [];
  require_review = false;
  reject = false;
  reject_reason = none;
  flagged = [];
}
