-- ===== src/Rules/Engine.antt =====
-- app/rules/engine.py: which rules apply, and the pass over the rules in priority order.
pub mod Run
pub mod Order
use tg_forwarder.Prelude.{
  ℕ, ◌+◌, ◌-◌, Bool, true, false, not, ◌&&◌, ◌||◌, Option, none, some, List, [], ◌∷◌, ◌++◌, ltb,
  leb, ◌==◌, if◌then◌else◌, is_empty, exists, map, Result, ok, err, ◌>>=◌, ◌>>◌,
}
use tg_forwarder.Prelude.Chats.{ℤ, pos, negsuc, same_chat}
use tg_forwarder.Host.{Text, codes, Host, MatchHit, same_text}
use tg_forwarder.Rules.Types.{
  RuleAction, RuleDefinition, RuleValidationError, HitRecord, RuleApplyResult, apply_result_default,
}
use tg_forwarder.Rules.Matcher.{
  validate_rule, is_has_media, find_has_media_matches, find_matches, apply_replacements, slice,
}

-- The keyword arguments of `apply_rules`. `media_type = []` is `None`.
pub record RuleContext : Type 0 where
  pub source_chat_id : Option ℤ
  pub target_chat_id : Option ℤ
  pub media_type : Text
  pub media_count : ℕ

-- `chat in ids`.
abbrev pub chat_in : Option ℤ → List ℤ → Bool
chat_in none ids = false
chat_in (some chat) ids = exists (same_chat chat) ids

unfoldable pub rule_applies : RuleContext → RuleDefinition → Bool
rule_applies ctx rule =
    rule.enabled
    && (is_empty rule.source_channel_ids || chat_in ctx.source_chat_id rule.source_channel_ids)
    && (is_empty rule.target_channel_ids || chat_in ctx.target_chat_id rule.target_channel_ids)
    && (is_empty rule.message_types
        || is_empty ctx.media_type
        || exists (same_text ctx.media_type) rule.message_types)

-- `r.id or 0`.
abbrev id_or_zero : Option ℕ → ℕ
id_or_zero none = 0
id_or_zero (some i) = i

-- `a < b` on integers.
abbrev ltb_int : ℤ → ℤ → Bool
ltb_int (pos a) (pos b) = ltb a b
ltb_int (pos a) (negsuc b) = false
ltb_int (negsuc a) (pos b) = true
ltb_int (negsuc a) (negsuc b) = ltb b a

-- `key(a) <= key(b)` for the key `(r.priority, r.id or 0)`.
unfoldable pub comes_first : RuleDefinition → RuleDefinition → Bool
comes_first a b =
    ltb_int a.priority b.priority
    || (same_chat a.priority b.priority && leb (id_or_zero a.id) (id_or_zero b.id))

-- `sorted(rules, key=…)`, a stable sort.
unfoldable pub insert_rule : RuleDefinition → List RuleDefinition → List RuleDefinition
insert_rule r [] = r ∷ []
insert_rule r (x ∷ xs) =
    let rest = insert_rule r xs in if comes_first r x then r ∷ x ∷ xs else x ∷ rest

unfoldable pub sort_rules : List RuleDefinition → List RuleDefinition
sort_rules [] = []
sort_rules (r ∷ rs) = insert_rule r (sort_rules rs)

unfoldable pub rule_matches :
    Host → RuleContext → Text → RuleDefinition → Result RuleValidationError (List MatchHit)
rule_matches py ctx current rule =
    validate_rule py rule
    >> (if is_has_media rule.rule_type
        then find_has_media_matches py rule ctx.media_type ctx.media_count
        else find_matches py current rule)

unfoldable pub error_record : RuleDefinition → RuleValidationError → HitRecord
error_record rule e = record {
  rule_id = rule.id;
  rule_name = rule.name;
  action = rule.action;
  error = some e;
  matched_text = [];
  replacement_text = [];
  match_start = 0;
  match_end = 0;
  before_excerpt = [];
  after_excerpt = [];
}

-- `before[max(0, start - 20) : …]`: `-` stops at 0, as the `max` does.
unfoldable pub hit_record : RuleDefinition → Text → Text → Text → MatchHit → HitRecord
hit_record rule before current replacement_text hit = record {
  rule_id = rule.id;
  rule_name = rule.name;
  action = rule.action;
  error = none;
  matched_text = hit.matched_text;
  replacement_text = replacement_text;
  match_start = hit.start;
  match_end = hit.end;
  before_excerpt = slice (hit.start - 20) (hit.end + 20) before;
  after_excerpt = slice (hit.start - 20) (hit.start + 20) current;
}

-- The new text, by the rule's action.
abbrev pub next_text : RuleDefinition → List MatchHit → Text → Text
next_text rule hits current = by_action rule.action
  where
    by_action : RuleAction → Text
    by_action RuleAction.replace = apply_replacements current hits rule.replacement
    by_action RuleAction.remove = apply_replacements current hits []
    by_action _ = current

abbrev replaced_with : RuleDefinition → RuleAction → Text
replaced_with rule RuleAction.replace = rule.replacement
replaced_with rule _ = []

-- `rule.replacement or rule.name`.
abbrev tag_of : RuleDefinition → Text
tag_of rule = if is_empty rule.replacement then rule.name else rule.replacement

-- The effect of the action on the result, hits and text aside.
abbrev pub act : RuleDefinition → RuleAction → RuleApplyResult → RuleApplyResult
act rule RuleAction.add_tag r = record r { tags = r.tags ++ tag_of rule ∷ [] }
act rule RuleAction.flag r = record r { flagged = r.flagged ++ rule.name ∷ [] }
act rule RuleAction.require_review r = record r { require_review = true }
act rule RuleAction.reject r = record r {
  reject = true;
  reject_reason = some (codes "rule:" ++ rule.name);
}
act rule _ r = r

-- One applied rule: what it does with its hits, and whether the loop goes on.
unfoldable pub apply_hits : RuleDefinition → List MatchHit → RuleApplyResult → RuleApplyResult
apply_hits rule hits r =
    let after = next_text rule hits r.text in
    let acted = act rule rule.action r in
    record acted {
      text = after;
      hits = r.hits ++ map (hit_record rule r.text after (replaced_with rule rule.action)) hits;
    }

unfoldable pub on_matches :
    RuleDefinition
    → Result RuleValidationError (List MatchHit)
    → RuleApplyResult
    → RuleApplyResult × Bool
on_matches rule (err e) r = (record r { hits = r.hits ++ error_record rule e ∷ [] }, false)
on_matches rule (ok []) r = (r, false)
on_matches rule (ok (h ∷ hs)) r =
    let r' = apply_hits rule (h ∷ hs) r in (r', rule.stop_processing || r'.reject)

-- The body of the loop; the flag says `break`.
unfoldable pub apply_rule :
    Host → RuleContext → RuleDefinition → RuleApplyResult → RuleApplyResult × Bool
apply_rule py ctx rule r =
    if rule_applies ctx rule
    then on_matches rule (rule_matches py ctx r.text rule) r
    else (r, false)

-- The loop keeps `current` in the field `text` of the result.
unfoldable pub run_rules :
    Host → RuleContext → List RuleDefinition → RuleApplyResult → RuleApplyResult
run_rules py ctx [] r = r
run_rules py ctx (rule ∷ rules) r =
    let (r', stop) = apply_rule py ctx rule r in
    let rest = run_rules py ctx rules r' in if stop then r' else rest

unfoldable pub apply_rules : Host → RuleContext → List RuleDefinition → Text → RuleApplyResult
apply_rules py ctx rules s = run_rules py ctx (sort_rules rules) (apply_result_default s)
