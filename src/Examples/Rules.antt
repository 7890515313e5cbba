-- ===== src/Examples/Rules.antt =====
-- Tests and cases for the rules.
use tg_forwarder.Prelude.{ℕ, ◌+◌, ◌≡◌, refl, true, false, [], ◌∷◌, arith, is_some, keep, ok}
use tg_forwarder.Host.{Text, codes, MatchHit}
use tg_forwarder.Rules.Types.{RuleAction, RuleDefinition}
use tg_forwarder.Rules.Matcher.{
  validate_rule, literal_hits, find, find_matches, apply_replacements, contains_loop, loop_fuel,
}
use tg_forwarder.Rules.Matcher.Loop.{Covered, contains_loop-is_some}
use tg_forwarder.Rules.Matcher.Bounds.{
  IsLiteral, Occurrences, find_matches-Occurrences, find_matches-splice, find_matches-Covered,
}
use tg_forwarder.Rules.Matcher.Replace.{Ordered, splice}
use tg_forwarder.Rules.Engine.{
  run_rules, rule_matches, on_matches, insert_rule, apply_rule, apply_hits, rule_applies,
  sort_rules, apply_rules,
}
use tg_forwarder.Rules.Engine.Run.{RejectedBy, apply_rules-keep, apply_rules-RejectedBy}
use tg_forwarder.Examples.Data.{py, find_bc, context}

abbrev subject : Text
subject = codes "abcabc"

abbrev hit : ℕ → MatchHit
hit start = record { start = start; end = start + 2; matched_text = codes "bc" }

abbrev rule : RuleDefinition
rule = find_bc RuleAction.replace

abbrev rejecting : RuleDefinition
rejecting = find_bc RuleAction.reject

literal : (a : RuleAction) → IsLiteral (find_bc a)
literal a = record { sensitive = refl; contains = refl; text_rule = refl; no_regex = refl }

finds_two : find_matches py subject rule ≡ ok (hit 1 ∷ hit 4 ∷ [])
unfolding find_matches validate_rule literal_hits contains_loop find
finds_two = refl

replaces : apply_replacements subject (hit 1 ∷ hit 4 ∷ []) (codes "-") ≡ codes "a-a-"
unfolding apply_replacements
replaces = refl

find_matches-Occurrences_example : Occurrences subject (codes "bc") 0 (hit 1 ∷ hit 4 ∷ [])
find_matches-Occurrences_example =
    find_matches-Occurrences py subject rule (literal RuleAction.replace) (hit 1 ∷ hit 4 ∷ [])
      finds_two

find_matches-splice_example :
    apply_replacements subject (hit 1 ∷ hit 4 ∷ []) (codes "-")
    ≡ splice subject (codes "-") 0 (hit 1 ∷ hit 4 ∷ [])
find_matches-splice_example =
    find_matches-splice py subject rule (literal RuleAction.replace) (hit 1 ∷ hit 4 ∷ [])
      (codes "-") finds_two

find_matches-Covered_example : Covered 4 (hit 1 ∷ hit 4 ∷ [])
find_matches-Covered_example =
    find_matches-Covered py subject rule (literal RuleAction.replace) (hit 1 ∷ hit 4 ∷ []) refl
      finds_two 4 refl

in_order : Ordered subject 0 (hit 1 ∷ hit 4 ∷ [])
in_order = (omega arith, omega arith, omega arith, (omega arith, omega arith, omega arith, tt))

contains_loop-is_some_example :
    is_some (contains_loop (λ i j. true) subject subject (codes "bc") (loop_fuel subject) 0) ≡ true
contains_loop-is_some_example =
    contains_loop-is_some (λ i j. true) subject subject (codes "bc") (loop_fuel subject) 0
      (omega arith) (omega arith)

abbrev disabled : RuleDefinition
disabled = record (find_bc RuleAction.remove) { enabled = false }

apply_rules-keep_example :
    apply_rules py context (disabled ∷ rule ∷ []) subject
    ≡ apply_rules py context (keep (rule_applies context) (disabled ∷ rule ∷ [])) subject
apply_rules-keep_example = apply_rules-keep py context (disabled ∷ rule ∷ []) subject

rejects : (apply_rules py context (rejecting ∷ []) subject).reject ≡ true
unfolding apply_rules run_rules sort_rules insert_rule apply_rule rule_applies on_matches
    rule_matches validate_rule find_matches literal_hits contains_loop find apply_hits
rejects = refl

apply_rules-RejectedBy_example :
    RejectedBy context
      (apply_rules py context (rejecting ∷ []) subject).reject_reason
      (rejecting ∷ [])
apply_rules-RejectedBy_example = apply_rules-RejectedBy py context (rejecting ∷ []) subject rejects
