-- ===== src/Rules/Engine/Run.antt =====
-- app/rules/engine.py, `apply_rules`: what a whole pass over the rules does.
use tg_forwarder.Prelude.{
  ◌≡◌, refl, ◌∙◌, ap, ◌⊎◌, inl, inr, Bool, true, false, Option, some, List, [], ◌∷◌, ◌++◌, arith,
  if◌then◌else◌, All, keep, Result, ok, err, Bool-cases,
}
use tg_forwarder.Host.{Text, codes, Host, MatchHit}
use tg_forwarder.Rules.Types.{
  RuleAction, RuleDefinition, RuleValidationError, RuleApplyResult, apply_result_default,
}
use tg_forwarder.Rules.Engine.{
  RuleContext, rule_applies, comes_first, insert_rule, sort_rules, rule_matches, apply_hits,
  on_matches, apply_rule, run_rules, apply_rules,
}
use tg_forwarder.Rules.Engine.Order.{keep-sort_rules, All-insert_rule}

-- The action changes the text.
abbrev pub rewrites : RuleAction → Bool
rewrites RuleAction.replace = true
rewrites RuleAction.remove = true
rewrites _ = false

module _ (py : Host) (ctx : RuleContext) where
  apply_rule_skipped :
      (rule : RuleDefinition) (r : RuleApplyResult)
      → rule_applies ctx rule ≡ false
      → apply_rule py ctx rule r ≡ (r, false)
  unfolding apply_rule
  apply_rule_skipped rule r e = rw e

  run_rules_skipped :
      (rule : RuleDefinition) (rules : List RuleDefinition) (r : RuleApplyResult)
      → rule_applies ctx rule ≡ false
      → run_rules py ctx (rule ∷ rules) r ≡ run_rules py ctx rules r
  unfolding run_rules
  run_rules_skipped rule rules r e = rw (apply_rule_skipped rule r e)

  run_rules_cong :
      (rule : RuleDefinition) (xs ys : List RuleDefinition) (r : RuleApplyResult)
      → ((r' : RuleApplyResult) → run_rules py ctx xs r' ≡ run_rules py ctx ys r')
      → run_rules py ctx (rule ∷ xs) r ≡ run_rules py ctx (rule ∷ ys) r
  unfolding run_rules
  run_rules_cong rule xs ys r h =
      let (r', stop) = apply_rule py ctx rule r in
      ap (λ (rest : RuleApplyResult). if stop then r' else rest) (h r')

  run_rules-keep :
      (rules : List RuleDefinition) (r : RuleApplyResult)
      → run_rules py ctx rules r ≡ run_rules py ctx (keep (rule_applies ctx) rules) r
  run_rules-keep [] r = refl
  run_rules-keep (rule ∷ rules) r = elim (Bool-cases (rule_applies ctx rule)) [
    | inl e ↦
        rw e (run_rules_cong rule rules (keep (rule_applies ctx) rules) r (run_rules-keep rules))
    | inr e ↦ rw e (run_rules_skipped rule rules r e ∙ run_rules-keep rules r)
  ]

  -- Rules that are disabled, or are for other channels or media types, have no influence at all:
  -- the pass gives what it gives with those rules taken out.
  pub apply_rules-keep :
      (rules : List RuleDefinition) (s : Text)
      → apply_rules py ctx rules s ≡ apply_rules py ctx (keep (rule_applies ctx) rules) s
  unfolding apply_rules
  apply_rules-keep rules s =
      run_rules-keep (sort_rules rules) (apply_result_default s)
      ∙ ap (λ (rs : List RuleDefinition). run_rules py ctx rs (apply_result_default s))
          (keep-sort_rules (rule_applies ctx) rules)

  on_matches-text :
      (rule : RuleDefinition) (m : Result RuleValidationError (List MatchHit)) (r : RuleApplyResult)
      → rewrites rule.action ≡ false
      → (on_matches rule m r).0.text ≡ r.text
  unfolding on_matches apply_hits
  on_matches-text rule (err e) r h = refl
  on_matches-text rule (ok []) r h = refl
  on_matches-text rule (ok (x ∷ xs)) r h = ground arith

  apply_rule-text :
      (rule : RuleDefinition) (r : RuleApplyResult)
      → rewrites rule.action ≡ false
      → (apply_rule py ctx rule r).0.text ≡ r.text
  unfolding apply_rule
  apply_rule-text rule r h =
      ground (arith, on_matches-text rule (rule_matches py ctx r.text rule) r h)

  if-text :
      (b : Bool) (x y : RuleApplyResult) (s : Text)
      → x.text ≡ s
      → y.text ≡ s
      → (if b then x else y).text ≡ s
  if-text true x y s p q = p
  if-text false x y s p q = q

  run_rules-text :
      (rules : List RuleDefinition) (r : RuleApplyResult)
      → All (λ rule. rewrites rule.action ≡ false) rules
      → (run_rules py ctx rules r).text ≡ r.text
  unfolding run_rules
  run_rules-text [] r h = refl
  run_rules-text (rule ∷ rules) r h =
      let (r', stop) = apply_rule py ctx rule r in
      if-text stop r' (run_rules py ctx rules r') r.text (apply_rule-text rule r h.0)
        (run_rules-text rules r' h.1 ∙ apply_rule-text rule r h.0)

All-sort_rules {κ} :
    (P : RuleDefinition → Type κ) (rules : List RuleDefinition)
    → All P rules
    → All P (sort_rules rules)
unfolding sort_rules
All-sort_rules P [] h = tt
All-sort_rules P (r ∷ rs) h = All-insert_rule P r (sort_rules rs) h.0 (All-sort_rules P rs h.1)

-- Without a rule that replaces or removes, the text comes out as it went in.
pub apply_rules-text :
    (py : Host) (ctx : RuleContext) (rules : List RuleDefinition) (s : Text)
    → All (λ rule. rewrites rule.action ≡ false) rules
    → (apply_rules py ctx rules s).text ≡ s
unfolding apply_rules
apply_rules-text py ctx rules s h =
    run_rules-text py ctx (sort_rules rules) (apply_result_default s)
      (All-sort_rules (λ rule. rewrites rule.action ≡ false) rules h)

-- One of the rules rejects, applies here, and gave the reason.
abbrev pub RejectedBy : RuleContext → Option Text → List RuleDefinition → Type 0
RejectedBy ctx reason [] = ⊥
RejectedBy ctx reason (rule ∷ rules) =
    ((rule.action ≡ RuleAction.reject)
      × (rule_applies ctx rule ≡ true)
      × (reason ≡ some (codes "rule:" ++ rule.name)))
    ⊎ RejectedBy ctx reason rules

module _ (py : Host) (ctx : RuleContext) where
  Rejected1 : RuleDefinition → RuleApplyResult → Type 0
  Rejected1 rule r =
      (rule.action ≡ RuleAction.reject)
      × (rule_applies ctx rule ≡ true)
      × (r.reject_reason ≡ some (codes "rule:" ++ rule.name))

  on_matches-reject :
      (rule : RuleDefinition) (m : Result RuleValidationError (List MatchHit)) (r : RuleApplyResult)
      → rule_applies ctx rule ≡ true
      → r.reject ≡ false
      → ((on_matches rule m r).0.reject ≡ false)
        ⊎ (((on_matches rule m r).1 ≡ true) × Rejected1 rule (on_matches rule m r).0)
  unfolding on_matches apply_hits Rejected1
  on_matches-reject rule (err e) r a h = inl h
  on_matches-reject rule (ok []) r a h = inl h
  on_matches-reject rule (ok (x ∷ xs)) r a h = ground arith

  apply_rule-reject :
      (rule : RuleDefinition) (r : RuleApplyResult)
      → r.reject ≡ false
      → ((apply_rule py ctx rule r).0.reject ≡ false)
        ⊎ (((apply_rule py ctx rule r).1 ≡ true) × Rejected1 rule (apply_rule py ctx rule r).0)
  unfolding apply_rule
  apply_rule-reject rule r h = elim (Bool-cases (rule_applies ctx rule)) [
    | inl e ↦ rw e (on_matches-reject rule (rule_matches py ctx r.text rule) r e h)
    | inr e ↦ rw e (inl h)
  ]

  settle :
      (rule : RuleDefinition) (rules : List RuleDefinition) (r rest : RuleApplyResult) (stop : Bool)
      → (r.reject ≡ false) ⊎ ((stop ≡ true) × Rejected1 rule r)
      → (r.reject ≡ false → rest.reject ≡ true → RejectedBy ctx rest.reject_reason rules)
      → (if stop then r else rest).reject ≡ true
      → RejectedBy ctx (if stop then r else rest).reject_reason (rule ∷ rules)
  unfolding Rejected1
  settle rule rules r rest true (inl kept) ih e = absurd (ground arith)
  settle rule rules r rest false (inl kept) ih e = inr (ih kept e)
  settle rule rules r rest true (inr by) ih e = inl (by.1)
  settle rule rules r rest false (inr by) ih e = absurd (ground arith)

  run_rules-reject :
      (rules : List RuleDefinition) (r : RuleApplyResult)
      → r.reject ≡ false
      → (run_rules py ctx rules r).reject ≡ true
      → RejectedBy ctx (run_rules py ctx rules r).reject_reason rules
  unfolding run_rules
  run_rules-reject [] r h e = absurd (ground arith)
  run_rules-reject (rule ∷ rules) r h e =
      let (r', stop) = apply_rule py ctx rule r in
      settle rule rules r' (run_rules py ctx rules r') stop (apply_rule-reject rule r h)
        (run_rules-reject rules r') e

  RejectedBy-insert_rule :
      (reason : Option Text) (rule : RuleDefinition) (rules : List RuleDefinition)
      → RejectedBy ctx reason (insert_rule rule rules)
      → RejectedBy ctx reason (rule ∷ rules)
  unfolding insert_rule
  RejectedBy-insert_rule reason rule [] h = h
  RejectedBy-insert_rule reason rule (x ∷ xs) h =
      moved (comes_first rule x) (RejectedBy-insert_rule reason rule xs) h
    where
      swapped : RejectedBy ctx reason (rule ∷ xs) → RejectedBy ctx reason (rule ∷ x ∷ xs)
      swapped (inl a) = inl a
      swapped (inr b) = inr (inr b)

      moved :
          (b : Bool)
          → (RejectedBy ctx reason (insert_rule rule xs) → RejectedBy ctx reason (rule ∷ xs))
          → RejectedBy ctx reason (if b then rule ∷ x ∷ xs else x ∷ insert_rule rule xs)
          → RejectedBy ctx reason (rule ∷ x ∷ xs)
      moved true ih h = h
      moved false ih (inl a) = inr (inl a)
      moved false ih (inr b) = swapped (ih b)

  RejectedBy-sort_rules :
      (reason : Option Text) (rules : List RuleDefinition)
      → RejectedBy ctx reason (sort_rules rules)
      → RejectedBy ctx reason rules
  unfolding sort_rules
  RejectedBy-sort_rules reason [] h = h
  RejectedBy-sort_rules reason (rule ∷ rules) h =
      elim (RejectedBy-insert_rule reason rule (sort_rules rules) h) [
        | inl a ↦ inl a
        | inr b ↦ inr (RejectedBy-sort_rules reason rules b)
      ]

  -- A rejection always names its rule: one of the given rules, which rejects and applies here.
  pub apply_rules-RejectedBy :
      (rules : List RuleDefinition) (s : Text)
      → (apply_rules py ctx rules s).reject ≡ true
      → RejectedBy ctx (apply_rules py ctx rules s).reject_reason rules
  unfolding apply_rules
  apply_rules-RejectedBy rules s e =
      RejectedBy-sort_rules (apply_rules py ctx rules s).reject_reason rules
        (run_rules-reject (sort_rules rules) (apply_result_default s) refl e)
