-- ===== src/Rules/Engine/Order.antt =====
-- app/rules/engine.py: the order of the rules, `sorted(rules, key=lambda r: (r.priority, r.id or
-- 0))`.
use tg_forwarder.Prelude.{
  ◌≡◌, refl, ◌∙◌, ap, inl, inr, Bool, true, false, List, [], ◌∷◌, arith, if◌then◌else◌, All, keep,
  All-keep, Bool-cases,
}
use tg_forwarder.Rules.Types.{RuleDefinition}
use tg_forwarder.Rules.Engine.{comes_first, insert_rule, sort_rules}

-- A rule stands before every later one with a larger key.
abbrev pub IsSorted : List RuleDefinition → Type 0
IsSorted [] = Unit
IsSorted (r ∷ rs) = All (λ x. comes_first r x ≡ true) rs × IsSorted rs

comes_first_trans :
    (a b c : RuleDefinition)
    → comes_first a b ≡ true
    → comes_first b c ≡ true
    → comes_first a c ≡ true
unfolding comes_first
comes_first_trans a b c p q = ground arith

comes_first_total : (a b : RuleDefinition) → comes_first a b ≡ false → comes_first b a ≡ true
unfolding comes_first
comes_first_total a b p = ground arith

All-before :
    (a b : RuleDefinition) (rs : List RuleDefinition)
    → comes_first a b ≡ true
    → All (λ x. comes_first b x ≡ true) rs
    → All (λ x. comes_first a x ≡ true) rs
All-before a b [] p h = tt
All-before a b (x ∷ rs) p h = (comes_first_trans a b x p h.0, All-before a b rs p h.1)

module _ {κ} (P : RuleDefinition → Type κ) where
  pub All-insert_rule :
      (r : RuleDefinition) (rs : List RuleDefinition) → P r → All P rs → All P (insert_rule r rs)
  unfolding insert_rule
  All-insert_rule r [] p h = (p, tt)
  All-insert_rule r (x ∷ xs) p h = placed (comes_first r x) (All-insert_rule r xs p h.1)
    where
      placed :
          (b : Bool)
          → All P (insert_rule r xs)
          → All P (if b then r ∷ x ∷ xs else x ∷ insert_rule r xs)
      placed true ih = (p, h)
      placed false ih = (h.0, ih)

insert_rule-IsSorted :
    (r : RuleDefinition) (rs : List RuleDefinition) → IsSorted rs → IsSorted (insert_rule r rs)
unfolding insert_rule
insert_rule-IsSorted r [] h = (tt, tt)
insert_rule-IsSorted r (x ∷ xs) h = placed (comes_first r x) refl (insert_rule-IsSorted r xs h.1)
  where
    placed :
        (b : Bool)
        → comes_first r x ≡ b
        → IsSorted (insert_rule r xs)
        → IsSorted (if b then r ∷ x ∷ xs else x ∷ insert_rule r xs)
    placed true e ih = ((e, All-before r x xs e h.0), h)
    placed false e ih =
        (All-insert_rule (λ y. comes_first x y ≡ true) r xs (comes_first_total r x e) h.0, ih)

-- The rules run in the order of their priority, and of their id where priorities agree.
pub sort_rules-IsSorted : (rs : List RuleDefinition) → IsSorted (sort_rules rs)
unfolding sort_rules
sort_rules-IsSorted [] = tt
sort_rules-IsSorted (r ∷ rs) = insert_rule-IsSorted r (sort_rules rs) (sort_rules-IsSorted rs)

module _ (p : RuleDefinition → Bool) where
  insert_rule_first :
      (r : RuleDefinition) (rs : List RuleDefinition)
      → All (λ x. comes_first r x ≡ true) rs
      → insert_rule r rs ≡ r ∷ rs
  unfolding insert_rule
  insert_rule_first r [] h = refl
  insert_rule_first r (x ∷ xs) h = rw h.0

  All-keep-before :
      (a : RuleDefinition) (rs : List RuleDefinition)
      → All (λ x. comes_first a x ≡ true) rs
      → All (λ x. comes_first a x ≡ true) (keep p rs)
  All-keep-before a rs h = All-keep (λ x. comes_first a x ≡ true) p rs h

  -- Inserting into an ordered list commutes with leaving rules out.
  keep-insert_rule :
      (r : RuleDefinition) (rs : List RuleDefinition)
      → IsSorted rs
      → keep p (insert_rule r rs) ≡ (if p r then insert_rule r (keep p rs) else keep p rs)
  unfolding insert_rule
  keep-insert_rule r [] h = ground arith
  keep-insert_rule r (x ∷ xs) h = elim (Bool-cases (comes_first r x)) [
    | inl e ↦ ground (
      arith,
      insert_rule_first r (keep p (x ∷ xs))
          (All-keep-before r (x ∷ xs) (e, All-before r x xs e h.0)),
    )
    | inr e ↦ ground (arith, keep-insert_rule r xs h.1)
  ]

  -- Ordering commutes with leaving rules out.
  pub keep-sort_rules : (rs : List RuleDefinition) → keep p (sort_rules rs) ≡ sort_rules (keep p rs)
  unfolding sort_rules
  keep-sort_rules [] = refl
  keep-sort_rules (r ∷ rs) =
      keep-insert_rule r (sort_rules rs) (sort_rules-IsSorted rs) ∙ kept (keep-sort_rules rs) (p r)
    where
      kept :
          keep p (sort_rules rs) ≡ sort_rules (keep p rs)
          → (b : Bool)
          → (if b then insert_rule r (keep p (sort_rules rs)) else keep p (sort_rules rs))
            ≡ sort_rules (if b then r ∷ keep p rs else keep p rs)
      kept ih true = ap (insert_rule r) ih
      kept ih false = ih
