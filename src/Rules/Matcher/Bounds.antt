-- ===== src/Rules/Matcher/Bounds.antt =====
-- app/rules/matcher.py, `find_matches`: where the hits of a rule lie, and that none is missed.
use tg_forwarder.Prelude.{
  ℕ, zero, suc, ◌+◌, ◌-◌, ◌≤◌, ◌<◌, ◌≡◌, refl, ◌∙◌, ap, Bool, true, false, List, [], ◌∷◌, arith,
  if◌then◌else◌, length, take, drop, is_empty, is_some, ok, Option, some, none,
}
use tg_forwarder.Host.{Text, Host, MatchHit, starts_with}
use tg_forwarder.Rules.Types.{MatchType, RuleDefinition}
use tg_forwarder.Rules.Matcher.{
  slice, uses_regex, is_has_media, find_matches, literal_hits, contains_loop, loop_fuel, or_empty,
  whole_word_ok, validate_rule, apply_replacements,
}
use tg_forwarder.Rules.Matcher.Loop.{
  Chain, OnResult, Covered, contains_loop-Chain, contains_loop-Complete, contains_loop-is_some,
}
use tg_forwarder.Rules.Matcher.Find.{occurs, length-pos}
use tg_forwarder.Rules.Matcher.Replace.{Ordered, splice, apply_replacements-splice}

-- A case-sensitive rule that looks for its pattern anywhere in the text.
pub record IsLiteral (rule : RuleDefinition) : Type 0 where
  pub sensitive : rule.case_sensitive ≡ true
  pub contains : rule.match_type ≡ MatchType.contains
  pub text_rule : is_has_media rule.rule_type ≡ false
  pub no_regex : uses_regex rule ≡ false

-- The hits are occurrences of the pattern: in order, disjoint, and in the text.
abbrev pub Occurrences : Text → Text → ℕ → List MatchHit → Type 0
Occurrences s pattern lo [] = Unit
Occurrences s pattern lo (h ∷ hs) =
    (lo ≤ h.start)
    × (h.end ≡ h.start + length pattern)
    × (h.end ≤ length s)
    × (slice h.start h.end s ≡ pattern)
    × Occurrences s pattern h.end hs

take-starts_with : (n s : Text) → starts_with n s ≡ true → take (length n) s ≡ n
take-starts_with [] s h = refl
take-starts_with (a ∷ n) [] h = absurd (ground arith)
take-starts_with (a ∷ n) (b ∷ s) h = ground (arith, take-starts_with n s)

slice-occurs :
    (s n : Text) (p end : ℕ) → end ≡ p + length n → occurs s n p ≡ true → slice p end s ≡ n
slice-occurs s n p end e o =
    let k : end - p ≡ length n = omega arith in
    ap (λ (k : ℕ). take k (drop p s)) k ∙ take-starts_with n (drop p s) o

module _ (test : ℕ → ℕ → Bool) (t s n : Text) where
  Occurrences-of_Chain :
      (lo : ℕ) (hs : List MatchHit) → Chain test s n lo hs → Occurrences s n lo hs
  Occurrences-of_Chain lo [] c = tt
  Occurrences-of_Chain lo (h ∷ hs) c =
      (c.0, c.1, c.2, slice-occurs s n h.start h.end c.1 c.3, Occurrences-of_Chain h.end hs c.5)

  or_empty-OnResult :
      (P : List MatchHit → Type 0) (o : Option (List MatchHit))
      → is_some o ≡ true
      → OnResult P o
      → P (or_empty o)
  or_empty-OnResult P none e h = absurd (ground arith)
  or_empty-OnResult P (some hs) e h = h

Ordered-of_Occurrences :
    (s n : Text) (lo : ℕ) (hs : List MatchHit)
    → 0 < length n
    → Occurrences s n lo hs
    → Ordered s lo hs
Ordered-of_Occurrences s n lo [] p c = tt
Ordered-of_Occurrences s n lo (h ∷ hs) p c =
    (c.0, omega arith, c.2, Ordered-of_Occurrences s n h.end hs p c.4)

occurs_empty : (s n : Text) (p : ℕ) → is_empty s ≡ true → is_empty n ≡ false → occurs s n p ≡ false
occurs_empty [] [] p e ne = absurd (ground arith)
occurs_empty [] (a ∷ n) zero e ne = refl
occurs_empty [] (a ∷ n) (suc p) e ne = refl
occurs_empty (c ∷ s) n p e ne = absurd (ground arith)

module _ (py : Host) (s : Text) (rule : RuleDefinition) (l : IsLiteral rule) where
  abbrev loop_hits : List MatchHit
  loop_hits = or_empty (contains_loop (whole_word_ok py rule s) s s rule.pattern (loop_fuel s) 0)

  -- Valid rules have a pattern.
  validate_rule-pattern : validate_rule py rule ≡ ok tt → is_empty rule.pattern ≡ false
  unfolding validate_rule
  validate_rule-pattern h = ground (arith, l.text_rule)

  -- What a valid rule of this kind finds.
  find_matches-cases :
      (hs : List MatchHit)
      → find_matches py s rule ≡ ok hs
      → (validate_rule py rule ≡ ok tt) × (hs ≡ (if is_empty s then [] else loop_hits))
  unfolding find_matches literal_hits
  find_matches-cases hs h = ground (arith, l.sensitive, l.contains, l.no_regex)

  abbrev test_at : ℕ → ℕ → Bool
  test_at = whole_word_ok py rule s

  loop-is_some : is_some (contains_loop test_at s s rule.pattern (loop_fuel s) 0) ≡ true
  loop-is_some =
      contains_loop-is_some test_at s s rule.pattern (loop_fuel s) 0 (omega arith) (omega arith)

  loop_hits-Occurrences : Occurrences s rule.pattern 0 loop_hits
  loop_hits-Occurrences = Occurrences-of_Chain test_at s s rule.pattern 0 loop_hits (
      or_empty-OnResult test_at s s rule.pattern (Chain test_at s rule.pattern 0)
        (contains_loop test_at s s rule.pattern (loop_fuel s) 0) loop-is_some
        (contains_loop-Chain test_at s s rule.pattern (loop_fuel s) 0))

  if_empty {κ} :
      (P : List MatchHit → Type κ) (b : Bool) (hs : List MatchHit)
      → P []
      → P hs
      → P (if b then [] else hs)
  if_empty P true hs e h = e
  if_empty P false hs e h = h

  -- The hits of a case-sensitive rule that looks for its pattern anywhere are in order, disjoint
  -- and inside the text, and each is the pattern itself.
  pub find_matches-Occurrences :
      (hs : List MatchHit) → find_matches py s rule ≡ ok hs → Occurrences s rule.pattern 0 hs
  find_matches-Occurrences hs h =
      rw ((find_matches-cases hs h).1)
        (if_empty (Occurrences s rule.pattern 0) (is_empty s) loop_hits tt loop_hits-Occurrences)

  -- Replacing the hits of such a rule, which the program does from right to left, gives the text
  -- from left to right with each hit replaced and all between the hits kept.
  pub find_matches-splice :
      (hs : List MatchHit) (r : Text)
      → find_matches py s rule ≡ ok hs
      → apply_replacements s hs r ≡ splice s r 0 hs
  find_matches-splice hs r h = apply_replacements-splice s r hs (
      Ordered-of_Occurrences s rule.pattern 0 hs
        (length-pos rule.pattern (validate_rule-pattern (find_matches-cases hs h).0))
        (find_matches-Occurrences hs h))

  -- Without the whole-word test, no occurrence of the pattern is missed: each starts inside a hit.
  pub find_matches-Covered :
      (hs : List MatchHit)
      → rule.whole_word ≡ false
      → find_matches py s rule ≡ ok hs
      → (p : ℕ) → occurs s rule.pattern p ≡ true
      → Covered p hs
  find_matches-Covered hs w h p o = if_some_hits (is_empty s) refl
    where
      ne : is_empty rule.pattern ≡ false
      ne = validate_rule-pattern (find_matches-cases hs h).0

      every : (i j : ℕ) → test_at i j ≡ true
      every i j = ground arith

      covered : Covered p loop_hits
      covered =
          or_empty-OnResult test_at s s rule.pattern
            (λ hs. (p : ℕ) → 0 ≤ p → occurs s rule.pattern p ≡ true → Covered p hs)
            (contains_loop test_at s s rule.pattern (loop_fuel s) 0) loop-is_some
            (contains_loop-Complete test_at s s rule.pattern every ne (loop_fuel s) 0) p
            (omega arith) o

      if_some_hits : (b : Bool) → is_empty s ≡ b → Covered p hs
      if_some_hits true e = absurd (ground (arith, occurs_empty s rule.pattern p e ne))
      if_some_hits false e = rw ((find_matches-cases hs h).1, e) covered
