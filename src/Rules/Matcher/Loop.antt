-- ===== src/Rules/Matcher/Loop.antt =====
-- app/rules/matcher.py, the search loop of `find_matches`: `str.find`, and the `while True` loop.
use native.Mathlib.Decide.{dec_lt}
use tg_forwarder.Prelude.{
  ℕ, zero, suc, ◌+◌, ◌≤◌, ◌<◌, max, ◌≡◌, refl, ◌⊎◌, inl, inr, Bool, true, false, Option, none, some,
  List, [], ◌∷◌, arith, if◌then◌else◌, length, is_empty, is_some, Option-cases,
}
use tg_forwarder.Host.{Text, MatchHit}
use tg_forwarder.Rules.Matcher.{find, add_hit, contains_loop, hit_at}
use tg_forwarder.Rules.Matcher.Find.{occurs, length-pos, find-some, find-none}

-- What the loop collects from `lo` on: hits in order, disjoint, inside the text, each at an
-- occurrence of the needle that passed the test.
abbrev pub Chain : (ℕ → ℕ → Bool) → Text → Text → ℕ → List MatchHit → Type 0
Chain test s n lo [] = Unit
Chain test s n lo (h ∷ hs) =
    (lo ≤ h.start)
    × (h.end ≡ h.start + length n)
    × (h.end ≤ length s)
    × (occurs s n h.start ≡ true)
    × (test h.start h.end ≡ true)
    × Chain test s n h.end hs

Chain-weaken :
    (test : ℕ → ℕ → Bool) (s n : Text) (lo lo' : ℕ) (hs : List MatchHit)
    → lo ≤ lo'
    → Chain test s n lo' hs
    → Chain test s n lo hs
Chain-weaken test s n lo lo' [] l c = tt
Chain-weaken test s n lo lo' (h ∷ hs) l c = (omega arith, c.1, c.2, c.3, c.4, c.5)

-- A property of the hits, unless the fuel ran out.
abbrev pub OnResult : (List MatchHit → Type 0) → Option (List MatchHit) → Type 0
OnResult P none = Unit
OnResult P (some hs) = P hs

-- Some hit covers position `p`.
abbrev pub Covered : ℕ → List MatchHit → Type 0
Covered p [] = ⊥
Covered p (h ∷ hs) = ((h.start ≤ p) × (p < h.end)) ⊎ Covered p hs

module _ (test : ℕ → ℕ → Bool) (t s n : Text) where
  step_none :
      (fuel start : ℕ) → find s n start ≡ none → contains_loop test t s n (suc fuel) start ≡ some []
  unfolding contains_loop
  step_none fuel start e = rw (e, contains_loop)

  abbrev next_start : ℕ → ℕ
  next_start idx = idx + max 1 (length n)

  step_some :
      (fuel start idx : ℕ)
      → find s n start ≡ some idx
      → contains_loop test t s n (suc fuel) start
        ≡ add_hit test t idx (idx + length n) (contains_loop test t s n fuel (next_start idx))
  unfolding contains_loop
  step_some fuel start idx e = rw (e, contains_loop)

  picked-Chain :
      (idx lo : ℕ) (r : List MatchHit) (b : Bool)
      → test idx (idx + length n) ≡ b
      → lo ≤ idx
      → idx + length n ≤ length s
      → occurs s n idx ≡ true
      → Chain test s n (idx + length n) r
      → Chain test s n lo (if b then hit_at t idx (idx + length n) ∷ r else r)
  picked-Chain idx lo r true e l f o c = (l, refl, f, o, e, c)
  picked-Chain idx lo r false e l f o c =
      Chain-weaken test s n lo (idx + length n) r (omega arith) c

  add_hit-Chain :
      (idx lo : ℕ) (rest : Option (List MatchHit))
      → lo ≤ idx
      → idx + length n ≤ length s
      → occurs s n idx ≡ true
      → OnResult (Chain test s n (next_start idx)) rest
      → OnResult (Chain test s n lo) (add_hit test t idx (idx + length n) rest)
  add_hit-Chain idx lo none l f o c = tt
  add_hit-Chain idx lo (some r) l f o c =
      picked-Chain idx lo r (test idx (idx + length n)) refl l f o
        (Chain-weaken test s n (idx + length n) (next_start idx) r (omega arith) c)

  -- Every hit of the loop is an occurrence inside the text, and the hits are in order and disjoint.
  pub contains_loop-Chain :
      (fuel start : ℕ) → OnResult (Chain test s n start) (contains_loop test t s n fuel start)
  unfolding contains_loop
  contains_loop-Chain zero start = tt
  contains_loop-Chain (suc fuel) start = elim (Option-cases (find s n start)) [
    | inl e ↦ rw (step_none fuel start e) tt
    | inr (idx, e) ↦
        let (l, f, o, _) = find-some s n start idx e in
        rw (step_some fuel start idx e) (
          add_hit-Chain idx start (contains_loop test t s n fuel (next_start idx)) l f o
            (contains_loop-Chain fuel (next_start idx)))
  ]

  abbrev Complete : ℕ → List MatchHit → Type 0
  Complete lo hs = (p : ℕ) → lo ≤ p → occurs s n p ≡ true → Covered p hs

  picked-Complete :
      (idx lo : ℕ) (r : List MatchHit) (b : Bool)
      → test idx (idx + length n) ≡ b
      → ((i j : ℕ) → test i j ≡ true)
      → ((k : ℕ) → lo ≤ k → k < idx → occurs s n k ≡ false)
      → Complete (idx + length n) r
      → Complete lo (if b then hit_at t idx (idx + length n) ∷ r else r)
  picked-Complete idx lo r false e all before c p l o =
      absurd (ground (arith, all idx (idx + length n)))
  picked-Complete idx lo r true e all before c p l o = elim (dec_lt p idx) [
    | yes lt ↦ absurd (ground (arith, before p l lt))
    | no ge ↦ elim (dec_lt p (idx + length n)) [
      | yes lt ↦ inl (omega arith, lt)
      | no past ↦ inr (c p (omega arith) o)
    ]
  ]

  add_hit-Complete :
      (idx lo : ℕ) (rest : Option (List MatchHit))
      → ((i j : ℕ) → test i j ≡ true)
      → is_empty n ≡ false
      → ((k : ℕ) → lo ≤ k → k < idx → occurs s n k ≡ false)
      → OnResult (Complete (next_start idx)) rest
      → OnResult (Complete lo) (add_hit test t idx (idx + length n) rest)
  add_hit-Complete idx lo none all ne before c = tt
  add_hit-Complete idx lo (some r) all ne before c =
      picked-Complete idx lo r (test idx (idx + length n)) refl all before
        (λ p l o. c p (omega (arith, length-pos n ne)) o)

  -- Where every position passes the test, each occurrence is covered by a hit.
  pub contains_loop-Complete :
      ((i j : ℕ) → test i j ≡ true)
      → is_empty n ≡ false
      → (fuel start : ℕ) → OnResult (Complete start) (contains_loop test t s n fuel start)
  unfolding contains_loop
  contains_loop-Complete all ne zero start = tt
  contains_loop-Complete all ne (suc fuel) start = elim (Option-cases (find s n start)) [
    | inl e ↦
        rw (step_none fuel start e) (λ p l o. absurd (ground (arith, find-none s n start ne e p l)))
    | inr (idx, e) ↦
        let (l, f, o, before) = find-some s n start idx e in
        rw (step_some fuel start idx e) (
          add_hit-Complete idx start (contains_loop test t s n fuel (next_start idx)) all ne before
            (contains_loop-Complete all ne fuel (next_start idx)))
  ]

  add_hit-is_some :
      (idx : ℕ) (rest : Option (List MatchHit))
      → is_some rest ≡ true
      → is_some (add_hit test t idx (idx + length n) rest) ≡ true
  add_hit-is_some idx none h = h
  add_hit-is_some idx (some r) h = refl

  find_past : (start : ℕ) → length s < start → find s n start ≡ none
  unfolding find
  find_past start h = ground arith

  -- The loop ends before its fuel does.
  pub contains_loop-is_some :
      (fuel start : ℕ)
      → length s + 1 < fuel + start
      → 0 < fuel
      → is_some (contains_loop test t s n fuel start) ≡ true
  contains_loop-is_some zero start h pos = absurd (omega arith)
  contains_loop-is_some (suc fuel) start h pos = elim (Option-cases (find s n start)) [
    | inl e ↦ rw (step_none fuel start e) refl
    | inr (idx, e) ↦
        let (l, f, o, before) = find-some s n start idx e in
        rw (step_some fuel start idx e) (
          add_hit-is_some idx (contains_loop test t s n fuel (next_start idx))
            (contains_loop-is_some fuel (next_start idx) (omega arith) (omega arith)))
  ]
