-- ===== src/Rules/Matcher/Find.antt =====
-- app/rules/matcher.py: `str.find`, with which the search loop goes through the text.
use native.Mathlib.Nat.{add-zero, add-suc}
use tg_forwarder.Prelude.{
  ℕ, zero, suc, ◌+◌, ◌-◌, ◌≤◌, ◌<◌, ◌≡◌, refl, sym, ◌∙◌, ap, inl, inr, Bool, true, false, none,
  some, [], ◌∷◌, arith, ltb, length, drop, is_empty, length-drop, Bool-cases,
}
use tg_forwarder.Host.{Text, starts_with}
use tg_forwarder.Rules.Matcher.{scan, find}

-- The needle stands at position `p`.
abbrev pub occurs : Text → Text → ℕ → Bool
occurs haystack needle p = starts_with needle (drop p haystack)

pub length-pos : (n : Text) → is_empty n ≡ false → 0 < length n
length-pos [] e = absurd (ground arith)
length-pos (a ∷ n) e = omega arith

pub length-le-starts_with : (n s : Text) → starts_with n s ≡ true → length n ≤ length s
length-le-starts_with [] s h = omega arith
length-le-starts_with (a ∷ n) [] h = absurd (ground arith)
length-le-starts_with (a ∷ n) (b ∷ s) h = ground (arith, length-le-starts_with n s)

pub length-drop_occurs :
    (s n : Text) (p : ℕ) → occurs s n p ≡ true → p ≤ length s → p + length n ≤ length s
length-drop_occurs s n zero h l = omega (arith, length-le-starts_with n s h)
length-drop_occurs [] n (suc p) h l = absurd (omega arith)
length-drop_occurs (c ∷ s) n (suc p) h l = omega (arith, length-drop_occurs s n p h (omega arith))

pub drop_beyond : (s : Text) (p : ℕ) → length s ≤ p → drop p s ≡ []
drop_beyond [] zero h = refl
drop_beyond [] (suc p) h = refl
drop_beyond (c ∷ s) zero h = absurd (omega arith)
drop_beyond (c ∷ s) (suc p) h = drop_beyond s p (omega arith)

pub drop_nil : (k : ℕ) → drop {A = ℕ} k [] ≡ []
drop_nil zero = refl
drop_nil (suc k) = refl

pub drop-drop : (s : Text) (i k : ℕ) → drop k (drop i s) ≡ drop (k + i) s
drop-drop s zero k = rw add-zero
drop-drop [] (suc i) k = drop_nil k ∙ sym (drop_nil (k + suc i))
drop-drop (c ∷ s) (suc i) k = rw add-suc (drop-drop s i k)

pub scan-some :
    (n s : Text) (i j : ℕ)
    → scan n s i ≡ some j
    → (d : ℕ) × (j ≡ i + d)
      × (d ≤ length s)
      × (occurs s n d ≡ true)
      × ((k : ℕ) → k < d → occurs s n k ≡ false)
unfolding scan
scan-some [] [] i j h = (0, ground arith, omega arith, refl, λ k l. absurd (omega arith))
scan-some (a ∷ n) [] i j h = absurd (ground arith)
scan-some n (c ∷ s) i j h = elim (Bool-cases (starts_with n (c ∷ s))) [
  | inl here ↦ (0, ground arith, omega arith, here, λ k l. absurd (omega arith))
  | inr later ↦
      let (d, e, l, o, m) = scan-some n s (suc i) j (ground arith) in
      (suc d, omega arith, omega arith, o, first d m later)
]
  where
    first :
        (d : ℕ)
        → ((k : ℕ) → k < d → occurs s n k ≡ false)
        → starts_with n (c ∷ s) ≡ false
        → (k : ℕ) → k < suc d
        → occurs (c ∷ s) n k ≡ false
    first d m later zero l = later
    first d m later (suc k) l = m k (omega arith)

pub scan-none :
    (n s : Text) (i : ℕ) → is_empty n ≡ false → scan n s i ≡ none → (k : ℕ) → occurs s n k ≡ false
unfolding scan
scan-none [] s i e h k = absurd (ground arith)
scan-none (a ∷ n) [] i e h k = rw drop_nil
scan-none (a ∷ n) (c ∷ s) i e h zero = ground arith
scan-none (a ∷ n) (c ∷ s) i e h (suc k) = scan-none (a ∷ n) s (suc i) e (ground arith) k

pub occurs-drop :
    (s n : Text) (start k : ℕ) → start ≤ k → occurs (drop start s) n (k - start) ≡ occurs s n k
occurs-drop s n start k l =
    let split : (k - start) + start ≡ k = omega arith in
    ap (starts_with n) (drop-drop s start (k - start) ∙ ap (λ (i : ℕ). drop i s) split)

pub starts_with_nil : (n : Text) → is_empty n ≡ false → starts_with n [] ≡ false
starts_with_nil [] e = absurd (ground arith)
starts_with_nil (a ∷ n) e = refl

pub found_from :
    (s n : Text) (start j : ℕ)
    → start ≤ length s
    → (d : ℕ) × (j ≡ start + d)
      × (d ≤ length (drop start s))
      × (occurs (drop start s) n d ≡ true)
      × ((k : ℕ) → k < d → occurs (drop start s) n k ≡ false)
    → (start ≤ j)
      × (j + length n ≤ length s)
      × (occurs s n j ≡ true)
      × ((k : ℕ) → start ≤ k → k < j → occurs s n k ≡ false)
found_from s n start j le (d, e, l, o, m) = (omega arith, fits, here, before)
  where
    d_eq : d ≡ j - start
    d_eq = omega arith

    here : occurs s n j ≡ true
    here =
        sym (occurs-drop s n start j (omega arith)) ∙ (ap (occurs (drop start s) n) (sym d_eq) ∙ o)

    fits : j + length n ≤ length s
    fits = length-drop_occurs s n j here (omega (arith, length-drop start s))

    before : (k : ℕ) → start ≤ k → k < j → occurs s n k ≡ false
    before k le' lt = sym (occurs-drop s n start k le') ∙ m (k - start) (omega arith)

-- `find` returns the first occurrence at or after `start`.
pub find-some :
    (s n : Text) (start j : ℕ)
    → find s n start ≡ some j
    → (start ≤ j)
      × (j + length n ≤ length s)
      × (occurs s n j ≡ true)
      × ((k : ℕ) → start ≤ k → k < j → occurs s n k ≡ false)
unfolding find
find-some s n start j h = elim (Bool-cases (ltb (length s) start)) [
  | inl past ↦ absurd (ground arith)
  | inr within ↦
      found_from s n start j (ground arith) (scan-some n (drop start s) start j (ground arith))
]

pub find-none :
    (s n : Text) (start : ℕ)
    → is_empty n ≡ false
    → find s n start ≡ none
    → (k : ℕ) → start ≤ k
    → occurs s n k ≡ false
unfolding find
find-none s n start e h k l = elim (Bool-cases (ltb (length s) start)) [
  | inl past ↦ rw (drop_beyond s k (ground arith)) (starts_with_nil n e)
  | inr within ↦
      sym (occurs-drop s n start k l)
      ∙ scan-none n (drop start s) start e (ground arith) (k - start)
]
