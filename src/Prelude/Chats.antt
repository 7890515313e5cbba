-- ===== src/Prelude/Chats.antt =====
-- Chat ids, which are signed: channel ids are negative.
use Prim.Native.Nat.{ℕ}
use mathlib.Core.Path.{◌≡◌}
use mathlib.Core.Bool.{Bool, true, false, not}
use mathlib.Core.List.{List, [], ◌∷◌}
use mathlib.Core.Logic.{inl, inr}
use tg_forwarder.Prelude.Lists.{All, All-keep, keep}
use native.Mathlib.Omega.{arith}
use tg_forwarder.Prelude.Tests.{◌==◌, Bool-cases}

-- `negsuc n` is -(n + 1).
pub data ℤ : Type 0 where
  pos : ℕ → ℤ
  negsuc : ℕ → ℤ

-- `a == b` on chat ids.
abbrev pub same_chat : ℤ → ℤ → Bool
same_chat (pos a) (pos b) = a == b
same_chat (negsuc a) (negsuc b) = a == b
same_chat (pos a) (negsuc b) = false
same_chat (negsuc a) (pos b) = false

pub same_chat→eq : (a b : ℤ) → same_chat a b ≡ true → a ≡ b
same_chat→eq a b h = ground arith

pub same_chat_refl : (a : ℤ) → same_chat a a ≡ true
same_chat_refl a = ground arith

-- No two of the values are equal.
abbrev pub Distinct : List ℤ → Type 0
Distinct [] = Unit {0}
Distinct (v ∷ vs) = All (λ w. same_chat v w ≡ false) vs × Distinct vs

pub All-kept :
    (v : ℤ) (vs : List ℤ) → All (λ w. same_chat v w ≡ false) (keep (λ w. not (same_chat v w)) vs)
All-kept v [] = tt
All-kept v (w ∷ ws) = elim (Bool-cases (same_chat v w)) [
  | inl b ↦ rw b (All-kept v ws)
  | inr b ↦ rw b (b, All-kept v ws)
]

pub Distinct-keep : (p : ℤ → Bool) (vs : List ℤ) → Distinct vs → Distinct (keep p vs)
Distinct-keep p [] h = tt
Distinct-keep p (v ∷ vs) h = elim (Bool-cases (p v)) [
  | inl b ↦ rw b (All-keep (λ w. same_chat v w ≡ false) p vs h.0, Distinct-keep p vs h.1)
  | inr b ↦ rw b (Distinct-keep p vs h.1)
]
