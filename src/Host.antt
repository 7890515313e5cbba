-- ===== src/Host.antt =====
-- What the program uses of the Python runtime and cannot be read in the repository: the Unicode
-- methods of `str` (`lower`, `isalnum`, the white space of `strip`) and the `re` module. A text is
-- the list of its code points. Every component that calls these takes a `Host`.
use Prim.Native.Char.{code}
use tg_forwarder.Prelude.{
  ℕ, String, ◌≡◌, refl, arith, Bool, true, false, List, [], ◌∷◌, ◌&&◌, ◌==◌, if◌then◌else◌,
}
use mathlib.Core.List.{reverse}

abbrev pub Text : Type 0
Text = List ℕ

abbrev pub codes : String → Text
codes String.[] = []
codes (String.◌∷◌ c s) = code c ∷ codes s

-- app/rules/types.py, `MatchHit`.
pub record MatchHit : Type 0 where
  pub start : ℕ
  pub end : ℕ
  pub matched_text : Text

-- How `re.finditer` under the `SIGALRM` timer ends.
pub data RegexOutcome : Type 0 where
  found : List MatchHit → RegexOutcome
  timed_out : RegexOutcome
  broken : RegexOutcome

pub record Host : Type 0 where
  pub lower : Text → Text
  pub is_alnum : ℕ → Bool
  pub is_space : ℕ → Bool
  -- `re.compile(pattern)` does not raise.
  pub compiles : Text → Bool
  -- `finditer pattern ignore_case text`.
  pub finditer : Text → Bool → Text → RegexOutcome

-- `a == b` on texts.
abbrev pub same_text : Text → Text → Bool
same_text [] [] = true
same_text (a ∷ as') (b ∷ bs) = a == b && same_text as' bs
same_text _ _ = false

-- `text.lstrip()`, `text.rstrip()` and `text.strip()`.
abbrev pub lstrip : Host → Text → Text
lstrip py [] = []
lstrip py (c ∷ cs) = let rest = lstrip py cs in if py.is_space c then rest else c ∷ cs

abbrev pub rstrip : Host → Text → Text
rstrip py [] = []
rstrip py (c ∷ cs) = elim (rstrip py cs) [
  | [] ↦ (if py.is_space c then [] else c ∷ [])
  | d ∷ ds ↦ c ∷ d ∷ ds
]

abbrev pub strip : Host → Text → Text
strip py s = rstrip py (lstrip py s)

-- `text.startswith(needle)`.
abbrev pub starts_with : Text → Text → Bool
starts_with [] s = true
starts_with (a ∷ as') [] = false
starts_with (a ∷ as') (b ∷ bs) = a == b && starts_with as' bs

-- `text.endswith(needle)`.
abbrev pub ends_with : Text → Text → Bool
ends_with needle s = starts_with (reverse needle) (reverse s)

pub same_text_refl : (a : Text) → same_text a a ≡ true
same_text_refl [] = refl
same_text_refl (c ∷ cs) = ground (arith, same_text_refl cs)

pub same_text→eq : (a b : Text) → same_text a b ≡ true → a ≡ b
same_text→eq [] [] h = refl
same_text→eq [] (d ∷ ds) h = absurd (ground arith)
same_text→eq (c ∷ cs) [] h = absurd (ground arith)
same_text→eq (c ∷ cs) (d ∷ ds) h =
    let head : c ≡ d = ground arith in
    let tail : cs ≡ ds = ground (arith, same_text→eq cs ds) in rw (head, tail) refl
