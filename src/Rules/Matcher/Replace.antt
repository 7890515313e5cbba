-- ===== src/Rules/Matcher/Replace.antt =====
-- app/rules/matcher.py, `apply_replacements`: the pass from right to left is the splice from left
-- to right.
use mathlib.Core.List.{foldl, foldl-append}
use mathlib.Core.Path.{ap₂}
use tg_forwarder.Prelude.{
  ℕ, zero, suc, ◌+◌, ◌-◌, ◌≤◌, ◌<◌, ◌≡◌, refl, sym, ◌∙◌, ap, List, [], ◌∷◌, ◌++◌, arith, length,
  take, drop, take-append-drop,
}
use tg_forwarder.Host.{Text, MatchHit}
use tg_forwarder.Rules.Matcher.{slice, insert_hit, sort_hits, replace_step, apply_replacements}

-- Hits that are not empty, in order, disjoint, and inside the text, from `lo` on.
abbrev pub Ordered : Text → ℕ → List MatchHit → Type 0
Ordered s lo [] = Unit
Ordered s lo (h ∷ hs) = (lo ≤ h.start) × (h.start < h.end) × (h.end ≤ length s) × Ordered s h.end hs

-- The text from `lo` on, with each hit replaced.
pub splice : Text → Text → ℕ → List MatchHit → Text
splice s r lo [] = drop lo s
splice s r lo (h ∷ hs) = slice lo h.start s ++ (r ++ splice s r h.end hs)

edit : Text → MatchHit → Text → Text
edit r h chars = take h.start chars ++ (r ++ drop h.end chars)

abbrev edits : Text → Text → List MatchHit → Text
edits s r [] = s
edits s r (h ∷ hs) = edit r h (edits s r hs)

abbrev backwards : List MatchHit → List MatchHit
backwards [] = []
backwards (h ∷ hs) = backwards hs ++ h ∷ []

-- Every start is past `lo`.
abbrev Past : ℕ → List MatchHit → Type 0
Past lo [] = Unit
Past lo (h ∷ hs) = (lo < h.start) × Past lo hs

insert_hit_last :
    (h : MatchHit) (xs : List MatchHit) → Past h.start xs → insert_hit h xs ≡ xs ++ h ∷ []
unfolding insert_hit
insert_hit_last h [] p = refl
insert_hit_last h (x ∷ xs) p = ground (arith, insert_hit_last h xs p.1)

Past-append : (lo : ℕ) (xs ys : List MatchHit) → Past lo xs → Past lo ys → Past lo (xs ++ ys)
Past-append lo [] ys p q = q
Past-append lo (x ∷ xs) ys p q = (p.0, Past-append lo xs ys p.1 q)

Past-of_Ordered :
    (s : Text) (lo end : ℕ) (hs : List MatchHit)
    → lo < end
    → Ordered s end hs
    → Past lo (backwards hs)
Past-of_Ordered s lo end [] l o = tt
Past-of_Ordered s lo end (h ∷ hs) l o =
    Past-append lo (backwards hs) (h ∷ []) (Past-of_Ordered s lo h.end hs (omega arith) o.3)
      (omega arith, tt)

sort_hits-backwards :
    (s : Text) (lo : ℕ) (hs : List MatchHit) → Ordered s lo hs → sort_hits hs ≡ backwards hs
unfolding sort_hits
sort_hits-backwards s lo [] o = refl
sort_hits-backwards s lo (h ∷ hs) o =
    ap (insert_hit h) (sort_hits-backwards s h.end hs o.3)
    ∙ insert_hit_last h (backwards hs) (Past-of_Ordered s h.start h.end hs o.1 o.3)

first_start : Text → List MatchHit → ℕ
first_start s [] = length s + 1
first_start s (h ∷ hs) = h.start

first_start_le :
    (s : Text) (lo : ℕ) (hs : List MatchHit)
    → lo ≤ length s
    → Ordered s lo hs
    → lo ≤ first_start s hs
unfolding first_start
first_start_le s lo [] l o = omega arith
first_start_le s lo (h ∷ hs) l o = o.0

replace_step_taken :
    (r chars : Text) (last : ℕ) (h : MatchHit)
    → h.end ≤ last
    → replace_step r (chars, last) h ≡ (edit r h chars, h.start)
unfolding replace_step edit
replace_step_taken r chars last h l = ground arith

loop-edits :
    (s r : Text) (lo : ℕ) (hs : List MatchHit)
    → Ordered s lo hs
    → foldl (replace_step r) (s, length s + 1) (backwards hs) ≡ (edits s r hs, first_start s hs)
unfolding first_start
loop-edits s r lo [] o = refl
loop-edits s r lo (h ∷ hs) o =
    foldl-append (replace_step r) (s, length s + 1) (backwards hs) (h ∷ [])
    ∙ (ap (λ (st : Text × ℕ). replace_step r st h) (loop-edits s r h.end hs o.3)
        ∙ replace_step_taken r (edits s r hs) (first_start s hs) h
            (first_start_le s h.end hs o.2 o.3))

take-take-append : (i e : ℕ) (s x : Text) → i ≤ e → e ≤ length s → take i (take e s ++ x) ≡ take i s
take-take-append zero e s x l f = refl
take-take-append (suc i) zero s x l f = absurd (omega arith)
take-take-append (suc i) (suc e) [] x l f = absurd (omega arith)
take-take-append (suc i) (suc e) (c ∷ s) x l f =
    ap (◌∷◌ c) (take-take-append i e s x (omega arith) (omega arith))

drop-take-append : (e : ℕ) (s x : Text) → e ≤ length s → drop e (take e s ++ x) ≡ x
drop-take-append zero s x f = refl
drop-take-append (suc e) [] x f = absurd (omega arith)
drop-take-append (suc e) (c ∷ s) x f = drop-take-append e s x (omega arith)

take_nil : (k : ℕ) → take {A = ℕ} k [] ≡ []
take_nil zero = refl
take_nil (suc k) = refl

take-append-slice :
    (lo i : ℕ) (s x : Text) → lo ≤ i → take lo s ++ (slice lo i s ++ x) ≡ take i s ++ x
take-append-slice zero i s x l = let k : i - 0 ≡ i = omega arith in ap (λ (k : ℕ). take k s ++ x) k
take-append-slice (suc lo) zero s x l = absurd (omega arith)
take-append-slice (suc lo) (suc i) [] x l = ap (λ (t : Text). t ++ x) (take_nil (suc i - suc lo))
take-append-slice (suc lo) (suc i) (c ∷ s) x l =
    let k : suc i - suc lo ≡ i - lo = omega arith in
    ap (◌∷◌ c) (
      ap (λ (k : ℕ). take lo s ++ (take k (drop lo s) ++ x)) k
      ∙ take-append-slice lo i s x (omega arith))

edits-splice :
    (s r : Text) (lo : ℕ) (hs : List MatchHit)
    → lo ≤ length s
    → Ordered s lo hs
    → edits s r hs ≡ take lo s ++ splice s r lo hs
unfolding splice edit
edits-splice s r lo [] l o = sym (take-append-drop lo s)
edits-splice s r lo (h ∷ hs) l o =
    ap (edit r h) (edits-splice s r h.end hs o.2 o.3)
    ∙ (ap₂ (λ (a b : Text). a ++ (r ++ b))
          (take-take-append h.start h.end s (splice s r h.end hs) (omega arith) o.2)
          (drop-take-append h.end s (splice s r h.end hs) o.2)
        ∙ sym (take-append-slice lo h.start s (r ++ splice s r h.end hs) o.0))

-- The replacement of ordered hits from right to left is the splice of the text around them.
pub apply_replacements-splice :
    (s r : Text) (hs : List MatchHit) → Ordered s 0 hs → apply_replacements s hs r ≡ splice s r 0 hs
unfolding apply_replacements
apply_replacements-splice s r hs o =
    ap (λ (hs' : List MatchHit). (foldl (replace_step r) (s, length s + 1) hs').0)
      (sort_hits-backwards s 0 hs o)
    ∙ (ap (λ (st : Text × ℕ). st.0) (loop-edits s r 0 hs o) ∙ edits-splice s r 0 hs (omega arith) o)
