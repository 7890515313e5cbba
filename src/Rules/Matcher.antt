-- ===== src/Rules/Matcher.antt =====
-- app/rules/matcher.py: validation, the matchers and the replacement of hits.
pub mod Find
pub mod Loop
pub mod Bounds
pub mod Replace
use mathlib.Core.List.{foldl}
use tg_forwarder.Prelude.{
  ℕ, zero, suc, ◌+◌, ◌-◌, max, Bool, true, false, not, ◌&&◌, ◌||◌, Option, none, some, List, [],
  ◌∷◌, ◌++◌, ltb, leb, ◌==◌, if◌then◌else◌, length, take, drop, is_empty, exists, Result, ok, err,
  ◌>>=◌, ◌>>◌, guard,
}
use tg_forwarder.Host.{
  Text, codes, Host, MatchHit, RegexOutcome, found, timed_out, broken, same_text, strip,
  starts_with, ends_with,
}
use tg_forwarder.Rules.Types.{
  RuleType, MatchType, RuleDefinition, RuleValidationError, name_required, bad_has_media,
  pattern_required, pattern_too_long, invalid_regex,
}

abbrev pub max_pattern_len : ℕ
max_pattern_len = 500

pub data MediaMode : Type 0 where
  has without : MediaMode
  other : Text → MediaMode

-- `pattern or "has"`.
abbrev or_has : Text → Text
or_has [] = codes "has"
or_has (c ∷ cs) = c ∷ cs

abbrev among : Text → List Text → Bool
among raw words = exists (same_text raw) words

has_words : List Text
has_words = [] ∷ codes "has" ∷ codes "true" ∷ codes "any" ∷ codes "yes" ∷ codes "1" ∷ []

none_words : List Text
none_words =
    codes "none" ∷ codes "false" ∷ codes "no" ∷ codes "0" ∷ codes "empty" ∷ codes "text" ∷ []

unfoldable pub normalize_has_media_pattern : Host → Text → MediaMode
unfolding has_words none_words
normalize_has_media_pattern py pattern =
    let raw = py.lower (strip py (or_has pattern)) in
    if among raw has_words then has else if among raw none_words then without else other raw

abbrev pub is_has_media : RuleType → Bool
is_has_media RuleType.has_media = true
is_has_media _ = false

abbrev is_regex_type : RuleType → Bool
is_regex_type RuleType.regex = true
is_regex_type _ = false

abbrev is_regex_match : MatchType → Bool
is_regex_match MatchType.regex = true
is_regex_match _ = false

abbrev pub uses_regex : RuleDefinition → Bool
uses_regex rule = rule.use_regex || is_regex_match rule.match_type || is_regex_type rule.rule_type

abbrev media_mode_ok : MediaMode → Bool
media_mode_ok (other _) = false
media_mode_ok _ = true

validate_pattern : Host → RuleDefinition → Result RuleValidationError (Unit {0})
validate_pattern py rule = do
  guard (not (is_empty rule.pattern)) pattern_required
  guard (leb (length rule.pattern) max_pattern_len) pattern_too_long
  if uses_regex rule then guard (py.compiles rule.pattern) invalid_regex else ok tt

unfoldable pub validate_rule : Host → RuleDefinition → Result RuleValidationError (Unit {0})
unfolding validate_pattern
validate_rule py rule =
    guard (not (is_empty (strip py rule.name))) name_required
    >> (if is_has_media rule.rule_type
        then guard (media_mode_ok (normalize_has_media_pattern py rule.pattern)) bad_has_media
        else validate_pattern py rule)

-- `media_type` is the value of a `MediaType`; `None` is the empty text.
unfoldable pub message_has_media : Text → ℕ → Bool
message_has_media media_type media_count =
    if ltb 0 media_count
    then true
    else if is_empty media_type
    then false
    else not (same_text media_type (codes "text") || same_text media_type (codes "unsupported"))

abbrev wants_media : MediaMode → Bool
wants_media has = true
wants_media _ = false

unfoldable pub find_has_media_matches :
    Host → RuleDefinition → Text → ℕ → Result RuleValidationError (List MatchHit)
find_has_media_matches py rule media_type media_count = do
  validate_rule py rule
  let present = message_has_media media_type media_count
  let wanted = wants_media (normalize_has_media_pattern py rule.pattern)
  let label = if present then codes "has_media" else codes "no_media"
  let hit : MatchHit = record { start = 0; end = 0; matched_text = label }
  ok (if (if wanted then present else not present) then hit ∷ [] else [])

-- `text[start:end]`.
abbrev pub slice : ℕ → ℕ → Text → Text
slice start end s = take (end - start) (drop start s)

-- `text[i].isalnum() or text[i] == "_"`, for the first character of `s`.
abbrev word_at : Host → Text → Bool
word_at py [] = false
word_at py (c ∷ cs) = py.is_alnum c || c == b'_'

unfoldable pub whole_word_bounds : Host → Text → ℕ → ℕ → Bool
whole_word_bounds py s start end =
    (start == 0 || not (word_at py (drop (start - 1) s)))
    && (leb (length s) end || not (word_at py (drop end s)))

abbrev whole_word_ok : Host → RuleDefinition → Text → ℕ → ℕ → Bool
whole_word_ok py rule s start end = not rule.whole_word || whole_word_bounds py s start end

abbrev hit_at : Text → ℕ → ℕ → MatchHit
hit_at s start end = record { start = start; end = end; matched_text = slice start end s }

-- `haystack.find(needle, start)`.
unfoldable pub scan : Text → Text → ℕ → Option ℕ
scan needle [] i = if is_empty needle then some i else none
scan needle (c ∷ cs) i =
    let rest = scan needle cs (suc i) in if starts_with needle (c ∷ cs) then some i else rest

unfoldable pub find : Text → Text → ℕ → Option ℕ
unfolding scan
find haystack needle start =
    if ltb (length haystack) start then none else scan needle (drop start haystack) start

abbrev add_hit : (ℕ → ℕ → Bool) → Text → ℕ → ℕ → Option (List MatchHit) → Option (List MatchHit)
add_hit test s idx end none = none
add_hit test s idx end (some hits) = some (if test idx end then hit_at s idx end ∷ hits else hits)

-- The `while True` loop for `contains`; `none` means that the fuel ran out. `test` is the check of
-- `rule.whole_word`.
unfoldable pub contains_loop : (ℕ → ℕ → Bool) → Text → Text → Text → ℕ → ℕ → Option (List MatchHit)
contains_loop test s haystack needle zero start_at = none
contains_loop test s haystack needle (suc fuel) start_at = elim (find haystack needle start_at) [
  | none ↦ some []
  | some idx ↦
      add_hit test s idx (idx + length needle)
        (contains_loop test s haystack needle fuel (idx + max 1 (length needle)))
]

abbrev pub or_empty : Option (List MatchHit) → List MatchHit
or_empty none = []
or_empty (some hits) = hits

-- The loop starts past the end after at most `len(haystack) + 1` rounds.
abbrev pub loop_fuel : Text → ℕ
loop_fuel haystack = length haystack + 2

abbrev regex_hits : RegexOutcome → List MatchHit
regex_hits (found hits) = hits
regex_hits timed_out = []
regex_hits broken = []

abbrev one_if : Bool → MatchHit → List MatchHit
one_if b hit = if b then hit ∷ [] else []

-- The branches on `rule.match_type`; `haystack` and `needle` are folded to lower case unless the
-- rule is case sensitive.
unfoldable pub literal_hits : Host → RuleDefinition → MatchType → Text → Text → Text → List MatchHit
literal_hits py rule MatchType.equals s haystack needle =
    one_if (same_text haystack needle && whole_word_ok py rule s 0 (length s))
      (record { start = 0; end = length s; matched_text = s })
literal_hits py rule MatchType.starts_with s haystack needle =
    let end = length rule.pattern in
    one_if (starts_with needle haystack && whole_word_ok py rule s 0 end) (hit_at s 0 end)
literal_hits py rule MatchType.ends_with s haystack needle =
    let start = length s - length rule.pattern in
    one_if (ends_with needle haystack && whole_word_ok py rule s start (length s))
      (record { start = start; end = length s; matched_text = drop start s })
literal_hits py rule _ s haystack needle =
    or_empty (contains_loop (whole_word_ok py rule s) s haystack needle (loop_fuel haystack) 0)

unfoldable pub find_matches :
    Host → Text → RuleDefinition → Result RuleValidationError (List MatchHit)
find_matches py s rule = do
  validate_rule py rule
  let haystack = if rule.case_sensitive then s else py.lower s
  let needle = if rule.case_sensitive then rule.pattern else py.lower rule.pattern
  let by_regex = regex_hits (py.finditer rule.pattern (not rule.case_sensitive) s)
  let by_text = literal_hits py rule rule.match_type s haystack needle
  ok (if is_empty s then [] else if uses_regex rule then by_regex else by_text)

-- `sorted(hits, key=lambda h: h.start, reverse=True)`, which keeps the order of equal keys.
unfoldable pub insert_hit : MatchHit → List MatchHit → List MatchHit
insert_hit h [] = h ∷ []
insert_hit h (x ∷ xs) =
    let rest = insert_hit h xs in if leb x.start h.start then h ∷ x ∷ xs else x ∷ rest

unfoldable pub sort_hits : List MatchHit → List MatchHit
unfolding insert_hit
sort_hits [] = []
sort_hits (h ∷ hs) = insert_hit h (sort_hits hs)

-- The loop's variables are `chars` and `last_start`.
unfoldable pub replace_step : Text → Text × ℕ → MatchHit → Text × ℕ
replace_step replacement (chars, last_start) hit =
    if ltb last_start hit.end
    then (chars, last_start)
    else (take hit.start chars ++ (replacement ++ drop hit.end chars), hit.start)

unfoldable pub apply_replacements : Text → List MatchHit → Text → Text
unfolding replace_step sort_hits
apply_replacements s hits replacement =
    (foldl (replace_step replacement) (s, length s + 1) (sort_hits hits)).0
