-- ===== src/Text.antt =====
-- app/utils/text.py, `truncate_text`, and the limits of Telegram; with what the processors use of
-- `str`: the test `needle in haystack` and `str.replace`.
use tg_forwarder.Prelude.{
  ℕ, zero, suc, ◌+◌, ◌-◌, ◌≤◌, ◌<◌, ◌≡◌, refl, Bool, false, ◌||◌, [], ◌∷◌, ◌++◌, arith, leb,
  if◌then◌else◌, length, take, is_empty, length-append, length-take, Bool-cases, inl, inr,
}
use tg_forwarder.Host.{Text, Host, codes, rstrip, starts_with}

abbrev pub telegram_text_limit : ℕ
telegram_text_limit = 4096

abbrev pub telegram_caption_limit : ℕ
telegram_caption_limit = 1024

abbrev ellipsis : Text
ellipsis = codes "…"

abbrev blank_line : Text
blank_line = codes "\n\n"

-- The body of a text that is too long for its limit.
unfoldable pub clip : Host → Text → ℕ → Text
clip py text limit = rstrip py (take (limit - 1) text) ++ ellipsis

-- A text within a limit, as it is or clipped.
unfoldable pub fit : Host → Text → ℕ → Text
unfolding clip
fit py text limit = if leb (length text) limit then text else clip py text limit

abbrev separator_for : Text → Text
separator_for [] = []
separator_for (c ∷ cs) = blank_line

-- `f"{body}{separator}{footer}"`, or the footer alone when there is no body.
abbrev joined : Text → Text → Text → Text
joined [] separator footer = footer
joined (c ∷ cs) separator footer = ((c ∷ cs) ++ separator) ++ footer

unfoldable pub with_footer : Host → Text → ℕ → Text → Text
unfolding fit
with_footer py text limit footer =
    let separator = separator_for text in
    let reserved = length separator + length footer in
    if leb limit reserved
    then take limit footer
    else joined (fit py text (limit - reserved)) separator footer

unfoldable pub truncate_text : Host → Text → ℕ → Text → Text
unfolding fit with_footer
truncate_text py text limit footer =
    if is_empty footer then fit py text limit else with_footer py text limit footer

-- `needle in haystack`.
unfoldable pub contains : Text → Text → Bool
contains needle [] = is_empty needle
contains needle (c ∷ cs) = starts_with needle (c ∷ cs) || contains needle cs

-- `text.replace(old, new)` for a non-empty `old`: `skip` code points of a match are still to pass.
unfoldable pub replace_from : Text → Text → ℕ → Text → Text
replace_from old new skip [] = []
replace_from old new (suc skip) (c ∷ cs) = replace_from old new skip cs
replace_from old new zero (c ∷ cs) =
    let after = replace_from old new (length old - 1) cs in
    let past = replace_from old new zero cs in
    if starts_with old (c ∷ cs) then new ++ after else c ∷ past

unfoldable pub replace : Text → Text → Text → Text
unfolding replace_from
replace old new text = replace_from old new 0 text

length-rstrip : (py : Host) (s : Text) → length (rstrip py s) ≤ length s
length-rstrip py [] = omega arith
length-rstrip py (c ∷ cs) = ground (arith, length-rstrip py cs)

length-clip : (py : Host) (s : Text) (n : ℕ) → 1 ≤ n → length (clip py s n) ≤ n
unfolding clip
length-clip py s n h = omega (
  arith,
  length-append (rstrip py (take (n - 1) s)) ellipsis,
  length-rstrip py (take (n - 1) s),
  length-take (n - 1) s,
)

length-fit : (py : Host) (s : Text) (n : ℕ) → 1 ≤ n → length (fit py s n) ≤ n
unfolding fit
length-fit py s n h = ground (arith, length-clip py s n h)

length-joined :
    (body separator footer : Text) (n : ℕ)
    → length body + (length separator + length footer) ≤ n
    → length (joined body separator footer) ≤ n
length-joined [] separator footer n h = omega arith
length-joined (c ∷ cs) separator footer n h =
    omega (arith, length-append ((c ∷ cs) ++ separator) footer, length-append (c ∷ cs) separator)

length-with_footer :
    (py : Host) (s : Text) (n : ℕ) (footer : Text) → length (with_footer py s n footer) ≤ n
unfolding with_footer
length-with_footer py s n footer =
    let r = length (separator_for s) + length footer in
    elim (Bool-cases (leb n r)) [
      | inl e ↦ rw e (omega (arith, length-take n footer))
      | inr e ↦
          let room : 1 ≤ n - r = ground arith in
          rw e (
            length-joined (fit py s (n - r)) (separator_for s) footer n
              (omega (arith, length-fit py s (n - r) room)))
    ]

-- A truncated text, its footer included, is never longer than a limit of at least one.
pub length-truncate_text :
    (py : Host) (s : Text) (n : ℕ) (footer : Text)
    → 1 ≤ n
    → length (truncate_text py s n footer) ≤ n
unfolding truncate_text
length-truncate_text py s n footer h =
    ground (arith, length-fit py s n h, length-with_footer py s n footer)

abbrev EndsWith : Text → Text → Type 0
EndsWith footer s = (body : Text) × (s ≡ body ++ footer)

joined-EndsWith : (body separator footer : Text) → EndsWith footer (joined body separator footer)
joined-EndsWith [] separator footer = ([], refl)
joined-EndsWith (c ∷ cs) separator footer = ((c ∷ cs) ++ separator, refl)

-- A footer that fits below the limit with its blank line is kept whole, at the end of the text.
pub truncate_text-footer :
    (py : Host) (s : Text) (n : ℕ) (footer : Text)
    → is_empty footer ≡ false
    → length footer + 2 < n
    → (body : Text) × (truncate_text py s n footer ≡ body ++ footer)
unfolding truncate_text with_footer
truncate_text-footer py s n footer some_footer h =
    let r = length (separator_for s) + length footer in
    let sep : length (separator_for s) ≤ 2 = separator-short s in
    let fits : leb n r ≡ false = ground arith in
    rw (some_footer, fits) (joined-EndsWith (fit py s (n - r)) (separator_for s) footer)
  where
    separator-short : (t : Text) → length (separator_for t) ≤ 2
    separator-short [] = omega arith
    separator-short (c ∷ cs) = omega arith

-- Without a footer, a text within the limit is not touched.
pub truncate_text-id : (py : Host) (s : Text) (n : ℕ) → length s ≤ n → truncate_text py s n [] ≡ s
unfolding truncate_text fit
truncate_text-id py s n h = ground arith
