-- ===== src/Processors/Filters.antt =====
-- app/processors/keyword_filter.py, text_replace.py and footer.py.
use tg_forwarder.Prelude.{
  ℕ, ◌≤◌, ◌<◌, ◌+◌, ◌≡◌, ◌≢◌, refl, All, Bool, true, false, not, ◌&&◌, none, some, List, [], ◌∷◌,
  ◌++◌, arith, if◌then◌else◌, length, is_empty, exists,
}
use tg_forwarder.Host.{Text, Host, same_text, strip, starts_with}
use tg_forwarder.Message.{MediaType, ProcessAction, NormalizedMessage, is_text}
use tg_forwarder.Text.{
  telegram_text_limit, telegram_caption_limit, truncate_text, contains, replace,
  length-truncate_text, truncate_text-footer,
}
use tg_forwarder.Processors.Base.{ProcessResult, cont, drop_message}

-- `KeywordFilterProcessor`.
pub record KeywordFilter : Type 0 where
  pub blocked : List Text
  pub allowed : List Text
  pub case_sensitive : Bool
  pub allow_empty_text : Bool
  pub enabled : Bool

unfoldable pub prepare : Host → KeywordFilter → Text → Text
prepare py f text = if f.case_sensitive then text else py.lower text

-- A keyword stands in the text: `needle and needle in haystack`.
unfoldable pub keyword_in : Host → KeywordFilter → Text → Text → Bool
unfolding prepare
keyword_in py f text keyword =
    not (is_empty (prepare py f keyword)) && contains (prepare py f keyword) (prepare py f text)

unfoldable pub filter_text : Host → KeywordFilter → NormalizedMessage → ProcessResult
filter_text py f message =
    if exists (keyword_in py f message.text) f.blocked
    then drop_message message "blocked_keyword"
    else (if not (is_empty f.allowed) && not (exists (keyword_in py f message.text) f.allowed)
        then drop_message message "not_in_whitelist"
        else cont message)

unfoldable pub filter_keywords : Host → KeywordFilter → NormalizedMessage → ProcessResult
unfolding filter_text
filter_keywords py f message =
    if not f.enabled
    then cont message
    else (if is_empty (strip py message.text)
        then (if f.allow_empty_text
            then cont message
            else drop_message message "empty_text_not_allowed")
        else filter_text py f message)

-- `TextReplaceProcessor`: an empty `old` is passed over.
unfoldable pub replace_all : List (Text × Text) → Text → Text
replace_all [] text = text
replace_all ((old, new) ∷ rest) text =
    replace_all rest (if is_empty old then text else replace old new text)

abbrev pub limit_of : MediaType → ℕ
limit_of t = if is_text t then telegram_text_limit else telegram_caption_limit

unfoldable pub replace_text : Host → List (Text × Text) → Bool → NormalizedMessage → ProcessResult
replace_text py replacements enabled message =
    let text = replace_all replacements message.text in
    let changed : NormalizedMessage =
      if same_text text message.text
      then message
      else record message { text = text; entities = [] } in
    if not enabled
    then cont message
    else (if is_empty replacements
        then cont message
        else cont (record changed {
          text = truncate_text py changed.text (limit_of message.media_type) [];
        }))

-- `FooterProcessor`: `self.footer` is stripped when the processor is made.
unfoldable pub add_footer : Host → Text → Bool → NormalizedMessage → ProcessResult
add_footer py configured enabled message =
    let footer = strip py configured in
    if not enabled
    then cont message
    else (if is_empty footer
        then cont message
        else cont (record message {
          text = truncate_text py (strip py message.text) (limit_of message.media_type) footer;
        }))

starts_with-split : (needle s : Text) → starts_with needle (needle ++ s) ≡ true
starts_with-split [] s = refl
starts_with-split (c ∷ cs) s = ground (arith, starts_with-split cs s)

-- A text with the needle in it passes the test.
contains-middle : (pre needle post : Text) → contains needle (pre ++ needle ++ post) ≡ true
unfolding contains
contains-middle [] [] [] = refl
contains-middle [] [] (c ∷ cs) = refl
contains-middle [] (c ∷ cs) post = ground (arith, starts_with-split (c ∷ cs) post)
contains-middle (p ∷ pre) needle post = ground (arith, contains-middle pre needle post)

none_exists :
    {A : Type 0} (p : A → Bool) (xs : List A) → exists p xs ≡ false → All (λ x. p x ≡ false) xs
none_exists p [] h = tt
none_exists p (x ∷ xs) h = (ground arith, none_exists p xs (ground arith))

module _ (py : Host) (f : KeywordFilter) (m : NormalizedMessage) where
  passed :
      f.enabled ≡ true
      → is_empty (strip py m.text) ≡ false
      → (filter_keywords py f m).action ≡ ProcessAction.continue
      → exists (keyword_in py f m.text) f.blocked ≡ false
  unfolding filter_keywords filter_text
  passed on text h = ground arith

  -- What a message that passes the filter cannot contain.
  abbrev pub Free : Text → Type 0
  Free keyword =
      (pre post : Text)
      → is_empty (prepare py f keyword) ≡ false
      → prepare py f m.text ≢ pre ++ prepare py f keyword ++ post

  free : (keyword : Text) → keyword_in py f m.text keyword ≡ false → Free keyword
  unfolding keyword_in
  free keyword h pre post some_needle e =
      let there = contains-middle pre (prepare py f keyword) post in
      let here : contains (prepare py f keyword) (prepare py f m.text) ≡ true = rw e there in
      ground arith

  -- A message with some text that passes the enabled filter contains no blocked keyword, compared
  -- in lower case unless the filter is case-sensitive.
  pub filter_keywords-Free :
      f.enabled ≡ true
      → is_empty (strip py m.text) ≡ false
      → (filter_keywords py f m).action ≡ ProcessAction.continue
      → All Free f.blocked
  filter_keywords-Free on text h =
      All-imp f.blocked (none_exists (keyword_in py f m.text) f.blocked (passed on text h))
    where
      All-imp : (ks : List Text) → All (λ k. keyword_in py f m.text k ≡ false) ks → All Free ks
      All-imp [] hs = tt
      All-imp (k ∷ ks) hs = (free k hs.0, All-imp ks hs.1)

abbrev pub text_of : ProcessResult → NormalizedMessage → Text
text_of r m = elim r.message [ none ↦ m.text | some m' ↦ m'.text ]

limit_of-positive : (t : MediaType) → 1 ≤ limit_of t
limit_of-positive t = ground arith

-- An enabled text replacement leaves a text that Telegram takes with this type of media.
pub length-replace_text :
    (py : Host) (pairs : List (Text × Text)) (m : NormalizedMessage)
    → is_empty pairs ≡ false
    → length (text_of (replace_text py pairs true m) m) ≤ limit_of m.media_type
unfolding replace_text
length-replace_text py pairs m h =
    rw h (length-truncate_text py _ (limit_of m.media_type) [] (limit_of-positive m.media_type))

-- An enabled footer that is shorter than the limit by more than its blank line ends the text, and
-- the text stays within the limit of its type of media.
pub add_footer-kept :
    (py : Host) (configured : Text) (m : NormalizedMessage)
    → is_empty (strip py configured) ≡ false
    → length (strip py configured) + 2 < limit_of m.media_type
    → (length (text_of (add_footer py configured true m) m) ≤ limit_of m.media_type)
      × ((body : Text) × (text_of (add_footer py configured true m) m
            ≡ body ++ strip py configured))
unfolding add_footer
add_footer-kept py configured m h le =
    let limit = limit_of m.media_type in
    let footer = strip py configured in
    rw h (
      length-truncate_text py (strip py m.text) limit footer (limit_of-positive m.media_type),
      truncate_text-footer py (strip py m.text) limit footer h le,
    )
