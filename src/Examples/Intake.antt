-- ===== src/Examples/Intake.antt =====
-- Tests and cases for the intake of messages: receipts, processors, limits and deliveries.
use tg_forwarder.Prelude.{
  ℕ, ◌≤◌, ◌<◌, ◌≡◌, refl, true, false, none, some, [], ◌∷◌, List, ok, err, All, arith, ◌==◌, length,
  if◌then◌else◌,
}
use tg_forwarder.Host.{Text, codes, same_text}
use tg_forwarder.Message.{ProcessAction, Metadata, MediaType}
use tg_forwarder.Text.{truncate_text, contains, replace}
use tg_forwarder.Processors.Base.{ProcessingContext, MessageProcessor, drop_message}
use tg_forwarder.Processors.Filters.{
  keyword_in, KeywordFilter, filter_keywords, Free, filter_keywords-Free,
}
use tg_forwarder.Processors.Pipeline.{run_pipeline, Gave, run_pipeline-Ran}
use tg_forwarder.RateLimit.{SlidingWindowRateLimiter, requests, in_window, requests-bound}
use tg_forwarder.Channels.{active_endpoint_ids, Routing}
use tg_forwarder.Deliveries.{ApiDelivery, Queue, Parcel, PublicPayload, enqueue, after, pull_pages}
use tg_forwarder.Deliveries.Pages.{pull_pages-all}
use tg_forwarder.Ingest.{
  IngestReceipt, Submitted, IngestSource, Inbox, ingest_conflict, find_receipt, new_receipt,
  receipt, may_claim, Step, claims, finishes, releases, step, run_steps,
}
use tg_forwarder.Ingest.Later.{Later, receipt-again}
use tg_forwarder.Ingest.Accept.{accept-Left}
use tg_forwarder.Ingest.{Worker, accept, is_pending, no_lease, ingest_unavailable}
use tg_forwarder.Prelude.{Bool, ◌+◌}
use tg_forwarder.Ingest.Lease.{claims-exclusive}
use tg_forwarder.Examples.Data.{py, chat, message}

cuts : truncate_text py (codes "hello world") 7 [] ≡ codes "hello…"
unfolding truncate_text
cuts = refl

signs : truncate_text py (codes "hello world") 9 (codes "-x") ≡ codes "hell…\n\n-x"
unfolding truncate_text
signs = refl

replaces_all : replace (codes "aa") (codes "b") (codes "aaaca") ≡ codes "baca"
unfolding replace
replaces_all = refl

abbrev filter : KeywordFilter
filter = record {
  blocked = codes "Spam" ∷ [];
  allowed = [];
  case_sensitive = false;
  allow_empty_text = true;
  enabled = true;
}

passes : (filter_keywords py filter message).action ≡ ProcessAction.continue
unfolding filter_keywords keyword_in contains
passes = refl

filter_keywords-Free_example : All (Free py filter message) filter.blocked
filter_keywords-Free_example = filter_keywords-Free py filter message refl refl passes

abbrev processing : ProcessingContext
processing = record {
  target_chat_id = chat;
  source_username = none;
  paused = false;
  content_hash = none;
}

abbrev keywords : MessageProcessor
keywords = record { name = "keyword_filter"; process = λ m c. ok (filter_keywords py filter m, c) }

abbrev drops : MessageProcessor
drops = record { name = "drops"; process = λ m c. ok (drop_message m "test", c) }

abbrev steps : List MessageProcessor
steps = keywords ∷ drops ∷ keywords ∷ []

run_pipeline-Ran_example : Gave steps (run_pipeline steps message processing)
run_pipeline-Ran_example = run_pipeline-Ran steps message processing

abbrev limiter : SlidingWindowRateLimiter
limiter = record { limit = 2; window_seconds = 10; hits = λ k. [] }

limits : (requests (codes "ip") (1 ∷ 2 ∷ 3 ∷ 13 ∷ []) ([], limiter)).0 ≡ 1 ∷ 2 ∷ 13 ∷ []
unfolding requests
limits = refl

requests-bound_example :
    length (in_window 10 13 (requests (codes "ip") (1 ∷ 2 ∷ 3 ∷ 13 ∷ []) ([], limiter)).0) ≤ 2
requests-bound_example =
    requests-bound (codes "ip") (1 ∷ 2 ∷ 3 ∷ 13 ∷ []) 13 limiter refl
      (omega arith, (omega arith, (omega arith, (omega arith, omega arith))))

abbrev payload : PublicPayload
payload = record {
  source_chat_id = chat;
  source_message_id = 7;
  source_chat_username = none;
  grouped_id = none;
  text = codes "abc";
  media_type = MediaType.text;
  media_items = [];
  processed_at = 5;
}

abbrev delivery : ℕ → ApiDelivery
delivery id = record {
  id = id;
  api_endpoint_id = 4;
  processed_message_id = id;
  review_task_id = none;
  payload = payload;
}

abbrev rows : List ApiDelivery
rows = delivery 1 ∷ delivery 2 ∷ delivery 5 ∷ []

pull_pages-all_example : pull_pages 3 4 0 1 rows ≡ after 4 0 rows
pull_pages-all_example =
    pull_pages-all 4 1 rows (omega arith, (omega arith, (omega arith, tt))) 3 0 (omega arith)
      (omega arith)

abbrev routing : Routing
routing = record {
  now = 100;
  sources = record { id = 1; chat_id = chat; enabled = true } ∷ [];
  links = [];
  endpoints = record { id = 4; enabled = true; expires_at = none } ∷ [];
  api_links = record { source_id = 1; api_endpoint_id = 4 } ∷ [];
}

abbrev parcel : Parcel
parcel = record { processed_message_id = 9; review_task_id = none; payload = payload }

abbrev queue : Queue
queue = record { rows = rows; next_id = 6 }

enqueues : (enqueue routing chat (4 ∷ []) parcel queue).0 ≡ 4 ∷ []
unfolding enqueue active_endpoint_ids
enqueues = refl

abbrev fp : Submitted → Text
fp s = s.text

abbrev source : IngestSource
source = record { id = 1; chat_id = chat; title = none }

abbrev submitted : Submitted
submitted = record {
  conversation_id = codes "c";
  message_id = codes "m";
  text = codes "hello";
  sender = Metadata.null;
  conversation_name = Metadata.null;
  timestamp = none;
}

abbrev inbox : Inbox
inbox = record { receipts = []; next_id = 1 }

abbrev first_receipt : IngestReceipt
first_receipt = new_receipt (codes "hello") source submitted 10 1

abbrev inbox_one : Inbox
inbox_one = record { receipts = first_receipt ∷ []; next_id = 2 }

submits_first : receipt fp source submitted 10 inbox ≡ ok ((first_receipt, false), inbox_one)
unfolding receipt find_receipt
submits_first = refl

abbrev others : List Step
others = claims 1 (codes "w") 11 ∷ finishes 1 (codes "w") 12 ∷ []

-- The same key with another text.
receipt-again_example :
    (r' : IngestReceipt) × Later first_receipt r'
    × (receipt fp source
          (record submitted { text = codes "other" })
          20
          (run_steps fp others inbox_one)
        ≡ (if same_text (codes "hello") (codes "other")
            then ok ((r', true), run_steps fp others inbox_one)
            else err ingest_conflict))
receipt-again_example =
    receipt-again fp source submitted (record submitted { text = codes "other" }) 10 20 inbox
      inbox_one first_receipt false others submits_first refl refl

finds_first :
    find_receipt (λ (c : IngestReceipt). c.id == 1) inbox_one.receipts ≡ some first_receipt
unfolding find_receipt new_receipt
finds_first = refl

may_first : may_claim 1 11 first_receipt ≡ true
unfolding may_claim new_receipt
may_first = refl

abbrev rivals : List Step
rivals = claims 1 (codes "v") 20 ∷ releases 1 (codes "v") ∷ []

claims-exclusive_example :
    (r' : IngestReceipt) × (find_receipt
        (λ (c : IngestReceipt). c.id == 1)
        (run_steps fp rivals (step fp (claims 1 (codes "w") 11) inbox_one)).receipts
      ≡ some r')
    × (r'.lease_token ≡ some (codes "w"))
    × ((later : ℕ) → later < 41 → may_claim 1 later r' ≡ false)
claims-exclusive_example =
    claims-exclusive fp 1 11 (codes "w") inbox_one first_receipt rivals finds_first may_first
      (omega arith, (refl, tt))

abbrev worker : Bool → Worker
worker taken = record {
  fingerprint = fp;
  lease = codes "w";
  clock = λ k. 10 + k;
  others = λ k. [];
  enqueue = λ m. taken;
}

finds_own :
    find_receipt (λ (c : IngestReceipt). c.id == first_receipt.id) inbox_one.receipts
    ≡ some first_receipt
unfolding find_receipt new_receipt
finds_own = refl

is_fresh : is_pending first_receipt.status ≡ true
unfolding new_receipt
is_fresh = refl

no_one : no_lease first_receipt.lease_expires_at 11 ≡ true
unfolding new_receipt
no_one = refl

-- The queue refuses the message.
accept-Left_example :
    (row : IngestReceipt) × (find_receipt
        (λ (c : IngestReceipt). c.id == first_receipt.id)
        (accept (worker false) source submitted inbox).1.receipts
      ≡ some row)
    × ((accept (worker false) source submitted inbox).0 ≡ err ingest_unavailable)
    × (is_pending row.status ≡ true)
    × (row.lease_token ≡ none)
    × (row.lease_expires_at ≡ none)
accept-Left_example =
    accept-Left (worker false) source submitted inbox inbox_one first_receipt false (λ k. refl)
      submits_first finds_own is_fresh no_one
