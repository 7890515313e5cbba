-- ===== src/Ingest.antt =====
-- app/services/ingest_service.py: receipts of messages that API sources post, and the lease under
-- which a web worker queues one. `fingerprint` stands for the SHA-256 of the canonical JSON. The
-- insert of a receipt and the query before it are one step: when another worker inserts the same
-- key between them, the service reads that row again and goes on as if the query had found it.
pub mod Later
pub mod Lease
pub mod Accept
use tg_forwarder.Prelude.{
  ℕ, zero, suc, ◌+◌, ◌≡◌, refl, Bool, true, false, not, ◌&&◌, ◌||◌, Option, none, some, List, [],
  ◌∷◌, ◌++◌, arith, ◌==◌, if◌then◌else◌, leb, exists, Result, ok, err, String,
}
use tg_forwarder.Prelude.Chats.{ℤ}
use tg_forwarder.Host.{Text, same_text, codes}
use tg_forwarder.Message.{Metadata, NormalizedMessage, message_default}

pub data ReceiptStatus : Type 0 where
  pending queued : ReceiptStatus

-- app/database/models.py, `IngestReceipt`.
pub record IngestReceipt : Type 0 where
  pub id : ℕ
  pub source_id : ℕ
  pub conversation_id : Text
  pub external_message_id : Text
  pub fingerprint : Text
  pub payload : NormalizedMessage
  pub status : ReceiptStatus
  pub lease_token : Option Text
  pub lease_expires_at : Option ℕ
  pub queued_at : Option ℕ

pub record Submitted : Type 0 where
  pub conversation_id : Text
  pub message_id : Text
  pub text : Text
  pub sender : Metadata
  pub conversation_name : Metadata
  pub timestamp : Option ℕ

pub record IngestSource : Type 0 where
  pub id : ℕ
  pub chat_id : ℤ
  pub title : Option Text

pub record Inbox : Type 0 where
  pub receipts : List IngestReceipt
  pub next_id : ℕ

pub data IngestError : Type 0 where
  ingest_conflict ingest_busy ingest_unavailable lost_receipt : IngestError

-- The unique key of a receipt.
abbrev pub has_key : ℕ → Text → Text → IngestReceipt → Bool
has_key source conversation message r =
    r.source_id == source
    && (same_text r.conversation_id conversation && same_text r.external_message_id message)

unfoldable pub find_receipt : (IngestReceipt → Bool) → List IngestReceipt → Option IngestReceipt
find_receipt p [] = none
find_receipt p (r ∷ rs) = if p r then some r else find_receipt p rs

abbrev or_now : Option ℕ → ℕ → ℕ
or_now none now = now
or_now (some t) now = t

unfoldable pub new_receipt : Text → IngestSource → Submitted → ℕ → ℕ → IngestReceipt
new_receipt fingerprint source s now id = record {
  id = id;
  source_id = source.id;
  conversation_id = s.conversation_id;
  external_message_id = s.message_id;
  fingerprint = fingerprint;
  payload = record (message_default source.chat_id id) {
    source_chat_title = source.title;
    text = s.text;
    date = some (or_now s.timestamp now);
    raw_metadata =
        ("source_backend", Metadata.str (codes "api"))
        ∷ ("sender", s.sender)
        ∷ ("conversation_id", Metadata.str s.conversation_id)
        ∷ ("conversation_name", s.conversation_name)
        ∷ ("external_message_id", Metadata.str s.message_id)
        ∷ [];
  };
  status = ReceiptStatus.pending;
  lease_token = none;
  lease_expires_at = none;
  queued_at = none;
}

-- `_receipt`: the receipt of a submission and whether it is a duplicate, with the rows.
unfoldable pub receipt :
    (Submitted → Text)
    → IngestSource
    → Submitted
    → ℕ
    → Inbox
    → Result IngestError ((IngestReceipt × Bool) × Inbox)
unfolding new_receipt
receipt fingerprint source s now db =
    elim (find_receipt (has_key source.id s.conversation_id s.message_id) db.receipts) [
      | none ↦
          let r = new_receipt (fingerprint s) source s now db.next_id in
          ok ((r, false), record { receipts = db.receipts ++ r ∷ []; next_id = suc db.next_id })
      | some r ↦
          (if same_text r.fingerprint (fingerprint s)
            then ok ((r, true), db)
            else err ingest_conflict)
    ]

abbrev pub no_lease : Option ℕ → ℕ → Bool
no_lease none now = true
no_lease (some t) now = leb t now

abbrev pub is_pending : ReceiptStatus → Bool
is_pending ReceiptStatus.pending = true
is_pending ReceiptStatus.queued = false

abbrev pub holds : Text → Option Text → Bool
holds lease none = false
holds lease (some t) = same_text t lease

-- The `WHERE` clauses of the updates in `accept`.
unfoldable pub may_claim : ℕ → ℕ → IngestReceipt → Bool
may_claim id now r = r.id == id && (is_pending r.status && no_lease r.lease_expires_at now)

unfoldable pub may_finish : ℕ → Text → IngestReceipt → Bool
may_finish id lease r = r.id == id && holds lease r.lease_token

-- An `UPDATE … WHERE`.
unfoldable pub update_where :
    (IngestReceipt → Bool)
    → (IngestReceipt → IngestReceipt)
    → List IngestReceipt
    → List IngestReceipt
update_where p f [] = []
update_where p f (r ∷ rs) = (if p r then f r else r) ∷ update_where p f rs

abbrev pub lease_seconds : ℕ
lease_seconds = 30

abbrev pub leased : Text → ℕ → IngestReceipt → IngestReceipt
leased lease now r = record r {
  lease_token = some lease;
  lease_expires_at = some (now + lease_seconds);
}

abbrev pub finished : ℕ → IngestReceipt → IngestReceipt
finished now r = record r {
  status = ReceiptStatus.queued;
  queued_at = some now;
  lease_token = none;
  lease_expires_at = none;
}

abbrev pub released : IngestReceipt → IngestReceipt
released r = record r { lease_token = none; lease_expires_at = none }

-- The transactions of the web workers, in the order in which they commit.
pub data Step : Type 0 where
  submits : IngestSource → Submitted → ℕ → Step
  claims : ℕ → Text → ℕ → Step
  finishes : ℕ → Text → ℕ → Step
  releases : ℕ → Text → Step

abbrev pub inbox_or : Inbox → Result IngestError ((IngestReceipt × Bool) × Inbox) → Inbox
inbox_or db (err e) = db
inbox_or db (ok r) = r.1

unfoldable pub step : (Submitted → Text) → Step → Inbox → Inbox
unfolding receipt may_claim may_finish update_where
step fp (submits source s now) db = inbox_or db (receipt fp source s now db)
step fp (claims id lease now) db = record db {
  receipts = update_where (may_claim id now) (leased lease now) db.receipts;
}
step fp (finishes id lease now) db = record db {
  receipts = update_where (may_finish id lease) (finished now) db.receipts;
}
step fp (releases id lease) db = record db {
  receipts = update_where (may_finish id lease) released db.receipts;
}

unfoldable pub run_steps : (Submitted → Text) → List Step → Inbox → Inbox
unfolding step
run_steps fp [] db = db
run_steps fp (s ∷ ss) db = run_steps fp ss (step fp s db)

-- One call of `accept`: `others k` are the transactions of other workers before the `k`-th one of
-- this call, `clock k` is the time of that one. `enqueue` tells whether the message was queued
-- within its ten seconds.
pub record Worker : Type 0 where
  pub fingerprint : Submitted → Text
  pub lease : Text
  pub clock : ℕ → ℕ
  pub others : ℕ → List Step
  pub enqueue : NormalizedMessage → Bool

abbrev pub Accepted : Type 0
Accepted = Result IngestError (IngestReceipt × Bool) × Inbox

-- After the claim.
unfoldable pub deliver : Worker → ℕ → IngestReceipt → Bool → Inbox → Accepted
unfolding run_steps
deliver w k r duplicate db =
    let db' = run_steps w.fingerprint (w.others k) db in
    if w.enqueue r.payload
    then (
      ok (record r { status = ReceiptStatus.queued }, duplicate),
      step w.fingerprint (finishes r.id w.lease (w.clock k)) db',
    )
    else (err ingest_unavailable, step w.fingerprint (releases r.id w.lease) db')

-- One attempt, from the receipt that is read: `again` is what the later attempts come to.
unfoldable pub attempt :
    Worker → ℕ → IngestReceipt → Bool → Inbox → Accepted → Option IngestReceipt → Accepted
unfolding deliver
attempt w k r duplicate db again none = (err lost_receipt, db)
attempt w k r duplicate db again (some current) =
    let next = step w.fingerprint (claims r.id w.lease (w.clock k)) db in
    let delivered = deliver w (suc k) r duplicate next in
    if not (is_pending current.status)
    then (ok (current, duplicate), db)
    else (if may_claim r.id (w.clock k) current then delivered else again)

-- The loop of at most `n` attempts to claim the receipt.
unfoldable pub attempts : ℕ → Worker → ℕ → IngestReceipt → Bool → Inbox → Accepted
unfolding attempt
attempts zero w k r duplicate db = (err ingest_busy, db)
attempts (suc n) w k r duplicate db =
    let db' = run_steps w.fingerprint (w.others k) db in
    attempt w k r duplicate db' (attempts n w (suc k) r duplicate db')
      (find_receipt (λ (c : IngestReceipt). c.id == r.id) db'.receipts)

unfoldable pub accept : Worker → IngestSource → Submitted → Inbox → Accepted
unfolding attempts
accept w source s db = elim (receipt w.fingerprint source s (w.clock 0) db) [
  | err e ↦ (err e, db)
  | ok r ↦ attempts 21 w 1 r.0.0 r.0.1 r.1
]
