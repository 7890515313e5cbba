-- ===== src/Ingest/Accept.antt =====
-- app/services/ingest_service.py, `accept`: what a call leaves that meets no other worker.
use mathlib.Core.Path.{subst}
use tg_forwarder.Prelude.{
  ℕ, suc, ◌≡◌, refl, sym, ◌∙◌, ap, Bool, true, not, none, some, [], arith, ◌==◌, ==-refl,
  if◌then◌else◌, ok, err, Bool-cases, inl, inr,
}
use tg_forwarder.Host.{same_text_refl}
use tg_forwarder.Ingest.{
  ReceiptStatus, IngestReceipt, Submitted, IngestSource, Inbox, ingest_unavailable, find_receipt,
  receipt, no_lease, is_pending, may_claim, may_finish, leased, finished, released, claims, step,
  run_steps, Worker, Accepted, deliver, attempt, attempts, accept,
}
use tg_forwarder.Ingest.Later.{find-update}

abbrev with_id : ℕ → IngestReceipt → Bool
with_id i r = r.id == i

module _ (w : Worker) (alone : (k : ℕ) → w.others k ≡ []) where
  no_steps : (k : ℕ) (db : Inbox) → run_steps w.fingerprint (w.others k) db ≡ db
  unfolding run_steps
  no_steps k db = rw (alone k) refl

  -- What a delivery leaves.
  abbrev pub Left : IngestReceipt → Bool → Accepted → Type 0
  Left r d a =
      (row : IngestReceipt) × (find_receipt (with_id r.id) a.1.receipts ≡ some row)
      × (a.0 ≡ (
          if w.enqueue r.payload
          then ok (record r { status = ReceiptStatus.queued }, d)
          else err ingest_unavailable))
      × (is_pending row.status ≡ not (w.enqueue r.payload))
      × (row.lease_token ≡ none)
      × (row.lease_expires_at ≡ none)

  deliver-Left :
      (k : ℕ) (r row : IngestReceipt) (d : Bool) (db : Inbox)
      → find_receipt (with_id r.id) db.receipts ≡ some row
      → may_finish r.id w.lease row ≡ true
      → is_pending row.status ≡ true
      → Left r d (deliver w k r d db)
  unfolding deliver step
  deliver-Left k r row d db f own pending = elim (Bool-cases (w.enqueue r.payload)) [
    | inl e ↦
        rw (e, no_steps k db)
          (
            finished (w.clock k) row,
            rw own at (
                find-update (with_id r.id) (may_finish r.id w.lease) (finished (w.clock k))
                  (λ s. refl) db.receipts row f),
            refl,
            refl,
            refl,
            refl,
          )
    | inr e ↦
        rw (e, no_steps k db)
          (
            released row,
            rw own at (
                find-update (with_id r.id) (may_finish r.id w.lease) released (λ s. refl)
                  db.receipts row f),
            refl,
            pending,
            refl,
            refl,
          )
  ]

  free :
      (r : IngestReceipt) (now : ℕ)
      → is_pending r.status ≡ true
      → no_lease r.lease_expires_at now ≡ true
      → may_claim r.id now r ≡ true
  unfolding may_claim
  free r now p l = rw (==-refl r.id, p, l) refl

  claimed_attempt :
      (k : ℕ) (r : IngestReceipt) (d : Bool) (db : Inbox) (again : Accepted)
      → is_pending r.status ≡ true
      → may_claim r.id (w.clock k) r ≡ true
      → attempt w k r d db again (some r)
        ≡ deliver w (suc k) r d (step w.fingerprint (claims r.id w.lease (w.clock k)) db)
  unfolding attempt
  claimed_attempt k r d db again p c = ground arith

  first_attempt :
      (n k : ℕ) (r : IngestReceipt) (d : Bool) (db : Inbox)
      → find_receipt (with_id r.id) db.receipts ≡ some r
      → is_pending r.status ≡ true
      → may_claim r.id (w.clock k) r ≡ true
      → attempts (suc n) w k r d db
        ≡ deliver w (suc k) r d (step w.fingerprint (claims r.id w.lease (w.clock k)) db)
  unfolding attempts
  first_attempt n k r d db f p c =
      ap
        (λ (x : Inbox).
          attempt w k r d x (attempts n w (suc k) r d x) (find_receipt (with_id r.id) x.receipts))
        (no_steps k db)
      ∙ (ap (attempt w k r d db (attempts n w (suc k) r d db)) f
          ∙ claimed_attempt k r d db (attempts n w (suc k) r d db) p c)

  attempts-Left :
      (n k : ℕ) (r : IngestReceipt) (d : Bool) (db : Inbox)
      → find_receipt (with_id r.id) db.receipts ≡ some r
      → is_pending r.status ≡ true
      → no_lease r.lease_expires_at (w.clock k) ≡ true
      → Left r d (attempts (suc n) w k r d db)
  unfolding step may_finish
  attempts-Left n k r d db f p l =
      let now = w.clock k in
      let c = free r now p l in
      let next = step w.fingerprint (claims r.id w.lease now) db in
      let found : find_receipt (with_id r.id) next.receipts ≡ some (leased w.lease now r) =
        rw c at (
          find-update (with_id r.id) (may_claim r.id now) (leased w.lease now) (λ s. refl)
            db.receipts r f) in
      let own : may_finish r.id w.lease (leased w.lease now r) ≡ true =
        rw (==-refl r.id, same_text_refl w.lease) refl in
      subst (Left r d) (sym (first_attempt n k r d db f p c))
        (deliver-Left (suc k) r (leased w.lease now r) d next found own p)

accept_first :
    (w : Worker) (source : IngestSource) (s : Submitted) (db db' : Inbox) (r : IngestReceipt)
    (d : Bool)
    → receipt w.fingerprint source s (w.clock 0) db ≡ ok ((r, d), db')
    → accept w source s db ≡ attempts 21 w 1 r d db'
unfolding accept
accept_first w source s db db' r d h = ground arith

-- A call of `accept` that finds its receipt pending and free, and meets no other worker, ends as
-- the queue answers: when the queue takes the message, the call returns the receipt as queued and
-- the row is queued; when it does not, the call fails as unavailable and the row is pending. Either
-- way the row has no lease token and no time of a lease.
pub accept-Left :
    (w : Worker) (source : IngestSource) (s : Submitted) (db db' : Inbox) (r : IngestReceipt)
    (d : Bool)
    → ((k : ℕ) → w.others k ≡ [])
    → receipt w.fingerprint source s (w.clock 0) db ≡ ok ((r, d), db')
    → find_receipt (λ (c : IngestReceipt). c.id == r.id) db'.receipts ≡ some r
    → is_pending r.status ≡ true
    → no_lease r.lease_expires_at (w.clock 1) ≡ true
    → (row : IngestReceipt) × (find_receipt
          (λ (c : IngestReceipt). c.id == r.id)
          (accept w source s db).1.receipts
        ≡ some row)
      × ((accept w source s db).0 ≡ (
          if w.enqueue r.payload
          then ok (record r { status = ReceiptStatus.queued }, d)
          else err ingest_unavailable))
      × (is_pending row.status ≡ not (w.enqueue r.payload))
      × (row.lease_token ≡ none)
      × (row.lease_expires_at ≡ none)
accept-Left w source s db db' r d alone h f p l =
    subst (Left w alone r d) (sym (accept_first w source s db db' r d h))
      (attempts-Left w alone 20 1 r d db' f p l)
