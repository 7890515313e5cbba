-- ===== src/Ingest/Lease.antt =====
-- app/services/ingest_service.py: the lease under which one worker queues a receipt.
use tg_forwarder.Prelude.{
  ℕ, ◌+◌, ◌<◌, ◌≡◌, refl, Bool, true, false, some, List, [], ◌∷◌, arith, ◌==◌, All,
}
use tg_forwarder.Host.{Text, same_text}
use tg_forwarder.Ingest.{
  IngestReceipt, Submitted, Inbox, find_receipt, receipt, may_claim, may_finish, update_where,
  lease_seconds, leased, finished, released, Step, submits, claims, finishes, releases, step,
  run_steps,
}
use tg_forwarder.Ingest.Later.{find-update, find-submits}

-- A transaction of a worker that does not hold the lease, made before the lease runs out.
abbrev pub Foreign : Text → ℕ → Step → Type 0
Foreign lease end (submits source s now) = Unit {0}
Foreign lease end (claims id l now) = now < end
Foreign lease end (finishes id l now) = same_text lease l ≡ false
Foreign lease end (releases id l) = same_text lease l ≡ false

module _ (fp : Submitted → Text) (i : ℕ) (lease : Text) (end : ℕ) where
  abbrev own : IngestReceipt → Bool
  own r = r.id == i

  -- The worker holds the lease of the receipt.
  pub record Holds (db : Inbox) : Type 0 where
    pub row : IngestReceipt
    pub found : find_receipt own db.receipts ≡ some row
    pub token : row.lease_token ≡ some lease
    pub expires : row.lease_expires_at ≡ some end

  untouched :
      (q : IngestReceipt → Bool) (f : IngestReceipt → IngestReceipt) (db : Inbox) (h : Holds db)
      → ((s : IngestReceipt) → own (f s) ≡ own s)
      → q h.row ≡ false
      → Holds (record db { receipts = update_where q f db.receipts })
  untouched q f db h same no_match = record {
    row = h.row;
    found = rw no_match at (find-update own q f same db.receipts h.row h.found);
    token = h.token;
    expires = h.expires;
  }

  cannot_claim :
      (j now : ℕ) (r : IngestReceipt)
      → r.lease_expires_at ≡ some end
      → now < end
      → may_claim j now r ≡ false
  unfolding may_claim
  cannot_claim j now r e lt = ground arith

  cannot_finish :
      (j : ℕ) (l : Text) (r : IngestReceipt)
      → r.lease_token ≡ some lease
      → same_text lease l ≡ false
      → may_finish j l r ≡ false
  unfolding may_finish
  cannot_finish j l r e lt = ground arith

  step-Holds : (s : Step) (db : Inbox) → Foreign lease end s → Holds db → Holds (step fp s db)
  unfolding step receipt
  step-Holds (submits source s now) db f h = record {
    row = h.row;
    found = find-submits own fp source s now db h.row h.found;
    token = h.token;
    expires = h.expires;
  }
  step-Holds (claims j l now) db f h =
      untouched (may_claim j now) (leased l now) db h (λ s. refl)
        (cannot_claim j now h.row h.expires f)
  step-Holds (finishes j l now) db f h =
      untouched (may_finish j l) (finished now) db h (λ s. refl) (cannot_finish j l h.row h.token f)
  step-Holds (releases j l) db f h =
      untouched (may_finish j l) released db h (λ s. refl) (cannot_finish j l h.row h.token f)

  run_steps-Holds :
      (ss : List Step) (db : Inbox)
      → All (Foreign lease end) ss
      → Holds db
      → Holds (run_steps fp ss db)
  unfolding run_steps
  run_steps-Holds [] db f h = h
  run_steps-Holds (s ∷ ss) db f h = run_steps-Holds ss (step fp s db) f.1 (step-Holds s db f.0 h)

-- A claim excludes the others: until its thirty seconds are over, whatever the workers that do not
-- hold its lease do, the receipt stays under that lease and no claim of it can succeed.
pub claims-exclusive :
    (fp : Submitted → Text) (i now : ℕ) (lease : Text) (db : Inbox) (r : IngestReceipt)
    (ss : List Step)
    → find_receipt (λ (c : IngestReceipt). c.id == i) db.receipts ≡ some r
    → may_claim i now r ≡ true
    → All (Foreign lease (now + lease_seconds)) ss
    → (r' : IngestReceipt) × (find_receipt
          (λ (c : IngestReceipt). c.id == i)
          (run_steps fp ss (step fp (claims i lease now) db)).receipts
        ≡ some r')
      × (r'.lease_token ≡ some lease)
      × ((later : ℕ) → later < now + lease_seconds → may_claim i later r' ≡ false)
unfolding step
claims-exclusive fp i now lease db r ss f b others =
    let end = now + lease_seconds in
    let claimed : Holds fp i lease end (step fp (claims i lease now) db) = record {
      row = leased lease now r;
      found = rw b at (
          find-update (own fp i lease end) (may_claim i now) (leased lease now) (λ s. refl)
            db.receipts r f);
      token = refl;
      expires = refl;
    } in
    let h = run_steps-Holds fp i lease end ss (step fp (claims i lease now) db) others claimed in
    (h.row, h.found, h.token, λ later lt. cannot_claim fp i lease end i later h.row h.expires lt)
