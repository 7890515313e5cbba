-- ===== src/Ingest/Later.antt =====
-- app/services/ingest_service.py: what no transaction of a web worker changes in a receipt.
use tg_forwarder.Prelude.{
  ℕ, ◌≡◌, refl, ◌∙◌, ap, Bool, true, false, none, some, List, [], ◌∷◌, ◌++◌, arith, if◌then◌else◌,
  ++_nil, ok, err, Bool-cases, Option-cases, inl, inr,
}
use tg_forwarder.Host.{Text, same_text, same_text_refl, same_text→eq}
use tg_forwarder.Ingest.{
  IngestReceipt, Submitted, IngestSource, Inbox, ingest_conflict, has_key, find_receipt,
  new_receipt, receipt, is_pending, may_claim, may_finish, update_where, leased, finished, released,
  Step, submits, claims, finishes, releases, step, run_steps,
}

-- The same receipt, later.
pub record Later (r r' : IngestReceipt) : Type 0 where
  pub id : r'.id ≡ r.id
  pub fingerprint : r'.fingerprint ≡ r.fingerprint
  pub payload : r'.payload ≡ r.payload
  pub queued : is_pending r.status ≡ false → is_pending r'.status ≡ false

Later-refl : (r : IngestReceipt) → Later r r
Later-refl r = record { id = refl; fingerprint = refl; payload = refl; queued = λ h. h }

Later-trans : (a b c : IngestReceipt) → Later a b → Later b c → Later a c
Later-trans a b c f g = record {
  id = g.id ∙ f.id;
  fingerprint = g.fingerprint ∙ f.fingerprint;
  payload = g.payload ∙ f.payload;
  queued = λ h. g.queued (f.queued h);
}

module _ (p q : IngestReceipt → Bool) (f : IngestReceipt → IngestReceipt) where
  pub find-update :
      ((r : IngestReceipt) → p (f r) ≡ p r)
      → (rs : List IngestReceipt) (r : IngestReceipt) → find_receipt p rs ≡ some r
      → find_receipt p (update_where q f rs) ≡ some (if q r then f r else r)
  unfolding find_receipt update_where
  find-update same [] r h = absurd (ground arith)
  find-update same (s ∷ rs) r h = ground (arith, same s, find-update same rs r)

pub find-append :
    (p : IngestReceipt → Bool) (rs more : List IngestReceipt) (r : IngestReceipt)
    → find_receipt p rs ≡ some r
    → find_receipt p (rs ++ more) ≡ some r
unfolding find_receipt
find-append p [] more r h = absurd (ground arith)
find-append p (s ∷ rs) more r h = ground (arith, find-append p rs more r)

find-new :
    (p : IngestReceipt → Bool) (rs : List IngestReceipt) (r : IngestReceipt)
    → find_receipt p rs ≡ none
    → p r ≡ true
    → find_receipt p (rs ++ r ∷ []) ≡ some r
unfolding find_receipt
find-new p [] r h e = ground arith
find-new p (s ∷ rs) r h e = ground (arith, find-new p rs r)

-- A submission appends to the rows at most.
pub submits-appends :
    (fp : Submitted → Text) (source : IngestSource) (s : Submitted) (now : ℕ) (db : Inbox)
    → (more : List IngestReceipt) × ((step fp (submits source s now) db).receipts
        ≡ db.receipts ++ more)
unfolding step receipt
submits-appends fp source s now db =
    elim (Option-cases
      (find_receipt (has_key source.id s.conversation_id s.message_id) db.receipts)) [
        | inl e ↦ (new_receipt (fp s) source s now db.next_id ∷ [], ground arith)
        | inr (t, e) ↦ ([], ground (arith, ++_nil db.receipts))
      ]

pub find-submits :
    (p : IngestReceipt → Bool) (fp : Submitted → Text) (source : IngestSource) (s : Submitted)
    (now : ℕ) (db : Inbox) (r : IngestReceipt)
    → find_receipt p db.receipts ≡ some r
    → find_receipt p (step fp (submits source s now) db).receipts ≡ some r
find-submits p fp source s now db r h =
    let (more, rows) = submits-appends fp source s now db in
    ap (find_receipt p) rows ∙ find-append p db.receipts more r h

module _ (fp : Submitted → Text) (source : ℕ) (conversation message : Text) where
  abbrev key : IngestReceipt → Bool
  key = has_key source conversation message

  -- The receipt that has the key in `db`, later.
  abbrev pub Kept : IngestReceipt → Inbox → Type 0
  Kept r db = (r' : IngestReceipt) × (find_receipt key db.receipts ≡ some r') × Later r r'

  updated-Kept :
      (q : IngestReceipt → Bool) (f : IngestReceipt → IngestReceipt) (db : Inbox)
      (r : IngestReceipt)
      → ((s : IngestReceipt) → key (f s) ≡ key s)
      → ((s : IngestReceipt) → Later s (f s))
      → find_receipt key db.receipts ≡ some r
      → Kept r (record db { receipts = update_where q f db.receipts })
  updated-Kept q f db r same later h =
      (if q r then f r else r, find-update key q f same db.receipts r h, branch (q r))
    where
      branch : (b : Bool) → Later r (if b then f r else r)
      branch true = later r
      branch false = Later-refl r

  step-Kept :
      (s : Step) (db : Inbox) (r : IngestReceipt)
      → find_receipt key db.receipts ≡ some r
      → Kept r (step fp s db)
  unfolding step receipt
  step-Kept (submits source' s now) db r h =
      (r, find-submits key fp source' s now db r h, Later-refl r)
  step-Kept (claims i lease now) db r h =
      updated-Kept (may_claim i now) (leased lease now) db r (λ s. refl)
        (λ s. record { id = refl; fingerprint = refl; payload = refl; queued = λ e. e }) h
  step-Kept (finishes i lease now) db r h =
      updated-Kept (may_finish i lease) (finished now) db r (λ s. refl)
        (λ s. record { id = refl; fingerprint = refl; payload = refl; queued = λ e. refl }) h
  step-Kept (releases i lease) db r h =
      updated-Kept (may_finish i lease) released db r (λ s. refl)
        (λ s. record { id = refl; fingerprint = refl; payload = refl; queued = λ e. e }) h

  run_steps-Kept :
      (ss : List Step) (db : Inbox) (r : IngestReceipt)
      → find_receipt key db.receipts ≡ some r
      → Kept r (run_steps fp ss db)
  unfolding run_steps
  run_steps-Kept [] db r h = (r, h, Later-refl r)
  run_steps-Kept (s ∷ ss) db r h =
      let (r', h', f) = step-Kept s db r h in
      let (r'', h'', g) = run_steps-Kept ss (step fp s db) r' h' in
      (r'', h'', Later-trans r r' r'' f g)

-- After a submission, its receipt is found by its key.
receipt-found :
    (fp : Submitted → Text) (source : IngestSource) (s : Submitted) (now : ℕ) (db db' : Inbox)
    (r : IngestReceipt) (d : Bool)
    → receipt fp source s now db ≡ ok ((r, d), db')
    → (find_receipt (has_key source.id s.conversation_id s.message_id) db'.receipts ≡ some r)
      × (r.fingerprint ≡ fp s)
unfolding receipt new_receipt
receipt-found fp source s now db db' r d h =
    elim (Option-cases
      (find_receipt (has_key source.id s.conversation_id s.message_id) db.receipts)) [
        | inl e ↦
            let new = new_receipt (fp s) source s now db.next_id in
            let same : r ≡ new = ground arith in
            let rows : db'.receipts ≡ db.receipts ++ new ∷ [] = ground arith in
            let own : has_key source.id s.conversation_id s.message_id new ≡ true =
              ground (arith, same_text_refl s.conversation_id, same_text_refl s.message_id) in
            rw (rows, same)
              (
                find-new (has_key source.id s.conversation_id s.message_id) db.receipts new e own,
                refl,
              )
        | inr (t, e) ↦ elim (Bool-cases (same_text t.fingerprint (fp s))) [
          | inl b ↦
              let same : r ≡ t = ground arith in
              let rows : db' ≡ db = ground arith in
              rw (rows, same) (e, same_text→eq t.fingerprint (fp s) b)
          | inr b ↦ absurd (ground arith)
        ]
      ]

receipt-at :
    (fp : Submitted → Text) (source : IngestSource) (s : Submitted) (now : ℕ) (db : Inbox)
    (r : IngestReceipt)
    → find_receipt (has_key source.id s.conversation_id s.message_id) db.receipts ≡ some r
    → receipt fp source s now db
      ≡ (if same_text r.fingerprint (fp s) then ok ((r, true), db) else err ingest_conflict)
unfolding receipt
receipt-at fp source s now db r h = ground arith

-- Whatever the workers do after a submission, a second one with the same key gets the same receipt
-- with the same payload, as a duplicate and without a change of the rows, if its content has the
-- same fingerprint, and a conflict if not. A receipt that was queued stays queued.
pub receipt-again :
    (fp : Submitted → Text) (source : IngestSource) (s s' : Submitted) (now now' : ℕ)
    (db db' : Inbox) (r : IngestReceipt) (d : Bool) (ss : List Step)
    → receipt fp source s now db ≡ ok ((r, d), db')
    → s'.conversation_id ≡ s.conversation_id
    → s'.message_id ≡ s.message_id
    → (r' : IngestReceipt) × Later r r'
      × (receipt fp source s' now' (run_steps fp ss db') ≡ (
          if same_text (fp s) (fp s')
          then ok ((r', true), run_steps fp ss db')
          else err ingest_conflict))
unfolding receipt
receipt-again fp source s s' now now' db db' r d ss h c m =
    let (found, print) = receipt-found fp source s now db db' r d h in
    let (r', found', later) =
      run_steps-Kept fp source.id s.conversation_id s.message_id ss db' r found in
    let print' : r'.fingerprint ≡ fp s = later.fingerprint ∙ print in
    (r', later, again r' found' print')
  where
    again :
        (r' : IngestReceipt)
        → find_receipt
            (has_key source.id s.conversation_id s.message_id)
            (run_steps fp ss db').receipts
          ≡ some r'
        → r'.fingerprint ≡ fp s
        → receipt fp source s' now' (run_steps fp ss db') ≡ (
            if same_text (fp s) (fp s')
            then ok ((r', true), run_steps fp ss db')
            else err ingest_conflict)
    again r' f print =
        let rows = (run_steps fp ss db').receipts in
        let same_key : find_receipt (has_key source.id s'.conversation_id s'.message_id) rows
            ≡ find_receipt (has_key source.id s.conversation_id s.message_id) rows =
          ap (λ (x : Text). find_receipt (has_key source.id x s'.message_id) rows) c
          ∙ ap (λ (x : Text). find_receipt (has_key source.id s.conversation_id x) rows) m in
        receipt-at fp source s' now' (run_steps fp ss db') r' (same_key ∙ f)
        ∙ ap
            (λ (x : Text).
              if same_text x (fp s')
              then ok ((r', true), run_steps fp ss db')
              else err ingest_conflict)
            print
