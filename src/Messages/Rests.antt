-- ===== src/Messages/Rests.antt =====
-- Where a run of `process_one` leaves the row of its message.
use tg_forwarder.Prelude.{
  ℕ, ◌≡◌, refl, sym, ap, ◌∙◌, ◌⊎◌, true, false, ◌||◌, Option, none, some, arith, exists, ok, err,
  Result-cases, Option-cases, Bool-cases, if-intro, if◌then◌else◌, inl, inr,
}
use tg_forwarder.Prelude.Chats.{ℤ}
use tg_forwarder.Host.{Text}
use tg_forwarder.Message.{NormalizedMessage, MessageStatus}
use tg_forwarder.Processed.{
  ProcessedMessage, no_update, update_status, same_status, has_status, new_row, try_create,
}
use tg_forwarder.Processed.Lookups.{get_by_source-changed, try_create-found}
use tg_forwarder.Channels.{Routing}
use tg_forwarder.Review.Service.{Outcome}
use tg_forwarder.Messages.{
  Raised, Surroundings, State, Refreshed, rows_of, elsewhere, refresh_routing, blocked_row,
  mark_blocked, mark_failed,
}
use tg_forwarder.Messages.Publish.{is_paused_mode, publish}
use tg_forwarder.Messages.Process.{
  Processed, Decision, run_processing, decide, decided, store_decision, reviewed, create_review,
  carry_out, process_result, process_media, process_claimed, process_one, first_or_zero,
  file_not_found,
}
use tg_forwarder.Messages.Claim.{as_new, get_or_create, is_settled, claim_row, claim}
use tg_forwarder.Messages.Laws.{found}
use tg_forwarder.Messages.Settles.{
  resting, SameSource, Found, Rests, Owned, there, same-found, mark_failed-Rests, move, moved,
  publish-Rests, Alone,
}

module _ {e : Surroundings} (alone : Alone e) where
  open alone use {quiet, media, pipeline}

  decided-rests :
      (d : Decision) (p : Processed) → exists (same_status (decided d p).0) resting ≡ true
  unfolding decided
  decided-rests Decision.drops p = refl
  decided-rests Decision.fails p = refl
  decided-rests Decision.reviews p = refl
  decided-rests Decision.publishes p = refl

  -- The row after the pipeline.
  abbrev Decided :
      NormalizedMessage → Decision → Processed → Option ProcessedMessage × State → Type 0
  Decided m d p stored =
      (row : ProcessedMessage) × (stored.0 ≡ some row)
      × (found m stored.1.db.messages ≡ some row)
      × (row.status ≡ (decided d p).0)

  store_decision-Decided :
      (m : NormalizedMessage) (d : Decision) (p : Processed) (s : State)
      → Found m s
      → Decided m d p (store_decision e m d p s)
  unfolding store_decision update_status
  store_decision-Decided m d p s (row, h) =
      let h' = there alone 1 m s row h in
      let f = update_status e.now (decided d p).0 (decided d p).1 in
      rw (h', store_decision)
        (
          f row,
          refl,
          get_by_source-changed f m.source_chat_id m.source_message_id (rows_of (elsewhere e 1 s))
              row (λ r. (refl, refl, refl)) h',
          refl,
        )

  reviewed-messages : (s : State) (o : Outcome) → (reviewed e s o).1.db.messages ≡ s.db.messages
  unfolding reviewed
  reviewed-messages s (err x) = refl
  reviewed-messages s (ok t) = refl

  create_review-messages :
      (m : NormalizedMessage) (original : Text) (row : ProcessedMessage) (p : Processed) (s : State)
      → (create_review e m original row p s).1.db.messages ≡ s.db.messages
  unfolding create_review
  create_review-messages m original row p s = elim (Result-cases (e.routing 1)) [
    | inl (exc, f) ↦ rw (f, create_review) refl
    | inr (r, f) ↦ rw (f, create_review) (reviewed-messages (elsewhere e 4 s) _ ∙ quiet 4 s.db)
  ]

  carry_out-Rests :
      (m : NormalizedMessage) (original : Text) (record_id : ℕ) (d : Decision) (p : Processed)
      (stored : Option ProcessedMessage × State)
      → SameSource m p.message
      → Decided m d p stored
      → Rests m (carry_out e m original record_id d p stored).1
  unfolding carry_out decided
  carry_out-Rests m original record_id d p (none, s) same (row, some_, h, status) =
      absurd (ground arith)
  carry_out-Rests m original record_id Decision.drops p (some q, s) same (row, some_, h, status) =
      (row, h, rw status refl)
  carry_out-Rests m original record_id Decision.fails p (some q, s) same (row, some_, h, status) =
      (row, h, rw status refl)
  carry_out-Rests m original record_id Decision.reviews p (some q, s) same (row, some_, h, status) =
      (row, ap (found m) (create_review-messages m original q p s) ∙ h, rw status refl)
  carry_out-Rests m original record_id Decision.publishes p (some q, s) same
        (row, some_, h, status) =
      let h' = same-found alone m p.message s.db.messages same ∙ h in
      if-intro (λ (t : Option Raised × State). Rests m t.1)
        (e.paused 1 || is_paused_mode (e.publish_mode 1)) _ _ (λ _. (row, h, rw status refl))
        (λ _.
          move alone m p.message (publish e p.message record_id s) same
            (publish-Rests alone p.message record_id s row h' status))

  -- The row of a message that is being processed.
  abbrev Underway : NormalizedMessage → State → Type 0
  Underway m s =
      (row : ProcessedMessage) × (found m s.db.messages ≡ some row)
      × (row.status ≡ MessageStatus.processing)

  -- A run of the pipeline raised: its exception leaves `process_one`, and the row says `PROCESSING`.
  abbrev pub Interrupted : NormalizedMessage → Option Raised × State → Type 0
  Interrupted m got =
      (exc : Raised) × (got.0 ≡ some exc)
      × Underway m got.1
      × (m' : NormalizedMessage) × (target : ℤ) × (s : State) × (run_processing e m' target s
          ≡ err exc)

  abbrev pub Ends : NormalizedMessage → Option Raised × State → Type 0
  Ends m got = Rests m got.1 ⊎ (Owned m got.1 ⊎ Interrupted m got)

  process_media-Ends :
      (m : NormalizedMessage) (original : Text) (target : ℤ) (record_id : ℕ) (s : State)
      → Underway m s
      → Ends m (process_media e m original target record_id s)
  unfolding process_media process_result
  process_media-Ends m original target record_id s (row, h, st) =
      elim (Result-cases (run_processing e m target s)) [
        | inl (exc, f) ↦
            rw (f, process_media) (inr (inr (exc, refl, (row, h, st), m, target, s, f)))
        | inr (p, f) ↦
            let d = decide p.action (e.publish_mode 0) in
            rw (f, process_media)
              (inl (
                carry_out-Rests m original record_id d p (store_decision e m d p s)
                  (pipeline m target s p f) (store_decision-Decided m d p s (row, h))))
      ]

  -- The same for a message of the same source.
  move-Ends :
      (m m' : NormalizedMessage) (got : Option Raised × State)
      → SameSource m m'
      → Ends m' got
      → Ends m got
  move-Ends m m' got same (inl h) = inl (move alone m m' got.1 same h)
  move-Ends m m' got same (inr (inl (row, h, owned))) =
      inr (inl (row, sym (same-found alone m m' got.1.db.messages same) ∙ h, owned))
  move-Ends m m' got same (inr (inr (exc, e0, (row, h, st), x, y, z, f))) =
      inr (
        inr
          (exc, e0, (row, sym (same-found alone m m' got.1.db.messages same) ∙ h, st), x, y, z, f))

  -- What the first transaction leaves: a message that is processed further, or one that is not.
  abbrev Claims : Refreshed → Option ℕ × State → Type 0
  Claims fresh (none, s) = Rests fresh.message s ⊎ Owned fresh.message s
  Claims fresh (some i, s) = Underway fresh.message s

  settled-Claims :
      (m : NormalizedMessage) (row : ProcessedMessage) (s : State)
      → found m s.db.messages ≡ some row
      → is_settled m row s.db ≡ true
      → Rests m s ⊎ Owned m s
  unfolding is_settled
  settled-Claims m row s h settled = elim (Bool-cases (has_status resting row)) [
    | inl b ↦ inl (row, h, b)
    | inr b ↦ inr (row, h, ground arith)
  ]

  claim_row-Claims :
      (fresh : Refreshed) (row : ProcessedMessage) (s : State)
      → found fresh.message s.db.messages ≡ some row
      → Claims fresh (claim_row e fresh (some row, s))
  unfolding claim_row mark_blocked update_status
  claim_row-Claims fresh row s h =
      let m = fresh.message in
      if-intro (Claims fresh) (is_settled m row s.db) _ _ (settled-Claims m row s h) (λ _.
        elim (Option-cases fresh.reason) [
          | inr (b, f) ↦
              let g = blocked_row e.now b m in
              rw f (
                inl (
                  g row,
                  get_by_source-changed g m.source_chat_id m.source_message_id (rows_of s) row
                      (λ r. (refl, refl, refl)) h,
                  refl,
                ))
          | inl f ↦
              let g =
                update_status e.now MessageStatus.processing
                  (record no_update { processing_result = some m }) in
              rw f (
                g row,
                get_by_source-changed g m.source_chat_id m.source_message_id (rows_of s) row
                    (λ r. (refl, refl, refl)) h,
                refl,
              )
        ])

  get_or_create-Found :
      (m : NormalizedMessage) (s : State)
      → (row : ProcessedMessage) × (s' : State) × (get_or_create e m s ≡ (some row, s'))
        × (found m s'.db.messages ≡ some row)
  unfolding get_or_create
  get_or_create-Found m s = elim (Option-cases (found m s.db.messages)) [
    | inr (q, f) ↦ (q, s, rw (f, get_or_create) refl, f)
    | inl f ↦
        let n = as_new m m.source_message_id MessageStatus.received (some m) in
        let (h, made) = try_create-found e.now n s.db.messages f in
        (
          new_row e.now n s.db.messages.next_id,
          record s { db = record s.db { messages = (try_create e.now n s.db.messages).1 } },
          rw (f, get_or_create) (rw made refl),
          h,
        )
  ]

  claim-Claims : (fresh : Refreshed) (s : State) → Claims fresh (claim e fresh s)
  unfolding claim
  claim-Claims fresh s =
      let (row, s', got, h) = get_or_create-Found fresh.message (elsewhere e 0 s) in
      rw got (claim_row-Claims fresh row s' h)

  process_claimed-Ends :
      (fresh : Refreshed) (got : Option ℕ × State)
      → Claims fresh got
      → Ends fresh.message (process_claimed e fresh got)
  unfolding process_claimed
  process_claimed-Ends fresh (none, s) (inl h) = inl h
  process_claimed-Ends fresh (none, s) (inr h) = inr (inl h)
  process_claimed-Ends fresh (some record_id, s) (row, h0, st) =
      let h : Found fresh.message s = (row, h0) in
      elim (Result-cases (e.materialize fresh.message)) [
        | inl (exc, f) ↦
            rw (f, process_claimed) (inl (mark_failed-Rests alone 1 fresh.message exc false s h))
        | inr (m, f) ↦
            let same = media fresh.message m f in
            let target = first_or_zero fresh.targets in
            let text = fresh.message.text in
            rw (f, process_claimed)
              (move-Ends fresh.message m
                (if e.media_missing m
                  then (none, mark_failed e 1 m file_not_found false s)
                  else process_media e m text target record_id s)
                same
                (if-intro (Ends m) (e.media_missing m) _ _
                  (λ _. inl (
                    mark_failed-Rests alone 1 m file_not_found false s
                      (moved alone fresh.message m s same h)))
                  (λ _.
                    process_media-Ends m text target record_id s
                      (row, same-found alone fresh.message m s.db.messages same ∙ h0, st))))
      ]

  -- Once its first read of the routing is answered, `process_one` leaves a row for its message: in a
  -- status in which nothing is under way (published, filtered, failed, retrying, waiting for a review
  -- or to be published), or the row of an API message that has a review task, or a row in
  -- `PROCESSING`, and then the pipeline raised and its exception leaves `process_one`. This holds on
  -- every path, if no other task writes rows of messages meanwhile and the media service and the
  -- pipeline keep the source of a message.
  pub process_one-Ends :
      (m : NormalizedMessage) (s : State) (r : Routing)
      → e.routing 0 ≡ ok r
      → Ends m (process_one e m s)
  unfolding process_one refresh_routing
  process_one-Ends m s r read =
      let fresh = refresh_routing r m in
      rw (read, process_one) (process_claimed-Ends fresh (claim e fresh s) (claim-Claims fresh s))
