-- ===== src/Messages/Stays.antt =====
-- A rule for `process_one`: a property of the rows holds at its end, if the property outlives what
-- other tasks do, a new row, and a change of the row of the message.
use tg_forwarder.Prelude.{
  ℕ, ◌≡◌, refl, false, ◌||◌, Option, none, some, arith, ok, err, Result-cases, Option-cases,
  if-intro, inl, inr,
}
use tg_forwarder.Prelude.Chats.{ℤ}
use tg_forwarder.Host.{Text}
use tg_forwarder.Message.{NormalizedMessage, MessageStatus}
use tg_forwarder.Processed.{ProcessedMessage, new_row, try_create, same_status}
use tg_forwarder.Processed.Lookups.{try_create-found}
use tg_forwarder.Messages.{
  Raised, Surroundings, State, Refreshed, elsewhere, refresh_routing, mark_blocked,
}
use tg_forwarder.Messages.Publish.{is_paused_mode}
use tg_forwarder.Messages.Process.{
  Processed, Decision, run_processing, decide, store_decision, reviewed, create_review, carry_out,
  process_result, process_media, process_claimed, process_one, first_or_zero, file_not_found,
}
use tg_forwarder.Messages.Claim.{as_new, get_or_create, is_settled, claim_row, claim}
use tg_forwarder.Review.Service.{Outcome}
use tg_forwarder.Messages.Laws.{
  found, Holds, Mine, updated, mark_failed-Holds, blocked, publish-Holds, Law, Lasting,
}

module _ (law : Law) {e : Surroundings} (lasting : Lasting law e) where
  open law use {P, K, change, create, missing, unpublished}
  open lasting use {others, media, pipeline}

  -- The row that `get_or_create` gives is the row of the message.
  get_or_create-cases :
      (m : NormalizedMessage) (s : State)
      → Holds law lasting s
      → (r : ProcessedMessage) × (s' : State) × (get_or_create e m s ≡ (some r, s'))
        × (found m s'.db.messages ≡ some r)
        × Holds law lasting s'
        × ((same_status r.status MessageStatus.published ≡ false) → Mine law lasting m)
  unfolding get_or_create
  get_or_create-cases m s h = elim (Option-cases (found m s.db.messages)) [
    | inr (q, f) ↦ (q, s, rw (f, get_or_create) refl, f, h, λ open_. unpublished m q _ f open_ h)
    | inl f ↦
        let n = as_new m m.source_message_id MessageStatus.received (some m) in
        let (there, made) = try_create-found e.now n s.db.messages f in
        (
          new_row e.now n s.db.messages.next_id,
          record s { db = record s.db { messages = (try_create e.now n s.db.messages).1 } },
          rw (f, get_or_create) (rw made refl),
          there,
          create e.now n s.db.messages h,
          λ open_. missing m s.db.messages f h,
        )
  ]

  abbrev Claimed : Refreshed → Option ℕ × State → Type 0
  Claimed fresh got =
      Holds law lasting got.1 × ((i : ℕ) → got.0 ≡ some i → Mine law lasting fresh.message)

  claim_row-Claimed :
      (fresh : Refreshed) (r : ProcessedMessage) (s : State)
      → found fresh.message s.db.messages ≡ some r
      → Holds law lasting s
      → ((same_status r.status MessageStatus.published ≡ false) → Mine law lasting fresh.message)
      → Claimed fresh (claim_row e fresh (some r, s))
  unfolding claim_row is_settled mark_blocked
  claim_row-Claimed fresh r s there h mine =
      if-intro (Claimed fresh) (is_settled fresh.message r s.db) _ _
        (λ _. (h, λ i g. absurd (ground arith)))
        (λ open_.
          let own = mine (ground arith) in
          elim (Option-cases fresh.reason) [
            | inr (b, f) ↦
                rw f (blocked law lasting fresh.message r b fresh.message _ own there h, λ i g. own)
            | inl f ↦ rw f (updated law lasting fresh.message r _ _ _ own there h, λ i g. own)
          ])

  claim-Claimed :
      (fresh : Refreshed) (s : State) → Holds law lasting s → Claimed fresh (claim e fresh s)
  unfolding claim
  claim-Claimed fresh s h =
      let (r, s', got, there, kept, mine) =
        get_or_create-cases fresh.message (elsewhere e 0 s) (others 0 s.db h) in
      rw got (claim_row-Claimed fresh r s' there kept mine)

  store_decision-Holds :
      (m : NormalizedMessage) (d : Decision) (p : Processed) (s : State)
      → Mine law lasting m
      → Holds law lasting s
      → Holds law lasting (store_decision e m d p s).1
  unfolding store_decision
  store_decision-Holds m d p s mine h =
      let there = others 1 s.db h in
      elim (Option-cases (found m (e.meanwhile 1 s.db).messages)) [
        | inl f ↦ rw (f, store_decision) there
        | inr (row, f) ↦ rw (f, store_decision) (updated law lasting m row _ _ _ mine f there)
      ]

  reviewed-Holds :
      (s : State) (o : Outcome) → Holds law lasting s → Holds law lasting (reviewed e s o).1
  unfolding reviewed
  reviewed-Holds s (err x) h = h
  reviewed-Holds s (ok t) h = h

  create_review-Holds :
      (m : NormalizedMessage) (original : Text) (row : ProcessedMessage) (p : Processed) (s : State)
      → Holds law lasting s
      → Holds law lasting (create_review e m original row p s).1
  unfolding create_review
  create_review-Holds m original row p s h = elim (Result-cases (e.routing 1)) [
    | inl (exc, f) ↦ rw (f, create_review) h
    | inr (r, f) ↦ rw (f, create_review) (reviewed-Holds (elsewhere e 4 s) _ (others 4 s.db h))
  ]

  carry_out-Holds :
      (m : NormalizedMessage) (original : Text) (record_id : ℕ) (d : Decision) (p : Processed)
      (stored : Option ProcessedMessage × State)
      → Mine law lasting p.message
      → Holds law lasting stored.1
      → Holds law lasting (carry_out e m original record_id d p stored).1
  unfolding carry_out
  carry_out-Holds m original record_id d p (none, s) mine h = h
  carry_out-Holds m original record_id Decision.drops p (some row, s) mine h = h
  carry_out-Holds m original record_id Decision.fails p (some row, s) mine h = h
  carry_out-Holds m original record_id Decision.reviews p (some row, s) mine h =
      create_review-Holds m original row p s h
  carry_out-Holds m original record_id Decision.publishes p (some row, s) mine h =
      if-intro (λ (t : Option Raised × State). Holds law lasting t.1)
        (e.paused 1 || is_paused_mode (e.publish_mode 1)) _ _ (λ _. h)
        (λ _. publish-Holds law lasting p.message record_id s mine h)

  process_media-Holds :
      (m : NormalizedMessage) (original : Text) (target : ℤ) (record_id : ℕ) (s : State)
      → Mine law lasting m
      → Holds law lasting s
      → Holds law lasting (process_media e m original target record_id s).1
  unfolding process_media process_result
  process_media-Holds m original target record_id s mine h =
      elim (Result-cases (run_processing e m target s)) [
        | inl (exc, f) ↦ rw (f, process_media) h
        | inr (p, f) ↦
            let d = decide p.action (e.publish_mode 0) in
            rw (f, process_media)
              (carry_out-Holds m original record_id d p (store_decision e m d p s)
                (pipeline m target s p f mine) (store_decision-Holds m d p s mine h))
      ]

  process_claimed-Holds :
      (fresh : Refreshed) (got : Option ℕ × State)
      → Claimed fresh got
      → Holds law lasting (process_claimed e fresh got).1
  unfolding process_claimed
  process_claimed-Holds fresh (none, s) (h, mine) = h
  process_claimed-Holds fresh (some record_id, s) (h, mine) =
      let own = mine record_id refl in
      elim (Result-cases (e.materialize fresh.message)) [
        | inl (exc, f) ↦
            rw (f, process_claimed)
              (mark_failed-Holds law lasting 1 fresh.message exc false s own h)
        | inr (m, f) ↦
            let own' = media fresh.message m f own in
            rw (f, process_claimed)
              (if-intro (λ (t : Option Raised × State). Holds law lasting t.1) (e.media_missing m) _
                _ (λ _. mark_failed-Holds law lasting 1 m file_not_found false s own' h)
                (λ _.
                  process_media-Holds m fresh.message.text (first_or_zero fresh.targets) record_id s
                    own' h))
      ]

  pub process_one-Holds :
      (m : NormalizedMessage) (s : State)
      → Holds law lasting s
      → Holds law lasting (process_one e m s).1
  unfolding process_one
  process_one-Holds m s h = elim (Result-cases (e.routing 0)) [
    | inl (exc, f) ↦ rw (f, process_one) h
    | inr (r, f) ↦
        let fresh = refresh_routing r m in
        rw (f, process_one)
          (process_claimed-Holds fresh (claim e fresh s) (claim-Claimed fresh s h))
  ]
