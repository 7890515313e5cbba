-- ===== src/Messages/Delivered.antt =====
-- What a run of `process_one` hands to the publisher.
use tg_forwarder.Prelude.{
  ℕ, ◌≡◌, refl, ◌∙◌, ap, false, ◌||◌, Option, none, some, List, [], ◌∷◌, ◌++◌, arith, All, ok, err,
  Result-cases, ◌||◌, if-intro, inl, inr,
}
use tg_forwarder.Prelude.Chats.{ℤ}
use tg_forwarder.Host.{Text}
use tg_forwarder.Message.{NormalizedMessage, ProcessAction, PublishMode}
use tg_forwarder.Messages.{
  Raised, Surroundings, Sent, State, refresh_routing, mark_failed, mark_blocked,
}
use tg_forwarder.Messages.Publish.{is_paused_mode, publish}
use tg_forwarder.Processed.{ProcessedMessage}
use tg_forwarder.Review.Service.{Outcome}
use tg_forwarder.Messages.{Refreshed, elsewhere}
use tg_forwarder.Messages.Process.{
  Processed, Decision, is_review_mode, run_processing, decide, store_decision, reviewed,
  create_review, carry_out, process_result, process_media, process_claimed, process_one,
  first_or_zero, file_not_found,
}
use tg_forwarder.Messages.Claim.{get_or_create, claim_row, claim}
use tg_forwarder.Messages.Sends.{Open, publish-Adds, Adds, no_sends, mark_failed-sent}

module _ (e : Surroundings) where
  -- The pipeline let a message through, the publish mode of its source was not review and no pause
  -- was set at any look; what was sent is the result of the pipeline, but for its targets, and it
  -- was sent to a target that was bound.
  abbrev pub Allowed : Sent → Type 0
  Allowed x =
      (m : NormalizedMessage) × (target : ℤ) × (s : State) × (p : Processed) × (run_processing e m
          target s
        ≡ ok p)
      × (p.action ≡ ProcessAction.continue)
      × (is_review_mode (e.publish_mode 0) ≡ false)
      × (e.paused 1 ≡ false)
      × (is_paused_mode (e.publish_mode 1) ≡ false)
      × Open e p.message x

  claim_row-sent :
      (fresh : Refreshed) (got : Option ProcessedMessage × State)
      → (claim_row e fresh got).1.sent ≡ got.1.sent
  unfolding claim_row mark_blocked
  claim_row-sent fresh (none, s) = refl
  claim_row-sent fresh (some row, s) = ground arith

  get_or_create-sent : (m : NormalizedMessage) (s : State) → (get_or_create e m s).1.sent ≡ s.sent
  unfolding get_or_create
  get_or_create-sent m s = ground arith

  claim-sent : (fresh : Refreshed) (s : State) → (claim e fresh s).1.sent ≡ s.sent
  unfolding claim
  claim-sent fresh s =
      let got = get_or_create e fresh.message (elsewhere e 0 s) in
      claim_row-sent fresh got ∙ get_or_create-sent fresh.message (elsewhere e 0 s)

  store_decision-sent :
      (m : NormalizedMessage) (d : Decision) (p : Processed) (s : State)
      → (store_decision e m d p s).1.sent ≡ s.sent
  unfolding store_decision
  store_decision-sent m d p s = ground arith

  reviewed-sent : (s : State) (o : Outcome) → (reviewed e s o).1.sent ≡ s.sent
  unfolding reviewed
  reviewed-sent s (err x) = refl
  reviewed-sent s (ok t) = refl

  create_review-sent :
      (m : NormalizedMessage) (original : Text) (row : ProcessedMessage) (p : Processed) (s : State)
      → (create_review e m original row p s).1.sent ≡ s.sent
  unfolding create_review
  create_review-sent m original row p s = elim (Result-cases (e.routing 1)) [
    | inl (exc, f) ↦ rw (f, create_review) refl
    | inr (r, f) ↦ rw (f, create_review) (reviewed-sent (elsewhere e 4 s) _)
  ]

  decide-publishes :
      (a : ProcessAction) (mode : PublishMode)
      → decide a mode ≡ Decision.publishes
      → (a ≡ ProcessAction.continue) × (is_review_mode mode ≡ false)
  unfolding decide
  decide-publishes a mode h = ground arith

  -- Only the decision to publish sends, and what `publish` sends.
  carry_out-Adds :
      (P : Sent → Type 0) (m : NormalizedMessage) (original : Text) (record_id : ℕ) (d : Decision)
      (p : Processed) (stored : Option ProcessedMessage × State)
      → (d ≡ Decision.publishes
          → e.paused 1 || is_paused_mode (e.publish_mode 1) ≡ false
          → Adds P stored.1 (publish e p.message record_id stored.1))
      → Adds P stored.1 (carry_out e m original record_id d p stored).1
  unfolding carry_out
  carry_out-Adds P m original record_id d p (none, s) go = no_sends e P s s refl
  carry_out-Adds P m original record_id Decision.drops p (some row, s) go = no_sends e P s s refl
  carry_out-Adds P m original record_id Decision.fails p (some row, s) go = no_sends e P s s refl
  carry_out-Adds P m original record_id Decision.reviews p (some row, s) go =
      no_sends e P s (create_review e m original row p s).1 (create_review-sent m original row p s)
  carry_out-Adds P m original record_id Decision.publishes p (some row, s) go =
      if-intro (λ (t : Option Raised × State). Adds P s t.1)
        (e.paused 1 || is_paused_mode (e.publish_mode 1)) _ _ (λ _. no_sends e P s s refl)
        (λ open_. go refl open_)

  Adds-after : (P : Sent → Type 0) (s s' t : State) → s'.sent ≡ s.sent → Adds P s' t → Adds P s t
  Adds-after P s s' t kept (new, parts, all) =
      (new, parts ∙ ap (λ (l : List Sent). l ++ new) kept, all)

  All-Allowed :
      (m : NormalizedMessage) (target : ℤ) (s : State) (p : Processed) (xs : List Sent)
      → run_processing e m target s ≡ ok p
      → p.action ≡ ProcessAction.continue
      → is_review_mode (e.publish_mode 0) ≡ false
      → e.paused 1 ≡ false
      → is_paused_mode (e.publish_mode 1) ≡ false
      → All (Open e p.message) xs
      → All Allowed xs
  All-Allowed m target s p [] ran a b c d h = tt
  All-Allowed m target s p (x ∷ xs) ran a b c d h =
      ((m, target, s, p, ran, a, b, c, d, h.0), All-Allowed m target s p xs ran a b c d h.1)

  process_result-Adds :
      (m : NormalizedMessage) (original : Text) (target : ℤ) (record_id : ℕ) (p : Processed)
      (s : State)
      → run_processing e m target s ≡ ok p
      → Adds Allowed s (process_result e m original record_id p s).1
  unfolding process_result
  process_result-Adds m original target record_id p s ran =
      let d = decide p.action (e.publish_mode 0) in
      let stored = store_decision e m d p s in
      Adds-after Allowed s stored.1 (process_result e m original record_id p s).1
        (store_decision-sent m d p s)
        (carry_out-Adds Allowed m original record_id d p stored (λ chosen open_.
          let (go, mode) = decide-publishes p.action (e.publish_mode 0) chosen in
          let running : e.paused 1 ≡ false = ground arith in
          let active : is_paused_mode (e.publish_mode 1) ≡ false = ground arith in
          let (new, parts, all) = publish-Adds e p.message record_id stored.1 in
          (new, parts, All-Allowed m target s p new ran go mode running active all)))

  process_media-Adds :
      (m : NormalizedMessage) (original : Text) (target : ℤ) (record_id : ℕ) (s : State)
      → Adds Allowed s (process_media e m original target record_id s).1
  unfolding process_media
  process_media-Adds m original target record_id s =
      elim (Result-cases (run_processing e m target s)) [
        | inl (exc, f) ↦ rw (f, process_media) (no_sends e Allowed s s refl)
        | inr (p, f) ↦ rw (f, process_media) (process_result-Adds m original target record_id p s f)
      ]

  process_claimed-Adds :
      (fresh : Refreshed) (claimed : Option ℕ × State)
      → Adds Allowed claimed.1 (process_claimed e fresh claimed).1
  unfolding process_claimed
  process_claimed-Adds fresh (none, s) = no_sends e Allowed s s refl
  process_claimed-Adds fresh (some record_id, s) =
      elim (Result-cases (e.materialize fresh.message)) [
        | inl (exc, f) ↦
            rw (f, process_claimed)
              (no_sends e Allowed s (mark_failed e 1 fresh.message exc false s)
                (mark_failed-sent e 1 fresh.message exc false s))
        | inr (m, f) ↦
            rw (f, process_claimed)
              (if-intro (λ (t : Option Raised × State). Adds Allowed s t.1) (e.media_missing m) _ _
                (λ _.
                  no_sends e Allowed s (mark_failed e 1 m file_not_found false s)
                    (mark_failed-sent e 1 m file_not_found false s))
                (λ _.
                  process_media-Adds m fresh.message.text (first_or_zero fresh.targets) record_id
                    s))
      ]

  -- Whatever the surroundings do, each message that `process_one` hands to the publisher is the
  -- result of a run of the pipeline that ended with `CONTINUE`, but for its targets; the publish
  -- mode of the source was not review when this was decided, neither the global pause nor the mode
  -- paused was set at the two looks before the sends, and the read of the routing right before the
  -- send found the source enabled and the target among its routes.
  pub process_one-Adds : (m : NormalizedMessage) (s : State) → Adds Allowed s (process_one e m s).1
  unfolding process_one
  process_one-Adds m s = elim (Result-cases (e.routing 0)) [
    | inl (exc, f) ↦ rw (f, process_one) (no_sends e Allowed s s refl)
    | inr (r, f) ↦
        let fresh = refresh_routing r m in
        rw (f, process_one)
          (Adds-after Allowed s (claim e fresh s).1 (process_claimed e fresh (claim e fresh s)).1
            (claim-sent fresh s) (process_claimed-Adds fresh (claim e fresh s)))
  ]
