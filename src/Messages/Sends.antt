-- ===== src/Messages/Sends.antt =====
-- What `_publish` hands to the publisher.
use tg_forwarder.Prelude.{
  ℕ, suc, ◌≡◌, refl, sym, ◌∙◌, ap, Bool, true, false, not, ◌||◌, Option, List, [], ◌∷◌, ◌++◌, arith,
  All, All-append, ok, Result-cases, Option-cases, ◌||◌, if-intro, is_empty, inl, inr, ++_nil,
}
use tg_forwarder.Prelude.Chats.{ℤ}
use tg_forwarder.Message.{NormalizedMessage, TargetRoute}
use tg_forwarder.Channels.{
  Routing, is_configured, is_enabled, get_target_routes_for, get_targets_for,
  all_active_endpoint_ids,
}
use tg_forwarder.Publish.Send.{is_bound}
use tg_forwarder.Messages.{
  Raised, Surroundings, Sent, State, Block, routing_block_reason, refresh_routing, mark_failed,
  mark_routing_failed, mark_blocked,
}
use tg_forwarder.Messages.Publish.{
  Sends, Attempt, is_disabled, is_paused_mode, send_one, send_turn, go_on, send_all, verdict,
  enqueue_apis, settle, deliver, start_publishing, publish_routed, publish,
}

-- The same message but for its targets.
abbrev pub SameContent : NormalizedMessage → NormalizedMessage → Type 0
SameContent m m' =
    (targets : List ℤ) × (chat : Option ℤ) × (m'
      ≡ record m { target_chat_ids = targets; target_chat_id = chat })

-- The sends of `s'` are those of `s` and new ones that satisfy the predicate.
abbrev pub Adds : (Sent → Type 0) → State → State → Type 0
Adds P s s' = (new : List Sent) × (s'.sent ≡ s.sent ++ new) × All P new

module _ (e : Surroundings) where
  -- A send of the message `m`, to targets of now: the read before it found the source enabled and
  -- the target among its routes.
  abbrev pub Bound : NormalizedMessage → Sent → Type 0
  Bound m x =
      (r : Routing) × (e.routing x.read ≡ ok r)
      × (is_enabled m.source_chat_id r ≡ true)
      × (is_bound x.route (get_target_routes_for m.source_chat_id r) ≡ true)
      × SameContent m x.message

  pub no_sends : (P : Sent → Type 0) (s s' : State) → s'.sent ≡ s.sent → Adds P s s'
  no_sends P s s' h = ([], h ∙ sym (++_nil s.sent), tt)

  -- A source with a route is known, and one that is known and not blocked is enabled.
  pub enabled :
      (chat : ℤ) (targets : List ℤ) (api : Bool) (route : TargetRoute) (r : Routing)
      → is_disabled (routing_block_reason chat targets api r) ≡ false
      → is_bound route (get_target_routes_for chat r) ≡ true
      → is_enabled chat r ≡ true
  unfolding routing_block_reason is_configured is_enabled get_target_routes_for
  enabled chat targets api route r d b = ground arith

  module _ (m : NormalizedMessage) where
    abbrev pub Good : Sends → Type 0
    Good s = SameContent m s.message × All (Bound m) s.sent

    pub aimed :
        (r : Routing) (m' : NormalizedMessage)
        → SameContent m m'
        → SameContent m (refresh_routing r m').message
    unfolding refresh_routing
    aimed r m' (targets, chat, same) = rw same (_, _, refl)

    send_one-Good :
        (k : ℕ) (route : TargetRoute) (s : Sends) (r : Routing)
        → e.routing k ≡ ok r
        → is_enabled m.source_chat_id r ≡ true
        → is_bound route (get_target_routes_for m.source_chat_id r) ≡ true
        → Good s
        → Good (send_one e k route s)
    unfolding send_one
    send_one-Good k route s r read on bound (same, h) =
        let x : Sent = record { read = k; route = route; message = s.message } in
        let more = All-append (Bound m) s.sent (x ∷ []) h ((r, read, on, bound, same), tt) in
        elim (Result-cases (e.publish_target k s.message route)) [
          | inl (exc, f) ↦ rw (f, send_one) (same, more)
          | inr (ids, f) ↦ rw (f, send_one) (same, more)
        ]

    send_turn-Good :
        (k : ℕ) (r : Routing) (route : TargetRoute) (s : Sends)
        → e.routing k ≡ ok r
        → Good s
        → Good (send_turn e k r route s).1
    unfolding send_turn refresh_routing
    send_turn-Good k r route s read (content, h) =
        let chat : s.message.source_chat_id ≡ m.source_chat_id =
          ap (λ (t : NormalizedMessage). t.source_chat_id) content.2 in
        let fresh = aimed r s.message content in
        let api = not (is_empty (all_active_endpoint_ids s.message.source_chat_id r)) in
        let reason =
          routing_block_reason s.message.source_chat_id (get_targets_for s.message.source_chat_id r)
            api r in
        if-intro (λ (t : Bool × Sends). Good t.1) (is_disabled reason) _ _ (λ _. (fresh, h))
          (λ open_.
            if-intro (λ (t : Bool × Sends). Good t.1)
              (is_bound route (get_target_routes_for s.message.source_chat_id r)) _ _
              (λ bound.
                send_one-Good k route _ r read
                  (rw (sym chat) (enabled s.message.source_chat_id _ api route r open_ bound))
                  (rw (sym chat) bound) (fresh, h))
              (λ _. (fresh, h)))

    go_on-Good :
        (rest : Sends → Sends × Option Raised) (turn : Bool × Sends)
        → ((s : Sends) → Good s → Good (rest s).0)
        → Good turn.1
        → Good (go_on rest turn).0
    go_on-Good rest (true, s) next g = next s g
    go_on-Good rest (false, s) next g = g

    pub send_all-Good :
        (k : ℕ) (routes : List TargetRoute) (s : Sends) → Good s → Good (send_all e k routes s).0
    unfolding send_all
    send_all-Good k [] s g = g
    send_all-Good k (route ∷ routes) s g = elim (Result-cases (e.routing k)) [
      | inl (exc, f) ↦ rw (f, send_all) g
      | inr (r, f) ↦
          rw (f, send_all)
            (go_on-Good (send_all e (suc k) routes) (send_turn e k r route s)
              (send_all-Good (suc k) routes) (send_turn-Good k r route s f g))
    ]

  pub mark_failed-sent :
      (k : ℕ) (m : NormalizedMessage) (exc : Raised) (retry : Bool) (s : State)
      → (mark_failed e k m exc retry s).sent ≡ s.sent
  unfolding mark_failed
  mark_failed-sent k m exc retry s = ground arith

  mark_routing_failed-sent :
      (k : ℕ) (b : Block) (m : NormalizedMessage) (s : State)
      → (mark_routing_failed e k b m s).sent ≡ s.sent
  unfolding mark_routing_failed mark_blocked
  mark_routing_failed-sent k b m s = ground arith

  settle-sent : (m : NormalizedMessage) (a : Attempt) (s : State) → (settle e m a s).sent ≡ s.sent
  unfolding settle
  settle-sent m (Attempt.blocked b now_at) s = mark_routing_failed-sent 3 b now_at s
  settle-sent m (Attempt.raised exc now_at) s = mark_failed-sent 3 now_at exc true s
  settle-sent m (Attempt.delivered ids) s = ground arith

  start_publishing-sent :
      (m : NormalizedMessage) (s : State) → (start_publishing e m s).1.sent ≡ s.sent
  unfolding start_publishing
  start_publishing-sent m s = ground arith

  module _ (m : NormalizedMessage) where
    pub enqueue_apis-Good :
        (m' : NormalizedMessage) (record_id : ℕ) (apis : List ℕ) (s : State)
        → SameContent m m'
        → Good m (enqueue_apis e m' record_id apis s).0
          × ((enqueue_apis e m' record_id apis s).1.sent ≡ s.sent)
    unfolding enqueue_apis
    enqueue_apis-Good m' record_id apis s same = elim (Result-cases (e.routing 3)) [
      | inl (exc, f) ↦ rw (f, enqueue_apis) ((same, tt), refl)
      | inr (r, f) ↦ rw (f, enqueue_apis) ((same, tt), refl)
    ]

    deliver-Adds :
        (m' : NormalizedMessage) (record_id : ℕ) (r : Routing) (s : State)
        → SameContent m m'
        → Adds (Bound m) s (deliver e m' record_id r s)
    unfolding deliver
    deliver-Adds m' record_id r s same =
        let apis = all_active_endpoint_ids m'.source_chat_id r in
        let routes = get_target_routes_for m'.source_chat_id r in
        let (good, kept) = enqueue_apis-Good m' record_id apis s same in
        let began = enqueue_apis e m' record_id apis s in
        let ended = send_all e 4 routes began.0 in
        (
          ended.0.sent,
          settle-sent m' (verdict ended) _ ∙ ap (λ (l : List Sent). l ++ ended.0.sent) kept,
          (send_all-Good m 4 routes began.0 good).1,
        )

    -- What has to hold for `_publish` to send anything.
    abbrev pub Open : Sent → Type 0
    Open x = Bound m x × (e.paused 2 ≡ false) × (is_paused_mode (e.publish_mode 2) ≡ false)

    All-Open :
        (xs : List Sent)
        → e.paused 2 ≡ false
        → is_paused_mode (e.publish_mode 2) ≡ false
        → All (Bound m) xs
        → All Open xs
    All-Open [] p q h = tt
    All-Open (x ∷ xs) p q h = ((h.0, p, q), All-Open xs p q h.1)

    pub publish_routed-Adds :
        (record_id : ℕ) (r : Routing) (s : State) → Adds Open s (publish_routed e m record_id r s)
    unfolding publish_routed
    publish_routed-Adds record_id r s =
        let fresh = refresh_routing r m in
        elim (Option-cases fresh.reason) [
          | inr (b, f) ↦
              rw (f, publish_routed)
                (no_sends Open s (mark_routing_failed e 2 b fresh.message s)
                  (mark_routing_failed-sent 2 b fresh.message s))
          | inl f ↦
              rw (f, publish_routed)
                (if-intro (Adds Open s) (e.paused 2 || is_paused_mode (e.publish_mode 2)) _ _
                  (λ _. no_sends Open s s refl)
                  (λ open_.
                    let began = start_publishing e fresh.message s in
                    let kept = start_publishing-sent fresh.message s in
                    if-intro (Adds Open s) began.0 _ _
                      (λ _.
                        let paused : e.paused 2 ≡ false = ground arith in
                        let mode : is_paused_mode (e.publish_mode 2) ≡ false = ground arith in
                        let (new, parts, all) =
                          deliver-Adds fresh.message record_id r began.1
                            (aimed m r m (m.target_chat_ids, m.target_chat_id, refl)) in
                        (
                          new,
                          parts ∙ ap (λ (l : List Sent). l ++ new) kept,
                          All-Open new paused mode all,
                        ))
                      (λ _. no_sends Open s began.1 kept)))
        ]

    pub publish-Adds : (record_id : ℕ) (s : State) → Adds Open s (publish e m record_id s)
    unfolding publish
    publish-Adds record_id s = elim (Result-cases (e.routing 2)) [
      | inl (exc, f) ↦
          rw (f, publish)
            (no_sends Open s (mark_failed e 2 m exc true s) (mark_failed-sent 2 m exc true s))
      | inr (r, f) ↦ rw (f, publish) (publish_routed-Adds record_id r s)
    ]
