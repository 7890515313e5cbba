-- ===== src/Messages/Settles.antt =====
-- Where `_publish` leaves the row of its message, if no other task writes rows.
use tg_forwarder.Prelude.{
  ℕ, ◌≡◌, refl, sym, ap, ◌∙◌, Bool, true, false, ◌||◌, Option, none, some, List, [], ◌∷◌, ◌==◌,
  arith, exists, ok, Result-cases, Option-cases, if-intro, inl, inr,
}
use tg_forwarder.Prelude.Chats.{ℤ}
use tg_forwarder.Message.{NormalizedMessage, MessageStatus}
use tg_forwarder.Processed.{
  ProcessedMessage, MessageDb, StatusUpdate, no_update, update_status, same_status, has_status,
}
use tg_forwarder.Processed.Rows.{update_status-KeepsKeys}
use tg_forwarder.Processed.Lookups.{get_by_source-changed}
use tg_forwarder.Channels.{Routing, all_active_endpoint_ids, get_target_routes_for}
use tg_forwarder.Messages.{
  Raised, Db, Surroundings, State, Block, rows_of, elsewhere, aim, refresh_routing, set_status,
  api_review_owned, blocked_row, mark_blocked, mark_failed, mark_routing_failed, failed_status,
}
use tg_forwarder.Messages.Publish.{
  Sends, Attempt, is_paused_mode, enqueue_apis, send_all, verdict, settle, deliver,
  start_publishing, publish_routed, publish,
}
use tg_forwarder.Messages.Process.{Processed, run_processing}
use tg_forwarder.Messages.Sends.{SameContent, send_all-Good, enqueue_apis-Good}
use tg_forwarder.Messages.Laws.{found}

-- The statuses in which nothing is under way.
abbrev pub resting : List MessageStatus
resting =
    MessageStatus.published ∷ MessageStatus.filtered ∷ MessageStatus.failed ∷ MessageStatus.retrying
    ∷ MessageStatus.pending_review ∷ MessageStatus.pending_publish ∷ []

abbrev pub SameSource : NormalizedMessage → NormalizedMessage → Type 0
SameSource m m' =
    (m'.source_chat_id ≡ m.source_chat_id) × (m'.source_message_id ≡ m.source_message_id)

-- No other task writes rows of messages, and the media service and the pipeline keep the source.
pub record Alone (e : Surroundings) : Type 0 where
  pub quiet : (k : ℕ) (db : Db) → (e.meanwhile k db).messages ≡ db.messages
  pub media : (m m' : NormalizedMessage) → e.materialize m ≡ ok m' → SameSource m m'
  pub pipeline :
      (m : NormalizedMessage) (target : ℤ) (s : State) (p : Processed)
      → run_processing e m target s ≡ ok p
      → SameSource m p.message

abbrev pub Found : NormalizedMessage → State → Type 0
Found m s = (row : ProcessedMessage) × (found m s.db.messages ≡ some row)

abbrev pub Rests : NormalizedMessage → State → Type 0
Rests m s =
    (row : ProcessedMessage) × (found m s.db.messages ≡ some row) × (has_status resting row ≡ true)

-- The row of an API message that has a review task, which `process_one` leaves to the review.
abbrev pub Owned : NormalizedMessage → State → Type 0
Owned m s =
    (row : ProcessedMessage) × (found m s.db.messages ≡ some row)
    × (api_review_owned row s.db.review ≡ true)

module _ {e : Surroundings} (alone : Alone e) where
  open alone use {quiet, media, pipeline}

  pub there :
      (k : ℕ) (m : NormalizedMessage) (s : State) (row : ProcessedMessage)
      → found m s.db.messages ≡ some row
      → found m (e.meanwhile k s.db).messages ≡ some row
  there k m s row h = ap (found m) (quiet k s.db) ∙ h

  pub same-found :
      (m m' : NormalizedMessage) (db : MessageDb) → SameSource m m' → found m' db ≡ found m db
  same-found m m' db (chat, mid) = rw (chat, mid) refl

  set_status-Rests :
      (m : NormalizedMessage) (row : ProcessedMessage) (status : MessageStatus) (u : StatusUpdate)
      (s : State)
      → found m s.db.messages ≡ some row
      → exists (same_status status) resting ≡ true
      → Rests m (set_status e row.id status u s)
  unfolding update_status
  set_status-Rests m row status u s h rests = (
    update_status e.now status u row,
    get_by_source-changed (update_status e.now status u) m.source_chat_id m.source_message_id
        (rows_of s) row (update_status-KeepsKeys e.now status u) h,
    rests,
  )

  failed-rests :
      (max count : ℕ) (retry : Bool)
      → exists (same_status (failed_status max retry count)) resting ≡ true
  unfolding failed_status
  failed-rests max count retry = ground arith

  pub mark_failed-Rests :
      (k : ℕ) (m : NormalizedMessage) (exc : Raised) (retry : Bool) (s : State)
      → Found m s
      → Rests m (mark_failed e k m exc retry s)
  unfolding mark_failed
  mark_failed-Rests k m exc retry s (row, h) =
      let h' = there k m s row h in
      rw (h', mark_failed)
        (set_status-Rests m row (failed_status e.max_retries retry row.retry_count) _
          (record (elsewhere e k s) { last_error = some exc.exception_type }) h'
          (failed-rests e.max_retries row.retry_count retry))

  mark_routing_failed-Rests :
      (k : ℕ) (b : Block) (m : NormalizedMessage) (s : State)
      → Found m s
      → Rests m (mark_routing_failed e k b m s)
  unfolding mark_routing_failed mark_blocked update_status
  mark_routing_failed-Rests k b m s (row, h) =
      let h' = there k m s row h in
      let f = blocked_row e.now b (aim [] m) in
      rw (h', mark_routing_failed)
        (
          f row,
          get_by_source-changed f m.source_chat_id m.source_message_id (rows_of (elsewhere e k s))
              row (λ r. (refl, refl, refl)) h',
          refl,
        )

  -- An attempt's message has the source of the one that is published.
  abbrev Keeps : NormalizedMessage → Attempt → Type 0
  Keeps m (Attempt.blocked b m') = SameSource m m'
  Keeps m (Attempt.raised x m') = SameSource m m'
  Keeps m (Attempt.delivered ids) = Unit

  verdict-Keeps :
      (m : NormalizedMessage) (s : Sends) (x : Option Raised)
      → SameSource m s.message
      → Keeps m (verdict (s, x))
  unfolding verdict
  verdict-Keeps m s (some exc) same = same
  verdict-Keeps m s none same =
      if-intro (Keeps m) (s.success == 0) _ _
        (λ _. elim (Option-cases s.last_exc) [ inl f ↦ rw f same | inr (exc, f) ↦ rw f same ])
        (λ _. tt)

  pub move : (m m' : NormalizedMessage) (s : State) → SameSource m m' → Rests m' s → Rests m s
  move m m' s same (row, h, rests) = (row, sym (same-found m m' s.db.messages same) ∙ h, rests)

  pub moved : (m m' : NormalizedMessage) (s : State) → SameSource m m' → Found m s → Found m' s
  moved m m' s same (row, h) = (row, same-found m m' s.db.messages same ∙ h)

  settle-Rests :
      (m : NormalizedMessage) (a : Attempt) (s : State)
      → Keeps m a
      → Found m s
      → Rests m (settle e m a s)
  unfolding settle
  settle-Rests m (Attempt.blocked b m') s same h =
      move m m' (mark_routing_failed e 3 b m' s) same
        (mark_routing_failed-Rests 3 b m' s (moved m m' s same h))
  settle-Rests m (Attempt.raised x m') s same h =
      move m m' (mark_failed e 3 m' x true s) same
        (mark_failed-Rests 3 m' x true s (moved m m' s same h))
  settle-Rests m (Attempt.delivered ids) s same (row, h) =
      let h' = there 3 m s row h in
      rw (h', settle) (set_status-Rests m row MessageStatus.published _ (elsewhere e 3 s) h' refl)

  enqueue_apis-messages :
      (m : NormalizedMessage) (record_id : ℕ) (apis : List ℕ) (s : State)
      → (enqueue_apis e m record_id apis s).1.db.messages ≡ s.db.messages
  unfolding enqueue_apis
  enqueue_apis-messages m record_id apis s = elim (Result-cases (e.routing 3)) [
    | inl (exc, f) ↦ rw (f, enqueue_apis) refl
    | inr (r, f) ↦ rw (f, enqueue_apis) refl
  ]

  deliver-Rests :
      (m : NormalizedMessage) (record_id : ℕ) (r : Routing) (s : State)
      → Found m s
      → Rests m (deliver e m record_id r s)
  unfolding deliver
  deliver-Rests m record_id r s h =
      let apis = all_active_endpoint_ids m.source_chat_id r in
      let routes = get_target_routes_for m.source_chat_id r in
      let began = enqueue_apis e m record_id apis s in
      let ended = send_all e 4 routes began.0 in
      let same : SameContent m m = (m.target_chat_ids, m.target_chat_id, refl) in
      let good = enqueue_apis-Good e m m record_id apis s same in
      let content = (send_all-Good e m 4 routes began.0 good.0).0 in
      let source : SameSource m ended.0.message = (
        ap (λ (t : NormalizedMessage). t.source_chat_id) content.2,
        ap (λ (t : NormalizedMessage). t.source_message_id) content.2,
      ) in
      settle-Rests m (verdict ended) _ (verdict-Keeps m ended.0 ended.1 source)
        (h.0, ap (found m) (enqueue_apis-messages m record_id apis s) ∙ h.1)

  start_publishing-Found :
      (m : NormalizedMessage) (s : State) (row : ProcessedMessage)
      → found m s.db.messages ≡ some row
      → same_status row.status MessageStatus.published ≡ false
      → (s' : State) × (start_publishing e m s ≡ (true, s')) × Found m s'
  unfolding start_publishing
  start_publishing-Found m s row h open_ =
      let h' = there 2 m s row h in
      let f = update_status e.now MessageStatus.publishing no_update in
      (
        set_status e row.id MessageStatus.publishing no_update (elsewhere e 2 s),
        rw (h', start_publishing) (rw open_ refl),
        (
          f row,
          get_by_source-changed f m.source_chat_id m.source_message_id (rows_of (elsewhere e 2 s))
              row (update_status-KeepsKeys e.now MessageStatus.publishing no_update) h',
        ),
      )

  publish_routed-Rests :
      (m : NormalizedMessage) (record_id : ℕ) (r : Routing) (s : State) (row : ProcessedMessage)
      → found m s.db.messages ≡ some row
      → (row.status ≡ MessageStatus.pending_publish)
      → Rests m (publish_routed e m record_id r s)
  unfolding publish_routed refresh_routing
  publish_routed-Rests m record_id r s row h pending =
      let fresh = refresh_routing r m in
      elim (Option-cases fresh.reason) [
        | inr (b, f) ↦
            rw (f, publish_routed) (mark_routing_failed-Rests 2 b fresh.message s (row, h))
        | inl f ↦
            let open_ : same_status row.status MessageStatus.published ≡ false = rw pending refl in
            let (s', started, h') = start_publishing-Found fresh.message s row h open_ in
            rw (f, publish_routed)
              (if-intro (Rests m) (e.paused 2 || is_paused_mode (e.publish_mode 2)) _ _
                (λ _. (row, h, rw pending refl))
                (λ _. rw started (deliver-Rests fresh.message record_id r s' h')))
      ]

  pub publish-Rests :
      (m : NormalizedMessage) (record_id : ℕ) (s : State) (row : ProcessedMessage)
      → found m s.db.messages ≡ some row
      → (row.status ≡ MessageStatus.pending_publish)
      → Rests m (publish e m record_id s)
  unfolding publish
  publish-Rests m record_id s row h pending = elim (Result-cases (e.routing 2)) [
    | inl (exc, f) ↦ rw (f, publish) (mark_failed-Rests 2 m exc true s (row, h))
    | inr (r, f) ↦ rw (f, publish) (publish_routed-Rests m record_id r s row h pending)
  ]
