-- ===== src/Messages/Publish.antt =====
-- app/services/message_service.py, `_publish`.
use tg_forwarder.Prelude.{
  ℕ, suc, Bool, true, false, ◌||◌, Option, none, some, List, [], ◌∷◌, ◌++◌, ◌==◌, length,
  if◌then◌else◌, ok, err,
}
use tg_forwarder.Message.{MessageStatus, NormalizedMessage, TargetRoute, PublishMode}
use tg_forwarder.Processed.{no_update, get_by_source, same_status}
use tg_forwarder.Channels.{Routing, get_target_routes_for, all_active_endpoint_ids}
use tg_forwarder.Deliveries.{enqueue, public_payload}
use tg_forwarder.Publish.Send.{is_bound}
use tg_forwarder.Messages.{
  Raised, Surroundings, Sent, State, rows_of, elsewhere, Block, source_disabled, no_enabled_target,
  refresh_routing, set_status, mark_failed, mark_routing_failed,
}

-- The variables of the loop over the routes; `success` starts with the deliveries to endpoints.
pub record Sends : Type 0 where
  pub message : NormalizedMessage
  pub ids : List ℕ
  pub success : ℕ
  pub last_exc : Option Raised
  pub routing_failure : Option Block
  pub sent : List Sent

abbrev pub is_disabled : Option Block → Bool
is_disabled (some source_disabled) = true
is_disabled _ = false

abbrev pub is_paused_mode : PublishMode → Bool
is_paused_mode PublishMode.paused = true
is_paused_mode _ = false

abbrev as_sent : ℕ → TargetRoute → Sends → Sent
as_sent k route s = record { read = k; route = route; message = s.message }

-- `_publish_target`.
unfoldable pub send_one : Surroundings → ℕ → TargetRoute → Sends → Sends
send_one e k route s = elim (e.publish_target k s.message route) [
  | ok ids ↦ record s {
    ids = s.ids ++ ids;
    success = suc s.success;
    sent = s.sent ++ as_sent k route s ∷ [];
  }
  | err exc ↦ record s { last_exc = some exc; sent = s.sent ++ as_sent k route s ∷ [] }
]

-- One turn of the loop, after a read: whether the loop goes on, and the new sends.
unfoldable pub send_turn : Surroundings → ℕ → Routing → TargetRoute → Sends → Bool × Sends
unfolding send_one
send_turn e k r route s =
    let fresh = refresh_routing r s.message in
    let s' = record s { message = fresh.message } in
    if is_disabled fresh.reason
    then (false, record s' { routing_failure = some source_disabled })
    else (if is_bound route (get_target_routes_for s.message.source_chat_id r)
        then (true, send_one e k route s')
        else (true, record s' { routing_failure = some no_enabled_target }))

abbrev pub go_on : (Sends → Sends × Option Raised) → Bool × Sends → Sends × Option Raised
go_on rest (true, s) = rest s
go_on rest (false, s) = (s, none)

-- The loop, from the `k`-th read of the routing; a read that raises ends it.
unfoldable pub send_all : Surroundings → ℕ → List TargetRoute → Sends → Sends × Option Raised
unfolding send_turn
send_all e k [] s = (s, none)
send_all e k (route ∷ routes) s = elim (e.routing k) [
  | err exc ↦ (s, some exc)
  | ok r ↦ go_on (send_all e (suc k) routes) (send_turn e k r route s)
]

-- How the `try` block of `_publish` ends.
pub data Attempt : Type 0 where
  blocked : Block → NormalizedMessage → Attempt
  raised : Raised → NormalizedMessage → Attempt
  delivered : List ℕ → Attempt

abbrev or_no_target : Option Block → Block
or_no_target none = no_enabled_target
or_no_target (some b) = b

unfoldable pub verdict : Sends × Option Raised → Attempt
verdict (s, some exc) = raised exc s.message
verdict (s, none) =
    if s.success == 0
    then elim s.last_exc [
      | some exc ↦ raised exc s.message
      | none ↦ blocked (or_no_target s.routing_failure) s.message
    ]
    else delivered s.ids

-- The deliveries to API endpoints, at the third read; an exception of it is kept as `last_exc`.
unfoldable pub enqueue_apis : Surroundings → NormalizedMessage → ℕ → List ℕ → State → Sends × State
enqueue_apis e m record_id apis s = elim (e.routing 3) [
  | err exc ↦ (
    record {
      message = m;
      ids = [];
      success = 0;
      last_exc = some exc;
      routing_failure = none;
      sent = [];
    },
    s,
  )
  | ok r ↦
      let (queued, queue) =
        enqueue r m.source_chat_id apis
          (record {
            processed_message_id = record_id;
            review_task_id = none;
            payload = public_payload e.now m;
          })
          s.db.deliveries in
      (
        record {
          message = m;
          ids = [];
          success = length queued;
          last_exc = none;
          routing_failure = none;
          sent = [];
        },
        record s { db = record s.db { deliveries = queue } },
      )
]

-- After the `try` block.
unfoldable pub settle : Surroundings → NormalizedMessage → Attempt → State → State
settle e m (blocked b now_at) s = mark_routing_failed e 3 b now_at s
settle e m (raised exc now_at) s = mark_failed e 3 now_at exc true s
settle e m (delivered ids) s =
    let s' = elsewhere e 3 s in
    elim (get_by_source m.source_chat_id m.source_message_id (rows_of s')) [
      | none ↦ s'
      | some row ↦
          set_status e row.id MessageStatus.published
            (record no_update { target_message_ids = some ids }) s'
    ]

-- The deliveries of a message whose row is `PUBLISHING`.
unfoldable pub deliver : Surroundings → NormalizedMessage → ℕ → Routing → State → State
unfolding enqueue_apis send_all verdict settle
deliver e m record_id r s =
    let (start, s') = enqueue_apis e m record_id (all_active_endpoint_ids m.source_chat_id r) s in
    let ended = send_all e 4 (get_target_routes_for m.source_chat_id r) start in
    settle e m (verdict ended) (record s' { sent = s'.sent ++ ended.0.sent })

-- The transaction that writes `PUBLISHING`, if the row is there and not published.
unfoldable pub start_publishing : Surroundings → NormalizedMessage → State → Bool × State
start_publishing e m s =
    let s' = elsewhere e 2 s in
    elim (get_by_source m.source_chat_id m.source_message_id (rows_of s')) [
      | none ↦ (false, s')
      | some row ↦
          (if same_status row.status MessageStatus.published
            then (false, s')
            else (true, set_status e row.id MessageStatus.publishing no_update s'))
    ]

-- Once the routing was read.
unfoldable pub publish_routed : Surroundings → NormalizedMessage → ℕ → Routing → State → State
unfolding deliver start_publishing
publish_routed e m record_id r s =
    let fresh = refresh_routing r m in
    elim fresh.reason [
      | some b ↦ mark_routing_failed e 2 b fresh.message s
      | none ↦
          (if e.paused 2 || is_paused_mode (e.publish_mode 2)
            then s
            else (let (go, s') = start_publishing e fresh.message s in
                if go then deliver e fresh.message record_id r s' else s'))
    ]

-- `_publish`.
unfoldable pub publish : Surroundings → NormalizedMessage → ℕ → State → State
unfolding publish_routed
publish e m record_id s = elim (e.routing 2) [
  | err exc ↦ mark_failed e 2 m exc true s
  | ok r ↦ publish_routed e m record_id r s
]
