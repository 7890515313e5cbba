-- ===== src/Publish/Send.antt =====
-- app/review/publish.py, the loop of `publish_task` over the routes. `World` is what the loop
-- meets: the routing tables at each of its reads, and what the publisher answers to each message.
-- The entries of `per_target` and the summaries are left out, but for their texts. `sent` records
-- the messages that were handed to the publisher, with the number of the read before each.
use tg_forwarder.Prelude.{
  ℕ, suc, Bool, true, false, Option, none, some, List, [], ◌∷◌, ◌++◌, map, if◌then◌else◌, exists,
  Result, ok, err,
}
use tg_forwarder.Prelude.Chats.{ℤ, same_chat}
use tg_forwarder.Host.{Text, codes}
use tg_forwarder.Message.{NormalizedMessage, TargetRoute}
use tg_forwarder.Channels.{Routing}
use tg_forwarder.Review.Store.{ReviewTask}
use tg_forwarder.Publish.Routes.{
  destination_routes, current_api_targets, BlockReason, review_source_disabled,
  no_current_review_target, routing_block_reason,
}

-- The text of an exception.
abbrev pub Failure : Type 0
Failure = Text

pub record World : Type 0 where
  -- The tables at the `n`-th read, or what the read raises.
  pub routing : ℕ → Result Failure Routing
  -- The publisher, at the `n`-th read.
  pub publish_target : ℕ → NormalizedMessage → TargetRoute → Result Failure (List ℕ)
  -- `ensure_task_media`: the message with its files, and whether they were fetched again.
  pub ensure_media : NormalizedMessage → Result Failure (NormalizedMessage × Bool)
  -- `ApiDeliveryService.enqueue`.
  pub enqueue : NormalizedMessage → List ℕ → Result Failure (List ℕ)

-- The targets that the task stored.
pub record Snapshot : Type 0 where
  pub targets : List ℤ
  pub api_targets : List ℕ
  pub destination_ids : List ℕ

pub record Sends : Type 0 where
  -- The message, whose targets each turn writes.
  pub message : NormalizedMessage
  pub all_ids : List ℕ
  pub published_count : ℕ
  pub errors : List Text
  pub routing_errors : List Text
  pub send_errors : List Text
  pub sent : List (ℕ × TargetRoute)

abbrev pub block_text : BlockReason → Text
block_text review_source_disabled = codes "review source channel is currently disabled"
block_text no_current_review_target =
    codes "no currently enabled target is bound to this review source"

abbrev unbound : Text
unbound = codes "target is no longer enabled and bound to this review source"

abbrev pub is_disabled : Option BlockReason → Bool
is_disabled (some review_source_disabled) = true
is_disabled _ = false

abbrev routing_error : Text → Sends → Sends
routing_error e s = record s {
  errors = s.errors ++ e ∷ [];
  routing_errors = s.routing_errors ++ e ∷ [];
}

abbrev first_chat : List TargetRoute → Option ℤ
first_chat [] = none
first_chat (r ∷ rs) = some r.chat_id

abbrev pub addressed : NormalizedMessage → List TargetRoute → NormalizedMessage
addressed m routes = record m {
  target_chat_ids = map (λ (r : TargetRoute). r.chat_id) routes;
  target_chat_id = first_chat routes;
}

-- One message to one target.
unfoldable pub send_one : World → ℕ → TargetRoute → Sends → Sends
send_one w k target s = elim (w.publish_target k s.message target) [
  | ok ids ↦ record s {
    all_ids = s.all_ids ++ ids;
    published_count = suc s.published_count;
    sent = s.sent ++ (k, target) ∷ [];
  }
  | err e ↦ record s {
    errors = s.errors ++ e ∷ [];
    send_errors = s.send_errors ++ e ∷ [];
    sent = s.sent ++ (k, target) ∷ [];
  }
]

abbrev pub is_bound : TargetRoute → List TargetRoute → Bool
is_bound target routes = exists (λ (r : TargetRoute). same_chat r.id target.id) routes

-- One turn of the loop, after a read: whether the loop goes on, and the new sends.
unfoldable pub send_turn :
    World → ReviewTask → Snapshot → ℕ → Routing → TargetRoute → Sends → Bool × Sends
unfolding send_one
send_turn w task snap k r target s =
    let routes = destination_routes task snap.destination_ids snap.targets r in
    let apis = current_api_targets task snap.api_targets r in
    if is_disabled (routing_block_reason task routes apis r)
    then (false, routing_error (block_text review_source_disabled) s)
    else (if is_bound target routes
        then (true, send_one w k target (record s { message = addressed s.message routes }))
        else (true, routing_error unbound s))

abbrev pub go_on : (Sends → Sends × Option Failure) → Bool × Sends → Sends × Option Failure
go_on rest (true, s) = rest s
go_on rest (false, s) = (s, none)

-- The loop, from its `k`-th read of the routing. A read that raises ends it, with the exception.
unfoldable pub send_all :
    World → ReviewTask → Snapshot → ℕ → List TargetRoute → Sends → Sends × Option Failure
unfolding send_turn
send_all w task snap k [] s = (s, none)
send_all w task snap k (target ∷ routes) s = elim (w.routing k) [
  | err e ↦ (s, some e)
  | ok r ↦ go_on (send_all w task snap (suc k) routes) (send_turn w task snap k r target s)
]
