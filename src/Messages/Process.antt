-- ===== src/Messages/Process.antt =====
-- app/services/message_service.py, `process_one`.
use tg_forwarder.Prelude.{
  ℕ, Bool, true, false, ◌||◌, Option, none, some, List, [], ◌∷◌, String, Result, if◌then◌else◌, ok,
  err,
}
use tg_forwarder.Prelude.Chats.{ℤ, pos, negsuc}
use tg_forwarder.Host.{Text, codes}
use tg_forwarder.Message.{MessageStatus, NormalizedMessage, ProcessAction, PublishMode, TargetRoute}
use tg_forwarder.Processed.{ProcessedMessage, StatusUpdate, no_update, get_by_source, update_status}
use tg_forwarder.Processors.Base.{ProcessingContext}
use tg_forwarder.Processors.Pipeline.{run_processors, start, or_current}
use tg_forwarder.Channels.{get_target_routes_for, all_active_endpoint_ids}
use tg_forwarder.Review.Service.{Outcome}
use tg_forwarder.Review.Create.{create_from_message}
use tg_forwarder.Messages.{
  Raised, Surroundings, State, rows_of, elsewhere, Refreshed, refresh_routing, set_status,
  mark_failed,
}
use tg_forwarder.Messages.Publish.{is_paused_mode, publish}
use tg_forwarder.Messages.Claim.{claim}

abbrev pub first_or_zero : List ℤ → ℤ
first_or_zero [] = pos 0
first_or_zero (c ∷ cs) = c

-- The result of the pipeline and the content hash.
pub record Processed : Type 0 where
  pub action : ProcessAction
  pub reason : Option String
  -- `result.message or message`.
  pub message : NormalizedMessage
  pub content_hash : Text

abbrev or_hash : Option Text → Text → Text
or_hash none computed = computed
or_hash (some []) computed = computed
or_hash (some hash) computed = hash

unfoldable pub run_processing :
    Surroundings → NormalizedMessage → ℤ → State → Result Raised Processed
run_processing e m target s =
    let context : ProcessingContext = record {
      target_chat_id = target;
      source_username = m.source_chat_username;
      paused = e.paused 0;
      content_hash = none;
    } in
    elim (run_processors (e.processors (rows_of s)) (start m context)) [
      | err exc ↦ err exc
      | ok p ↦
          let message = or_current p.final.message p.current in
          ok (record {
            action = p.final.action;
            reason = p.final.reason;
            message = message;
            content_hash = or_hash p.context.content_hash (e.compute_hash message);
          })
    ]

-- Where the message goes after the pipeline.
pub data Decision : Type 0 where
  drops fails reviews publishes : Decision

abbrev pub is_review_mode : PublishMode → Bool
is_review_mode PublishMode.review = true
is_review_mode _ = false

unfoldable pub decide : ProcessAction → PublishMode → Decision
decide ProcessAction.drop mode = Decision.drops
decide ProcessAction.fail mode = Decision.fails
decide ProcessAction.review mode = Decision.reviews
decide ProcessAction.continue mode =
    if is_review_mode mode then Decision.reviews else Decision.publishes

abbrev reason_text : Option String → Option Text
reason_text none = none
reason_text (some r) = some (codes r)

abbrev review_reason : ProcessAction → Option String → Option Text
review_reason ProcessAction.review reason = reason_text reason
review_reason _ reason = some (codes "channel_publish_mode_review")

-- The `update_status` of each branch.
unfoldable pub decided : Decision → Processed → MessageStatus × StatusUpdate
decided Decision.drops p = (
  MessageStatus.filtered,
  record no_update {
    skip_reason = reason_text p.reason;
    content_hash = some p.content_hash;
    processing_result = some p.message;
  },
)
decided Decision.fails p = (
  MessageStatus.failed,
  record no_update {
    error_message = reason_text p.reason;
    content_hash = some p.content_hash;
    processing_result = some p.message;
  },
)
decided Decision.reviews p = (
  MessageStatus.pending_review,
  record no_update {
    skip_reason = review_reason p.action p.reason;
    content_hash = some p.content_hash;
    processing_result = some p.message;
  },
)
decided Decision.publishes p = (
  MessageStatus.pending_publish,
  record no_update { content_hash = some p.content_hash; processing_result = some p.message },
)

-- The transaction after the pipeline: the row, if it is still there.
unfoldable pub store_decision :
    Surroundings
    → NormalizedMessage
    → Decision
    → Processed
    → State
    → Option ProcessedMessage × State
unfolding decided
store_decision e m d p s =
    let s' = elsewhere e 1 s in
    let row = get_by_source m.source_chat_id m.source_message_id (rows_of s') in
    elim row [
      | none ↦ (none, s')
      | some r ↦
          let (status, u) = decided d p in
          (some (update_status e.now status u r), set_status e r.id status u s')
    ]

-- Ids of routes are ids of rows, which are not negative.
abbrev route_ids : List TargetRoute → List ℕ
route_ids [] = []
route_ids (r ∷ rs) = elim r.id [ pos n ↦ n ∷ route_ids rs | negsuc n ↦ route_ids rs ]

-- The end of `create_from_message`.
unfoldable pub reviewed : Surroundings → State → Outcome → Option Raised × State
reviewed e s (err x) = (some (e.describe x), s)
reviewed e s (ok t) = (none, record s { db = record s.db { review = t.1 } })

-- The call of `create_from_message`, after a read of the endpoints and of the cache. The rules
-- that matched and the keywords are in the details of the result, which the model of the pipeline
-- leaves out.
unfoldable pub create_review :
    Surroundings
    → NormalizedMessage
    → Text
    → ProcessedMessage
    → Processed
    → State
    → Option Raised × State
unfolding reviewed
create_review e m original_text row p s = elim (e.routing 1) [
  | err exc ↦ (some exc, s)
  | ok r ↦
      let s' = elsewhere e 4 s in
      reviewed e s' (
        create_from_message
          (record {
            processed = row;
            original_text = original_text;
            message = p.message;
            matched_rules = [];
            detected_keywords = [];
            decision_reason = review_reason p.action p.reason;
            target_destination_ids = route_ids (get_target_routes_for m.source_chat_id r);
            target_api_endpoint_ids = all_active_endpoint_ids m.source_chat_id r;
          })
          e.now s'.db.review)
]

-- What follows the transaction.
unfoldable pub carry_out :
    Surroundings
    → NormalizedMessage
    → Text
    → ℕ
    → Decision
    → Processed
    → Option ProcessedMessage × State
    → Option Raised × State
unfolding create_review
carry_out e m original_text record_id d p (none, s) = (none, s)
carry_out e m original_text record_id Decision.drops p (some row, s) = (none, s)
carry_out e m original_text record_id Decision.fails p (some row, s) = (none, s)
carry_out e m original_text record_id Decision.reviews p (some row, s) =
    create_review e m original_text row p s
carry_out e m original_text record_id Decision.publishes p (some row, s) =
    if e.paused 1 || is_paused_mode (e.publish_mode 1)
    then (none, s)
    else (none, publish e p.message record_id s)

-- What follows a run of the pipeline.
unfoldable pub process_result :
    Surroundings → NormalizedMessage → Text → ℕ → Processed → State → Option Raised × State
unfolding decide store_decision carry_out
process_result e m original_text record_id p s =
    let d = decide p.action (e.publish_mode 0) in
    carry_out e m original_text record_id d p (store_decision e m d p s)

-- The message with its media, on to the pipeline: nothing catches what a processor raises.
unfoldable pub process_media :
    Surroundings → NormalizedMessage → Text → ℤ → ℕ → State → Option Raised × State
unfolding run_processing process_result
process_media e m original_text target record_id s = elim (run_processing e m target s) [
  | err exc ↦ (some exc, s)
  | ok p ↦ process_result e m original_text record_id p s
]

abbrev pub file_not_found : Raised
file_not_found = record {
  exception_type = codes "FileNotFoundError";
  message = codes "media incomplete after download";
}

-- The media of a claimed message.
unfoldable pub process_claimed : Surroundings → Refreshed → Option ℕ × State → Option Raised × State
unfolding process_media
process_claimed e fresh (none, s) = (none, s)
process_claimed e fresh (some record_id, s) = elim (e.materialize fresh.message) [
  | err exc ↦ (none, mark_failed e 1 fresh.message exc false s)
  | ok m ↦
      (if e.media_missing m
        then (none, mark_failed e 1 m file_not_found false s)
        else process_media e m fresh.message.text (first_or_zero fresh.targets) record_id s)
]

-- `process_one`: the exception that leaves it, if one does, and the state.
unfoldable pub process_one : Surroundings → NormalizedMessage → State → Option Raised × State
unfolding claim process_claimed
process_one e m s = elim (e.routing 0) [
  | err exc ↦ (some exc, s)
  | ok r ↦ let fresh = refresh_routing r m in process_claimed e fresh (claim e fresh s)
]
