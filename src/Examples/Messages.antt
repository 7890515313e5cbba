-- ===== src/Examples/Messages.antt =====
-- Tests and cases for the message service.
use tg_forwarder.Review.Create.{insert_task, create_from_message}
use tg_forwarder.Processors.Pipeline.{start, run_processors}
use tg_forwarder.Messages.Publish.{publish}
use tg_forwarder.Deliveries.{enqueue as enqueue_deliveries}
use tg_forwarder.Backends.{is_api_chat_id}
use tg_forwarder.Processors.Base.{MessageProcessor}
use tg_forwarder.Prelude.{
  ℕ, ◌≡◌, refl, sym, ap, arith, true, false, none, some, [], ◌∷◌, ◌++◌, Result, ok, err, List,
}
use tg_forwarder.Prelude.Chats.{ℤ}
use tg_forwarder.Host.{codes}
use tg_forwarder.Message.{NormalizedMessage, MessageStatus, PublishMode, ProcessAction}
use tg_forwarder.Processed.{
  update_status, try_create, change_row, ProcessedMessage, get_by_source, list_by_status,
}
use tg_forwarder.Processed.Rows.{IsKeyed}
use tg_forwarder.Channels.{
  linked_routes, is_enabled, is_configured, find_source, active_endpoint_ids, get_targets_for,
}
use tg_forwarder.Review.Store.{insert_revision, find_processed}
use tg_forwarder.Messages.{refresh_routing, mark_failed, Raised, Surroundings, State, rows_of, aim}
use tg_forwarder.Messages.Process.{Processed, process_one, run_processing}
use tg_forwarder.Messages.Enqueue.{Service, enqueue}
use tg_forwarder.Messages.Recover.{recover_pending, recoverable}
use tg_forwarder.Messages.Sends.{Adds}
use tg_forwarder.Messages.Delivered.{Allowed, process_one-Adds}
use tg_forwarder.Messages.Laws.{Law, Lasting, found}
use tg_forwarder.Messages.Runs.{Operation, run}
use tg_forwarder.Messages.Final.{Stands, final, run-Stands, process_one-again}
use tg_forwarder.Messages.Settles.{Alone}
use tg_forwarder.Messages.Rests.{Ends, process_one-Ends}
use tg_forwarder.Messages.Queueing.{Awaits, enqueue-duplicate, enqueue-Awaits}
use tg_forwarder.Messages.Recovery.{Recovers, recover_pending-Recovers}
use tg_forwarder.Examples.Data.{py, chat, message}
use tg_forwarder.Examples.Publish.{routing, message_row, published_message}

-- Every message passes the pipeline and is sent, under the id 77.
abbrev surroundings : Surroundings
surroundings = record {
  now = 100;
  max_retries = 3;
  routing = λ n. ok routing;
  publish_mode = λ n. PublishMode.auto;
  paused = λ n. false;
  meanwhile = λ n db. db;
  materialize = λ m. ok m;
  media_missing = λ m. false;
  processors = λ rows. [];
  compute_hash = λ m. m.text;
  publish_target = λ n m t. ok (77 ∷ []);
  describe = λ x. record { exception_type = codes "ReviewError"; message = [] };
}

-- The publisher never answers, and one failure is the last.
abbrev silent : Surroundings
silent = record surroundings {
  max_retries = 1;
  publish_target = λ n m t. err (record { exception_type = codes "TimedOut"; message = [] });
}

abbrev state : List ProcessedMessage → State
state rows = record {
  db = record {
    messages = record { rows = rows; next_id = 6 };
    review = record { tasks = []; revisions = []; actions = []; next_id = 1 };
    deliveries = record { rows = []; next_id = 1 };
  };
  last_error = none;
  sent = [];
}

abbrev service : List ProcessedMessage → Service
service rows = record { maxsize = 1; queue = []; state = state rows }

abbrev statuses : List ProcessedMessage → List MessageStatus
statuses [] = []
statuses (r ∷ rs) = r.status ∷ statuses rs

publishes_it :
    statuses (rows_of (process_one surroundings message (state (message_row ∷ []))).1)
    ≡ MessageStatus.published ∷ []
unfolding process_one get_by_source refresh_routing is_api_chat_id is_configured find_source
    is_enabled get_targets_for linked_routes change_row update_status run_processors start publish
    enqueue_deliveries active_endpoint_ids
publishes_it = refl

fails_it :
    statuses (rows_of (process_one silent message (state (message_row ∷ []))).1)
    ≡ MessageStatus.failed ∷ []
unfolding process_one get_by_source refresh_routing is_api_chat_id is_configured find_source
    is_enabled get_targets_for linked_routes change_row update_status run_processors start publish
    enqueue_deliveries active_endpoint_ids mark_failed
fails_it = refl

-- A processor that raises leaves the row as it was claimed.
abbrev broken : MessageProcessor
broken = record {
  name = "broken";
  process = λ m c. err (record { exception_type = codes "OperationalError"; message = [] });
}

leaves_it_processing :
    statuses (
      rows_of
        (process_one
          (record surroundings { processors = λ rows. broken ∷ [] })
          message
          (state (message_row ∷ []))).1)
    ≡ MessageStatus.processing ∷ []
unfolding process_one get_by_source refresh_routing is_api_chat_id is_configured find_source
    is_enabled get_targets_for linked_routes change_row update_status run_processors start
leaves_it_processing = refl

asks_for_review :
    statuses (
      rows_of
        (process_one
          (record surroundings { publish_mode = λ n. PublishMode.review })
          message
          (state [])).1)
    ≡ MessageStatus.pending_review ∷ []
unfolding process_one insert_revision get_by_source try_create is_api_chat_id refresh_routing
    is_configured find_source is_enabled get_targets_for linked_routes change_row update_status
    run_processors start create_from_message find_processed insert_task
asks_for_review = refl

abbrev queued_twice : Service
queued_twice =
    (enqueue 100 routing (record message { source_message_id = 8 })
      (enqueue 100 routing message (service [])).1).1

-- The second message finds the queue full, and is queued by the recovery.
refuses_second :
    statuses (rows_of queued_twice.state) ≡ MessageStatus.received ∷ MessageStatus.received ∷ []
unfolding enqueue try_create
refuses_second = refl

process_one-Adds_example :
    Adds (Allowed surroundings) (state []) (process_one surroundings message (state [])).1
process_one-Adds_example = process_one-Adds surroundings message (state [])

abbrev operations : List Operation
operations =
    Operation.enqueues 100 routing message
    ∷ Operation.works surroundings
    ∷ Operation.recovers 101
    ∷ Operation.retries 102 50
    ∷ []

ok-eq : {A : Type 0} (m m' : A) → ◌≡◌ {A = Result Raised A} (ok m) (ok m') → m ≡ m'
ok-eq m m' h = cc

-- A key is kept by surroundings that change no message.
key_kept :
    (K : ℤ → ℕ → Type 0) (m m' : NormalizedMessage)
    → m ≡ m'
    → K m.source_chat_id m.source_message_id
    → K m'.source_chat_id m'.source_message_id
key_kept K m m' same k = rw (← same) k

-- Without processors the pipeline gives the message back.
kept_message :
    (m : NormalizedMessage) (target : ℤ) (s : State) (p : Processed)
    → run_processing surroundings m target s ≡ ok p
    → m ≡ p.message
unfolding run_processing run_processors start
kept_message m target s p h =
    ap (λ (q : Processed). q.message)
      (ok-eq
        (record {
          action = ProcessAction.continue;
          reason = none;
          message = m;
          content_hash = m.text;
        })
        p h)

lasting : (law : Law) → Lasting law surroundings
unfolding run_processing run_processors start
lasting law = record {
  others = λ k db h. h;
  media = λ m m' h k. key_kept law.K m m' (ok-eq m m' h) k;
  pipeline = λ m target s p h k. key_kept law.K m p.message (kept_message m target s p h) k;
}

unique_row :
    (row : ProcessedMessage) → row.id ≡ 5 → IsKeyed (record { rows = row ∷ []; next_id = 6 })
unique_row row h = record { below = (omega arith, tt); unique = (tt, tt) }

run-Stands_example :
    Stands published_message refl
      (run py operations (service (published_message ∷ []))).state.db.messages
unfolding get_by_source
run-Stands_example =
    run-Stands published_message refl py operations (service (published_message ∷ []))
      (tt, (lasting (final published_message refl), (tt, (tt, tt))))
      (unique_row published_message refl, refl)

process_one-again_example :
    process_one surroundings message (state (published_message ∷ []))
    ≡ (none, state (published_message ∷ []))
unfolding get_by_source
process_one-again_example =
    process_one-again published_message refl surroundings message (state (published_message ∷ []))
      routing refl refl (unique_row published_message refl, refl)

alone : Alone surroundings
unfolding run_processing run_processors start
alone = record {
  quiet = λ k db. refl;
  media = λ m m' h. (
    ap (λ (x : NormalizedMessage). x.source_chat_id) (sym (ok-eq m m' h)),
    ap (λ (x : NormalizedMessage). x.source_message_id) (sym (ok-eq m m' h)),
  );
  pipeline = λ m target s p h. (
    ap (λ (x : NormalizedMessage). x.source_chat_id) (sym (kept_message m target s p h)),
    ap (λ (x : NormalizedMessage). x.source_message_id) (sym (kept_message m target s p h)),
  );
}

process_one-Ends_example : Ends alone message (process_one surroundings message (state []))
process_one-Ends_example = process_one-Ends alone message (state []) routing refl

enqueue-duplicate_example :
    ((enqueue 100 routing message (service (published_message ∷ []))).0 ≡ false)
    × ((enqueue 100 routing message (service (published_message ∷ []))).1.queue ≡ [])
    × (found message
          (enqueue 100 routing message (service (published_message ∷ []))).1.state.db.messages
        ≡ some published_message)
unfolding get_by_source
enqueue-duplicate_example =
    enqueue-duplicate 100 routing message (service (published_message ∷ [])) published_message refl
      refl refl

enqueue-Awaits_example :
    Awaits
      (aim (get_targets_for chat routing) message)
      (enqueue 100 routing message (service [])).1.state.db
    × ((enqueue 100 routing message (service [])).0 ≡ true
        → (enqueue 100 routing message (service [])).1.queue
          ≡ [] ++ aim (get_targets_for chat routing) message ∷ [])
unfolding get_by_source
enqueue-Awaits_example = enqueue-Awaits 100 routing message (service []) refl refl

recover_pending-Recovers_example :
    Recovers py 101
      (list_by_status recoverable 200 (rows_of queued_twice.state))
      queued_twice
      (recover_pending py 101 queued_twice)
recover_pending-Recovers_example = recover_pending-Recovers py 101 queued_twice
