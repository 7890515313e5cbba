-- ===== src/Examples/Publish.antt =====
-- Tests and cases for the publishing of a task.
use tg_forwarder.Publish.Routes.{
  routing_block_reason, resolve, destination_routes, dedup, current_api_targets,
}
use tg_forwarder.Prelude.{◌++◌, ◌≤◌, ◌≡◌, refl, true, false, none, some, [], ◌∷◌, ok, err, All}
use tg_forwarder.Prelude.Chats.{pos, negsuc}
use tg_forwarder.Host.{codes}
use tg_forwarder.Message.{MediaType, MessageStatus, TargetBackend, TargetRoute}
use tg_forwarder.Processed.{ProcessedMessage}
use tg_forwarder.Channels.{
  linked_routes, is_enabled, is_configured, get_target_routes_for, find_source, active_endpoint_ids,
  TargetChannel, Routing,
}
use tg_forwarder.Review.StateMachine.{ReviewStatus, ReviewActionType}
use tg_forwarder.Review.Store.{
  require_task, require_revision, insert_revision, put_task, find_task, ReviewTask, ReviewDb,
}
use tg_forwarder.Review.Service.{
  commit_text, is_claimable, commit, claim_task, log_action, claim_for_publish,
}
use tg_forwarder.Publish.Send.{send_all, World, Sends, addressed}
use tg_forwarder.Publish.Task.{
  PublishDb, Publishing, publish_task, delivered, deliver, message_from_task, snapshot_of,
}
use tg_forwarder.Publish.Sent.{Bound, deliver-Bound}
use tg_forwarder.Publish.Outcome.{publish_task-Ends}
use tg_forwarder.Publish.Stuck.{restore-conflict}
use tg_forwarder.Review.StateMachine.{conflict}
use tg_forwarder.Review.Store.{RevisionSource}
use tg_forwarder.Review.Create.{first_revision}
use tg_forwarder.Review.Service.{restore_revision}
use tg_forwarder.Publish.Task.{conclude}
use tg_forwarder.Publish.Held.{Held, Ends}
use tg_forwarder.Examples.Data.{py, chat}

abbrev pub target : TargetChannel
target = record {
  id = 3;
  target_backend = TargetBackend.telegram;
  chat_id = negsuc 49;
  title = none;
  enabled = true;
}

abbrev pub route : TargetRoute
route = record {
  id = pos 3;
  target_backend = TargetBackend.telegram;
  chat_id = negsuc 49;
  title = none;
}

abbrev pub routing : Routing
routing = record {
  now = 100;
  sources = record { id = 1; chat_id = chat; enabled = true } ∷ [];
  links = record { source_id = 1; target = some target } ∷ [];
  endpoints = [];
  api_links = [];
}

-- Every message is sent, under the id 77.
abbrev world : World
world = record {
  routing = λ n. ok routing;
  publish_target = λ n m t. ok (77 ∷ []);
  ensure_media = λ m. ok (m, false);
  enqueue = λ m ids. ok ids;
}

-- The publisher never answers.
abbrev approved_task : ReviewTask
approved_task = record {
  id = 1;
  processed_message_id = 5;
  status = ReviewStatus.approved;
  source_chat_id = chat;
  source_message_id = 7;
  target_chat_id = none;
  target_chat_ids = [];
  target_destination_ids = 3 ∷ [];
  target_api_endpoint_ids = [];
  original_text = codes "abc";
  processed_text = codes "abc";
  final_text = codes "abc";
  media_type = MediaType.text;
  media_count = 0;
  matched_rules = [];
  detected_keywords = [];
  decision_reason = none;
  revision = 3;
  published_revision = none;
  media_snapshot = record {
    raw_metadata = [];
    media_type = MediaType.text;
    album_message_ids = [];
    media_items = [];
  };
  created_at = 10;
  approved_at = some 20;
  rejected_at = none;
  published_at = none;
  publishing_started_at = none;
  error_message = none;
}

abbrev claimed_task : ReviewTask
claimed_task = record approved_task {
  status = ReviewStatus.publishing;
  revision = 4;
  publishing_started_at = some 100;
}

abbrev pub message_row : ProcessedMessage
message_row = record {
  id = 5;
  source_chat_id = chat;
  source_message_id = 7;
  grouped_id = none;
  status = MessageStatus.pending_review;
  target_chat_id = none;
  target_message_ids = none;
  content_hash = none;
  skip_reason = none;
  error_message = none;
  processing_result = none;
  retry_count = 0;
  processed_at = none;
  published_at = none;
  created_at = 0;
}

abbrev pub published_message : ProcessedMessage
published_message = record message_row {
  status = MessageStatus.published;
  target_message_ids = some (70 ∷ []);
}

abbrev review : ReviewDb
review = record { tasks = approved_task ∷ []; revisions = []; actions = []; next_id = 2 }

abbrev claimed_review : ReviewDb
claimed_review = record {
  tasks = claimed_task ∷ [];
  revisions = [];
  actions =
      log_action approved_task none ReviewActionType.publish_started (some ReviewStatus.approved)
        ReviewStatus.publishing
      ∷ [];
  next_id = 2;
}

abbrev publishing : Publishing
publishing = record {
  py = py;
  world = world;
  describe = λ e. codes "error";
  before = [];
  after = [];
  user_id = none;
  now = 100;
}

claims_it : claim_for_publish 1 3 none 100 review ≡ some (claimed_task, claimed_review)
unfolding claim_for_publish find_task claim_task is_claimable commit put_task
claims_it = refl

abbrev db : PublishDb
db = record { review = review; processed = message_row ∷ [] }

publish_task-Ends_example : Ends 1 (publish_task publishing 1 3 db)
publish_task-Ends_example =
    publish_task-Ends publishing 1 3 db claimed_task claimed_review refl refl claims_it

abbrev sends : Sends
sends = record {
  message = addressed (message_from_task claimed_task) (route ∷ []);
  all_ids = 77 ∷ [];
  published_count = 1;
  errors = [];
  routing_errors = [];
  send_errors = [];
  sent = (2, route) ∷ [];
}

delivers : deliver world claimed_task (message_from_task claimed_task) ≡ delivered sends
unfolding deliver routing_block_reason is_configured find_source is_enabled destination_routes
    resolve dedup get_target_routes_for linked_routes send_all current_api_targets
    active_endpoint_ids
delivers = refl

deliver-Bound_example :
    (1 ≤ sends.published_count)
    × All (Bound world claimed_task (snapshot_of claimed_task)) sends.sent
deliver-Bound_example =
    deliver-Bound world claimed_task (message_from_task claimed_task) sends delivers

abbrev revised : ReviewDb
revised = record claimed_review {
  revisions = first_revision 1 1 RevisionSource.original (codes "abc") ∷ [];
}

is_Held : Held claimed_task revised
unfolding find_task
is_Held = record { row = claimed_task; found = refl; same_revision = refl; publishing = refl }

abbrev restored_task : ReviewTask
restored_task = record claimed_task { final_text = codes "abc"; revision = 5 }

abbrev after_restore : ReviewDb
after_restore = record revised {
  tasks = restored_task ∷ [];
  revisions =
      first_revision 1 1 RevisionSource.original (codes "abc")
      ∷ record {
        review_task_id = 1;
        revision_number = 5;
        source = RevisionSource.restored;
        content = codes "abc";
        created_by = some 9;
      }
      ∷ [];
  actions =
      revised.actions
      ++ log_action claimed_task (some 9) ReviewActionType.restored_original
          (some ReviewStatus.publishing) ReviewStatus.publishing
        ∷ [];
}

restores_it : restore_revision 1 1 9 4 revised ≡ ok (restored_task, after_restore)
unfolding restore_revision require_task require_revision commit_text insert_revision commit put_task
restores_it = refl

-- The message was sent, and the task stays in publishing.
restore-conflict_example :
    (conclude publishing claimed_task
        (delivered sends)
        (record { review = after_restore; processed = message_row ∷ [] })
      ≡ err conflict)
    × (find_task 1 after_restore.tasks ≡ some restored_task)
    × (restored_task.status ≡ ReviewStatus.publishing)
restore-conflict_example =
    restore-conflict publishing claimed_task restored_task (delivered sends) 1 9
      (record { review = revised; processed = message_row ∷ [] }) after_restore is_Held restores_it
