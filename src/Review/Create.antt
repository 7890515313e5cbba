-- ===== src/Review/Create.antt =====
-- app/review/service.py, `ReviewService.create_from_message`.
use tg_forwarder.Prelude.{ℕ, suc, Option, none, some, List, [], ◌∷◌, ◌++◌, length, ok, ◌>>=◌}
use tg_forwarder.Prelude.Chats.{ℤ, pos}
use tg_forwarder.Host.{Text}
use tg_forwarder.Message.{NormalizedMessage}
use tg_forwarder.Processed.{ProcessedMessage}
use tg_forwarder.Rules.Types.{HitRecord}
use tg_forwarder.Review.StateMachine.{ReviewStatus, ReviewActionType}
use tg_forwarder.Review.Store.{
  ReviewTask, RevisionSource, ContentRevision, ReviewDb, find_processed, insert_revision,
}
use tg_forwarder.Review.Service.{Outcome, log_action, media_snapshot_from_message}

-- `processed.target_chat_id or (target_ids[0] if target_ids else None)`: the id 0 counts as none.
abbrev first_target : List ℤ → Option ℤ
first_target [] = none
first_target (t ∷ ts) = some t

abbrev primary_target : Option ℤ → List ℤ → Option ℤ
primary_target none targets = first_target targets
primary_target (some (pos ℕ.zero)) targets = first_target targets
primary_target (some chat) targets = some chat

abbrev target_ids : Option ℤ → List ℤ → List ℤ
target_ids (some chat) [] = chat ∷ []
target_ids none [] = []
target_ids chat (t ∷ ts) = t ∷ ts

pub record CreateCall : Type 0 where
  pub processed : ProcessedMessage
  pub original_text : Text
  pub message : NormalizedMessage
  pub matched_rules : List HitRecord
  pub detected_keywords : List Text
  pub decision_reason : Option Text
  pub target_destination_ids : List ℕ
  pub target_api_endpoint_ids : List ℕ

unfoldable pub new_task : CreateCall → ℕ → ℕ → ReviewTask
unfolding media_snapshot_from_message
new_task c now id =
    let targets = target_ids c.processed.target_chat_id c.message.target_chat_ids in
    record {
      id = id;
      processed_message_id = c.processed.id;
      status = ReviewStatus.pending;
      source_chat_id = c.processed.source_chat_id;
      source_message_id = c.processed.source_message_id;
      target_chat_id = primary_target c.processed.target_chat_id targets;
      target_chat_ids = targets;
      target_destination_ids = c.target_destination_ids;
      target_api_endpoint_ids = c.target_api_endpoint_ids;
      original_text = c.original_text;
      processed_text = c.message.text;
      final_text = c.message.text;
      media_type = c.message.media_type;
      media_count = length c.message.media_items;
      matched_rules = c.matched_rules;
      detected_keywords = c.detected_keywords;
      decision_reason = c.decision_reason;
      revision = 2;
      published_revision = none;
      media_snapshot = media_snapshot_from_message c.message;
      created_at = now;
      approved_at = none;
      rejected_at = none;
      published_at = none;
      publishing_started_at = none;
      error_message = none;
    }

abbrev pub first_revision : ℕ → ℕ → RevisionSource → Text → ContentRevision
first_revision id n source content = record {
  review_task_id = id;
  revision_number = n;
  source = source;
  content = content;
  created_by = none;
}

unfoldable pub insert_task : CreateCall → ℕ → ReviewDb → Outcome
insert_task c now db = do
  let task = new_task c now db.next_id
  revs ←
      insert_revision (first_revision db.next_id 1 RevisionSource.original c.original_text)
        db.revisions
  revs' ← insert_revision (first_revision db.next_id 2 RevisionSource.rules c.message.text) revs
  ok (
    task,
    record {
      tasks = db.tasks ++ task ∷ [];
      revisions = revs';
      actions =
          db.actions
          ++ log_action task none ReviewActionType.created none ReviewStatus.pending ∷ [];
      next_id = suc db.next_id;
    },
  )

-- A message that has a task keeps it.
unfoldable pub create_from_message : CreateCall → ℕ → ReviewDb → Outcome
create_from_message c now db = elim (find_processed c.processed.id db.tasks) [
  | none ↦ insert_task c now db
  | some task ↦ ok (task, db)
]
