-- ===== src/Publish/Outcome.antt =====
-- app/review/publish.py: how `publish_task` leaves a task that it has claimed.
use mathlib.Core.Path.{subst}
use tg_forwarder.Prelude.{
  ℕ, suc, ◌≡◌, refl, ◌∙◌, ap, Bool, true, false, not, Option, none, some, List, [], arith, is_empty,
  length, ok, Bool-cases, Option-cases, Result-cases, inl, inr,
}
use tg_forwarder.Message.{MessageStatus, NormalizedMessage}
use tg_forwarder.Processed.{no_update}
use tg_forwarder.Review.StateMachine.{ReviewStatus, ReviewActionType, is_allowed}
use tg_forwarder.Review.Store.{ReviewTask, ReviewDb, find_task, put_task, require_task}
use tg_forwarder.Review.Service.{
  media_snapshot_from_message, commit, update_media_snapshot, is_claimable, claim_task,
  claim_for_publish,
}
use tg_forwarder.Review.Calls.{Call, run}
use tg_forwarder.Review.Rows.{find_task-id}
use tg_forwarder.Publish.Routes.{destination_routes, current_api_targets, routing_block_reason}
use tg_forwarder.Publish.Send.{block_text}
use tg_forwarder.Publish.Task.{
  PublishDb, Publishing, published, published_row, find_message, fail_claimed_task, raised,
  conclude, mark, meanwhile, with_media, publish_checked, publish_new, publish_claimed,
  publish_task, deliver, message_from_task, snapshot_of,
}
use tg_forwarder.Publish.Held.{Held, Ends, put_found, Ends-at, settled, fail-Ends, conclude-Ends}

module _ (p : Publishing) (task : ReviewTask) where
  -- New media do not release the task.
  update-Held :
      (m : NormalizedMessage) (t : ReviewTask) (db db' : ReviewDb)
      → update_media_snapshot task.id m db ≡ ok (t, db')
      → Held task db
      → Held task db'
  unfolding update_media_snapshot require_task
  update-Held m t db db' e h =
      let f = h.found in
      let t' : ReviewTask = record h.row {
        media_snapshot = media_snapshot_from_message m;
        media_count = length m.media_items;
        media_type = m.media_type;
      } in
      let rows : db'.tasks ≡ put_task t' db.tasks = ground arith in
      record {
        row = t';
        found = ap (find_task task.id) rows ∙ put_found task.id h.row t' db.tasks h.found refl;
        same_revision = h.same_revision;
        publishing = h.publishing;
      }

  with_media-Held :
      (has_routes : Bool) (db db' : PublishDb) (m : NormalizedMessage)
      → with_media p task has_routes db ≡ ok (m, db')
      → Held task db.review
      → Held task db'.review
  unfolding with_media
  with_media-Held false db db' m e h =
      let same : db ≡ db' = ground arith in subst (λ (d : PublishDb). Held task d.review) same h
  with_media-Held true db db' m e h =
      elim (Result-cases (p.world.ensure_media (message_from_task task))) [
        | inl (x, a) ↦ absurd (ground arith)
        | inr ((m', b), a) ↦ elim (Result-cases (update_media_snapshot task.id m' db.review)) [
          | inl (x, u) ↦ elim (Bool-cases b) [
            | inl yes_b ↦ absurd (ground arith)
            | inr no_b ↦
                let same : db ≡ db' = ground arith in
                subst (λ (d : PublishDb). Held task d.review) same h
          ]
          | inr ((t, review), u) ↦ elim (Bool-cases b) [
            | inl yes_b ↦
                let same : review ≡ db'.review = ground arith in
                subst (Held task) same (update-Held m' t db.review review u h)
            | inr no_b ↦
                let same : db ≡ db' = ground arith in
                subst (λ (d : PublishDb). Held task d.review) same h
          ]
        ]
      ]

  module _ (alone_before : p.before ≡ []) (alone_after : p.after ≡ []) where
    alone : (cs : List (ℕ × Call)) (db : PublishDb) → cs ≡ [] → meanwhile p cs db ≡ db
    unfolding run
    alone cs db e = rw e refl

    checked-Ends :
        (has_routes : Bool) (db : PublishDb)
        → Held task db.review
        → Ends task.id (publish_checked p task has_routes db)
    unfolding publish_checked run
    checked-Ends has_routes db h =
        let marked : PublishDb = record db {
          processed =
              mark p.now task.processed_message_id MessageStatus.publishing no_update db.processed;
        } in
        elim (Result-cases (with_media p task has_routes marked)) [
          | inl (x, e) ↦
              Ends-at task.id (conclude p task (raised x) marked) _ (ground arith)
                (conclude-Ends p task (raised x) marked h)
          | inr ((m, db'), e) ↦
              Ends-at task.id (conclude p task (deliver p.world task m) db') _ (ground arith) (
                conclude-Ends p task (deliver p.world task m) db'
                  (with_media-Held has_routes marked db' m e h))
        ]

    new-Ends : (db : PublishDb) → Held task db.review → Ends task.id (publish_new p task db)
    unfolding publish_new
    new-Ends db h =
        let snap = snapshot_of task in
        elim (Result-cases (p.world.routing 0)) [
          | inl (x, e) ↦
              Ends-at task.id (fail_claimed_task p task x true db) _ (ground arith)
                (fail-Ends p task x true db h)
          | inr (r, e) ↦
              let routes = destination_routes task snap.destination_ids snap.targets r in
              let apis = current_api_targets task snap.api_targets r in
              elim (Option-cases (routing_block_reason task routes apis r)) [
                | inl b ↦
                    Ends-at task.id (publish_checked p task (not (is_empty routes)) db) _
                      (ground arith) (checked-Ends (not (is_empty routes)) db h)
                | inr (reason, b) ↦
                    Ends-at task.id (fail_claimed_task p task (block_text reason) false db) _
                      (ground arith) (fail-Ends p task (block_text reason) false db h)
              ]
        ]

    claimed-Ends : (db : PublishDb) → Held task db.review → Ends task.id (publish_claimed p task db)
    unfolding publish_claimed is_allowed
    claimed-Ends db h =
        elim (Option-cases (published_row (find_message task.processed_message_id db.processed))) [
          | inl e ↦ Ends-at task.id (publish_new p task db) _ (ground arith) (new-Ends db h)
          | inr (sent, e) ↦
              let allowed : is_allowed ReviewStatus.publishing ReviewStatus.published ≡ true =
                refl in
              let (review, row, eq, f, st, er) =
                settled p task ReviewStatus.published ReviewActionType.published none db.review
                  allowed h in
              (
                published true sent.target_message_ids [],
                record db { review = review },
                row,
                ground arith,
                f,
                st,
              )
        ]

claim-Held :
    (i rev now : ℕ) (user : Option ℕ) (db db' : ReviewDb) (task : ReviewTask)
    → claim_for_publish i rev user now db ≡ some (task, db')
    → (task.id ≡ i) × Held task db'
unfolding claim_for_publish claim_task commit
claim-Held i rev now user db db' task e = elim (Option-cases (find_task i db.tasks)) [
  | inl f ↦ absurd (ground arith)
  | inr (t, f) ↦ elim (Bool-cases (is_claimable rev t)) [
    | inl b ↦
        let t' : ReviewTask = record t {
          status = ReviewStatus.publishing;
          revision = suc rev;
          publishing_started_at = some now;
        } in
        let same : task ≡ t' = ground arith in
        let rows : db'.tasks ≡ put_task t' db.tasks = ground arith in
        let id : t.id ≡ i = find_task-id i db.tasks t f in
        rw same (
          id,
          record {
            row = t';
            found =
                ap (find_task t.id) rows
                ∙ put_found t.id t t' db.tasks (ap (λ (k : ℕ). find_task k db.tasks) id ∙ f) refl;
            same_revision = refl;
            publishing = refl;
          },
        )
    | inr b ↦ absurd (ground arith)
  ]
]

-- A task that is claimed never stays in publishing. When no other call writes it meanwhile, then
-- whatever the routing, the media, the queue and the publisher answer, the call returns without
-- an exception, with `published` and a published task or with `failed` and a failed task with its
-- error.
pub publish_task-Ends :
    (p : Publishing) (i rev : ℕ) (db : PublishDb) (task : ReviewTask) (review : ReviewDb)
    → p.before ≡ []
    → p.after ≡ []
    → claim_for_publish i rev p.user_id p.now db.review ≡ some (task, review)
    → Ends i (publish_task p i rev db)
unfolding publish_task
publish_task-Ends p i rev db task review b a e =
    let (id, held) = claim-Held i rev p.now p.user_id db.review review task e in
    let claimed_db : PublishDb = record db { review = review } in
    let ends = claimed-Ends p task b a claimed_db held in
    Ends-at i (publish_claimed p task claimed_db) _ (ground arith)
      (subst (λ (k : ℕ). Ends k (publish_claimed p task claimed_db)) id ends)
