-- ===== src/Messages/Laws.antt =====
-- Properties of the rows that outlive what other tasks do, new rows, and changes of the row of a
-- message; and that `_publish` keeps them.
use tg_forwarder.Prelude.{
  ℕ, ◌≡◌, refl, Bool, true, false, ◌||◌, Option, none, some, List, [], ◌==◌, ok, Result-cases,
  Option-cases, All, if-intro, inl, inr,
}
use tg_forwarder.Prelude.Chats.{ℤ}
use tg_forwarder.Message.{NormalizedMessage, MessageStatus}
use tg_forwarder.Processed.{
  ProcessedMessage, MessageDb, StatusUpdate, NewMessage, update_status, get_by_source, change_row,
  try_create, same_status,
}
use tg_forwarder.Processed.Rows.{KeepsKeys, update_status-KeepsKeys}
use tg_forwarder.Channels.{Routing, all_active_endpoint_ids, get_target_routes_for}
use tg_forwarder.Messages.{
  Raised, Db, Surroundings, State, Block, aim, refresh_routing, blocked_row, mark_blocked,
  mark_failed, mark_routing_failed,
}
use tg_forwarder.Messages.Publish.{
  Sends, Attempt, is_paused_mode, enqueue_apis, send_all, verdict, settle, deliver,
  start_publishing, publish_routed, publish,
}
use tg_forwarder.Messages.Process.{Processed, run_processing}
use tg_forwarder.Messages.Sends.{SameContent, send_all-Good, enqueue_apis-Good}

-- The row that a message would change.
abbrev pub found : NormalizedMessage → MessageDb → Option ProcessedMessage
found m db = get_by_source m.source_chat_id m.source_message_id db.rows

-- A property of the table, the keys whose rows may be changed without harm to it, and the rows
-- that may be changed wherever they were read.
pub record Law : Type 1 where
  pub P : MessageDb → Type 0
  pub K : ℤ → ℕ → Type 0
  pub Safe : ProcessedMessage → Type 0
  pub change :
      (m : NormalizedMessage) (q : ProcessedMessage) (f : ProcessedMessage → ProcessedMessage)
      (db : MessageDb)
      → K m.source_chat_id m.source_message_id
      → KeepsKeys f
      → found m db ≡ some q
      → P db
      → P (record db { rows = change_row q.id f db.rows })
  pub change_safe :
      (q : ProcessedMessage) (f : ProcessedMessage → ProcessedMessage) (db : MessageDb)
      → Safe q
      → KeepsKeys f
      → P db
      → P (record db { rows = change_row q.id f db.rows })
  pub create : (now : ℕ) (n : NewMessage) (db : MessageDb) → P db → P (try_create now n db).1
  -- A row that is not there, or not published, may be changed.
  pub missing :
      (m : NormalizedMessage) (db : MessageDb)
      → found m db ≡ none
      → P db
      → K m.source_chat_id m.source_message_id
  pub unpublished :
      (m : NormalizedMessage) (q : ProcessedMessage) (db : MessageDb)
      → found m db ≡ some q
      → same_status q.status MessageStatus.published ≡ false
      → P db
      → K m.source_chat_id m.source_message_id
  pub listed :
      (db : MessageDb)
      → P db
      → All (λ q. same_status q.status MessageStatus.published ≡ false → Safe q) db.rows

-- Surroundings that respect the property: what other tasks do keeps it, and the media service and
-- the pipeline lead to no other row.
pub record Lasting (law : Law) (e : Surroundings) : Type 0 where
  pub others : (k : ℕ) (db : Db) → law.P db.messages → law.P (e.meanwhile k db).messages
  pub media :
      (m m' : NormalizedMessage)
      → e.materialize m ≡ ok m'
      → law.K m.source_chat_id m.source_message_id
      → law.K m'.source_chat_id m'.source_message_id
  pub pipeline :
      (m : NormalizedMessage) (target : ℤ) (s : State) (p : Processed)
      → run_processing e m target s ≡ ok p
      → law.K m.source_chat_id m.source_message_id
      → law.K p.message.source_chat_id p.message.source_message_id

module _ (law : Law) {e : Surroundings} (lasting : Lasting law e) where
  open law use {P, K, change, create, missing, unpublished}
  open lasting use {others, media, pipeline}

  abbrev pub Holds : State → Type 0
  Holds s = P s.db.messages

  abbrev pub Mine : NormalizedMessage → Type 0
  Mine m = K m.source_chat_id m.source_message_id

  pub updated :
      (m : NormalizedMessage) (row : ProcessedMessage) (status : MessageStatus) (u : StatusUpdate)
      (db : MessageDb)
      → Mine m
      → found m db ≡ some row
      → P db
      → P (record db { rows = change_row row.id (update_status e.now status u) db.rows })
  updated m row status u db mine f h =
      change m row (update_status e.now status u) db mine (update_status-KeepsKeys e.now status u) f
        h

  pub mark_failed-Holds :
      (k : ℕ) (m : NormalizedMessage) (exc : Raised) (retry : Bool) (s : State)
      → Mine m
      → Holds s
      → Holds (mark_failed e k m exc retry s)
  unfolding mark_failed
  mark_failed-Holds k m exc retry s mine h =
      let there = others k s.db h in
      elim (Option-cases (found m (e.meanwhile k s.db).messages)) [
        | inl f ↦ rw (f, mark_failed) there
        | inr (row, f) ↦ rw (f, mark_failed) (updated m row _ _ _ mine f there)
      ]

  pub blocked :
      (m : NormalizedMessage) (row : ProcessedMessage) (b : Block) (m' : NormalizedMessage)
      (db : MessageDb)
      → Mine m
      → found m db ≡ some row
      → P db
      → P (record db { rows = change_row row.id (blocked_row e.now b m') db.rows })
  unfolding update_status
  blocked m row b m' db mine f h =
      change m row (blocked_row e.now b m') db mine (λ r. (refl, refl, refl)) f h

  mark_routing_failed-Holds :
      (k : ℕ) (b : Block) (m : NormalizedMessage) (s : State)
      → Mine m
      → Holds s
      → Holds (mark_routing_failed e k b m s)
  unfolding mark_routing_failed mark_blocked
  mark_routing_failed-Holds k b m s mine h =
      let there = others k s.db h in
      elim (Option-cases (found m (e.meanwhile k s.db).messages)) [
        | inl f ↦ rw (f, mark_routing_failed) there
        | inr (row, f) ↦ rw (f, mark_routing_failed) (blocked m row b (aim [] m) _ mine f there)
      ]

  SameContent-Mine : (m m' : NormalizedMessage) → SameContent m m' → Mine m → Mine m'
  SameContent-Mine m m' (targets, chat, same) mine = rw same mine

  abbrev MineAt : Attempt → Type 0
  MineAt (Attempt.blocked b m) = Mine m
  MineAt (Attempt.raised x m) = Mine m
  MineAt (Attempt.delivered ids) = Unit

  verdict-MineAt : (s : Sends) (x : Option Raised) → Mine s.message → MineAt (verdict (s, x))
  unfolding verdict
  verdict-MineAt s (some exc) mine = mine
  verdict-MineAt s none mine =
      if-intro MineAt (s.success == 0) _ _
        (λ _. elim (Option-cases s.last_exc) [ inl f ↦ rw f mine | inr (exc, f) ↦ rw f mine ])
        (λ _. tt)

  settle-Holds :
      (m : NormalizedMessage) (a : Attempt) (s : State)
      → Mine m
      → MineAt a
      → Holds s
      → Holds (settle e m a s)
  unfolding settle
  settle-Holds m (Attempt.blocked b m') s mine at h = mark_routing_failed-Holds 3 b m' s at h
  settle-Holds m (Attempt.raised x m') s mine at h = mark_failed-Holds 3 m' x true s at h
  settle-Holds m (Attempt.delivered ids) s mine at h =
      let there = others 3 s.db h in
      elim (Option-cases (found m (e.meanwhile 3 s.db).messages)) [
        | inl f ↦ rw (f, settle) there
        | inr (row, f) ↦ rw (f, settle) (updated m row _ _ _ mine f there)
      ]

  enqueue_apis-Holds :
      (m : NormalizedMessage) (record_id : ℕ) (apis : List ℕ) (s : State)
      → Holds s
      → Holds (enqueue_apis e m record_id apis s).1
  unfolding enqueue_apis
  enqueue_apis-Holds m record_id apis s h = elim (Result-cases (e.routing 3)) [
    | inl (exc, f) ↦ rw (f, enqueue_apis) h
    | inr (r, f) ↦ rw (f, enqueue_apis) h
  ]

  deliver-Holds :
      (m : NormalizedMessage) (record_id : ℕ) (r : Routing) (s : State)
      → Mine m
      → Holds s
      → Holds (deliver e m record_id r s)
  unfolding deliver
  deliver-Holds m record_id r s mine h =
      let apis = all_active_endpoint_ids m.source_chat_id r in
      let routes = get_target_routes_for m.source_chat_id r in
      let began = enqueue_apis e m record_id apis s in
      let ended = send_all e 4 routes began.0 in
      let same : SameContent m m = (m.target_chat_ids, m.target_chat_id, refl) in
      let good = enqueue_apis-Good e m m record_id apis s same in
      let content = (send_all-Good e m 4 routes began.0 good.0).0 in
      settle-Holds m (verdict ended) _ mine
        (verdict-MineAt ended.0 ended.1 (SameContent-Mine m ended.0.message content mine))
        (enqueue_apis-Holds m record_id apis s h)

  start_publishing-Holds :
      (m : NormalizedMessage) (s : State) → Mine m → Holds s → Holds (start_publishing e m s).1
  unfolding start_publishing
  start_publishing-Holds m s mine h =
      let there = others 2 s.db h in
      elim (Option-cases (found m (e.meanwhile 2 s.db).messages)) [
        | inl f ↦ rw (f, start_publishing) there
        | inr (row, f) ↦
            rw (f, start_publishing)
              (if-intro (λ (t : Bool × State). Holds t.1)
                (same_status row.status MessageStatus.published) _ _ (λ _. there)
                (λ _. updated m row _ _ _ mine f there))
      ]

  publish_routed-Holds :
      (m : NormalizedMessage) (record_id : ℕ) (r : Routing) (s : State)
      → Mine m
      → Holds s
      → Holds (publish_routed e m record_id r s)
  unfolding publish_routed refresh_routing
  publish_routed-Holds m record_id r s mine h =
      let fresh = refresh_routing r m in
      elim (Option-cases fresh.reason) [
        | inr (b, f) ↦ rw (f, publish_routed) (mark_routing_failed-Holds 2 b fresh.message s mine h)
        | inl f ↦
            let began = start_publishing e fresh.message s in
            let there = start_publishing-Holds fresh.message s mine h in
            rw (f, publish_routed)
              (if-intro Holds (e.paused 2 || is_paused_mode (e.publish_mode 2)) _ _ (λ _. h)
                (λ _.
                  if-intro Holds began.0 _ _
                    (λ _. deliver-Holds fresh.message record_id r began.1 mine there) (λ _. there)))
      ]

  pub publish-Holds :
      (m : NormalizedMessage) (record_id : ℕ) (s : State)
      → Mine m
      → Holds s
      → Holds (publish e m record_id s)
  unfolding publish
  publish-Holds m record_id s mine h = elim (Result-cases (e.routing 2)) [
    | inl (exc, f) ↦ rw (f, publish) (mark_failed-Holds 2 m exc true s mine h)
    | inr (r, f) ↦ rw (f, publish) (publish_routed-Holds m record_id r s mine h)
  ]
