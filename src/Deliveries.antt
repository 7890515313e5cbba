-- ===== src/Deliveries.antt =====
-- app/services/api_delivery_service.py: the queue of deliveries to API endpoints. The insert under
-- a savepoint and the query before it are one step: a row that another session inserts between them
-- makes the insert fail, which leaves the rows as the query would have found them. Of the payload,
-- `source_backend` and the identity of the sender are left out.
pub mod Pages
pub mod Once
use tg_forwarder.Prelude.{
  ℕ, zero, suc, ◌+◌, ◌≤◌, ◌<◌, ◌≡◌, ◌≢◌, refl, sym, ◌∙◌, ap, Bool, true, false, not, ◌&&◌, ◌||◌,
  Option, none, some, List, [], ◌∷◌, ◌++◌, map, arith, ◌==◌, ==→eq, ==-refl, if◌then◌else◌, ltb,
  leb, length, take, drop, keep, exists, All, All-append, Bool-cases, inl, inr, take_all,
  take-append-drop, length-take, length-drop,
}
use tg_forwarder.Prelude.Chats.{ℤ}
use tg_forwarder.Host.{Text}
use tg_forwarder.Message.{MediaType, MediaItem, NormalizedMessage}
use tg_forwarder.Channels.{Routing, active_endpoint_ids}

pub record PublicItem : Type 0 where
  pub media_type : MediaType
  pub original_filename : Option Text
  pub mime_type : Option Text
  pub file_size : Option ℕ
  pub source_message_id : Option ℕ
  pub order : ℕ
  pub file_unique_id : Option Text

pub record PublicPayload : Type 0 where
  pub source_chat_id : ℤ
  pub source_message_id : ℕ
  pub source_chat_username : Option Text
  pub grouped_id : Option ℕ
  pub text : Text
  pub media_type : MediaType
  pub media_items : List PublicItem
  pub processed_at : ℕ

abbrev public_item : MediaItem → PublicItem
public_item i = record {
  media_type = i.media_type;
  original_filename = i.original_filename;
  mime_type = i.mime_type;
  file_size = i.file_size;
  source_message_id = i.source_message_id;
  order = i.order;
  file_unique_id = i.file_unique_id;
}

unfoldable pub public_payload : ℕ → NormalizedMessage → PublicPayload
public_payload now m = record {
  source_chat_id = m.source_chat_id;
  source_message_id = m.source_message_id;
  source_chat_username = m.source_chat_username;
  grouped_id = m.grouped_id;
  text = m.text;
  media_type = m.media_type;
  media_items = map public_item m.media_items;
  processed_at = now;
}

pub record ApiDelivery : Type 0 where
  pub id : ℕ
  pub api_endpoint_id : ℕ
  pub processed_message_id : ℕ
  pub review_task_id : Option ℕ
  pub payload : PublicPayload

pub record Queue : Type 0 where
  pub rows : List ApiDelivery
  pub next_id : ℕ

-- The arguments of `enqueue`, but for the endpoints.
pub record Parcel : Type 0 where
  pub processed_message_id : ℕ
  pub review_task_id : Option ℕ
  pub payload : PublicPayload

abbrev pub is_delivery : ℕ → ℕ → ApiDelivery → Bool
is_delivery endpoint message d = d.api_endpoint_id == endpoint && d.processed_message_id == message

unfoldable pub has_delivery : ℕ → ℕ → List ApiDelivery → Bool
has_delivery endpoint message rows = exists (is_delivery endpoint message) rows

-- One turn of the loop over the endpoints.
unfoldable pub enqueue_one : Parcel → ℕ → Queue → Queue
unfolding has_delivery
enqueue_one p endpoint q =
    if has_delivery endpoint p.processed_message_id q.rows then q else record {
      rows =
          q.rows
          ++ record {
            id = q.next_id;
            api_endpoint_id = endpoint;
            processed_message_id = p.processed_message_id;
            review_task_id = p.review_task_id;
            payload = p.payload;
          }
            ∷ [];
      next_id = suc q.next_id;
    }

unfoldable pub enqueue_all : Parcel → List ℕ → Queue → Queue
unfolding enqueue_one
enqueue_all p [] q = q
enqueue_all p (e ∷ es) q = enqueue_all p es (enqueue_one p e q)

-- `enqueue`: the endpoints that it returns, and the queue.
unfoldable pub enqueue : Routing → ℤ → List ℕ → Parcel → Queue → List ℕ × Queue
enqueue r chat candidates p q =
    let active = active_endpoint_ids chat candidates r in (active, enqueue_all p active q)

-- What `pull` selects before its limit; the rows are in the order of their ids.
abbrev pub after : ℕ → ℕ → List ApiDelivery → List ApiDelivery
after endpoint cursor rows =
    keep (λ (d : ApiDelivery). d.api_endpoint_id == endpoint && ltb cursor d.id) rows

unfoldable pub pull : ℕ → ℕ → ℕ → List ApiDelivery → List ApiDelivery × Bool
pull endpoint cursor limit rows =
    let selected = take (suc limit) (after endpoint cursor rows) in
    (take limit selected, ltb limit (length selected))

-- The last id of a page, or the old cursor.
abbrev pub next_cursor : ℕ → List ApiDelivery → ℕ
next_cursor cursor [] = cursor
next_cursor cursor (d ∷ ds) = next_cursor d.id ds

-- A client that pulls page after page, at most `fuel` times.
unfoldable pub pull_pages : ℕ → ℕ → ℕ → ℕ → List ApiDelivery → List ApiDelivery
unfolding pull
pull_pages zero endpoint cursor limit rows = []
pull_pages (suc fuel) endpoint cursor limit rows =
    let (page, more) = pull endpoint cursor limit rows in
    let rest = pull_pages fuel endpoint (next_cursor cursor page) limit rows in
    if more then page ++ rest else page

-- Ids that go up, above a first one.
abbrev pub Increasing : ℕ → List ApiDelivery → Type 0
Increasing c [] = Unit {0}
Increasing c (d ∷ ds) = (c < d.id) × Increasing d.id ds
