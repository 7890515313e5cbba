-- ===== src/Albums.antt =====
-- app/listeners/album_collector.py: the parts of an album are collected until no part has come
-- for a while, and merged. Times are in milliseconds. The timer of a bucket is the time at which
-- its flush is due; when it fires, the loop calls `flush_key`.
pub mod Merge
pub mod Flush
pub mod Collected
use tg_forwarder.Prelude.{
  ℕ, zero, suc, ◌+◌, ◌-◌, ◌≡◌, refl, min, max, String, Bool, true, false, not, ◌&&◌, Option, none,
  some, List, [], ◌∷◌, ◌++◌, map, ◌==◌, leb, if◌then◌else◌, length, is_empty, keep, exists,
}
use tg_forwarder.Prelude.Chats.{ℤ, same_chat}
use tg_forwarder.Host.{Text, same_text, codes}
use tg_forwarder.Message.{
  MediaType, MessageEntity, MediaItem, Metadata, NormalizedMessage, message_default,
  media_item_default,
}

abbrev pub message_id : NormalizedMessage → ℕ
message_id m = m.source_message_id

-- `sorted(messages, key=lambda m: m.source_message_id)`, which is stable.
unfoldable pub insert_part : NormalizedMessage → List NormalizedMessage → List NormalizedMessage
insert_part m [] = m ∷ []
insert_part m (n ∷ ns) =
    let rest = insert_part m ns in
    if leb m.source_message_id n.source_message_id then m ∷ n ∷ ns else n ∷ rest

unfoldable pub sort_parts : List NormalizedMessage → List NormalizedMessage
unfolding insert_part
sort_parts [] = []
sort_parts (m ∷ ms) = insert_part m (sort_parts ms)

-- A copy of an item for the album.
abbrev copy_item : ℕ → ℕ → MediaItem → MediaItem
copy_item mid order i = record i { file_id = none; source_message_id = some mid; order = order }

abbrev no_media : MediaType → Bool
no_media MediaType.text = true
no_media MediaType.unsupported = true
no_media _ = false

abbrev text_value : Metadata → Option Text
text_value (Metadata.str t) = some t
text_value _ = none

-- `raw_metadata.get(key)`, for a text.
unfoldable pub get_text : String → List (String × Metadata) → Option Text
get_text key [] = none
get_text key ((k, v) ∷ rest) =
    let later = get_text key rest in if same_text (codes k) (codes key) then text_value v else later

-- The items that one part adds.
unfoldable pub items_of : ℕ → NormalizedMessage → List MediaItem
unfolding get_text
items_of idx m =
    if is_empty m.media_items
    then (if no_media m.media_type
        then []
        else record (media_item_default m.media_type) {
          file_unique_id = get_text "file_unique_id" m.raw_metadata;
          original_filename = m.original_filename;
          mime_type = m.mime_type;
          file_size = m.file_size;
          source_message_id = some m.source_message_id;
          order = idx;
        }
          ∷ [])
    else map (copy_item m.source_message_id idx) m.media_items

unfoldable pub all_items : ℕ → List NormalizedMessage → List MediaItem
unfolding items_of
all_items idx [] = []
all_items idx (m ∷ ms) = items_of idx m ++ all_items (suc idx) ms

-- The first caption, with its entities.
unfoldable pub caption_of : List NormalizedMessage → Text × List MessageEntity
caption_of [] = ([], [])
caption_of (m ∷ ms) =
    let rest = caption_of ms in if is_empty m.text then rest else (m.text, m.entities)

abbrev or_time : Option ℕ → ℕ → Option ℕ
or_time none now = some now
or_time (some t) now = some t

-- `merge`, from the ordered parts; there is no album without parts.
unfoldable pub merge_ordered : ℕ → List NormalizedMessage → Option NormalizedMessage
unfolding all_items caption_of
merge_ordered now [] = none
merge_ordered now (primary ∷ rest) =
    let ordered = primary ∷ rest in
    let (caption, entities) = caption_of ordered in
    some (record (message_default primary.source_chat_id primary.source_message_id) {
      source_chat_username = primary.source_chat_username;
      source_chat_title = primary.source_chat_title;
      grouped_id = primary.grouped_id;
      date = or_time primary.date now;
      edit_date = primary.edit_date;
      text = caption;
      entities = entities;
      media_type = MediaType.album;
      media_items = all_items 0 ordered;
      reply_to_message_id = primary.reply_to_message_id;
      forward_info = primary.forward_info;
      raw_metadata = ("album_size", Metadata.int (length ordered)) ∷ [];
      target_chat_id = primary.target_chat_id;
      album_message_ids = map message_id ordered;
    })

unfoldable pub merge : ℕ → List NormalizedMessage → Option NormalizedMessage
unfolding sort_parts merge_ordered
merge now messages = merge_ordered now (sort_parts messages)

-- `item.source_message_id or album.source_message_id`.
abbrev or_album : Option ℕ → ℕ → ℕ
or_album none album = album
or_album (some zero) album = album
or_album (some (suc n)) album = suc n

unfoldable pub part_from_item : NormalizedMessage → MediaItem → NormalizedMessage
part_from_item album item =
    let mid = or_album item.source_message_id album.source_message_id in
    record (message_default album.source_chat_id mid) {
      source_chat_username = album.source_chat_username;
      source_chat_title = album.source_chat_title;
      grouped_id = album.grouped_id;
      date = album.date;
      media_type = item.media_type;
      media_items = record item { file_id = none; source_message_id = some mid } ∷ [];
      target_chat_id = album.target_chat_id;
    }

abbrev captioned : NormalizedMessage → List NormalizedMessage → List NormalizedMessage
captioned album [] = []
captioned album (p ∷ ps) = record p { text = album.text; entities = album.entities } ∷ ps

unfoldable pub parts_from_album : NormalizedMessage → List NormalizedMessage
unfolding part_from_item sort_parts
parts_from_album album =
    let parts = map (part_from_item album) album.media_items in
    if is_empty album.text then parts else captioned album (sort_parts parts)

-- (source_chat_id, grouped_id).
abbrev pub AlbumKey : Type 0
AlbumKey = ℤ × ℕ

abbrev pub same_key : AlbumKey → AlbumKey → Bool
same_key (a, g) (b, h) = same_chat a b && g == h

pub record AlbumBucket : Type 0 where
  pub messages : List NormalizedMessage
  pub first_seen : ℕ
  pub timer : Option ℕ

pub record RecentAlbum : Type 0 where
  pub album : NormalizedMessage
  pub deadline : ℕ

pub record AlbumCollector : Type 0 where
  pub wait : ℕ
  pub max_wait : ℕ
  pub late_grace : ℕ
  pub buckets : List (AlbumKey × AlbumBucket)
  pub recent : List (AlbumKey × RecentAlbum)

-- A dictionary: `get`, the assignment of a key, and `pop`.
unfoldable pub get {ℓ} : {A : Type ℓ} → AlbumKey → List (AlbumKey × A) → Option A
get key [] = none
get key ((k, a) ∷ rest) = let later = get key rest in if same_key k key then some a else later

unfoldable pub put {ℓ} : {A : Type ℓ} → AlbumKey → A → List (AlbumKey × A) → List (AlbumKey × A)
put key a [] = (key, a) ∷ []
put key a ((k, b) ∷ rest) =
    let later = put key a rest in if same_key k key then (k, a) ∷ rest else (k, b) ∷ later

unfoldable pub pop {ℓ} : {A : Type ℓ} → AlbumKey → List (AlbumKey × A) → List (AlbumKey × A)
pop key rest = keep (λ e. not (same_key e.0 key)) rest

abbrev pub has_part : ℕ → List NormalizedMessage → Bool
has_part mid ms = exists (λ (m : NormalizedMessage). m.source_message_id == mid) ms

unfoldable pub add_part : NormalizedMessage → List NormalizedMessage → List NormalizedMessage
add_part m ms = if has_part m.source_message_id ms then ms else ms ++ m ∷ []

-- `schedule_delay`: at most `wait`, and at once when the bucket is as old as it may be.
unfoldable pub schedule_delay : AlbumCollector → ℕ → ℕ
schedule_delay c elapsed =
    if leb c.max_wait elapsed then 0 else min c.wait (max 50 (c.max_wait - elapsed))

unfoldable pub purge_recent : ℕ → AlbumCollector → AlbumCollector
purge_recent now c = record c {
  recent = keep (λ (e : AlbumKey × RecentAlbum). not (leb e.1.deadline now)) c.recent;
}

abbrev or_merged : Option NormalizedMessage → NormalizedMessage → NormalizedMessage
or_merged none album = album
or_merged (some merged) album = merged

-- A part that comes after the flush only extends the album that is remembered.
unfoldable pub add_late :
    ℕ → AlbumKey → NormalizedMessage → RecentAlbum → AlbumCollector → AlbumCollector
unfolding parts_from_album merge
add_late now key m r c =
    let known = exists (λ i. i == m.source_message_id) r.album.album_message_ids in
    let merged = merge now (parts_from_album r.album ++ m ∷ []) in
    if known then c else record c {
      recent =
          put key (record { album = or_merged merged r.album; deadline = now + c.late_grace })
            c.recent;
    }

abbrev pub bucket_or : ℕ → Option AlbumBucket → AlbumBucket
bucket_or now none = record { messages = []; first_seen = now; timer = none }
bucket_or now (some b) = b

unfoldable pub add_to_bucket : ℕ → AlbumKey → NormalizedMessage → AlbumCollector → AlbumCollector
unfolding add_part schedule_delay
add_to_bucket now key m c =
    let b = bucket_or now (get key c.buckets) in
    record c {
      buckets =
          put key
            (record {
              messages = add_part m b.messages;
              first_seen = b.first_seen;
              timer = some (now + schedule_delay c (now - b.first_seen));
            })
            c.buckets;
    }

unfoldable pub add_grouped : ℕ → AlbumKey → NormalizedMessage → AlbumCollector → AlbumCollector
unfolding purge_recent add_late add_to_bucket
add_grouped now key m c =
    let c' = purge_recent now c in
    elim (get key c'.recent) [
      | none ↦ add_to_bucket now key m c'
      | some r ↦ add_late now key m r c'
    ]

-- `add`: a message without a group is returned at once.
unfoldable pub add :
    ℕ → NormalizedMessage → AlbumCollector → Option NormalizedMessage × AlbumCollector
unfolding add_grouped
add now m c = elim m.grouped_id [
  | none ↦ (some m, c)
  | some group ↦ (none, add_grouped now (m.source_chat_id, group) m c)
]

abbrev pub remember :
    ℕ
    → AlbumKey
    → Option NormalizedMessage
    → AlbumCollector
    → Option NormalizedMessage × AlbumCollector
remember now key none c = (none, c)
remember now key (some album) c = (
  some album,
  record c { recent = put key (record { album = album; deadline = now + c.late_grace }) c.recent },
)

-- `flush_key`: the album that is handed on.
unfoldable pub flush_key : ℕ → AlbumKey → AlbumCollector → Option NormalizedMessage × AlbumCollector
unfolding merge
flush_key now key c =
    let c' : AlbumCollector = record c { buckets = pop key c.buckets } in
    elim (get key c.buckets) [
      | none ↦ (none, c')
      | some b ↦ remember now key (merge now b.messages) c'
    ]

-- What happens to the collector, one after the other.
pub data AlbumEvent : Type 0 where
  adds : ℕ → NormalizedMessage → AlbumEvent
  flushes : ℕ → AlbumKey → AlbumEvent

unfoldable pub run_events : List AlbumEvent → AlbumCollector → AlbumCollector
unfolding add flush_key
run_events [] c = c
run_events (adds now m ∷ es) c = run_events es (add now m c).1
run_events (flushes now key ∷ es) c = run_events es (flush_key now key c).1
