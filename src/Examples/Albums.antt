-- ===== src/Examples/Albums.antt =====
-- Tests and cases for the album collector.
use tg_forwarder.Prelude.{ℕ, ◌≡◌, ◌==◌, refl, true, Option, none, some, List, [], ◌∷◌, exists}
use tg_forwarder.Message.{
  MediaType, MediaItem, Metadata, NormalizedMessage, message_default, media_item_default,
}
use tg_forwarder.Albums.{
  put, AlbumKey, AlbumCollector, AlbumEvent, adds, flushes, get, purge_recent, add, flush_key,
  run_events,
}
use tg_forwarder.Albums.Merge.{Rising}
use tg_forwarder.Albums.Flush.{flush_key-Rising}
use tg_forwarder.Albums.Collected.{add-flush_key}
use tg_forwarder.Examples.Data.{chat}

abbrev photo : ℕ → NormalizedMessage
photo id = record (message_default chat id) {
  grouped_id = some 8;
  media_type = MediaType.photo;
  date = some 1;
}

abbrev collector : AlbumCollector
collector = record { wait = 2500; max_wait = 20000; late_grace = 5000; buckets = []; recent = [] }

abbrev key : AlbumKey
key = (chat, 8)

-- Parts out of order, one of them twice.
abbrev parts : List AlbumEvent
parts = adds 0 (photo 12) ∷ adds 10 (photo 11) ∷ adds 20 (photo 12) ∷ []

abbrev ids_of : Option NormalizedMessage → List ℕ
ids_of none = []
ids_of (some a) = a.album_message_ids

orders : ids_of (flush_key 2600 key (run_events parts collector)).0 ≡ 11 ∷ 12 ∷ []
unfolding flush_key get run_events put
orders = refl

abbrev item : ℕ → ℕ → MediaItem
item id order = record (media_item_default MediaType.photo) {
  source_message_id = some id;
  order = order;
}

abbrev merged : NormalizedMessage
merged = record (photo 11) {
  media_type = MediaType.album;
  media_items = item 11 0 ∷ item 12 1 ∷ [];
  raw_metadata = ("album_size", Metadata.int 2) ∷ [];
  album_message_ids = 11 ∷ 12 ∷ [];
}

hands_on : (flush_key 2600 key (run_events parts collector)).0 ≡ some merged
unfolding flush_key get run_events put
hands_on = refl

flush_key-Rising_example : Rising merged.album_message_ids
flush_key-Rising_example = flush_key-Rising parts collector 2600 key merged refl hands_on

no_recent : get key (purge_recent 30 collector).recent ≡ none
unfolding get purge_recent
no_recent = refl

-- Parts of the group, one of them twice, and the flush of another group.
abbrev meanwhile : List AlbumEvent
meanwhile = adds 40 (photo 12) ∷ flushes 50 (chat, 9) ∷ adds 60 (photo 11) ∷ adds 70 (photo 12) ∷ []

add-flush_key_example :
    (a : NormalizedMessage) × ((flush_key 9000 key
        (run_events meanwhile (add 30 (photo 10) collector).1)).0
      ≡ some a)
    × (exists (λ (j : ℕ). j == 10) a.album_message_ids ≡ true)
add-flush_key_example =
    add-flush_key 30 9000 8 (photo 10) collector meanwhile refl no_recent
      (tt, (refl, (tt, (tt, tt))))
