-- ===== src/Registry/Replace.antt =====
-- app/services/channel_service.py: the operations that set the links of a source. Each is one
-- transaction: an exception leaves the tables as they were.
use tg_forwarder.Prelude.{
  ℕ, Bool, true, ◌&&◌, not, Option, none, some, List, [], ◌∷◌, ◌++◌, map, ◌==◌, if◌then◌else◌, keep,
  exists, is_some, Result, ok, err, ◌>>=◌, ◌>>◌, guard,
}
use tg_forwarder.Prelude.Chats.{ℤ, pos, same_chat}
use tg_forwarder.Message.{TargetBackend}
use tg_forwarder.Channels.{ApiEndpoint, SourceApiEndpointLink}
use tg_forwarder.Registry.{
  SourceRow, TargetRow, LinkRow, Tables, ChannelServiceError, get_by_id, get_target_by_id,
  get_target_by_chat_id, change_source,
}
use ChannelServiceError.{not_found, validation_error, integrity}

-- The target that a reference names: a database id, or else the chat id of a Telegram target.
unfoldable pub resolve_ref : List TargetRow → ℤ → Option TargetRow
resolve_ref targets ref = elim (get_target_by_id ref targets) [
  | some t ↦ some t
  | none ↦ get_target_by_chat_id ref TargetBackend.telegram targets
]

abbrev pub cons_if : Option TargetRow → List TargetRow → List TargetRow
cons_if none rest = rest
cons_if (some t) rest = t ∷ rest

-- `_resolve_target_db_ids` and `_resolve_target_chat_ids`, which take the ids and the chats of
-- these.
unfoldable pub resolve_targets : List TargetRow → List ℤ → List TargetRow
resolve_targets targets [] = []
resolve_targets targets (ref ∷ refs) =
    cons_if (resolve_ref targets ref) (resolve_targets targets refs)

abbrev pub of_source : ℕ → LinkRow → Bool
of_source source_id l = l.source_id == source_id

abbrev pub of_target : ℕ → LinkRow → Bool
of_target target_id l = l.target_id == target_id

abbrev pub same_link : LinkRow → LinkRow → Bool
same_link a b = a.source_id == b.source_id && a.target_id == b.target_id

-- The flush of new rows, under the constraint `uq_source_target_link`.
unfoldable pub insert_links :
    List LinkRow → List LinkRow → Result ChannelServiceError (List LinkRow)
insert_links [] links = ok links
insert_links (l ∷ ls) links =
    if exists (same_link l) links then err integrity else insert_links ls (links ++ l ∷ [])

abbrev pub first_chat : List ℤ → Option ℤ
first_chat [] = none
first_chat (c ∷ cs) = some c

abbrev pub set_primary : Option ℤ → SourceRow → SourceRow
set_primary primary s = record s { target_channel_id = primary }

abbrev pub links_of : ℕ → List TargetRow → List LinkRow
links_of source_id [] = []
links_of source_id (t ∷ ts) =
    record { source_id = source_id; target_id = t.id } ∷ links_of source_id ts

abbrev pub chats_of : List TargetRow → List ℤ
chats_of ts = map (λ (t : TargetRow). t.chat_id) ts

-- `_replace_source_links`: the chats of the targets, and the tables.
unfoldable pub replace_source_links :
    ℕ → List ℤ → Tables → Result ChannelServiceError (List ℤ × Tables)
replace_source_links source_id refs db = do
  let found = resolve_targets db.targets refs
  let kept = keep (λ (l : LinkRow). not (of_source source_id l)) db.links
  links ← insert_links (links_of source_id found) kept
  ok (
    chats_of found,
    record db {
      links = links;
      sources = change_source source_id (set_primary (first_chat (chats_of found))) db.sources;
    },
  )

-- `set_source_targets`.
unfoldable pub set_source_targets :
    ℕ → List ℤ → Tables → Result ChannelServiceError (List ℤ × Tables)
unfolding replace_source_links
set_source_targets source_id refs db = do
  guard (is_some (get_by_id (pos source_id) db.sources)) not_found
  replace_source_links source_id refs db

-- `list(dict.fromkeys(values))`, which keeps the first of equal values.
unfoldable pub distinct : List ℤ → List ℤ
distinct [] = []
distinct (v ∷ vs) = v ∷ keep (λ w. not (same_chat v w)) (distinct vs)

-- `session.get(…) is None` for none of the ids.
abbrev pub all_found {ℓ} : {A : Type ℓ} → (ℤ → A → Bool) → List A → List ℤ → Bool
all_found is rows [] = true
all_found is rows (ref ∷ refs) = exists (is ref) rows && all_found is rows refs

abbrev pub is_endpoint : ℤ → ApiEndpoint → Bool
is_endpoint ref e = same_chat (pos e.id) ref

abbrev pub is_row : ℤ → TargetRow → Bool
is_row ref t = same_chat (pos t.id) ref

-- The new rows of `source_api_endpoint_links`: ids that were found are not negative.
abbrev pub api_links_of : ℕ → List ℤ → List SourceApiEndpointLink
api_links_of source_id [] = []
api_links_of source_id (ref ∷ refs) = elim ref [
  | pos i ↦ record { source_id = source_id; api_endpoint_id = i } ∷ api_links_of source_id refs
  | _ ↦ api_links_of source_id refs
]

abbrev pub with_api_links : ℕ → List ℤ → Tables → Tables
with_api_links source_id refs db = record db {
  api_links =
      keep (λ (l : SourceApiEndpointLink). not (l.source_id == source_id)) db.api_links
      ++ api_links_of source_id refs;
}

-- `set_source_destinations`: the ids of the targets, their chats, the ids of the endpoints and the
-- tables.
unfoldable pub set_source_destinations :
    ℕ → List ℤ → List ℤ → Tables → Result ChannelServiceError (List ℤ × List ℤ × List ℤ × Tables)
unfolding replace_source_links distinct
set_source_destinations source_id target_ids api_endpoint_ids db = do
  guard (is_some (get_by_id (pos source_id) db.sources)) not_found
  let linked = distinct target_ids
  guard (all_found is_row db.targets linked) validation_error
  replaced ← replace_source_links source_id linked db
  let requested = distinct api_endpoint_ids
  guard (all_found is_endpoint db.endpoints requested) validation_error
  ok (linked, replaced.0, requested, with_api_links source_id requested replaced.1)
