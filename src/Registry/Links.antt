-- ===== src/Registry/Links.antt =====
-- app/services/channel_service.py: the operations that set the sources of a target, and those that
-- delete. Each is one transaction: an exception leaves the tables as they were.
use tg_forwarder.Prelude.{
  leb, ℕ, Bool, ◌||◌, not, Option, none, some, List, [], ◌∷◌, ◌++◌, map, ◌==◌, if◌then◌else◌, keep,
  exists, is_some, Result, ok, err, ◌>>◌, guard,
}
use tg_forwarder.Prelude.Chats.{ℤ, pos, same_chat}
use tg_forwarder.Channels.{SourceApiEndpointLink}
use tg_forwarder.Registry.{
  SourceRow, TargetRow, LinkRow, Tables, ChannelServiceError, get_by_id, get_by_chat_id,
  get_target_by_id, change_source,
}
use ChannelServiceError.{not_found}
use tg_forwarder.Registry.Replace.{of_source, of_target, first_chat, set_primary}

-- The source that a reference names: a database id, or else a chat id.
unfoldable pub resolve_source : List SourceRow → ℤ → Option SourceRow
resolve_source sources ref = elim (get_by_id ref sources) [
  | some s ↦ some s
  | none ↦ get_by_chat_id ref sources
]

-- A set is a list without repetitions; its order has no influence on the links of one source.
abbrev pub insert_id : ℕ → List ℕ → List ℕ
insert_id i is = if exists (λ j. i == j) is then is else is ++ i ∷ []

abbrev pub want_if : Option SourceRow → List ℕ → List ℕ
want_if none wanted = wanted
want_if (some s) wanted = insert_id s.id wanted

unfoldable pub wanted_ids : List SourceRow → List ℤ → List ℕ → List ℕ
wanted_ids sources [] wanted = wanted
wanted_ids sources (ref ∷ refs) wanted =
    wanted_ids sources refs (want_if (resolve_source sources ref) wanted)

abbrev pub is_in : List ℕ → ℕ → Bool
is_in is i = exists (λ j. i == j) is

-- The chats of the targets that a source is linked to, in the order of the links.
abbrev pub chat_if : Option TargetRow → List ℤ → List ℤ
chat_if none rest = rest
chat_if (some t) rest = t.chat_id ∷ rest

unfoldable pub linked_chats : List TargetRow → ℕ → List LinkRow → List ℤ
linked_chats targets source_id [] = []
linked_chats targets source_id (l ∷ ls) =
    let rest = linked_chats targets source_id ls in
    if l.source_id == source_id
    then chat_if (get_target_by_id (pos l.target_id) targets) rest
    else rest

-- The column `target_channel_id` of the given sources is made the chat that comes first in the order
-- in which the database gives the rows.
unfoldable pub align :
    (List ℤ → List ℤ) → List TargetRow → List LinkRow → List ℕ → List SourceRow → List SourceRow
align order targets links [] sources = sources
align order targets links (i ∷ is) sources =
    align order targets links is
      (change_source i (set_primary (first_chat (order (linked_chats targets i links)))) sources)

-- The links of a target after `set_target_sources`: those of wanted sources stay, new ones follow.
unfoldable pub target_links : ℕ → List ℕ → List LinkRow → List LinkRow
target_links target_id wanted links =
    let there = map (λ (l : LinkRow). l.source_id) (keep (of_target target_id) links) in
    keep (λ (l : LinkRow). not (of_target target_id l) || is_in wanted l.source_id) links
    ++ map (λ i. record { source_id = i; target_id = target_id })
        (keep (λ i. not (is_in there i)) wanted)

-- `sorted(ids)`.
unfoldable pub insert_sorted : ℕ → List ℕ → List ℕ
insert_sorted i [] = i ∷ []
insert_sorted i (j ∷ js) = let rest = insert_sorted i js in if leb i j then i ∷ j ∷ js else j ∷ rest

unfoldable pub sorted : List ℕ → List ℕ
unfolding insert_sorted
sorted [] = []
sorted (i ∷ is) = insert_sorted i (sorted is)

-- `set_target_sources`: the sources, and the tables. Its query has no ORDER BY: the order of the
-- rows is the choice of the database, a parameter.
unfoldable pub set_target_sources :
    (List ℤ → List ℤ) → ℕ → List ℤ → Tables → Result ChannelServiceError (List ℕ × Tables)
unfolding wanted_ids target_links align sorted
set_target_sources order target_id refs db = do
  guard (is_some (get_target_by_id (pos target_id) db.targets)) not_found
  let wanted = wanted_ids db.sources refs []
  let there = map (λ (l : LinkRow). l.source_id) (keep (of_target target_id) db.links)
  let links = target_links target_id wanted db.links
  ok (
    sorted wanted,
    record db {
      links = links;
      sources = align order db.targets links (wanted ++ there) db.sources;
    },
  )

-- `get_linked_target_ids` and `get_linked_source_ids`.
unfoldable pub get_linked_target_ids : ℕ → Tables → List ℕ
get_linked_target_ids source_id db =
    map (λ (l : LinkRow). l.target_id) (keep (of_source source_id) db.links)

unfoldable pub get_linked_source_ids : ℕ → Tables → List ℕ
get_linked_source_ids target_id db =
    map (λ (l : LinkRow). l.source_id) (keep (of_target target_id) db.links)

-- `delete_source`; the links go with it by the cascade of their foreign key.
unfoldable pub delete_source : ℕ → Tables → Result ChannelServiceError Tables
delete_source source_id db = do
  guard (is_some (get_by_id (pos source_id) db.sources)) not_found
  ok (record db {
    sources = keep (λ (s : SourceRow). not (s.id == source_id)) db.sources;
    links = keep (λ (l : LinkRow). not (of_source source_id l)) db.links;
    api_links = keep (λ (l : SourceApiEndpointLink). not (l.source_id == source_id)) db.api_links;
  })

abbrev pub legacy_ids : ℤ → List SourceRow → List ℕ
legacy_ids chat [] = []
legacy_ids chat (s ∷ ss) =
    let rest = legacy_ids chat ss in
    elim s.target_channel_id [
      | none ↦ rest
      | some c ↦ (if same_chat c chat then s.id ∷ rest else rest)
    ]

-- `delete_target`; its query orders the rows by the links.
unfoldable pub delete_target : ℕ → Tables → Result ChannelServiceError Tables
unfolding align
delete_target target_id db = elim (get_target_by_id (pos target_id) db.targets) [
  | none ↦ err not_found
  | some t ↦
      let targets = keep (λ (q : TargetRow). not (q.id == target_id)) db.targets in
      let links = keep (λ (l : LinkRow). not (of_target target_id l)) db.links in
      let affected =
        map (λ (l : LinkRow). l.source_id) (keep (of_target target_id) db.links)
        ++ legacy_ids t.chat_id db.sources in
      ok (record db {
        targets = targets;
        links = links;
        sources = align (λ cs. cs) targets links affected db.sources;
      })
]
