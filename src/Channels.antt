-- ===== src/Channels.antt =====
-- app/services/channel_service.py, the cache of channels and what the publishing of a task reads of
-- it, and app/services/api_delivery_service.py, `active_endpoint_ids`. `chat_id` is unique in
-- `source_channels`, so a look-up by it takes the first row.
use tg_forwarder.Prelude.{
  ℕ, Bool, true, false, ◌&&◌, Option, none, some, List, [], ◌∷◌, map, ◌==◌, if◌then◌else◌, ltb,
  keep, exists, is_some,
}
use tg_forwarder.Prelude.Chats.{ℤ, pos, same_chat}
use tg_forwarder.Host.{Text}
use tg_forwarder.Message.{TargetBackend, TargetRoute}

-- app/database/models.py, the columns that routing reads.
pub record SourceChannel : Type 0 where
  pub id : ℕ
  pub chat_id : ℤ
  pub enabled : Bool

pub record TargetChannel : Type 0 where
  pub id : ℕ
  pub target_backend : TargetBackend
  pub chat_id : ℤ
  pub title : Option Text
  pub enabled : Bool

-- A link with the target that the outer join finds.
pub record SourceTargetLink : Type 0 where
  pub source_id : ℕ
  pub target : Option TargetChannel

pub record ApiEndpoint : Type 0 where
  pub id : ℕ
  pub enabled : Bool
  pub expires_at : Option ℕ

pub record SourceApiEndpointLink : Type 0 where
  pub source_id : ℕ
  pub api_endpoint_id : ℕ

-- The tables at one moment; the links are in the order of their ids.
pub record Routing : Type 0 where
  pub now : ℕ
  pub sources : List SourceChannel
  pub links : List SourceTargetLink
  pub endpoints : List ApiEndpoint
  pub api_links : List SourceApiEndpointLink

abbrev pub route_of : TargetChannel → TargetRoute
route_of t = record {
  id = pos t.id;
  target_backend = t.target_backend;
  chat_id = t.chat_id;
  title = t.title;
}

abbrev pub route_if : Option TargetChannel → List TargetRoute → List TargetRoute
route_if none rest = rest
route_if (some t) rest = if t.enabled then route_of t ∷ rest else rest

-- `_load_target_map`, for one source.
unfoldable pub linked_routes : ℕ → List SourceTargetLink → List TargetRoute
linked_routes source_id [] = []
linked_routes source_id (l ∷ ls) =
    let rest = linked_routes source_id ls in
    if l.source_id == source_id then route_if l.target rest else rest

unfoldable pub find_source : ℤ → List SourceChannel → Option SourceChannel
find_source chat [] = none
find_source chat (s ∷ ss) =
    let rest = find_source chat ss in if same_chat s.chat_id chat then some s else rest

-- `chat_id in configured_chat_ids`.
unfoldable pub is_configured : ℤ → Routing → Bool
is_configured chat r = is_some (find_source chat r.sources)

unfoldable pub is_enabled : ℤ → Routing → Bool
is_enabled chat r = elim (find_source chat r.sources) [ none ↦ false | some s ↦ s.enabled ]

unfoldable pub get_target_routes_for : ℤ → Routing → List TargetRoute
get_target_routes_for chat r = elim (find_source chat r.sources) [
  | none ↦ []
  | some s ↦ linked_routes s.id r.links
]

-- `_row_to_config` takes the chats of the routes.
unfoldable pub get_targets_for : ℤ → Routing → List ℤ
unfolding get_target_routes_for
get_targets_for chat r = map (λ (t : TargetRoute). t.chat_id) (get_target_routes_for chat r)

-- `_active_endpoint_clause`.
unfoldable pub is_active : ℕ → ApiEndpoint → Bool
is_active now e = e.enabled && elim e.expires_at [ none ↦ true | some t ↦ ltb now t ]

-- The rows that the joins of `active_endpoint_ids` give for one link.
abbrev active_link : ℤ → Routing → SourceApiEndpointLink → Bool
active_link chat r l =
    exists (λ (s : SourceChannel). s.id == l.source_id && (same_chat s.chat_id chat && s.enabled))
      r.sources
    && exists (λ (e : ApiEndpoint). e.id == l.api_endpoint_id && is_active r.now e) r.endpoints

-- `active_endpoint_ids`, without candidates.
unfoldable pub all_active_endpoint_ids : ℤ → Routing → List ℕ
unfolding is_active
all_active_endpoint_ids chat r =
    map (λ (l : SourceApiEndpointLink). l.api_endpoint_id) (keep (active_link chat r) r.api_links)

-- `active_endpoint_ids`, with candidates: none of them gives none.
unfoldable pub active_endpoint_ids : ℤ → List ℕ → Routing → List ℕ
unfolding is_active
active_endpoint_ids chat candidates r =
    map (λ (l : SourceApiEndpointLink). l.api_endpoint_id)
      (keep
        (λ (l : SourceApiEndpointLink).
          active_link chat r l && exists (λ (c : ℕ). c == l.api_endpoint_id) candidates)
        r.api_links)
