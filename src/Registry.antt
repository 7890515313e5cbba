-- ===== src/Registry.antt =====
-- app/database/models.py, the tables of sources, targets and their links, with the look-ups of
-- app/database/repositories/channel_repo.py and the load of app/services/channel_service.py. The
-- rows of a table are in the order of their ids. A link has no id here: a new one comes last.
-- Columns of times and permissions are left out.
pub mod Replace
pub mod Links
pub mod Sources
pub mod Targets
pub mod Inserted
pub mod Routes
pub mod Removed
pub mod Subscribed
pub mod Primary
pub mod Aligned
pub mod Kept
pub mod Runs
pub mod Assigned
use tg_forwarder.Prelude.{
  ℕ, Bool, true, false, ◌&&◌, Option, none, some, List, [], ◌∷◌, map, ◌==◌, if◌then◌else◌,
}
use tg_forwarder.Prelude.Chats.{ℤ, pos, same_chat}
use tg_forwarder.Host.{Text}
use tg_forwarder.Message.{PublishMode, TargetBackend}
use tg_forwarder.Channels.{
  SourceChannel, TargetChannel, SourceTargetLink, ApiEndpoint, SourceApiEndpointLink, Routing,
}

pub record SourceRow : Type 0 where
  pub id : ℕ
  pub chat_id : ℤ
  pub username : Option Text
  pub title : Option Text
  pub enabled : Bool
  pub publish_mode : PublishMode
  pub target_channel_id : Option ℤ
  pub access_status : Text
  pub processing_profile : Text

pub record TargetRow : Type 0 where
  pub id : ℕ
  pub target_backend : TargetBackend
  pub chat_id : ℤ
  pub username : Option Text
  pub title : Option Text
  pub enabled : Bool
  pub access_status : Text
  pub default_footer : Option Text

pub record LinkRow : Type 0 where
  pub source_id : ℕ
  pub target_id : ℕ

pub record Tables : Type 0 where
  pub sources : List SourceRow
  pub targets : List TargetRow
  pub links : List LinkRow
  pub endpoints : List ApiEndpoint
  pub api_links : List SourceApiEndpointLink

-- `ChannelServiceError` by its code, and the `IntegrityError` of the database.
pub data ChannelServiceError : Type 0 where
  not_found conflict not_accessible validation_error integrity : ChannelServiceError

-- The first row with a property.
abbrev pub first {ℓ} : {A : Type ℓ} → (A → Bool) → List A → Option A
first p [] = none
first p (x ∷ xs) = let rest = first p xs in if p x then some x else rest

-- An id or a chat id of a request.
abbrev pub is_source : ℤ → SourceRow → Bool
is_source ref s = same_chat (pos s.id) ref

abbrev pub is_target : ℤ → TargetRow → Bool
is_target ref t = same_chat (pos t.id) ref

-- `get_by_id`, `get_by_chat_id`, `get_target_by_id`, `get_target_by_chat_id`.
unfoldable pub get_by_id : ℤ → List SourceRow → Option SourceRow
get_by_id ref sources = first (is_source ref) sources

unfoldable pub get_by_chat_id : ℤ → List SourceRow → Option SourceRow
get_by_chat_id chat sources = first (λ (s : SourceRow). same_chat s.chat_id chat) sources

unfoldable pub get_target_by_id : ℤ → List TargetRow → Option TargetRow
get_target_by_id ref targets = first (is_target ref) targets

abbrev pub same_backend : TargetBackend → TargetBackend → Bool
same_backend TargetBackend.telegram TargetBackend.telegram = true
same_backend TargetBackend.safew TargetBackend.safew = true
same_backend _ _ = false

unfoldable pub get_target_by_chat_id : ℤ → TargetBackend → List TargetRow → Option TargetRow
get_target_by_chat_id chat backend targets =
    first (λ (t : TargetRow). same_chat t.chat_id chat && same_backend t.target_backend backend)
      targets

-- `str(title) if title else None`.
abbrev pub or_no_title : Option Text → Option Text
or_no_title (some []) = none
or_no_title title = title

-- The columns that routing reads.
abbrev pub as_source : SourceRow → SourceChannel
as_source s = record { id = s.id; chat_id = s.chat_id; enabled = s.enabled }

abbrev pub as_target : TargetRow → TargetChannel
as_target t = record {
  id = t.id;
  target_backend = t.target_backend;
  chat_id = t.chat_id;
  title = or_no_title t.title;
  enabled = t.enabled;
}

abbrev pub target_if : Option TargetRow → Option TargetChannel
target_if none = none
target_if (some t) = some (as_target t)

-- The outer join of `_load_target_map`.
abbrev pub joined : List TargetRow → LinkRow → SourceTargetLink
joined targets l = record {
  source_id = l.source_id;
  target = target_if (get_target_by_id (pos l.target_id) targets);
}

-- `load_from_db`, at a time.
unfoldable pub load_from_db : ℕ → Tables → Routing
unfolding get_target_by_id
load_from_db now db = record {
  now = now;
  sources = map as_source db.sources;
  links = map (joined db.targets) db.links;
  endpoints = db.endpoints;
  api_links = db.api_links;
}

-- The commit of a change to a source or a target.
unfoldable pub change_source : ℕ → (SourceRow → SourceRow) → List SourceRow → List SourceRow
change_source i f [] = []
change_source i f (s ∷ ss) = (if s.id == i then f s else s) ∷ change_source i f ss

unfoldable pub change_target : ℕ → (TargetRow → TargetRow) → List TargetRow → List TargetRow
change_target i f [] = []
change_target i f (t ∷ ts) = (if t.id == i then f t else t) ∷ change_target i f ts
