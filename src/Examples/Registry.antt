-- ===== src/Examples/Registry.antt =====
-- Tests and cases for the sources, the targets and their links.
use tg_forwarder.Backends.{source_backend_for_chat_id}
use tg_forwarder.Prelude.{
  ◌||◌, ◌++◌, exists, arith, ℕ, ◌≡◌, refl, true, false, none, some, [], ◌∷◌, ◌==◌, List, ok, err,
}
use tg_forwarder.Prelude.Chats.{ℤ, pos, negsuc, same_chat}
use tg_forwarder.Host.{codes}
use tg_forwarder.Message.{PublishMode, TargetBackend}
use tg_forwarder.Channels.{get_target_routes_for}
use tg_forwarder.Registry.{
  SourceRow, TargetRow, LinkRow, Tables, ChannelServiceError, get_by_id, get_by_chat_id,
  get_target_by_id, change_source, load_from_db,
}
use tg_forwarder.Registry.Links.{
  sorted, set_target_sources, delete_target, wanted_ids, is_in, get_linked_source_ids, linked_chats,
}
use tg_forwarder.Registry.Replace.{
  resolve_ref, resolve_targets, insert_links, distinct, replace_source_links, set_source_targets,
  set_source_destinations, chats_of,
}
use tg_forwarder.Registry.Sources.{SourceData, create_source}
use tg_forwarder.Registry.Targets.{ConfigRow, sync_from_config_rows}
use tg_forwarder.Registry.Inserted.{set_source_targets-integrity}
use tg_forwarder.Registry.Removed.{delete_target-routes, elsewhere_routed}
use tg_forwarder.Registry.Assigned.{Assigned, named, set_source_destinations-Assigned}
use tg_forwarder.Registry.Subscribed.{set_target_sources-Linked}
use tg_forwarder.Registry.Primary.{Reorders}
use tg_forwarder.Registry.Aligned.{IsAligned}
use tg_forwarder.Registry.Runs.{Change, run, run-IsAligned}
use tg_forwarder.Examples.Data.{chat}

abbrev source : SourceRow
source = record {
  id = 1;
  chat_id = chat;
  username = none;
  title = none;
  enabled = true;
  publish_mode = PublishMode.auto;
  target_channel_id = some (negsuc 500);
  access_status = codes "ok";
  processing_profile = codes "news";
}

abbrev target : ℕ → ℕ → TargetRow
target id n = record {
  id = id;
  target_backend = TargetBackend.telegram;
  chat_id = negsuc n;
  username = none;
  title = none;
  enabled = true;
  access_status = codes "ok";
  default_footer = none;
}

abbrev link : ℕ → ℕ → LinkRow
link s t = record { source_id = s; target_id = t }

-- One source, which is linked to the first of two targets.
abbrev tables : Tables
tables = record {
  sources = source ∷ [];
  targets = target 3 500 ∷ target 4 600 ∷ [];
  links = link 1 3 ∷ [];
  endpoints = [];
  api_links = [];
}

-- The targets 4 and 3 are given, 4 twice.
abbrev refs : List ℤ
refs = pos 4 ∷ pos 3 ∷ pos 4 ∷ []

dropped_repetition : distinct refs ≡ pos 4 ∷ pos 3 ∷ []
unfolding distinct
dropped_repetition = refl

refused : set_source_targets 1 refs tables ≡ err ChannelServiceError.integrity
unfolding set_source_targets get_by_id insert_links resolve_targets resolve_ref get_target_by_id
refused = refl

abbrev new_data : SourceData
new_data = record {
  chat_id = negsuc 98;
  username = none;
  title = none;
  enabled = true;
  publish_mode = PublishMode.review;
  processing_profile = none;
  target_ids = pos 4 ∷ pos 4 ∷ [];
}

-- A `create_source` that raises leaves the source, without links.
half_created : (create_source none 2 new_data tables).0 ≡ err ChannelServiceError.integrity
unfolding create_source get_by_chat_id replace_source_links insert_links resolve_targets resolve_ref
    get_target_by_id
half_created = refl

half_created_links : (create_source none 2 new_data tables).1.links ≡ tables.links
unfolding create_source get_by_chat_id replace_source_links insert_links resolve_targets resolve_ref
    get_target_by_id
half_created_links = refl

abbrev discovered : ConfigRow
discovered = record {
  chat_id = chat;
  username = none;
  title = none;
  enabled = none;
  publish_mode = none;
}

-- A source that is registered again loses its profile.
profile_lost :
    sync_from_config_rows ((9, discovered) ∷ []) (source ∷ [])
    ≡ record source { processing_profile = codes "default" } ∷ []
unfolding sync_from_config_rows get_by_chat_id source_backend_for_chat_id
profile_lost = refl

set_source_destinations-Assigned_example :
    (db' : Tables) × (set_source_destinations 1 refs [] tables
      ≡ ok (distinct refs, chats_of (named tables.targets (distinct refs)), distinct [], db'))
    × Assigned 1 refs tables 0 db'
unfolding get_by_id distinct
set_source_destinations-Assigned_example =
    set_source_destinations-Assigned 1 refs tables [] 0 refl refl refl

set_source_targets-integrity_example :
    set_source_targets 1 refs tables ≡ err ChannelServiceError.integrity
unfolding get_by_id resolve_targets resolve_ref get_target_by_id
set_source_targets-integrity_example = (set_source_targets-integrity 1 refs tables refl).1 refl

abbrev without : Tables
without = record tables {
  targets = target 4 600 ∷ [];
  links = [];
  sources = record source { target_channel_id = none } ∷ [];
}

deleted : delete_target 3 tables ≡ ok without
unfolding delete_target get_target_by_id change_source linked_chats
deleted = refl

delete_target-routes_example :
    get_target_routes_for chat (load_from_db 0 without)
    ≡ elsewhere_routed 3 (get_target_routes_for chat (load_from_db 0 tables))
delete_target-routes_example = delete_target-routes 3 tables without 0 chat deleted

-- A database that gives the rows backwards.
abbrev reversed : List ℤ → List ℤ
reversed [] = []
reversed (c ∷ cs) = reversed cs ++ c ∷ []

exists-end :
    (c d : ℤ) (cs : List ℤ)
    → exists (same_chat c) (cs ++ d ∷ []) ≡ (same_chat c d || exists (same_chat c) cs)
exists-end c d [] = refl
exists-end c d (e ∷ cs) = ground (arith, exists-end c d cs)

reversed-Reorders : Reorders reversed
reversed-Reorders [] c = refl
reversed-Reorders (d ∷ cs) c = ground (arith, reversed-Reorders cs c, exists-end c d (reversed cs))

set_target_sources-Linked_example :
    (db' : Tables) × (set_target_sources reversed 4 (chat ∷ []) tables
      ≡ ok (sorted (wanted_ids tables.sources (chat ∷ []) []), db'))
    × ((i : ℕ)
        → is_in (get_linked_source_ids 4 db') i
          ≡ is_in (wanted_ids tables.sources (chat ∷ []) []) i)
    × ((j : ℕ) → (j == 4) ≡ false → get_linked_source_ids j db' ≡ get_linked_source_ids j tables)
unfolding get_target_by_id
set_target_sources-Linked_example = set_target_sources-Linked reversed 4 (chat ∷ []) tables refl

abbrev changes : List Change
changes =
    Change.target_sources reversed 4 (chat ∷ [])
    ∷ Change.source_destinations 1 refs []
    ∷ Change.source_targets 1 refs
    ∷ Change.target_deleted 4
    ∷ []

tables-IsAligned : IsAligned tables
unfolding get_target_by_id linked_chats
tables-IsAligned = record { indexed = (refl, (refl, tt)); primary = (refl, tt) }

run-IsAligned_example : IsAligned (run changes tables)
run-IsAligned_example =
    run-IsAligned changes tables (reversed-Reorders, (tt, (tt, (tt, tt)))) tables-IsAligned
