-- ===== src/Registry/Targets.antt =====
-- app/services/channel_service.py: targets are created and updated, and the sources that the SafeW
-- and API listeners discover are registered.
use tg_forwarder.Prelude.{
  ℕ, Bool, true, not, ◌&&◌, Option, none, some, List, [], ◌∷◌, ◌++◌, if◌then◌else◌, is_some, Result,
  ok, err,
}
use tg_forwarder.Prelude.Chats.{ℤ, pos}
use tg_forwarder.Host.{Text, codes}
use tg_forwarder.Message.{PublishMode, TargetBackend}
use tg_forwarder.Backends.{source_backend_for_chat_id}
use tg_forwarder.Registry.{
  SourceRow, TargetRow, Tables, ChannelServiceError, get_by_chat_id, get_target_by_id,
  get_target_by_chat_id, change_target,
}
use tg_forwarder.Registry.Sources.{
  Client, Access, SourceUpsert, or_text, or_default, resolve_access, is_telegram,
  is_telegram_target, is_missing, status_or_unknown, upsert,
}
use ChannelServiceError.{not_found, conflict, not_accessible, validation_error}

-- The request of `create_target`; a backend that is none is `none`.
pub record TargetData : Type 0 where
  pub chat_id : ℤ
  pub target_backend : Option TargetBackend
  pub username : Option Text
  pub title : Option Text
  pub enabled : Bool
  pub default_footer : Option Text

-- The access of a new target: only Telegram targets are looked up.
unfoldable pub target_access : Client → TargetBackend → TargetData → Access
unfolding resolve_access
target_access client backend data_ =
    if is_telegram_target backend
    then resolve_access client data_.chat_id data_.username
    else record { status = codes "unknown"; username = data_.username; title = data_.title }

-- The row that `create_target` inserts.
abbrev pub new_target : ℕ → TargetBackend → TargetData → Access → TargetRow
new_target id backend data_ access = record {
  id = id;
  target_backend = backend;
  chat_id = data_.chat_id;
  username = or_text data_.username access.username;
  title = or_text data_.title access.title;
  enabled = data_.enabled && not (is_telegram_target backend && is_missing access.status);
  access_status = status_or_unknown (some access.status);
  default_footer = data_.default_footer;
}

-- `create_target`: its `upsert_target` finds no row.
unfoldable pub create_target :
    Client → ℕ → TargetData → Tables → Result ChannelServiceError (ℕ × Tables)
unfolding target_access
create_target client new_id data_ db = elim data_.target_backend [
  | none ↦ err validation_error
  | some backend ↦
      (if is_some (get_target_by_chat_id data_.chat_id backend db.targets)
        then err conflict
        else ok (
          new_id,
          record db {
            targets =
                db.targets
                ++ new_target new_id backend data_ (target_access client backend data_) ∷ [];
          },
        ))
]

-- The request of `update_target`, as for a source.
pub record TargetPatch : Type 0 where
  pub username : Option (Option Text)
  pub title : Option (Option Text)
  pub enabled : Option Bool
  pub default_footer : Option (Option Text)
  pub access_status : Option Text

abbrev pub enabled_target : Option Bool → Bool → Text → Text → Option Text
enabled_target (some true) true status checked = if is_missing checked then none else some checked
enabled_target _ _ status checked = some status

-- The row after `update_target`, or the exception.
unfoldable pub patched_target :
    Client → TargetPatch → TargetRow → Result ChannelServiceError TargetRow
unfolding resolve_access
patched_target client p t =
    let username = or_default p.username t.username in
    let checked = resolve_access client t.chat_id username in
    let ask = is_telegram_target t.target_backend && is_missing t.access_status in
    elim (enabled_target p.enabled ask t.access_status checked.status) [
      | none ↦ err not_accessible
      | some status ↦ ok (record t {
        username = username;
        title = or_default p.title t.title;
        enabled = or_default p.enabled t.enabled;
        default_footer = or_default p.default_footer t.default_footer;
        access_status = or_default p.access_status status;
      })
    ]

-- `update_target`.
unfoldable pub update_target : Client → ℕ → TargetPatch → Tables → Result ChannelServiceError Tables
unfolding patched_target
update_target client target_id p db = elim (get_target_by_id (pos target_id) db.targets) [
  | none ↦ err not_found
  | some t ↦ elim (patched_target client p t) [
    | err e ↦ err e
    | ok t' ↦ ok (record db { targets = change_target target_id (λ _. t') db.targets })
  ]
]

-- A row of `sync_from_config_rows`.
pub record ConfigRow : Type 0 where
  pub chat_id : ℤ
  pub username : Option Text
  pub title : Option Text
  pub enabled : Option Bool
  pub publish_mode : Option PublishMode

abbrev was_enabled : Option SourceRow → Bool
was_enabled none = true
was_enabled (some s) = s.enabled

abbrev pub config_upsert : ConfigRow → Option SourceRow → SourceUpsert
config_upsert row existing = record {
  chat_id = row.chat_id;
  username = row.username;
  title = row.title;
  enabled = or_default row.enabled (was_enabled existing);
  processing_profile = codes "default";
  publish_mode =
      if is_some existing then none else some (or_default row.publish_mode PublishMode.review);
  access_status =
      if is_telegram (source_backend_for_chat_id row.chat_id) then none else some (codes "ok");
}

-- `sync_from_config_rows`; the ids are those that the database gives to new rows.
unfoldable pub sync_from_config_rows : List (ℕ × ConfigRow) → List SourceRow → List SourceRow
unfolding upsert
sync_from_config_rows [] sources = sources
sync_from_config_rows ((new_id, row) ∷ rows) sources =
    sync_from_config_rows rows
      (upsert new_id (config_upsert row (get_by_chat_id row.chat_id sources)) sources)
