-- ===== src/Registry/Sources.antt =====
-- app/services/channel_service.py: sources and targets are created and updated, with the upserts of
-- app/database/repositories/channel_repo.py and the check of access. A `Client` is
-- `check_channel_accessible` with a connected Telegram client. The id of a new row is what the
-- database gives, an argument here. The load of the cache after each operation is `load_from_db`.
use tg_forwarder.Prelude.{
  ℕ, Bool, true, false, not, ◌&&◌, Option, none, some, List, [], ◌∷◌, ◌++◌, if◌then◌else◌, is_some,
  Result, ok, err,
}
use tg_forwarder.Prelude.Chats.{ℤ, pos}
use tg_forwarder.Host.{Text, codes, same_text}
use tg_forwarder.Message.{PublishMode, TargetBackend}
use tg_forwarder.Backends.{SourceBackend, source_backend_for_chat_id}
use tg_forwarder.Registry.{
  SourceRow, Tables, ChannelServiceError, get_by_id, get_by_chat_id, change_source,
}
use tg_forwarder.Registry.Replace.{
  resolve_targets, chats_of, first_chat, set_primary, replace_source_links,
}
use ChannelServiceError.{not_found, conflict, not_accessible, validation_error}

pub record Found : Type 0 where
  pub accessible : Bool
  pub username : Option Text
  pub title : Option Text

abbrev pub Client : Type 0
Client = Option (ℤ → Option Text → Found)

pub record Access : Type 0 where
  pub status : Text
  pub username : Option Text
  pub title : Option Text

-- `a or b` on texts.
abbrev pub or_text : Option Text → Option Text → Option Text
or_text none b = b
or_text (some []) b = b
or_text (some (c ∷ cs)) b = some (c ∷ cs)

-- `_resolve_access`.
unfoldable pub resolve_access : Client → ℤ → Option Text → Access
resolve_access none chat username = record {
  status = codes "unknown";
  username = username;
  title = none;
}
resolve_access (some check) chat username =
    let result = check chat username in
    record {
      status = if result.accessible then codes "ok" else codes "missing";
      username = or_text result.username username;
      title = result.title;
    }

abbrev pub is_telegram : SourceBackend → Bool
is_telegram SourceBackend.telegram = true
is_telegram _ = false

abbrev pub is_telegram_target : TargetBackend → Bool
is_telegram_target TargetBackend.telegram = true
is_telegram_target _ = false

-- `_resolve_source_access`.
unfoldable pub resolve_source_access : Client → ℤ → Option Text → Access
unfolding source_backend_for_chat_id resolve_access
resolve_source_access client chat username =
    if is_telegram (source_backend_for_chat_id chat)
    then resolve_access client chat username
    else record { status = codes "ok"; username = username; title = none }

abbrev pub is_missing : Text → Bool
is_missing status = same_text status (codes "missing")

-- The arguments of `ChannelRepository.upsert`; no caller gives `target_channel_id`.
pub record SourceUpsert : Type 0 where
  pub chat_id : ℤ
  pub username : Option Text
  pub title : Option Text
  pub enabled : Bool
  pub processing_profile : Text
  pub publish_mode : Option PublishMode
  pub access_status : Option Text

abbrev pub or_default {ℓ} : {A : Type ℓ} → Option A → A → A
or_default none d = d
or_default (some a) d = a

abbrev pub or_old {ℓ} : {A : Type ℓ} → Option A → Option A → Option A
or_old none old = old
or_old (some a) old = some a

-- `access_status or "unknown"`.
abbrev pub status_or_unknown : Option Text → Text
status_or_unknown none = codes "unknown"
status_or_unknown (some []) = codes "unknown"
status_or_unknown (some (c ∷ cs)) = c ∷ cs

abbrev pub new_source : ℕ → SourceUpsert → SourceRow
new_source id u = record {
  id = id;
  chat_id = u.chat_id;
  username = u.username;
  title = u.title;
  enabled = u.enabled;
  publish_mode = or_default u.publish_mode PublishMode.review;
  target_channel_id = none;
  access_status = status_or_unknown u.access_status;
  processing_profile = u.processing_profile;
}

abbrev pub merged_source : SourceUpsert → SourceRow → SourceRow
merged_source u s = record s {
  username = or_old u.username s.username;
  title = or_old u.title s.title;
  enabled = u.enabled;
  processing_profile = u.processing_profile;
  publish_mode = or_default u.publish_mode s.publish_mode;
  access_status = or_default u.access_status s.access_status;
}

-- `upsert`.
unfoldable pub upsert : ℕ → SourceUpsert → List SourceRow → List SourceRow
unfolding change_source
upsert new_id u sources = elim (get_by_chat_id u.chat_id sources) [
  | none ↦ sources ++ new_source new_id u ∷ []
  | some s ↦ change_source s.id (merged_source u) sources
]

-- The request of `create_source`; the mode is checked by the route before.
pub record SourceData : Type 0 where
  pub chat_id : ℤ
  pub username : Option Text
  pub title : Option Text
  pub enabled : Bool
  pub publish_mode : PublishMode
  pub processing_profile : Option Text
  -- `target_ids`, or else `target_chat_ids`.
  pub target_ids : List ℤ

abbrev profile_or_default : Option Text → Text
profile_or_default none = codes "default"
profile_or_default (some []) = codes "default"
profile_or_default (some (c ∷ cs)) = c ∷ cs

abbrev pub source_upsert : SourceData → Access → SourceUpsert
source_upsert data_ access = record {
  chat_id = data_.chat_id;
  username = or_text data_.username access.username;
  title = or_text data_.title access.title;
  enabled = data_.enabled && not (is_missing access.status);
  processing_profile = profile_or_default data_.processing_profile;
  publish_mode = some data_.publish_mode;
  access_status = some access.status;
}

-- The first commit of `create_source`: the row, with its first target.
unfoldable pub insert_source : ℕ → SourceData → Access → Tables → Tables
unfolding upsert
insert_source new_id data_ access db =
    let primary = first_chat (chats_of (resolve_targets db.targets data_.target_ids)) in
    record db {
      sources =
          change_source new_id (set_primary primary)
            (upsert new_id (source_upsert data_ access) db.sources);
    }

-- The second commit; where it fails, the first one stays.
unfoldable pub link_source : ℕ → List ℤ → Tables → Result ChannelServiceError ℕ × Tables
link_source new_id [] db = (ok new_id, db)
link_source new_id (ref ∷ refs) db = elim (replace_source_links new_id (ref ∷ refs) db) [
  | err e ↦ (err e, db)
  | ok r ↦ (ok new_id, r.1)
]

-- `create_source`: the id of the source or the exception, and the tables.
unfoldable pub create_source :
    Client → ℕ → SourceData → Tables → Result ChannelServiceError ℕ × Tables
unfolding resolve_source_access insert_source link_source
create_source client new_id data_ db =
    if is_some (get_by_chat_id data_.chat_id db.sources)
    then (err conflict, db)
    else link_source new_id data_.target_ids
        (insert_source new_id data_ (resolve_source_access client data_.chat_id data_.username) db)

-- The request of `update_source`: a field is `some` when its key is in the data, and for the last
-- three when its value is not `None`. A mode that is no publish mode is `some none`.
pub record SourcePatch : Type 0 where
  pub username : Option (Option Text)
  pub title : Option (Option Text)
  pub enabled : Option Bool
  pub publish_mode : Option (Option PublishMode)
  pub processing_profile : Option Text
  pub access_status : Option Text

-- The access status after `enabled` was asked for; `None` is that it is refused.
abbrev pub enabled_access : Option Bool → Bool → Bool → Text → Text → Option Text
enabled_access (some true) false missing status checked = some (codes "ok")
enabled_access (some true) true true status checked =
    if is_missing checked then none else some checked
enabled_access _ _ _ status checked = some status

abbrev pub mode_after : Option (Option PublishMode) → PublishMode → Option PublishMode
mode_after none old = some old
mode_after (some mode) old = mode

-- The row after `update_source`, or the exception.
unfoldable pub patched_source :
    Client → SourcePatch → SourceRow → Result ChannelServiceError SourceRow
unfolding source_backend_for_chat_id resolve_access
patched_source client p s =
    let username = or_default p.username s.username in
    let checked = resolve_access client s.chat_id username in
    let telegram = is_telegram (source_backend_for_chat_id s.chat_id) in
    elim (enabled_access p.enabled telegram (is_missing s.access_status) s.access_status
      checked.status) [
        | none ↦ err not_accessible
        | some status ↦ elim (mode_after p.publish_mode s.publish_mode) [
          | none ↦ err validation_error
          | some mode ↦ ok (record s {
            username = username;
            title = or_default p.title s.title;
            enabled = or_default p.enabled s.enabled;
            publish_mode = mode;
            processing_profile = or_default p.processing_profile s.processing_profile;
            access_status = or_default p.access_status status;
          })
        ]
      ]

-- `update_source`.
unfoldable pub update_source : Client → ℕ → SourcePatch → Tables → Result ChannelServiceError Tables
unfolding patched_source
update_source client source_id p db = elim (get_by_id (pos source_id) db.sources) [
  | none ↦ err not_found
  | some s ↦ elim (patched_source client p s) [
    | err e ↦ err e
    | ok s' ↦ ok (record db { sources = change_source source_id (λ _. s') db.sources })
  ]
]
