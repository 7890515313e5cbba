-- ===== src/Publish/Routes.antt =====
-- app/review/publish.py: the snapshot of targets of a task against the current routing.
use tg_forwarder.Prelude.{
  ℕ, Bool, not, ◌&&◌, Option, none, some, List, [], ◌∷◌, map, ◌==◌, if◌then◌else◌, keep, exists,
  is_empty,
}
use tg_forwarder.Prelude.Chats.{ℤ, pos, same_chat}
use tg_forwarder.Message.{TargetBackend, TargetRoute}
use tg_forwarder.Channels.{
  Routing, is_configured, is_enabled, get_target_routes_for, get_targets_for, active_endpoint_ids,
}
use tg_forwarder.Review.Store.{ReviewTask}

-- `list(dict.fromkeys(xs))`.
unfoldable pub dedup {ℓ} : {A : Type ℓ} → (A → A → Bool) → List A → List A
dedup same [] = []
dedup same (x ∷ xs) = x ∷ keep (λ y. not (same x y)) (dedup same xs)

abbrev pub among : ℤ → List ℤ → Bool
among c cs = exists (same_chat c) cs

-- `remaining.remove(chat)`.
unfoldable pub remove_chat : ℤ → List ℤ → List ℤ
remove_chat c [] = []
remove_chat c (d ∷ ds) = let rest = remove_chat c ds in if same_chat c d then ds else d ∷ rest

unfoldable pub current_targets : ReviewTask → List ℤ → Routing → List ℤ
current_targets task snapshot_targets r =
    if is_configured task.source_chat_id r && is_enabled task.source_chat_id r
    then keep (λ c. among c (get_targets_for task.source_chat_id r))
        (dedup same_chat snapshot_targets)
    else []

unfoldable pub current_api_targets : ReviewTask → List ℕ → Routing → List ℕ
current_api_targets task ids r = active_endpoint_ids task.source_chat_id ids r

abbrev telegram_route : ℤ → TargetRoute
telegram_route c = record {
  id = c;
  target_backend = TargetBackend.telegram;
  chat_id = c;
  title = none;
}

-- The loop over `available`, for rows that only stored chat ids.
unfoldable pub resolve_legacy : List TargetRoute → List ℤ → List TargetRoute
unfolding remove_chat
resolve_legacy [] remaining = map telegram_route remaining
resolve_legacy (r ∷ rs) remaining =
    let taken = resolve_legacy rs (remove_chat r.chat_id remaining) in
    let passed = resolve_legacy rs remaining in
    if among r.chat_id remaining then r ∷ taken else passed

-- `active.get(target_id)`: a later route with the same id replaces an earlier one.
unfoldable pub find_route : ℕ → List TargetRoute → Option TargetRoute
find_route i [] = none
find_route i (r ∷ rs) = elim (find_route i rs) [
  | none ↦ (if same_chat r.id (pos i) then some r else none)
  | some found ↦ some found
]

abbrev some_of : Option TargetRoute → List TargetRoute → List TargetRoute
some_of none rs = rs
some_of (some r) rs = r ∷ rs

unfoldable pub resolve : List TargetRoute → List ℕ → List TargetRoute
unfolding find_route
resolve routes [] = []
resolve routes (i ∷ ids) = some_of (find_route i routes) (resolve routes ids)

unfoldable pub destination_routes : ReviewTask → List ℕ → List ℤ → Routing → List TargetRoute
unfolding current_targets
destination_routes task [] snapshot_chat_ids r =
    resolve_legacy (get_target_routes_for task.source_chat_id r)
      (current_targets task snapshot_chat_ids r)
destination_routes task (i ∷ ids) snapshot_chat_ids r =
    if is_configured task.source_chat_id r && is_enabled task.source_chat_id r
    then resolve (get_target_routes_for task.source_chat_id r) (dedup ◌==◌ (i ∷ ids))
    else []

pub data BlockReason : Type 0 where
  review_source_disabled no_current_review_target : BlockReason

unfoldable pub routing_block_reason :
    ReviewTask → List TargetRoute → List ℕ → Routing → Option BlockReason
routing_block_reason task targets api_targets r =
    if is_configured task.source_chat_id r && not (is_enabled task.source_chat_id r)
    then some review_source_disabled
    else (if is_empty targets && is_empty api_targets then some no_current_review_target else none)
