-- ===== src/Publish/Sent.antt =====
-- app/review/publish.py: what `publish_task` sends, and when.
use mathlib.Core.Path.{subst}
use tg_forwarder.Prelude.{
  ℕ, suc, ◌≤◌, ◌≡◌, refl, sym, Bool, true, false, ◌&&◌, Option, none, some, List, [], ◌∷◌, ◌++◌,
  arith, All, All-append, ok, err, Bool-cases, Result-cases, Option-cases, inl, inr,
}
use tg_forwarder.Prelude.Chats.{ℤ}
use tg_forwarder.Message.{NormalizedMessage, TargetRoute}
use tg_forwarder.Channels.{Routing, is_configured, is_enabled, get_target_routes_for}
use tg_forwarder.Review.Store.{ReviewTask}
use tg_forwarder.Publish.Routes.{
  current_targets, resolve_legacy, destination_routes, current_api_targets, routing_block_reason,
}
use tg_forwarder.Publish.Bindings.{Linked, destination_routes-Linked}
use tg_forwarder.Publish.Send.{
  Failure, World, Snapshot, Sends, addressed, is_disabled, is_bound, send_one, send_turn, go_on,
  send_all,
}
use tg_forwarder.Publish.Task.{delivered, snapshot_of, queued, verdict, deliver}

resolve_legacy_none : (routes : List TargetRoute) → resolve_legacy routes [] ≡ []
unfolding resolve_legacy
resolve_legacy_none [] = refl
resolve_legacy_none (r ∷ rs) = resolve_legacy_none rs

-- A source that is off has no destinations.
destination_routes-off :
    (task : ReviewTask) (ids : List ℕ) (chats : List ℤ) (r : Routing)
    → is_enabled task.source_chat_id r ≡ false
    → destination_routes task ids chats r ≡ []
unfolding destination_routes current_targets
destination_routes-off task [] chats r off =
    let nothing : is_configured task.source_chat_id r && is_enabled task.source_chat_id r ≡ false =
      ground arith in
    rw nothing (resolve_legacy_none (get_target_routes_for task.source_chat_id r))
destination_routes-off task (i ∷ ids) chats r off = ground arith

module _ (w : World) (task : ReviewTask) (snap : Snapshot) where
  -- In the read number `n`, the source is enabled and has a link to the target, which is enabled.
  abbrev pub Bound : ℕ × TargetRoute → Type 0
  Bound (n, target) = (r : Routing) × (w.routing n ≡ ok r) × Linked task.source_chat_id target r

  bound :
      (n : ℕ) (target : TargetRoute) (r : Routing)
      → w.routing n ≡ ok r
      → is_bound target (destination_routes task snap.destination_ids snap.targets r) ≡ true
      → Bound (n, target)
  bound n target r e b = elim (Bool-cases (is_enabled task.source_chat_id r)) [
    | inl on ↦
        (r, e, destination_routes-Linked task snap.destination_ids snap.targets target r on b)
    | inr off ↦
        absurd (
          none_bound
            (rw (destination_routes-off task snap.destination_ids snap.targets r off) at b))
  ]
    where
      none_bound : false ≡ true → ⊥
      none_bound h = ground arith

  send_one-sent :
      (k : ℕ) (target : TargetRoute) (s : Sends)
      → (send_one w k target s).sent ≡ s.sent ++ (k, target) ∷ []
  unfolding send_one
  send_one-sent k target s = ground arith

  send_one-Bound :
      (k : ℕ) (target : TargetRoute) (s : Sends)
      → Bound (k, target)
      → All Bound s.sent
      → All Bound (send_one w k target s).sent
  send_one-Bound k target s b h =
      subst (All Bound) (sym (send_one-sent k target s))
        (All-append Bound s.sent ((k, target) ∷ []) h (b, tt))

  send_turn-Bound :
      (k : ℕ) (r : Routing) (target : TargetRoute) (s : Sends)
      → w.routing k ≡ ok r
      → All Bound s.sent
      → All Bound (send_turn w task snap k r target s).1.sent
  unfolding send_turn
  send_turn-Bound k r target s e h =
      let routes = destination_routes task snap.destination_ids snap.targets r in
      let apis = current_api_targets task snap.api_targets r in
      elim (Bool-cases (is_disabled (routing_block_reason task routes apis r))) [
        | inl d ↦ rw d h
        | inr d ↦ elim (Bool-cases (is_bound target routes)) [
          | inl b ↦ rw (d, b) (send_one-Bound k target _ (bound k target r e b) h)
          | inr b ↦ rw (d, b) h
        ]
      ]

  go_on-Bound :
      (rest : Sends → Sends × Option Failure) (turn : Bool × Sends)
      → (All Bound turn.1.sent → All Bound (rest turn.1).0.sent)
      → All Bound turn.1.sent
      → All Bound (go_on rest turn).0.sent
  go_on-Bound rest (true, s) next h = next h
  go_on-Bound rest (false, s) next h = h

  send_all-none : (k : ℕ) (s : Sends) → send_all w task snap k [] s ≡ (s, none)
  unfolding send_all
  send_all-none k s = refl

  send_all-read :
      (k : ℕ) (target : TargetRoute) (routes : List TargetRoute) (s : Sends) (r : Routing)
      → w.routing k ≡ ok r
      → send_all w task snap k (target ∷ routes) s
        ≡ go_on (send_all w task snap (suc k) routes) (send_turn w task snap k r target s)
  unfolding send_all
  send_all-read k target routes s r e = ground arith

  send_all-raise :
      (k : ℕ) (target : TargetRoute) (routes : List TargetRoute) (s : Sends) (x : Failure)
      → w.routing k ≡ err x
      → send_all w task snap k (target ∷ routes) s ≡ (s, some x)
  unfolding send_all
  send_all-raise k target routes s x e = ground arith

  -- Whatever the routing becomes between two sends, a message is handed to the publisher only
  -- right after a read in which its source is enabled and its target is bound to the source.
  pub send_all-Bound :
      (k : ℕ) (routes : List TargetRoute) (s : Sends)
      → All Bound s.sent
      → All Bound (send_all w task snap k routes s).0.sent
  send_all-Bound k [] s h =
      subst (λ (t : Sends × Option Failure). All Bound t.0.sent) (sym (send_all-none k s)) h
  send_all-Bound k (target ∷ routes) s h = elim (Result-cases (w.routing k)) [
    | inl (x, e) ↦
        subst (λ (t : Sends × Option Failure). All Bound t.0.sent)
          (sym (send_all-raise k target routes s x e)) h
    | inr (r, e) ↦
        let turn = send_turn w task snap k r target s in
        subst (λ (t : Sends × Option Failure). All Bound t.0.sent)
          (sym (send_all-read k target routes s r e))
          (go_on-Bound (send_all w task snap (suc k) routes) turn
            (send_all-Bound (suc k) routes turn.1) (send_turn-Bound k r target s e h))
  ]

queued-sent : (w : World) (m : NormalizedMessage) (apis : List ℕ) → (queued w m apis).sent ≡ []
unfolding queued
queued-sent w m apis = ground arith

verdict-delivered :
    (last : Sends × Option Failure) (s : Sends)
    → verdict last ≡ delivered s
    → (last.0 ≡ s) × (1 ≤ s.published_count)
unfolding verdict
verdict-delivered (t, some e) s h = absurd (ground arith)
verdict-delivered (t, none) s h = (ground arith, ground arith)

-- An attempt that counts as delivered has delivered to one target at least, and it has sent only to
-- targets that were enabled and linked to the enabled source in the read of the routing right before.
pub deliver-Bound :
    (w : World) (task : ReviewTask) (m : NormalizedMessage) (s : Sends)
    → deliver w task m ≡ delivered s
    → (1 ≤ s.published_count) × All (Bound w task (snapshot_of task)) s.sent
unfolding deliver
deliver-Bound w task m s h = elim (Result-cases (w.routing 1)) [
  | inl (x, e) ↦ absurd (ground arith)
  | inr (r, e) ↦
      let snap = snapshot_of task in
      let routes = destination_routes task snap.destination_ids snap.targets r in
      let apis = current_api_targets task snap.api_targets r in
      elim (Option-cases (routing_block_reason task routes apis r)) [
        | inr (b, f) ↦ absurd (ground arith)
        | inl f ↦
            let s0 = queued w (addressed m routes) apis in
            let last = send_all w task snap 2 routes s0 in
            let v : verdict last ≡ delivered s = ground arith in
            let (same, counted) = verdict-delivered last s v in
            let nothing = queued-sent w (addressed m routes) apis in
            (
              counted,
              subst (λ (t : Sends). All (Bound w task snap) t.sent) same
                  (send_all-Bound w task snap 2 routes s0
                    (subst (All (Bound w task snap)) (sym nothing) tt)),
            )
      ]
]
