-- ===== src/Registry/Removed.antt =====
-- app/services/channel_service.py: `delete_target` and `delete_source`, as the routing sees them.
use mathlib.Core.Path.{subst}
use tg_forwarder.Prelude.{
  ℕ, ◌≡◌, refl, false, not, List, [], ◌∷◌, ◌++◌, map, ◌==◌, arith, if◌then◌else◌, keep, Bool-cases,
  Option-cases, inl, inr, Result, ok,
}
use tg_forwarder.Prelude.Chats.{ℤ, pos, same_chat}
use tg_forwarder.Message.{TargetRoute}
use tg_forwarder.Channels.{linked_routes, route_if, get_target_routes_for, find_source}
use tg_forwarder.Registry.{
  TargetRow, LinkRow, Tables, as_source, target_if, is_target, first, get_target_by_id,
  load_from_db,
}
use tg_forwarder.Registry.Links.{legacy_ids, delete_target}
use tg_forwarder.Registry.Replace.{of_target}
use tg_forwarder.Registry.Routes.{routes, first-holds, as_source-align}

module _ {ℓ κ} {E : Type ℓ} {A : Type κ} where
  pub ok_injective : {a b : A} → ◌≡◌ {A = Result E A} (ok a) (ok b) → a ≡ b
  ok_injective {a} {b} h = cc

module _ (target_id : ℕ) where
  -- The targets, the links and the routes but those of one target.
  abbrev pub rest : List TargetRow → List TargetRow
  rest targets = keep (λ (q : TargetRow). not (q.id == target_id)) targets

  abbrev pub unlinked : List LinkRow → List LinkRow
  unlinked links = keep (λ (l : LinkRow). not (of_target target_id l)) links

  abbrev pub elsewhere_routed : List TargetRoute → List TargetRoute
  elsewhere_routed rs = keep (λ (r : TargetRoute). not (same_chat r.id (pos target_id))) rs

  pub get-rest :
      (i : ℕ) (targets : List TargetRow)
      → i == target_id ≡ false
      → get_target_by_id (pos i) (rest targets) ≡ get_target_by_id (pos i) targets
  unfolding get_target_by_id
  get-rest i [] h = refl
  get-rest i (t ∷ ts) h = ground (arith, get-rest i ts h)

  -- The route of a link to the target is dropped, and that of another one is not.
  routed :
      (targets : List TargetRow) (l : LinkRow) (rs : List TargetRoute)
      → elsewhere_routed (route_if (target_if (get_target_by_id (pos l.target_id) targets)) rs) ≡ (
          if l.target_id == target_id
          then elsewhere_routed rs
          else route_if
              (target_if (get_target_by_id (pos l.target_id) targets))
              (elsewhere_routed rs))
  unfolding get_target_by_id
  routed targets l rs = elim (Option-cases (first (is_target (pos l.target_id)) targets)) [
    | inl e ↦ rw e (ground arith)
    | inr (t, e) ↦
        let own = first-holds (is_target (pos l.target_id)) targets t e in rw e (ground arith)
  ]

  routes-unlinked :
      (targets : List TargetRow) (i : ℕ) (links : List LinkRow)
      → routes (rest targets) i (unlinked links) ≡ elsewhere_routed (routes targets i links)
  unfolding linked_routes
  routes-unlinked targets i [] = refl
  routes-unlinked targets i (l ∷ ls) =
      let ih = routes-unlinked targets i ls in
      let here = routed targets l (routes targets i ls) in
      elim (Bool-cases (l.target_id == target_id)) [
        | inl b ↦ rw b (ground (arith, ih, here))
        | inr b ↦ let same = get-rest l.target_id targets b in ground (arith, ih, here, same)
      ]

  -- What the routing reads of the tables after `delete_target`.
  Removes : Tables → Tables → Type 0
  Removes db db' =
      (map as_source db'.sources ≡ map as_source db.sources)
      × (db'.targets ≡ rest db.targets)
      × (db'.links ≡ unlinked db.links)

  delete_target-Removes : (db db' : Tables) → delete_target target_id db ≡ ok db' → Removes db db'
  unfolding delete_target Removes
  delete_target-Removes db db' h =
      elim (Option-cases (get_target_by_id (pos target_id) db.targets)) [
        | inl e ↦ let k = rw (e, delete_target) at h in absurd (cc)
        | inr (t, e) ↦
            let affected =
              map (λ (l : LinkRow). l.source_id) (keep (of_target target_id) db.links)
              ++ legacy_ids t.chat_id db.sources in
            subst (Removes db) (ok_injective (rw (e, delete_target) at h)) (
              as_source-align (λ cs. cs) (rest db.targets) (unlinked db.links) affected db.sources,
              refl,
              refl,
            )
      ]

  -- After `delete_target` every chat has its routes in their order, but those to the target.
  pub delete_target-routes :
      (db db' : Tables) (now : ℕ) (chat : ℤ)
      → delete_target target_id db ≡ ok db'
      → get_target_routes_for chat (load_from_db now db')
        ≡ elsewhere_routed (get_target_routes_for chat (load_from_db now db))
  unfolding delete_target get_target_routes_for load_from_db Removes
  delete_target-routes db db' now chat h =
      let (a, b, c) = delete_target-Removes db db' h in
      rw (a, b, c)
        (elim (Option-cases (find_source chat (map as_source db.sources))) [
          | inl e ↦ rw (e, get_target_routes_for) refl
          | inr (s, e) ↦ rw (e, get_target_routes_for) (routes-unlinked db.targets s.id db.links)
        ])
