-- ===== src/Registry/Routes.antt =====
-- app/services/channel_service.py, `load_from_db`: what the routing sees of a change to the tables.
use tg_forwarder.Prelude.{
  ℕ, ◌≡◌, refl, sym, ◌∙◌, Bool, true, Option, none, some, List, [], ◌∷◌, ◌++◌, map, ◌==◌, arith,
  if◌then◌else◌, All, Bool-cases, inl, inr,
}
use tg_forwarder.Prelude.Chats.{ℤ, pos}
use tg_forwarder.Message.{TargetRoute}
use tg_forwarder.Channels.{TargetChannel, linked_routes, route_if}
use tg_forwarder.Registry.{
  SourceRow, TargetRow, LinkRow, as_source, as_target, target_if, joined, first, get_target_by_id,
  change_source,
}
use tg_forwarder.Registry.Inserted.{others}
use tg_forwarder.Registry.Links.{align, linked_chats}
use tg_forwarder.Registry.Replace.{links_of, set_primary, first_chat}

-- The columns that routing reads of the sources do not depend on `target_channel_id`.
pub as_source-set_primary :
    (i : ℕ) (primary : Option ℤ) (sources : List SourceRow)
    → map as_source (change_source i (set_primary primary) sources) ≡ map as_source sources
unfolding change_source
as_source-set_primary i primary [] = refl
as_source-set_primary i primary (s ∷ ss) = elim (Bool-cases (s.id == i)) [
  | inl b ↦ rw (b, as_source-set_primary i primary ss) refl
  | inr b ↦ rw (b, as_source-set_primary i primary ss) refl
]

pub as_source-align :
    (order : List ℤ → List ℤ) (targets : List TargetRow) (links : List LinkRow) (is : List ℕ)
    (sources : List SourceRow)
    → map as_source (align order targets links is sources) ≡ map as_source sources
unfolding align
as_source-align order targets links [] sources = refl
as_source-align order targets links (i ∷ is) sources =
    let primary = first_chat (order (linked_chats targets i links)) in
    as_source-align order targets links is (change_source i (set_primary primary) sources)
    ∙ as_source-set_primary i primary sources

-- The routes of a source, from its rows.
abbrev pub routes : List TargetRow → ℕ → List LinkRow → List TargetRoute
routes targets i links = linked_routes i (map (joined targets) links)

-- The routes of the enabled ones of some targets.
unfoldable pub enabled_routes : List TargetRow → List TargetRoute
enabled_routes [] = []
enabled_routes (t ∷ ts) = route_if (some (as_target t)) (enabled_routes ts)

route_if-append :
    (o : Option TargetChannel) (xs ys : List TargetRoute)
    → route_if o (xs ++ ys) ≡ route_if o xs ++ ys
route_if-append none xs ys = refl
route_if-append (some t) xs ys = elim (Bool-cases t.enabled) [
  | inl b ↦ rw b refl
  | inr b ↦ rw b refl
]

-- `get_target_by_id` finds a target with the id.
pub first-holds {ℓ} :
    {A : Type ℓ} (p : A → Bool) (xs : List A) (x : A) → first p xs ≡ some x → p x ≡ true
first-holds p [] x h = absurd (cc)
first-holds p (y ∷ ys) x h = elim (Bool-cases (p y)) [
  | inl b ↦ let e : some y ≡ some x = sym (rw b refl) ∙ h in cc
  | inr b ↦ first-holds p ys x (sym (rw b refl) ∙ h)
]

module _ (targets : List TargetRow) (i : ℕ) where
  pub routes-append :
      (xs ys : List LinkRow)
      → routes targets i (xs ++ ys) ≡ routes targets i xs ++ routes targets i ys
  unfolding linked_routes
  routes-append [] ys = refl
  routes-append (l ∷ ls) ys =
      let o = target_if (get_target_by_id (pos l.target_id) targets) in
      elim (Bool-cases (l.source_id == i)) [
        | inl b ↦
            rw (b, routes-append ls ys)
              (route_if-append o (routes targets i ls) (routes targets i ys))
        | inr b ↦ rw (b, routes-append ls ys) refl
      ]

  -- The links that `_replace_source_links` keeps.
  pub routes-others :
      (j : ℕ) (links : List LinkRow)
      → routes targets i (others j links) ≡ (if i == j then [] else routes targets i links)
  unfolding linked_routes
  routes-others j [] = ground arith
  routes-others j (l ∷ ls) = ground (arith, routes-others j ls)

  -- The links that it adds.
  pub routes-links_of :
      (j : ℕ) (ts : List TargetRow)
      → All (λ (t : TargetRow). get_target_by_id (pos t.id) targets ≡ some t) ts
      → routes targets i (links_of j ts) ≡ (if i == j then enabled_routes ts else [])
  unfolding linked_routes enabled_routes
  routes-links_of j [] h = ground arith
  routes-links_of j (t ∷ ts) h = rw h.0 (ground (arith, routes-links_of j ts h.1))
