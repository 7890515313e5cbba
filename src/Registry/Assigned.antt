-- ===== src/Registry/Assigned.antt =====
-- app/services/channel_service.py, `set_source_destinations`, as the routing sees it.
use mathlib.Core.Path.{subst}
use tg_forwarder.Prelude.{
  ℕ, ◌≡◌, refl, sym, ap, ◌∙◌, Bool, true, false, not, none, some, List, [], ◌∷◌, ◌++◌, map, ◌==◌,
  arith, if◌then◌else◌, exists, is_some, All, ++_nil, Bool-cases, Option-cases, inl, inr, ok,
}
use tg_forwarder.Prelude.Chats.{Distinct, All-kept, Distinct-keep, ℤ, pos, same_chat, same_chat→eq}
use tg_forwarder.Channels.{SourceChannel, get_target_routes_for, find_source}
use tg_forwarder.Registry.{
  TargetRow, Tables, as_source, is_target, first, get_by_id, get_target_by_id, load_from_db,
}
use tg_forwarder.Registry.Replace.{
  distinct, all_found, is_row, is_endpoint, resolve_ref, resolve_targets, cons_if, chats_of,
  with_api_links, first_chat, replace_source_links, set_source_destinations, links_of,
}
use tg_forwarder.Registry.Inserted.{twice, others, replaced, replace_source_links-replaced}
use tg_forwarder.Registry.Routes.{
  routes, enabled_routes, first-holds, as_source-set_primary, routes-append, routes-others,
  routes-links_of,
}

first-found {ℓ} :
    {A : Type ℓ} (p : A → Bool) (xs : List A) → exists p xs ≡ true → (x : A) × (first p xs ≡ some x)
first-found p [] h = absurd (cc)
first-found p (x ∷ xs) h = elim (Bool-cases (p x)) [
  | inl b ↦ (x, rw b refl)
  | inr b ↦ let (y, e) = first-found p xs (ground arith) in (y, rw b e)
]

distinct-Distinct : (vs : List ℤ) → Distinct (distinct vs)
unfolding distinct
distinct-Distinct [] = tt
distinct-Distinct (v ∷ vs) = (
  All-kept v (distinct vs),
  Distinct-keep (λ w. not (same_chat v w)) (distinct vs) (distinct-Distinct vs),
)

module _ (targets : List TargetRow) where
  -- The targets with the given ids.
  abbrev pub named : List ℤ → List TargetRow
  named [] = []
  named (ref ∷ refs) = cons_if (get_target_by_id ref targets) (named refs)

  found-row :
      (ref : ℤ)
      → exists (is_row ref) targets ≡ true
      → (t : TargetRow) × (get_target_by_id ref targets ≡ some t)
  unfolding get_target_by_id
  found-row ref h = first-found (is_target ref) targets h

  resolve-row :
      (ref : ℤ) (t : TargetRow)
      → get_target_by_id ref targets ≡ some t
      → resolve_ref targets ref ≡ some t
  unfolding resolve_ref
  resolve-row ref t e = rw (e, resolve_ref) refl

  resolve-named :
      (refs : List ℤ)
      → all_found is_row targets refs ≡ true
      → resolve_targets targets refs ≡ named refs
  unfolding resolve_targets
  resolve-named [] h = refl
  resolve-named (ref ∷ refs) h =
      let (t, e) = found-row ref (ground arith) in
      rw (resolve-row ref t e, e, resolve-named refs (ground arith)) refl

  named-rows :
      (refs : List ℤ)
      → all_found is_row targets refs ≡ true
      → All (λ (t : TargetRow). get_target_by_id (pos t.id) targets ≡ some t) (named refs)
  unfolding get_target_by_id
  named-rows [] h = tt
  named-rows (ref ∷ refs) h =
      let (t, e) = found-row ref (ground arith) in
      let own = same_chat→eq (pos t.id) ref (first-holds (is_target ref) targets t e) in
      rw e (rw (own, e) refl, named-rows refs (ground arith))

  -- A target whose id is none of the values is none of those that they name.
  not_named :
      (t : TargetRow) (refs : List ℤ)
      → All (λ w. same_chat (pos t.id) w ≡ false) refs
      → exists (λ (q : TargetRow). q.id == t.id) (named refs) ≡ false
  unfolding get_target_by_id
  not_named t [] h = refl
  not_named t (ref ∷ refs) h = elim (Option-cases (first (is_target ref) targets)) [
    | inl e ↦ rw e (not_named t refs h.1)
    | inr (q, e) ↦
        let own = same_chat→eq (pos q.id) ref (first-holds (is_target ref) targets q e) in
        let other : (t.id == q.id) ≡ false =
          subst (λ r. same_chat (pos t.id) r ≡ false) (sym own) h.0 in
        rw e (ground (arith, not_named t refs h.1))
  ]

  twice-named : (refs : List ℤ) → Distinct refs → twice (named refs) ≡ false
  unfolding get_target_by_id
  twice-named [] h = refl
  twice-named (ref ∷ refs) h = elim (Option-cases (first (is_target ref) targets)) [
    | inl e ↦ rw e (twice-named refs h.1)
    | inr (t, e) ↦
        let own = same_chat→eq (pos t.id) ref (first-holds (is_target ref) targets t e) in
        rw e (rw (not_named t refs (rw own h.0)) (twice-named refs h.1))
  ]

module _ (source_id : ℕ) (refs : List ℤ) (db : Tables) where
  -- What `set_source_destinations` leaves.
  abbrev assigned : List ℤ → Tables
  assigned requested =
      with_api_links source_id requested (replaced source_id (named db.targets (distinct refs)) db)

  replace-assigned :
      all_found is_row db.targets (distinct refs) ≡ true
      → replace_source_links source_id (distinct refs) db
        ≡ ok (
          chats_of (named db.targets (distinct refs)),
          replaced source_id (named db.targets (distinct refs)) db,
        )
  replace-assigned h =
      replace_source_links-replaced source_id (distinct refs) db
      ∙ rw
          (
            resolve-named db.targets (distinct refs) h,
            twice-named db.targets (distinct refs) (distinct-Distinct refs),
          )
          refl

  -- The routes of the sources afterwards.
  routes-assigned :
      (i : ℕ)
      → all_found is_row db.targets (distinct refs) ≡ true
      → routes db.targets i
          (others source_id db.links ++ links_of source_id (named db.targets (distinct refs)))
        ≡ (if i == source_id
            then enabled_routes (named db.targets (distinct refs))
            else routes db.targets i db.links)
  routes-assigned i h =
      let ts = named db.targets (distinct refs) in
      let both = routes-append db.targets i (others source_id db.links) (links_of source_id ts) in
      let kept = routes-others db.targets i source_id db.links in
      let added =
        routes-links_of db.targets i source_id ts (named-rows db.targets (distinct refs) h) in
      elim (Bool-cases (i == source_id)) [
        | inl b ↦ rw (both, kept, added, b) refl
        | inr b ↦ rw (both, kept, added, b) (++_nil (routes db.targets i db.links))
      ]

  routes_for :
      (now : ℕ) (chat : ℤ) (s : SourceChannel)
      → find_source chat (map as_source db.sources) ≡ some s
      → get_target_routes_for chat (load_from_db now db) ≡ routes db.targets s.id db.links
  unfolding get_target_routes_for load_from_db
  routes_for now chat s e = rw (e, get_target_routes_for) refl

  -- The routes of a chat when a source has the given targets.
  abbrev pub Assigned : ℕ → Tables → Type 0
  Assigned now db' =
      (chat : ℤ)
      → get_target_routes_for chat (load_from_db now db')
        ≡ elim (find_source chat (load_from_db now db).sources) [
          | none ↦ []
          | some s ↦
              (if s.id == source_id
                then enabled_routes (named db.targets (distinct refs))
                else get_target_routes_for chat (load_from_db now db))
        ]

  -- With a source, targets and endpoints that exist, `set_source_destinations` succeeds however
  -- often an id is given; the source then has the enabled ones of the targets as its routes, in the
  -- order in which they are first given, and every other source has the routes that it had.
  pub set_source_destinations-Assigned :
      (api_ids : List ℤ) (now : ℕ)
      → is_some (get_by_id (pos source_id) db.sources) ≡ true
      → all_found is_row db.targets (distinct refs) ≡ true
      → all_found is_endpoint db.endpoints (distinct api_ids) ≡ true
      → (db' : Tables) × (set_source_destinations source_id refs api_ids db
          ≡ ok (distinct refs, chats_of (named db.targets (distinct refs)), distinct api_ids, db'))
        × Assigned now db'
  unfolding set_source_destinations get_target_routes_for load_from_db
  set_source_destinations-Assigned api_ids now there targets_there endpoints_there = (
    assigned (distinct api_ids),
    rw
        (
          there,
          targets_there,
          replace-assigned targets_there,
          endpoints_there,
          set_source_destinations,
        )
        refl,
    λ chat.
        rw
          (as_source-set_primary source_id
            (first_chat (chats_of (named db.targets (distinct refs)))) db.sources)
          (elim (Option-cases (find_source chat (map as_source db.sources))) [
            | inl e ↦ rw (e, get_target_routes_for) refl
            | inr (s, e) ↦
                rw (e, get_target_routes_for)
                  (routes-assigned s.id targets_there
                    ∙ ap
                        (λ rs.
                          if s.id == source_id
                          then enabled_routes (named db.targets (distinct refs))
                          else rs)
                        (sym (routes_for now chat s e)))
          ]),
  )
