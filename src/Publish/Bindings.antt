-- ===== src/Publish/Bindings.antt =====
-- app/review/publish.py: the resolved destinations against the links of the source.
use tg_forwarder.Prelude.{
  ℕ, ◌≡◌, refl, sym, ap, ◌∙◌, Bool, true, false, not, ◌&&◌, ◌||◌, Option, none, some, List, [], ◌∷◌,
  map, ◌==◌, arith, keep, exists, All, Bool-cases, if-intro, Option-cases, inl, inr,
}
use tg_forwarder.Prelude.Chats.{Distinct, All-kept, Distinct-keep, ℤ, pos, same_chat, same_chat→eq}
use tg_forwarder.Message.{TargetRoute}
use tg_forwarder.Channels.{
  Routing, SourceChannel, TargetChannel, SourceTargetLink, linked_routes, route_if, find_source,
  is_configured, is_enabled, get_target_routes_for, get_targets_for,
}
use tg_forwarder.Review.Store.{ReviewTask}
use tg_forwarder.Publish.Routes.{
  dedup, among, remove_chat, current_targets, resolve_legacy, find_route, resolve,
  destination_routes,
}
use tg_forwarder.Publish.Send.{is_bound}

-- Some link of the source leads to an enabled target with the id.
abbrev is_link : ℕ → ℤ → SourceTargetLink → Bool
is_link source_id target_id l =
    l.source_id == source_id
    && elim l.target [ none ↦ false | some t ↦ t.enabled && same_chat (pos t.id) target_id ]

abbrev pub Linked : ℤ → TargetRoute → Routing → Type 0
Linked chat target r =
    (s : SourceChannel) × (find_source chat r.sources ≡ some s)
    × (s.enabled ≡ true)
    × (exists (is_link s.id target.id) r.links ≡ true)

is_bound-route_if :
    (target : TargetRoute) (o : Option TargetChannel) (rest : List TargetRoute)
    → is_bound target (route_if o rest)
      ≡ elim o [ none ↦ false | some t ↦ t.enabled && same_chat (pos t.id) target.id ]
        || is_bound target rest
is_bound-route_if target none rest = refl
is_bound-route_if target (some t) rest = ground arith

is_bound-linked_routes :
    (target : TargetRoute) (i : ℕ) (links : List SourceTargetLink)
    → is_bound target (linked_routes i links) ≡ exists (is_link i target.id) links
unfolding linked_routes
is_bound-linked_routes target i [] = refl
is_bound-linked_routes target i (l ∷ ls) =
    let ih = is_bound-linked_routes target i ls in
    let here = is_bound-route_if target l.target (linked_routes i ls) in
    elim (Bool-cases (l.source_id == i)) [ inl b ↦ rw (b, here, ih) refl | inr b ↦ rw (b, ih) refl ]

-- A route of an enabled source comes from one of its links.
routes-Linked :
    (chat : ℤ) (target : TargetRoute) (r : Routing)
    → is_enabled chat r ≡ true
    → is_bound target (get_target_routes_for chat r) ≡ true
    → Linked chat target r
unfolding is_enabled get_target_routes_for
routes-Linked chat target r on b = elim (Option-cases (find_source chat r.sources)) [
  | inl e ↦ absurd (ground arith)
  | inr (s, e) ↦ (
    s,
    e,
    rw (e, is_enabled) at on,
    sym (is_bound-linked_routes target s.id r.links) ∙ rw (e, get_target_routes_for) at b,
  )
]

-- A destination by its id is one of the routes.
find_route-bound :
    (target q : TargetRoute) (i : ℕ) (routes : List TargetRoute)
    → find_route i routes ≡ some q
    → same_chat q.id target.id ≡ true
    → is_bound target routes ≡ true
unfolding find_route
find_route-bound target q i [] h b = absurd (ground arith)
find_route-bound target q i (r ∷ rs) h b = elim (Option-cases (find_route i rs)) [
  | inl e ↦ let k = rw (e, find_route) at h in ground arith
  | inr (q', e) ↦
      let k = rw (e, find_route) at h in
      let there = find_route-bound target q i rs (e ∙ k) b in ground arith
]

resolve-bound :
    (target : TargetRoute) (routes : List TargetRoute) (ids : List ℕ)
    → is_bound target (resolve routes ids) ≡ true
    → is_bound target routes ≡ true
unfolding resolve
resolve-bound target routes [] h = absurd (ground arith)
resolve-bound target routes (i ∷ ids) h = elim (Option-cases (find_route i routes)) [
  | inl e ↦ resolve-bound target routes ids (rw (e, resolve) at h)
  | inr (q, e) ↦ elim (Bool-cases (same_chat q.id target.id)) [
    | inl b ↦ find_route-bound target q i routes e b
    | inr b ↦ resolve-bound target routes ids (rw (e, resolve, b) at h)
  ]
]

dedup-Distinct : (cs : List ℤ) → Distinct (dedup same_chat cs)
unfolding dedup
dedup-Distinct [] = tt
dedup-Distinct (c ∷ cs) = (
  All-kept c (dedup same_chat cs),
  Distinct-keep (λ d. not (same_chat c d)) (dedup same_chat cs) (dedup-Distinct cs),
)

abbrev chats_of : List TargetRoute → List ℤ
chats_of rs = map (λ (r : TargetRoute). r.chat_id) rs

-- Every chat is that of some route.
abbrev Covered : List TargetRoute → List ℤ → Type 0
Covered rs cs = All (λ c. among c (chats_of rs) ≡ true) cs

same_chat-sym : (a b : ℤ) → same_chat a b ≡ same_chat b a
same_chat-sym a b = ground arith

not_among : (c : ℤ) (cs : List ℤ) → All (λ d. same_chat c d ≡ false) cs → among c cs ≡ false
not_among c [] h = refl
not_among c (d ∷ ds) h = rw h.0 (not_among c ds h.1)

Covered-passed :
    (r : TargetRoute) (rs : List TargetRoute) (cs : List ℤ)
    → among r.chat_id cs ≡ false
    → Covered (r ∷ rs) cs
    → Covered rs cs
Covered-passed r rs [] out h = tt
Covered-passed r rs (c ∷ cs) out h =
    let turned = same_chat-sym c r.chat_id in
    let first = h.0 in (ground arith, Covered-passed r rs cs (ground arith) h.1)

-- Past a route, the chats that are left are those of the later routes.
Covered-remove :
    (r : TargetRoute) (rs : List TargetRoute) (cs : List ℤ)
    → Distinct cs
    → Covered (r ∷ rs) cs
    → Covered rs (remove_chat r.chat_id cs)
unfolding remove_chat
Covered-remove r rs [] d h = tt
Covered-remove r rs (c ∷ cs) d h =
    let turned = same_chat-sym c r.chat_id in
    let first = h.0 in
    if-intro (Covered rs) (same_chat r.chat_id c) cs (c ∷ remove_chat r.chat_id cs)
      (λ same.
        let own = same_chat→eq r.chat_id c same in
        Covered-passed r rs cs (ap (λ a. among a cs) own ∙ not_among c cs d.0) h.1)
      (λ other. (ground arith, Covered-remove r rs cs d.1 h.1))

All-remove : (P : ℤ → Type 0) (a : ℤ) (cs : List ℤ) → All P cs → All P (remove_chat a cs)
unfolding remove_chat
All-remove P a [] h = tt
All-remove P a (c ∷ cs) h =
    if-intro (All P) (same_chat a c) cs (c ∷ remove_chat a cs) (λ _. h.1)
      (λ _. (h.0, All-remove P a cs h.1))

Distinct-remove : (a : ℤ) (cs : List ℤ) → Distinct cs → Distinct (remove_chat a cs)
unfolding remove_chat
Distinct-remove a [] d = tt
Distinct-remove a (c ∷ cs) d =
    if-intro Distinct (same_chat a c) cs (c ∷ remove_chat a cs) (λ _. d.1)
      (λ _. (All-remove (λ e. same_chat c e ≡ false) a cs d.0, Distinct-remove a cs d.1))

resolve_legacy-bound :
    (target : TargetRoute) (rs : List TargetRoute) (cs : List ℤ)
    → Distinct cs
    → Covered rs cs
    → is_bound target (resolve_legacy rs cs) ≡ true
    → is_bound target rs ≡ true
unfolding resolve_legacy
resolve_legacy-bound target [] [] d h b = b
resolve_legacy-bound target [] (c ∷ cs) d h b = absurd (ground arith)
resolve_legacy-bound target (r ∷ rs) cs d h b = elim (Bool-cases (among r.chat_id cs)) [
  | inl taken ↦
      let k = rw (taken, resolve_legacy) at b in
      elim (Bool-cases (same_chat r.id target.id)) [
        | inl own ↦ rw own refl
        | inr other ↦
            let later =
              resolve_legacy-bound target rs (remove_chat r.chat_id cs)
                (Distinct-remove r.chat_id cs d) (Covered-remove r rs cs d h) (ground arith) in
            ground arith
      ]
  | inr passed ↦
      let k = rw (passed, resolve_legacy) at b in
      let later = resolve_legacy-bound target rs cs d (Covered-passed r rs cs passed h) k in
      ground arith
]

Covered-keep :
    (rs : List TargetRoute) (cs : List ℤ) → Covered rs (keep (λ c. among c (chats_of rs)) cs)
Covered-keep rs [] = tt
Covered-keep rs (c ∷ cs) = elim (Bool-cases (among c (chats_of rs))) [
  | inl b ↦ rw b (b, Covered-keep rs cs)
  | inr b ↦ rw b (Covered-keep rs cs)
]

-- A target that is among the destinations of a task, in a read that finds the source enabled, is
-- linked to it.
pub destination_routes-Linked :
    (task : ReviewTask) (ids : List ℕ) (chats : List ℤ) (target : TargetRoute) (r : Routing)
    → is_enabled task.source_chat_id r ≡ true
    → is_bound target (destination_routes task ids chats r) ≡ true
    → Linked task.source_chat_id target r
unfolding destination_routes current_targets get_targets_for
destination_routes-Linked task [] chats target r on b =
    let chat = task.source_chat_id in
    let routes = get_target_routes_for chat r in
    elim (Bool-cases (is_configured chat r && is_enabled chat r)) [
      | inl go ↦
          let k = rw go at b in
          routes-Linked chat target r on (
            resolve_legacy-bound target routes
              (keep (λ c. among c (chats_of routes)) (dedup same_chat chats))
              (Distinct-keep (λ c. among c (chats_of routes)) (dedup same_chat chats)
                (dedup-Distinct chats))
              (Covered-keep routes (dedup same_chat chats)) k)
      | inr stop ↦
          let k = rw stop at b in
          routes-Linked chat target r on (resolve_legacy-bound target routes [] tt tt k)
    ]
destination_routes-Linked task (i ∷ ids) chats target r on b =
    let chat = task.source_chat_id in
    let routes = get_target_routes_for chat r in
    elim (Bool-cases (is_configured chat r && is_enabled chat r)) [
      | inl go ↦
          let k = rw go at b in
          routes-Linked chat target r on (resolve-bound target routes (dedup ◌==◌ (i ∷ ids)) k)
      | inr stop ↦ let k = rw stop at b in absurd (ground arith)
    ]
