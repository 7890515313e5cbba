-- ===== src/Registry/Runs.antt =====
-- app/services/channel_service.py: the operations that set and delete links, in any order. One that
-- raises is rolled back.
use tg_forwarder.Prelude.{
  All, ℕ, refl, ◌∙◌, List, [], ◌∷◌, ◌++◌, ◌==◌, arith, is_some, Bool-cases, Option-cases, inl, inr,
  Result, ok, err,
}
use tg_forwarder.Prelude.Chats.{ℤ, pos}
use tg_forwarder.Registry.{Tables, get_by_id, get_target_by_id}
use tg_forwarder.Registry.Links.{
  set_target_sources, delete_source, delete_target, target_links, wanted_ids, legacy_ids,
}
use tg_forwarder.Registry.Replace.{
  resolve_targets, set_source_targets, set_source_destinations, distinct, all_found, is_row,
  is_endpoint,
}
use tg_forwarder.Registry.Inserted.{twice, others, replace_source_links-replaced, exists-append}
use tg_forwarder.Registry.Subscribed.{sources_of}
use tg_forwarder.Registry.Removed.{rest, unlinked}
use tg_forwarder.Registry.Primary.{Reorders, chats, align-Primary, chats-others}
use tg_forwarder.Registry.Aligned.{IsAligned, replaced-IsAligned, resolve_targets-Indexed}
use tg_forwarder.Registry.Kept.{
  Primary-deleted, Primary-Pending, Indexed-rest, chats-unlinked, chats-target_links,
}

pub data Change : Type 0 where
  source_targets : ℕ → List ℤ → Change
  source_destinations : ℕ → List ℤ → List ℤ → Change
  target_sources : (List ℤ → List ℤ) → ℕ → List ℤ → Change
  source_deleted target_deleted : ℕ → Change

-- The tables after a call: those of its result, or those before.
abbrev committed {ℓ κ} : {E : Type ℓ} {A : Type κ} → (A → Tables) → Result E A → Tables → Tables
committed tables (ok a) db = tables a
committed tables (err e) db = db

unfoldable pub apply : Change → Tables → Tables
unfolding set_source_targets set_source_destinations set_target_sources delete_source delete_target
apply (source_targets i refs) db = committed (λ r. r.1) (set_source_targets i refs db) db
apply (source_destinations i refs api) db =
    committed (λ r. r.3) (set_source_destinations i refs api db) db
apply (target_sources order i refs) db =
    committed (λ r. r.1) (set_target_sources order i refs db) db
apply (source_deleted i) db = committed (λ d. d) (delete_source i db) db
apply (target_deleted i) db = committed (λ d. d) (delete_target i db) db

unfoldable pub run : List Change → Tables → Tables
unfolding apply
run [] db = db
run (c ∷ cs) db = run cs (apply c db)

module _ (db : Tables) (h : IsAligned db) where
  set_source_targets-IsAligned :
      (i : ℕ) (refs : List ℤ) → IsAligned (committed (λ r. r.1) (set_source_targets i refs db) db)
  unfolding set_source_targets
  set_source_targets-IsAligned i refs =
      let found = resolve_targets db.targets refs in
      let e = replace_source_links-replaced i refs db in
      let rows = resolve_targets-Indexed db.targets h.indexed refs in
      elim (Bool-cases (is_some (get_by_id (pos i) db.sources))) [
        | inr b ↦ rw (b, set_source_targets) h
        | inl b ↦ elim (Bool-cases (twice found)) [
          | inl t ↦ rw (b, set_source_targets, e, t) h
          | inr t ↦ rw (b, set_source_targets, e, t) (replaced-IsAligned i found db rows h)
        ]
      ]

  set_source_destinations-IsAligned :
      (i : ℕ) (refs api : List ℤ)
      → IsAligned (committed (λ r. r.3) (set_source_destinations i refs api db) db)
  unfolding set_source_destinations
  set_source_destinations-IsAligned i refs api =
      let found = resolve_targets db.targets (distinct refs) in
      let e = replace_source_links-replaced i (distinct refs) db in
      let rows = resolve_targets-Indexed db.targets h.indexed (distinct refs) in
      elim (Bool-cases (is_some (get_by_id (pos i) db.sources))) [
        | inr b ↦ rw (b, set_source_destinations) h
        | inl b ↦ elim (Bool-cases (all_found is_row db.targets (distinct refs))) [
          | inr c ↦ rw (b, c, set_source_destinations) h
          | inl c ↦ elim (Bool-cases (twice found)) [
            | inl t ↦ rw (b, c, e, t, set_source_destinations) h
            | inr t ↦ elim (Bool-cases (all_found is_endpoint db.endpoints (distinct api))) [
              | inr d ↦ rw (b, c, e, t, d, set_source_destinations) h
              | inl d ↦
                  let k = replaced-IsAligned i found db rows h in
                  rw (b, c, e, t, d, set_source_destinations)
                    (record { indexed = k.indexed; primary = k.primary })
            ]
          ]
        ]
      ]

  delete_source-IsAligned : (i : ℕ) → IsAligned (committed (λ d. d) (delete_source i db) db)
  unfolding delete_source
  delete_source-IsAligned i = elim (Bool-cases (is_some (get_by_id (pos i) db.sources))) [
    | inr b ↦ rw (b, delete_source) h
    | inl b ↦
        rw (b, delete_source)
          (record {
            indexed = h.indexed;
            primary =
                Primary-deleted (chats db.targets db.links) (chats db.targets (others i db.links)) i
                  db.sources (λ j other. chats-others db.targets j i db.links ∙ rw other refl)
                  h.primary;
          })
  ]

  set_target_sources-IsAligned :
      (order : List ℤ → List ℤ) (i : ℕ) (refs : List ℤ)
      → Reorders order
      → IsAligned (committed (λ r. r.1) (set_target_sources order i refs db) db)
  unfolding set_target_sources
  set_target_sources-IsAligned order i refs r =
      let wanted = wanted_ids db.sources refs [] in
      let links = target_links i wanted db.links in
      let affected = wanted ++ sources_of i db.links in
      elim (Bool-cases (is_some (get_target_by_id (pos i) db.targets))) [
        | inr b ↦ rw (b, set_target_sources) h
        | inl b ↦
            rw (b, set_target_sources)
              (record {
                indexed = h.indexed;
                primary = align-Primary db.targets order links affected db.sources r (
                    Primary-Pending db.targets links (chats db.targets db.links) affected db.sources
                      (chats-target_links i wanted db.targets db.links) h.primary);
              })
      ]

  delete_target-IsAligned : (i : ℕ) → IsAligned (committed (λ d. d) (delete_target i db) db)
  unfolding delete_target
  delete_target-IsAligned i = elim (Option-cases (get_target_by_id (pos i) db.targets)) [
    | inl e ↦ rw (e, delete_target) h
    | inr (t, e) ↦
        let legacy = legacy_ids t.chat_id db.sources in
        let there = sources_of i db.links in
        rw (e, delete_target)
          (record {
            indexed = Indexed-rest i db.targets db.targets h.indexed;
            primary =
                align-Primary (rest i db.targets) (λ cs. cs) (unlinked i db.links) (there ++ legacy)
                  db.sources (λ cs c. refl)
                  (Primary-Pending (rest i db.targets) (unlinked i db.links)
                    (chats db.targets db.links) (there ++ legacy) db.sources
                    (λ j out.
                      let both = exists-append (λ k. j == k) there legacy in
                      chats-unlinked i db.targets j db.links (ground arith))
                    h.primary);
          })
  ]

-- The order in which the database gives the rows of `set_target_sources`.
abbrev pub Ordered : Change → Type 0
Ordered (target_sources order i refs) = Reorders order
Ordered _ = Unit {0}

apply-IsAligned : (c : Change) (db : Tables) → Ordered c → IsAligned db → IsAligned (apply c db)
unfolding apply
apply-IsAligned (source_targets i refs) db o h = set_source_targets-IsAligned db h i refs
apply-IsAligned (source_destinations i refs api) db o h =
    set_source_destinations-IsAligned db h i refs api
apply-IsAligned (target_sources order i refs) db o h =
    set_target_sources-IsAligned db h order i refs o
apply-IsAligned (source_deleted i) db o h = delete_source-IsAligned db h i
apply-IsAligned (target_deleted i) db o h = delete_target-IsAligned db h i

-- Whatever links are set and whatever sources and targets are deleted, in any order and however the
-- calls end, the ids of the targets stay distinct, and the legacy column `target_channel_id` of
-- every source stays the chat of a target that it is linked to, or empty when it is linked to none,
-- in whatever order the database gives the rows where the query asks for none.
pub run-IsAligned :
    (cs : List Change) (db : Tables) → All Ordered cs → IsAligned db → IsAligned (run cs db)
unfolding run
run-IsAligned [] db o h = h
run-IsAligned (c ∷ cs) db o h = run-IsAligned cs (apply c db) o.1 (apply-IsAligned c db o.0 h)
