-- ===== src/Registry/Subscribed.antt =====
-- app/services/channel_service.py, `set_target_sources`: the links afterwards.
use tg_forwarder.Prelude.{
  ℕ, ◌≡◌, refl, sym, ap, ◌∙◌, Bool, true, false, not, ◌&&◌, ◌||◌, List, [], ◌∷◌, ◌++◌, map, ◌==◌,
  arith, keep, ++_nil, Bool-cases, inl, inr, ok, ==→eq, ==-refl, is_some,
}
use tg_forwarder.Prelude.Chats.{ℤ, pos}
use tg_forwarder.Registry.{LinkRow, Tables, get_target_by_id}
use tg_forwarder.Registry.Links.{
  sorted, is_in, wanted_ids, target_links, align, set_target_sources, get_linked_source_ids,
}
use tg_forwarder.Registry.Replace.{of_target}
use tg_forwarder.Registry.Inserted.{exists-append}

-- The sources that are linked to a target.
abbrev pub sources_of : ℕ → List LinkRow → List ℕ
sources_of target_id links = map (λ (l : LinkRow). l.source_id) (keep (of_target target_id) links)

sources_of-append :
    (j : ℕ) (xs ys : List LinkRow) → sources_of j (xs ++ ys) ≡ sources_of j xs ++ sources_of j ys
sources_of-append j [] ys = refl
sources_of-append j (l ∷ ls) ys = ground (arith, sources_of-append j ls ys)

either_way : (a b : Bool) → (a && b) || (b && not a) ≡ b
either_way a b = ground arith

module _ (target_id : ℕ) (wanted : List ℕ) where
  abbrev pub stays : LinkRow → Bool
  stays l = not (of_target target_id l) || is_in wanted l.source_id

  abbrev pub made : ℕ → LinkRow
  made i = record { source_id = i; target_id = target_id }

  is_in-same : (i j : ℕ) → (i == j) ≡ true → is_in wanted j ≡ is_in wanted i
  is_in-same i j h = ap (is_in wanted) (sym (==→eq i j h))

  is_in-stays :
      (i : ℕ) (links : List LinkRow)
      → is_in (sources_of target_id (keep stays links)) i
        ≡ is_in (sources_of target_id links) i && is_in wanted i
  is_in-stays i [] = refl
  is_in-stays i (l ∷ ls) =
      let ih = is_in-stays i ls in
      elim (Bool-cases (i == l.source_id)) [
        | inl b ↦ let same = is_in-same i l.source_id b in ground (arith, ih, same)
        | inr b ↦ ground (arith, ih)
      ]

  is_in-made : (i : ℕ) (is : List ℕ) → is_in (sources_of target_id (map made is)) i ≡ is_in is i
  is_in-made i [] = refl
  is_in-made i (j ∷ js) = ground (arith, is_in-made i js, ==-refl target_id)

  pub is_in-absent :
      (there : List ℕ) (i : ℕ) (is : List ℕ)
      → is_in (keep (λ j. not (is_in there j)) is) i ≡ is_in is i && not (is_in there i)
  is_in-absent there i [] = refl
  is_in-absent there i (j ∷ js) =
      let ih = is_in-absent there i js in
      elim (Bool-cases (i == j)) [
        | inl b ↦
            let same : is_in there j ≡ is_in there i = ap (is_in there) (sym (==→eq i j b)) in
            ground (arith, ih, same)
        | inr b ↦ ground (arith, ih)
      ]

  target_links-wanted :
      (links : List LinkRow) (i : ℕ)
      → is_in (sources_of target_id (target_links target_id wanted links)) i ≡ is_in wanted i
  unfolding target_links
  target_links-wanted links i =
      let there = sources_of target_id links in
      let new = keep (λ j. not (is_in there j)) wanted in
      let both = sources_of-append target_id (keep stays links) (map made new) in
      let parts =
        exists-append (λ j. i == j) (sources_of target_id (keep stays links))
          (sources_of target_id (map made new)) in
      let a = is_in-stays i links in
      let b = is_in-made i new in
      let c = is_in-absent there i wanted in
      ap (λ is. is_in is i) both
      ∙ (parts ∙ rw (a, b, c) (either_way (is_in there i) (is_in wanted i)))

  stays-other :
      (j : ℕ) (links : List LinkRow)
      → (j == target_id) ≡ false
      → sources_of j (keep stays links) ≡ sources_of j links
  stays-other j [] h = refl
  stays-other j (l ∷ ls) h = ground (arith, stays-other j ls h)

  made-other : (j : ℕ) (is : List ℕ) → (j == target_id) ≡ false → sources_of j (map made is) ≡ []
  made-other j [] h = refl
  made-other j (i ∷ is) h = ground (arith, made-other j is h)

pub set_target_sources-Linked :
    (order : List ℤ → List ℤ) (target_id : ℕ) (refs : List ℤ) (db : Tables)
    → is_some (get_target_by_id (pos target_id) db.targets) ≡ true
    → (db' : Tables) × (set_target_sources order target_id refs db
        ≡ ok (sorted (wanted_ids db.sources refs []), db'))
      × ((i : ℕ)
          → is_in (get_linked_source_ids target_id db') i ≡ is_in (wanted_ids db.sources refs []) i)
      × ((j : ℕ)
          → (j == target_id) ≡ false
          → get_linked_source_ids j db' ≡ get_linked_source_ids j db)
unfolding set_target_sources get_linked_source_ids target_links
set_target_sources-Linked order target_id refs db there =
    let wanted = wanted_ids db.sources refs [] in
    let links = target_links target_id wanted db.links in
    let new = keep (λ j. not (is_in (sources_of target_id db.links) j)) wanted in
    (
      record db {
        links = links;
        sources = align order db.targets links (wanted ++ sources_of target_id db.links) db.sources;
      },
      rw (there, set_target_sources) refl,
      λ i. target_links-wanted target_id wanted db.links i,
      λ j other.
          sources_of-append j (keep (stays target_id wanted) db.links)
            (map (made target_id wanted) new)
          ∙ rw
              (
                stays-other target_id wanted j db.links other,
                made-other target_id wanted j new other,
              )
              (++_nil (sources_of j db.links)),
    )
