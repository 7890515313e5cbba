-- ===== src/Registry/Inserted.antt =====
-- app/services/channel_service.py, `_replace_source_links`: when the new links are refused.
use tg_forwarder.Prelude.{
  ℕ, ◌≡◌, refl, sym, ap, ◌∙◌, Bool, true, false, not, ◌||◌, List, [], ◌∷◌, ◌++◌, ◌==◌, arith,
  if◌then◌else◌, keep, exists, is_some, ++_assoc, ++_nil, Result, ok, err, Bool-cases, inl, inr,
  ==-refl, ◌↔◌,
}
use tg_forwarder.Prelude.Chats.{ℤ, pos}
use tg_forwarder.Registry.{
  TargetRow, LinkRow, Tables, ChannelServiceError, get_by_id, change_source,
}
use tg_forwarder.Registry.Replace.{
  of_source, same_link, insert_links, links_of, resolve_targets, replace_source_links,
  set_source_targets, chats_of, first_chat, set_primary,
}

module _ {ℓ} {A : Type ℓ} where
  pub exists-append :
      (p : A → Bool) (xs ys : List A) → exists p (xs ++ ys) ≡ exists p xs || exists p ys
  exists-append p [] ys = refl
  exists-append p (x ∷ xs) ys = ground (arith, exists-append p xs ys)

  exists-or :
      (p q : A → Bool) (xs : List A) → exists (λ x. p x || q x) xs ≡ exists p xs || exists q xs
  exists-or p q [] = refl
  exists-or p q (x ∷ xs) = ground (arith, exists-or p q xs)

  pub exists-same :
      (p q : A → Bool) → ((x : A) → p x ≡ q x) → (xs : List A) → exists p xs ≡ exists q xs
  exists-same p q same [] = refl
  exists-same p q same (x ∷ xs) = ground (arith, same x, exists-same p q same xs)

||_assoc : (a b c : Bool) → (a || b) || c ≡ a || (b || c)
||_assoc true b c = refl
||_assoc false b c = refl

-- Two of the targets are the same.
abbrev pub twice : List TargetRow → Bool
twice [] = false
twice (t ∷ ts) = exists (λ (q : TargetRow). q.id == t.id) ts || twice ts

module _ (source_id : ℕ) where
  abbrev pub link_to : TargetRow → LinkRow
  link_to t = record { source_id = source_id; target_id = t.id }

  abbrev linked : List LinkRow → TargetRow → Bool
  linked links t = exists (same_link (link_to t)) links

  linked-last :
      (t : TargetRow) (links : List LinkRow) (q : TargetRow)
      → linked (links ++ link_to t ∷ []) q ≡ linked links q || q.id == t.id
  linked-last t links q =
      let e = exists-append (same_link (link_to q)) links (link_to t ∷ []) in
      let own = ==-refl source_id in ground (arith, e, own)

  exists-linked-last :
      (t : TargetRow) (links : List LinkRow) (ts : List TargetRow)
      → exists (linked (links ++ link_to t ∷ [])) ts
        ≡ exists (linked links) ts || exists (λ (q : TargetRow). q.id == t.id) ts
  exists-linked-last t links ts =
      exists-same (linked (links ++ link_to t ∷ [])) (λ q. linked links q || q.id == t.id)
        (linked-last t links) ts
      ∙ exists-or (linked links) (λ (q : TargetRow). q.id == t.id) ts

  -- The flush succeeds where no target is there or comes twice.
  pub insert_links-links_of :
      (ts : List TargetRow) (links : List LinkRow)
      → insert_links (links_of source_id ts) links ≡ (
          if exists (linked links) ts || twice ts
          then err ChannelServiceError.integrity
          else ok (links ++ links_of source_id ts))
  unfolding insert_links
  insert_links-links_of [] links = ap ok (sym (++_nil links))
  insert_links-links_of (t ∷ ts) links = elim (Bool-cases (linked links t)) [
    | inl b ↦ rw b refl
    | inr b ↦
        rw
          (
            b,
            insert_links-links_of ts (links ++ link_to t ∷ []),
            exists-linked-last t links ts,
            ||_assoc (exists (linked links) ts) (exists (λ (q : TargetRow). q.id == t.id) ts)
                (twice ts),
            ++_assoc links (link_to t ∷ []) (links_of source_id ts),
          )
          refl
  ]

  -- No link of the source is among those that are kept.
  abbrev pub others : List LinkRow → List LinkRow
  others links = keep (λ (l : LinkRow). not (of_source source_id l)) links

  not_linked : (links : List LinkRow) (t : TargetRow) → linked (others links) t ≡ false
  not_linked [] t = refl
  not_linked (l ∷ ls) t = ground (arith, not_linked ls t)

  none_linked :
      (links : List LinkRow) (ts : List TargetRow) → exists (linked (others links)) ts ≡ false
  none_linked links [] = refl
  none_linked links (t ∷ ts) = ground (arith, not_linked links t, none_linked links ts)

  pub insert_links-others :
      (links : List LinkRow) (ts : List TargetRow)
      → insert_links (links_of source_id ts) (others links) ≡ (
          if twice ts
          then err ChannelServiceError.integrity
          else ok (others links ++ links_of source_id ts))
  insert_links-others links ts =
      rw (insert_links-links_of ts (others links), none_linked links ts) refl

-- What `replace_source_links` leaves when it succeeds.
abbrev pub replaced : ℕ → List TargetRow → Tables → Tables
replaced source_id found db = record db {
  links = others source_id db.links ++ links_of source_id found;
  sources = change_source source_id (set_primary (first_chat (chats_of found))) db.sources;
}

pub replace_source_links-replaced :
    (source_id : ℕ) (refs : List ℤ) (db : Tables)
    → replace_source_links source_id refs db ≡ (
        if twice (resolve_targets db.targets refs)
        then err ChannelServiceError.integrity
        else ok (
          chats_of (resolve_targets db.targets refs),
          replaced source_id (resolve_targets db.targets refs) db,
        ))
unfolding replace_source_links
replace_source_links-replaced source_id refs db =
    let found = resolve_targets db.targets refs in
    elim (Bool-cases (twice found)) [
      | inl b ↦ rw (replace_source_links, insert_links-others source_id db.links found, b) refl
      | inr b ↦ rw (replace_source_links, insert_links-others source_id db.links found, b) refl
    ]

err_exactly {ℓ κ} :
    {E : Type ℓ} {A : Type κ} (b : Bool) (r : Result E A) (e : E) (a : A)
    → r ≡ (if b then err e else ok a)
    → (r ≡ err e) ↔ (b ≡ true)
err_exactly true r e a h = (λ _. refl, λ _. h)
err_exactly false r e a h = (λ k. absurd (cc), λ k. absurd (cc))

-- `set_source_targets` on a source that exists raises an `IntegrityError` exactly when two of the
-- references name the same target.
pub set_source_targets-integrity :
    (source_id : ℕ) (refs : List ℤ) (db : Tables)
    → is_some (get_by_id (pos source_id) db.sources) ≡ true
    → (set_source_targets source_id refs db ≡ err ChannelServiceError.integrity)
      ↔ (twice (resolve_targets db.targets refs) ≡ true)
unfolding set_source_targets
set_source_targets-integrity source_id refs db there =
    let found = resolve_targets db.targets refs in
    err_exactly (twice found) (set_source_targets source_id refs db) ChannelServiceError.integrity
      (chats_of found, replaced source_id found db)
      (rw (there, set_source_targets) (replace_source_links-replaced source_id refs db))
