-- ===== src/Albums/Collected.antt =====
-- app/listeners/album_collector.py: a part that was collected stays until its group is flushed.
use mathlib.Core.Path.{subst}
use tg_forwarder.Prelude.{
  ℕ, ◌≡◌, refl, sym, ◌∙◌, ap, true, false, none, some, List, [], ◌∷◌, arith, ◌==◌, ==→eq, exists,
  All, Bool-cases, Option-cases, inl, inr,
}
use tg_forwarder.Prelude.Chats.{same_chat→eq}
use tg_forwarder.Message.{NormalizedMessage}
use tg_forwarder.Albums.{
  AlbumKey, same_key, AlbumBucket, AlbumCollector, get, put, pop, has_part, bucket_or, purge_recent,
  add_to_bucket, add, flush_key, AlbumEvent, adds, flushes, run_events,
}
use tg_forwarder.Albums.Merge.{merge-has, add_part-has, add_part-keeps}
use tg_forwarder.Albums.Flush.{
  get-put, add_late-buckets, add_new, add_known, add_single, flush_key-buckets, flushed,
}

same_key→eq : (k l : AlbumKey) → same_key k l ≡ true → k ≡ l
same_key→eq (a, g) (b, h) e =
    let chats : a ≡ b = same_chat→eq a b (ground arith) in
    let groups : g ≡ h = ==→eq g h (ground arith) in cc

module _ (key k : AlbumKey) (other : same_key k key ≡ false) where
  elsewhere : (l : AlbumKey) → same_key l k ≡ true → same_key l key ≡ false
  elsewhere l e = ap (λ x. same_key x key) (same_key→eq l k e) ∙ other

  get-put_other :
      (b : AlbumBucket) (bs : List (AlbumKey × AlbumBucket)) → get key (put k b bs) ≡ get key bs
  unfolding get put
  get-put_other b [] = rw other refl
  get-put_other b ((l, a) ∷ bs) = elim (Bool-cases (same_key l k)) [
    | inl t ↦ let out = elsewhere l t in rw (t, out) refl
    | inr t ↦ rw (t, get-put_other b bs) refl
  ]

  get-pop_other : (bs : List (AlbumKey × AlbumBucket)) → get key (pop k bs) ≡ get key bs
  unfolding get pop
  get-pop_other [] = refl
  get-pop_other ((l, a) ∷ bs) = elim (Bool-cases (same_key l k)) [
    | inl t ↦ let out = elsewhere l t in rw (t, out) (get-pop_other bs)
    | inr t ↦ rw (t, get-pop_other bs) refl
  ]

-- Not a flush of the group.
abbrev pub Waits : AlbumKey → AlbumEvent → Type 0
Waits key (adds now m) = Unit {0}
Waits key (flushes now k) = same_key k key ≡ false

module _ (key : AlbumKey) (i : ℕ) where
  -- The bucket of the group has the part.
  abbrev Collects : List (AlbumKey × AlbumBucket) → Type 0
  Collects bs = (b : AlbumBucket) × (get key bs ≡ some b) × (has_part i b.messages ≡ true)

  add_to_bucket-Collects :
      (now : ℕ) (k : AlbumKey) (m : NormalizedMessage) (c : AlbumCollector)
      → Collects c.buckets
      → Collects (add_to_bucket now k m c).buckets
  unfolding add_to_bucket
  add_to_bucket-Collects now k m c (b, there, has) = elim (Bool-cases (same_key k key)) [
    | inr t ↦ (b, get-put_other key k t _ c.buckets ∙ there, has)
    | inl t ↦
        let same = same_key→eq k key t in
        let old : bucket_or now (get k c.buckets) ≡ b =
          ap (λ x. bucket_or now (get x c.buckets)) same ∙ ap (bucket_or now) there in
        (
          _,
          ap (λ x. get x (add_to_bucket now k m c).buckets) (sym same) ∙ get-put k _ c.buckets,
          add_part-keeps m i (bucket_or now (get k c.buckets)).messages
              (ap (λ (x : AlbumBucket). has_part i x.messages) old ∙ has),
        )
  ]

  add-Collects :
      (now : ℕ) (m : NormalizedMessage) (c : AlbumCollector)
      → Collects c.buckets
      → Collects (add now m c).1.buckets
  unfolding purge_recent
  add-Collects now m c h = elim (Option-cases m.grouped_id) [
    | inl e ↦ subst (λ (x : AlbumCollector). Collects x.buckets) (sym (add_single now m c e)) h
    | inr (g, e) ↦
        let c' = purge_recent now c in
        let k : AlbumKey = (m.source_chat_id, g) in
        elim (Option-cases (get k c'.recent)) [
          | inl f ↦
              subst (λ (x : AlbumCollector). Collects x.buckets) (sym (add_new now g m c e f))
                (add_to_bucket-Collects now k m c' h)
          | inr (r, f) ↦
              subst (λ (x : AlbumCollector). Collects x.buckets) (sym (add_known now g m c e r f))
                (subst Collects (sym (add_late-buckets now k m r c')) h)
        ]
  ]

  run_events-Collects :
      (es : List AlbumEvent) (c : AlbumCollector)
      → All (Waits key) es
      → Collects c.buckets
      → Collects (run_events es c).buckets
  unfolding run_events
  run_events-Collects [] c w h = h
  run_events-Collects (adds now m ∷ es) c w h =
      run_events-Collects es (add now m c).1 w.1 (add-Collects now m c h)
  run_events-Collects (flushes now k ∷ es) c w (b, there, has) =
      run_events-Collects es (flush_key now k c).1 w.1 (
        b,
        ap (get key) (flush_key-buckets now k c) ∙ (get-pop_other key k w.0 c.buckets ∙ there),
        has,
      )

to_bucket :
    (now : ℕ) (key : AlbumKey) (m : NormalizedMessage) (c : AlbumCollector)
    → Collects key m.source_message_id (add_to_bucket now key m c).buckets
unfolding add_to_bucket
to_bucket now key m c =
    (_, get-put key _ c.buckets, add_part-has m (bucket_or now (get key c.buckets)).messages)

-- No part is lost: a part that is added to a group that was not flushed a moment ago is in the
-- album of the next flush of the group, whatever parts of any group come before it, and whatever
-- other groups are flushed.
pub add-flush_key :
    (now now' g : ℕ) (m : NormalizedMessage) (c : AlbumCollector) (es : List AlbumEvent)
    → m.grouped_id ≡ some g
    → get (m.source_chat_id, g) (purge_recent now c).recent ≡ none
    → All (Waits (m.source_chat_id, g)) es
    → (a : NormalizedMessage) × ((flush_key now'
          (m.source_chat_id, g)
          (run_events es (add now m c).1)).0
        ≡ some a)
      × (exists (λ (j : ℕ). j == m.source_message_id) a.album_message_ids ≡ true)
add-flush_key now now' g m c es e f w =
    let key : AlbumKey = (m.source_chat_id, g) in
    let i = m.source_message_id in
    let c' = run_events es (add now m c).1 in
    let start =
      subst (λ (x : AlbumCollector). Collects key i x.buckets) (sym (add_new now g m c e f))
        (to_bucket now key m (purge_recent now c)) in
    let (b, there, has) = run_events-Collects key i es (add now m c).1 w start in
    let (a, merged, own) = merge-has now' i b.messages has in
    (a, flushed now' key c' b there ∙ merged, own)
