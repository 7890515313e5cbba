-- ===== src/Albums/Flush.antt =====
-- app/listeners/album_collector.py: the albums that are handed on.
use mathlib.Core.Path.{subst}
use tg_forwarder.Prelude.{
  ℕ, ◌≡◌, refl, sym, ◌∙◌, true, not, Option, none, some, List, [], ◌∷◌, arith, ==-refl, All,
  All-keep, Bool-cases, Option-cases, inl, inr,
}
use tg_forwarder.Prelude.Chats.{same_chat_refl}
use tg_forwarder.Message.{NormalizedMessage}
use tg_forwarder.Albums.{
  AlbumKey, same_key, AlbumBucket, RecentAlbum, AlbumCollector, get, put, pop, merge, bucket_or,
  purge_recent, add_late, add_to_bucket, add_grouped, add, flush_key, AlbumEvent, adds, flushes,
  run_events,
}
use tg_forwarder.Albums.Merge.{Rising, Distinct, merge-Rising, add_part-Distinct}

abbrev Good : AlbumKey × AlbumBucket → Type 0
Good e = Distinct e.1.messages

-- Every bucket has each part once.
abbrev pub IsClean : AlbumCollector → Type 0
IsClean c = All Good c.buckets

get-Good :
    (key : AlbumKey) (bs : List (AlbumKey × AlbumBucket)) (b : AlbumBucket)
    → All Good bs
    → get key bs ≡ some b
    → Distinct b.messages
unfolding get
get-Good key [] b h e = absurd (ground arith)
get-Good key ((k, a) ∷ bs) b h e = elim (Bool-cases (same_key k key)) [
  | inl t ↦ let same : a ≡ b = ground arith in rw⁻¹ same h.0
  | inr t ↦ get-Good key bs b h.1 (ground arith)
]

put-Good :
    (key : AlbumKey) (b : AlbumBucket) (bs : List (AlbumKey × AlbumBucket))
    → Distinct b.messages
    → All Good bs
    → All Good (put key b bs)
unfolding put
put-Good key b [] d h = (d, tt)
put-Good key b ((k, a) ∷ bs) d h = elim (Bool-cases (same_key k key)) [
  | inl t ↦ rw t (d, h.1)
  | inr t ↦ rw t (h.0, put-Good key b bs d h.1)
]

same_key_refl : (key : AlbumKey) → same_key key key ≡ true
same_key_refl (a, g) = rw (same_chat_refl a, ==-refl g) refl

pub get-put :
    {A : Type 0} (key : AlbumKey) (b : A) (bs : List (AlbumKey × A))
    → get key (put key b bs) ≡ some b
unfolding get put
get-put key b [] = rw (same_key_refl key) refl
get-put key b ((k, a) ∷ bs) = elim (Bool-cases (same_key k key)) [
  | inl t ↦ rw (t, t) refl
  | inr t ↦ rw (t, t) (get-put key b bs)
]

old-Distinct :
    (now : ℕ) (key : AlbumKey) (c : AlbumCollector)
    → IsClean c
    → Distinct (bucket_or now (get key c.buckets)).messages
old-Distinct now key c h = elim (Option-cases (get key c.buckets)) [
  | inl e ↦ rw e tt
  | inr (b, e) ↦ rw e (get-Good key c.buckets b h e)
]

add_to_bucket-IsClean :
    (now : ℕ) (key : AlbumKey) (m : NormalizedMessage) (c : AlbumCollector)
    → IsClean c
    → IsClean (add_to_bucket now key m c)
unfolding add_to_bucket
add_to_bucket-IsClean now key m c h =
    put-Good key _ c.buckets
      (add_part-Distinct m (bucket_or now (get key c.buckets)).messages (old-Distinct now key c h))
      h

pub add_late-buckets :
    (now : ℕ) (key : AlbumKey) (m : NormalizedMessage) (r : RecentAlbum) (c : AlbumCollector)
    → (add_late now key m r c).buckets ≡ c.buckets
unfolding add_late
add_late-buckets now key m r c = ground arith

module _ (now g : ℕ) (m : NormalizedMessage) (c : AlbumCollector)
    (grouped : m.grouped_id ≡ some g) where
  abbrev pub key_of : AlbumKey
  key_of = (m.source_chat_id, g)

  pub add_new :
      get key_of (purge_recent now c).recent ≡ none
      → (add now m c).1 ≡ add_to_bucket now key_of m (purge_recent now c)
  unfolding add add_grouped
  add_new e = ground arith

  pub add_known :
      (r : RecentAlbum)
      → get key_of (purge_recent now c).recent ≡ some r
      → (add now m c).1 ≡ add_late now key_of m r (purge_recent now c)
  unfolding add add_grouped
  add_known r e = ground arith

purge_recent-IsClean : (now : ℕ) (c : AlbumCollector) → IsClean c → IsClean (purge_recent now c)
unfolding purge_recent
purge_recent-IsClean now c h = h

pub add_single :
    (now : ℕ) (m : NormalizedMessage) (c : AlbumCollector)
    → m.grouped_id ≡ none
    → (add now m c).1 ≡ c
unfolding add
add_single now m c e = rw e refl

add-IsClean :
    (now : ℕ) (m : NormalizedMessage) (c : AlbumCollector) → IsClean c → IsClean (add now m c).1
add-IsClean now m c h = elim (Option-cases m.grouped_id) [
  | inl e ↦ subst IsClean (sym (add_single now m c e)) h
  | inr (g, e) ↦
      let c' = purge_recent now c in
      let h' = purge_recent-IsClean now c h in
      let key : AlbumKey = (m.source_chat_id, g) in
      elim (Option-cases (get key c'.recent)) [
        | inl f ↦
            subst IsClean (sym (add_new now g m c e f)) (add_to_bucket-IsClean now key m c' h')
        | inr (r, f) ↦
            subst IsClean (sym (add_known now g m c e r f))
              (subst (All Good) (sym (add_late-buckets now key m r c')) h')
      ]
]

pub flush_key-buckets :
    (now : ℕ) (key : AlbumKey) (c : AlbumCollector)
    → (flush_key now key c).1.buckets ≡ pop key c.buckets
unfolding flush_key
flush_key-buckets now key c = elim (Option-cases (get key c.buckets)) [
  | inl e ↦ ground arith
  | inr (b, e) ↦ ground arith
]

flush_key-IsClean :
    (now : ℕ) (key : AlbumKey) (c : AlbumCollector) → IsClean c → IsClean (flush_key now key c).1
unfolding pop
flush_key-IsClean now key c h =
    subst (All Good) (sym (flush_key-buckets now key c))
      (All-keep Good (λ (e : AlbumKey × AlbumBucket). not (same_key e.0 key)) c.buckets h)

run_events-IsClean :
    (es : List AlbumEvent) (c : AlbumCollector) → IsClean c → IsClean (run_events es c)
unfolding run_events
run_events-IsClean [] c h = h
run_events-IsClean (adds now m ∷ es) c h =
    run_events-IsClean es (add now m c).1 (add-IsClean now m c h)
run_events-IsClean (flushes now key ∷ es) c h =
    run_events-IsClean es (flush_key now key c).1 (flush_key-IsClean now key c h)

pub flushed :
    (now : ℕ) (key : AlbumKey) (c : AlbumCollector) (b : AlbumBucket)
    → get key c.buckets ≡ some b
    → (flush_key now key c).0 ≡ merge now b.messages
unfolding flush_key
flushed now key c b e = ground arith

nothing_flushed :
    (now : ℕ) (key : AlbumKey) (c : AlbumCollector)
    → get key c.buckets ≡ none
    → (flush_key now key c).0 ≡ none
unfolding flush_key
nothing_flushed now key c e = ground arith

-- Whatever parts come and whatever timers fire, in any order, every album that is handed on has its
-- parts in the order of their ids and each part once.
pub flush_key-Rising :
    (es : List AlbumEvent) (c : AlbumCollector) (now : ℕ) (key : AlbumKey) (a : NormalizedMessage)
    → c.buckets ≡ []
    → (flush_key now key (run_events es c)).0 ≡ some a
    → Rising a.album_message_ids
flush_key-Rising es c now key a start h =
    let c' = run_events es c in
    let clean = run_events-IsClean es c (rw start tt) in
    elim (Option-cases (get key c'.buckets)) [
      | inl e ↦ absurd (impossible (sym (nothing_flushed now key c' e) ∙ h))
      | inr (b, e) ↦
          merge-Rising now b.messages a (get-Good key c'.buckets b clean e)
            (sym (flushed now key c' b e) ∙ h)
    ]
  where
    impossible : ◌≡◌ {A = Option NormalizedMessage} none (some a) → ⊥
    impossible x = ground arith
