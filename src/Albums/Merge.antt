-- ===== src/Albums/Merge.antt =====
-- app/listeners/album_collector.py, `merge`: the ids of an album.
use mathlib.Core.Path.{subst}
use tg_forwarder.Prelude.{
  ℕ, ◌<◌, ◌≡◌, refl, sym, ◌∙◌, ap, Bool, true, false, ◌||◌, none, some, List, [], ◌∷◌, ◌++◌, map,
  arith, ◌==◌, leb, if◌then◌else◌, exists, All, Bool-cases, Option-cases, inl, inr,
}
use tg_forwarder.Message.{NormalizedMessage}
use tg_forwarder.Albums.{
  message_id, insert_part, sort_parts, merge_ordered, merge, has_part, add_part,
}

-- Ids that go up, each one once.
abbrev pub Rising : List ℕ → Type 0
Rising [] = Unit {0}
Rising (x ∷ xs) = All (λ (y : ℕ). x < y) xs × Rising xs

-- No two parts have the same id.
abbrev pub Distinct : List NormalizedMessage → Type 0
Distinct [] = Unit {0}
Distinct (m ∷ ms) = (has_part m.source_message_id ms ≡ false) × Distinct ms

has_part-insert_part :
    (i : ℕ) (m : NormalizedMessage) (ns : List NormalizedMessage)
    → has_part i (insert_part m ns) ≡ (m.source_message_id == i || has_part i ns)
unfolding insert_part
has_part-insert_part i m [] = refl
has_part-insert_part i m (n ∷ ns) = ground (arith, has_part-insert_part i m ns)

pub has_part-sort_parts :
    (i : ℕ) (ms : List NormalizedMessage) → has_part i (sort_parts ms) ≡ has_part i ms
unfolding sort_parts
has_part-sort_parts i [] = refl
has_part-sort_parts i (m ∷ ms) =
    has_part-insert_part i m (sort_parts ms)
    ∙ ap (λ (b : Bool). m.source_message_id == i || b) (has_part-sort_parts i ms)

module _ (P : ℕ → Type 0) where
  All-insert_part :
      (m : NormalizedMessage) (ns : List NormalizedMessage)
      → P m.source_message_id
      → All P (map message_id ns)
      → All P (map message_id (insert_part m ns))
  unfolding insert_part
  All-insert_part m [] p h = (p, tt)
  All-insert_part m (n ∷ ns) p h =
      placed (leb m.source_message_id n.source_message_id) (All-insert_part m ns p h.1)
    where
      placed :
          (b : Bool)
          → All P (map message_id (insert_part m ns))
          → All P (map message_id (if b then m ∷ n ∷ ns else n ∷ insert_part m ns))
      placed true ih = (p, h)
      placed false ih = (h.0, ih)

All-above : (a b : ℕ) (xs : List ℕ) → a < b → All (λ (y : ℕ). b < y) xs → All (λ (y : ℕ). a < y) xs
All-above a b [] l h = tt
All-above a b (x ∷ xs) l h = (omega arith, All-above a b xs l h.1)

insert_part-Rising :
    (m : NormalizedMessage) (ns : List NormalizedMessage)
    → has_part m.source_message_id ns ≡ false
    → Rising (map message_id ns)
    → Rising (map message_id (insert_part m ns))
unfolding insert_part
insert_part-Rising m [] d h = (tt, tt)
insert_part-Rising m (n ∷ ns) d h =
    elim (Bool-cases (leb m.source_message_id n.source_message_id)) [
      | inl b ↦
          let before : m.source_message_id < n.source_message_id = ground arith in
          rw b (
            (
              before,
              All-above m.source_message_id n.source_message_id (map message_id ns) before h.0,
            ),
            h,
          )
      | inr b ↦
          let after : n.source_message_id < m.source_message_id = ground arith in
          rw b (
            All-insert_part (λ (y : ℕ). n.source_message_id < y) m ns after h.0,
            insert_part-Rising m ns (ground arith) h.1,
          )
    ]

sort_parts-Rising :
    (ms : List NormalizedMessage) → Distinct ms → Rising (map message_id (sort_parts ms))
unfolding sort_parts
sort_parts-Rising [] d = tt
sort_parts-Rising (m ∷ ms) d =
    insert_part-Rising m (sort_parts ms) (has_part-sort_parts m.source_message_id ms ∙ d.0)
      (sort_parts-Rising ms d.1)

merge_ordered-ids :
    (now : ℕ) (ms : List NormalizedMessage) (a : NormalizedMessage)
    → merge_ordered now ms ≡ some a
    → a.album_message_ids ≡ map message_id ms
unfolding merge_ordered
merge_ordered-ids now [] a h = absurd (ground arith)
merge_ordered-ids now (m ∷ ms) a h = ground arith

pub merge-Rising :
    (now : ℕ) (ms : List NormalizedMessage) (a : NormalizedMessage)
    → Distinct ms
    → merge now ms ≡ some a
    → Rising a.album_message_ids
unfolding merge
merge-Rising now ms a d h =
    subst Rising (sym (merge_ordered-ids now (sort_parts ms) a h)) (sort_parts-Rising ms d)

has_part-append :
    (i : ℕ) (m : NormalizedMessage) (ms : List NormalizedMessage)
    → has_part i (ms ++ m ∷ []) ≡ (has_part i ms || m.source_message_id == i)
has_part-append i m [] = ground arith
has_part-append i m (n ∷ ms) = ground (arith, has_part-append i m ms)

append-Distinct :
    (m : NormalizedMessage) (ms : List NormalizedMessage)
    → has_part m.source_message_id ms ≡ false
    → Distinct ms
    → Distinct (ms ++ m ∷ [])
append-Distinct m [] d h = (refl, tt)
append-Distinct m (n ∷ ms) d h = (
  ground (arith, has_part-append n.source_message_id m ms, h.0),
  append-Distinct m ms (ground arith) h.1,
)

pub add_part-Distinct :
    (m : NormalizedMessage) (ms : List NormalizedMessage) → Distinct ms → Distinct (add_part m ms)
unfolding add_part
add_part-Distinct m ms h = elim (Bool-cases (has_part m.source_message_id ms)) [
  | inl b ↦ rw b h
  | inr b ↦ rw b (append-Distinct m ms b h)
]

pub add_part-has :
    (m : NormalizedMessage) (ms : List NormalizedMessage)
    → has_part m.source_message_id (add_part m ms) ≡ true
unfolding add_part
add_part-has m ms = ground (arith, has_part-append m.source_message_id m ms)

pub add_part-keeps :
    (m : NormalizedMessage) (i : ℕ) (ms : List NormalizedMessage)
    → has_part i ms ≡ true
    → has_part i (add_part m ms) ≡ true
unfolding add_part
add_part-keeps m i ms h = ground (arith, has_part-append i m ms)

never :
    (now : ℕ) (n : NormalizedMessage) (ns : List NormalizedMessage)
    → merge_ordered now (n ∷ ns) ≡ none
    → ⊥
unfolding merge_ordered
never now n ns h = ground arith

-- A bucket that has a part merges to an album that has its id.
pub merge-has :
    (now i : ℕ) (ms : List NormalizedMessage)
    → has_part i ms ≡ true
    → (a : NormalizedMessage) × (merge now ms ≡ some a)
      × (exists (λ (j : ℕ). j == i) a.album_message_ids ≡ true)
unfolding merge
merge-has now i ms h = merged (sort_parts ms) (has_part-sort_parts i ms ∙ h)
  where
    has_id :
        (ns : List NormalizedMessage)
        → exists (λ (j : ℕ). j == i) (map message_id ns) ≡ has_part i ns
    has_id [] = refl
    has_id (n ∷ ns) = ap (λ (b : Bool). n.source_message_id == i || b) (has_id ns)

    merged :
        (ns : List NormalizedMessage)
        → has_part i ns ≡ true
        → (a : NormalizedMessage) × (merge_ordered now ns ≡ some a)
          × (exists (λ (j : ℕ). j == i) a.album_message_ids ≡ true)
    merged [] e = absurd (ground arith)
    merged (n ∷ ns) e = elim (Option-cases (merge_ordered now (n ∷ ns))) [
      | inl f ↦ absurd (never now n ns f)
      | inr (a, f) ↦
          let ids = merge_ordered-ids now (n ∷ ns) a f in
          (a, f, ap (exists (λ (j : ℕ). j == i)) ids ∙ (has_id (n ∷ ns) ∙ e))
    ]
