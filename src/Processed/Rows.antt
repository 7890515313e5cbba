-- ===== src/Processed/Rows.antt =====
-- app/database/models.py, the primary key of `processed_messages` and the constraint
-- `uq_source_message`, as an invariant of the rows that the operations keep.
use tg_forwarder.Prelude.{
  ℕ, suc, ◌<◌, ◌≡◌, refl, ◌∙◌, Bool, true, false, not, ◌&&◌, List, [], ◌∷◌, ◌++◌, ◌==◌, arith, All,
  All-append, exists, if◌then◌else◌, Bool-cases, inl, inr,
}
use tg_forwarder.Message.{MessageStatus}
use tg_forwarder.Processed.{
  ProcessedMessage, StatusUpdate, update_status, MessageDb, NewMessage, is_key, change_row, new_row,
  try_create,
}

-- Two rows have different ids and different keys.
abbrev pub apart : ProcessedMessage → ProcessedMessage → Bool
apart r q = not (is_key r.source_chat_id r.source_message_id q) && not (q.id == r.id)

abbrev pub Unique : List ProcessedMessage → Type 0
Unique [] = Unit {0}
Unique (r ∷ rs) = All (λ q. apart r q ≡ true) rs × Unique rs

pub record IsKeyed (db : MessageDb) : Type 0 where
  pub below : All (λ (r : ProcessedMessage). r.id < db.next_id) db.rows
  pub unique : Unique db.rows

-- A write that leaves the id and the key alone.
abbrev pub KeepsKeys : (ProcessedMessage → ProcessedMessage) → Type 0
KeepsKeys f =
    (r : ProcessedMessage)
    → ((f r).id ≡ r.id)
      × ((f r).source_chat_id ≡ r.source_chat_id)
      × ((f r).source_message_id ≡ r.source_message_id)

pub update_status-KeepsKeys :
    (now : ℕ) (status : MessageStatus) (u : StatusUpdate) → KeepsKeys (update_status now status u)
unfolding update_status
update_status-KeepsKeys now status u r = (refl, refl, refl)

module _ (i : ℕ) (f : ProcessedMessage → ProcessedMessage) (keeps : KeepsKeys f) where
  abbrev changed : ProcessedMessage → ProcessedMessage
  changed q = if q.id == i then f q else q

  changed-keys : KeepsKeys changed
  changed-keys r = elim (Bool-cases (r.id == i)) [
    | inl b ↦ rw b (keeps r)
    | inr b ↦ rw b (refl, refl, refl)
  ]

  apart-changed : (r q : ProcessedMessage) → apart (changed r) (changed q) ≡ apart r q
  apart-changed r q = let (a, b, c) = changed-keys r in let (d, e, g) = changed-keys q in cc

  All-apart :
      (r : ProcessedMessage) (rows : List ProcessedMessage)
      → All (λ q. apart r q ≡ true) rows
      → All (λ q. apart (changed r) q ≡ true) (change_row i f rows)
  unfolding change_row
  All-apart r [] h = tt
  All-apart r (q ∷ qs) h = (apart-changed r q ∙ h.0, All-apart r qs h.1)

  Unique-change_row : (rows : List ProcessedMessage) → Unique rows → Unique (change_row i f rows)
  unfolding change_row
  Unique-change_row [] u = tt
  Unique-change_row (r ∷ rs) u = (All-apart r rs u.0, Unique-change_row rs u.1)

  below-change_row :
      (n : ℕ) (rows : List ProcessedMessage)
      → All (λ (r : ProcessedMessage). r.id < n) rows
      → All (λ (r : ProcessedMessage). r.id < n) (change_row i f rows)
  unfolding change_row
  below-change_row n [] h = tt
  below-change_row n (r ∷ rs) h =
      let (e, _, _) = changed-keys r in
      let first : r.id < n = h.0 in (omega arith, below-change_row n rs h.1)

  pub change_row-IsKeyed :
      (db : MessageDb) → IsKeyed db → IsKeyed (record db { rows = change_row i f db.rows })
  change_row-IsKeyed db k = record {
    below = below-change_row db.next_id db.rows k.below;
    unique = Unique-change_row db.rows k.unique;
  }

-- A row at the end that is apart from the others.
Unique-last :
    (r : ProcessedMessage) (rows : List ProcessedMessage)
    → All (λ q. apart q r ≡ true) rows
    → Unique rows
    → Unique (rows ++ r ∷ [])
Unique-last r [] h u = (tt, tt)
Unique-last r (q ∷ qs) h u =
    (All-append (λ p. apart q p ≡ true) qs (r ∷ []) u.0 (h.0, tt), Unique-last r qs h.1 u.1)

is_key-sym :
    (r q : ProcessedMessage)
    → is_key r.source_chat_id r.source_message_id q ≡ is_key q.source_chat_id q.source_message_id r
is_key-sym r q = ground arith

module _ (now : ℕ) (n : NewMessage) where
  new-apart :
      (next : ℕ) (rows : List ProcessedMessage)
      → All (λ (r : ProcessedMessage). r.id < next) rows
      → exists (is_key n.source_chat_id n.source_message_id) rows ≡ false
      → All (λ q. apart q (new_row now n next) ≡ true) rows
  new-apart next [] below fresh = tt
  new-apart next (q ∷ qs) below fresh =
      let first : q.id < next = below.0 in
      (ground (arith, is_key-sym q (new_row now n next)), new-apart next qs below.1 (ground arith))

  later :
      (next : ℕ) (rows : List ProcessedMessage)
      → All (λ (r : ProcessedMessage). r.id < next) rows
      → All (λ (r : ProcessedMessage). r.id < suc next) rows
  later next [] h = tt
  later next (r ∷ rs) h = let first : r.id < next = h.0 in (omega arith, later next rs h.1)

  pub try_create-IsKeyed : (db : MessageDb) → IsKeyed db → IsKeyed (try_create now n db).1
  unfolding try_create
  try_create-IsKeyed db k =
      elim (Bool-cases (exists (is_key n.source_chat_id n.source_message_id) db.rows)) [
        | inl b ↦ rw b k
        | inr b ↦ rw b (record {
          below =
              All-append _ db.rows (new_row now n db.next_id ∷ [])
                (later db.next_id db.rows k.below) (omega arith, tt);
          unique =
              Unique-last (new_row now n db.next_id) db.rows
                (new-apart db.next_id db.rows k.below b) k.unique;
        })
      ]
