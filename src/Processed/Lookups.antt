-- ===== src/Processed/Lookups.antt =====
-- app/database/repositories/message_repo.py: look-ups by source after the operations on the rows.
use tg_forwarder.Prelude.{
  ℕ, ◌≡◌, ◌≢◌, refl, sym, true, false, none, some, List, ◌==◌, [], ◌∷◌, ◌++◌, arith, All, exists,
  Bool-cases, inl, inr, ==-refl,
}
use tg_forwarder.Prelude.Chats.{ℤ, same_chat_refl}
use tg_forwarder.Processed.{
  ProcessedMessage, MessageDb, NewMessage, is_key, get_by_source, change_row, new_row, try_create,
}
use tg_forwarder.Processed.Rows.{apart, Unique, KeepsKeys}

-- A key that is looked up and not there is not in the table.
absent :
    (chat : ℤ) (mid : ℕ) (rows : List ProcessedMessage)
    → get_by_source chat mid rows ≡ none
    → exists (is_key chat mid) rows ≡ false
unfolding get_by_source
absent chat mid [] h = refl
absent chat mid (r ∷ rs) h = ground (arith, absent chat mid rs)

get_by_source-last :
    (chat : ℤ) (mid : ℕ) (rows : List ProcessedMessage) (r : ProcessedMessage)
    → get_by_source chat mid rows ≡ none
    → is_key chat mid r ≡ true
    → get_by_source chat mid (rows ++ r ∷ []) ≡ some r
unfolding get_by_source
get_by_source-last chat mid [] r h k = rw k refl
get_by_source-last chat mid (q ∷ qs) r h k = ground (arith, get_by_source-last chat mid qs r)

-- A key that is not there is created, and then found.
pub try_create-found :
    (now : ℕ) (n : NewMessage) (db : MessageDb)
    → get_by_source n.source_chat_id n.source_message_id db.rows ≡ none
    → get_by_source n.source_chat_id n.source_message_id (try_create now n db).1.rows
        ≡ some (new_row now n db.next_id)
      × ((try_create now n db).0 ≡ some (new_row now n db.next_id))
unfolding try_create
try_create-found now n db h =
    let none_there = absent n.source_chat_id n.source_message_id db.rows h in
    let own : is_key n.source_chat_id n.source_message_id (new_row now n db.next_id) ≡ true =
      ground (arith, same_chat_refl n.source_chat_id) in
    rw none_there (get_by_source-last n.source_chat_id n.source_message_id db.rows _ h own, refl)

-- A new row changes no look-up that succeeds.
get_by_source-append :
    (chat : ℤ) (mid : ℕ) (rows more : List ProcessedMessage) (r : ProcessedMessage)
    → get_by_source chat mid rows ≡ some r
    → get_by_source chat mid (rows ++ more) ≡ some r
unfolding get_by_source
get_by_source-append chat mid [] more r h = absurd (ground arith)
get_by_source-append chat mid (q ∷ qs) more r h =
    ground (arith, get_by_source-append chat mid qs more r)

pub get_by_source-try_create :
    (now : ℕ) (n : NewMessage) (db : MessageDb) (chat : ℤ) (mid : ℕ) (r : ProcessedMessage)
    → get_by_source chat mid db.rows ≡ some r
    → get_by_source chat mid (try_create now n db).1.rows ≡ some r
unfolding try_create
get_by_source-try_create now n db chat mid r h =
    elim (Bool-cases (exists (is_key n.source_chat_id n.source_message_id) db.rows)) [
      | inl b ↦ rw b h
      | inr b ↦ rw b (get_by_source-append chat mid db.rows _ r h)
    ]

-- What is found has the key, and stands in the table.
pub get_by_source-key :
    (chat : ℤ) (mid : ℕ) (rows : List ProcessedMessage) (r : ProcessedMessage)
    → get_by_source chat mid rows ≡ some r
    → is_key chat mid r ≡ true
unfolding get_by_source
get_by_source-key chat mid [] r h = absurd (ground arith)
get_by_source-key chat mid (q ∷ qs) r h = ground (arith, get_by_source-key chat mid qs r)

-- A property of all rows holds of the one that is found.
pub All-found :
    (Q : ProcessedMessage → Type 0) (chat : ℤ) (mid : ℕ) (rows : List ProcessedMessage)
    (r : ProcessedMessage)
    → get_by_source chat mid rows ≡ some r
    → All Q rows
    → Q r
unfolding get_by_source
All-found Q chat mid [] r h all = absurd (ground arith)
All-found Q chat mid (q ∷ qs) r h all = elim (Bool-cases (is_key chat mid q)) [
  | inl b ↦ let same : q ≡ r = ground arith in rw (sym same) all.0
  | inr b ↦ All-found Q chat mid qs r (ground arith) all.1
]

-- Two keys that lead to one id lead to one row.
pub found-id :
    (chat : ℤ) (mid : ℕ) (chat' : ℤ) (mid' : ℕ) (rows : List ProcessedMessage)
    (r q : ProcessedMessage)
    → Unique rows
    → get_by_source chat mid rows ≡ some r
    → get_by_source chat' mid' rows ≡ some q
    → q.id ≡ r.id
    → q ≡ r
unfolding get_by_source
found-id chat mid chat' mid' [] r q u hr hq same = absurd (ground arith)
found-id chat mid chat' mid' (x ∷ xs) r q u hr hq same = elim (Bool-cases (is_key chat mid x)) [
  | inl a ↦ elim (Bool-cases (is_key chat' mid' x)) [
    | inl b ↦ ground arith
    | inr b ↦
        let far = All-found (λ p. apart x p ≡ true) chat' mid' xs q (ground arith) u.0 in
        absurd (ground arith)
  ]
  | inr a ↦ elim (Bool-cases (is_key chat' mid' x)) [
    | inl b ↦
        let far = All-found (λ p. apart x p ≡ true) chat mid xs r (ground arith) u.0 in
        absurd (ground arith)
    | inr b ↦ found-id chat mid chat' mid' xs r q u.1 (ground arith) (ground arith) same
  ]
]

-- A change of a row with another id is not seen by a look-up.
pub get_by_source-change_row :
    (i : ℕ) (f : ProcessedMessage → ProcessedMessage) (chat : ℤ) (mid : ℕ)
    (rows : List ProcessedMessage) (r : ProcessedMessage)
    → KeepsKeys f
    → r.id ≢ i
    → get_by_source chat mid rows ≡ some r
    → get_by_source chat mid (change_row i f rows) ≡ some r
unfolding get_by_source change_row
get_by_source-change_row i f chat mid [] r keeps other h = h
get_by_source-change_row i f chat mid (q ∷ qs) r keeps other h =
    let (e1, e2, e3) = keeps q in
    ground (arith, get_by_source-change_row i f chat mid qs r keeps other)

-- A change of the row that is found is seen by the same look-up.
pub get_by_source-changed :
    (f : ProcessedMessage → ProcessedMessage) (chat : ℤ) (mid : ℕ) (rows : List ProcessedMessage)
    (r : ProcessedMessage)
    → KeepsKeys f
    → get_by_source chat mid rows ≡ some r
    → get_by_source chat mid (change_row r.id f rows) ≡ some (f r)
unfolding get_by_source change_row
get_by_source-changed f chat mid [] r keeps h = absurd (ground arith)
get_by_source-changed f chat mid (q ∷ qs) r keeps h =
    let (e1, e2, e3) = keeps q in
    elim (Bool-cases (is_key chat mid q)) [
      | inl b ↦ let same : q ≡ r = ground arith in ground (arith, ==-refl r.id)
      | inr b ↦ ground (arith, get_by_source-changed f chat mid qs r keeps)
    ]

known :
    (chat : ℤ) (mid : ℕ) (rows : List ProcessedMessage) (r : ProcessedMessage)
    → get_by_source chat mid rows ≡ some r
    → exists (is_key chat mid) rows ≡ true
unfolding get_by_source
known chat mid [] r h = absurd (ground arith)
known chat mid (q ∷ qs) r h = ground (arith, known chat mid qs r)

-- A key that is found is not created again.
pub try_create-known :
    (now : ℕ) (n : NewMessage) (db : MessageDb) (r : ProcessedMessage)
    → get_by_source n.source_chat_id n.source_message_id db.rows ≡ some r
    → try_create now n db ≡ (none, db)
unfolding try_create
try_create-known now n db r h =
    let there = known n.source_chat_id n.source_message_id db.rows r h in rw there refl

none-last :
    (chat : ℤ) (mid : ℕ) (rows : List ProcessedMessage) (r : ProcessedMessage)
    → get_by_source chat mid rows ≡ none
    → is_key chat mid r ≡ false
    → get_by_source chat mid (rows ++ r ∷ []) ≡ none
unfolding get_by_source
none-last chat mid [] r h k = rw k refl
none-last chat mid (q ∷ qs) r h k = ground (arith, none-last chat mid qs r)

-- A row for another id does not make a key appear.
pub try_create-other :
    (now : ℕ) (n : NewMessage) (db : MessageDb) (chat : ℤ) (mid : ℕ)
    → (n.source_message_id == mid) ≡ false
    → get_by_source chat mid db.rows ≡ none
    → get_by_source chat mid (try_create now n db).1.rows ≡ none
unfolding try_create
try_create-other now n db chat mid other h =
    elim (Bool-cases (exists (is_key n.source_chat_id n.source_message_id) db.rows)) [
      | inl b ↦ rw b h
      | inr b ↦ rw b (none-last chat mid db.rows (new_row now n db.next_id) h (ground arith))
    ]
