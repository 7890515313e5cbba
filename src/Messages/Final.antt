-- ===== src/Messages/Final.antt =====
-- What becomes of a row that is `PUBLISHED`.
use mathlib.Core.Path.{subst}
use tg_forwarder.Prelude.{
  ℕ, ◌≡◌, ◌≢◌, refl, sym, true, false, none, some, List, [], ◌∷◌, arith, All, ok, Bool-cases, inl,
  inr,
}
use tg_forwarder.Prelude.Chats.{ℤ, same_chat→eq}
use tg_forwarder.Host.{Host}
use tg_forwarder.Message.{NormalizedMessage, MessageStatus}
use tg_forwarder.Processed.{
  ProcessedMessage, MessageDb, is_key, get_by_source, change_row, same_status,
}
use tg_forwarder.Processed.Rows.{
  IsKeyed, Unique, apart, KeepsKeys, change_row-IsKeyed, try_create-IsKeyed,
}
use tg_forwarder.Processed.Lookups.{
  get_by_source-change_row, get_by_source-try_create, get_by_source-key, found-id, All-found,
}
use tg_forwarder.Channels.{Routing}
use tg_forwarder.Messages.{Surroundings, State, Refreshed, elsewhere, refresh_routing}
use tg_forwarder.Messages.Process.{process_claimed, process_one}
use tg_forwarder.Messages.Claim.{get_or_create, is_settled, claim_row, claim}
use tg_forwarder.Messages.Enqueue.{Service}
use tg_forwarder.Messages.Laws.{Law, found}
use tg_forwarder.Messages.Runs.{Operation, Respects, run, run-Kept}

module _ (r : ProcessedMessage)
    (published : same_status r.status MessageStatus.published ≡ true) where
  -- The row is in the table as it is, and the keys are unique.
  abbrev pub Stands : MessageDb → Type 0
  Stands db = IsKeyed db × (get_by_source r.source_chat_id r.source_message_id db.rows ≡ some r)

  -- The key is not that of the row.
  abbrev pub Apart : ℤ → ℕ → Type 0
  Apart chat mid = is_key chat mid r ≡ false

  -- A message with the key of the row finds it.
  same_key :
      (m : NormalizedMessage) (db : MessageDb)
      → is_key m.source_chat_id m.source_message_id r ≡ true
      → Stands db
      → found m db ≡ some r
  same_key m db k (keyed, there) =
      let chat : r.source_chat_id ≡ m.source_chat_id =
        same_chat→eq r.source_chat_id m.source_chat_id (ground arith) in
      let mid : r.source_message_id ≡ m.source_message_id = ground arith in
      rw (sym chat, sym mid) there

  pub other_key :
      (m : NormalizedMessage) (db : MessageDb)
      → found m db ≢ some r
      → Stands db
      → Apart m.source_chat_id m.source_message_id
  other_key m db elsewhere_ stands =
      elim (Bool-cases (is_key m.source_chat_id m.source_message_id r)) [
        | inl k ↦ absurd (elsewhere_ (same_key m db k stands))
        | inr k ↦ k
      ]

  -- A change of a row with another id leaves the row.
  pub change-Stands :
      (q : ProcessedMessage) (f : ProcessedMessage → ProcessedMessage) (db : MessageDb)
      → r.id ≢ q.id
      → KeepsKeys f
      → Stands db
      → Stands (record db { rows = change_row q.id f db.rows })
  change-Stands q f db other keeps (keyed, there) = (
    change_row-IsKeyed q.id f keeps db keyed,
    get_by_source-change_row q.id f r.source_chat_id r.source_message_id db.rows r keeps other
        there,
  )

  pub found-other :
      (m : NormalizedMessage) (q : ProcessedMessage) (db : MessageDb)
      → Apart m.source_chat_id m.source_message_id
      → found m db ≡ some q
      → Stands db
      → r.id ≢ q.id
  found-other m q db other there (keyed, stands) same =
      let own = get_by_source-key m.source_chat_id m.source_message_id db.rows q there in
      let one : q ≡ r =
        found-id r.source_chat_id r.source_message_id m.source_chat_id m.source_message_id db.rows r
          q keyed.unique stands there (sym same) in
      let clash : is_key m.source_chat_id m.source_message_id r ≡ true = rw (sym one) own in
      absurd (ground arith)

  pub nothing-other :
      (m : NormalizedMessage) (db : MessageDb)
      → found m db ≡ none
      → Stands db
      → Apart m.source_chat_id m.source_message_id
  nothing-other m db nothing stands = other_key m db (λ e. absurd (ground arith)) stands

  pub unpublished-other :
      (m : NormalizedMessage) (q : ProcessedMessage) (db : MessageDb)
      → found m db ≡ some q
      → same_status q.status MessageStatus.published ≡ false
      → Stands db
      → Apart m.source_chat_id m.source_message_id
  unpublished-other m q db there open_ stands = other_key m db (λ e. absurd (ground arith)) stands

  far :
      (qs : List ProcessedMessage)
      → All (λ q. apart r q ≡ true) qs
      → All (λ q. same_status q.status MessageStatus.published ≡ false → r.id ≢ q.id) qs
  far [] h = tt
  far (q ∷ qs) h =
      let first : apart r q ≡ true = h.0 in ((λ open_ same. absurd (ground arith)), far qs h.1)

  pub listed-safe :
      (rows : List ProcessedMessage) (chat : ℤ) (mid : ℕ)
      → Unique rows
      → get_by_source chat mid rows ≡ some r
      → All (λ q. same_status q.status MessageStatus.published ≡ false → r.id ≢ q.id) rows
  unfolding get_by_source
  listed-safe [] chat mid u there = tt
  listed-safe (x ∷ xs) chat mid u there = elim (Bool-cases (is_key chat mid x)) [
    | inl b ↦
        let here : x ≡ r = ground arith in
        (
          λ open_ same. absurd (ground arith),
          far xs (subst (λ y. All (λ q. apart y q ≡ true) xs) here u.0),
        )
    | inr b ↦
        let there' : get_by_source chat mid xs ≡ some r = ground arith in
        let clear = All-found (λ q. apart x q ≡ true) chat mid xs r there' u.0 in
        (λ open_ same. absurd (ground arith), listed-safe xs chat mid u.1 there')
  ]

  abbrev pub final : Law
  final = record {
    P = Stands;
    K = Apart;
    Safe = λ q. r.id ≢ q.id;
    change = λ m q f db other keeps there stands.
        change-Stands q f db (found-other m q db other there stands) keeps stands;
    change_safe = λ q f db safe keeps stands. change-Stands q f db safe keeps stands;
    create = λ now n db stands. (
      try_create-IsKeyed now n db stands.0,
      get_by_source-try_create now n db r.source_chat_id r.source_message_id r stands.1,
    );
    missing = nothing-other;
    unpublished = unpublished-other;
    listed = λ db stands.
        listed-safe db.rows r.source_chat_id r.source_message_id stands.0.unique stands.1;
  }

  -- A published row stays as it is, whatever is queued, processed, recovered and retried in
  -- whatever order, if the other tasks leave it and the media service and the pipeline lead to no
  -- other message.
  pub run-Stands :
      (py : Host) (os : List Operation) (v : Service)
      → All (Respects final) os
      → Stands v.state.db.messages
      → Stands (run py os v).state.db.messages
  run-Stands py os v respects stands = run-Kept final py os v respects stands

  get_or_create-there :
      (e : Surroundings) (m : NormalizedMessage) (s : State)
      → found m s.db.messages ≡ some r
      → get_or_create e m s ≡ (some r, s)
  unfolding get_or_create
  get_or_create-there e m s there = rw (there, get_or_create) refl

  claim_row-none :
      (e : Surroundings) (fresh : Refreshed) (s : State) → claim_row e fresh (some r, s) ≡ (none, s)
  unfolding claim_row is_settled
  claim_row-none e fresh s = rw published refl

  claim-none :
      (e : Surroundings) (fresh : Refreshed) (s : State)
      → is_key fresh.message.source_chat_id fresh.message.source_message_id r ≡ true
      → Stands (e.meanwhile 0 s.db).messages
      → claim e fresh s ≡ (none, elsewhere e 0 s)
  unfolding claim
  claim-none e fresh s own stands =
      let there = same_key fresh.message (e.meanwhile 0 s.db).messages own stands in
      rw (get_or_create-there e fresh.message (elsewhere e 0 s) there)
        (claim_row-none e fresh (elsewhere e 0 s))

  -- A message whose row is published at the first transaction is neither sent nor written: nothing
  -- changes but for what other tasks do, and an exception can only come from the first read.
  pub process_one-again :
      (e : Surroundings) (m : NormalizedMessage) (s : State) (x : Routing)
      → e.routing 0 ≡ ok x
      → is_key m.source_chat_id m.source_message_id r ≡ true
      → Stands (e.meanwhile 0 s.db).messages
      → process_one e m s ≡ (none, elsewhere e 0 s)
  unfolding process_one process_claimed refresh_routing
  process_one-again e m s x read own stands =
      rw (read, process_one) (rw (claim-none e (refresh_routing x m) s own stands) refl)
