-- ===== src/Messages/Queueing.antt =====
-- What `enqueue` refuses, what it leaves in the table, and what the recovery queues.
use mathlib.Core.Path.{subst}
use tg_forwarder.Prelude.{
  ℕ, ◌≡◌, refl, sym, Bool, true, false, Option, none, some, List, [], ◌∷◌, ◌++◌, ◌==◌, ==→eq, arith,
  exists, Bool-cases, if-intro, inl, inr,
}
use tg_forwarder.Message.{NormalizedMessage, MessageStatus}
use tg_forwarder.Processed.{
  ProcessedMessage, MessageDb, new_row, try_create, update_payload, has_status,
}
use tg_forwarder.Processed.Lookups.{
  try_create-found, get_by_source-try_create, get_by_source-changed,
}
use tg_forwarder.Channels.{Routing, get_targets_for}
use tg_forwarder.Messages.Runs.{admit-state}
use tg_forwarder.Messages.{Db, State, aim}
use tg_forwarder.Messages.Claim.{as_new}
use tg_forwarder.Messages.Enqueue.{
  Service, part_status, part_payload, Registered, duplicate, registered, known_statuses,
  is_duplicate, register_known, register_made, register_one, register, ids_to_register, put_nowait,
  admit, enqueue,
}
use tg_forwarder.Messages.Laws.{found}
use tg_forwarder.Messages.Registers.{register_one-still_new, register-cons, register-duplicate}

-- A message whose row is `PUBLISHED`, `FILTERED`, `PUBLISHING`, `PENDING_PUBLISH` or `PROCESSING`,
-- and whose id is among those that it registers, is refused: the queue stays, and so does its row.
pub enqueue-duplicate :
    (now : ℕ) (r : Routing) (m : NormalizedMessage) (v : Service) (row : ProcessedMessage)
    → exists (λ i. i == m.source_message_id) (ids_to_register m) ≡ true
    → found m v.state.db.messages ≡ some row
    → has_status known_statuses row ≡ true
    → ((enqueue now r m v).0 ≡ false)
      × ((enqueue now r m v).1.queue ≡ v.queue)
      × (found m (enqueue now r m v).1.state.db.messages ≡ some row)
unfolding enqueue admit
enqueue-duplicate now r m v row mine h known =
    let aimed = aim (get_targets_for m.source_chat_id r) m in
    let (s', e, k) =
      register-duplicate now aimed (ids_to_register aimed) false false v.state row mine h known in
    rw e (refl, refl, k)

-- The row of a message that was received and is to be processed.
abbrev pub Awaits : NormalizedMessage → Db → Type 0
Awaits m db =
    (row : ProcessedMessage) × (found m db.messages ≡ some row)
    × (row.status ≡ MessageStatus.received)
    × (row.processing_result ≡ some m)
    × (row.target_message_ids ≡ none)

module _ (now : ℕ) (m : NormalizedMessage) where
  register_known-Awaits :
      (any primary : Bool) (s : State)
      → Awaits m s.db
      → Awaits m (register_known m any primary s).1.db
  unfolding register_known update_payload
  register_known-Awaits any primary s (row, h, a, b, c) =
      rw (h, register_known)
        (if-intro (λ (t : Registered × State). Awaits m t.1.db) (is_duplicate row s.db) _ _
          (λ _. (row, h, a, b, c))
          (λ _. (
            update_payload m row,
            get_by_source-changed (update_payload m) m.source_chat_id m.source_message_id
                s.db.messages.rows row (λ r. (refl, refl, refl)) h,
            a,
            refl,
            c,
          )))

  register_made-Awaits :
      (mid : ℕ) (any primary : Bool) (s : State) (made : Option ProcessedMessage × MessageDb)
      → Awaits m s.db
      → ((row : ProcessedMessage) → found m s.db.messages ≡ some row → found m made.1 ≡ some row)
      → Awaits m (register_made m mid any primary s made).1.db
  unfolding register_made
  register_made-Awaits mid any primary s (some new, messages) (row, h, a, b, c) kept =
      (row, kept row h, a, b, c)
  register_made-Awaits mid any primary s (none, messages) w kept =
      if-intro (λ (t : Registered × State). Awaits m t.1.db) (mid == m.source_message_id) _ _
        (λ _. register_known-Awaits any primary s w) (λ _. w)

  register-Awaits :
      (ids : List ℕ) (got : Registered × State)
      → Awaits m got.1.db
      → Awaits m (register now m ids got).1.db
  unfolding register register_one
  register-Awaits [] (duplicate, s) w = w
  register-Awaits [] (registered any primary, s) w = w
  register-Awaits (i ∷ is) (duplicate, s) w = w
  register-Awaits (i ∷ is) (registered any primary, s) w = register-Awaits is _ (
      register_made-Awaits i any primary s _ w (λ row h.
        get_by_source-try_create now (as_new m i (part_status m i) (part_payload m i)) s.db.messages
          m.source_chat_id m.source_message_id row h))

  as_primary :
      (mid : ℕ)
      → (mid == m.source_message_id) ≡ true
      → as_new m mid (part_status m mid) (part_payload m mid)
        ≡ as_new m m.source_message_id MessageStatus.received (some m)
  as_primary mid own =
      let same : mid ≡ m.source_message_id = ==→eq mid m.source_message_id own in ground arith

  -- The turn for the id of a message that is new.
  register_one-new :
      (mid : ℕ) (any primary : Bool) (s : State)
      → (mid == m.source_message_id) ≡ true
      → found m s.db.messages ≡ none
      → Awaits m (register_one now m mid any primary s).1.db
  unfolding register_one register_made
  register_one-new mid any primary s own h =
      let n = as_new m m.source_message_id MessageStatus.received (some m) in
      let (there, made) = try_create-found now n s.db.messages h in
      let created = try_create now n s.db.messages in
      let P = λ (o : Option ProcessedMessage).
        Awaits m (register_made m mid any primary s (o, created.1)).1.db in
      rw (as_primary mid own)
        (subst P (sym made) (new_row now n s.db.messages.next_id, there, refl, refl, refl))

  register-new :
      (ids : List ℕ) (any primary : Bool) (s : State)
      → exists (λ i. i == m.source_message_id) ids ≡ true
      → found m s.db.messages ≡ none
      → Awaits m (register now m ids (registered any primary, s)).1.db
  register-new [] any primary s mine h = absurd (ground arith)
  register-new (i ∷ is) any primary s mine h = elim (Bool-cases (i == m.source_message_id)) [
    | inl own ↦ rw (register-cons now m i is any primary s) (
        register-Awaits is (register_one now m i any primary s)
          (register_one-new i any primary s own h))
    | inr other ↦
        let (any', primary', s', e, k) = register_one-still_new now m i any primary s other h in
        rw (register-cons now m i is any primary s)
          (rw e (register-new is any' primary' s' (ground arith) k))
  ]

admit-queue :
    (m : NormalizedMessage) (got : Registered × State) (v : Service)
    → (admit m got v).0 ≡ true
    → (admit m got v).1.queue ≡ v.queue ++ m ∷ []
unfolding admit put_nowait
admit-queue m (duplicate, s) v h = absurd (ground arith)
admit-queue m (registered any primary, s) v h = ground arith

-- A message that is new, and whose id is among those that it registers, has its row after
-- `enqueue`, as received and with what the recovery needs, also where the queue is full and
-- `enqueue` returns False; where it returns True, the message is the last of the queue.
pub enqueue-Awaits :
    (now : ℕ) (r : Routing) (m : NormalizedMessage) (v : Service)
    → exists (λ i. i == m.source_message_id) (ids_to_register m) ≡ true
    → found m v.state.db.messages ≡ none
    → Awaits (aim (get_targets_for m.source_chat_id r) m) (enqueue now r m v).1.state.db
      × ((enqueue now r m v).0 ≡ true
          → (enqueue now r m v).1.queue
            ≡ v.queue ++ aim (get_targets_for m.source_chat_id r) m ∷ [])
unfolding enqueue
enqueue-Awaits now r m v mine h =
    let aimed = aim (get_targets_for m.source_chat_id r) m in
    let got = register now aimed (ids_to_register aimed) (registered false false, v.state) in
    let waits = register-new now aimed (ids_to_register aimed) false false v.state mine h in
    (subst (Awaits aimed) (sym (admit-state aimed got v)) waits, admit-queue aimed got v)
