-- ===== src/Messages/Registers.antt =====
-- app/services/message_service.py, the loop of `enqueue` over the ids that it registers.
use tg_forwarder.Prelude.{
  ℕ, ◌≡◌, refl, ap, ◌∙◌, Bool, true, false, Option, none, some, List, [], ◌∷◌, ◌==◌, ==→eq, arith,
  exists, Bool-cases, inl, inr,
}
use tg_forwarder.Message.{NormalizedMessage}
use tg_forwarder.Processed.{ProcessedMessage, MessageDb, get_by_source, has_status}
use tg_forwarder.Processed.Lookups.{try_create-known, get_by_source-try_create, try_create-other}
use tg_forwarder.Messages.{State}
use tg_forwarder.Messages.Claim.{as_new}
use tg_forwarder.Messages.Enqueue.{
  part_status, part_payload, duplicate, registered, known_statuses, is_duplicate, register_known,
  register_made, register_one, register,
}
use tg_forwarder.Messages.Laws.{found}

module _ (now : ℕ) (m : NormalizedMessage) where
  -- A turn for another id leaves what is found.
  other_made :
      (mid : ℕ) (any primary : Bool) (s : State) (sought : Option ProcessedMessage)
      (made : Option ProcessedMessage × MessageDb)
      → (mid == m.source_message_id) ≡ false
      → found m s.db.messages ≡ sought
      → found m made.1 ≡ sought
      → (any' : Bool) × (primary' : Bool) × (s' : State) × (register_made m mid any primary s made
          ≡ (registered any' primary', s'))
        × (found m s'.db.messages ≡ sought)
  unfolding register_made
  other_made mid any primary s sought (some new, messages) other h k = (true, _, _, refl, k)
  other_made mid any primary s sought (none, messages) other h k =
      (any, primary, s, rw other refl, h)

  register_one-other :
      (mid : ℕ) (any primary : Bool) (s : State) (row : ProcessedMessage)
      → (mid == m.source_message_id) ≡ false
      → found m s.db.messages ≡ some row
      → (any' : Bool) × (primary' : Bool) × (s' : State) × (register_one now m mid any primary s
          ≡ (registered any' primary', s'))
        × (found m s'.db.messages ≡ some row)
  unfolding register_one
  register_one-other mid any primary s row other h =
      other_made mid any primary s (some row) _ other h (
        get_by_source-try_create now (as_new m mid (part_status m mid) (part_payload m mid))
          s.db.messages m.source_chat_id m.source_message_id row h)

  pub register_one-still_new :
      (mid : ℕ) (any primary : Bool) (s : State)
      → (mid == m.source_message_id) ≡ false
      → found m s.db.messages ≡ none
      → (any' : Bool) × (primary' : Bool) × (s' : State) × (register_one now m mid any primary s
          ≡ (registered any' primary', s'))
        × (found m s'.db.messages ≡ none)
  unfolding register_one
  register_one-still_new mid any primary s other h = other_made mid any primary s none _ other h (
      try_create-other now (as_new m mid (part_status m mid) (part_payload m mid)) s.db.messages
        m.source_chat_id m.source_message_id other h)

  -- The turn for the id of the message, whose row is known.
  register_one-known :
      (mid : ℕ) (any primary : Bool) (s : State) (row : ProcessedMessage)
      → (mid == m.source_message_id) ≡ true
      → found m s.db.messages ≡ some row
      → register_one now m mid any primary s ≡ register_known m any primary s
  unfolding register_one register_made
  register_one-known mid any primary s row own h =
      let same : mid ≡ m.source_message_id = ==→eq mid m.source_message_id own in
      let n = as_new m mid (part_status m mid) (part_payload m mid) in
      let there : get_by_source m.source_chat_id mid s.db.messages.rows ≡ some row = rw same h in
      rw (try_create-known now n s.db.messages row there) (rw own refl)

  register_known-duplicate :
      (any primary : Bool) (s : State) (row : ProcessedMessage)
      → found m s.db.messages ≡ some row
      → has_status known_statuses row ≡ true
      → register_known m any primary s ≡ (duplicate, s)
  unfolding register_known
  register_known-duplicate any primary s row h known =
      let refused : is_duplicate row s.db ≡ true = ground arith in
      rw (h, register_known) (rw refused refl)

  register_done : (ids : List ℕ) (s : State) → register now m ids (duplicate, s) ≡ (duplicate, s)
  unfolding register
  register_done [] s = refl
  register_done (i ∷ is) s = refl

  pub register-cons :
      (i : ℕ) (is : List ℕ) (any primary : Bool) (s : State)
      → register now m (i ∷ is) (registered any primary, s)
        ≡ register now m is (register_one now m i any primary s)
  unfolding register
  register-cons i is any primary s = refl

  -- The loop ends at the id of a message that is known, and its row stays.
  pub register-duplicate :
      (ids : List ℕ) (any primary : Bool) (s : State) (row : ProcessedMessage)
      → exists (λ i. i == m.source_message_id) ids ≡ true
      → found m s.db.messages ≡ some row
      → has_status known_statuses row ≡ true
      → (s' : State) × (register now m ids (registered any primary, s) ≡ (duplicate, s'))
        × (found m s'.db.messages ≡ some row)
  register-duplicate [] any primary s row mine h known = absurd (ground arith)
  register-duplicate (i ∷ is) any primary s row mine h known =
      elim (Bool-cases (i == m.source_message_id)) [
        | inl own ↦ (
          s,
          register-cons i is any primary s
              ∙ ap (register now m is) (
                  register_one-known i any primary s row own h
                  ∙ register_known-duplicate any primary s row h known)
              ∙ register_done is s,
          h,
        )
        | inr other ↦
            let (any', primary', s', e, k) = register_one-other i any primary s row other h in
            let (t, f, l) = register-duplicate is any' primary' s' row (ground arith) k known in
            (t, register-cons i is any primary s ∙ ap (register now m is) e ∙ f, l)
      ]
