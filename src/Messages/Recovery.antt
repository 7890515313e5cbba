-- ===== src/Messages/Recovery.antt =====
-- What `recover_pending` queues.
use tg_forwarder.Prelude.{
  ℕ, ◌≡◌, refl, sym, ap, ◌∙◌, ◌⊎◌, true, false, Option, none, some, List, [], ◌∷◌, ◌++◌, arith,
  if◌then◌else◌, Option-cases, Bool-cases, if-intro, inl, inr, ++_nil, ++_assoc,
}
use tg_forwarder.Host.{Host}
use tg_forwarder.Message.{NormalizedMessage}
use tg_forwarder.Processed.{ProcessedMessage, list_by_status}
use tg_forwarder.Messages.{rows_of}
use tg_forwarder.Messages.Enqueue.{Service, is_full}
use tg_forwarder.Messages.Recover.{
  Turn, queue_restored, unstick, has_ids, message_from_record, mark_invalid, recover_one, each_row,
  recoverable, recover_pending,
}

abbrev list_of : Option NormalizedMessage → List NormalizedMessage
list_of none = []
list_of (some m) = m ∷ []

-- The message that a row gives back: none where it was sent already, or where nothing usable is
-- stored.
abbrev restored_row : Host → ProcessedMessage → List NormalizedMessage
restored_row py row =
    if has_ids row.target_message_ids then [] else list_of (message_from_record py row)

abbrev pub restored : Host → List ProcessedMessage → List NormalizedMessage
restored py [] = []
restored py (row ∷ rows) = restored_row py row ++ restored py rows

module _ (py : Host) (now : ℕ) where
  abbrev pub IsFull : Service → Type 0
  IsFull v = is_full v.maxsize v.queue ≡ true

  -- A turn queues what its row gives back and goes on, or stops since the queue is full.
  abbrev Turns : ProcessedMessage → Service → Turn → Type 0
  Turns row v t =
      ((t.goes_on ≡ true)
        × (restored_row py row ≡ t.queued)
        × (t.service.queue ≡ v.queue ++ t.queued))
      ⊎ ((t.goes_on ≡ false) × (t.queued ≡ []) × (t.service.queue ≡ v.queue) × IsFull t.service)

  unstick-queue : (row : ProcessedMessage) (v : Service) → (unstick now row v).queue ≡ v.queue
  unstick-queue row v = ground arith

  -- A turn that comes to the message of its row.
  abbrev Queues : NormalizedMessage → Service → Turn → Type 0
  Queues m v t =
      ((t.goes_on ≡ true) × (t.queued ≡ m ∷ []) × (t.service.queue ≡ v.queue ++ m ∷ []))
      ⊎ ((t.goes_on ≡ false) × (t.queued ≡ []) × (t.service.queue ≡ v.queue) × IsFull t.service)

  queue_restored-Queues : (m : NormalizedMessage) (v : Service) → Queues m v (queue_restored m v)
  unfolding queue_restored
  queue_restored-Queues m v =
      if-intro (Queues m v) (is_full v.maxsize v.queue) _ _ (λ full. inr (refl, refl, refl, full))
        (λ _. inl (refl, refl, refl))

  turn_of :
      (row : ProcessedMessage) (m : NormalizedMessage) (v : Service)
      → message_from_record py row ≡ some m
      → has_ids row.target_message_ids ≡ false
      → (t : Turn) → Queues m (unstick now row v) t
      → Turns row v t
  turn_of row m v f b t (inl (go, queued, queue)) =
      inl (go, rw (b, f) (sym queued), queue ∙ rw (unstick-queue row v, queued) refl)
  turn_of row m v f b t (inr (stop, queued, queue, full)) =
      inr (stop, queued, queue ∙ unstick-queue row v, full)

  recover_one-found :
      (row : ProcessedMessage) (m : NormalizedMessage) (v : Service)
      → message_from_record py row ≡ some m
      → has_ids row.target_message_ids ≡ false
      → recover_one py now row v ≡ queue_restored m (unstick now row v)
  unfolding recover_one
  recover_one-found row m v f b = rw (b, f, recover_one) refl

  recover_one-Turns :
      (row : ProcessedMessage) (v : Service) → Turns row v (recover_one py now row v)
  unfolding recover_one mark_invalid
  recover_one-Turns row v = elim (Bool-cases (has_ids row.target_message_ids)) [
    | inl b ↦ rw b (inl (refl, refl, sym (++_nil v.queue)))
    | inr b ↦ elim (Option-cases (message_from_record py row)) [
      | inl f ↦ rw (b, f, recover_one) (inl (refl, refl, sym (++_nil v.queue)))
      | inr (m, f) ↦ rw (recover_one-found row m v f b) (
          turn_of row m v f b (queue_restored m (unstick now row v))
            (queue_restored-Queues m (unstick now row v)))
    ]
  ]

  abbrev pub Recovers : List ProcessedMessage → Service → List NormalizedMessage × Service → Type 0
  Recovers rows v got =
      (rest : List NormalizedMessage) × (restored py rows ≡ got.0 ++ rest)
      × (got.1.queue ≡ v.queue ++ got.0)
      × ((rest ≡ []) ⊎ IsFull got.1)

  each_row-Recovers :
      (rows : List ProcessedMessage) (v : Service)
      → Recovers rows v (each_row (recover_one py now) rows v)
  unfolding each_row
  each_row-Recovers [] v = ([], refl, sym (++_nil v.queue), inl refl)
  each_row-Recovers (row ∷ rows) v = elim (recover_one-Turns row v) [
    | inl (go, gives, queue) ↦
        let t = recover_one py now row v in
        let got = each_row (recover_one py now) rows t.service in
        let (rest, parts, more, end) = each_row-Recovers rows t.service in
        rw (go, each_row)
          (
            rest,
            ap (λ (l : List NormalizedMessage). l ++ restored py rows) gives
                ∙ ap (◌++◌ t.queued) parts
                ∙ sym (++_assoc t.queued got.0 rest),
            more
                ∙ ap (λ (l : List NormalizedMessage). l ++ got.0) queue
                ∙ ++_assoc v.queue t.queued got.0,
            end,
          )
    | inr (stop, nothing, queue, full) ↦
        let t = recover_one py now row v in
        rw (stop, each_row)
          (
            restored py (row ∷ rows),
            ap (λ (l : List NormalizedMessage). l ++ restored py (row ∷ rows)) (sym nothing),
            queue ∙ sym (++_nil v.queue) ∙ ap (◌++◌ v.queue) (sym nothing),
            inr full,
          )
  ]

  -- The recovery queues the messages that the first two hundred recoverable rows give back, in the
  -- order of the rows and behind what was queued before; it leaves some out only where the queue is
  -- full at its end.
  pub recover_pending-Recovers :
      (v : Service)
      → Recovers (list_by_status recoverable 200 (rows_of v.state)) v (recover_pending py now v)
  unfolding recover_pending
  recover_pending-Recovers v =
      each_row-Recovers (list_by_status recoverable 200 (rows_of v.state)) v
