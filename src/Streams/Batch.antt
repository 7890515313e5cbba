-- ===== src/Streams/Batch.antt =====
-- The entries of one read, when Redis answers and the stop event is not set.
use tg_forwarder.Prelude.{
  ℕ, zero, suc, Bool, true, false, List, [], ◌∷◌, ◌++◌, keep, if◌then◌else◌, ◌≡◌, refl, ◌∙◌, ++_nil,
  ++_assoc,
}
use tg_forwarder.Host.{Text}
use tg_forwarder.Streams.{
  Entry, Phase, Seen, Consumer, look, take_up, next_entry, consume, run, fresh,
}

-- The handler raises that often before it returns, and Redis answers to `xack` and `xdel`.
abbrev pub failures_then : ℕ → List Seen → List Seen
failures_then zero more = Seen.answered false ∷ more
failures_then (suc n) more = Seen.failed false ∷ failures_then n more

abbrev removed : List Seen → List Seen
removed more = Seen.answered false ∷ Seen.answered false ∷ more

module _ (decodes : Text → Bool) (failures : Entry → ℕ) where
  -- The awaits for the entries of a read.
  abbrev pub awaits : List Entry → List Seen
  awaits [] = []
  awaits (e ∷ rest) =
      let more = removed (awaits rest) in
      if decodes e.payload then failures_then (failures e) more else more

  abbrev state : Phase → List Entry → List Entry → List Entry → Consumer
  state p handled acked deleted = record {
    phase = p;
    handled = handled;
    acked = acked;
    deleted = deleted;
  }

  abbrev settle : Bool → Entry → List Entry → List Entry
  settle known e handled = if known then handled ++ e ∷ [] else handled

  handler_returns :
      (n : ℕ) (e : Entry) (rest handled acked deleted : List Entry) (more : List Seen)
      → run decodes (failures_then n more) (state (Phase.handling e rest) handled acked deleted)
        ≡ run decodes more (state (Phase.acking e rest) (handled ++ e ∷ []) acked deleted)
  unfolding run consume
  handler_returns zero e rest handled acked deleted more = refl
  handler_returns (suc n) e rest handled acked deleted more =
      handler_returns n e rest handled acked deleted more

  one_entry :
      (known : Bool) (n : ℕ) (e : Entry) (rest handled acked deleted : List Entry)
      (more : List Seen)
      → run decodes
          (if known then failures_then n (removed more) else removed more)
          (state (take_up known false e rest) handled acked deleted)
        ≡ run decodes more (
            state
              (next_entry decodes false rest)
              (settle known e handled)
              (acked ++ e ∷ [])
              (deleted ++ e ∷ []))
  unfolding run consume take_up
  one_entry true n e rest handled acked deleted more =
      handler_returns n e rest handled acked deleted (removed more)
  one_entry false n e rest handled acked deleted more = refl

  settle-keep :
      (known : Bool) (e : Entry) (handled kept : List Entry)
      → settle known e handled ++ kept ≡ handled ++ (if known then e ∷ kept else kept)
  settle-keep true e handled kept = ++_assoc handled (e ∷ []) kept
  settle-keep false e handled kept = refl

  abbrev pub handled_of : List Entry → List Entry
  handled_of es = keep (λ e. decodes e.payload) es

  batch :
      (es handled acked deleted : List Entry)
      → run decodes (awaits es) (state (next_entry decodes false es) handled acked deleted)
        ≡ state Phase.reading (handled ++ handled_of es) (acked ++ es) (deleted ++ es)
  unfolding next_entry look run
  batch [] handled acked deleted = rw (++_nil handled, ++_nil acked, ++_nil deleted) refl
  batch (e ∷ rest) handled acked deleted =
      one_entry (decodes e.payload) (failures e) e rest handled acked deleted (awaits rest)
      ∙ batch rest _ _ _
      ∙ rw
          (
            settle-keep (decodes e.payload) e handled (handled_of rest),
            ++_assoc acked (e ∷ []) rest,
            ++_assoc deleted (e ∷ []) rest,
          )
          refl

  -- When Redis answers and the stop event is not set, the entries of a read are all acknowledged
  -- and deleted, in their order, after the handler returned for each one that can be decoded and
  -- for no other, however often it raised for it before; then the consumer reads again.
  pub run-batch :
      (es : List Entry)
      → run decodes (Seen.entries es false ∷ awaits es) fresh
        ≡ record { phase = Phase.reading; handled = handled_of es; acked = es; deleted = es }
  unfolding run consume
  run-batch es = batch es [] [] []
