-- ===== src/Streams/Kept.antt =====
-- What the consumer acknowledges and deletes.
use tg_forwarder.Prelude.{
  Bool, true, false, List, [], ◌∷◌, ◌++◌, All, All-append, ◌⊎◌, inl, inr, ◌≡◌, refl,
}
use tg_forwarder.Host.{Text}
use tg_forwarder.Streams.{
  Entry, Phase, Seen, Consumer, to, look, take_up, next_entry, consume, run, fresh,
}

-- The entry is in the list.
abbrev pub In : List Entry → Entry → Type 0
In [] e = ⊥
In (x ∷ xs) e = (x ≡ e) ⊎ In xs e

In-left : (xs ys : List Entry) (e : Entry) → In xs e → In (xs ++ ys) e
In-left [] ys e h = elim h [ ]
In-left (x ∷ xs) ys e (inl h) = inl h
In-left (x ∷ xs) ys e (inr h) = inr (In-left xs ys e h)

In-last : (xs : List Entry) (e : Entry) → In (xs ++ e ∷ []) e
In-last [] e = inl refl
In-last (x ∷ xs) e = inr (In-last xs e)

All-map :
    (P Q : Entry → Type 0) → ((e : Entry) → P e → Q e) → (es : List Entry) → All P es → All Q es
All-map P Q f [] h = tt
All-map P Q f (e ∷ es) h = (f e h.0, All-map P Q f es h.1)

module _ (decodes : Text → Bool) where
  -- The handler returned for the entry, or its payload cannot be decoded.
  abbrev pub Answered : List Entry → Entry → Type 0
  Answered handled e = In handled e ⊎ (decodes e.payload ≡ false)

  -- What is known of the entry the consumer is at.
  abbrev At : List Entry → List Entry → Phase → Type 0
  At handled acked Phase.reading = Unit
  At handled acked (Phase.handling e rest) = Unit
  At handled acked (Phase.acking e rest) = Answered handled e
  At handled acked (Phase.deleting e rest) = In acked e
  At handled acked Phase.finished = Unit

  record Kept (c : Consumer) : Type 0 where
    settled : All (Answered c.handled) c.acked
    first : All (In c.acked) c.deleted
    at : At c.handled c.acked c.phase

  At-look : (stop : Bool) (handled acked : List Entry) → At handled acked (look stop)
  unfolding look
  At-look true handled acked = tt
  At-look false handled acked = tt

  At-take_up :
      (known stop : Bool) (e : Entry) (rest handled acked : List Entry)
      → decodes e.payload ≡ known
      → At handled acked (take_up known stop e rest)
  unfolding take_up
  At-take_up true true e rest handled acked h = tt
  At-take_up true false e rest handled acked h = tt
  At-take_up false stop e rest handled acked h = inr h

  At-next_entry :
      (stop : Bool) (es handled acked : List Entry) → At handled acked (next_entry decodes stop es)
  unfolding next_entry
  At-next_entry stop [] handled acked = At-look stop handled acked
  At-next_entry stop (e ∷ rest) handled acked =
      At-take_up (decodes e.payload) stop e rest handled acked refl

  Kept-to : (p : Phase) (c : Consumer) → At c.handled c.acked p → Kept c → Kept (to p c)
  Kept-to p c at k = record { settled = k.settled; first = k.first; at = at }

  Answered-more :
      (handled : List Entry) (x e : Entry) → Answered handled e → Answered (handled ++ x ∷ []) e
  Answered-more handled x e (inl h) = inl (In-left handled _ e h)
  Answered-more handled x e (inr h) = inr h

  -- The handler returned, and the consumer goes to a phase for which that is enough.
  Kept-handled :
      (e : Entry) (p : Phase) (c : Consumer)
      → At (c.handled ++ e ∷ []) c.acked p
      → Kept c
      → Kept (record c { phase = p; handled = c.handled ++ e ∷ [] })
  Kept-handled e p c at k = record {
    settled = All-map _ _ (Answered-more c.handled e) c.acked k.settled;
    first = k.first;
    at = at;
  }

  Kept-consume :
      (p : Phase) (seen : Seen) (c : Consumer)
      → At c.handled c.acked p
      → Kept c
      → Kept (consume decodes p seen c)
  unfolding consume
  Kept-consume Phase.finished seen c at k = k
  Kept-consume Phase.reading (Seen.entries es stop) c at k =
      Kept-to _ c (At-next_entry stop es c.handled c.acked) k
  Kept-consume Phase.reading (Seen.answered stop) c at k =
      Kept-to _ c (At-look stop c.handled c.acked) k
  Kept-consume Phase.reading (Seen.failed stop) c at k =
      Kept-to _ c (At-look stop c.handled c.acked) k
  Kept-consume Phase.reading Seen.cancelled c at k = Kept-to _ c tt k
  Kept-consume (Phase.handling e rest) (Seen.entries es stop) c at k = k
  Kept-consume (Phase.handling e rest) (Seen.answered true) c at k = Kept-handled e _ c tt k
  Kept-consume (Phase.handling e rest) (Seen.answered false) c at k =
      Kept-handled e _ c (inl (In-last c.handled e)) k
  Kept-consume (Phase.handling e rest) (Seen.failed true) c at k = Kept-to _ c tt k
  Kept-consume (Phase.handling e rest) (Seen.failed false) c at k = Kept-to _ c tt k
  Kept-consume (Phase.handling e rest) Seen.cancelled c at k = Kept-to _ c tt k
  Kept-consume (Phase.acking e rest) (Seen.entries es stop) c at k = k
  Kept-consume (Phase.acking e rest) (Seen.answered stop) c at k = record {
    settled = All-append _ c.acked (e ∷ []) k.settled (at, tt);
    first = All-map _ _ (In-left c.acked _) c.deleted k.first;
    at = In-last c.acked e;
  }
  Kept-consume (Phase.acking e rest) (Seen.failed stop) c at k =
      Kept-to _ c (At-look stop c.handled c.acked) k
  Kept-consume (Phase.acking e rest) Seen.cancelled c at k = Kept-to _ c tt k
  Kept-consume (Phase.deleting e rest) (Seen.entries es stop) c at k = k
  Kept-consume (Phase.deleting e rest) (Seen.answered stop) c at k = record {
    settled = k.settled;
    first = All-append _ c.deleted (e ∷ []) k.first (at, tt);
    at = At-next_entry stop rest c.handled c.acked;
  }
  Kept-consume (Phase.deleting e rest) (Seen.failed stop) c at k =
      Kept-to _ c (At-look stop c.handled c.acked) k
  Kept-consume (Phase.deleting e rest) Seen.cancelled c at k = Kept-to _ c tt k

  run-Kept : (more : List Seen) (c : Consumer) → Kept c → Kept (run decodes more c)
  unfolding run
  run-Kept [] c k = k
  run-Kept (seen ∷ more) c k = run-Kept more _ (Kept-consume c.phase seen c k.at k)

  -- However the awaits of a new consumer end and whenever the stop event is set, every entry that
  -- it acknowledged was handled by a call of the handler that returned, or cannot be decoded, and
  -- every entry that it deleted was acknowledged.
  pub run-Answered :
      (more : List Seen)
      → All (Answered (run decodes more fresh).handled) (run decodes more fresh).acked
        × All (In (run decodes more fresh).acked) (run decodes more fresh).deleted
  run-Answered more =
      let k = run-Kept more fresh (record { settled = tt; first = tt; at = tt }) in
      (k.settled, k.first)
