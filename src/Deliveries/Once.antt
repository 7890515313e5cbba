-- ===== src/Deliveries/Once.antt =====
-- app/services/api_delivery_service.py, `enqueue`: a message is queued once for an endpoint.
use tg_forwarder.Prelude.{
  ℕ, ◌≡◌, refl, ◌∙◌, ap, true, List, [], ◌∷◌, ◌++◌, arith, All, Bool-cases, inl, inr,
}
use tg_forwarder.Prelude.Chats.{ℤ}
use tg_forwarder.Channels.{Routing, active_endpoint_ids}
use tg_forwarder.Deliveries.{
  ApiDelivery, Queue, Parcel, is_delivery, has_delivery, enqueue_one, enqueue_all, enqueue,
}

module _ (p : Parcel) where
  abbrev Has : Queue → ℕ → Type 0
  Has q e = has_delivery e p.processed_message_id q.rows ≡ true

  has-append :
      (e : ℕ) (rows more : List ApiDelivery)
      → has_delivery e p.processed_message_id rows ≡ true
      → has_delivery e p.processed_message_id (rows ++ more) ≡ true
  unfolding has_delivery
  has-append e [] more h = absurd (ground arith)
  has-append e (d ∷ ds) more h = ground (arith, has-append e ds more)

  has-new :
      (e : ℕ) (rows : List ApiDelivery) (d : ApiDelivery)
      → is_delivery e p.processed_message_id d ≡ true
      → has_delivery e p.processed_message_id (rows ++ d ∷ []) ≡ true
  unfolding has_delivery
  has-new e [] d h = ground arith
  has-new e (d' ∷ ds) d h = ground (arith, has-new e ds d h)

  enqueue_one-Has : (e : ℕ) (q : Queue) → Has (enqueue_one p e q) e
  unfolding enqueue_one
  enqueue_one-Has e q = elim (Bool-cases (has_delivery e p.processed_message_id q.rows)) [
    | inl b ↦ rw (b, b) refl
    | inr b ↦ rw b (has-new e q.rows _ (ground arith))
  ]

  enqueue_one-keeps : (e f : ℕ) (q : Queue) → Has q f → Has (enqueue_one p e q) f
  unfolding enqueue_one
  enqueue_one-keeps e f q h = elim (Bool-cases (has_delivery e p.processed_message_id q.rows)) [
    | inl b ↦ rw (b, h) refl
    | inr b ↦ rw b (has-append f q.rows _ h)
  ]

  enqueue_one-there : (e : ℕ) (q : Queue) → Has q e → enqueue_one p e q ≡ q
  unfolding enqueue_one
  enqueue_one-there e q h = rw h refl

  enqueue_all-keeps : (es : List ℕ) (f : ℕ) (q : Queue) → Has q f → Has (enqueue_all p es q) f
  unfolding enqueue_all
  enqueue_all-keeps [] f q h = h
  enqueue_all-keeps (e ∷ es) f q h =
      enqueue_all-keeps es f (enqueue_one p e q) (enqueue_one-keeps e f q h)

  enqueue_all-Has : (es : List ℕ) (q : Queue) → All (Has (enqueue_all p es q)) es
  unfolding enqueue_all
  enqueue_all-Has [] q = tt
  enqueue_all-Has (e ∷ es) q = (
    enqueue_all-keeps es e (enqueue_one p e q) (enqueue_one-Has e q),
    enqueue_all-Has es (enqueue_one p e q),
  )

  enqueue_all-there : (es : List ℕ) (q : Queue) → All (Has q) es → enqueue_all p es q ≡ q
  unfolding enqueue_all
  enqueue_all-there [] q h = refl
  enqueue_all-there (e ∷ es) q h =
      ap (enqueue_all p es) (enqueue_one-there e q h.0) ∙ enqueue_all-there es q h.1

-- Every endpoint that `enqueue` returns has a delivery of the message afterwards.
pub enqueue-delivered :
    (r : Routing) (chat : ℤ) (candidates : List ℕ) (p : Parcel) (q : Queue)
    → All
        (λ (e : ℕ).
          has_delivery e p.processed_message_id (enqueue r chat candidates p q).1.rows ≡ true)
        (enqueue r chat candidates p q).0
unfolding enqueue
enqueue-delivered r chat candidates p q =
    enqueue_all-Has p (active_endpoint_ids chat candidates r) q

-- A second `enqueue` of the same message to the same endpoints adds nothing to the queue and
-- returns the same endpoints, whatever the payload of the second one.
pub enqueue-again :
    (r : Routing) (chat : ℤ) (candidates : List ℕ) (p p' : Parcel) (q : Queue)
    → p'.processed_message_id ≡ p.processed_message_id
    → enqueue r chat candidates p' (enqueue r chat candidates p q).1 ≡ enqueue r chat candidates p q
unfolding enqueue
enqueue-again r chat candidates p p' q same =
    let es = active_endpoint_ids chat candidates r in
    ap (λ (q' : Queue). (es, q'))
      (enqueue_all-there p' es (enqueue_all p es q) (rw same (enqueue_all-Has p es q)))
