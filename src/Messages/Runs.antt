-- ===== src/Messages/Runs.antt =====
-- The operations of the service one after the other, and what they keep.
use mathlib.Core.Path.{subst}
use tg_forwarder.Prelude.{
  ℕ, suc, sym, keep, ◌≡◌, refl, Bool, true, false, ◌||◌, Option, none, some, List, [], ◌∷◌, ◌==◌,
  arith, All, take, Option-cases, Bool-cases, if-intro, inl, inr,
}
use tg_forwarder.Host.{Host}
use tg_forwarder.Message.{NormalizedMessage, MessageStatus}
use tg_forwarder.Processed.{
  ProcessedMessage, MessageDb, StatusUpdate, no_update, update_status, update_payload, has_status,
  same_status, list_by_status,
}
use tg_forwarder.Processed.Rows.{update_status-KeepsKeys}
use tg_forwarder.Channels.{Routing, get_targets_for}
use tg_forwarder.Messages.{Raised, Db, Surroundings, State, aim, api_review_owned}
use tg_forwarder.Messages.Enqueue.{
  Service, Registered, duplicate, registered, is_duplicate, register_known, register_made,
  register_one, register, ids_to_register, put_nowait, admit, enqueue, worker_error, work_on, work,
  is_full,
}
use tg_forwarder.Messages.Process.{process_one}
use tg_forwarder.Messages.Recover.{
  Turn, queue_restored, unstick, has_ids, message_from_record, mark_invalid, recover_one, retry_one,
  each_row, recoverable, recover_pending, retry_failed,
}
use tg_forwarder.Messages.Stays.{process_one-Holds}
use tg_forwarder.Messages.Laws.{Law, Lasting, found}

pub data Operation : Type 0 where
  enqueues : ℕ → Routing → NormalizedMessage → Operation
  works : Surroundings → Operation
  recovers : ℕ → Operation
  retries : ℕ → ℕ → Operation

unfoldable pub operate : Host → Operation → Service → Service
operate py (enqueues now r m) v = (enqueue now r m v).1
operate py (works e) v = work e v
operate py (recovers now) v = (recover_pending py now v).1
operate py (retries now limit) v = (retry_failed py now limit v).1

unfoldable pub run : Host → List Operation → Service → Service
unfolding operate
run py [] v = v
run py (o ∷ os) v = run py os (operate py o v)

-- What follows the loop over the ids writes nothing.
pub admit-state :
    (m : NormalizedMessage) (got : Registered × State) (v : Service)
    → (admit m got v).1.state.db ≡ got.1.db
unfolding admit put_nowait
admit-state m (duplicate, s) v = refl
admit-state m (registered any primary, s) v = ground arith

module _ (law : Law) where
  open law use {P, Safe, change, change_safe, create, unpublished, listed}

  abbrev pub Kept : Service → Type 0
  Kept v = P v.state.db.messages

  -- The surroundings of an operation respect the property.
  abbrev pub Respects : Operation → Type 0
  Respects (works e) = Lasting law e
  Respects _ = Unit

  register_known-P :
      (m : NormalizedMessage) (any primary : Bool) (s : State)
      → P s.db.messages
      → P (register_known m any primary s).1.db.messages
  unfolding register_known update_payload
  register_known-P m any primary s h = elim (Option-cases (found m s.db.messages)) [
    | inl f ↦ rw (f, register_known) h
    | inr (row, f) ↦
        rw (f, register_known)
          (if-intro (λ (t : Registered × State). P t.1.db.messages) (is_duplicate row s.db) _ _
            (λ _. h)
            (λ fresh.
              change m row (update_payload m) s.db.messages
                (unpublished m row s.db.messages f (ground arith) h) (λ r. (refl, refl, refl)) f h))
  ]

  register_made-P :
      (m : NormalizedMessage) (mid : ℕ) (any primary : Bool) (s : State)
      (made : Option ProcessedMessage × MessageDb)
      → P s.db.messages
      → P made.1
      → P (register_made m mid any primary s made).1.db.messages
  unfolding register_made
  register_made-P m mid any primary s (some row, messages) h k = k
  register_made-P m mid any primary s (none, messages) h k =
      if-intro (λ (t : Registered × State). P t.1.db.messages) (mid == m.source_message_id) _ _
        (λ _. register_known-P m any primary s h) (λ _. h)

  register_one-P :
      (now : ℕ) (m : NormalizedMessage) (mid : ℕ) (any primary : Bool) (s : State)
      → P s.db.messages
      → P (register_one now m mid any primary s).1.db.messages
  unfolding register_one
  register_one-P now m mid any primary s h =
      register_made-P m mid any primary s _ h (create now _ s.db.messages h)

  register-P :
      (now : ℕ) (m : NormalizedMessage) (ids : List ℕ) (got : Registered × State)
      → P got.1.db.messages
      → P (register now m ids got).1.db.messages
  unfolding register
  register-P now m [] (duplicate, s) h = h
  register-P now m [] (registered any primary, s) h = h
  register-P now m (mid ∷ ids) (duplicate, s) h = h
  register-P now m (mid ∷ ids) (registered any primary, s) h =
      register-P now m ids (register_one now m mid any primary s)
        (register_one-P now m mid any primary s h)

  enqueue-Kept :
      (now : ℕ) (r : Routing) (m : NormalizedMessage) (v : Service)
      → Kept v
      → Kept (enqueue now r m v).1
  unfolding enqueue
  enqueue-Kept now r m v h =
      let aimed = aim (get_targets_for m.source_chat_id r) m in
      let got = register now aimed (ids_to_register aimed) (registered false false, v.state) in
      subst (λ (d : Db). P d.messages) (sym (admit-state aimed got v))
        (register-P now aimed (ids_to_register aimed) (registered false false, v.state) h)

  worker_error-db : (got : Option Raised × State) → (worker_error got).db ≡ got.1.db
  worker_error-db (none, s) = refl
  worker_error-db (some exc, s) = refl

  next-Kept :
      (e : Surroundings) (queue : List NormalizedMessage) (v : Service)
      → Lasting law e
      → Kept v
      → Kept (work_on e queue v)
  unfolding work_on
  next-Kept e [] v lasting h = h
  next-Kept e (m ∷ rest) v lasting h =
      subst (λ (d : Db). P d.messages) (sym (worker_error-db (process_one e m v.state)))
        (process_one-Holds law lasting m v.state h)

  work-Kept : (e : Surroundings) (v : Service) → Lasting law e → Kept v → Kept (work e v)
  unfolding work
  work-Kept e v lasting h = next-Kept e v.queue v lasting h

  -- Rows that were read once may be changed, whatever was changed since.
  each_row-Kept :
      (one : ProcessedMessage → Service → Turn)
      → ((q : ProcessedMessage) (v : Service) → Safe q → Kept v → Kept (one q v).service)
      → (rows : List ProcessedMessage) (v : Service) → All Safe rows
      → Kept v
      → Kept (each_row one rows v).1
  unfolding each_row
  each_row-Kept one step [] v safe h = h
  each_row-Kept one step (q ∷ qs) v safe h =
      let t = one q v in
      let there = step q v safe.0 h in
      if-intro (λ (x : List NormalizedMessage × Service). Kept x.1) t.goes_on _ _
        (λ _. each_row-Kept one step qs t.service safe.1 there) (λ _. there)

  room-Kept : (m : NormalizedMessage) (v : Service) → Kept v → Kept (queue_restored m v).service
  unfolding queue_restored
  room-Kept m v h =
      if-intro (λ (t : Turn). Kept t.service) (is_full v.maxsize v.queue) _ _ (λ _. h) (λ _. h)

  recover_one-Kept :
      (py : Host) (now : ℕ) (q : ProcessedMessage) (v : Service)
      → Safe q
      → Kept v
      → Kept (recover_one py now q v).service
  unfolding recover_one mark_invalid
  recover_one-Kept py now q v safe h =
      let changed = λ (status : MessageStatus) (u : StatusUpdate).
        change_safe q (update_status now status u) v.state.db.messages safe
          (update_status-KeepsKeys now status u) h in
      if-intro (λ (t : Turn). Kept t.service) (has_ids q.target_message_ids) _ _
        (λ _. changed MessageStatus.published no_update)
        (λ _. elim (Option-cases (message_from_record py q)) [
          | inl f ↦ rw (f, recover_one) (changed MessageStatus.failed _)
          | inr (m, f) ↦
              rw (f, recover_one)
                (room-Kept m (unstick now q v) (
                  if-intro Kept (same_status q.status MessageStatus.publishing) _ _
                    (λ _. changed MessageStatus.retrying no_update) (λ _. h)))
        ])

  retry_one-Kept :
      (py : Host) (now : ℕ) (q : ProcessedMessage) (v : Service)
      → Safe q
      → Kept v
      → Kept (retry_one py now q v).service
  unfolding retry_one mark_invalid
  retry_one-Kept py now q v safe h =
      let changed = λ (status : MessageStatus) (u : StatusUpdate).
        change_safe q (update_status now status u) v.state.db.messages safe
          (update_status-KeepsKeys now status u) h in
      if-intro (λ (t : Turn). Kept t.service)
        (has_ids q.target_message_ids || api_review_owned q v.state.db.review) _ _ (λ _. h)
        (λ _. elim (Option-cases (message_from_record py q)) [
          | inl f ↦ rw (f, retry_one) (changed MessageStatus.failed _)
          | inr (m, f) ↦ rw (f, retry_one) (changed MessageStatus.pending_publish no_update)
        ])

  All-take :
      (Q : ProcessedMessage → Type 0) (n : ℕ) (qs : List ProcessedMessage)
      → All Q qs
      → All Q (take n qs)
  All-take Q ℕ.zero qs h = tt
  All-take Q (suc n) [] h = tt
  All-take Q (suc n) (q ∷ qs) h = (h.0, All-take Q n qs h.1)

  -- The rows of some statuses, none of which is `PUBLISHED`, may be changed.
  safe_rows :
      (statuses : List MessageStatus) (rows : List ProcessedMessage)
      → ((q : ProcessedMessage)
          → has_status statuses q ≡ true
          → same_status q.status MessageStatus.published ≡ false)
      → All (λ q. same_status q.status MessageStatus.published ≡ false → Safe q) rows
      → All Safe (keep (has_status statuses) rows)
  safe_rows statuses [] apart_ h = tt
  safe_rows statuses (q ∷ qs) apart_ h = elim (Bool-cases (has_status statuses q)) [
    | inl b ↦ rw b (h.0 (apart_ q b), safe_rows statuses qs apart_ h.1)
    | inr b ↦ rw b (safe_rows statuses qs apart_ h.1)
  ]

  recoverable-apart :
      (q : ProcessedMessage)
      → has_status recoverable q ≡ true
      → same_status q.status MessageStatus.published ≡ false
  recoverable-apart q h = ground arith

  recover_pending-Kept :
      (py : Host) (now : ℕ) (v : Service) → Kept v → Kept (recover_pending py now v).1
  unfolding recover_pending list_by_status
  recover_pending-Kept py now v h =
      each_row-Kept (recover_one py now) (recover_one-Kept py now) _ v
        (All-take Safe 200 _
          (safe_rows recoverable _ recoverable-apart (listed v.state.db.messages h)))
        h

  retry_failed-Kept :
      (py : Host) (now limit : ℕ) (v : Service) → Kept v → Kept (retry_failed py now limit v).1
  unfolding retry_failed list_by_status
  retry_failed-Kept py now limit v h =
      each_row-Kept (retry_one py now) (retry_one-Kept py now) _ v
        (All-take Safe limit _ (
          safe_rows (MessageStatus.failed ∷ MessageStatus.retrying ∷ []) _ (λ q h. ground arith)
            (listed v.state.db.messages h)))
        h

  operate-Kept :
      (py : Host) (o : Operation) (v : Service) → Respects o → Kept v → Kept (operate py o v)
  unfolding operate
  operate-Kept py (enqueues now r m) v ok_ h = enqueue-Kept now r m v h
  operate-Kept py (works e) v ok_ h = work-Kept e v ok_ h
  operate-Kept py (recovers now) v ok_ h = recover_pending-Kept py now v h
  operate-Kept py (retries now limit) v ok_ h = retry_failed-Kept py now limit v h

  -- A property that the surroundings respect is kept by any operations of the service.
  pub run-Kept :
      (py : Host) (os : List Operation) (v : Service)
      → All Respects os
      → Kept v
      → Kept (run py os v)
  unfolding run
  run-Kept py [] v ok_ h = h
  run-Kept py (o ∷ os) v ok_ h = run-Kept py os (operate py o v) ok_.1 (operate-Kept py o v ok_.0 h)
