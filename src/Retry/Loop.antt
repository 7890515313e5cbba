-- ===== src/Retry/Loop.antt =====
-- The loop over the attempts of the publishers.
use tg_forwarder.Prelude.{
  ℕ, zero, suc, true, false, Option, none, List, ◌⊎◌, inl, inr, ◌≡◌, refl, sym, ◌≤◌, ◌<◌, ◌+◌, leb,
  ltb, arith, Bool-cases, if◌then◌else◌, not,
}
use tg_forwarder.Retry.{
  RetryClass, Exception, classify_exception, may_retry, is_fatal, should_retry, Ended, Published,
  ends, Sender, telegram_turn, telegram_loop, telegram_publish, safew_turn, safew_loop,
  safew_publish,
}

-- The call failed with an exception that may be retried.
abbrev pub Failed : Exception ⊎ List ℕ → Type 0
Failed answer = (exc : Exception) × (answer ≡ inl exc) × (may_retry (classify_exception exc) ≡ true)

-- What the last call gave.
abbrev pub Last : Sender → ℕ → ℕ → Ended → Type 0
Last send max_retries calls (Ended.returned ids) = send calls ≡ inr ids
Last send max_retries calls (Ended.raised exc) =
    (send calls ≡ inl exc) × ((may_retry (classify_exception exc) ≡ false) ⊎ (calls ≡ max_retries))
Last send max_retries calls Ended.no_answer = ⊥
Last send max_retries calls Ended.out_of_fuel = ⊥

-- The calls from `attempt` on.
pub record Tried (send : Sender) (max_retries attempt : ℕ) (p : Published) : Type 0 where
  pub called : attempt < p.calls
  pub few : p.calls ≤ max_retries
  pub earlier : (j : ℕ) → attempt < j → j < p.calls → Failed (send j)
  pub last : Last send max_retries p.calls p.ended

module _ (send : Sender) (max_retries : ℕ) where
  -- A call that ends the loop.
  stops :
      (attempt : ℕ) (ended : Ended)
      → attempt < max_retries
      → Last send max_retries (suc attempt) ended
      → Tried send max_retries attempt (ends (suc attempt) ended)
  stops attempt ended h last = record {
    called = omega arith;
    few = omega arith;
    earlier = λ j h1 h2. absurd (omega arith);
    last = last;
  }

  -- A call that goes on.
  goes_on :
      (attempt : ℕ) (rest : Published)
      → Failed (send (suc attempt))
      → Tried send max_retries (suc attempt) rest
      → Tried send max_retries attempt rest
  goes_on attempt rest failed t =
      let called = t.called in
      record {
        called = omega arith;
        few = t.few;
        earlier = λ j h1 h2. elim (Bool-cases (leb j (suc attempt))) [
          | inl b ↦ let e : suc attempt ≡ j = ground arith in rw (sym e) failed
          | inr b ↦ t.earlier j (ground arith) h2
        ];
        last = t.last;
      }

  turn-Tried :
      (attempt : ℕ) (rest : Published) (answer : Exception ⊎ List ℕ)
      → send (suc attempt) ≡ answer
      → attempt < max_retries
      → (suc attempt < max_retries → Tried send max_retries (suc attempt) rest)
      → Tried send max_retries attempt (safew_turn max_retries (suc attempt) rest answer)
  unfolding safew_turn should_retry
  turn-Tried attempt rest (inr ids) e h more = stops attempt (Ended.returned ids) h e
  turn-Tried attempt rest (inl exc) e h more = elim (Bool-cases (leb max_retries (suc attempt))) [
    | inl b ↦
        let at : suc attempt ≡ max_retries = ground arith in
        rw b (stops attempt (Ended.raised exc) h (e, inr at))
    | inr b ↦ elim (Bool-cases (may_retry (classify_exception exc))) [
      | inl c ↦ rw (b, c) (goes_on attempt rest (exc, e, c) (more (ground arith)))
      | inr c ↦ rw (b, c) (stops attempt (Ended.raised exc) h (e, inl c))
    ]
  ]

  safew_loop-Tried :
      (fuel attempt : ℕ)
      → attempt < max_retries
      → max_retries ≤ attempt + fuel
      → Tried send max_retries attempt (safew_loop send max_retries fuel attempt)
  unfolding safew_loop
  safew_loop-Tried zero attempt h enough = absurd (omega arith)
  safew_loop-Tried (suc fuel) attempt h enough =
      let b : ltb attempt max_retries ≡ true = ground arith in
      rw b (
        turn-Tried attempt _ (send (suc attempt)) refl h
          (λ more. safew_loop-Tried fuel (suc attempt) more (omega arith)))

  turn-same :
      (attempt : ℕ) (rest rest' : Published) (answer : Exception ⊎ List ℕ)
      → (attempt < max_retries → rest ≡ rest')
      → telegram_turn max_retries attempt rest answer ≡ safew_turn max_retries attempt rest' answer
  unfolding telegram_turn safew_turn should_retry may_retry is_fatal
  turn-same attempt rest rest' (inr ids) same = refl
  turn-same attempt rest rest' (inl exc) same = elim (Bool-cases (leb max_retries attempt)) [
    | inl b ↦ rw b refl
    | inr b ↦ rw (b, same (ground arith)) (by_class (classify_exception exc) rest')
  ]
    where
      by_class :
          (kind : RetryClass) (p : Published)
          → (if not (may_retry kind)
              then ends attempt (Ended.raised exc)
              else (if is_fatal kind then ends attempt (Ended.raised exc) else p))
            ≡ (if not (may_retry kind) then ends attempt (Ended.raised exc) else p)
      by_class RetryClass.retryable p = refl
      by_class RetryClass.fatal p = refl
      by_class RetryClass.wait p = refl

  loops-same :
      (fuel attempt : ℕ) (last_exc : Option Exception)
      → attempt < max_retries
      → max_retries ≤ attempt + fuel
      → telegram_loop send max_retries fuel attempt last_exc
        ≡ safew_loop send max_retries fuel attempt
  unfolding telegram_loop safew_loop
  loops-same zero attempt last_exc h enough = absurd (omega arith)
  loops-same (suc fuel) attempt last_exc h enough =
      let b : ltb attempt max_retries ≡ true = ground arith in
      rw b (
        turn-same (suc attempt) _ _ (send (suc attempt))
          (λ more. loops-same fuel (suc attempt) _ more (omega arith)))

  -- With at least one attempt allowed, publish of the SafeW publisher calls the send between one
  -- and max_retries times; every call but the last failed with an exception that may be retried;
  -- and it returns what the last call gave, or raises its exception, which then is fatal or comes
  -- from the call number max_retries.
  pub safew_publish-Tried :
      0 < max_retries → Tried send max_retries 0 (safew_publish send max_retries)
  unfolding safew_publish
  safew_publish-Tried h = safew_loop-Tried max_retries 0 h (omega arith)

  -- With at least one attempt allowed, publish of the Telegram publisher makes the same calls and
  -- ends in the same way as that of the SafeW publisher, whatever the send gives.
  pub telegram_publish-safew_publish :
      0 < max_retries → telegram_publish send max_retries ≡ safew_publish send max_retries
  unfolding telegram_publish safew_publish
  telegram_publish-safew_publish h = loops-same max_retries 0 none h (omega arith)
