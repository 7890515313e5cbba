-- ===== src/Retry.antt =====
-- app/services/retry_service.py and the loops `publish` of app/publishers/telegram_publisher.py
-- and app/publishers/safew_publisher.py. The send of the publisher is a parameter: what it gives
-- at the first call, the second, and so on. The length of the sleeps is left out, and the refusal
-- of stickers and unsupported media before the loop of the Telegram publisher.
pub mod Loop
use tg_forwarder.Prelude.{
  ℕ, zero, suc, Bool, true, false, List, [], ◌∷◌, Option, none, some, ◌⊎◌, inl, inr, String, map,
  exists, leb, ltb, ◌&&◌, ◌||◌, not, if◌then◌else◌,
}
use tg_forwarder.Host.{Text, codes, same_text}
use tg_forwarder.Text.{contains}

pub data RetryClass : Type 0 where
  retryable : RetryClass
  fatal : RetryClass
  wait : RetryClass

-- What the program asks of an exception: the name of its type, and whether it is an instance of
-- `TimeoutError`, `ConnectionError` or `OSError`.
pub record Exception : Type 0 where
  pub name : Text
  pub is_io : Bool

abbrev wait_names : List Text
wait_names =
    map codes ("TelegramRetryAfter" ∷ "RetryAfter" ∷ "FloodWaitError" ∷ "SafeWRateLimitError" ∷ [])

abbrev retryable_names : List Text
retryable_names = map codes (
    "TelegramNetworkError" ∷ "TelegramServerError" ∷ "NetworkError" ∷ "ClientConnectorError"
    ∷ "TimedOut" ∷ "RestartingTelegram" ∷ "RetryAfter" ∷ "TelegramRetryAfter" ∷ "FloodWaitError"
    ∷ "TimeoutError" ∷ "asyncio.TimeoutError" ∷ "ServerError" ∷ "SafeWServerError" ∷ "ConnectError"
    ∷ "ConnectTimeout" ∷ "PoolTimeout" ∷ "ReadError" ∷ "ReadTimeout" ∷ "RemoteProtocolError"
    ∷ "WriteError" ∷ "WriteTimeout" ∷ [])

abbrev fatal_names : List Text
fatal_names = map codes (
    "TelegramForbiddenError" ∷ "TelegramBadRequest" ∷ "TelegramUnauthorizedError"
    ∷ "TelegramNotFound" ∷ "ChatWriteForbiddenError" ∷ "ChannelPrivateError"
    ∷ "UserBannedInChannelError" ∷ "MessageIdInvalidError" ∷ "BotMethodInvalidError"
    ∷ "SafeWBadRequest" ∷ "SafeWUnauthorizedError" ∷ "SafeWForbiddenError" ∷ "SafeWNotFoundError"
    ∷ [])

unfoldable pub classify_exception : Exception → RetryClass
classify_exception exc =
    if exists (same_text exc.name) wait_names
    then RetryClass.wait
    else (if exists (same_text exc.name) fatal_names
          || contains (codes "Forbidden") exc.name
          || contains (codes "BadRequest") exc.name
        then RetryClass.fatal
        else (if exists (same_text exc.name) retryable_names
              || contains (codes "Network") exc.name
              || contains (codes "Timeout") exc.name
              || contains (codes "Server") exc.name
            then RetryClass.retryable
            else (if exc.is_io then RetryClass.retryable else RetryClass.fatal)))

-- `kind in {RetryClass.RETRYABLE, RetryClass.WAIT}`, and `kind.value == "fatal"`.
unfoldable pub may_retry : RetryClass → Bool
may_retry retryable = true
may_retry fatal = false
may_retry wait = true

unfoldable pub is_fatal : RetryClass → Bool
is_fatal retryable = false
is_fatal fatal = true
is_fatal wait = false

unfoldable pub should_retry : Exception → ℕ → ℕ → Bool
unfolding may_retry
should_retry exc attempt max_retries =
    if leb max_retries attempt then false else may_retry (classify_exception exc)

-- How a call of `publish` ends. `no_answer` is `assert last_exc is not None` and the
-- `RuntimeError` after the loop.
pub data Ended : Type 0 where
  returned : List ℕ → Ended
  raised : Exception → Ended
  no_answer : Ended
  out_of_fuel : Ended

-- With the number of calls of the send.
pub record Published : Type 0 where
  pub calls : ℕ
  pub ended : Ended

abbrev pub ends : ℕ → Ended → Published
ends calls ended = record { calls = calls; ended = ended }

-- `raise last_exc`.
unfoldable pub raise_last : Option Exception → Ended
raise_last none = Ended.no_answer
raise_last (some exc) = Ended.raised exc

-- The answers of the send, by the number of the call.
abbrev pub Sender : Type 0
Sender = ℕ → Exception ⊎ List ℕ

-- One turn of the loop of the Telegram publisher, before its end is known, and what it leaves of
-- `last_exc` when it goes on.
unfoldable pub telegram_turn : ℕ → ℕ → Published → Exception ⊎ List ℕ → Published
unfolding should_retry is_fatal
telegram_turn max_retries attempt rest (inr ids) = ends attempt (Ended.returned ids)
telegram_turn max_retries attempt rest (inl exc) =
    if not (should_retry exc attempt max_retries)
    then ends attempt (Ended.raised exc)
    else (if is_fatal (classify_exception exc) then ends attempt (Ended.raised exc) else rest)

abbrev pub failure : Exception ⊎ List ℕ → Option Exception
failure (inl exc) = some exc
failure (inr ids) = none

unfoldable pub telegram_loop : Sender → ℕ → ℕ → ℕ → Option Exception → Published
unfolding telegram_turn raise_last
telegram_loop send max_retries zero attempt last_exc =
    if ltb attempt max_retries
    then ends attempt Ended.out_of_fuel
    else ends attempt (raise_last last_exc)
telegram_loop send max_retries (suc fuel) attempt last_exc =
    let answer = send (suc attempt) in
    let rest = telegram_loop send max_retries fuel (suc attempt) (failure answer) in
    if ltb attempt max_retries
    then telegram_turn max_retries (suc attempt) rest answer
    else ends attempt (raise_last last_exc)

-- `TelegramPublisher.publish`.
unfoldable pub telegram_publish : Sender → ℕ → Published
unfolding telegram_loop
telegram_publish send max_retries = telegram_loop send max_retries max_retries 0 none

unfoldable pub safew_turn : ℕ → ℕ → Published → Exception ⊎ List ℕ → Published
unfolding should_retry
safew_turn max_retries attempt rest (inr ids) = ends attempt (Ended.returned ids)
safew_turn max_retries attempt rest (inl exc) =
    if not (should_retry exc attempt max_retries) then ends attempt (Ended.raised exc) else rest

unfoldable pub safew_loop : Sender → ℕ → ℕ → ℕ → Published
unfolding safew_turn
safew_loop send max_retries zero attempt =
    if ltb attempt max_retries then ends attempt Ended.out_of_fuel else ends attempt Ended.no_answer
safew_loop send max_retries (suc fuel) attempt =
    let rest = safew_loop send max_retries fuel (suc attempt) in
    if ltb attempt max_retries
    then safew_turn max_retries (suc attempt) rest (send (suc attempt))
    else ends attempt Ended.no_answer

-- `SafeWPublisher.publish`.
unfoldable pub safew_publish : Sender → ℕ → Published
unfolding safew_loop
safew_publish send max_retries = safew_loop send max_retries max_retries 0
