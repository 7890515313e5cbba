-- ===== src/Examples/Retry.antt =====
-- Tests and cases for the retries of the publishers.
use tg_forwarder.Text.{contains}
use tg_forwarder.Prelude.{zero, suc, true, false, [], ◌∷◌, inl, inr, ◌≡◌, refl, arith}
use tg_forwarder.Host.{codes}
use tg_forwarder.Retry.{
  RetryClass, Exception, classify_exception, Ended, ends, Sender, telegram_publish, safew_publish,
}
use tg_forwarder.Retry.Loop.{Tried, safew_publish-Tried}

abbrev server_error : Exception
server_error = record { name = codes "SafeWServerError"; is_io = false }

abbrev bad_request : Exception
bad_request = record { name = codes "SafeWBadRequest"; is_io = false }

abbrev broken_pipe : Exception
broken_pipe = record { name = codes "BrokenPipeError"; is_io = true }

-- The first two calls fail, the others are answered.
abbrev flaky : Sender
flaky (suc zero) = inl server_error
flaky (suc (suc zero)) = inl broken_pipe
flaky n = inr (41 ∷ 42 ∷ [])

abbrev refusing : Sender
refusing n = inl bad_request

retries_io : classify_exception broken_pipe ≡ RetryClass.retryable
unfolding classify_exception contains
retries_io = refl

gives_up : classify_exception bad_request ≡ RetryClass.fatal
unfolding classify_exception
gives_up = refl

third_time : safew_publish flaky 3 ≡ ends 3 (Ended.returned (41 ∷ 42 ∷ []))
unfolding safew_publish classify_exception contains
third_time = refl

too_few : telegram_publish flaky 2 ≡ ends 2 (Ended.raised broken_pipe)
unfolding telegram_publish classify_exception contains
too_few = refl

refused : telegram_publish refusing 5 ≡ ends 1 (Ended.raised bad_request)
unfolding telegram_publish classify_exception
refused = refl

never_called : telegram_publish flaky 0 ≡ ends 0 Ended.no_answer
unfolding telegram_publish
never_called = refl

safew_publish-Tried_example : Tried flaky 3 0 (safew_publish flaky 3)
safew_publish-Tried_example = safew_publish-Tried flaky 3 (omega arith)
