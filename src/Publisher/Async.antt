-- ===== src/Publisher/Async.antt =====
-- src/multiedge_relay/publisher_async.py: `publish` and `publish_many` as coroutines, which await
-- each request and each sleep. What they share with publisher.py they call there.
pub mod Equal
pub mod Bodies
use multiedge_relay_python.Publisher.Coroutine.{
  Coroutine, Task, at_once, await_post, await_sleep, returned, then_task, ◌>>=◌,
}
use multiedge_relay_python.Exec.{Result, pure, raise, lift, gets, unfinished, ◌>>◌}
use multiedge_relay_python.Retry.{is_retryable_status, next_delay}
use multiedge_relay_python.Publisher.{
  Config, Ended, Input, ack_from_response, acked, exhausted, prepare_signal,
  raise_for_terminal_status, spill_to,
}
use multiedge_relay_python.World.{Env, Reply, Wire, response, transport_error}
use multiedge_relay_python.Errors.{Cause, http, publish_failed, transport}
use multiedge_relay_python.Prelude.{
  Bool, List, Option, String, [], if◌then◌else◌, none, some, suc, zero, ℕ, ◌-◌, ◌==◌, ◌||◌, ◌∷◌,
}
use multiedge_relay_python.Publisher.Batch.{Outcome, settle}
use multiedge_relay_python.Models.{Signal, SignalAck}
use multiedge_relay_python.Process.{ask, monotonic_now, wall_now}

module _ (env : Env) (wire : Wire) (config : Config) where
  rest_or_break_async : Cause → ℕ → Option ℕ → Coroutine (Option Ended)
  rest_or_break_async cause attempts none = at_once (pure (some (exhausted cause attempts)))
  rest_or_break_async cause attempts (some delay) = await_sleep delay >>= λ _. at_once (pure none)

  back_off_async : ℕ → Cause → Option String → ℕ → Coroutine (Option Ended)
  unfolding rest_or_break_async
  back_off_async started cause retry_after attempts = do
    now ← at_once (monotonic_now env)
    wall ← at_once (wall_now env)
    draw ← at_once (ask env env.draw)
    delay ←
        at_once (
          lift
            (next_delay wire.header config.policy attempts (now - started) wall retry_after draw))
    rest_or_break_async cause attempts delay

  judge_async : ℕ → ℕ → Reply → Coroutine (Option Ended)
  unfolding back_off_async
  judge_async started attempts (transport_error reason) =
      back_off_async started (transport reason) none attempts
  judge_async started attempts (response r) =
      if r.status == 200 || r.status == 201
      then (do ack ← at_once (lift (ack_from_response wire r)); at_once (pure (some (acked ack))))
      else do
        checked ← at_once (lift (raise_for_terminal_status wire r))
        if is_retryable_status r.status
            then back_off_async started (http r.status r.text) r.retry_after attempts
            else at_once (pure (some (exhausted (http r.status r.text) attempts)))

  -- One round of `while True`.
  attempt_async : Signal → ℕ → ℕ → Coroutine (Option Ended)
  unfolding judge_async
  attempt_async prepared started attempts = do
    reply ← await_post prepared
    judge_async started attempts reply

  proceed : Coroutine Ended → Option Ended → Coroutine Ended
  proceed rest none = rest
  proceed rest (some ended) = at_once (pure ended)

  -- `while True`, after so many attempts.
  attempts_async : ℕ → Signal → ℕ → ℕ → Coroutine Ended
  unfolding attempt_async proceed
  attempts_async zero prepared started attempts = at_once (lift unfinished)
  attempts_async (suc fuel) prepared started attempts =
      attempt_async prepared started (suc attempts)
      >>= proceed (attempts_async fuel prepared started (suc attempts))

  finish_async : Signal → Ended → Coroutine SignalAck
  finish_async prepared (acked ack) = at_once (pure ack)
  finish_async prepared (exhausted cause attempts) = do
    root ← at_once (gets (λ m. m.spill))
    path ← at_once (spill_to env wire config root prepared cause attempts)
    at_once (raise (publish_failed prepared attempts path))

  unfoldable pub publish_async : ℕ → Input → Coroutine SignalAck
  unfolding attempts_async finish_async
  publish_async fuel input = do
    prepared ← at_once (prepare_signal env wire config.sealer input)
    started ← at_once (monotonic_now env)
    ended ← attempts_async fuel prepared started 0
    finish_async prepared ended

  -- `try: results.append(await self.publish(signal))` and its `except`
  publish_one_async : ℕ → Bool → Input → Coroutine Outcome
  unfolding publish_async
  publish_one_async fuel raise_on_partial input m =
      then_task (publish_async fuel input m) (λ r. returned (settle raise_on_partial r))

  unfoldable pub publish_many_async : ℕ → Bool → List Input → Coroutine (List Outcome)
  unfolding publish_one_async
  publish_many_async fuel raise_on_partial [] = at_once (pure [])
  publish_many_async fuel raise_on_partial (input ∷ inputs) = do
    outcome ← publish_one_async fuel raise_on_partial input
    rest ← publish_many_async fuel raise_on_partial inputs
    at_once (pure (outcome ∷ rest))
