-- ===== src/Publisher/Async/Bodies.antt =====
-- What the asynchronous publisher posts, whatever the event loop runs between its awaits.
use multiedge_relay_python.Publisher.Coroutine.{
  Coroutine, Posts, Posts-then_task, on_result, then_task, at_once,
}
use multiedge_relay_python.Exec.{Result, ok, raised, unfinished, pure}
use multiedge_relay_python.World.{Env, Reply, Response, Wire, response, transport_error}
use multiedge_relay_python.Prelude.{
  Bool, Bool-cases, Option, String, false, if◌then◌else◌, inl, inr, none, some, suc, true, zero, ℕ,
  ◌==◌, ◌||◌, ◌≡◌, refl,
}
use multiedge_relay_python.Errors.{Cause, http, transport}
use multiedge_relay_python.Process.{Machine}
use multiedge_relay_python.Publisher.{
  Config, Ended, Input, ack_from_response, acked, exhausted, prepare_signal,
  raise_for_terminal_status, spill_to,
}
use multiedge_relay_python.Publisher.Async.{
  attempt_async, attempts_async, back_off_async, finish_async, judge_async, proceed, publish_async,
  rest_or_break_async,
}
use multiedge_relay_python.Models.{Signal, SignalAck}
use multiedge_relay_python.Retry.{is_retryable_status}

module _ {A B : Type 0} (P : Signal → Type 0) where
  on_result-Posts :
      (f : A → Coroutine B)
      → ((a : A) (m : Machine) → Posts P (f a m))
      → (r : Result A) (m : Machine) → Posts P (on_result f r m)
  unfolding Posts
  on_result-Posts f h (ok a) m = h a m
  on_result-Posts f h (raised e) m = tt
  on_result-Posts f h unfinished m = tt

module _ (env : Env) (wire : Wire) (config : Config) (P : Signal → Type 0) where
  rest_or_break-Posts :
      (cause : Cause) (attempts : ℕ) (delay : Option ℕ) (m : Machine)
      → Posts P (rest_or_break_async env wire config cause attempts delay m)
  unfolding rest_or_break_async Posts then_task
  rest_or_break-Posts cause attempts none m = tt
  rest_or_break-Posts cause attempts (some delay) m = λ m'. tt

  back_off-Posts :
      (started : ℕ) (cause : Cause) (retry_after : Option String) (attempts : ℕ) (m : Machine)
      → Posts P (back_off_async env wire config started cause retry_after attempts m)
  unfolding back_off_async then_task
  back_off-Posts started cause retry_after attempts m =
      on_result-Posts P (rest_or_break_async env wire config cause attempts)
        (rest_or_break-Posts cause attempts) _ _

  not_acked-Posts :
      (started attempts : ℕ) (r : Response) (b : Bool) (m : Machine)
      → Posts P (
          (if b
              then back_off_async env wire config started
                  (http r.status r.text)
                  r.retry_after
                  attempts
              else at_once (pure (some (exhausted (http r.status r.text) attempts))))
            m)
  unfolding Posts
  not_acked-Posts started attempts r true m =
      back_off-Posts started (http r.status r.text) r.retry_after attempts m
  not_acked-Posts started attempts r false m = tt

  returned-Posts : (ack : SignalAck) (m : Machine) → Posts P (at_once (pure (some (acked ack))) m)
  unfolding Posts
  returned-Posts ack m = tt

  judge-Posts :
      (started attempts : ℕ) (reply : Reply) (m : Machine)
      → Posts P (judge_async env wire config started attempts reply m)
  unfolding judge_async then_task
  judge-Posts started attempts (transport_error reason) m =
      back_off-Posts started (transport reason) none attempts m
  judge-Posts started attempts (response r) m =
      elim (Bool-cases (r.status == 200 || r.status == 201)) [
        | inl taken ↦ rw taken (
            on_result-Posts P (λ ack. at_once (pure (some (acked ack))))
              (λ ack m'. returned-Posts ack m') (ack_from_response wire r) m)
        | inr more ↦ rw more (
            on_result-Posts P _
              (λ u. not_acked-Posts started attempts r (is_retryable_status r.status))
              (raise_for_terminal_status wire r) m)
      ]

  proceed-Posts :
      (rest : Coroutine Ended)
      → ((m : Machine) → Posts P (rest m))
      → (o : Option Ended) (m : Machine) → Posts P (proceed env wire config rest o m)
  unfolding proceed Posts
  proceed-Posts rest h none m = h m
  proceed-Posts rest h (some ended) m = tt

  attempts-Posts :
      (fuel : ℕ) (prepared : Signal) (started attempts : ℕ) (m : Machine)
      → P prepared
      → Posts P (attempts_async env wire config fuel prepared started attempts m)
  unfolding attempts_async attempt_async Posts then_task
  attempts-Posts zero prepared started attempts m h = tt
  attempts-Posts (suc fuel) prepared started attempts m h = (
    h,
    λ reply m'.
        Posts-then_task P (judge_async env wire config started (suc attempts) reply m') _
          (judge-Posts started (suc attempts) reply m')
          (on_result-Posts P
            (proceed env wire config
              (attempts_async env wire config fuel prepared started (suc attempts)))
            (λ o m''.
              proceed-Posts _ (λ n. attempts-Posts fuel prepared started (suc attempts) n h) o
                m'')),
  )

  finish-Posts :
      (prepared : Signal) (ended : Ended) (m : Machine)
      → Posts P (finish_async env wire config prepared ended m)
  unfolding finish_async Posts then_task
  finish-Posts prepared (acked ack) m = tt
  finish-Posts prepared (exhausted cause attempts) m =
      on_result-Posts P _ (λ path m'. tt)
        (spill_to env wire config m.spill prepared cause attempts m).0 _

-- Every request of an asynchronous `publish` carries the one prepared signal, its idempotency key
-- included, whatever the event loop answers and whatever other tasks do to the shared state between
-- its awaits.
pub publish_async-Posts :
    (env : Env) (wire : Wire) (config : Config) (fuel : ℕ) (input : Input) (m : Machine)
    (prepared : Signal)
    → (prepare_signal env wire config.sealer input m).0 ≡ ok prepared
    → Posts (λ body. body ≡ prepared) (publish_async env wire config fuel input m)
unfolding publish_async then_task
publish_async-Posts env wire config fuel input m prepared h =
    let P : Signal → Type 0 = λ body. body ≡ prepared in
    let m' = (prepare_signal env wire config.sealer input m).1 in
    let started = env.monotonic m'.turn in
    rw h (
      Posts-then_task P
        (attempts_async env wire config fuel prepared started 0 (record m' { turn = suc m'.turn }))
        _
        (attempts-Posts env wire config P fuel prepared started 0 (record m' { turn = suc m'.turn })
          refl)
        (on_result-Posts P (finish_async env wire config prepared)
          (finish-Posts env wire config P prepared)))
