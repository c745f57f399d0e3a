-- ===== src/Publisher/Async/Equal.antt =====
-- The coroutines against the synchronous publisher, whose results and effects they have where the
-- event loop runs nothing else, and what they post where it does.
use multiedge_relay_python.Publisher.Coroutine.{
  Coroutine, at_once, await_post, await_sleep, then_task, drive, drive-then_task, on_result,
  returned,
}
use multiedge_relay_python.Exec.{Exec, Result, ok, raised, unfinished, ◌>>=◌, pure}
use multiedge_relay_python.Prelude.{
  Option, String, ap, refl, ℕ, ◌∙◌, ◌≡◌, Bool-cases, inl, inr, none, some, ◌==◌, ◌||◌,
  if◌then◌else◌, suc, zero, Bool, List, [], ◌∷◌,
}
use multiedge_relay_python.Models.{Signal}
use multiedge_relay_python.World.{Env, Wire, Reply, response, transport_error, Response}
use multiedge_relay_python.Process.{Machine, post, sleep}
use multiedge_relay_python.Publisher.{
  Config, back_off, ack_from_response, judge, raise_for_terminal_status, rest_or_break, Ended,
  acked, exhausted, finish, next_round, one_attempt, round, spill_to, Input, attempt_all,
  prepare_signal, publish,
}
use multiedge_relay_python.Publisher.Async.{
  back_off_async, judge_async, rest_or_break_async, attempt_async, attempts_async, finish_async,
  proceed, publish_async, publish_many_async, publish_one_async,
}
use multiedge_relay_python.Errors.{Cause, transport, http}
use multiedge_relay_python.Retry.{is_retryable_status}
use multiedge_relay_python.Exec.Loop.{advance, loop}
use multiedge_relay_python.Publisher.Batch.{publish_many, publish_one, settle}

module _ (env : Env) where
  -- The coroutine does what the method does, with the event loop to itself.
  abbrev pub Mirrors : {A : Type 0} → Coroutine A → Exec Machine A → Type 0
  Mirrors co e = (m : Machine) → drive env (co m) ≡ e m

  module _ {A B : Type 0} where
    resumed :
        (r : Result A) (m : Machine) (f : A → Coroutine B) (g : A → Exec Machine B)
        → ((a : A) → Mirrors (f a) (g a))
        → drive env (on_result f r m) ≡ ((λ (t : Machine). (r, m)) >>= g) m
    unfolding drive
    resumed (ok a) m f g h = h a m
    resumed (raised e) m f g h = refl
    resumed unfinished m f g h = refl

    bind-Mirrors :
        (co : Coroutine A) (e : Exec Machine A) (f : A → Coroutine B) (g : A → Exec Machine B)
        → Mirrors co e
        → ((a : A) → Mirrors (f a) (g a))
        → Mirrors (λ m. then_task (co m) (on_result f)) (e >>= g)
    bind-Mirrors co e f g h k m =
        drive-then_task env (co m) (on_result f)
        ∙ resumed (drive env (co m)).0 (drive env (co m)).1 f g k
        ∙ ap (λ p. ((λ (t : Machine). (p.0, p.1)) >>= g) m) (h m)

  at_once-Mirrors : {A : Type 0} (e : Exec Machine A) → Mirrors (at_once e) e
  unfolding drive
  at_once-Mirrors e m = refl

  await_post-Mirrors : (body : Signal) → Mirrors (await_post body) (post env body)
  unfolding drive
  await_post-Mirrors body m = refl

  await_sleep-Mirrors : (delay : ℕ) → Mirrors (await_sleep delay) (sleep env delay)
  unfolding drive
  await_sleep-Mirrors delay m = refl

module _ (env : Env) (wire : Wire) (config : Config) where
  rest_or_break-Mirrors :
      (cause : Cause) (attempts : ℕ) (delay : Option ℕ)
      → Mirrors env
          (rest_or_break_async env wire config cause attempts delay)
          (rest_or_break env wire config cause attempts delay)
  unfolding rest_or_break_async rest_or_break drive then_task
  rest_or_break-Mirrors cause attempts none m = refl
  rest_or_break-Mirrors cause attempts (some delay) m = refl

  back_off-Mirrors :
      (started : ℕ) (cause : Cause) (retry_after : Option String) (attempts : ℕ)
      → Mirrors env
          (back_off_async env wire config started cause retry_after attempts)
          (back_off env wire config started cause retry_after attempts)
  unfolding back_off_async back_off drive then_task
  back_off-Mirrors started cause retry_after attempts m =
      resumed env _ _ (rest_or_break_async env wire config cause attempts)
        (rest_or_break env wire config cause attempts) (rest_or_break-Mirrors cause attempts)

  not_acked-Mirrors :
      (started attempts : ℕ) (r : Response)
      → Mirrors env
          (if is_retryable_status r.status
            then back_off_async env wire config started
                (http r.status r.text)
                r.retry_after
                attempts
            else at_once (pure (some (exhausted (http r.status r.text) attempts))))
          (if is_retryable_status r.status
            then back_off env wire config started (http r.status r.text) r.retry_after attempts
            else pure (some (exhausted (http r.status r.text) attempts)))
  unfolding drive
  not_acked-Mirrors started attempts r m = elim (Bool-cases (is_retryable_status r.status)) [
    | inl retried ↦
        rw retried (back_off-Mirrors started (http r.status r.text) r.retry_after attempts m)
    | inr final ↦ rw final refl
  ]

  judge-Mirrors :
      (started attempts : ℕ) (reply : Reply)
      → Mirrors env
          (judge_async env wire config started attempts reply)
          (judge env wire config started attempts reply)
  unfolding judge_async judge drive then_task
  judge-Mirrors started attempts (transport_error reason) m =
      back_off-Mirrors started (transport reason) none attempts m
  judge-Mirrors started attempts (response r) m =
      elim (Bool-cases (r.status == 200 || r.status == 201)) [
        | inl taken ↦ rw taken (
            resumed env (ack_from_response wire r) m (λ ack. at_once (pure (some (acked ack))))
              (λ ack. pure (some (acked ack))) (λ ack m'. refl))
        | inr more ↦ rw more (
            resumed env (raise_for_terminal_status wire r) m _ _
              (λ u. not_acked-Mirrors started attempts r))
      ]

  attempt-Mirrors :
      (prepared : Signal) (started attempts : ℕ)
      → Mirrors env
          (attempt_async env wire config prepared started attempts)
          (one_attempt env wire config prepared started attempts)
  unfolding attempt_async one_attempt drive then_task
  attempt-Mirrors prepared started attempts m =
      judge-Mirrors started attempts (env.reply m.turn) (post env prepared m).1

  -- The rounds that are left, from a round on.
  abbrev rounds : ℕ → Signal → ℕ → ℕ → Exec Machine Ended
  rounds fuel prepared started attempts m =
      let (r, last) =
        loop (round env wire config prepared started) fuel
          (record { attempts = attempts; machine = m }) in
      (r, last.machine)

  proceeded :
      (fuel : ℕ) (prepared : Signal) (started attempts : ℕ) (rest : Coroutine Ended)
      → Mirrors env rest (rounds fuel prepared started attempts)
      → (r : Result (Option Ended)) (m : Machine)
      → drive env (on_result (proceed env wire config rest) r m) ≡ (
          let (r', last) =
            advance
              (loop (round env wire config prepared started) fuel)
              (next_round attempts (r, m)) in
          (r', last.machine))
  unfolding proceed next_round drive
  proceeded fuel prepared started attempts rest h (ok none) m = h m
  proceeded fuel prepared started attempts rest h (ok (some e)) m = refl
  proceeded fuel prepared started attempts rest h (raised e) m = refl
  proceeded fuel prepared started attempts rest h unfinished m = refl

  attempts-Mirrors :
      (fuel : ℕ) (prepared : Signal) (started attempts : ℕ)
      → Mirrors env
          (attempts_async env wire config fuel prepared started attempts)
          (rounds fuel prepared started attempts)
  unfolding attempts_async loop round drive
  attempts-Mirrors zero prepared started attempts m = refl
  attempts-Mirrors (suc fuel) prepared started attempts m =
      let step = attempt_async env wire config prepared started (suc attempts) in
      let rest = attempts_async env wire config fuel prepared started (suc attempts) in
      drive-then_task env (step m) (on_result (proceed env wire config rest))
      ∙ ap (λ p. drive env (on_result (proceed env wire config rest) p.0 p.1))
          (attempt-Mirrors prepared started (suc attempts) m)
      ∙ proceeded fuel prepared started (suc attempts) rest
          (attempts-Mirrors fuel prepared started (suc attempts))
          (one_attempt env wire config prepared started (suc attempts) m).0
          (one_attempt env wire config prepared started (suc attempts) m).1

  finish-Mirrors :
      (prepared : Signal) (ended : Ended)
      → Mirrors env
          (finish_async env wire config prepared ended)
          (finish env wire config prepared ended)
  unfolding finish_async finish drive then_task
  finish-Mirrors prepared (acked ack) m = refl
  finish-Mirrors prepared (exhausted cause attempts) m =
      resumed env (spill_to env wire config m.spill prepared cause attempts m).0
        (spill_to env wire config m.spill prepared cause attempts m).1 _ _ (λ path m'. refl)

  publish-Mirrors :
      (fuel : ℕ) (input : Input)
      → Mirrors env (publish_async env wire config fuel input) (publish env wire config fuel input)
  unfolding publish_async publish attempt_all drive then_task
  publish-Mirrors fuel input m =
      resumed env (prepare_signal env wire config.sealer input m).0
        (prepare_signal env wire config.sealer input m).1 _ _
        (λ prepared m'.
          let started = env.monotonic m'.turn in
          bind-Mirrors env (attempts_async env wire config fuel prepared started 0)
            (rounds fuel prepared started 0) (finish_async env wire config prepared)
            (finish env wire config prepared) (attempts-Mirrors fuel prepared started 0)
            (finish-Mirrors prepared) (record m' { turn = suc m'.turn }))

  publish_one-Mirrors :
      (fuel : ℕ) (raise_on_partial : Bool) (input : Input)
      → Mirrors env
          (publish_one_async env wire config fuel raise_on_partial input)
          (publish_one env wire config fuel raise_on_partial input)
  unfolding publish_one_async drive
  publish_one-Mirrors fuel raise_on_partial input m =
      drive-then_task env (publish_async env wire config fuel input m)
        (λ r. returned (settle raise_on_partial r))
      ∙ ap (λ p. (settle raise_on_partial p.0, p.1)) (publish-Mirrors fuel input m)

  -- With the event loop to itself, so that nothing runs while it awaits, the asynchronous
  -- `publish_many` has the results, the errors and the effects of the synchronous one, for every
  -- batch, every fuel and both settings of `raise_on_partial`.
  pub drive-publish_many_async :
      (fuel : ℕ) (raise_on_partial : Bool) (inputs : List Input) (m : Machine)
      → drive env (publish_many_async env wire config fuel raise_on_partial inputs m)
        ≡ publish_many env wire config fuel raise_on_partial inputs m
  unfolding publish_many_async publish_many drive
  drive-publish_many_async fuel raise_on_partial [] m = refl
  drive-publish_many_async fuel raise_on_partial (input ∷ inputs) m =
      bind-Mirrors env (publish_one_async env wire config fuel raise_on_partial input)
        (publish_one env wire config fuel raise_on_partial input) _ _
        (publish_one-Mirrors fuel raise_on_partial input)
        (λ outcome m'.
          bind-Mirrors env (publish_many_async env wire config fuel raise_on_partial inputs)
            (publish_many env wire config fuel raise_on_partial inputs) _ _
            (drive-publish_many_async fuel raise_on_partial inputs) (λ rest m''. refl) m')
        m
