-- ===== src/Publisher.antt =====
-- src/multiedge_relay/publisher.py: `publish` with its retry loop, and `publish_many`. The sealer is
-- a function of the configuration. The loop runs on fuel: one unit for each HTTP attempt.

pub mod Loop
pub mod Coroutine
pub mod Async
pub mod Ends
pub mod Overflow
pub mod Batch
pub mod Bodies
pub mod Prepare
pub mod Spill
use multiedge_relay_python.Prelude.{
  ℕ, suc, ◌-◌, String, Bool, true, false, not, ◌&&◌, ◌||◌, Option, none, some, Text, ◌==◌, str_eq,
  if◌then◌else◌,
}
use multiedge_relay_python.Prelude.Int.{ℤ, pos}
use multiedge_relay_python.Prelude.Json.{Json, null, bool, int, real, str, get_json}
use multiedge_relay_python.Models.{Signal, SignalAck}
use multiedge_relay_python.Errors.{
  Cause, http, transport, FilePath, auth_error, validation_rejected, idempotency_conflict,
  publish_failed, value_error, type_error, validation_error, sealed_error,
}
use multiedge_relay_python.Exec.{
  Result, Exec, ok, raised, unfinished, pure, raise, lift, or_raise, gets, ◌>>=◌, ◌>>◌,
}
use multiedge_relay_python.Exec.Loop.{Next, stop, again, loop}
use multiedge_relay_python.Retry.{RetryPolicy, is_retryable_status, next_delay}
use multiedge_relay_python.World.{Response, Reply, transport_error, response, Env, Wire}
use multiedge_relay_python.Dlq.{append}
use multiedge_relay_python.Process.{Machine, fresh_ulid, monotonic_now, wall_now, ask, post, sleep}

-- `Signal | dict`
pub data Input : Type 0 where
  typed : Signal → Input
  raw : Json → Input

pub record Config : Type 0 where
  pub policy : RetryPolicy
  -- `sealer.seal_signal`, where `none` is a `SealedError`
  pub sealer : Option (Signal → Option Signal)

module _ (env : Env) (wire : Wire) where
  coerce : Input → Exec Machine Signal
  coerce (typed signal) = pure signal
  coerce (raw value) = or_raise (wire.signal_of value) validation_error

  ensure_id : Signal → Option Text → Exec Machine Signal
  ensure_id signal (some id) = pure signal
  ensure_id signal none = do
    id ← fresh_ulid env
    pure (record signal { client_signal_id = some id })

  apply_sealer : Option (Signal → Option Signal) → Signal → Exec Machine Signal
  apply_sealer none signal = pure signal
  apply_sealer (some seal) signal = or_raise (seal signal) sealed_error

  unfoldable pub prepare_signal : Option (Signal → Option Signal) → Input → Exec Machine Signal
  unfolding coerce ensure_id apply_sealer
  prepare_signal sealer input = do
    signal ← coerce input
    named ← ensure_id signal signal.client_signal_id
    apply_sealer sealer named

-- A 200 says that the relay had the signal already, whether or not the body says so.
mark_duplicate : ℕ → SignalAck → SignalAck
mark_duplicate status ack =
    if status == 200 && not ack.duplicate then record ack { duplicate = true } else ack

validated : Wire → ℕ → Option Json → Result SignalAck
unfolding mark_duplicate
validated wire status none = raised value_error
validated wire status (some body) = elim (wire.ack_of body) [
  | none ↦ raised validation_error
  | some ack ↦ ok (mark_duplicate status ack)
]

pub ack_from_response : Wire → Response → Result SignalAck
unfolding validated
ack_from_response wire r = validated wire r.status r.json

-- `str(body.get("signal_id", ""))`
text_of : Wire → Option Json → String
text_of wire none = ""
text_of wire (some (str s)) = s
text_of wire (some value) = wire.repr value

-- `int(body.get("sequence", 0))`
pub int_of : Wire → Option Json → Result ℤ
int_of wire none = ok (pos 0)
int_of wire (some (int n)) = ok n
int_of wire (some (bool b)) = ok (pos (if b then 1 else 0))
int_of wire (some (real x)) = ok (wire.truncate x)
int_of wire (some (str s)) = elim (wire.header.int_of s) [
  | none ↦ raised value_error
  | some n ↦ ok n
]
int_of wire (some value) = raised type_error

is_conflict_tag : Option Json → Bool
is_conflict_tag (some (str s)) = str_eq s "client_signal_id_conflict"
is_conflict_tag (some null) = false
is_conflict_tag _ = false

conflict : String → Result ℤ → Result (Unit {0})
conflict signal_id (ok sequence) = raised (idempotency_conflict signal_id sequence)
conflict signal_id (raised e) = raised e
conflict signal_id unfinished = unfinished

-- The 409 branch: a body that is no JSON object with the conflict's tag returns.
check_conflict : Wire → Option Json → Result (Unit {0})
unfolding text_of int_of is_conflict_tag conflict
check_conflict wire none = ok tt
check_conflict wire (some body) =
    if is_conflict_tag (get_json "error" body)
    then conflict (text_of wire (get_json "signal_id" body))
        (int_of wire (get_json "sequence" body))
    else ok tt

unfoldable pub raise_for_terminal_status : Wire → Response → Result (Unit {0})
unfolding check_conflict
raise_for_terminal_status wire r =
    if r.status == 401 || r.status == 403
    then raised (auth_error r.status)
    else if r.status == 413 || r.status == 422
    then raised (validation_rejected r.status)
    else if r.status == 409
    then check_conflict wire r.json
    else ok tt

-- How the loop of `publish` ends where it raises nothing: by `return` or by `break`.
pub data Ended : Type 0 where
  acked : SignalAck → Ended
  exhausted : Cause → ℕ → Ended

module _ (env : Env) (wire : Wire) (config : Config) where
  -- `if delay is None: break` and the sleep; `none` is another round.
  rest_or_break : Cause → ℕ → Option ℕ → Exec Machine (Option Ended)
  rest_or_break cause attempts none = pure (some (exhausted cause attempts))
  rest_or_break cause attempts (some delay) = do sleep env delay; pure none

  back_off : ℕ → Cause → Option String → ℕ → Exec Machine (Option Ended)
  unfolding rest_or_break
  back_off started cause retry_after attempts = do
    now ← monotonic_now env
    wall ← wall_now env
    draw ← ask env env.draw
    delay ←
        lift (next_delay wire.header config.policy attempts (now - started) wall retry_after draw)
    rest_or_break cause attempts delay

  unfoldable pub judge : ℕ → ℕ → Reply → Exec Machine (Option Ended)
  unfolding back_off
  judge started attempts (transport_error reason) =
      back_off started (transport reason) none attempts
  judge started attempts (response r) =
      if r.status == 200 || r.status == 201
      then (do ack ← lift (ack_from_response wire r); pure (some (acked ack)))
      else do
        lift (raise_for_terminal_status wire r)
        if is_retryable_status r.status
            then back_off started (http r.status r.text) r.retry_after attempts
            else pure (some (exhausted (http r.status r.text) attempts))

  one_attempt : Signal → ℕ → ℕ → Exec Machine (Option Ended)
  unfolding judge
  one_attempt prepared started attempts = do reply ← post env prepared; judge started attempts reply

pub record Round : Type 0 where
  pub attempts : ℕ
  pub machine : Machine

pub next_round : ℕ → Result (Option Ended) × Machine → Next Round Ended
next_round attempts (ok none, m) = again (record { attempts = attempts; machine = m })
next_round attempts (ok (some e), m) = stop (ok e) (record { attempts = attempts; machine = m })
next_round attempts (raised e, m) = stop (raised e) (record { attempts = attempts; machine = m })
next_round attempts (unfinished, m) = stop unfinished (record { attempts = attempts; machine = m })

module _ (env : Env) (wire : Wire) (config : Config) where
  -- The body of `while True`.
  round : Signal → ℕ → Round → Next Round Ended
  unfolding one_attempt next_round
  round prepared started r =
      next_round (suc r.attempts)
        (one_attempt env wire config prepared started (suc r.attempts) r.machine)

  pub attempt_all : ℕ → Signal → ℕ → Exec Machine Ended
  unfolding round
  attempt_all fuel prepared started m =
      let (r, last) = loop (round prepared started) fuel (record { attempts = 0; machine = m }) in
      (r, last.machine)

  -- `self.dlq.append(…) if self.dlq is not None else None`
  pub spill_to : Option String → Signal → Cause → ℕ → Exec Machine (Option FilePath)
  spill_to none prepared cause attempts = pure none
  spill_to (some root) prepared cause attempts = do
    path ← append env wire root prepared cause attempts
    pure (some path)

  finish : Signal → Ended → Exec Machine SignalAck
  unfolding spill_to
  finish prepared (acked ack) = pure ack
  finish prepared (exhausted cause attempts) = do
    root ← gets (λ m. m.spill)
    path ← spill_to root prepared cause attempts
    raise (publish_failed prepared attempts path)

  unfoldable pub publish : ℕ → Input → Exec Machine SignalAck
  unfolding attempt_all finish
  publish fuel input = do
    prepared ← prepare_signal env wire config.sealer input
    started ← monotonic_now env
    ended ← attempt_all fuel prepared started
    finish prepared ended
