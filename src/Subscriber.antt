-- ===== src/Subscriber.antt =====
-- src/multiedge_relay/subscriber.py: start position, catch-up pages, delivery, and the live reorder
-- buffer with its gap fill. The cursor store is an interface; the callback, the stop event, the relay
-- and the clocks answer by turns. `on_error` returns. Unbounded loops run on fuel.

pub mod Delivery
pub mod CatchUp
pub mod Live
pub mod Poll
pub mod WebSocket
pub mod Order
pub mod Idle
pub mod Fetches
pub mod Answers
pub mod Backlog
use multiedge_relay_python.Prelude.{
  ℕ, Bool, List, Option, String, [], if◌then◌else◌, min, none, some, suc, ◌++◌, ◌+◌, ◌-◌, ◌/◌, ◌==◌,
  ◌||◌, ◌∷◌, false, true, str_eq,
}
use multiedge_relay_python.Retry.{RetryPolicy, is_retryable_status, next_delay, second}
use multiedge_relay_python.Prelude.Json.{Items, Json, arr, end, get_field, item, nil, obj, str}
use multiedge_relay_python.Exec.Loop.{Next, again, loop, stop}
use multiedge_relay_python.Errors.{
  Cause, Error, auth_error, http, multi_edge, transport, type_error, unknown, validation_error,
  value_error, attribute_error,
}
use multiedge_relay_python.Exec.{
  Exec, Result, lift, ok, pure, raise, raised, unfinished, ◌>>=◌, ◌>>◌,
}
use multiedge_relay_python.World.{Reply, Wire, response, transport_error}
use multiedge_relay_python.Models.{ReceivedSignal, SignalMeta}

-- The `CursorStore` protocol over a state of its own.
pub record CursorStore (C : Type 0) : Type 0 where
  pub load : String → C → Result (Option ℕ)
  pub commit : String → ℕ → Exec C (Unit {0})

-- What answers a subscriber, at the n-th turn.
pub record Outside : Type 0 where
  -- the relay's answer to a page request after a sequence
  pub page : ℕ → ℕ → Reply
  -- `self._stop_event.is_set()`
  pub stopped : ℕ → Bool
  -- how `self.on_signal(received, meta)` ends: `none` where it returns
  pub callback : ℕ → ReceivedSignal → SignalMeta → Option Error
  pub monotonic : ℕ → ℕ
  pub wall : ℕ → ℕ
  pub draw : ℕ → ℕ

-- `start_from`; a `bool` is refused like an unknown word.
pub data StartFrom : Type 0 where
  cursor earliest latest invalid : StartFrom
  sequence : ℕ → StartFrom

pub record Settings : Type 0 where
  pub strategy_id : String
  pub start_from : StartFrom
  pub page_size : ℕ
  pub policy : RetryPolicy
  pub max_buffer : ℕ
  pub gap_fill_rounds : ℕ
  -- whether there is an `on_error`
  pub on_error : Bool
  -- `unsealer.unseal_signal`, where `none` is an `UnsealError`
  pub unsealer : Option (ReceivedSignal → Option ReceivedSignal)

-- What happens to the world outside, in order.
pub data Action : Type 0 where
  -- `on_signal` has returned
  called : ReceivedSignal → SignalMeta → Action
  -- the cursor store has taken the sequence
  committed : ℕ → Action
  -- `on_error` was called
  notified : Error → Action
  waited : ℕ → Action

-- What a report adds to the trace.
abbrev pub reported : Bool → Error → List Action
reported true e = notified e ∷ []
reported false e = []

pub record Subscriber (C : Type 0) : Type 0 where
  pub turn : ℕ
  pub store : C
  pub position : ℕ
  pub started : Bool
  -- the reorder buffer, keyed by the messages' own sequences
  pub buffer : List ReceivedSignal
  pub trace : List Action

-- `[ReceivedSignal.model_validate(row) for row in rows]`
validate_rows : Wire → Items → Result (List ReceivedSignal)
validate_rows wire nil = ok []
validate_rows wire (item row rows) =
    let rest = validate_rows wire rows in
    elim (wire.received_of row) [
      | none ↦ raised validation_error
      | some r ↦ elim rest [ ok rs ↦ ok (r ∷ rs) | raised e ↦ raised e | unfinished ↦ unfinished ]
    ]

rows_of : Wire → Option Json → Result (List ReceivedSignal)
unfolding validate_rows
rows_of wire none = ok []
rows_of wire (some (arr rows)) = validate_rows wire rows
-- iterated by its characters, and by its keys: no text is a row
rows_of wire (some (str s)) = if str_eq s "" then ok [] else raised validation_error
rows_of wire (some (obj end)) = ok []
rows_of wire (some (obj _)) = raised validation_error
rows_of wire (some _) = raised type_error

-- `response.json().get("signals", [])`, validated.
unfoldable pub page_of : Wire → Option Json → Result (List ReceivedSignal)
unfolding rows_of
page_of wire none = raised value_error
page_of wire (some (obj fields)) = rows_of wire (get_field "signals" fields)
page_of wire (some _) = raised attribute_error

module _ {C : Type 0} where
  abbrev pub record_action : Action → Exec (Subscriber C) (Unit {0})
  record_action a s = (ok tt, record s { trace = s.trace ++ a ∷ [] })

  abbrev pub ask_turn : {A : Type 0} → (ℕ → A) → Exec (Subscriber C) A
  ask_turn answer s = (ok (answer s.turn), record s { turn = suc s.turn })

  -- `if self._on_error is not None: self._on_error(exc)`
  abbrev pub report : Bool → Error → Exec (Subscriber C) (Unit {0})
  report on_error e s = (ok tt, record s { trace = s.trace ++ reported on_error e })

  -- The same, then `raise`.
  abbrev pub notify_raise : {A : Type 0} → Bool → Error → Exec (Subscriber C) A
  notify_raise on_error e s = (raised e, record s { trace = s.trace ++ reported on_error e })

-- How one page request's round ends where it raises nothing: with a page, or by `break`.
pub data Fetched : Type 0 where
  page : List ReceivedSignal → Fetched
  broke : Cause → ℕ → Fetched

pub record FetchRound (C : Type 0) : Type 0 where
  pub attempts : ℕ
  pub last_error : Cause
  pub sub : Subscriber C

module _ {C : Type 0} (out : Outside) (wire : Wire) (set : Settings) where
  pub stop_requested : Exec (Subscriber C) Bool
  stop_requested = ask_turn out.stopped

  -- Sliced sleep; the stop event is read before each slice of one second.
  sleep_slice : ℕ → Subscriber C × ℕ → Next (Subscriber C × ℕ) (Unit {0})
  sleep_slice delay (s, remaining) =
      let s' = record s { turn = suc s.turn } in
      if remaining == 0 || out.stopped s.turn
      then stop (ok tt) (s', remaining)
      else again (
        record s' { trace = s'.trace ++ waited (min remaining second) ∷ [] },
        remaining - min remaining second,
      )

  -- `delay / 1 s`, rounded up, and the last test.
  sleep_interruptible : ℕ → Exec (Subscriber C) (Unit {0})
  unfolding sleep_slice
  sleep_interruptible delay s =
      let (r, (s', left)) = loop (sleep_slice delay) (delay / second + 2) (s, delay) in (r, s')

  -- `if delay is None: break`
  wait_or_break : Cause → ℕ → Option ℕ → Exec (Subscriber C) (Option Fetched)
  wait_or_break cause attempts none = do
    report set.on_error (multi_edge cause)
    pure (some (broke cause attempts))
  wait_or_break cause attempts (some delay) = do
    report set.on_error (multi_edge cause)
    sleep_interruptible delay
    pure none

  fetch_again : ℕ → Cause → Option String → ℕ → Exec (Subscriber C) (Option Fetched)
  unfolding wait_or_break
  fetch_again started cause retry_after attempts = do
    now ← ask_turn out.monotonic
    wall ← ask_turn out.wall
    draw ← ask_turn out.draw
    delay ← lift (next_delay wire.header set.policy attempts (now - started) wall retry_after draw)
    wait_or_break cause attempts delay

  judge_page : ℕ → ℕ → Reply → Exec (Subscriber C) (Option Fetched)
  unfolding fetch_again
  judge_page started attempts (transport_error reason) =
      fetch_again started (transport reason) none attempts
  judge_page started attempts (response r) =
      if r.status == 401 || r.status == 403
      then raise (auth_error r.status)
      else if r.status == 200
      then (do rows ← lift (page_of wire r.json); pure (some (page rows)))
      else if is_retryable_status r.status
      then fetch_again started (http r.status r.text) r.retry_after attempts
      else pure (some (broke (http r.status r.text) attempts))

  fetch_outcome :
      FetchRound C → Result (Option Fetched) × Subscriber C → Next (FetchRound C) Fetched
  fetch_outcome r (ok none, s) = again (record r { attempts = suc r.attempts; sub = s })
  fetch_outcome r (ok (some f), s) = stop (ok f) (record r { attempts = suc r.attempts; sub = s })
  fetch_outcome r (raised e, s) = stop (raised e) (record r { sub = s })
  fetch_outcome r (unfinished, s) = stop unfinished (record r { sub = s })

  -- The body of `while not self._stop_event.is_set()`.
  fetch_round : ℕ → ℕ → FetchRound C → Next (FetchRound C) Fetched
  unfolding judge_page fetch_outcome
  fetch_round since started r =
      let s = r.sub in
      if out.stopped s.turn
      then stop (ok (broke r.last_error r.attempts))
          (record r { sub = record s { turn = suc s.turn } })
      else fetch_outcome r (
          judge_page started (suc r.attempts) (out.page (suc s.turn) since)
            (record s { turn = suc (suc s.turn) }))

  -- After the loop: an empty page where a stop was asked for, and an error else.
  after_fetch : Fetched → Exec (Subscriber C) (List ReceivedSignal)
  after_fetch (page rows) = pure rows
  after_fetch (broke cause attempts) = do
    halted ← stop_requested
    if halted then pure [] else raise (multi_edge cause)

  unfoldable pub fetch_page : ℕ → ℕ → Exec (Subscriber C) (List ReceivedSignal)
  unfolding fetch_round after_fetch stop_requested sleep_interruptible
  fetch_page fuel since = do
    started ← ask_turn out.monotonic
    fetched ← (λ s.
        let (r, last) =
          loop (fetch_round since started) fuel
            (record { attempts = 0; last_error = unknown; sub = s }) in
        (r, last.sub))
    after_fetch fetched
