-- ===== src/Subscriber/Poll.antt =====
-- src/multiedge_relay/subscriber.py: `run` with the poll transport, whose live phase is a catch-up
-- after every interval. Each interval takes one unit of fuel.
use multiedge_relay_python.Prelude.{ℕ, false, if◌then◌else◌, suc, true, ◌++◌, ◌||◌, ◌≡◌, ◌⊎◌}
use multiedge_relay_python.Subscriber.{
  CursorStore, Outside, Settings, Subscriber, stop_requested, reported,
}
use multiedge_relay_python.Exec.{Exec, Result, ok, pure, raised, unfinished, ◌>>=◌, ◌>>◌}
use multiedge_relay_python.Exec.Loop.{Next, again, loop, stop}
use multiedge_relay_python.Models.{catchup, live}
use multiedge_relay_python.Subscriber.CatchUp.{catch_up, start_position}
use multiedge_relay_python.Errors.{Error, is_fatal, is_http_error, is_multi_edge}
use multiedge_relay_python.World.{Wire}

module _ {C : Type 0} (cursors : CursorStore C) (out : Outside) (wire : Wire) (set : Settings)
    (attempts pages : ℕ) where
  -- The two `except` clauses.
  survive : Error → Subscriber C → Next (Subscriber C) (Unit {0})
  survive e s =
      if is_fatal e
      then stop (raised e) s
      else if is_http_error e || is_multi_edge e
      then again (record s { trace = s.trace ++ reported set.on_error e })
      else stop (raised e) s

  polled : Result ℕ × Subscriber C → Next (Subscriber C) (Unit {0})
  unfolding survive
  polled (ok n, s) = again s
  polled (raised e, s) = survive e s
  polled (unfinished, s) = stop unfinished s

  -- The body of `while not self._stop_event.wait(self._poll_interval)`.
  poll_round : Subscriber C → Next (Subscriber C) (Unit {0})
  unfolding polled
  poll_round s =
      let s' = record s { turn = suc s.turn } in
      if out.stopped s.turn
      then stop (ok tt) s'
      else polled (catch_up cursors out wire set attempts pages live s')

  unfoldable pub run_poll : ℕ → Exec (Subscriber C) (Unit {0})
  unfolding poll_round
  run_poll fuel = loop poll_round fuel

  -- `run`, with `live_transport="poll"`.
  pub run : ℕ → Exec (Subscriber C) (Unit {0})
  unfolding run_poll
  run fuel = do
    start_position cursors out wire set attempts pages
    catch_up cursors out wire set attempts pages catchup
    halted ← stop_requested out wire set
    if halted then pure tt else run_poll fuel

  -- An error that may end the polling: a fatal one, or none of the relay's or the network's.
  abbrev pub Ends : Error → Type 0
  Ends e = (is_fatal e ≡ true) ⊎ ((is_http_error e || is_multi_edge e) ≡ false)

  abbrev Ending : Result (Unit {0}) → Subscriber C → Type 0
  Ending r s = (e : Error) → r ≡ raised e → Ends e
