-- ===== src/Subscriber/WebSocket.antt =====
-- src/multiedge_relay/subscriber.py, phase 2 over Azure Web PubSub: one connection, whose client
-- calls `_on_ws_event` on a thread of its own while the main thread catches up, drains what came in
-- the meantime and then waits. What the client does to connect is left to it.
pub mod Steps
pub mod Order
pub mod Reconnect
use multiedge_relay_python.Prelude.{
  ℕ, Bool, List, Option, String, [], false, if◌then◌else◌, leb, ltb, none, not, some, true, ◌&&◌,
  ◌++◌, ◌==◌, ◌||◌, ◌∷◌,
}
use multiedge_relay_python.Subscriber.{CursorStore, Outside, Settings, Subscriber, report}
use multiedge_relay_python.World.{Reply, Wire, response, transport_error}
use multiedge_relay_python.Prelude.Json.{Json, get_field, obj, str}
use multiedge_relay_python.Errors.{
  type_error, key_error, value_error, Error, auth_error, http_error, validation_rejected,
  signature_verification,
}
use multiedge_relay_python.Exec.{Exec, Result, ok, raised, unfinished}
use multiedge_relay_python.Subscriber.Live.{handle_live_message}
use multiedge_relay_python.Models.{ReceivedSignal, catchup}
use multiedge_relay_python.Subscriber.CatchUp.{catch_up}

url_text : Wire → Option Json → Result String
url_text wire none = raised key_error
url_text wire (some (str t)) = ok t
url_text wire (some url) = ok (wire.repr url)

-- `str(response.json()["url"])`
url_of : Wire → Option Json → Result String
unfolding url_text
url_of wire none = raised value_error
url_of wire (some (obj fields)) = url_text wire (get_field "url" fields)
url_of wire (some _) = raised type_error

-- `_negotiate_ws`, by the relay's answer; `raise_for_status` passes the statuses from 200 to 299.
pub negotiate_ws : Wire → Reply → Result String
unfolding url_of
negotiate_ws wire (transport_error reason) = raised (http_error reason)
negotiate_ws wire (response r) =
    if r.status == 401 || r.status == 403
    then raised (auth_error r.status)
    else if leb 400 r.status && (ltb r.status 500 && not (r.status == 429))
    then raised (validation_rejected r.status)
    else if leb 200 r.status && ltb r.status 300
    then url_of wire r.json
    else raised (http_error r.text)

-- `isinstance(exc, SignatureVerificationError)`
unfoldable pub is_unverified : Error → Bool
is_unverified (signature_verification _) = true
is_unverified _ = false

-- Where the main thread is in its connection.
pub data Main : Type 0 where
  catching_up : Main
  -- in `_drain_prelive`, with what is left of the batch
  draining : List ReceivedSignal → Main
  -- in `while not self._stop_event.wait(1.0)`
  listening : Main
  -- an exception has left the connection, with the rest of the batch
  failed : Error → List ReceivedSignal → Main
  -- a loop of the handling has not ended
  hanging : List ReceivedSignal → Main
  stopped_main : Main

-- A connection's state. `arrived` and `handled` are the verified frames so far, and those that
-- `_handle_live_message` was called with, in order.
pub record Connection (C : Type 0) : Type 0 where
  pub sub : Subscriber C
  pub main : Main
  -- the frame that the client's thread holds after it has seen the flag down
  pub held : Option ReceivedSignal
  pub buffering : Bool
  pub prelive : List ReceivedSignal
  pub pending_error : Option Error
  pub arrived : List ReceivedSignal
  pub handled : List ReceivedSignal
  -- what the client's thread has passed to `on_error`
  pub reports : List Error

-- A new connection: `self._ws_buffering = True; self._ws_prelive = []`. An error stashed before stays.
abbrev pub connected : {C : Type 0} → Subscriber C → Option Error → Connection C
connected s stale = record {
  sub = s;
  main = catching_up;
  held = none;
  buffering = true;
  prelive = [];
  pending_error = stale;
  arrived = [];
  handled = [];
  reports = [];
}

module _ {C : Type 0} where
  abbrev pub put_frame : Bool → ReceivedSignal → Connection C → Connection C
  put_frame true r c = record c { prelive = c.prelive ++ r ∷ []; arrived = c.arrived ++ r ∷ [] }
  put_frame false r c = record c { held = some r; arrived = c.arrived ++ r ∷ [] }

  -- The locked part of `_on_ws_event`, for a verified frame.
  unfoldable pub receive : ReceivedSignal → Connection C → Connection C
  receive r c = put_frame c.buffering r c

  -- A frame that fails verification is reported, where there is an `on_error`, and dropped.
  unfoldable pub reject : Bool → Error → Connection C → Connection C
  reject on_error e c = record c { reports = c.reports ++ (if on_error then e ∷ [] else []) }

  -- `_on_ws_event` to the end of its locked part, by what `verify_ws_frame` says of the frame. An
  -- exception that is no failed verification leaves the handler for its caller, the client.
  unfoldable pub on_ws_event : Bool → Result ReceivedSignal → Connection C → Connection C
  unfolding receive reject
  on_ws_event on_error (ok r) c = receive r c
  on_ws_event on_error (raised e) c = if is_unverified e then reject on_error e c else c
  on_ws_event on_error unfinished c = c

  abbrev pub take_frames : List ReceivedSignal → Connection C → Connection C
  take_frames [] c = record c { main = listening; buffering = false }
  take_frames (r ∷ rs) c = record c { main = draining (r ∷ rs); prelive = [] }

  -- The locked part of `_drain_prelive`.
  unfoldable pub take_batch : Connection C → Connection C
  take_batch c = take_frames c.prelive c

  abbrev pub raise_pending : Option Error → Connection C → Connection C
  raise_pending none c = c
  raise_pending (some e) c = record c { main = failed e []; pending_error = none }

  -- `if self._pending_error is not None: ... raise error`
  unfoldable pub notice : Connection C → Connection C
  notice c = raise_pending c.pending_error c

module _ {C : Type 0} (cursors : CursorStore C) (out : Outside) (wire : Wire) (set : Settings)
    (attempts pages : ℕ) where
  abbrev pub handle : ReceivedSignal → Exec (Subscriber C) (Unit {0})
  handle r = handle_live_message cursors out wire set attempts pages r

  unfoldable pub after_catch_up : Result ℕ → Main
  after_catch_up (ok n) = draining []
  after_catch_up (raised e) = failed e []
  after_catch_up unfinished = hanging []

  -- `self._catch_up("catchup")`
  unfoldable pub finish_catch_up : Connection C → Connection C
  unfolding after_catch_up
  finish_catch_up c =
      let (r, s) = catch_up cursors out wire set attempts pages catchup c.sub in
      record c { sub = s; main = after_catch_up r }

  unfoldable pub after_frame : Result (Unit {0}) → List ReceivedSignal → Main
  after_frame (ok _) rest = draining rest
  after_frame (raised e) rest = failed e rest
  after_frame unfinished rest = hanging rest

  -- One round of `for received in batch`.
  unfoldable pub drain_frame : ReceivedSignal → List ReceivedSignal → Connection C → Connection C
  unfolding after_frame
  drain_frame r rest c =
      let (o, s) = handle r c.sub in
      record c { sub = s; main = after_frame o rest; handled = c.handled ++ r ∷ [] }

  -- `except Exception as exc: self._pending_error = exc`
  stash : Result (Unit {0}) → Option Error → Option Error
  stash (raised e) old = some e
  stash _ old = old

  -- The rest of `_on_ws_event`, after the lock.
  unfoldable pub handle_held : ReceivedSignal → Connection C → Connection C
  unfolding stash
  handle_held r c =
      let (o, s) = handle r c.sub in
      record c {
        sub = s;
        held = none;
        pending_error = stash o c.pending_error;
        handled = c.handled ++ r ∷ [];
      }
