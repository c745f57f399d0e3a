-- ===== src/Subscriber/WebSocket/Steps.antt =====
-- The two threads of a connection, interleaved. The lock makes each locked part one step, and the
-- delivery lock each handling of a frame. The catch-up is one step: a frame that arrives in it is
-- buffered, which the catch-up does not read, so it can as well have arrived before.
use multiedge_relay_python.Prelude.{ℕ, List, [], none, some, ◌∷◌, ◌≡◌}
use multiedge_relay_python.Subscriber.{CursorStore, Outside, Settings}
use multiedge_relay_python.Subscriber.WebSocket.{
  Connection, catching_up, drain_frame, draining, finish_catch_up, handle_held, listening, notice,
  stopped_main, take_batch, on_ws_event,
}
use multiedge_relay_python.World.{Wire}
use multiedge_relay_python.Models.{ReceivedSignal}
use multiedge_relay_python.Exec.{Result}

module _ {C : Type 0} (cursors : CursorStore C) (out : Outside) (wire : Wire) (set : Settings)
    (attempts pages : ℕ) where
  pub data Step (c : Connection C) : Connection C → Type 0 where
    -- the client's thread
    arrives : (v : Result ReceivedSignal) → c.held ≡ none → Step c (on_ws_event set.on_error v c)
    handles :
        (r : ReceivedSignal)
        → c.held ≡ some r
        → Step c (handle_held cursors out wire set attempts pages r c)
    -- the main thread
    catches_up :
        c.main ≡ catching_up → Step c (finish_catch_up cursors out wire set attempts pages c)
    takes : c.main ≡ draining [] → Step c (take_batch c)
    drains :
        (r : ReceivedSignal) (rest : List ReceivedSignal)
        → c.main ≡ draining (r ∷ rest)
        → Step c (drain_frame cursors out wire set attempts pages r rest c)
    notices : c.main ≡ listening → Step c (notice c)
    stops : c.main ≡ listening → Step c (record c { main = stopped_main })

  pub data Reach (start : Connection C) : Connection C → Type 0 where
    here : Reach start start
    next : {c d : Connection C} → Reach start c → Step c d → Reach start d
