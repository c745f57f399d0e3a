-- ===== src/Tests/Socket.antt =====
-- One connection over Web PubSub, beside the relay of Tests/Backlog.
use multiedge_relay_python.Tests.Backlog.{
  numbered, taking, serving, rows_wire, single_pages, waiting,
}
use multiedge_relay_python.Prelude.{[], none, true, ℕ, ◌∷◌, ◌≡◌, refl}
use multiedge_relay_python.Subscriber.WebSocket.{
  Connection, connected, drain_frame, finish_catch_up, handle_held, is_unverified, listening,
  on_ws_event, receive, reject, take_batch, after_catch_up, after_frame,
}
use multiedge_relay_python.Exec.{ok, raised}
use multiedge_relay_python.Errors.{signature_verification}
use multiedge_relay_python.Subscriber.WebSocket.Steps.{Reach, Step}
use multiedge_relay_python.Subscriber.{fetch_page, page_of}
use multiedge_relay_python.Exec.Loop.{loop}
use multiedge_relay_python.Subscriber.Delivery.{deliver, deliver_page, unsealed}
use multiedge_relay_python.Subscriber.CatchUp.{catch_up}
use multiedge_relay_python.Subscriber.Live.{handle_live_message}
use multiedge_relay_python.Subscriber.WebSocket.Order.{IsOrdered, interleaving-IsOrdered}

abbrev Socket : Type 0
Socket = Connection ℕ

abbrev SocketReach : Socket → Type 0
SocketReach d = Reach taking serving rows_wire single_pages 1 5 (connected waiting none) d

-- A frame in the connect window, and a forged one.
abbrev buffered : Socket
buffered = on_ws_event true (ok (numbered 9)) (connected waiting none)

abbrev warned : Socket
warned = on_ws_event true (raised (signature_verification "bad")) buffered

abbrev caught_up : Socket
caught_up = finish_catch_up taking serving rows_wire single_pages 1 5 warned

abbrev taken : Socket
taken = take_batch caught_up

abbrev drained : Socket
drained = drain_frame taking serving rows_wire single_pages 1 5 (numbered 9) [] taken

abbrev lowered : Socket
lowered = take_batch drained

-- A frame after the flag is down, handled by the client's thread.
abbrev next_frame : Socket
next_frame = on_ws_event true (ok (numbered 10)) lowered

abbrev delivered : Socket
delivered = handle_held taking serving rows_wire single_pages 1 5 (numbered 10) next_frame

delivered_run :
    (lowered.sub.position ≡ 9)
    × (delivered.main ≡ listening)
    × (delivered.reports ≡ signature_verification "bad" ∷ [])
    × (delivered.handled ≡ numbered 9 ∷ numbered 10 ∷ [])
unfolding on_ws_event receive reject is_unverified take_batch finish_catch_up drain_frame
    handle_held after_frame after_catch_up handle_live_message catch_up loop fetch_page page_of
    deliver deliver_page unsealed
delivered_run = (refl, refl, refl, refl)

path_to_delivered : SocketReach delivered
unfolding on_ws_event receive reject is_unverified take_batch finish_catch_up drain_frame
    handle_held after_frame after_catch_up handle_live_message catch_up loop fetch_page page_of
    deliver deliver_page unsealed
path_to_delivered =
    Reach.next
      (Reach.next
        (Reach.next
          (Reach.next
            (Reach.next
              (Reach.next
                (Reach.next (Reach.next Reach.here (Step.arrives (ok (numbered 9)) refl))
                  (Step.arrives (raised (signature_verification "bad")) refl))
                (Step.catches_up refl))
              (Step.takes refl))
            (Step.drains (numbered 9) [] refl))
          (Step.takes refl))
        (Step.arrives (ok (numbered 10)) refl))
      (Step.handles (numbered 10) refl)

interleaving-IsOrdered_example :
    IsOrdered taking serving rows_wire single_pages 1 5 waiting none delivered
interleaving-IsOrdered_example =
    interleaving-IsOrdered taking serving rows_wire single_pages 1 5 waiting none path_to_delivered
