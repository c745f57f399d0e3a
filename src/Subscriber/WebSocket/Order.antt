-- ===== src/Subscriber/WebSocket/Order.antt =====
-- No verified frame of a connection is lost, repeated or overtaken, whatever the interleaving.
use multiedge_relay_python.Prelude.{
  ℕ, Bool, List, Option, [], false, none, refl, some, true, ◌++◌, ◌∷◌, ◌≡◌, ◌≢◌, ap, append_assoc,
  ◌∙◌, append-nil, sym, Bool-cases, inl, inr,
}
use multiedge_relay_python.Subscriber.WebSocket.{
  Connection, Main, catching_up, connected, draining, handle, hanging, failed, put_frame,
  take_frames, after_frame, drain_frame, after_catch_up, finish_catch_up, handle_held, listening,
  notice, raise_pending, receive, reject, stopped_main, take_batch, on_ws_event, is_unverified,
}
use multiedge_relay_python.Subscriber.CatchUp.{catch_up}
use multiedge_relay_python.Subscriber.{CursorStore, Outside, Settings, Subscriber}
use multiedge_relay_python.Models.{ReceivedSignal, catchup}
use multiedge_relay_python.World.{Wire}
use multiedge_relay_python.Errors.{Error}
use multiedge_relay_python.Exec.{Result, ok, raised, unfinished}
use multiedge_relay_python.Subscriber.WebSocket.Steps.{Reach, Step}

-- What the main thread has still to handle, or has left behind in the batch.
unfoldable pub in_main : Main → List ReceivedSignal
in_main (draining rest) = rest
in_main (failed e rest) = rest
in_main (hanging rest) = rest
in_main _ = []

abbrev pub in_hand : Option ReceivedSignal → List ReceivedSignal
in_hand none = []
in_hand (some r) = r ∷ []

module _ {C : Type 0} (cursors : CursorStore C) (out : Outside) (wire : Wire) (set : Settings)
    (attempts pages : ℕ) (s₀ : Subscriber C) (stale : Option Error) where
  -- One frame after the other.
  unfoldable pub replay : Subscriber C → List ReceivedSignal → Subscriber C
  replay s [] = s
  replay s (r ∷ rs) = replay (handle cursors out wire set attempts pages r s).1 rs

  abbrev pub caught : Subscriber C
  caught = (catch_up cursors out wire set attempts pages catchup s₀).1

  -- Before the end of the catch-up, and after it.
  abbrev pub Replayed : Main → Subscriber C → List ReceivedSignal → Type 0
  Replayed catching_up s handled = (s ≡ s₀) × (handled ≡ [])
  Replayed _ s handled = s ≡ replay caught handled

  -- The flag tells the threads apart: while it is up the client's thread handles nothing, and once it
  -- is down the main thread has nothing left to handle.
  abbrev pub Apart : Bool → Main → Option ReceivedSignal → List ReceivedSignal → Type 0
  Apart true main held prelive = held ≡ none
  Apart false main held prelive = (in_main main ≡ []) × (prelive ≡ []) × (main ≢ catching_up)

  pub record InOrder (main : Main) (held : Option ReceivedSignal) (buffering : Bool)
      (prelive arrived handled : List ReceivedSignal) (sub : Subscriber C) : Type 0 where
    pub order : arrived ≡ handled ++ (in_main main ++ (in_hand held ++ prelive))
    pub apart : Apart buffering main held prelive
    pub replayed : Replayed main sub handled

  abbrev pub IsOrdered : Connection C → Type 0
  IsOrdered c = InOrder c.main c.held c.buffering c.prelive c.arrived c.handled c.sub

  replay-append :
      (s : Subscriber C) (xs : List ReceivedSignal) (r : ReceivedSignal)
      → replay s (xs ++ r ∷ []) ≡ (handle cursors out wire set attempts pages r (replay s xs)).1
  unfolding replay
  replay-append s [] r = refl
  replay-append s (x ∷ xs) r = replay-append (handle cursors out wire set attempts pages x s).1 xs r

  start-IsOrdered : IsOrdered (connected s₀ stale)
  unfolding in_main
  start-IsOrdered = record { order = refl; apart = refl; replayed = (refl, refl) }

  put_frame-IsOrdered :
      (b : Bool) (r : ReceivedSignal) (c : Connection C)
      → c.buffering ≡ b
      → c.held ≡ none
      → InOrder c.main none b c.prelive c.arrived c.handled c.sub
      → IsOrdered (put_frame b r c)
  put_frame-IsOrdered true r c e f h =
      rw (e, f)
        (record {
          order =
              ap (λ xs. xs ++ r ∷ []) h.order
              ∙ append_assoc c.handled (in_main c.main ++ c.prelive) (r ∷ [])
              ∙ ap (λ xs. c.handled ++ xs) (append_assoc (in_main c.main) c.prelive (r ∷ []));
          apart = refl;
          replayed = h.replayed;
        })
  put_frame-IsOrdered false r c e f h =
      let (idle, empty, past) = h.apart in
      let all_handled : c.arrived ≡ c.handled = h.order ∙ rw (idle, empty) (append-nil c.handled) in
      rw e (record {
        order = rw (idle, empty) (ap (λ xs. xs ++ r ∷ []) all_handled);
        apart = h.apart;
        replayed = h.replayed;
      })

  take_frames-IsOrdered :
      (xs : List ReceivedSignal) (b : Bool) (c : Connection C)
      → c.prelive ≡ xs
      → c.buffering ≡ b
      → InOrder (draining []) c.held b xs c.arrived c.handled c.sub
      → IsOrdered (take_frames xs c)
  unfolding in_main
  take_frames-IsOrdered [] b c e f h = record {
    order = rw e h.order;
    apart = (refl, e, λ g. cc);
    replayed = h.replayed;
  }
  take_frames-IsOrdered (r ∷ rs) true c e f h = record {
    order =
        rw h.apart
          ((rw h.apart at h.order) ∙ ap (λ xs. c.handled ++ xs) (sym (append-nil (r ∷ rs))));
    apart = rw f h.apart;
    replayed = h.replayed;
  }
  take_frames-IsOrdered (r ∷ rs) false c e f h = cc (h.apart.1)

  after_frame-rest :
      (o : Result (Unit {0})) (rest : List ReceivedSignal)
      → in_main (after_frame cursors out wire set attempts pages o rest) ≡ rest
  unfolding in_main after_frame
  after_frame-rest (ok _) rest = refl
  after_frame-rest (raised e) rest = refl
  after_frame-rest unfinished rest = refl

  after_frame-Replayed :
      (o : Result (Unit {0})) (rest handled : List ReceivedSignal) (s : Subscriber C)
      → s ≡ replay caught handled
      → Replayed (after_frame cursors out wire set attempts pages o rest) s handled
  unfolding after_frame
  after_frame-Replayed (ok _) rest handled s h = h
  after_frame-Replayed (raised e) rest handled s h = h
  after_frame-Replayed unfinished rest handled s h = h

  drain_frame-IsOrdered :
      (b : Bool) (r : ReceivedSignal) (rest : List ReceivedSignal) (c : Connection C)
      → c.buffering ≡ b
      → InOrder (draining (r ∷ rest)) c.held b c.prelive c.arrived c.handled c.sub
      → IsOrdered (drain_frame cursors out wire set attempts pages r rest c)
  unfolding drain_frame in_main
  drain_frame-IsOrdered false r rest c e h = cc (h.apart.0)
  drain_frame-IsOrdered true r rest c e h =
      let o = (handle cursors out wire set attempts pages r c.sub).0 in
      record {
        order = rw (after_frame-rest o rest) (
            h.order
            ∙ sym (append_assoc c.handled (r ∷ []) (rest ++ (in_hand c.held ++ c.prelive))));
        apart = rw e h.apart;
        replayed =
            after_frame-Replayed o rest (c.handled ++ r ∷ []) _
              (rw h.replayed (sym (replay-append caught c.handled r)));
      }

  -- Once the catch-up is over, the state is that of the replay.
  past-Replayed :
      (main : Main) (s : Subscriber C) (handled : List ReceivedSignal)
      → main ≢ catching_up
      → Replayed main s handled
      → s ≡ replay caught handled
  past-Replayed catching_up s handled past h = elim (past refl) [ ]
  past-Replayed (draining rest) s handled past h = h
  past-Replayed listening s handled past h = h
  past-Replayed (failed e rest) s handled past h = h
  past-Replayed (hanging rest) s handled past h = h
  past-Replayed stopped_main s handled past h = h

  replay-Replayed :
      (main : Main) (s : Subscriber C) (handled : List ReceivedSignal)
      → main ≢ catching_up
      → s ≡ replay caught handled
      → Replayed main s handled
  replay-Replayed catching_up s handled past h = elim (past refl) [ ]
  replay-Replayed (draining rest) s handled past h = h
  replay-Replayed listening s handled past h = h
  replay-Replayed (failed e rest) s handled past h = h
  replay-Replayed (hanging rest) s handled past h = h
  replay-Replayed stopped_main s handled past h = h

  handle_held-IsOrdered :
      (b : Bool) (r : ReceivedSignal) (c : Connection C)
      → c.buffering ≡ b
      → InOrder c.main (some r) b c.prelive c.arrived c.handled c.sub
      → IsOrdered (handle_held cursors out wire set attempts pages r c)
  unfolding handle_held
  handle_held-IsOrdered true r c e h = cc (h.apart)
  handle_held-IsOrdered false r c e h =
      let (idle, empty, past) = h.apart in
      let before = past-Replayed c.main c.sub c.handled past h.replayed in
      record {
        order = rw idle ((rw idle at h.order) ∙ sym (append_assoc c.handled (r ∷ []) c.prelive));
        apart = rw e h.apart;
        replayed =
            replay-Replayed c.main _ (c.handled ++ r ∷ []) past
              (rw before (sym (replay-append caught c.handled r)));
      }

  after_catch_up-Replayed :
      (o : Result ℕ) (s : Subscriber C)
      → s ≡ caught
      → Replayed (after_catch_up cursors out wire set attempts pages o) s []
  unfolding after_catch_up replay
  after_catch_up-Replayed (ok n) s h = h
  after_catch_up-Replayed (raised e) s h = h
  after_catch_up-Replayed unfinished s h = h

  after_catch_up-rest :
      (o : Result ℕ) → in_main (after_catch_up cursors out wire set attempts pages o) ≡ []
  unfolding after_catch_up in_main
  after_catch_up-rest (ok n) = refl
  after_catch_up-rest (raised e) = refl
  after_catch_up-rest unfinished = refl

  finish_catch_up-IsOrdered :
      (b : Bool) (c : Connection C)
      → c.buffering ≡ b
      → InOrder catching_up c.held b c.prelive c.arrived c.handled c.sub
      → IsOrdered (finish_catch_up cursors out wire set attempts pages c)
  unfolding finish_catch_up in_main
  finish_catch_up-IsOrdered false c e h = elim (h.apart.2 refl) [ ]
  finish_catch_up-IsOrdered true c e h =
      let o = (catch_up cursors out wire set attempts pages catchup c.sub).0 in
      record {
        order = rw (after_catch_up-rest o) h.order;
        apart = rw e h.apart;
        replayed = rw h.replayed.1 (
            after_catch_up-Replayed o _
              (ap (λ s. (catch_up cursors out wire set attempts pages catchup s).1) h.replayed.0));
      }

  raise_pending-IsOrdered :
      (o : Option Error) (b : Bool) (c : Connection C)
      → c.buffering ≡ b
      → c.main ≡ listening
      → InOrder listening c.held b c.prelive c.arrived c.handled c.sub
      → IsOrdered (raise_pending o c)
  unfolding in_main
  raise_pending-IsOrdered none b c e m h = rw (e, m) h
  raise_pending-IsOrdered (some x) true c e m h = record {
    order = h.order;
    apart = rw e h.apart;
    replayed = h.replayed;
  }
  raise_pending-IsOrdered (some x) false c e m h = record {
    order = h.order;
    apart = rw e (refl, h.apart.1, λ g. cc);
    replayed = h.replayed;
  }

  stopped-IsOrdered :
      (b : Bool) (c : Connection C)
      → c.buffering ≡ b
      → InOrder listening c.held b c.prelive c.arrived c.handled c.sub
      → IsOrdered (record c { main = stopped_main })
  unfolding in_main
  stopped-IsOrdered true c e h = record {
    order = h.order;
    apart = rw e h.apart;
    replayed = h.replayed;
  }
  stopped-IsOrdered false c e h = record {
    order = h.order;
    apart = rw e (refl, h.apart.1, λ g. cc);
    replayed = h.replayed;
  }

  on_ws_event-IsOrdered :
      (v : Result ReceivedSignal) (c : Connection C)
      → c.held ≡ none
      → IsOrdered c
      → IsOrdered (on_ws_event set.on_error v c)
  unfolding on_ws_event receive reject
  on_ws_event-IsOrdered (ok r) c free h =
      put_frame-IsOrdered c.buffering r c refl free (rw free at h)
  on_ws_event-IsOrdered (raised e) c free h = elim (Bool-cases (is_unverified e)) [
    | inl forged ↦ rw forged h
    | inr other ↦ rw other h
  ]
  on_ws_event-IsOrdered unfinished c free h = h

  one_move-IsOrdered :
      {c d : Connection C}
      → Step cursors out wire set attempts pages c d
      → IsOrdered c
      → IsOrdered d
  unfolding receive reject take_batch notice
  one_move-IsOrdered {c} (Step.arrives v free) h = on_ws_event-IsOrdered v c free h
  one_move-IsOrdered {c} (Step.handles r mine) h =
      handle_held-IsOrdered c.buffering r c refl (rw mine at h)
  one_move-IsOrdered {c} (Step.catches_up at_start) h =
      finish_catch_up-IsOrdered c.buffering c refl (rw at_start at h)
  one_move-IsOrdered {c} (Step.takes between) h =
      take_frames-IsOrdered c.prelive c.buffering c refl refl (rw between at h)
  one_move-IsOrdered {c} (Step.drains r rest inside) h =
      drain_frame-IsOrdered c.buffering r rest c refl (rw inside at h)
  one_move-IsOrdered {c} (Step.notices waiting) h =
      raise_pending-IsOrdered c.pending_error c.buffering c refl waiting (rw waiting at h)
  one_move-IsOrdered {c} (Step.stops waiting) h =
      stopped-IsOrdered c.buffering c refl (rw waiting at h)

  -- Whatever the two threads of a connection do in whatever order: the frames that have arrived are
  -- those handled, then those in the main thread's batch, then the one in the client's thread, then
  -- the buffered ones, in the order of arrival; while the flag is up the client's thread handles none,
  -- and once it is down the main thread has none left and the buffer is empty; and the subscriber is
  -- what the catch-up and then the handled frames, one after the other, make of it.
  pub interleaving-IsOrdered :
      {c : Connection C}
      → Reach cursors out wire set attempts pages (connected s₀ stale) c
      → IsOrdered c
  interleaving-IsOrdered Reach.here = start-IsOrdered
  interleaving-IsOrdered (Reach.next path step) =
      one_move-IsOrdered step (interleaving-IsOrdered path)
