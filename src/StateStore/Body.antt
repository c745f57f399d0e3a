-- ===== src/StateStore/Body.antt =====
-- `process`: the body of a webhook receiver completes together with the marker.
use multiedge_relay_python.Prelude.{Bool, true, ◌≡◌}
use multiedge_relay_python.Exec.{Exec}
use multiedge_relay_python.Models.{ReceivedSignal}
use multiedge_relay_python.StateStore.{has_marker, StateStore}
use multiedge_relay_python.StateStore.Once.{Once}

-- A body that neither ends the transaction it runs in nor writes the signal's marker itself.
pub record IsPlain {U : Type 0} (signal : ReceivedSignal)
    (body : Bool → Exec (StateStore U) (Unit {0})) : Type 0 where
  pub same_saved : (s : StateStore U) → (body true s).1.saved ≡ s.saved
  pub same_marker :
      (s : StateStore U)
      → has_marker signal.signal_id (body true s).1.tables.processed
        ≡ has_marker signal.signal_id s.tables.processed
