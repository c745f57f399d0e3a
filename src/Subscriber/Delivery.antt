-- ===== src/Subscriber/Delivery.antt =====
-- src/multiedge_relay/subscriber.py, phase 1: where a run starts, the delivery of one signal, and the
-- catch-up over pages. Each page takes one unit of fuel.
pub mod Order
pub mod Whole
pub mod Alive
use multiedge_relay_python.Prelude.{
  ℕ, Bool, List, Option, [], false, if◌then◌else◌, leb, none, some, suc, true, ◌++◌, ◌∷◌,
}
use multiedge_relay_python.Subscriber.{
  CursorStore, Outside, Settings, Subscriber, ask_turn, called, committed, notify_raise,
  record_action, sequence,
}
use multiedge_relay_python.Exec.{Exec, Result, lift, ok, pure, raised, unfinished, ◌>>=◌, ◌>>◌}
use multiedge_relay_python.Models.{ReceivedSignal, SignalMeta, Source}
use multiedge_relay_python.Errors.{Error, unseal_error}
use multiedge_relay_python.Process.{store}

-- `signals[i]` of a page that is not empty: `page[-1].sequence`.
unfoldable pub last_sequence : ℕ → List ReceivedSignal → ℕ
last_sequence position [] = position
last_sequence position (r ∷ rs) = last_sequence r.sequence rs

unfoldable pub unsealed :
    Option (ReceivedSignal → Option ReceivedSignal) → ReceivedSignal → Result ReceivedSignal
unsealed none r = ok r
unsealed (some unseal) r = elim (unseal r) [ none ↦ raised unseal_error | some plain ↦ ok plain ]

pub meta_of : Source → ReceivedSignal → SignalMeta
meta_of source r = record {
  sequence = r.sequence;
  signal_id = r.signal_id;
  published_at = r.published_at;
  source = source;
}

module _ {C : Type 0} (cursors : CursorStore C) (out : Outside) (set : Settings) where
  -- `self._cursor_store.commit(self.strategy_id, sequence)`
  pub commit_result : ℕ → Result (Unit {0}) × C → Exec (Subscriber C) (Unit {0})
  commit_result seq (ok _, c) s =
      (ok tt, record s { store = c; trace = s.trace ++ committed seq ∷ [] })
  commit_result seq (raised e, c) s = (raised e, record s { store = c })
  commit_result seq (unfinished, c) s = (unfinished, record s { store = c })

  pub commit_cursor : ℕ → Exec (Subscriber C) (Unit {0})
  unfolding commit_result
  commit_cursor seq s = commit_result seq (cursors.commit set.strategy_id seq s.store) s

  -- The callback's own end; `none` is a return.
  pub called_back : ReceivedSignal → SignalMeta → Option Error → Exec (Subscriber C) (Unit {0})
  called_back r meta none = record_action (called r meta)
  called_back r meta (some e) = notify_raise set.on_error e

  -- The `try` block: unseal, then the callback; either one's error is reported and raised.
  pub attempt_callback :
      ReceivedSignal → SignalMeta → Result ReceivedSignal → Exec (Subscriber C) (Unit {0})
  unfolding called_back
  attempt_callback original meta (ok r) = do
    answer ← ask_turn (λ turn. out.callback turn r meta)
    called_back r meta answer
  attempt_callback original meta (raised e) = notify_raise set.on_error e
  attempt_callback original meta unfinished = lift unfinished

  pub move_to : ℕ → Exec (Subscriber C) (Unit {0})
  move_to seq s = (ok tt, record s { position = seq })

  unfoldable pub deliver : ReceivedSignal → Source → Exec (Subscriber C) (Unit {0})
  unfolding attempt_callback move_to commit_cursor unsealed
  deliver r source = do
    attempt_callback r (meta_of source r) (unsealed set.unsealer r)
    move_to r.sequence
    commit_cursor r.sequence

  -- Whether to stop, then the test for an overlap, then the delivery.
  abbrev pub deliver_new : ReceivedSignal → Source → ℕ → Exec (Subscriber C) ℕ
  deliver_new r source count s =
      if leb r.sequence s.position then (ok count, s) else (do deliver r source; pure (suc count)) s

  -- `for received in page`: whether the stop event ended it, and the number delivered so far.
  unfoldable pub deliver_page : Source → List ReceivedSignal → ℕ → Exec (Subscriber C) (Bool × ℕ)
  unfolding deliver
  deliver_page source [] count = pure (false, count)
  deliver_page source (r ∷ rs) count = do
    halted ← ask_turn out.stopped
    if halted
        then pure (true, count)
        else do n ← deliver_new r source count; deliver_page source rs n
