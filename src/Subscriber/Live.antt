-- ===== src/Subscriber/Live.antt =====
-- src/multiedge_relay/subscriber.py, phase 2: one message of the live transport, the reorder buffer
-- and the filling of a gap from REST. The delivery lock makes a message one step.
pub mod Gap
use multiedge_relay_python.Prelude.{
  ℕ, Bool-cases, List, Option, [], if◌then◌else◌, inl, inr, leb, leb→le, length, ltb, min, none,
  not, some, suc, true, ◌&&◌, ◌+◌, ◌-◌, ◌==◌, ◌||◌, ◌∷◌, ◌≡◌, ◌≤◌, ◌⊎◌,
}
use multiedge_relay_python.Subscriber.{
  CursorStore, Outside, Settings, Subscriber, ask_turn, fetch_page, record_action, waited,
}
use multiedge_relay_python.Models.{ReceivedSignal, gapfill, live}
use multiedge_relay_python.Errors.{buffer_full, gap_unrecoverable, multi_edge, unknown}
use multiedge_relay_python.Exec.Loop.{Leads, Next, again, loop, loop_rule, stop}
use multiedge_relay_python.Exec.{Exec, Result, ok, pure, raised, unfinished, ◌>>=◌, ◌>>◌}
use multiedge_relay_python.Subscriber.Delivery.{deliver}
use multiedge_relay_python.Retry.{backoff_delay, max_delay}
use multiedge_relay_python.World.{Wire}

-- `self._buffer[received.sequence] = received`
put : ReceivedSignal → List ReceivedSignal → List ReceivedSignal
put r [] = r ∷ []
put r (x ∷ xs) = if x.sequence == r.sequence then r ∷ xs else x ∷ put r xs

-- `self._buffer.pop(n, None)`: what is left.
without : ℕ → List ReceivedSignal → List ReceivedSignal
without n [] = []
without n (x ∷ xs) = let rest = without n xs in if x.sequence == n then rest else x ∷ rest

-- `self._buffer[n]`, where it is there.
parked : ℕ → List ReceivedSignal → Option ReceivedSignal
parked n [] = none
parked n (x ∷ xs) = if x.sequence == n then some x else parked n xs

-- `min(self._buffer)`, of the sequences of a buffer that is not empty.
lowest : ReceivedSignal → List ReceivedSignal → ℕ
lowest x [] = x.sequence
lowest x (y ∷ ys) = min x.sequence (lowest y ys)

-- `[r for r in page if position < r.sequence <= target]`
in_gap : ℕ → ℕ → List ReceivedSignal → List ReceivedSignal
in_gap position target [] = []
in_gap position target (r ∷ rs) =
    let rest = in_gap position target rs in
    if ltb position r.sequence && leb r.sequence target then r ∷ rest else rest

pub record Fill (C : Type 0) : Type 0 where
  pub empty_rounds : ℕ
  pub sub : Subscriber C

module _ {C : Type 0} (cursors : CursorStore C) (out : Outside) (wire : Wire) (set : Settings)
    (attempts : ℕ) where
  drop_parked : ℕ → Exec (Subscriber C) (Unit {0})
  unfolding without
  drop_parked n s = (ok tt, record s { buffer = without n s.buffer })

  -- `for received in fresh`: the copy of REST wins.
  deliver_fresh : List ReceivedSignal → Exec (Subscriber C) (Unit {0})
  unfolding drop_parked
  deliver_fresh [] = pure tt
  deliver_fresh (r ∷ rs) = do
    drop_parked r.sequence
    deliver cursors out set r gapfill
    deliver_fresh rs

  -- `self._sleep(backoff_delay(empty_rounds - 1, self._random_fn))`
  pause_for : ℕ → Exec (Subscriber C) (Unit {0})
  pause_for rounds = do
    draw ← ask_turn out.draw
    record_action (waited (backoff_delay (rounds - 1) draw max_delay))

  -- A round without fresh data, by the new count of such rounds.
  empty_round : ℕ → ℕ → Subscriber C → Next (Fill C) (Unit {0})
  unfolding pause_for
  empty_round target rounds s =
      if leb set.gap_fill_rounds rounds
      then stop (raised (gap_unrecoverable (s.position + 1) target))
          (record { empty_rounds = rounds; sub = s })
      else again (record { empty_rounds = rounds; sub = (pause_for rounds s).1 })

  -- After a round's deliveries: a page that is not full ends what REST has.
  full_round : ℕ → ℕ → Result (Unit {0}) × Subscriber C → Next (Fill C) (Unit {0})
  full_round target rows (ok _, s) =
      if ltb rows set.page_size && ltb s.position target
      then stop (raised (gap_unrecoverable (s.position + 1) target))
          (record { empty_rounds = 0; sub = s })
      else again (record { empty_rounds = 0; sub = s })
  full_round target rows (raised e, s) = stop (raised e) (record { empty_rounds = 0; sub = s })
  full_round target rows (unfinished, s) = stop unfinished (record { empty_rounds = 0; sub = s })

  fresh_round : ℕ → ℕ → ℕ → List ReceivedSignal → Subscriber C → Next (Fill C) (Unit {0})
  unfolding empty_round full_round deliver_fresh
  fresh_round target rounds rows [] s = empty_round target (suc rounds) s
  fresh_round target rounds rows (r ∷ rs) s = full_round target rows (deliver_fresh (r ∷ rs) s)

  fill_page : ℕ → ℕ → Result (List ReceivedSignal) × Subscriber C → Next (Fill C) (Unit {0})
  unfolding fresh_round in_gap
  fill_page target rounds (ok rows, s) =
      fresh_round target rounds (length rows) (in_gap s.position target rows) s
  fill_page target rounds (raised e, s) =
      stop (raised e) (record { empty_rounds = rounds; sub = s })
  fill_page target rounds (unfinished, s) =
      stop unfinished (record { empty_rounds = rounds; sub = s })

  -- The body of `while self._position < target and not self._stop_event.is_set()`.
  fill_round : ℕ → Fill C → Next (Fill C) (Unit {0})
  unfolding fill_page
  fill_round target f =
      let s = record f.sub { turn = suc f.sub.turn } in
      if leb target f.sub.position || out.stopped f.sub.turn
      then stop (ok tt) (record f { sub = s })
      else fill_page target f.empty_rounds (fetch_page out wire set attempts s.position s)

  unfoldable pub fill_from_rest : ℕ → ℕ → Exec (Subscriber C) (Unit {0})
  unfolding fill_round
  fill_from_rest fuel target s =
      let (r, f) = loop (fill_round target) fuel (record { empty_rounds = 0; sub = s }) in
      (r, f.sub)

  carry_on : Result (Unit {0}) × Subscriber C → Next (Subscriber C) (Unit {0})
  carry_on (ok _, s) = again s
  carry_on (raised e, s) = stop (raised e) s
  carry_on (unfinished, s) = stop unfinished s

  drain_step :
      ℕ
      → Option ReceivedSignal
      → ReceivedSignal
      → List ReceivedSignal
      → Subscriber C
      → Next (Subscriber C) (Unit {0})
  unfolding carry_on lowest without
  drain_step fuel (some r) x xs s =
      carry_on (deliver cursors out set r live (record s { buffer = without r.sequence s.buffer }))
  drain_step fuel none x xs s = carry_on (fill_from_rest fuel (lowest x xs - 1) s)

  drain_buffer : ℕ → List ReceivedSignal → Subscriber C → Next (Subscriber C) (Unit {0})
  unfolding drain_step parked
  drain_buffer fuel [] s = stop (ok tt) s
  drain_buffer fuel (x ∷ xs) s =
      let s' = record s { turn = suc s.turn } in
      if out.stopped s.turn
      then stop (ok tt) s'
      else drain_step fuel (parked (s.position + 1) (x ∷ xs)) x xs s'

  pub drain_with_fill : ℕ → Exec (Subscriber C) (Unit {0})
  unfolding drain_buffer
  drain_with_fill fuel = loop (λ s. drain_buffer fuel s.buffer s) fuel

  park : ReceivedSignal → Exec (Subscriber C) (Unit {0})
  unfolding put
  park r s = (ok tt, record s { buffer = put r s.buffer })

  check_buffer : Exec (Subscriber C) (Unit {0})
  check_buffer s = (
    if ltb set.max_buffer (length s.buffer) then raised (buffer_full set.max_buffer) else ok tt,
    s,
  )

  unfoldable pub handle_live_message : ℕ → ReceivedSignal → Exec (Subscriber C) (Unit {0})
  unfolding park check_buffer
  handle_live_message fuel r s =
      if not s.started
      then (raised (multi_edge unknown), s)
      else if leb r.sequence s.position
      then (ok tt, s)
      else (do park r; check_buffer; drain_with_fill fuel) s
