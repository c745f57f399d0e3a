-- ===== src/Subscriber/CatchUp.antt =====
-- src/multiedge_relay/subscriber.py, phase 1: the start position and the catch-up loop. Each page of
-- a loop takes one unit of fuel, and so does each attempt at one page.
pub mod Order
pub mod Complete
pub mod Alive
use multiedge_relay_python.Prelude.{
  ℕ, Bool, List, Option, false, if◌then◌else◌, length, ltb, none, some, suc, true, ◌==◌,
}
use multiedge_relay_python.Exec.{
  Exec, Result, gets, lift, ok, pure, raise, raised, unfinished, ◌>>=◌, ◌>>◌,
}
use multiedge_relay_python.Exec.Loop.{Next, again, loop, stop}
use multiedge_relay_python.Models.{ReceivedSignal, Source, catchup}
use multiedge_relay_python.Subscriber.Delivery.{commit_cursor, deliver_page, last_sequence, move_to}
use multiedge_relay_python.Errors.{value_error}
use multiedge_relay_python.World.{Wire}
use multiedge_relay_python.Subscriber.{
  CursorStore, Outside, Settings, StartFrom, Subscriber, cursor, earliest, fetch_page, invalid,
  latest, sequence,
}

pub record Pages (C : Type 0) : Type 0 where
  pub count : ℕ
  pub sub : Subscriber C

-- After one page: the stop event, or a page that is not full, ends the loop.
abbrev pub page_done : {C : Type 0} → ℕ → ℕ → Bool × ℕ → Subscriber C → Next (Pages C) ℕ
page_done size rows (true, n) s = stop (ok n) (record { count = n; sub = s })
page_done size rows (false, n) s =
    if ltb rows size
    then stop (ok n) (record { count = n; sub = s })
    else again (record { count = n; sub = s })

module _ {C : Type 0} (cursors : CursorStore C) (out : Outside) (wire : Wire) (set : Settings)
    (attempts : ℕ) where
  abbrev delivered_next : ℕ → ℕ → Result (Bool × ℕ) × Subscriber C → Next (Pages C) ℕ
  delivered_next rows n (ok b, s) = page_done set.page_size rows b s
  delivered_next rows n (raised e, s) = stop (raised e) (record { count = n; sub = s })
  delivered_next rows n (unfinished, s) = stop unfinished (record { count = n; sub = s })

  abbrev fetched_next : Source → ℕ → Result (List ReceivedSignal) × Subscriber C → Next (Pages C) ℕ
  fetched_next source n (ok rows, s) =
      delivered_next (length rows) n (deliver_page cursors out set source rows n s)
  fetched_next source n (raised e, s) = stop (raised e) (record { count = n; sub = s })
  fetched_next source n (unfinished, s) = stop unfinished (record { count = n; sub = s })

  -- The body of `while not self._stop_event.is_set()`.
  pub catch_up_page : Source → Pages C → Next (Pages C) ℕ
  catch_up_page source p =
      let s = record p.sub { turn = suc p.sub.turn } in
      if out.stopped p.sub.turn
      then stop (ok p.count) (record p { sub = s })
      else fetched_next source p.count (fetch_page out wire set attempts s.position s)

  unfoldable pub catch_up : ℕ → Source → Exec (Subscriber C) ℕ
  unfolding catch_up_page
  catch_up fuel source s =
      let (r, p) = loop (catch_up_page source) fuel (record { count = 0; sub = s }) in (r, p.sub)

  -- `_scan_latest`: the sequence so far, with the subscriber.
  abbrev scan_next : ℕ → Result (List ReceivedSignal) × Subscriber C → Next (ℕ × Subscriber C) ℕ
  scan_next position (ok rows, s) =
      let newest = last_sequence position rows in
      if ltb (length rows) set.page_size then stop (ok newest) (newest, s) else again (newest, s)
  scan_next position (raised e, s) = stop (raised e) (position, s)
  scan_next position (unfinished, s) = stop unfinished (position, s)

  scan_page : ℕ × Subscriber C → Next (ℕ × Subscriber C) ℕ
  scan_page (position, s) = scan_next position (fetch_page out wire set attempts position s)

  scan_latest : ℕ → Exec (Subscriber C) ℕ
  unfolding scan_page
  scan_latest fuel s = let (r, (position, s')) = loop scan_page fuel (0, s) in (r, s')

  -- `self._cursor_store.load(self.strategy_id) or 0`
  loaded : Option ℕ → ℕ
  loaded none = 0
  loaded (some n) = n

  load_position : Exec (Subscriber C) ℕ
  unfolding loaded
  load_position = do
    store ← gets (λ s. s.store)
    found ← lift (cursors.load set.strategy_id store)
    pure (loaded found)

  commit_latest : ℕ → Exec (Subscriber C) (Unit {0})
  commit_latest position = if position == 0 then pure tt else commit_cursor cursors out set position

  resolve : ℕ → StartFrom → Exec (Subscriber C) (Unit {0})
  unfolding load_position scan_latest commit_latest
  resolve fuel (sequence n) = move_to cursors out set n
  resolve fuel cursor = do position ← load_position; move_to cursors out set position
  resolve fuel earliest = move_to cursors out set 0
  resolve fuel latest = do
    position ← scan_latest fuel
    move_to cursors out set position
    commit_latest position
  resolve fuel invalid = raise value_error

  mark_started : Exec (Subscriber C) (Unit {0})
  mark_started s = (ok tt, record s { started = true })

  pub start_position : ℕ → Exec (Subscriber C) (Unit {0})
  unfolding resolve mark_started
  start_position fuel = do resolve fuel set.start_from; mark_started

  pub catch_up_only : ℕ → Exec (Subscriber C) ℕ
  unfolding start_position catch_up
  catch_up_only fuel = do start_position fuel; catch_up fuel catchup
