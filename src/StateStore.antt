-- ===== src/StateStore.antt =====
-- src/multiedge_relay/state_sqlite.py: the cursor table and the processed markers in one SQLite
-- file. A connection in autocommit mode has its tables and, inside an explicit transaction, the
-- tables to go back to. Times are microseconds; SQLite's refusals to begin are asked of the world.
pub mod Once
pub mod Body
pub mod Watermark
use multiedge_relay_python.Prelude.{
  ℕ, Bool, List, Option, String, [], false, if◌then◌else◌, leb, length, ltb, none, not, some,
  str_eq, suc, true, zero, ◌&&◌, ◌-◌, ◌==◌, ◌||◌, ◌∷◌,
}
use multiedge_relay_python.Exec.{
  Exec, Result, gets, modify, ok, pure, raised, unfinished, ◌>>=◌, ◌>>◌,
}
use multiedge_relay_python.Models.{ReceivedSignal, SignalMeta}
use multiedge_relay_python.Errors.{sqlite_error}
use multiedge_relay_python.Publisher.Batch.{failed}
use multiedge_relay_python.Webhook.{within}

pub record Row : Type 0 where
  pub strategy_id : String
  pub watermark : ℕ

pub record Marker : Type 0 where
  pub signal_id : String
  pub strategy_id : String
  pub number : ℕ
  pub processed_at : ℕ

-- `cursor`, `processed`, and the tables of the user.
pub record Tables (U : Type 0) : Type 0 where
  pub cursors : List Row
  pub processed : List Marker
  pub user : U

pub record StateStore (U : Type 0) : Type 0 where
  pub tables : Tables U
  -- where a transaction is open: what ROLLBACK goes back to
  pub saved : Option (Tables U)
  pub turn : ℕ

-- The clock, and whether `BEGIN IMMEDIATE` gets the lock before the busy timeout.
pub record Around : Type 0 where
  pub clock : ℕ → ℕ
  pub free : ℕ → Bool

-- `SELECT sequence FROM cursor WHERE strategy_id = ?`
pub select_cursor : String → List Row → Option ℕ
select_cursor id [] = none
select_cursor id (row ∷ rows) =
    if str_eq row.strategy_id id then some row.watermark else select_cursor id rows

-- `INSERT … ON CONFLICT(strategy_id) DO UPDATE`
pub upsert : String → ℕ → List Row → List Row
upsert id n [] = record { strategy_id = id; watermark = n } ∷ []
upsert id n (row ∷ rows) =
    if str_eq row.strategy_id id
    then record { strategy_id = id; watermark = n } ∷ rows
    else row ∷ upsert id n rows

-- `SELECT 1 FROM processed WHERE signal_id = ?`
pub has_marker : String → List Marker → Bool
has_marker id [] = false
has_marker id (m ∷ ms) = str_eq m.signal_id id || has_marker id ms

-- `strategy_id = ? AND sequence <= ?`
pub covered : String → ℕ → Marker → Bool
covered id n m = str_eq m.strategy_id id && leb m.number n

-- `DELETE FROM processed WHERE` the test.
pub delete_where : (Marker → Bool) → List Marker → List Marker
delete_where test [] = []
delete_where test (m ∷ ms) = let rest = delete_where test ms in if test m then rest else m ∷ rest

at_or_above : ℕ → Option ℕ → Bool
at_or_above n none = false
at_or_above n (some watermark) = leb n watermark

-- The invariant of the module: a marker, or a watermark that is not below the sequence.
unfoldable pub is_processed : {U : Type 0} → ReceivedSignal → Tables U → Bool
unfolding has_marker at_or_above select_cursor
is_processed signal t =
    has_marker signal.signal_id t.processed
    || at_or_above signal.sequence (select_cursor signal.strategy_id t.cursors)

-- Handlers of the user: any method of the store's state.
abbrev pub Handler : Type 0 → Type 0
Handler U = ReceivedSignal → SignalMeta → Exec (StateStore U) (Unit {0})

module _ {U : Type 0} where
  -- `BEGIN IMMEDIATE`, refused inside a transaction.
  begin_if : Bool → Option (Tables U) → Exec (StateStore U) (Unit {0})
  begin_if true none s = (ok tt, record s { turn = suc s.turn; saved = some s.tables })
  begin_if true (some t) s = (
    raised (sqlite_error "cannot start a transaction within a transaction"),
    record s { turn = suc s.turn },
  )
  begin_if false o s = (raised (sqlite_error "database is locked"), record s { turn = suc s.turn })

  pub begin : Around → Exec (StateStore U) (Unit {0})
  unfolding begin_if
  begin around s = begin_if (around.free s.turn) s.saved s

  -- `COMMIT`
  pub commit_open : Exec (StateStore U) (Unit {0})
  commit_open s = (ok tt, record s { saved = none })

  -- `_rollback`: nothing where no transaction is open.
  restore : Option (Tables U) → StateStore U → StateStore U
  restore none s = s
  restore (some t) s = record s { tables = t; saved = none }

  pub rollback : StateStore U → StateStore U
  unfolding restore
  rollback s = restore s.saved s

  -- `except BaseException: self._rollback(); raise`
  abbrev pub rolled_back : {A : Type 0} → Result A × StateStore U → Result A × StateStore U
  rolled_back (ok a, s) = (ok a, s)
  rolled_back (raised e, s) = (raised e, rollback s)
  rolled_back (unfinished, s) = (unfinished, s)

  -- `INSERT INTO processed`; the primary key refuses a second marker.
  insert_row : Bool → Marker → Exec (StateStore U) (Unit {0})
  insert_row true m s = (raised (sqlite_error "UNIQUE constraint failed"), s)
  insert_row false m s =
      (ok tt, record s { tables = record s.tables { processed = m ∷ s.tables.processed } })

  pub insert_marker : Around → ReceivedSignal → Exec (StateStore U) (Unit {0})
  unfolding insert_row has_marker
  insert_marker around signal s =
      insert_row (has_marker signal.signal_id s.tables.processed)
        (record {
          signal_id = signal.signal_id;
          strategy_id = signal.strategy_id;
          number = signal.sequence;
          processed_at = around.clock s.turn;
        })
        (record s { turn = suc s.turn })

  -- `load`
  pub load : String → Exec (StateStore U) (Option ℕ)
  unfolding select_cursor
  load id s = (ok (select_cursor id s.tables.cursors), s)

  -- `seen`
  pub seen : String → Exec (StateStore U) Bool
  seen id s = (ok (has_marker id s.tables.processed), s)

  write_cursor : String → ℕ → Exec (StateStore U) (Unit {0})
  unfolding upsert
  write_cursor id n s =
      (ok tt, record s { tables = record s.tables { cursors = upsert id n s.tables.cursors } })

  delete_markers : (Marker → Bool) → Exec (StateStore U) ℕ
  unfolding delete_where
  delete_markers test s =
      let kept = delete_where test s.tables.processed in
      (
        ok (length s.tables.processed - length kept),
        record s { tables = record s.tables { processed = kept } },
      )

  -- `commit`; returning freed pages to the system changes no table.
  pub commit : Around → String → ℕ → Exec (StateStore U) (Unit {0})
  unfolding write_cursor delete_markers covered
  commit around id n = do
    begin around
    (λ s. rolled_back ((do write_cursor id n; delete_markers (covered id n); commit_open) s))

  -- `prune`: the markers processed before the cutoff; returns their number.
  pub prune : Around → ℕ → Exec (StateStore U) ℕ
  unfolding delete_markers
  prune around before = do
    begin around
    (λ s. rolled_back (
        (do deleted ← delete_markers (λ m. ltb m.processed_at before); commit_open; pure deleted)
          s))

  -- Inside the transaction: whether the delivery is a duplicate.
  once_inside : Around → Handler U → ReceivedSignal → SignalMeta → Exec (StateStore U) Bool
  once_inside around handler signal meta s =
      if is_processed signal s.tables
      then (ok true, rollback s)
      else (do handler signal meta; insert_marker around signal; commit_open; pure false) s

  abbrev pub answer_duplicate :
      Option (Handler U) → ReceivedSignal → SignalMeta → Bool → Exec (StateStore U) (Unit {0})
  answer_duplicate (some on_duplicate) signal meta true = on_duplicate signal meta
  answer_duplicate o signal meta _ = pure tt

  -- The callback that `exactly_once_tx` returns.
  pub exactly_once_tx : Around → Handler U → Option (Handler U) → Handler U
  unfolding once_inside
  exactly_once_tx around handler on_duplicate signal meta = do
    begin around
    duplicate ← (λ s. rolled_back (once_inside around handler signal meta s))
    answer_duplicate on_duplicate signal meta duplicate

  -- A fresh signal: only the body's own error rolls back.
  process_fresh :
      Around
      → ReceivedSignal
      → (Bool → Exec (StateStore U) (Unit {0}))
      → Exec (StateStore U) (Unit {0})
  process_fresh around signal body = do
    (λ s. rolled_back (body true s))
    insert_marker around signal
    commit_open

  process_inside :
      Around
      → ReceivedSignal
      → (Bool → Exec (StateStore U) (Unit {0}))
      → Bool
      → Exec (StateStore U) (Unit {0})
  unfolding process_fresh
  process_inside around signal body fresh =
      if not fresh then (do modify rollback; body false) else process_fresh around signal body

  -- `with store.process(signal) as fresh: body`, where the body is given `fresh`.
  pub process :
      Around
      → ReceivedSignal
      → (Bool → Exec (StateStore U) (Unit {0}))
      → Exec (StateStore U) (Unit {0})
  unfolding process_inside
  process around signal body = do
    begin around
    fresh ← gets (λ s. not (is_processed signal s.tables))
    process_inside around signal body fresh

-- `_vacuum_freed_pages`: each pragma frees what `freed` says; it stops where that is nothing.
pub vacuum : (ℕ → ℕ) → ℕ → ℕ → ℕ
vacuum freed zero pages = pages
vacuum freed (suc fuel) pages =
    let rest = vacuum freed fuel (pages - freed pages) in
    if pages == 0 || leb pages (pages - freed pages) then pages else rest
