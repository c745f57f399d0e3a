-- ===== src/StateStore/Once.antt =====
-- `exactly_once_tx`: a handler completes together with its marker, or leaves no trace.
use multiedge_relay_python.Prelude.{
  Bool, Bool-cases, Option, arith, false, inl, inr, none, refl, some, suc, true, ◌∙◌, ◌≡◌, eq_iff,
}
use multiedge_relay_python.StateStore.{
  Around, Handler, Tables, answer_duplicate, begin, begin_if, commit_open, exactly_once_tx,
  has_marker, insert_marker, is_processed, once_inside, rollback, rolled_back, StateStore, Marker,
  insert_row,
}
use multiedge_relay_python.Exec.{Result, ok, pure, raised, unfinished, ◌>>=◌}
use multiedge_relay_python.Errors.{Error, sqlite_error}
use multiedge_relay_python.Models.{ReceivedSignal, SignalMeta}

-- A handler that neither commits nor rolls back the transaction that it joins.
abbrev pub KeepsTransaction : {U : Type 0} → Handler U → Type 0
KeepsTransaction {U} handler =
    (signal : ReceivedSignal) (meta : SignalMeta) (s : StateStore U)
    → (handler signal meta s).1.saved ≡ s.saved

module _ {U : Type 0} where
  -- A delivery that returns has its signal processed; one that raises leaves every table as it was,
  -- those of the user included; no transaction stays open.
  abbrev pub Once : {A : Type 0} → ReceivedSignal → Tables U → Result A → StateStore U → Type 0
  Once signal before (ok _) s = (is_processed signal s.tables ≡ true) × (s.saved ≡ none)
  Once signal before (raised e) s = (s.tables ≡ before) × (s.saved ≡ none)
  Once signal before unfinished s = Unit {0}

  pub undone-Once :
      (A : Type 0) (signal : ReceivedSignal) (before : Tables U) (e : Error) (s : StateStore U)
      → s.saved ≡ some before
      → Once {A = A} signal before (raised e) (rollback s)
  unfolding rollback
  undone-Once A signal before e s h = rw h (refl, refl)

  row-Once :
      (signal : ReceivedSignal) (before : Tables U) (there : Bool) (m : Marker) (s : StateStore U)
      → s.saved ≡ some before
      → m.signal_id ≡ signal.signal_id
      → let act = insert_row there m >>= λ _. commit_open >>= λ _. pure false in
        Once signal before (rolled_back (act s)).0 (rolled_back (act s)).1
  unfolding insert_row commit_open is_processed
  row-Once signal before true m s h e =
      undone-Once Bool signal before (sqlite_error "UNIQUE constraint failed") s h
  row-Once signal before false m s h e = (ground (arith, eq_iff m.signal_id signal.signal_id), refl)

  marked-Once :
      (around : Around) (signal : ReceivedSignal) (before : Tables U) (s : StateStore U)
      → s.saved ≡ some before
      → let act = insert_marker around signal >>= λ _. commit_open >>= λ _. pure false in
        Once signal before (rolled_back (act s)).0 (rolled_back (act s)).1
  unfolding insert_marker
  marked-Once around signal before s h =
      row-Once signal before (has_marker signal.signal_id s.tables.processed)
        (record {
          signal_id = signal.signal_id;
          strategy_id = signal.strategy_id;
          number = signal.sequence;
          processed_at = around.clock s.turn;
        })
        (record s { turn = suc s.turn }) h refl

  handled-Once :
      (around : Around) (signal : ReceivedSignal) (before : Tables U) (r : Result (Unit {0}))
      (t s : StateStore U)
      → s.saved ≡ some before
      → let act = (λ (u : StateStore U). (r, s)) >>= λ _.
          insert_marker around signal >>= λ _. commit_open >>= λ _. pure false in
        Once signal before (rolled_back (act t)).0 (rolled_back (act t)).1
  handled-Once around signal before (ok _) t s h = marked-Once around signal before s h
  handled-Once around signal before (raised e) t s h = undone-Once Bool signal before e s h
  handled-Once around signal before unfinished t s h = tt

  inside-Once :
      (around : Around) (handler : Handler U) (signal : ReceivedSignal) (meta : SignalMeta)
      (s : StateStore U)
      → KeepsTransaction handler
      → s.saved ≡ some s.tables
      → let out = rolled_back (once_inside around handler signal meta s) in
        Once signal s.tables out.0 out.1
  unfolding once_inside rollback
  inside-Once around handler signal meta s keeps h =
      elim (Bool-cases (is_processed signal s.tables)) [
        | inl old ↦ rw (old, h) (old, refl)
        | inr fresh ↦ rw fresh (
            handled-Once around signal s.tables (handler signal meta s).0 s
              (handler signal meta s).1 (keeps signal meta s ∙ h))
      ]

  answered-Once :
      (signal : ReceivedSignal) (meta : SignalMeta) (before : Tables U) (r : Result Bool)
      (t s : StateStore U)
      → Once signal before r s
      → let out = ((λ (u : StateStore U). (r, s)) >>= answer_duplicate none signal meta) t in
        Once signal before out.0 out.1
  answered-Once signal meta before (ok _) t s h = h
  answered-Once signal meta before (raised e) t s h = h
  answered-Once signal meta before unfinished t s h = h

  began-Once :
      (around : Around) (handler : Handler U) (signal : ReceivedSignal) (meta : SignalMeta)
      (free : Bool) (o : Option (Tables U)) (s : StateStore U)
      → KeepsTransaction handler
      → o ≡ none
      → s.saved ≡ none
      → let act = begin_if free o >>= λ _.
          (λ u. rolled_back (once_inside around handler signal meta u)) >>= λ duplicate.
          answer_duplicate none signal meta duplicate in
        Once signal s.tables (act s).0 (act s).1
  unfolding begin_if
  began-Once around handler signal meta true none s keeps e h =
      let u = record s { turn = suc s.turn; saved = some s.tables } in
      (answered-Once signal meta s.tables (rolled_back (once_inside around handler signal meta u)).0
        u (rolled_back (once_inside around handler signal meta u)).1
        (inside-Once around handler signal meta u keeps refl))
  began-Once around handler signal meta true (some t) s keeps e h = cc
  began-Once around handler signal meta false o s keeps e h = (refl, h)

  -- With a handler that keeps to the transaction it is given, no `on_duplicate` and no transaction
  -- open: a delivery that returns leaves its signal processed, and one that raises leaves every
  -- table as it was, the user's included; in both cases no transaction stays open.
  pub exactly_once_tx-Once :
      (around : Around) (handler : Handler U) (signal : ReceivedSignal) (meta : SignalMeta)
      (s : StateStore U)
      → KeepsTransaction handler
      → s.saved ≡ none
      → Once signal s.tables
          (exactly_once_tx around handler none signal meta s).0
          (exactly_once_tx around handler none signal meta s).1
  unfolding exactly_once_tx begin
  exactly_once_tx-Once around handler signal meta s keeps h =
      began-Once around handler signal meta (around.free s.turn) s.saved s keeps h h
