-- ===== src/Tests/Backlog.antt =====
-- A relay that serves a log of two signals, one to a page.
use multiedge_relay_python.Prelude.{
  ℕ, Bool-cases, List, Option, [], arith, false, if◌then◌else◌, inl, inr, ltb, none, refl, some,
  true, ◌∷◌, ◌≡◌,
}
use multiedge_relay_python.Subscriber.CatchUp.Complete.{Caught, catch_up-Caught}
use multiedge_relay_python.Models.{ReceivedSignal, catchup}
use multiedge_relay_python.Subscriber.{CursorStore, Outside, Settings, Subscriber, cursor, page_of}
use multiedge_relay_python.Subscriber.Backlog.{Rising, above}
use multiedge_relay_python.Subscriber.Delivery.Whole.{Handing}
use multiedge_relay_python.Prelude.Json.{Items, Json, arr, end, field, int, item, nil, null, obj}
use multiedge_relay_python.Tests.{test_policy, test_wire}
use multiedge_relay_python.World.{Response, Wire, response}
use multiedge_relay_python.Subscriber.CatchUp.Alive.{Answers, Answers-Truthful, catch_up-Returns}
use multiedge_relay_python.Subscriber.CatchUp.{catch_up}
use multiedge_relay_python.Exec.{ok}
use multiedge_relay_python.Prelude.Int.{pos}
use multiedge_relay_python.Subscriber.Delivery.{unsealed}

abbrev pub numbered : ℕ → ReceivedSignal
numbered n = record {
  sequence = n;
  signal_id = "s";
  strategy_id = "momentum";
  published_at = 1;
  payload = null;
  client_signal_id = none;
  correlation_id = none;
}

abbrev two_signals : List ReceivedSignal
two_signals = numbered 7 ∷ numbered 9 ∷ []

abbrev row_of : Json → Option ReceivedSignal
row_of (int (pos n)) = some (numbered n)
row_of _ = none

abbrev pub rows_wire : Wire
rows_wire = record {
  header = test_wire.header;
  signal_of = test_wire.signal_of;
  ack_of = test_wire.ack_of;
  received_of = row_of;
  repr = test_wire.repr;
  truncate = test_wire.truncate;
  encode_line = test_wire.encode_line;
  decode_line = test_wire.decode_line;
}

abbrev rows_reply : Items → Response
rows_reply rows = record {
  status = 200;
  text = "";
  json = some (obj (field "signals" (arr rows) end));
  retry_after = none;
}

abbrev served : ℕ → Response
served since = rows_reply (
    if ltb since 7
    then item (int (pos 7)) nil
    else if ltb since 9
    then item (int (pos 9)) nil
    else nil)

abbrev pub serving : Outside
serving = record {
  page = λ turn since. response (served since);
  stopped = λ turn. false;
  callback = λ turn r meta. none;
  monotonic = λ turn. turn;
  wall = λ turn. turn;
  draw = λ turn. 5;
}

abbrev pub taking : CursorStore ℕ
taking = record { load = λ id c. ok (some c); commit = λ id n c. (ok tt, n) }

abbrev pub single_pages : Settings
single_pages = record {
  strategy_id = "momentum";
  start_from = cursor;
  page_size = 1;
  policy = test_policy;
  max_buffer = 10;
  gap_fill_rounds = 3;
  on_error = true;
  unsealer = none;
}

abbrev pub waiting : Subscriber ℕ
waiting = record { turn = 0; store = 6; position = 6; started = true; buffer = []; trace = [] }

serving-Answers : Answers serving rows_wire single_pages two_signals
unfolding above page_of
serving-Answers turn since = elim (Bool-cases (ltb since 7)) [
  | inl early ↦ (served since, refl, refl, rw early refl)
  | inr later ↦ elim (Bool-cases (ltb since 9)) [
    | inl middle ↦ (served since, refl, refl, rw (later, middle) refl)
    | inr late ↦ (served since, refl, refl, rw (later, late) refl)
  ]
]

two_signals-Rising : Rising 0 two_signals
two_signals-Rising = (ground arith, (ground arith, tt))

catch_up-Returns_example :
    let o = catch_up taking serving rows_wire single_pages 1 5 catchup waiting in
    (o.0 ≡ ok 2) × Handing single_pages catchup two_signals waiting o.1
unfolding above unsealed
catch_up-Returns_example =
    catch_up-Returns taking serving rows_wire single_pages 0 catchup two_signals 0
      two_signals-Rising serving-Answers (λ turn. refl) (λ turn r meta. refl) (λ n c. refl)
      (λ r. (r, refl)) (ground arith) 5 waiting (ground arith)

catch_up-Caught_example :
    Caught single_pages catchup two_signals 0 two_signals-Rising waiting
      (catch_up taking serving rows_wire single_pages 1 5 catchup waiting).0
      (catch_up taking serving rows_wire single_pages 1 5 catchup waiting).1
catch_up-Caught_example =
    catch_up-Caught taking serving rows_wire single_pages 1 catchup two_signals 0 two_signals-Rising
      (Answers-Truthful serving rows_wire single_pages two_signals serving-Answers) (λ turn. refl)
      waiting 5
