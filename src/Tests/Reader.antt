-- ===== src/Tests/Reader.antt =====
-- Concrete runs of the reading side: pages of two rows, stores with one strategy, one signed request.
use multiedge_relay_python.Prelude.{
  ℕ, List, [], arith, false, if◌then◌else◌, none, refl, some, str_eq, suc, true, ◌==◌, ◌∷◌, ◌≡◌,
  Bool,
}
use multiedge_relay_python.Prelude.Json.{Fields, arr, end, field, int, item, nil, null, obj, str}
use multiedge_relay_python.StateStore.{
  Around, Handler, Marker, StateStore, Tables, commit, exactly_once_tx, is_processed,
}
use multiedge_relay_python.Subscriber.{CursorStore, Outside, Settings, Subscriber, cursor}
use multiedge_relay_python.Subscriber.CatchUp.{catch_up}
use multiedge_relay_python.Cursor.{CursorFiles, CursorJson, CursorWorld, replaced, shared}
use multiedge_relay_python.StateStore.Once.{Once, exactly_once_tx-Once}
use multiedge_relay_python.Webhook.{Crypto, Guard}
use multiedge_relay_python.Exec.{ok, Exec}
use multiedge_relay_python.StateStore.Watermark.{commit-is_processed, commit_below-is_processed}
use multiedge_relay_python.Models.{ReceivedSignal, SignalMeta, catchup, live}
use multiedge_relay_python.Subscriber.Delivery.{deliver}
use multiedge_relay_python.Tests.{test_policy, test_wire}
use multiedge_relay_python.Errors.{raised_by_user}
use multiedge_relay_python.World.{Response, Wire, response}
use multiedge_relay_python.Ulid.{fresh_ulids}
use multiedge_relay_python.Subscriber.Order.{Progress}
use multiedge_relay_python.Subscriber.CatchUp.Order.{catch_up-Progress}
use multiedge_relay_python.Prelude.Int.{pos}
use multiedge_relay_python.Subscriber.Delivery.Order.{Handled, deliver-Handled}

abbrev seventh : ReceivedSignal
seventh = record {
  sequence = 7;
  signal_id = "s7";
  strategy_id = "momentum";
  published_at = 1;
  payload = null;
  client_signal_id = none;
  correlation_id = none;
}

abbrev seventh_meta : SignalMeta
seventh_meta = record { sequence = 7; signal_id = "s7"; published_at = 1; source = live }

abbrev page_wire : Wire
page_wire = record test_wire { received_of = λ j. some seventh }

abbrev test_page : Response
test_page = record {
  status = 200;
  text = "";
  json = some (obj (field "signals" (arr (item null (item null nil))) end));
  retry_after = none;
}

abbrev test_outside : Outside
test_outside = record {
  page = λ turn since. response test_page;
  stopped = λ turn. false;
  callback = λ turn r meta. none;
  monotonic = λ turn. turn;
  wall = λ turn. turn;
  draw = λ turn. 5;
}

abbrev test_cursors : CursorStore ℕ
test_cursors = record { load = λ id c. ok (some c); commit = λ id n c. (ok tt, n) }

abbrev test_settings : Settings
test_settings = record {
  strategy_id = "momentum";
  start_from = cursor;
  page_size = 100;
  policy = test_policy;
  max_buffer = 10;
  gap_fill_rounds = 3;
  on_error = true;
  unsealer = none;
}

abbrev test_subscriber : Subscriber ℕ
test_subscriber = record {
  turn = 0;
  store = 6;
  position = 6;
  started = true;
  buffer = [];
  trace = [];
}

catch_up-Progress_example :
    Progress test_subscriber
      (catch_up test_cursors test_outside page_wire test_settings 3 5 catchup test_subscriber).0
      (catch_up test_cursors test_outside page_wire test_settings 3 5 catchup test_subscriber).1
catch_up-Progress_example =
    catch_up-Progress test_cursors test_outside page_wire test_settings 3 test_subscriber 5 catchup

deliver-Handled_example :
    Handled test_cursors test_outside test_settings seventh live test_subscriber
      (deliver test_cursors test_outside test_settings seventh live test_subscriber).0
      (deliver test_cursors test_outside test_settings seventh live test_subscriber).1
deliver-Handled_example =
    deliver-Handled test_cursors test_outside test_settings seventh live test_subscriber

abbrev full_settings : Settings
full_settings = record test_settings { page_size = 2 }

abbrev around : Around
around = record { clock = λ turn. turn; free = λ turn. true }

abbrev test_marker : Marker
test_marker = record { signal_id = "s7"; strategy_id = "momentum"; number = 7; processed_at = 1 }

abbrev test_tables : List Marker → Tables ℕ
test_tables ms = record {
  cursors = record { strategy_id = "momentum"; watermark = 3 } ∷ [];
  processed = ms;
  user = 0;
}

abbrev test_store : List Marker → StateStore ℕ
test_store ms = record { tables = test_tables ms; saved = none; turn = 0 }

abbrev counting : Handler ℕ
counting signal meta s = (ok tt, record s { tables = record s.tables { user = suc s.tables.user } })

exactly_once_tx-Once_example :
    Once seventh
      (test_tables [])
      (exactly_once_tx around counting none seventh seventh_meta (test_store [])).0
      (exactly_once_tx around counting none seventh seventh_meta (test_store [])).1
exactly_once_tx-Once_example =
    exactly_once_tx-Once around counting seventh seventh_meta (test_store [])
      (λ signal meta s. refl) refl

abbrev counted_body : Bool → Exec (StateStore ℕ) (Unit {0})
counted_body fresh s = (ok tt, record s { tables = record s.tables { user = suc s.tables.user } })

commit-is_processed_example :
    is_processed seventh (commit around "momentum" 9 (test_store (test_marker ∷ []))).1.tables
    ≡ true
unfolding is_processed
commit-is_processed_example =
    commit-is_processed around "momentum" 9 seventh (test_store (test_marker ∷ [])) refl refl
      ((λ e. (refl, refl)), tt) (λ w e. ground arith) refl

commit_below-is_processed_example :
    is_processed seventh (commit around "momentum" 2 (test_store [])).1.tables ≡ false
unfolding is_processed
commit_below-is_processed_example =
    commit_below-is_processed around 2 seventh (test_store []) refl refl (omega arith) refl

abbrev seven_fields : Fields
seven_fields = field "sequence" (int (pos 7)) end

abbrev test_json : CursorJson
test_json = record { dumps = λ id n t. 123 ∷ 125 ∷ []; loads = λ t. some (obj seven_fields) }

abbrev test_world : CursorWorld
test_world = record {
  writes = λ turn. true;
  replaces = λ turn. if turn == 3 then shared else replaced;
  wall = λ turn. turn;
  millis = λ turn. turn;
  bits = λ turn. 65536;
}

abbrev test_files : CursorFiles
test_files = record { turn = 0; ulids = fresh_ulids; disk = []; naps = 0 }

abbrev test_crypto : Crypto
test_crypto = record {
  decode = λ s. none;
  encoded = λ s. 1 ∷ [];
  prefix = λ n. 2 ∷ [];
  digest = λ key message. "d1";
  is_ascii = λ s. str_eq s "d1";
  age = λ now n. some 4;
  int_of = λ s. some (pos 100);
  lower = λ s. s;
  after_prefix = λ s. some "d1";
  signal_of = λ body. some seventh;
  parse = λ t. none;
}

abbrev test_guard : Guard
test_guard = record { secret = "key"; max_age = 300; now = 104; unsealer = none }

abbrev test_frame : Fields
test_frame =
    field "envelope" (str "e")
      (field "signature" (str "d1") (field "timestamp" (int (pos 100)) end))

-- A callback that raises an error of the user's own.
abbrev failing_outside : Outside
failing_outside = record test_outside { callback = λ turn r meta. some (raised_by_user 1) }
