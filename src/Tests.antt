-- ===== src/Tests.antt =====
-- Concrete runs: a relay that answers 503 throughout, a queue on the disk, a cap of two attempts.
mod Reader
mod Backlog
mod Socket
mod Async
mod Base64
mod Sealed
mod Keys
use multiedge_relay_python.Prelude.{
  Option, String, [], arith, if◌then◌else◌, min, none, refl, some, str_eq, true, ◌*◌, ◌<◌, ◌^◌, ◌∷◌,
  ◌≢◌, ◌≤◌, false,
}
use multiedge_relay_python.Ulid.{encode, fresh_ulids, new_ulid, render, crockford}
use multiedge_relay_python.Publisher.Bodies.{OneBody, publish-OneBody}
use multiedge_relay_python.Retry.Bounds.{
  Granted, backoff_delay-lt-unclamped, backoff_delay_clamped, backoff_delay_mono,
  next_delay-Granted,
}
use multiedge_relay_python.Retry.{
  HeaderLib, RetryPolicy, backoff_delay, float_limit, is_retryable_status, max_delay,
  max_retry_after, next_delay, parse_retry_after, second,
}
use multiedge_relay_python.Exec.{unfinished}
use multiedge_relay_python.Process.{Machine, fresh_ulid, today}
use multiedge_relay_python.Errors.{FilePath, unknown}
use multiedge_relay_python.World.{Env, Response, Stored, Wire, response}
use multiedge_relay_python.Publisher.Ends.{attempt_all-finishes}
use multiedge_relay_python.Dlq.{append, sanitize, write_entry}
use multiedge_relay_python.Prelude.Int.{pos}
use multiedge_relay_python.Models.{Signal}
use multiedge_relay_python.Ulid.Order.{LexLt, encode_mono, new_ulid_increases}
use multiedge_relay_python.Retry.Hints.{parse_retry_after-le}
use multiedge_relay_python.Publisher.{
  Config, attempt_all, publish, typed, prepare_signal, raise_for_terminal_status, int_of,
}
use multiedge_relay_python.Prelude.Json.{null}
use multiedge_relay_python.Publisher.Batch.{Chronicle, failed, publish_many, publish_many-Chronicle}
use multiedge_relay_python.Disk.{write}
use multiedge_relay_python.Exec.Loop.{loop}
use multiedge_relay_python.Webhook.{text}

abbrev test_header : HeaderLib
test_header = record {
  strip = λ s. s;
  int_of = λ s. if str_eq s "7" then some (pos 7) else some (pos float_limit);
  date_of = λ s. none;
}

abbrev pub test_signal : Signal
test_signal = record {
  strategy_id = "momentum/eu";
  payload = null;
  client_signal_id = none;
  schema_version = none;
  published_at = none;
  expires_at = none;
  correlation_id = none;
}

abbrev test_stored : Stored
test_stored = record {
  entry_id = [];
  signal = test_signal;
  error = unknown;
  attempts = 2;
  failed_at = 9;
}

abbrev pub test_wire : Wire
test_wire = record {
  header = test_header;
  signal_of = λ j. none;
  ack_of = λ j. none;
  received_of = λ j. none;
  repr = λ j. "";
  truncate = λ s. pos 0;
  encode_line = λ e. 123 ∷ 125 ∷ [];
  decode_line = λ t. some test_stored;
}

abbrev test_response : Option String → Response
test_response header = record { status = 503; text = "busy"; json = none; retry_after = header }

abbrev pub test_env : Option String → Env
test_env header = record {
  reply = λ turn. response (test_response header);
  monotonic = λ turn. turn;
  wall = λ turn. turn;
  draw = λ turn. 5;
  millis = λ turn. turn;
  bits = λ turn. 65536;
  today = λ turn. "2026-01-01";
  writable = λ turn. true;
}

abbrev pub test_policy : RetryPolicy
test_policy = record {
  max_attempts = some 2;
  budget = some (90 * second);
  max_delay_ticks = max_delay;
}

abbrev pub test_config : Config
test_config = record { policy = test_policy; sealer = none }

abbrev pub test_machine : Machine
test_machine = record {
  turn = 0;
  ulids = fresh_ulids;
  disk = [];
  spill = some "dlq";
  posts = [];
  slept = [];
}

publish-OneBody_example :
    OneBody test_config test_machine
      (publish (test_env none) test_wire test_config 3 (typed test_signal) test_machine).1
      (publish (test_env none) test_wire test_config 3 (typed test_signal) test_machine).0
publish-OneBody_example =
    publish-OneBody (test_env none) test_wire test_config 3 test_machine (typed test_signal)

attempt_all-finishes_example :
    (attempt_all (test_env none) test_wire test_config 3 test_signal 0 test_machine).0 ≢ unfinished
attempt_all-finishes_example =
    attempt_all-finishes (test_env none) test_wire test_config 2 3 test_signal 0 test_machine refl
      (omega arith)

abbrev test_path : FilePath
test_path = record { root = "dlq"; folder = "momentum_eu"; name = "2026-01-01.jsonl" }

next_delay-Granted_example : Granted test_policy 1 0 (7 * second)
unfolding next_delay parse_retry_after
next_delay-Granted_example = next_delay-Granted test_header test_policy 1 0 0 (some "7") 5 refl

parse_retry_after-le_example : 7 * second ≤ max_retry_after
unfolding parse_retry_after
parse_retry_after-le_example = parse_retry_after-le test_header 0 (some "7") refl

backoff_delay-lt-unclamped_example : backoff_delay 60 1 max_delay < min (1 * 2 ^ 60) max_delay
backoff_delay-lt-unclamped_example =
    backoff_delay-lt-unclamped 60 1 max_delay (omega arith) (omega arith) (omega arith)

new_ulid_increases_example : LexLt (render 7 65536) (render 7 65537)
unfolding new_ulid
new_ulid_increases_example =
    new_ulid_increases 7 7 65536 65536 fresh_ulids (omega arith) (omega arith) (omega arith)
      (omega arith) (omega arith) refl refl

-- The signal as it is prepared: named by the first ULID.
abbrev pub named_signal : Signal
named_signal = record test_signal { client_signal_id = some (render 0 65536) }

publish_many-Chronicle_example :
    Chronicle
      (test_env none)
      test_wire
      test_config
      3
      test_machine
      (typed test_signal ∷ [])
      (failed named_signal 2 (some test_path) ∷ [])
      (publish_many
        (test_env none)
        test_wire
        test_config
        3
        false
        (typed test_signal ∷ [])
        test_machine).1
unfolding publish_many publish loop new_ulid encode crockford is_retryable_status next_delay
    backoff_delay append fresh_ulid sanitize parse_retry_after write prepare_signal
    raise_for_terminal_status write_entry
publish_many-Chronicle_example =
    publish_many-Chronicle (test_env none) test_wire test_config 3 (typed test_signal ∷ [])
      test_machine (failed named_signal 2 (some test_path) ∷ []) refl

-- One entry on the disk, for the relay to refuse again.
abbrev stocked : Machine
stocked = record test_machine { disk = (test_path, 123 ∷ 125 ∷ 10 ∷ []) ∷ [] }
