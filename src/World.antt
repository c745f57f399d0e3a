-- ===== src/World.antt =====
-- What the SDK's processes have outside them: the relay's answers, the clocks, the random sources,
-- the file system's answers and what pydantic and `json` make of a body. `Env` answers at the n-th
-- turn of a process; every question takes a turn of its own, so two questions may differ freely.
use multiedge_relay_python.Prelude.{ℕ, String, Bool, Option, Text}
use multiedge_relay_python.Prelude.Int.{ℤ}
use multiedge_relay_python.Prelude.Json.{Json}
use multiedge_relay_python.Models.{Signal, SignalAck, ReceivedSignal}
use multiedge_relay_python.Errors.{Cause}
use multiedge_relay_python.Retry.{HeaderLib}

-- An HTTP answer: `json` is `response.json()`, where `none` is its `ValueError`, and
-- `retry_after` is `headers.get("Retry-After")`.
pub record Response : Type 0 where
  pub status : ℕ
  pub text : String
  pub json : Option Json
  pub retry_after : Option String

-- A request ends in `httpx.TransportError` or in a response.
pub data Reply : Type 0 where
  transport_error : String → Reply
  response : Response → Reply

pub record Env : Type 0 where
  pub reply : ℕ → Reply
  -- `monotonic()`, in ticks
  pub monotonic : ℕ → ℕ
  -- `datetime.now(UTC)`, in ticks since the epoch
  pub wall : ℕ → ℕ
  -- `random_fn()`, in units of 2^-53
  pub draw : ℕ → ℕ
  -- `time.time_ns() // 1_000_000` and `secrets.randbits(80)`
  pub millis : ℕ → ℕ
  pub bits : ℕ → ℕ
  -- `datetime.now(UTC).strftime("%Y-%m-%d")`
  pub today : ℕ → String
  -- whether a write to the disk succeeds
  pub writable : ℕ → Bool

-- One line of a dead-letter file.
pub record Stored : Type 0 where
  pub entry_id : Text
  pub signal : Signal
  pub error : Cause
  pub attempts : ℕ
  pub failed_at : ℕ

-- The libraries' readings: `model_validate` of each model (`none` is a `ValidationError`), `str` and
-- `int` of a JSON value that is no string or integer, and one line of a dead-letter file, written by
-- `json.dumps` and read by `json.loads` and `model_validate` (`none` is their error).
pub record Wire : Type 0 where
  pub header : HeaderLib
  pub signal_of : Json → Option Signal
  pub ack_of : Json → Option SignalAck
  pub received_of : Json → Option ReceivedSignal
  pub repr : Json → String
  pub truncate : String → ℤ
  pub encode_line : Stored → Text
  pub decode_line : Text → Option Stored
