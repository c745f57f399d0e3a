-- ===== src/Models.antt =====
-- src/multiedge_relay/models.py: the frozen wire models. Timestamps are microseconds since the
-- epoch; what pydantic does to read and write JSON is a parameter (World.Wire). An idempotency key is the list of its
-- characters' codes, as a ULID is.
use multiedge_relay_python.Prelude.{ℕ, String, Option, Bool, Text}
use multiedge_relay_python.Prelude.Json.{Json}

pub record Signal : Type 0 where
  pub strategy_id : String
  pub payload : Json
  pub client_signal_id : Option Text
  pub schema_version : Option String
  pub published_at : Option ℕ
  pub expires_at : Option ℕ
  pub correlation_id : Option String

pub record SignalAck : Type 0 where
  pub signal_id : String
  pub client_signal_id : Text
  pub sequence : ℕ
  pub accepted_at : ℕ
  pub duplicate : Bool

pub record ReceivedSignal : Type 0 where
  pub sequence : ℕ
  pub signal_id : String
  pub strategy_id : String
  pub published_at : ℕ
  pub payload : Json
  pub client_signal_id : Option Text
  pub correlation_id : Option String

pub data Source : Type 0 where
  catchup live gapfill : Source

pub record SignalMeta : Type 0 where
  pub sequence : ℕ
  pub signal_id : String
  pub published_at : ℕ
  pub source : Source
