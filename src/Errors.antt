-- ===== src/Errors.antt =====
-- src/multiedge_relay/exceptions.py: the SDK's exceptions, with the Python, pydantic and SQLite
-- exceptions that its code lets through, and the subclass tests of the `except` clauses.
use multiedge_relay_python.Prelude.{ℕ, String, Option, Bool, true, false}
use multiedge_relay_python.Prelude.Int.{ℤ}
use multiedge_relay_python.Models.{Signal}

-- A file below a root directory: `<root>/<folder>/<name>`.
pub record FilePath : Type 0 where
  pub root : String
  pub folder : String
  pub name : String

-- What `last_error` is formatted from.
pub data Cause : Type 0 where
  unknown : Cause
  transport : String → Cause
  http : ℕ → String → Cause

pub data Error : Type 0 where
  multi_edge : Cause → Error
  auth_error : ℕ → Error
  validation_rejected : ℕ → Error
  idempotency_conflict : String → ℤ → Error
  publish_failed : Signal → ℕ → Option FilePath → Error
  buffer_full : ℕ → Error
  gap_unrecoverable : ℕ → ℕ → Error
  signature_verification : String → Error
  cursor_corrupt : Error
  sealed_error sealed_key_error key_pinning_error unseal_error not_a_recipient : Error
  state_store_corrupt : Error
  value_error type_error key_error attribute_error overflow_error validation_error os_error
        permission_error file_exists_error :
      Error
  http_error : String → Error
  sqlite_error : String → Error
  -- whatever a callback of the user raises
  raised_by_user : ℕ → Error

-- `isinstance(exc, MultiEdgeError)`
unfoldable pub is_multi_edge : Error → Bool
is_multi_edge value_error = false
is_multi_edge type_error = false
is_multi_edge attribute_error = false
is_multi_edge key_error = false
is_multi_edge overflow_error = false
is_multi_edge validation_error = false
is_multi_edge os_error = false
is_multi_edge permission_error = false
is_multi_edge file_exists_error = false
is_multi_edge (http_error _) = false
is_multi_edge (sqlite_error _) = false
is_multi_edge (raised_by_user _) = false
is_multi_edge _ = true

-- `isinstance(exc, httpx.HTTPError)`
unfoldable pub is_http_error : Error → Bool
is_http_error (http_error _) = true
is_http_error _ = false

-- `_FATAL_TYPES` of subscriber.py; `StateStoreCorruptError` is a `CursorCorruptError`.
unfoldable pub is_fatal : Error → Bool
is_fatal (auth_error _) = true
is_fatal (gap_unrecoverable _ _) = true
is_fatal (buffer_full _) = true
is_fatal cursor_corrupt = true
is_fatal state_store_corrupt = true
is_fatal _ = false

-- `isinstance(exc, PublishFailed)`
abbrev pub is_publish_failed : Error → Bool
is_publish_failed (publish_failed _ _ _) = true
is_publish_failed _ = false
