-- ===== src/Retry/Hints.antt =====
-- The `Retry-After` header: clamped where it is read, and the size at which reading it raises.
use multiedge_relay_python.Prelude.{ℕ, ◌≤◌, ◌≡◌, String, Option, some, arith, str_eq, false}
use multiedge_relay_python.Prelude.Int.{ℤ, pos}
use multiedge_relay_python.Errors.{overflow_error}
use multiedge_relay_python.Exec.{ok, raised}
use multiedge_relay_python.Retry.{
  HeaderLib, float_limit, max_retry_after, parse_retry_after, hint_of_text,
}

hint_of_text-le :
    (lib : HeaderLib) (now : ℕ) (raw : String) (n : Option ℤ) {hint : ℕ}
    → hint_of_text lib now raw n ≡ ok (some hint)
    → hint ≤ max_retry_after
unfolding hint_of_text
hint_of_text-le lib now raw (some (pos n)) h = ground arith
hint_of_text-le lib now raw _ h = ground arith

-- A hint that is read is never above the ceiling of 300 seconds.
pub parse_retry_after-le :
    (lib : HeaderLib) (now : ℕ) (value : Option String) {hint : ℕ}
    → parse_retry_after lib now value ≡ ok (some hint)
    → hint ≤ max_retry_after
unfolding parse_retry_after
parse_retry_after-le lib now (some value) h =
    ground (arith, hint_of_text-le lib now (lib.strip value) (lib.int_of (lib.strip value)))
parse_retry_after-le lib now _ h = ground arith

-- A number of seconds too large for a float raises `OverflowError` instead of being clamped.
pub parse_retry_after-overflow :
    (lib : HeaderLib) (now : ℕ) (value : String) (n : ℕ)
    → str_eq (lib.strip value) "" ≡ false
    → lib.int_of (lib.strip value) ≡ some (pos n)
    → float_limit ≤ n
    → parse_retry_after lib now (some value) ≡ raised overflow_error
unfolding parse_retry_after
parse_retry_after-overflow lib now value n full e big = ground arith
