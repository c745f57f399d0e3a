-- ===== src/Retry.antt =====
-- src/multiedge_relay/_retry.py: which statuses are retried, the backoff, the `Retry-After` header
-- and the bounds of a retry loop. Durations are whole ticks of 2^-54 seconds, and a draw of
-- `random_fn` is a multiple of 2^-53 (as `random.random` returns them), so that
-- `random_fn() * 0.5 * 2.0**n` is `draw * 2 ^ n` ticks with no rounding.
pub mod Bounds
pub mod Hints
pub mod Total
use multiedge_relay_python.Prelude.{
  ℕ, suc, ◌-◌, ◌*◌, ◌^◌, ◌+◌, min, String, Bool, true, false, ◌&&◌, ◌||◌, Option, none, some, leb,
  ◌==◌, str_eq, if◌then◌else◌,
}
use multiedge_relay_python.Prelude.Int.{ℤ, pos, negsuc}
use multiedge_relay_python.Errors.{overflow_error}
use multiedge_relay_python.Exec.{Result, ok, raised, unfinished}

-- One second in ticks.
abbrev pub second : ℕ
second = 2 ^ 54

abbrev pub default_max_attempts : ℕ
default_max_attempts = 25

abbrev pub default_retry_budget : ℕ
default_retry_budget = 90 * second

abbrev pub max_delay : ℕ
max_delay = 8 * second

abbrev pub max_retry_after : ℕ
max_retry_after = 300 * second

abbrev pub max_backoff_exponent : ℕ
max_backoff_exponent = 32

-- `float(n)` raises `OverflowError` from here on: the value would round to 2^1024.
abbrev pub float_limit : ℕ
float_limit = 2 ^ 1024 - 2 ^ 970

-- What Python's library makes of a header's text: `str.strip`, `int` (`none` is a `ValueError`) and
-- `parsedate_to_datetime`, as ticks since the epoch (`none` is a `TypeError` or a `ValueError`).
pub record HeaderLib : Type 0 where
  pub strip : String → String
  pub int_of : String → Option ℤ
  pub date_of : String → Option ℕ

unfoldable pub is_retryable_status : ℕ → Bool
is_retryable_status status = (status == 408 || status == 429) || (leb 500 status && leb status 599)

unfoldable pub backoff_delay : ℕ → ℕ → ℕ → ℕ
backoff_delay attempt draw cap = min (draw * 2 ^ min attempt max_backoff_exponent) cap

-- `min(max(seconds, 0.0), MAX_RETRY_AFTER_SECONDS)`, with `seconds` at least 0 already.
clamp_hint : ℕ → ℕ
clamp_hint ticks = min ticks max_retry_after

-- `float(int(raw))` and the clamp: an integer below 0 becomes 0.
hint_of_int : ℤ → Result (Option ℕ)
unfolding clamp_hint
hint_of_int (pos n) =
    if leb float_limit n then raised overflow_error else ok (some (clamp_hint (n * second)))
hint_of_int (negsuc n) = if leb float_limit (suc n) then raised overflow_error else ok (some 0)

-- `(when - current).total_seconds()` and the clamp: a date that is past becomes 0.
hint_of_date : ℕ → Option ℕ → Result (Option ℕ)
unfolding clamp_hint
hint_of_date now none = ok none
hint_of_date now (some instant) = ok (some (clamp_hint (instant - now)))

hint_of_text : HeaderLib → ℕ → String → Option ℤ → Result (Option ℕ)
unfolding hint_of_int hint_of_date
hint_of_text lib now raw (some n) = hint_of_int n
hint_of_text lib now raw none = hint_of_date now (lib.date_of raw)

unfoldable pub parse_retry_after : HeaderLib → ℕ → Option String → Result (Option ℕ)
unfolding hint_of_text
parse_retry_after lib now none = ok none
parse_retry_after lib now (some value) =
    let raw = lib.strip value in
    if str_eq raw "" then ok none else hint_of_text lib now raw (lib.int_of raw)

pub record RetryPolicy : Type 0 where
  pub max_attempts : Option ℕ
  pub budget : Option ℕ
  pub max_delay_ticks : ℕ

-- `max_attempts is not None and attempts >= max_attempts`
abbrev pub cap_reached : Option ℕ → ℕ → Bool
cap_reached none attempts = false
cap_reached (some cap) attempts = leb cap attempts

-- The hint of the server, or else the computed backoff.
abbrev pub chosen_delay : RetryPolicy → ℕ → ℕ → Option ℕ → ℕ
chosen_delay policy attempts draw (some hint) = hint
chosen_delay policy attempts draw none = backoff_delay (attempts - 1) draw policy.max_delay_ticks

abbrev pub within_budget : Option ℕ → ℕ → ℕ → Option ℕ
within_budget none elapsed delay = some delay
within_budget (some budget) elapsed delay =
    if leb budget elapsed then none else some (min delay (budget - elapsed))

abbrev pub decide_delay : RetryPolicy → ℕ → ℕ → ℕ → Result (Option ℕ) → Result (Option ℕ)
decide_delay policy attempts elapsed draw (ok hint) =
    ok (within_budget policy.budget elapsed (chosen_delay policy attempts draw hint))
decide_delay policy attempts elapsed draw (raised e) = raised e
decide_delay policy attempts elapsed draw unfinished = unfinished

-- The draw is used only where there is no hint.
unfoldable pub next_delay :
    HeaderLib → RetryPolicy → ℕ → ℕ → ℕ → Option String → ℕ → Result (Option ℕ)
next_delay lib policy attempts elapsed now retry_after draw =
    if cap_reached policy.max_attempts attempts
    then ok none
    else decide_delay policy attempts elapsed draw (parse_retry_after lib now retry_after)
