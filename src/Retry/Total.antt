-- ===== src/Retry/Total.antt =====
-- The policy always answers: by a delay, by a stop or by an exception.
use multiedge_relay_python.Prelude.{ℕ, Option, String, arith, none, some, true, ◌≡◌}
use multiedge_relay_python.Exec.{Result, ok, raised, unfinished, mild}
use multiedge_relay_python.Retry.{
  HeaderLib, RetryPolicy, decide_delay, hint_of_text, next_delay, parse_retry_after,
}
use multiedge_relay_python.Prelude.Int.{negsuc, pos, ℤ}

hint_of_text-mild :
    (lib : HeaderLib) (now : ℕ) (raw : String) (n : Option ℤ)
    → mild (hint_of_text lib now raw n) ≡ true
unfolding hint_of_text
hint_of_text-mild lib now raw (some (pos n)) = ground arith
hint_of_text-mild lib now raw (some (negsuc n)) = ground arith
hint_of_text-mild lib now raw none = ground arith

parse_retry_after-mild :
    (lib : HeaderLib) (now : ℕ) (value : Option String)
    → mild (parse_retry_after lib now value) ≡ true
unfolding parse_retry_after
parse_retry_after-mild lib now none = ground arith
parse_retry_after-mild lib now (some value) =
    ground (arith, hint_of_text-mild lib now (lib.strip value) (lib.int_of (lib.strip value)))

decided-mild :
    (policy : RetryPolicy) (attempts elapsed draw : ℕ) (parsed : Result (Option ℕ))
    → mild parsed ≡ true
    → mild (decide_delay policy attempts elapsed draw parsed) ≡ true
decided-mild policy attempts elapsed draw (ok hint) p = ground arith
decided-mild policy attempts elapsed draw (raised e) p = ground arith
decided-mild policy attempts elapsed draw unfinished p = p

pub next_delay-mild :
    (lib : HeaderLib) (policy : RetryPolicy) (attempts elapsed now : ℕ) (header : Option String)
    (draw : ℕ)
    → mild (next_delay lib policy attempts elapsed now header draw) ≡ true
unfolding next_delay
next_delay-mild lib policy attempts elapsed now header draw = ground (
  arith,
  decided-mild policy attempts elapsed draw (parse_retry_after lib now header)
      (parse_retry_after-mild lib now header),
)
