-- ===== src/Retry/Bounds.antt =====
-- What bounds a retry loop: the cap on attempts, the wall-clock budget and the ceilings on one delay.
use native.Mathlib.Nat.{pow-le-pow_right}
use multiedge_relay_python.Prelude.{
  ℕ, ◌+◌, ◌*◌, ◌^◌, ◌≤◌, ◌<◌, min, ◌≡◌, ◌⊎◌, inl, inr, String, Option, none, some, true, arith,
}
use multiedge_relay_python.Exec.{Result, ok, raised, unfinished}
use multiedge_relay_python.Retry.{
  HeaderLib, RetryPolicy, max_retry_after, backoff_delay, next_delay, parse_retry_after,
  cap_reached, decide_delay,
}
use multiedge_relay_python.Retry.Hints.{parse_retry_after-le}

-- What a granted delay is bound by.
pub record Granted (policy : RetryPolicy) (attempts elapsed delay : ℕ) : Type 0 where
  pub below_cap : (cap : ℕ) → policy.max_attempts ≡ some cap → attempts < cap
  pub in_budget : (budget : ℕ) → policy.budget ≡ some budget → elapsed + delay ≤ budget
  pub has_ceiling : (delay ≤ policy.max_delay_ticks) ⊎ (delay ≤ max_retry_after)

decided-has_ceiling :
    (policy : RetryPolicy) (attempts elapsed draw : ℕ) (parsed : Result (Option ℕ)) {delay : ℕ}
    → ((hint : ℕ) → parsed ≡ ok (some hint) → hint ≤ max_retry_after)
    → decide_delay policy attempts elapsed draw parsed ≡ ok (some delay)
    → (delay ≤ policy.max_delay_ticks) ⊎ (delay ≤ max_retry_after)
unfolding backoff_delay
decided-has_ceiling policy attempts elapsed draw (ok (some hint)) small h =
    inr (ground (arith, small hint))
decided-has_ceiling policy attempts elapsed draw (ok none) small h = inl (ground arith)
decided-has_ceiling policy attempts elapsed draw (raised e) small h = cc
decided-has_ceiling policy attempts elapsed draw unfinished small h = cc

-- A granted delay: the cap on attempts is not reached, the delay ends within the budget, and it is
-- at most the policy's ceiling or the 300 seconds of a hint.
pub next_delay-Granted :
    (lib : HeaderLib) (policy : RetryPolicy) (attempts elapsed now : ℕ) (header : Option String)
    (draw : ℕ) {delay : ℕ}
    → next_delay lib policy attempts elapsed now header draw ≡ ok (some delay)
    → Granted policy attempts elapsed delay
unfolding next_delay backoff_delay
next_delay-Granted lib policy attempts elapsed now header draw h = record {
  below_cap = λ cap e. ground arith;
  in_budget = λ budget e. ground arith;
  has_ceiling =
      decided-has_ceiling policy attempts elapsed draw (parse_retry_after lib now header)
        (λ hint e. parse_retry_after-le lib now header e) (ground arith);
}

-- At the cap the loop stops, whatever the header holds.
pub next_delay_at_cap :
    (lib : HeaderLib) (policy : RetryPolicy) (attempts elapsed now : ℕ) (header : Option String)
    (draw : ℕ)
    → cap_reached policy.max_attempts attempts ≡ true
    → next_delay lib policy attempts elapsed now header draw ≡ ok none
unfolding next_delay
next_delay_at_cap lib policy attempts elapsed now header draw h = rw h

pub scaled_mono : (draw i j : ℕ) → i ≤ j → draw * 2 ^ i ≤ draw * 2 ^ j
scaled_mono draw i j h = grind (arith, pow-le-pow_right {n = 2} (omega arith) h)

-- A later retry never waits less, with the same draw and ceiling.
pub backoff_delay_mono :
    (i j draw cap : ℕ) → i ≤ j → backoff_delay i draw cap ≤ backoff_delay j draw cap
unfolding backoff_delay
backoff_delay_mono i j draw cap h =
    omega (arith, scaled_mono draw (min i 32) (min j 32) (omega arith))

-- The exponent clamp is exact where the draw reaches the ceiling at exponent 32, and only there.
pub backoff_delay_clamped :
    (attempt draw cap : ℕ)
    → 32 ≤ attempt
    → cap ≤ draw * 2 ^ 32
    → backoff_delay attempt draw cap ≡ cap
unfolding backoff_delay
backoff_delay_clamped attempt draw cap late reached =
    let e : min attempt 32 ≡ 32 = omega arith in rw e (omega arith)

-- With a draw so small that 2^32 does not reach the ceiling, every retry after the 33rd waits
-- strictly less than the documented `min(random() * 0.5 * 2 ** attempt, max_delay)`.
pub backoff_delay-lt-unclamped :
    (attempt draw cap : ℕ)
    → 33 ≤ attempt
    → 0 < draw
    → draw * 2 ^ 32 < cap
    → backoff_delay attempt draw cap < min (draw * 2 ^ attempt) cap
unfolding backoff_delay
backoff_delay-lt-unclamped attempt draw cap late some_draw small =
    let e : min attempt 32 ≡ 32 = omega arith in
    rw e (omega (arith, scaled_mono draw 33 attempt late))
