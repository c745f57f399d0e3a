-- ===== src/Subscriber/WebSocket/Reconnect.antt =====
-- src/multiedge_relay/subscriber.py: the `except` clauses of `_run_webpubsub`, which make a new
-- connection after any error but a fatal one and a rejected negotiation.
use multiedge_relay_python.Prelude.{
  Bool, List, [], false, if◌then◌else◌, min, suc, true, ℕ, ◌*◌, ◌||◌, ◌∷◌, ◌≡◌, ◌≤◌,
}
use multiedge_relay_python.Errors.{Error, is_fatal, validation_rejected}
use multiedge_relay_python.Retry.{backoff_delay, max_delay}
use multiedge_relay_python.Subscriber.Delivery.Whole.{told}

unfoldable pub is_validation_rejected : Error → Bool
is_validation_rejected (validation_rejected _) = true
is_validation_rejected _ = false

-- What a failed connection leads to: the error's leaving the subscriber, or the reports, the delay
-- in ticks and the next round's number.
pub data AfterFailure : Type 0 where
  leaves : Error → AfterFailure
  reconnects : List Error → ℕ → ℕ → AfterFailure

-- `backoff_delay(min(reconnect_round, 6), self._random_fn)`, with the default ceiling
reconnect_delay : ℕ → ℕ → ℕ
unfolding backoff_delay
reconnect_delay round draw = backoff_delay (min round 6) draw max_delay

unfoldable pub after_failure : Bool → ℕ → ℕ → Error → AfterFailure
unfolding reconnect_delay
after_failure on_error draw round e =
    if is_fatal e
    then leaves e
    else if is_validation_rejected e
    then leaves e
    else reconnects (if on_error then e ∷ [] else []) (reconnect_delay (suc round) draw) (suc round)

-- An error that no new connection can mend.
abbrev pub Final : Error → Type 0
Final e = (is_fatal e || is_validation_rejected e) ≡ true

abbrev pub Bounded : Bool → ℕ → ℕ → Error → AfterFailure → Type 0
Bounded on_error draw round e (leaves x) = (x ≡ e) × Final e
Bounded on_error draw round e (reconnects told delay next) =
    (¬ Final e)
    × (told ≡ (if on_error then e ∷ [] else []))
    × (delay ≤ max_delay)
    × (delay ≤ draw * 64)
    × (next ≡ suc round)
