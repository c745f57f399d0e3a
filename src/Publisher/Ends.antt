-- ===== src/Publisher/Ends.antt =====
-- With a cap on attempts the retry loop of `publish` ends by itself.
use multiedge_relay_python.Prelude.{
  ℕ, Option, String, arith, none, some, suc, ◌<◌, ◌≡◌, ◌≢◌, true, inl, inr, refl, ◌⊎◌,
}
use multiedge_relay_python.Errors.{Cause, http, transport}
use multiedge_relay_python.World.{Env, Reply, Response, Wire, response, transport_error}
use multiedge_relay_python.Publisher.{
  Config, ack_from_response, attempt_all, back_off, check_conflict, conflict, int_of, judge,
  one_attempt, raise_for_terminal_status, rest_or_break, round, text_of, validated, Ended,
  next_round,
}
use multiedge_relay_python.Exec.{Result, lift, ok, raised, unfinished, ◌>>=◌, mild}
use multiedge_relay_python.Publisher.Loop.{judge-again, left, round-falls}
use multiedge_relay_python.Prelude.Json.{Json, get_json, str}
use multiedge_relay_python.Retry.Total.{next_delay-mild}
use multiedge_relay_python.Process.{Machine, post}
use multiedge_relay_python.Models.{Signal}
use multiedge_relay_python.Prelude.Int.{ℤ}
use multiedge_relay_python.Exec.Loop.{loop_total, Leads, loop_rule}

validated-mild :
    (wire : Wire) (status : ℕ) (json : Option Json) → mild (validated wire status json) ≡ true
unfolding validated
validated-mild wire status none = ground arith
validated-mild wire status (some body) = ground arith

ack_from_response-mild : (wire : Wire) (r : Response) → mild (ack_from_response wire r) ≡ true
unfolding ack_from_response
ack_from_response-mild wire r = validated-mild wire r.status r.json

int_of-mild : (wire : Wire) (o : Option Json) → mild (int_of wire o) ≡ true
unfolding int_of
int_of-mild wire (some (str s)) = ground arith
int_of-mild wire _ = ground arith

conflict-mild : (id : String) (r : Result ℤ) → mild r ≡ true → mild (conflict id r) ≡ true
unfolding conflict
conflict-mild id (ok n) p = ground arith
conflict-mild id (raised e) p = ground arith
conflict-mild id unfinished p = p

check_conflict-mild : (wire : Wire) (o : Option Json) → mild (check_conflict wire o) ≡ true
unfolding check_conflict
check_conflict-mild wire none = ground arith
check_conflict-mild wire (some body) = ground (
  arith,
  conflict-mild (text_of wire (get_json "signal_id" body)) (int_of wire (get_json "sequence" body))
      (int_of-mild wire (get_json "sequence" body)),
)

terminal-mild : (wire : Wire) (r : Response) → mild (raise_for_terminal_status wire r) ≡ true
unfolding raise_for_terminal_status
terminal-mild wire r = ground (arith, check_conflict-mild wire r.json)

module _ (env : Env) (wire : Wire) (config : Config) where
  rest-mild :
      (cause : Cause) (attempts : ℕ) (r : Result (Option ℕ)) (m : Machine)
      → mild r ≡ true
      → mild (((lift r >>= rest_or_break env wire config cause attempts) m).0) ≡ true
  unfolding rest_or_break
  rest-mild cause attempts (ok (some delay)) m p = ground arith
  rest-mild cause attempts (ok none) m p = ground arith
  rest-mild cause attempts (raised e) m p = ground arith
  rest-mild cause attempts unfinished m p = p

  back_off-mild :
      (started : ℕ) (cause : Cause) (header : Option String) (attempts : ℕ) (m : Machine)
      → mild ((back_off env wire config started cause header attempts m).0) ≡ true
  unfolding back_off
  back_off-mild started cause header attempts m =
      rest-mild cause attempts _ _ (next_delay-mild wire.header config.policy attempts _ _ header _)

  judge-mild :
      (started attempts : ℕ) (reply : Reply) (m : Machine)
      → mild ((judge env wire config started attempts reply m).0) ≡ true
  unfolding judge
  judge-mild started attempts (transport_error reason) m =
      back_off-mild started (transport reason) none attempts m
  judge-mild started attempts (response r) m = ground (
    arith,
    ack_from_response-mild wire r,
    terminal-mild wire r,
    back_off-mild started (http r.status r.text) r.retry_after attempts m,
  )

  -- With a cap below the fuel, the loop of `publish` ends by a return, a break or a raise of its own.
  pub attempt_all-finishes :
      (cap fuel : ℕ) (prepared : Signal) (started : ℕ) (m : Machine)
      → config.policy.max_attempts ≡ some cap
      → cap < fuel
      → (attempt_all env wire config fuel prepared started m).0 ≢ unfinished
  unfolding attempt_all round one_attempt
  attempt_all-finishes cap fuel prepared started m e enough =
      loop_total (left env wire config cap) (λ r. Unit {0}) (λ r s. r ≢ unfinished)
        (round env wire config prepared started)
        (λ r _.
          round-falls env wire config cap prepared started r.attempts
            (one_attempt env wire config prepared started (suc r.attempts) r.machine)
            (judge-again env wire config started (suc r.attempts) (env.reply r.machine.turn)
              (post env prepared r.machine).1 cap e)
            (judge-mild started (suc r.attempts) (env.reply r.machine.turn)
              (post env prepared r.machine).1))
        fuel (record { attempts = 0; machine = m }) (omega arith) tt

  -- No answer of the relay makes the loop raise a `PublishFailed` of its own.
  abbrev Unspilled : Result Ended → Type 0
  Unspilled r = (r ≡ unfinished) ⊎ (mild r ≡ true)

  next-Unspilled :
      (attempts : ℕ) (out : Result (Option Ended) × Machine)
      → mild out.0 ≡ true
      → Leads (λ r. Unit {0}) (λ e r. Unspilled e) (next_round attempts out)
  unfolding next_round
  next-Unspilled attempts (ok none, m) h = tt
  next-Unspilled attempts (ok (some e), m) h = inr refl
  next-Unspilled attempts (raised e, m) h = inr h
  next-Unspilled attempts (unfinished, m) h = inl refl

  pub attempt_all-Unspilled :
      (fuel : ℕ) (prepared : Signal) (started : ℕ) (m : Machine)
      → Unspilled (attempt_all env wire config fuel prepared started m).0
  unfolding attempt_all round one_attempt
  attempt_all-Unspilled fuel prepared started m =
      loop_rule (λ r. Unit {0}) (λ e r. Unspilled e) (round env wire config prepared started)
        (λ r _.
          next-Unspilled (suc r.attempts)
            (one_attempt env wire config prepared started (suc r.attempts) r.machine)
            (judge-mild started (suc r.attempts) (env.reply r.machine.turn)
              (post env prepared r.machine).1))
        (λ r _. inl refl) fuel (record { attempts = 0; machine = m }) tt
