-- ===== src/Subscriber/Fetches.antt =====
-- A page request calls nothing back, commits nothing and leaves the position where it is.
use multiedge_relay_python.Prelude.{
  ℕ, Bool-cases, List, Option, String, [], inl, inr, min, none, some, suc, ◌+◌, ◌-◌, ◌/◌, ◌==◌,
  ◌||◌, ◌∷◌,
}
use multiedge_relay_python.Errors.{Cause, http, multi_edge, transport, unknown}
use multiedge_relay_python.Exec.{Result, lift, ok, pure, raised, unfinished, ◌>>=◌}
use multiedge_relay_python.Exec.Loop.{Leads, loop, loop_rule}
use multiedge_relay_python.Subscriber.Idle.{
  Idle, Idle-add, Idle-bind, Idle-report, Idle-trans, Idle-turn,
}
use multiedge_relay_python.World.{Reply, Wire, response, transport_error}
use multiedge_relay_python.Subscriber.{
  FetchRound, Fetched, Outside, Settings, Subscriber, after_fetch, broke, fetch_again,
  fetch_outcome, fetch_page, fetch_round, judge_page, page, page_of, report, sleep_interruptible,
  sleep_slice, stop_requested, wait_or_break, waited,
}
use multiedge_relay_python.Retry.{is_retryable_status, next_delay, second}
use multiedge_relay_python.Models.{ReceivedSignal}

module _ {C : Type 0} (out : Outside) (wire : Wire) (set : Settings) where
  slice-Idle :
      (s₀ : Subscriber C) (delay : ℕ) (x : Subscriber C × ℕ)
      → Idle s₀ x.0
      → Leads (λ y. Idle s₀ y.0) (λ r y. Idle s₀ y.0) (sleep_slice out wire set delay x)
  unfolding sleep_slice
  slice-Idle s₀ delay (s, remaining) h = elim (Bool-cases (remaining == 0 || out.stopped s.turn)) [
    | inl ended ↦ rw ended (Idle-trans h (Idle-turn s (suc s.turn)))
    | inr more ↦
        rw more
          (Idle-trans h (Idle-add s (suc s.turn) (waited (min remaining second) ∷ []) (tt, tt)))
  ]

  sleep-Idle : (delay : ℕ) (s : Subscriber C) → Idle s (sleep_interruptible out wire set delay s).1
  unfolding sleep_interruptible
  sleep-Idle delay s =
      loop_rule (λ y. Idle s y.0) (λ r y. Idle s y.0) (sleep_slice out wire set delay)
        (λ x h. slice-Idle s delay x h) (λ x h. h) (delay / second + 2) (s, delay)
        (Idle-turn s s.turn)

  wait-Idle :
      (cause : Cause) (attempts : ℕ) (o : Option ℕ) (s : Subscriber C)
      → Idle s (wait_or_break out wire set cause attempts o s).1
  unfolding wait_or_break
  wait-Idle cause attempts none s = Idle-report set.on_error (multi_edge cause) s
  wait-Idle cause attempts (some delay) s =
      Idle-trans (Idle-report set.on_error (multi_edge cause) s) (
        Idle-bind {B = Option Fetched} (λ _. pure none) (report set.on_error (multi_edge cause) s).1
          (sleep_interruptible out wire set delay (report set.on_error (multi_edge cause) s).1).1
          (report set.on_error (multi_edge cause) s).1
          (sleep_interruptible out wire set delay (report set.on_error (multi_edge cause) s).1).0
          (sleep-Idle delay (report set.on_error (multi_edge cause) s).1)
          (λ _ s₂. Idle-turn s₂ s₂.turn))

  again-Idle :
      (started : ℕ) (cause : Cause) (header : Option String) (attempts : ℕ) (s : Subscriber C)
      → Idle s (fetch_again out wire set started cause header attempts s).1
  unfolding fetch_again
  again-Idle started cause header attempts s =
      Idle-bind (wait_or_break out wire set cause attempts) s
        (record s { turn = suc (suc (suc s.turn)) }) s
        (next_delay wire.header set.policy attempts (out.monotonic s.turn - started)
          (out.wall (suc s.turn)) header (out.draw (suc (suc s.turn))))
        (Idle-turn s (suc (suc (suc s.turn)))) (λ o s₁. wait-Idle cause attempts o s₁)

  read_page-Idle :
      (r : Result (List ReceivedSignal)) (s : Subscriber C)
      → Idle s ((lift r >>= λ rows. pure (some (page rows))) s).1
  read_page-Idle r s =
      Idle-bind (λ rows. pure (some (page rows))) s s s r (Idle-turn s s.turn)
        (λ rows s₂. Idle-turn s₂ s₂.turn)

  judge_page-Idle :
      (started attempts : ℕ) (reply : Reply) (s : Subscriber C)
      → Idle s (judge_page out wire set started attempts reply s).1
  unfolding judge_page
  judge_page-Idle started attempts (transport_error reason) s =
      again-Idle started (transport reason) none attempts s
  judge_page-Idle started attempts (response r) s =
      elim (Bool-cases (r.status == 401 || r.status == 403)) [
        | inl denied ↦ rw denied (Idle-turn s s.turn)
        | inr let_in ↦ rw let_in (elim (Bool-cases (r.status == 200)) [
          | inl fine ↦ rw fine (read_page-Idle (page_of wire r.json) s)
          | inr bad ↦ rw bad (elim (Bool-cases (is_retryable_status r.status)) [
            | inl retried ↦
                rw retried (again-Idle started (http r.status r.text) r.retry_after attempts s)
            | inr terminal ↦ rw terminal (Idle-turn s s.turn)
          ])
        ])
      ]

  outcome-Idle :
      (s₀ : Subscriber C) (r : FetchRound C) (o : Result (Option Fetched) × Subscriber C)
      → Idle s₀ o.1
      → Leads (λ x. Idle s₀ x.sub) (λ a x. Idle s₀ x.sub) (fetch_outcome out wire set r o)
  unfolding fetch_outcome
  outcome-Idle s₀ r (ok none, s) h = h
  outcome-Idle s₀ r (ok (some f), s) h = h
  outcome-Idle s₀ r (raised e, s) h = h
  outcome-Idle s₀ r (unfinished, s) h = h

  round-Idle :
      (s₀ : Subscriber C) (since started : ℕ) (r : FetchRound C)
      → Idle s₀ r.sub
      → Leads (λ x. Idle s₀ x.sub) (λ a x. Idle s₀ x.sub) (fetch_round out wire set since started r)
  unfolding fetch_round
  round-Idle s₀ since started r h = elim (Bool-cases (out.stopped r.sub.turn)) [
    | inl halted ↦ rw halted (Idle-trans h (Idle-turn r.sub (suc r.sub.turn)))
    | inr goes_on ↦ rw goes_on (
        let s = record r.sub { turn = suc (suc r.sub.turn) } in
        let reply = out.page (suc r.sub.turn) since in
        outcome-Idle s₀ r (judge_page out wire set started (suc r.attempts) reply s) (
          Idle-trans h (
            Idle-trans (Idle-turn r.sub (suc (suc r.sub.turn)))
              (judge_page-Idle started (suc r.attempts) reply s))))
  ]

  after-Idle : (f : Fetched) (s : Subscriber C) → Idle s (after_fetch out wire set f s).1
  unfolding after_fetch stop_requested
  after-Idle (page rows) s = Idle-turn s s.turn
  after-Idle (broke cause attempts) s = elim (Bool-cases (out.stopped s.turn)) [
    | inl halted ↦ rw halted (Idle-turn s (suc s.turn))
    | inr goes_on ↦ rw goes_on (Idle-turn s (suc s.turn))
  ]

  pub fetch_page-Idle :
      (fuel since : ℕ) (s : Subscriber C) → Idle s (fetch_page out wire set fuel since s).1
  unfolding fetch_page
  fetch_page-Idle fuel since s =
      let s₁ = record s { turn = suc s.turn } in
      let looped =
        loop (fetch_round out wire set since (out.monotonic s.turn)) fuel
          (record { attempts = 0; last_error = unknown; sub = s₁ }) in
      Idle-bind (after_fetch out wire set) s looped.1.sub s₁ looped.0
        (loop_rule (λ x. Idle s x.sub) (λ a x. Idle s x.sub)
          (fetch_round out wire set since (out.monotonic s.turn))
          (λ r h. round-Idle s since (out.monotonic s.turn) r h) (λ r h. h) fuel
          (record { attempts = 0; last_error = unknown; sub = s₁ }) (Idle-turn s (suc s.turn)))
        (λ f s₂. after-Idle f s₂)
