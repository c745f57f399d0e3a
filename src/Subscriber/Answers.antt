-- ===== src/Subscriber/Answers.antt =====
-- A page that a request returns is what the relay answered to that very request, or a stop was asked.
use multiedge_relay_python.Prelude.{
  ℕ, Bool-cases, List, Option, String, arith, inl, inr, none, refl, some, subst, suc, true, ◌-◌,
  ◌==◌, ◌||◌, ◌≡◌, ◌⊎◌, false, ap, ◌∙◌,
}
use multiedge_relay_python.Errors.{Cause, http, multi_edge, transport, unknown}
use multiedge_relay_python.Exec.{Result, lift, ok, pure, raised, unfinished, ◌>>=◌}
use multiedge_relay_python.Exec.Loop.{Leads, loop, loop_rule, stop, Next, advance, loop-suc}
use multiedge_relay_python.World.{Reply, Response, Wire, response, transport_error}
use multiedge_relay_python.Subscriber.{
  FetchRound, Fetched, Outside, Settings, after_fetch, broke, fetch_again, fetch_outcome,
  fetch_page, fetch_round, judge_page, page, page_of, report, sleep_interruptible, stop_requested,
  wait_or_break, Subscriber,
}
use multiedge_relay_python.Retry.{is_retryable_status, next_delay}
use multiedge_relay_python.Models.{ReceivedSignal}

-- `rows` is the page that the relay answered to a request after `since`.
pub record Answer (out : Outside) (wire : Wire) (since : ℕ) (rows : List ReceivedSignal)
    : Type 0 where
  pub turn : ℕ
  pub reply : Response
  pub answered : out.page turn since ≡ response reply
  pub status : reply.status ≡ 200
  pub parsed : page_of wire reply.json ≡ ok rows

-- What an end of the loop says of a page.
abbrev Paged : Outside → Wire → ℕ → Fetched → Type 0
Paged out wire since (page rows) = Answer out wire since rows
Paged out wire since (broke cause n) = Unit

abbrev PagedOption : Outside → Wire → ℕ → Result (Option Fetched) → Type 0
PagedOption out wire since (ok (some f)) = Paged out wire since f
PagedOption out wire since _ = Unit

abbrev PagedResult : Outside → Wire → ℕ → Result Fetched → Type 0
PagedResult out wire since (ok f) = Paged out wire since f
PagedResult out wire since _ = Unit

-- The page is the relay's, or the stop event was set.
abbrev pub Honest : Outside → Wire → ℕ → Result (List ReceivedSignal) → Type 0
Honest out wire since r =
    (rows : List ReceivedSignal)
    → r ≡ ok rows
    → Answer out wire since rows ⊎ ((turn : ℕ) × (out.stopped turn ≡ true))

module _ {C : Type 0} (out : Outside) (wire : Wire) (set : Settings) where
  slept-Paged :
      (since : ℕ) (r : Result (Unit {0})) (t u : Subscriber C)
      → PagedOption out wire since (((λ (v : Subscriber C). (r, t)) >>= λ _. pure none) u).0
  slept-Paged since (ok _) t u = tt
  slept-Paged since (raised e) t u = tt
  slept-Paged since unfinished t u = tt

  delayed-Paged :
      (since : ℕ) (cause : Cause) (attempts : ℕ) (r : Result (Option ℕ)) (t : Subscriber C)
      → PagedOption out wire since ((lift r >>= wait_or_break out wire set cause attempts) t).0
  unfolding wait_or_break
  delayed-Paged since cause attempts (ok none) t = tt
  delayed-Paged since cause attempts (ok (some delay)) t =
      let u = (report set.on_error (multi_edge cause) t).1 in
      slept-Paged since (sleep_interruptible out wire set delay u).0
        (sleep_interruptible out wire set delay u).1 u
  delayed-Paged since cause attempts (raised e) t = tt
  delayed-Paged since cause attempts unfinished t = tt

  again-Paged :
      (since started : ℕ) (cause : Cause) (header : Option String) (attempts : ℕ) (s : Subscriber C)
      → PagedOption out wire since (fetch_again out wire set started cause header attempts s).0
  unfolding fetch_again
  again-Paged since started cause header attempts s =
      delayed-Paged since cause attempts
        (next_delay wire.header set.policy attempts (out.monotonic s.turn - started)
          (out.wall (suc s.turn)) header (out.draw (suc (suc s.turn))))
        (record s { turn = suc (suc (suc s.turn)) })

  read_page-Paged :
      (since turn : ℕ) (reply : Response) (r : Result (List ReceivedSignal)) (s : Subscriber C)
      → out.page turn since ≡ response reply
      → reply.status ≡ 200
      → page_of wire reply.json ≡ r
      → PagedOption out wire since ((lift r >>= λ rows. pure (some (page rows))) s).0
  read_page-Paged since turn reply (ok rows) s h e p = record {
    turn = turn;
    reply = reply;
    answered = h;
    status = e;
    parsed = p;
  }
  read_page-Paged since turn reply (raised e) s h e' p = tt
  read_page-Paged since turn reply unfinished s h e' p = tt

  judge_page-Paged :
      (since turn started attempts : ℕ) (reply : Reply) (s : Subscriber C)
      → out.page turn since ≡ reply
      → PagedOption out wire since (judge_page out wire set started attempts reply s).0
  unfolding judge_page
  judge_page-Paged since turn started attempts (transport_error reason) s h =
      again-Paged since started (transport reason) none attempts s
  judge_page-Paged since turn started attempts (response r) s h =
      elim (Bool-cases (r.status == 401 || r.status == 403)) [
        | inl denied ↦ rw denied tt
        | inr let_in ↦ rw let_in (elim (Bool-cases (r.status == 200)) [
          | inl fine ↦
              rw fine (read_page-Paged since turn r (page_of wire r.json) s h (ground arith) refl)
          | inr bad ↦ rw bad (elim (Bool-cases (is_retryable_status r.status)) [
            | inl retried ↦
                rw retried
                  (again-Paged since started (http r.status r.text) r.retry_after attempts s)
            | inr terminal ↦ rw terminal tt
          ])
        ])
      ]

  outcome-Paged :
      (since : ℕ) (r : FetchRound C) (o : Result (Option Fetched) × Subscriber C)
      → PagedOption out wire since o.0
      → Leads (λ x. Unit {0}) (λ a x. PagedResult out wire since a) (fetch_outcome out wire set r o)
  unfolding fetch_outcome
  outcome-Paged since r (ok none, s) h = tt
  outcome-Paged since r (ok (some f), s) h = h
  outcome-Paged since r (raised e, s) h = tt
  outcome-Paged since r (unfinished, s) h = tt

  round-Paged :
      (since started : ℕ) (r : FetchRound C)
      → Leads
          (λ x. Unit {0})
          (λ a x. PagedResult out wire since a)
          (fetch_round out wire set since started r)
  unfolding fetch_round
  round-Paged since started r = elim (Bool-cases (out.stopped r.sub.turn)) [
    | inl halted ↦ rw halted tt
    | inr goes_on ↦ rw goes_on (
        let reply = out.page (suc r.sub.turn) since in
        let s = record r.sub { turn = suc (suc r.sub.turn) } in
        outcome-Paged since r (judge_page out wire set started (suc r.attempts) reply s)
          (judge_page-Paged since (suc r.sub.turn) started (suc r.attempts) reply s refl))
  ]

  after-Honest :
      (since : ℕ) (r : Result Fetched) (t u : Subscriber C)
      → PagedResult out wire since r
      → Honest out wire since (((λ (v : Subscriber C). (r, t)) >>= after_fetch out wire set) u).0
  unfolding after_fetch stop_requested
  after-Honest since (ok (page rows)) t u h =
      λ rows' e. inl (subst (λ x. Answer out wire since x) (cc e) h)
  after-Honest since (ok (broke cause n)) t u h = elim (Bool-cases (out.stopped t.turn)) [
    | inl halted ↦ λ rows e. inr (t.turn, halted)
    | inr goes_on ↦ rw goes_on (λ rows e. cc)
  ]
  after-Honest since (raised e) t u h = λ rows e'. cc
  after-Honest since unfinished t u h = λ rows e'. cc

  pub fetch_page-Honest :
      (fuel since : ℕ) (s : Subscriber C)
      → Honest out wire since (fetch_page out wire set fuel since s).0
  unfolding fetch_page
  fetch_page-Honest fuel since s =
      let s₁ = record s { turn = suc s.turn } in
      let looped =
        loop (fetch_round out wire set since (out.monotonic s.turn)) fuel
          (record { attempts = 0; last_error = unknown; sub = s₁ }) in
      after-Honest since looped.0 looped.1.sub s₁ (
        loop_rule (λ x. Unit {0}) (λ a x. PagedResult out wire since a)
          (fetch_round out wire set since (out.monotonic s.turn))
          (λ r _. round-Paged since (out.monotonic s.turn) r) (λ r _. tt) fuel
          (record { attempts = 0; last_error = unknown; sub = s₁ }) tt)

  -- The other way round: a request that the relay answers with a page returns it.
  fetch_round-page :
      (since started : ℕ) (r : FetchRound C) (reply : Response) (rows : List ReceivedSignal)
      → out.stopped r.sub.turn ≡ false
      → out.page (suc r.sub.turn) since ≡ response reply
      → reply.status ≡ 200
      → page_of wire reply.json ≡ ok rows
      → fetch_round out wire set since started r
        ≡ stop (ok (page rows)) (record r {
          attempts = suc r.attempts;
          sub = record r.sub { turn = suc (suc r.sub.turn) };
        })
  unfolding fetch_round judge_page fetch_outcome
  fetch_round-page since started r reply rows free answered fine parsed =
      rw (free, answered, fine, parsed) refl

  pub fetch_page-page :
      (fuel since : ℕ) (reply : Response) (rows : List ReceivedSignal) (s : Subscriber C)
      → out.stopped (suc s.turn) ≡ false
      → out.page (suc (suc s.turn)) since ≡ response reply
      → reply.status ≡ 200
      → page_of wire reply.json ≡ ok rows
      → (fetch_page out wire set (suc fuel) since s).0 ≡ ok rows
  unfolding fetch_page loop after_fetch
  fetch_page-page fuel since reply rows s free answered fine parsed =
      let step : FetchRound C → Next (FetchRound C) Fetched =
        fetch_round out wire set since (out.monotonic s.turn) in
      let s₁ = record s { turn = suc s.turn } in
      let r : FetchRound C = record { attempts = 0; last_error = unknown; sub = s₁ } in
      let looped =
        loop-suc step fuel r
        ∙ ap (advance (loop step fuel)) (
            fetch_round-page since (out.monotonic s.turn) r reply rows free answered fine parsed) in
      ap
        (λ (o : Result Fetched × FetchRound C).
          (((λ (u : Subscriber C). (o.0, o.1.sub)) >>= after_fetch out wire set) s₁).0)
        looped
