-- ===== src/Publisher/Loop.antt =====
-- The retry loop of `publish`: what each round leaves alone, which answers it goes on after, and that
-- a cap on attempts ends it.
use multiedge_relay_python.Prelude.{
  ℕ, ◌≡◌, Option, none, String, arith, some, ◌++◌, ◌<◌, replicate, true, ◌∷◌, [], suc, ◌∙◌, ap,
  append_assoc, replicate-append, sym, append-nil, refl, ◌-◌, ◌≢◌, false≢true,
}
use multiedge_relay_python.Errors.{Cause, http, transport}
use multiedge_relay_python.World.{Reply, transport_error, response, Env, Wire}
use multiedge_relay_python.Process.{Machine, post}
use multiedge_relay_python.Publisher.{
  Config, back_off, judge, attempt_all, next_round, round, Ended, exhausted, one_attempt, Round,
  acked, rest_or_break,
}
use multiedge_relay_python.Exec.{Result, ok, lift, raised, ◌>>=◌, unfinished, mild}
use multiedge_relay_python.Models.{Signal}
use multiedge_relay_python.Exec.Loop.{Leads, loop, loop_rule}
use multiedge_relay_python.Retry.Bounds.{next_delay-Granted}

-- What the waiting between two attempts leaves alone.
pub record Keeps (m m' : Machine) : Type 0 where
  pub posts : m'.posts ≡ m.posts
  pub disk : m'.disk ≡ m.disk
  pub spill : m'.spill ≡ m.spill

module _ (env : Env) (wire : Wire) (config : Config) where
  back_off-Keeps :
      (started : ℕ) (cause : Cause) (header : Option String) (attempts : ℕ) (m : Machine)
      → Keeps m (back_off env wire config started cause header attempts m).1
  unfolding back_off
  back_off-Keeps started cause header attempts m = ground arith

  judge-Keeps :
      (started attempts : ℕ) (reply : Reply) (m : Machine)
      → Keeps m (judge env wire config started attempts reply m).1
  unfolding judge
  judge-Keeps started attempts (transport_error reason) m =
      back_off-Keeps started (transport reason) none attempts m
  judge-Keeps started attempts (response r) m =
      ground (arith, back_off-Keeps started (http r.status r.text) r.retry_after attempts m)

-- What has been posted and kept since `m`, after some attempts with one body.
pub record Sent (m : Machine) (prepared : Signal) (attempts : ℕ) (m' : Machine) : Type 0 where
  pub posts : m'.posts ≡ m.posts ++ replicate attempts prepared
  pub disk : m'.disk ≡ m.disk
  pub spill : m'.spill ≡ m.spill

-- A `break` reports the attempts that were made.
abbrev pub Counts : Result Ended → ℕ → Type 0
Counts (ok (exhausted cause n)) attempts = n ≡ attempts
Counts _ attempts = Unit

Sent-step :
    {m m₁ m₂ : Machine} (prepared : Signal) (attempts : ℕ)
    → Sent m prepared attempts m₁
    → m₂.posts ≡ m₁.posts ++ prepared ∷ []
    → m₂.disk ≡ m₁.disk
    → m₂.spill ≡ m₁.spill
    → Sent m prepared (suc attempts) m₂
Sent-step {m} prepared attempts h posted disk spill = record {
  posts =
      posted
      ∙ ap (λ xs. xs ++ prepared ∷ []) h.posts
      ∙ append_assoc m.posts (replicate attempts prepared) (prepared ∷ [])
      ∙ ap (λ xs. m.posts ++ xs) (replicate-append attempts prepared);
  disk = disk ∙ h.disk;
  spill = spill ∙ h.spill;
}

module _ (env : Env) (wire : Wire) (config : Config) where
  judge-Counts :
      (started attempts : ℕ) (reply : Reply) (m : Machine) {cause : Cause} {n : ℕ}
      → (judge env wire config started attempts reply m).0 ≡ ok (some (exhausted cause n))
      → n ≡ attempts
  unfolding judge
  judge-Counts started attempts (transport_error reason) m h = ground arith
  judge-Counts started attempts (response r) m h = ground arith

  next-Leads :
      (m₀ : Machine) (prepared : Signal) (attempts : ℕ) (out : Result (Option Ended) × Machine)
      → Sent m₀ prepared attempts out.1
      → ((cause : Cause) (n : ℕ) → out.0 ≡ ok (some (exhausted cause n)) → n ≡ attempts)
      → Leads
          (λ r. Sent m₀ prepared r.attempts r.machine)
          (λ e r. Sent m₀ prepared r.attempts r.machine × Counts e r.attempts)
          (next_round attempts out)
  unfolding next_round
  next-Leads m₀ prepared attempts (ok none, m) s counts = s
  next-Leads m₀ prepared attempts (ok (some (acked ack)), m) s counts = (s, tt)
  next-Leads m₀ prepared attempts (ok (some (exhausted cause n)), m) s counts =
      (s, counts cause n refl)
  next-Leads m₀ prepared attempts (raised e, m) s counts = (s, tt)
  next-Leads m₀ prepared attempts (unfinished, m) s counts = (s, tt)

  -- The machine that has just posted the body.
  abbrev posted : Signal → Machine → Machine
  posted prepared m = (post env prepared m).1

  round-Sent :
      (m₀ : Machine) (prepared : Signal) (started : ℕ) (r : Round)
      → Sent m₀ prepared r.attempts r.machine
      → Leads
          (λ r. Sent m₀ prepared r.attempts r.machine)
          (λ e r. Sent m₀ prepared r.attempts r.machine × Counts e r.attempts)
          (round env wire config prepared started r)
  unfolding round one_attempt
  round-Sent m₀ prepared started r h =
      let reply = env.reply r.machine.turn in
      let k =
        judge-Keeps env wire config started (suc r.attempts) reply (posted prepared r.machine) in
      next-Leads m₀ prepared (suc r.attempts)
        (judge env wire config started (suc r.attempts) reply (posted prepared r.machine))
        (Sent-step prepared r.attempts h k.posts k.disk k.spill)
        (λ cause n e. judge-Counts started (suc r.attempts) reply (posted prepared r.machine) e)

  -- However the loop ends, it has posted only the prepared body, as often as it counts.
  pub attempt_all-Sent :
      (fuel : ℕ) (m : Machine) (prepared : Signal) (started : ℕ)
      → (n : ℕ) × Sent m prepared n (attempt_all env wire config fuel prepared started m).1
        × Counts (attempt_all env wire config fuel prepared started m).0 n
  unfolding attempt_all
  attempt_all-Sent fuel m prepared started =
      let out =
        loop (round env wire config prepared started) fuel (record { attempts = 0; machine = m }) in
      let h =
        loop_rule (λ r. Sent m prepared r.attempts r.machine)
          (λ e r. Sent m prepared r.attempts r.machine × Counts e r.attempts)
          (round env wire config prepared started) (round-Sent m prepared started) (λ r s. (s, tt))
          fuel (record { attempts = 0; machine = m })
          (record { posts = sym (append-nil m.posts); disk = refl; spill = refl }) in
      (out.1.attempts, h.0, h.1)

  granted :
      (cause : Cause) (attempts : ℕ) (r : Result (Option ℕ)) (m : Machine)
      → ((lift r >>= rest_or_break env wire config cause attempts) m).0 ≡ ok none
      → (delay : ℕ) × (r ≡ ok (some delay))
  unfolding rest_or_break
  granted cause attempts (ok (some delay)) m h = (delay, refl)
  granted cause attempts (ok none) m h = cc
  granted cause attempts (raised e) m h = cc
  granted cause attempts unfinished m h = cc

  back_off-again :
      (started : ℕ) (cause : Cause) (header : Option String) (attempts : ℕ) (m : Machine) (cap : ℕ)
      → config.policy.max_attempts ≡ some cap
      → (back_off env wire config started cause header attempts m).0 ≡ ok none
      → attempts < cap
  unfolding back_off
  back_off-again started cause header attempts m cap e h =
      let (delay, eq) = granted cause attempts _ _ h in
      (next_delay-Granted wire.header config.policy attempts _ _ header _ eq).below_cap cap e

  -- Another attempt follows only where the policy grants a delay after this one.
  pub judge-again :
      (started attempts : ℕ) (reply : Reply) (m : Machine) (cap : ℕ)
      → config.policy.max_attempts ≡ some cap
      → (judge env wire config started attempts reply m).0 ≡ ok none
      → attempts < cap
  unfolding judge
  judge-again started attempts (transport_error reason) m cap e h =
      back_off-again started (transport reason) none attempts m cap e h
  judge-again started attempts (response r) m cap e h =
      ground (arith, back_off-again started (http r.status r.text) r.retry_after attempts m cap e)

module _ (env : Env) (wire : Wire) (config : Config) (cap : ℕ) where
  -- The attempts that the cap still allows.
  abbrev pub left : Round → ℕ
  left r = cap - r.attempts

  pub round-falls :
      (prepared : Signal) (started attempts : ℕ) (out : Result (Option Ended) × Machine)
      → (out.0 ≡ ok none → suc attempts < cap)
      → mild out.0 ≡ true
      → Leads
          (λ r. Unit {0} × (left r < cap - attempts))
          (λ e r. e ≢ unfinished)
          (next_round (suc attempts) out)
  unfolding next_round
  round-falls prepared started attempts (ok none, m) grows ends = (tt, omega (arith, grows refl))
  round-falls prepared started attempts (ok (some e), m) grows ends = λ p. cc
  round-falls prepared started attempts (raised e, m) grows ends = λ p. cc
  round-falls prepared started attempts (unfinished, m) grows ends = absurd (false≢true ends)
