-- ===== src/Publisher/Bodies.antt =====
-- Every request of one `publish` carries the same body, with an idempotency key, and the call ends
-- where the attempts are capped.
use multiedge_relay_python.Prelude.{
  ℕ, Option, String, ap, append-nil, arith, false, false≢true, inl, inr, none, refl, replicate,
  some, suc, sym, true, ◌++◌, ◌<◌, ◌∙◌, ◌≡◌, ◌≢◌, ◌⊎◌,
}
use multiedge_relay_python.Dlq.Append.{Appended, append-Appended}
use multiedge_relay_python.Publisher.{
  Config, Ended, Input, acked, attempt_all, exhausted, finish, prepare_signal, publish, raw,
  spill_to, typed,
}
use multiedge_relay_python.Exec.{Result, lift, mild, ok, pure, raise, raised, unfinished, ◌>>=◌}
use multiedge_relay_python.Process.{Machine, fresh_ulid, monotonic_now}
use multiedge_relay_python.Dlq.{append, write_entry}
use multiedge_relay_python.Errors.{Cause, Error, FilePath, is_publish_failed, publish_failed}
use multiedge_relay_python.Publisher.Prepare.{IsQuiet, prepare_signal-IsQuiet}
use multiedge_relay_python.Publisher.Loop.{Counts, attempt_all-Sent}
use multiedge_relay_python.Prelude.Json.{null}
use multiedge_relay_python.Models.{Signal, SignalAck}
use multiedge_relay_python.World.{Env, Wire}
use multiedge_relay_python.Publisher.Ends.{attempt_all-Unspilled}

-- A `PublishFailed` names the body that was posted, and counts its posts.
abbrev pub Reports : Signal → ℕ → Result SignalAck → Type 0
Reports prepared attempts (raised (publish_failed signal n path)) =
    (signal ≡ prepared) × (n ≡ attempts)
Reports prepared attempts _ = Unit

pub record OneBody (config : Config) (m m' : Machine) (r : Result SignalAck) : Type 0 where
  pub prepared : Signal
  pub attempts : ℕ
  pub posts : m'.posts ≡ m.posts ++ replicate attempts prepared
  pub reports : Reports prepared attempts r
  pub named : config.sealer ≡ none → 0 < attempts → prepared.client_signal_id ≢ none

mild-Reports :
    (prepared : Signal) (attempts : ℕ) (e : Error)
    → is_publish_failed e ≡ false
    → Reports prepared attempts (raised e)
mild-Reports prepared attempts (publish_failed signal n path) h = cc
mild-Reports prepared attempts _ h = tt

append_posts :
    (env : Env) (wire : Wire) (root : String) (signal : Signal) (cause : Cause) (n : ℕ)
    (m : Machine)
    → (append env wire root signal cause n m).1.posts ≡ m.posts
unfolding append write_entry fresh_ulid
append_posts env wire root signal cause n m = ground arith

module _ (env : Env) (wire : Wire) (config : Config) (prepared : Signal) where
  raised-Reports :
      (n : ℕ) (r : Result FilePath) (m' m₂ : Machine)
      → mild r ≡ true
      → let act = ((λ (s : Machine). (r, m')) >>= λ path. pure (some path)) >>= λ path.
          raise {A = SignalAck} (publish_failed prepared n path) in
        ((act m₂).1.posts ≡ m'.posts) × Reports prepared n (act m₂).0
  raised-Reports n (ok path) m' m₂ h = (refl, (refl, refl))
  raised-Reports n (raised e) m' m₂ h = (refl, mild-Reports prepared n e (ground arith))
  raised-Reports n unfinished m' m₂ h = (refl, tt)

  append-mild :
      (root : String) (cause : Cause) (n : ℕ) (m : Machine) (r : Result FilePath) (m' : Machine)
      → Appended wire m.disk root prepared n r m'
      → mild r ≡ true
  append-mild root cause n m (ok path) m' h = refl
  append-mild root cause n m (raised e) m' h = ground (arith, h.1)
  append-mild root cause n m unfinished m' h = absurd h

  spill_to-Reports :
      (o : Option String) (cause : Cause) (n : ℕ) (m₂ : Machine)
      → let act = spill_to env wire config o prepared cause n >>= λ path.
          raise {A = SignalAck} (publish_failed prepared n path) in
        ((act m₂).1.posts ≡ m₂.posts) × Reports prepared n (act m₂).0
  unfolding spill_to
  spill_to-Reports none cause n m₂ = (refl, (refl, refl))
  spill_to-Reports (some root) cause n m₂ =
      let r = (append env wire root prepared cause n m₂).0 in
      let m' = (append env wire root prepared cause n m₂).1 in
      let h =
        raised-Reports n r m' m₂
          (append-mild root cause n m₂ r m' (append-Appended env wire root prepared cause n m₂)) in
      (h.0 ∙ append_posts env wire root prepared cause n m₂, h.1)

  finish-Reports :
      (r : Result Ended) (m₂ : Machine) (attempts : ℕ)
      → (r ≡ unfinished) ⊎ (mild r ≡ true)
      → Counts r attempts
      → let out = (lift r >>= finish env wire config prepared) m₂ in
        (out.1.posts ≡ m₂.posts) × Reports prepared attempts out.0
  unfolding finish
  finish-Reports (ok (acked ack)) m₂ attempts ends counts = (refl, tt)
  finish-Reports (ok (exhausted cause n)) m₂ attempts ends counts =
      rw (← counts) (spill_to-Reports m₂.spill cause n m₂)
  finish-Reports (raised e) m₂ attempts (inl ends) counts = cc
  finish-Reports (raised e) m₂ attempts (inr ends) counts =
      (refl, mild-Reports prepared attempts e (ground arith))
  finish-Reports unfinished m₂ attempts ends counts = (refl, tt)

prepare_signal-named :
    (env : Env) (wire : Wire) (input : Input) (m : Machine) (s : Signal)
    → (prepare_signal env wire none input m).0 ≡ ok s
    → s.client_signal_id ≢ none
unfolding prepare_signal fresh_ulid
prepare_signal-named env wire (typed signal) m s h = λ e. ground arith
prepare_signal-named env wire (raw value) m s h = λ e. ground arith

abbrev blank : Signal
blank = record {
  strategy_id = "";
  payload = null;
  client_signal_id = none;
  schema_version = none;
  published_at = none;
  expires_at = none;
  correlation_id = none;
}

module _ (env : Env) (wire : Wire) (config : Config) (fuel : ℕ) (m : Machine) where
  prepared-OneBody :
      (r : Result Signal) (m₁ : Machine)
      → IsQuiet m (r, m₁)
      → ((s : Signal) → r ≡ ok s → config.sealer ≡ none → s.client_signal_id ≢ none)
      → let act = lift r >>= (λ prepared. monotonic_now env >>= (λ started.
        attempt_all env wire config fuel prepared started >>= finish env wire config prepared)) in
        OneBody config m (act m₁).1 (act m₁).0
  prepared-OneBody (ok prepared) m₁ q named =
      let started = env.monotonic m₁.turn in
      let m₂ = record m₁ { turn = suc m₁.turn } in
      let s = attempt_all-Sent env wire config fuel m₂ prepared started in
      let f =
        finish-Reports env wire config prepared
          (attempt_all env wire config fuel prepared started m₂).0
          (attempt_all env wire config fuel prepared started m₂).1 s.0
          (attempt_all-Unspilled env wire config fuel prepared started m₂) s.2 in
      record {
        prepared = prepared;
        attempts = s.0;
        posts = f.0 ∙ s.1.posts ∙ ap (λ xs. xs ++ replicate s.0 prepared) q.posts;
        reports = f.1;
        named = λ none_sealed _. named prepared refl none_sealed;
      }
  prepared-OneBody (raised e) m₁ q named = record {
    prepared = blank;
    attempts = 0;
    posts = q.posts ∙ sym (append-nil m.posts);
    reports = mild-Reports blank 0 e (ground (arith, q.ends));
    named = λ _ some_post. absurd (omega arith);
  }
  prepared-OneBody unfinished m₁ q named = absurd (false≢true q.ends)

  -- One call of `publish` posts one body, some number of times, and nothing else; with no sealer
  -- that body has an idempotency key; and `PublishFailed` carries that body and that number.
  pub publish-OneBody :
      (input : Input)
      → OneBody config m
          (publish env wire config fuel input m).1
          (publish env wire config fuel input m).0
  unfolding publish
  publish-OneBody input =
      prepared-OneBody (prepare_signal env wire config.sealer input m).0
        (prepare_signal env wire config.sealer input m).1
        (prepare_signal-IsQuiet env wire config.sealer input m)
        (λ s e sealed. prepare_signal-named env wire input m s (rw sealed at e))
