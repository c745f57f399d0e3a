-- ===== src/Publisher/Batch.antt =====
-- `publish_many`: one outcome for each signal, in order.
use multiedge_relay_python.Prelude.{
  ℕ, Bool, List, Option, [], false, if◌then◌else◌, none, some, ◌∷◌, ◌≡◌, arith,
}
use multiedge_relay_python.Publisher.{Config, Input, publish}
use multiedge_relay_python.Dlq.Append.{Spilled}
use multiedge_relay_python.World.{Env, Wire}
use multiedge_relay_python.Exec.{Exec, Result, ok, pure, raised, unfinished, bind_ok, ◌>>=◌}
use multiedge_relay_python.Models.{Signal, SignalAck}
use multiedge_relay_python.Publisher.Spill.{Accounted, publish-Accounted}
use multiedge_relay_python.Errors.{FilePath, publish_failed}
use multiedge_relay_python.Process.{Machine}

-- `SignalAck | PublishFailed`
pub data Outcome : Type 0 where
  delivered : SignalAck → Outcome
  failed : Signal → ℕ → Option FilePath → Outcome

-- `except PublishFailed` and the test of `raise_on_partial`
abbrev pub settle : Bool → Result SignalAck → Result Outcome
settle raise_on_partial (ok ack) = ok (delivered ack)
settle raise_on_partial (raised (publish_failed signal attempts path)) =
    if raise_on_partial
    then raised (publish_failed signal attempts path)
    else ok (failed signal attempts path)
settle raise_on_partial (raised e) = raised e
settle raise_on_partial unfinished = unfinished

module _ (env : Env) (wire : Wire) (config : Config) (fuel : ℕ) (raise_on_partial : Bool) where
  abbrev pub publish_one : Input → Exec Machine Outcome
  publish_one input m =
      let (r, m') = publish env wire config fuel input m in (settle raise_on_partial r, m')

  unfoldable pub publish_many : List Input → Exec Machine (List Outcome)
  publish_many [] = pure []
  publish_many (input ∷ inputs) = do
    outcome ← publish_one input
    rest ← publish_many inputs
    pure (outcome ∷ rest)

-- A failure in the list stands for a signal that is on the disk, or that had no queue to go to.
abbrev pub Records : Wire → Machine → Machine → Outcome → Type 0
Records wire m m' (delivered ack) = m'.disk ≡ m.disk
Records wire m m' (failed signal attempts none) = (m.spill ≡ none) × (m'.disk ≡ m.disk)
Records wire m m' (failed signal attempts (some path)) =
    (m.spill ≡ some path.root) × Spilled wire m.disk m'.disk path.root signal attempts path

-- The outcomes, each with the machines before and after its own signal.
pub data Chronicle (env : Env) (wire : Wire) (config : Config) (fuel : ℕ)
    : Machine → List Input → List Outcome → Machine → Type 0 where
  done : {m : Machine} → Chronicle env wire config fuel m [] [] m
  next :
      {m m'' : Machine} {input : Input} {inputs : List Input} {o : Outcome} {os : List Outcome}
      → settle false (publish env wire config fuel input m).0 ≡ ok o
      → Records wire m (publish env wire config fuel input m).1 o
      → Chronicle env wire config fuel (publish env wire config fuel input m).1 inputs os m''
      → Chronicle env wire config fuel m (input ∷ inputs) (o ∷ os) m''

module _ (env : Env) (wire : Wire) (config : Config) (fuel : ℕ) where
  settled-Records :
      (m m' : Machine) (r : Result SignalAck) (o : Outcome)
      → settle false r ≡ ok o
      → Accounted wire m m' r
      → Records wire m m' o
  settled-Records m m' (ok ack) (delivered a) h k = k
  settled-Records m m' (ok ack) (failed s n p) h k = cc
  settled-Records m m' (raised (publish_failed s n none)) (failed s' n' none) h k = k
  settled-Records m m' (raised (publish_failed s n none)) (failed s' n' (some p)) h k = cc
  settled-Records m m' (raised (publish_failed s n none)) (delivered a) h k = cc
  settled-Records m m' (raised (publish_failed s n (some p))) (failed s' n' none) h k = cc
  settled-Records m m' (raised (publish_failed s n (some p))) (failed s' n' (some p')) h k =
      ground (arith, k)
  settled-Records m m' (raised (publish_failed s n (some p))) (delivered a) h k = cc
  settled-Records m m' (raised _) o h k = cc
  settled-Records m m' unfinished o h k = cc

  -- With `raise_on_partial=False`, a batch that returns has one outcome for each signal, in order, and
  -- each failure among them is on the disk in its own line, or there was no queue.
  pub publish_many-Chronicle :
      (inputs : List Input) (m : Machine) (os : List Outcome)
      → (publish_many env wire config fuel false inputs m).0 ≡ ok os
      → Chronicle env wire config fuel m inputs os
          (publish_many env wire config fuel false inputs m).1
  unfolding publish_many
  publish_many-Chronicle [] m [] h = done
  publish_many-Chronicle [] m (o ∷ os) h = cc
  publish_many-Chronicle (input ∷ inputs) m os h =
      let m' = (publish env wire config fuel input m).1 in
      let (o, e, h', s) =
        bind_ok (settle false (publish env wire config fuel input m).0) m m'
          (λ outcome.
            publish_many env wire config fuel false inputs >>= λ rest. pure (outcome ∷ rest))
          h in
      let (rest, e', h'', s') =
        bind_ok (publish_many env wire config fuel false inputs m').0 m'
          (publish_many env wire config fuel false inputs m').1 (λ rest. pure (o ∷ rest)) h' in
      let same : os ≡ o ∷ rest = cc h'' in
      rw (same, s, s')
        (next e
          (settled-Records m m' (publish env wire config fuel input m).0 o e
            (publish-Accounted env wire config fuel m input))
          (publish_many-Chronicle inputs m' rest e'))
