-- ===== src/Publisher/Overflow.antt =====
-- A `Retry-After` of more seconds than a float holds ends `publish` by `OverflowError`.
use multiedge_relay_python.Prelude.{ℕ, Option, ◌≡◌, none, some}
use multiedge_relay_python.World.{Env, Wire}
use multiedge_relay_python.Publisher.{Config, next_round, Ended, Round}
use multiedge_relay_python.Exec.{raised, Exec, Result, ok, unfinished}
use multiedge_relay_python.Errors.{Error}
use multiedge_relay_python.Exec.Loop.{advance}
use multiedge_relay_python.Process.{Machine}

module _ (env : Env) (wire : Wire) (config : Config) where
  pub stopped :
      (attempts : ℕ) (go : Exec Round Ended) (out : Result (Option Ended) × Machine) (e : Error)
      → out.0 ≡ raised e
      → (advance go (next_round attempts out)).0 ≡ raised e
  unfolding next_round
  stopped attempts go (ok none, m) e h = cc
  stopped attempts go (ok (some x), m) e h = cc
  stopped attempts go (raised x, m) e h = cc
  stopped attempts go (unfinished, m) e h = cc
