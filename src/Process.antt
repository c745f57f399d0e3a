-- ===== src/Process.antt =====
-- A publishing process: the turn that its environment is at, the ULID generator's globals, the disk,
-- the publisher's `dlq` attribute, and what it has posted and slept.
use multiedge_relay_python.Prelude.{
  ℕ, suc, String, Option, List, [], ◌∷◌, ◌++◌, Text, Bool, false, true,
}
use multiedge_relay_python.Models.{Signal}
use multiedge_relay_python.Errors.{FilePath, os_error}
use multiedge_relay_python.Exec.{Exec, ok, raised}
use multiedge_relay_python.Ulid.{Ulids, new_ulid}
use multiedge_relay_python.World.{Env, Reply}
use multiedge_relay_python.Disk.{Disk, write}

pub record Machine : Type 0 where
  pub turn : ℕ
  pub ulids : Ulids
  pub disk : Disk
  -- the root of `publisher.dlq`, or `None`
  pub spill : Option String
  -- every body that was posted, oldest first
  pub posts : List Signal
  -- every delay slept, oldest first
  pub slept : List ℕ

module _ (env : Env) where
  -- A question to the environment takes a turn.
  abbrev pub ask : {A : Type 0} → (ℕ → A) → Exec Machine A
  ask answer m = (ok (answer m.turn), record m { turn = suc m.turn })

  abbrev pub monotonic_now : Exec Machine ℕ
  monotonic_now = ask env.monotonic

  abbrev pub wall_now : Exec Machine ℕ
  wall_now = ask env.wall

  abbrev pub today : Exec Machine String
  today = ask env.today

  -- `new_ulid()`, with the module's globals
  unfoldable pub fresh_ulid : Exec Machine Text
  fresh_ulid m =
      let (r, ulids') = new_ulid (env.millis m.turn) (env.bits m.turn) m.ulids in
      (r, record m { turn = suc m.turn; ulids = ulids' })

  -- `self._client.post("/v1/signals", json=body)`
  abbrev pub post : Signal → Exec Machine Reply
  post body m =
      (ok (env.reply m.turn), record m { turn = suc m.turn; posts = m.posts ++ body ∷ [] })

  -- `self._sleep(delay)`
  abbrev pub sleep : ℕ → Exec Machine (Unit {0})
  sleep delay m = (ok tt, record m { slept = m.slept ++ delay ∷ [] })

-- A write that the disk may refuse, leaving the file as it was.
abbrev pub attempt_write : FilePath → Text → Bool → Exec Machine (Unit {0})
attempt_write path content true m =
    (ok tt, record m { turn = suc m.turn; disk = write path content m.disk })
attempt_write path content false m = (raised os_error, record m { turn = suc m.turn })

abbrev pub store : Env → FilePath → Text → Exec Machine (Unit {0})
store env path content m = attempt_write path content (env.writable m.turn) m
