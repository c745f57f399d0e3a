-- ===== src/Publisher/Coroutine.antt =====
-- Coroutines of the asynchronous client: a task runs up to an `await` and gives the event loop what
-- it waits for. The loop may run other tasks before it resumes this one, so that a resumed task
-- finds any machine and any answer.
use multiedge_relay_python.Exec.{Exec, Result, ok, raised, unfinished}
use multiedge_relay_python.Prelude.{refl, ℕ, ◌≡◌}
use multiedge_relay_python.Models.{Signal}
use multiedge_relay_python.Process.{Machine, post, sleep}
use multiedge_relay_python.World.{Env, Reply}

pub data Task (A : Type 0) : Type 0 where
  returned : Result A → Machine → Task A
  -- `await self._client.post("/v1/signals", json=body)`
  posting : Signal → Machine → (Reply → Machine → Task A) → Task A
  -- `await self._sleep(delay)`
  sleeping : ℕ → Machine → (Machine → Task A) → Task A

abbrev pub Coroutine : Type 0 → Type 0
Coroutine A = Machine → Task A

module _ {A B : Type 0} where
  unfoldable pub then_task : Task A → (Result A → Coroutine B) → Task B
  then_task (returned r m) k = k r m
  then_task (posting body m go) k = posting body m (λ reply m'. then_task (go reply m') k)
  then_task (sleeping delay m go) k = sleeping delay m (λ m'. then_task (go m') k)

  abbrev pub on_result : (A → Coroutine B) → Result A → Coroutine B
  on_result f (ok a) m = f a m
  on_result f (raised e) m = returned (raised e) m
  on_result f unfinished m = returned unfinished m

  infixl 5 ◌>>=◌
  abbrev pub ◌>>=◌ : Coroutine A → (A → Coroutine B) → Coroutine B
  ◌>>=◌ first f m = then_task (first m) (on_result f)

-- What awaits nothing.
abbrev pub at_once : {A : Type 0} → Exec Machine A → Coroutine A
at_once e m = let (r, m') = e m in returned r m'

abbrev pub await_post : Signal → Coroutine Reply
await_post body m = posting body m (λ reply. returned (ok reply))

abbrev pub await_sleep : ℕ → Coroutine (Unit {0})
await_sleep delay m = sleeping delay m (returned (ok tt))

-- The event loop with no other task: the relay answers each request and the clock each sleep.
module _ (env : Env) where
  unfoldable pub drive : {A : Type 0} → Task A → Result A × Machine
  drive (returned r m) = (r, m)
  drive (posting body m go) = drive (go (env.reply m.turn) (post env body m).1)
  drive (sleeping delay m go) = drive (go (sleep env delay m).1)

  pub drive-then_task :
      {A B : Type 0} (t : Task A) (k : Result A → Coroutine B)
      → drive (then_task t k) ≡ drive (k (drive t).0 (drive t).1)
  unfolding drive then_task
  drive-then_task (returned r m) k = refl
  drive-then_task (posting body m go) k =
      drive-then_task (go (env.reply m.turn) (post env body m).1) k
  drive-then_task (sleeping delay m go) k = drive-then_task (go (sleep env delay m).1) k

-- Whatever the loop answers and whatever other tasks have done: every body that the task posts.
unfoldable pub Posts : {A : Type 0} → (Signal → Type 0) → Task A → Type 0
Posts P (returned r m) = Unit
Posts P (posting body m go) = P body × ((reply : Reply) (m' : Machine) → Posts P (go reply m'))
Posts P (sleeping delay m go) = (m' : Machine) → Posts P (go m')

pub Posts-then_task :
    {A B : Type 0} (P : Signal → Type 0) (t : Task A) (k : Result A → Coroutine B)
    → Posts P t
    → ((r : Result A) (m : Machine) → Posts P (k r m))
    → Posts P (then_task t k)
unfolding Posts then_task
Posts-then_task P (returned r m) k h rest = rest r m
Posts-then_task P (posting body m go) k h rest =
    (h.0, λ reply m'. Posts-then_task P (go reply m') k (h.1 reply m') rest)
Posts-then_task P (sleeping delay m go) k h rest = λ m'. Posts-then_task P (go m') k (h m') rest
