-- ===== src/Tests/Async.antt =====
-- The asynchronous publisher at a relay that is busy.
use multiedge_relay_python.Tests.{
  test_env, test_wire, test_config, test_machine, named_signal, test_signal,
}
use multiedge_relay_python.Prelude.{[], false, none, refl, ◌∷◌, ◌≡◌}
use multiedge_relay_python.Publisher.{prepare_signal, typed}
use multiedge_relay_python.Exec.{ok}
use multiedge_relay_python.Publisher.Async.{publish_async, publish_many_async}
use multiedge_relay_python.Publisher.Coroutine.{Posts, drive}
use multiedge_relay_python.Publisher.Batch.{publish_many}
use multiedge_relay_python.Publisher.Async.Bodies.{publish_async-Posts}
use multiedge_relay_python.Process.{Machine}
use multiedge_relay_python.Publisher.Async.Equal.{drive-publish_many_async}

-- A typed signal with a key is prepared as it is.
prepared_named :
    (m : Machine)
    → (prepare_signal (test_env none) test_wire none (typed named_signal) m).0 ≡ ok named_signal
unfolding prepare_signal
prepared_named m = refl

drive-publish_many_async_example :
    drive (test_env none) (
      publish_many_async
        (test_env none)
        test_wire
        test_config
        3
        false
        (typed test_signal ∷ typed named_signal ∷ [])
        test_machine)
    ≡ publish_many
        (test_env none)
        test_wire
        test_config
        3
        false
        (typed test_signal ∷ typed named_signal ∷ [])
        test_machine
drive-publish_many_async_example =
    drive-publish_many_async (test_env none) test_wire test_config 3 false
      (typed test_signal ∷ typed named_signal ∷ []) test_machine

publish_async-Posts_example :
    Posts
      (λ body. body ≡ named_signal)
      (publish_async (test_env none) test_wire test_config 3 (typed named_signal) test_machine)
publish_async-Posts_example =
    publish_async-Posts (test_env none) test_wire test_config 3 (typed named_signal) test_machine
      named_signal (prepared_named test_machine)
