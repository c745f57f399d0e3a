-- ===== src/Publisher/Prepare.antt =====
-- `prepare_signal` reads and names the signal, and touches neither the disk nor the network.
use multiedge_relay_python.Prelude.{ℕ, Option, Text, arith, none, refl, some, true, ◌∙◌, ◌≡◌}
use multiedge_relay_python.Publisher.{
  Input, apply_sealer, coerce, ensure_id, prepare_signal, raw, typed,
}
use multiedge_relay_python.Errors.{sealed_error, validation_error}
use multiedge_relay_python.Ulid.{Ulids, new_ulid}
use multiedge_relay_python.Models.{Signal}
use multiedge_relay_python.Process.{Machine, fresh_ulid}
use multiedge_relay_python.Exec.{Exec, Result, mild, ok, or_raise, raised, unfinished, ◌>>=◌, pure}
use multiedge_relay_python.World.{Env, Wire}

-- What a step before the first request leaves alone, and how it may end.
pub record IsQuiet {A : Type 0} (m : Machine) (out : Result A × Machine) : Type 0 where
  pub posts : out.1.posts ≡ m.posts
  pub disk : out.1.disk ≡ m.disk
  pub spill : out.1.spill ≡ m.spill
  pub ends : mild out.0 ≡ true

module _ {A B : Type 0} where
  bind-IsQuiet :
      (f : A → Exec Machine B) (m : Machine) (r : Result A) (m₁ : Machine)
      → IsQuiet m (r, m₁)
      → ((a : A) (m₂ : Machine) → IsQuiet m₂ (f a m₂))
      → IsQuiet m (((λ (s : Machine). (r, m₁)) >>= f) m)
  bind-IsQuiet f m (ok a) m₁ h k =
      let q = k a m₁ in
      record {
        posts = q.posts ∙ h.posts;
        disk = q.disk ∙ h.disk;
        spill = q.spill ∙ h.spill;
        ends = q.ends;
      }
  bind-IsQuiet f m (raised e) m₁ h k = record {
    posts = h.posts;
    disk = h.disk;
    spill = h.spill;
    ends = h.ends;
  }
  bind-IsQuiet f m unfinished m₁ h k = record {
    posts = h.posts;
    disk = h.disk;
    spill = h.spill;
    ends = h.ends;
  }

new_ulid-mild : (ms bits : ℕ) (u : Ulids) → mild (new_ulid ms bits u).0 ≡ true
unfolding new_ulid
new_ulid-mild ms bits u = ground arith

module _ (env : Env) (wire : Wire) where
  coerce-IsQuiet : (input : Input) (m : Machine) → IsQuiet m (coerce env wire input m)
  unfolding coerce
  coerce-IsQuiet (typed signal) m = record { posts = refl; disk = refl; spill = refl; ends = refl }
  coerce-IsQuiet (raw value) m = or_raise-IsQuiet (wire.signal_of value)
    where
      or_raise-IsQuiet : (o : Option Signal) → IsQuiet m (or_raise o validation_error m)
      or_raise-IsQuiet none = record { posts = refl; disk = refl; spill = refl; ends = refl }
      or_raise-IsQuiet (some s) = record { posts = refl; disk = refl; spill = refl; ends = refl }

  ensure_id-IsQuiet :
      (signal : Signal) (o : Option Text) (m : Machine) → IsQuiet m (ensure_id env wire signal o m)
  unfolding ensure_id fresh_ulid
  ensure_id-IsQuiet signal (some id) m = record {
    posts = refl;
    disk = refl;
    spill = refl;
    ends = refl;
  }
  ensure_id-IsQuiet signal none m =
      bind-IsQuiet (λ id. pure (record signal { client_signal_id = some id })) m
        (new_ulid (env.millis m.turn) (env.bits m.turn) m.ulids).0 (fresh_ulid env m).1
        (record {
          posts = refl;
          disk = refl;
          spill = refl;
          ends = new_ulid-mild (env.millis m.turn) (env.bits m.turn) m.ulids;
        })
        (λ id m₂. record { posts = refl; disk = refl; spill = refl; ends = refl })

  apply_sealer-IsQuiet :
      (sealer : Option (Signal → Option Signal)) (signal : Signal) (m : Machine)
      → IsQuiet m (apply_sealer env wire sealer signal m)
  unfolding apply_sealer
  apply_sealer-IsQuiet none signal m = record {
    posts = refl;
    disk = refl;
    spill = refl;
    ends = refl;
  }
  apply_sealer-IsQuiet (some seal) signal m = sealed-IsQuiet (seal signal)
    where
      sealed-IsQuiet : (o : Option Signal) → IsQuiet m (or_raise o sealed_error m)
      sealed-IsQuiet none = record { posts = refl; disk = refl; spill = refl; ends = refl }
      sealed-IsQuiet (some s) = record { posts = refl; disk = refl; spill = refl; ends = refl }

  pub prepare_signal-IsQuiet :
      (sealer : Option (Signal → Option Signal)) (input : Input) (m : Machine)
      → IsQuiet m (prepare_signal env wire sealer input m)
  unfolding prepare_signal
  prepare_signal-IsQuiet sealer input m =
      bind-IsQuiet _ m (coerce env wire input m).0 (coerce env wire input m).1
        (coerce-IsQuiet input m)
        (λ signal m₁.
          bind-IsQuiet _ m₁ (ensure_id env wire signal signal.client_signal_id m₁).0
            (ensure_id env wire signal signal.client_signal_id m₁).1
            (ensure_id-IsQuiet signal signal.client_signal_id m₁)
            (λ named m₂. apply_sealer-IsQuiet sealer named m₂))
