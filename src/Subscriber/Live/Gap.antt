-- ===== src/Subscriber/Live/Gap.antt =====
-- The filling of a gap from REST never returns with the gap open.
use multiedge_relay_python.Prelude.{ℕ, true, ◌≡◌, ◌≤◌, ◌⊎◌}
use multiedge_relay_python.Exec.{Result, ok}
use multiedge_relay_python.Exec.Loop.{Leads, Next}
use multiedge_relay_python.Subscriber.{CursorStore, Outside, Settings, Subscriber}
use multiedge_relay_python.Subscriber.Live.{Fill}
use multiedge_relay_python.World.{Wire}

module _ {C : Type 0} (cursors : CursorStore C) (out : Outside) (wire : Wire) (set : Settings)
    (attempts : ℕ) where
  -- What the filling of a gap has reached where it returns.
  abbrev Closed : ℕ → Result (Unit {0}) → Subscriber C → Type 0
  Closed target r s = r ≡ ok tt → (target ≤ s.position) ⊎ ((turn : ℕ) × (out.stopped turn ≡ true))

  abbrev Closes : ℕ → Next (Fill C) (Unit {0}) → Type 0
  Closes target n = Leads (λ f. Unit {0}) (λ r f. Closed target r f.sub) n
