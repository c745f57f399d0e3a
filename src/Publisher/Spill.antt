-- ===== src/Publisher/Spill.antt =====
-- What `publish` leaves on the disk and on the wire, by how it ends: a signal is dead-lettered exactly
-- when `PublishFailed` is raised, and every request of one call carries one body.
use multiedge_relay_python.Prelude.{
  false, none, some, ◌≡◌, Option, String, ap, arith, inl, inr, subst, suc, sym, true, ℕ, ◌∙◌, ◌⊎◌,
}
use multiedge_relay_python.Errors.{Error, is_publish_failed, publish_failed, Cause, FilePath}
use multiedge_relay_python.Process.{Machine, monotonic_now}
use multiedge_relay_python.Dlq.Append.{Spilled, Appended, append-Appended}
use multiedge_relay_python.Exec.{Result, raised, lift, mild, ok, pure, raise, unfinished, ◌>>=◌}
use multiedge_relay_python.World.{Wire, Env}
use multiedge_relay_python.Models.{SignalAck, Signal}
use multiedge_relay_python.Publisher.Loop.{attempt_all-Sent}
use multiedge_relay_python.Publisher.{
  Config, Ended, Input, acked, attempt_all, exhausted, finish, prepare_signal, publish, spill_to,
}
use multiedge_relay_python.Dlq.{append}
use multiedge_relay_python.Publisher.Prepare.{IsQuiet, prepare_signal-IsQuiet}
use multiedge_relay_python.Disk.{Disk}
use multiedge_relay_python.Publisher.Ends.{attempt_all-Unspilled}

-- By how a call ends.
abbrev pub Accounted : Wire → Machine → Machine → Result SignalAck → Type 0
Accounted wire m m' (raised (publish_failed signal attempts (some path))) =
    (m.spill ≡ some path.root) × Spilled wire m.disk m'.disk path.root signal attempts path
Accounted wire m m' (raised (publish_failed signal attempts none)) =
    (m.spill ≡ none) × (m'.disk ≡ m.disk)
Accounted wire m m' _ = m'.disk ≡ m.disk

same_disk-Accounted :
    (wire : Wire) (m m' : Machine) (e : Error)
    → is_publish_failed e ≡ false
    → m'.disk ≡ m.disk
    → Accounted wire m m' (raised e)
same_disk-Accounted wire m m' (publish_failed signal attempts path) h same = cc
same_disk-Accounted wire m m' _ h same = same

module _ (env : Env) (wire : Wire) (config : Config) (m : Machine) (prepared : Signal) where
  -- What the raise after an append makes of the append's own result.
  raised-Accounted :
      (root : String) (attempts : ℕ) (m₂ : Machine) (r : Result FilePath) (m' : Machine)
      → m.spill ≡ some root
      → m₂.disk ≡ m.disk
      → Appended wire m₂.disk root prepared attempts r m'
      → let act = ((λ (s : Machine). (r, m')) >>= λ path. pure (some path)) >>= λ path.
          raise {A = SignalAck} (publish_failed prepared attempts path) in
        Accounted wire m (act m₂).1 (act m₂).0
  raised-Accounted root attempts m₂ (ok path) m' e same h = (
    e ∙ ap some (sym h.in_root),
    subst (λ (d : Disk). Spilled wire d m'.disk path.root prepared attempts path) same
        (subst (λ (r : String). Spilled wire m₂.disk m'.disk r prepared attempts path)
          (sym h.in_root) h),
  )
  raised-Accounted root attempts m₂ (raised x) m' e same h =
      same_disk-Accounted wire m m' x h.1 (h.0 ∙ same)
  raised-Accounted root attempts m₂ unfinished m' e same h = absurd h

  spill_to-Accounted :
      (o : Option String) (cause : Cause) (attempts : ℕ) (m₂ : Machine)
      → m.spill ≡ o
      → m₂.disk ≡ m.disk
      → let act = spill_to env wire config o prepared cause attempts >>= λ path.
          raise {A = SignalAck} (publish_failed prepared attempts path) in
        Accounted wire m (act m₂).1 (act m₂).0
  unfolding spill_to
  spill_to-Accounted none cause attempts m₂ e same = (e, same)
  spill_to-Accounted (some root) cause attempts m₂ e same =
      raised-Accounted root attempts m₂ (append env wire root prepared cause attempts m₂).0
        (append env wire root prepared cause attempts m₂).1 e same
        (append-Appended env wire root prepared cause attempts m₂)

  finish-Accounted :
      (r : Result Ended) (m₂ : Machine)
      → (r ≡ unfinished) ⊎ (mild r ≡ true)
      → m₂.disk ≡ m.disk
      → m₂.spill ≡ m.spill
      → let out = (lift r >>= finish env wire config prepared) m₂ in Accounted wire m out.1 out.0
  unfolding finish
  finish-Accounted (ok (acked ack)) m₂ ends same spill = same
  finish-Accounted (ok (exhausted cause n)) m₂ ends same spill =
      spill_to-Accounted m₂.spill cause n m₂ (sym spill) same
  finish-Accounted (raised e) m₂ (inl ends) same spill = cc
  finish-Accounted (raised e) m₂ (inr ends) same spill =
      same_disk-Accounted wire m m₂ e (ground arith) same
  finish-Accounted unfinished m₂ ends same spill = same

module _ (env : Env) (wire : Wire) (config : Config) (fuel : ℕ) (m : Machine) where
  prepared-Accounted :
      (r : Result Signal) (m₁ : Machine)
      → IsQuiet m (r, m₁)
      → let act = lift r >>= (λ prepared. monotonic_now env >>= (λ started.
        attempt_all env wire config fuel prepared started >>= finish env wire config prepared)) in
        Accounted wire m (act m₁).1 (act m₁).0
  prepared-Accounted (ok prepared) m₁ q =
      let started = env.monotonic m₁.turn in
      let m₂ = record m₁ { turn = suc m₁.turn } in
      let s = attempt_all-Sent env wire config fuel m₂ prepared started in
      finish-Accounted env wire config m prepared
        (attempt_all env wire config fuel prepared started m₂).0
        (attempt_all env wire config fuel prepared started m₂).1
        (attempt_all-Unspilled env wire config fuel prepared started m₂) (s.1.disk ∙ q.disk)
        (s.1.spill ∙ q.spill)
  prepared-Accounted (raised e) m₁ q =
      same_disk-Accounted wire m m₁ e (ground (arith, q.ends)) q.disk
  prepared-Accounted unfinished m₁ q = q.disk

  pub publish-Accounted :
      (input : Input)
      → Accounted wire m
          (publish env wire config fuel input m).1
          (publish env wire config fuel input m).0
  unfolding publish
  publish-Accounted input =
      prepared-Accounted (prepare_signal env wire config.sealer input m).0
        (prepare_signal env wire config.sealer input m).1
        (prepare_signal-IsQuiet env wire config.sealer input m)
