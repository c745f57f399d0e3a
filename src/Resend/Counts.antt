-- ===== src/Resend/Counts.antt =====
-- The report of `resend` accounts for every entry, and the publisher gets its queue back.
use multiedge_relay_python.Prelude.{ℕ, List, [], false, length, ◌+◌, ◌∷◌, ◌≡◌}
use multiedge_relay_python.Resend.{DlqResendReport, Group}
use multiedge_relay_python.Exec.{ok, Result}
use multiedge_relay_python.Publisher.{Config}
use multiedge_relay_python.World.{Env, Wire}
use multiedge_relay_python.Process.{Machine}

abbrev total : List Group → ℕ
total [] = 0
total ((path, es) ∷ groups) = length es + total groups

module _ (env : Env) (wire : Wire) (config : Config) (fuel : ℕ) where
  -- What a pass over the entries that were read leaves.
  abbrev Counted : Machine → Result DlqResendReport × Machine → Type 0
  Counted m out =
      (out.1.spill ≡ m.spill)
      × ((report : DlqResendReport)
          → out.0 ≡ ok report
          → report.dry_run ≡ false
          → report.resent + report.failed ≡ report.attempted)
