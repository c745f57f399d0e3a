-- ===== src/Resend.antt =====
-- `DiskDLQ.resend` of src/multiedge_relay/dlq.py: every pending entry is published again, with the
-- publisher's own queue suspended, and each file is rewritten to the entries that failed.
pub mod Counts
use multiedge_relay_python.Prelude.{
  ℕ, Bool, List, String, Text, [], false, if◌then◌else◌, length, none, suc, true, ◌++◌, ◌+◌, ◌-◌,
  ◌∷◌,
}
use multiedge_relay_python.Dlq.{DlqEntry, pending}
use multiedge_relay_python.Publisher.{Config, publish, typed}
use multiedge_relay_python.World.{Env, Wire}
use multiedge_relay_python.Exec.{
  Exec, Result, gets, lift, ok, pure, raised, unfinished, ◌>>=◌, ◌>>◌,
}
use multiedge_relay_python.Errors.{FilePath, publish_failed}
use multiedge_relay_python.Process.{Machine, store}
use multiedge_relay_python.Disk.{path_eq, unlink}
use multiedge_relay_python.Models.{SignalAck}

pub record DlqResendReport : Type 0 where
  pub attempted : ℕ
  pub resent : ℕ
  pub failed : ℕ
  pub dry_run : Bool

-- The entries of one path, in order: `entries_by_path.setdefault(entry.path, []).append(entry)`
-- over entries that come file by file.
abbrev pub Group : Type 0
Group = FilePath × List DlqEntry

pub group_entry : DlqEntry → List Group → List Group
group_entry e [] = (e.path, e ∷ []) ∷ []
group_entry e ((path, es) ∷ groups) =
    if path_eq path e.path then (path, e ∷ es) ∷ groups else (e.path, e ∷ []) ∷ (path, es) ∷ groups

pub entries_by_path : List DlqEntry → List Group
unfolding group_entry
entries_by_path [] = []
entries_by_path (e ∷ es) = group_entry e (entries_by_path es)

-- `except PublishFailed`: whether the entry survives.
abbrev pub survives : Result SignalAck → Result Bool
survives (ok ack) = ok false
survives (raised (publish_failed signal attempts path)) = ok true
survives (raised e) = raised e
survives unfinished = unfinished

-- `"\n".join(lines) + "\n"`
pub join_lines : Wire → List DlqEntry → Text
join_lines wire [] = []
join_lines wire (e ∷ es) = wire.encode_line e.stored ++ 10 ∷ join_lines wire es

module _ (env : Env) (wire : Wire) (config : Config) (fuel : ℕ) where
  abbrev republish : DlqEntry → Exec Machine Bool
  republish e m = let (r, m') = publish env wire config fuel (typed e.signal) m in (survives r, m')

  abbrev keep_if : Bool → DlqEntry → List DlqEntry → List DlqEntry
  keep_if true e es = e ∷ es
  keep_if false e es = es

  -- The inner loop: the survivors of one file.
  pub resend_entries : List DlqEntry → Exec Machine (List DlqEntry)
  resend_entries [] = pure []
  resend_entries (e ∷ es) = do
    survived ← republish e
    rest ← resend_entries es
    pure (keep_if survived e rest)

  -- `_rewrite`: without survivors the file goes.
  rewrite : FilePath → List DlqEntry → Exec Machine (Unit {0})
  unfolding join_lines
  rewrite path [] m = (ok tt, record m { turn = suc m.turn; disk = unlink path m.disk })
  rewrite path (e ∷ es) m = store env path (join_lines wire (e ∷ es)) m

  -- The outer loop: the numbers of entries that were sent and that failed.
  pub resend_groups : List Group → Exec Machine (ℕ × ℕ)
  unfolding rewrite
  resend_groups [] = pure (0, 0)
  resend_groups ((path, entries) ∷ groups) = do
    survivors ← resend_entries entries
    rewrite path survivors
    (sent, kept) ← resend_groups groups
    pure (length entries - length survivors + sent, length survivors + kept)

  -- `finally: publisher.dlq = original_dlq`
  abbrev with_queue_suspended : {A : Type 0} → Exec Machine A → Exec Machine A
  with_queue_suspended body m =
      let (r, m') = body (record m { spill = none }) in (r, record m' { spill = m.spill })

  counted : ℕ → ℕ × ℕ → DlqResendReport
  counted attempted (sent, kept) = record {
    attempted = attempted;
    resent = sent;
    failed = kept;
    dry_run = false;
  }

  pub resend : String → Bool → Exec Machine DlqResendReport
  unfolding counted
  resend root dry_run = do
    disk ← gets (λ m. m.disk)
    entries ← lift (pending wire root none disk)
    if dry_run
        then pure (record { attempted = length entries; resent = 0; failed = 0; dry_run = true })
        else do
          counts ← with_queue_suspended (resend_groups (entries_by_path entries))
          pure (counted (length entries) counts)
