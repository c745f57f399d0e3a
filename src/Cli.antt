-- ===== src/Cli.antt =====
-- src/multiedge_relay/cli.py: what `cursor reset` and `dlq resend` do and the exit codes that `main`
-- gives. What they print is left out.
pub mod Reset
use multiedge_relay_python.Exec.{Exec, Result, ok, raised, unfinished, pure, ◌>>=◌, ◌>>◌}
use multiedge_relay_python.Cursor.{
  CursorFiles, CursorJson, CursorWorld, commit_sequence, load_cursor,
}
use multiedge_relay_python.Resend.{DlqResendReport, resend}
use multiedge_relay_python.Publisher.{Config}
use multiedge_relay_python.Prelude.{
  Bool, Option, String, false, if◌then◌else◌, none, some, true, ℕ, ◌==◌,
}
use multiedge_relay_python.Errors.{Error, cursor_corrupt, is_multi_edge, state_store_corrupt}
use multiedge_relay_python.World.{Env, Wire}
use multiedge_relay_python.Process.{Machine}
use multiedge_relay_python.Prelude.Int.{ℤ}

-- `except MultiEdgeError` of `main`
abbrev pub exit_code : Result ℕ → Result ℕ
exit_code (ok code) = ok code
exit_code (raised e) = if is_multi_edge e then ok 1 else raised e
exit_code unfinished = unfinished

unfoldable pub main : {S : Type 0} → Exec S ℕ → Exec S ℕ
main command s = let (r, s') = command s in (exit_code r, s')

-- `isinstance(exc, CursorCorruptError)`
is_cursor_corrupt : Error → Bool
is_cursor_corrupt cursor_corrupt = true
is_cursor_corrupt state_store_corrupt = true
is_cursor_corrupt _ = false

-- What is printed of the old cursor; `none` is "CORRUPT".
unfoldable pub old_of : Result (Option ℕ) → Result (Option (Option ℕ))
unfolding is_cursor_corrupt
old_of (ok old) = ok (some old)
old_of (raised e) = if is_cursor_corrupt e then ok none else raised e
old_of unfinished = unfinished

-- `_cmd_cursor_reset`
unfoldable pub cmd_cursor_reset :
    CursorJson → CursorWorld → String → String → ℤ → Exec CursorFiles ℕ
unfolding old_of
cmd_cursor_reset json world root strategy to = do
  old ← (λ s. (old_of (load_cursor json root strategy s.disk), s))
  commit_sequence json world root strategy to
  pure 0

module _ (env : Env) (wire : Wire) (config : Config) (fuel : ℕ) where
  code_of : DlqResendReport → ℕ
  code_of report = if report.failed == 0 then 0 else 1

  with_key : Bool → String → Exec Machine ℕ
  unfolding code_of
  with_key false root = pure 2
  with_key true root = do report ← resend env wire config fuel root false; pure (code_of report)

  -- `_cmd_dlq_resend`, by `--dry-run` and whether there is an API key.
  unfoldable pub cmd_dlq_resend : Bool → Bool → String → Exec Machine ℕ
  unfolding with_key
  cmd_dlq_resend true key root = do report ← resend env wire config fuel root true; pure 0
  cmd_dlq_resend false key root = with_key key root
