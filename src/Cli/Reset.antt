-- ===== src/Cli/Reset.antt =====
-- What `multiedge cursor reset` leaves in the cursor store.
use multiedge_relay_python.Cursor.{CursorFiles, CursorJson, CursorWorld, commit_sequence}
use multiedge_relay_python.Exec.{pure, Exec, ◌>>◌}
use multiedge_relay_python.Prelude.{String, ℕ}
use multiedge_relay_python.Prelude.Int.{ℤ}

module _ (json : CursorJson) (world : CursorWorld) (root : String) where
  abbrev commit_then : String → ℤ → Exec CursorFiles ℕ
  commit_then strategy to = do commit_sequence json world root strategy to; pure 0
