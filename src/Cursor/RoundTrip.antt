-- ===== src/Cursor/RoundTrip.antt =====
-- What a commit writes is what a load reads.
use multiedge_relay_python.Prelude.{Text, ◌≡◌}
use multiedge_relay_python.Errors.{FilePath}
use multiedge_relay_python.Cursor.{CursorFiles}
use multiedge_relay_python.Exec.{Exec, Result, ok, raised, unfinished}
use multiedge_relay_python.Disk.{Disk, write}

-- Written whole, or not at all.
abbrev pub Lands : FilePath → Text → Disk → Result (Unit {0}) → CursorFiles → Type 0
Lands path content d (ok _) s = s.disk ≡ write path content d
Lands path content d (raised e) s = s.disk ≡ d
Lands path content d unfinished s = ⊥
