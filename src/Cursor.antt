-- ===== src/Cursor.antt =====
-- src/multiedge_relay/cursor.py: `FileCursorStore`, one JSON file per strategy under a root. The
-- payload is written and read by `json`, a parameter; a replacement of the file may be refused.
pub mod RoundTrip
use Prim.Native.String.{◌++◌ as append_str}
use multiedge_relay_python.Prelude.{
  ℕ, Bool, Option, String, Text, false, none, some, suc, true, zero,
}
use multiedge_relay_python.Subscriber.{sequence}
use multiedge_relay_python.Errors.{FilePath, cursor_corrupt, os_error, permission_error}
use multiedge_relay_python.Exec.{Exec, Result, ok, raise, raised, ◌>>=◌, ◌>>◌}
use multiedge_relay_python.Disk.{Disk, read, write}
use multiedge_relay_python.Publisher.Loop.{left}
use multiedge_relay_python.Prelude.Json.{Json, get_field, int, obj}
use multiedge_relay_python.Prelude.Int.{pos, ℤ}
use multiedge_relay_python.Ulid.{Ulids, new_ulid}
use multiedge_relay_python.Dlq.{sanitize}

-- `json.dumps` of the payload, and `json.loads` of a file, where `none` is a `JSONDecodeError`.
pub record CursorJson : Type 0 where
  pub dumps : String → ℤ → ℕ → Text
  pub loads : Text → Option Json

-- What `os.replace` does at a turn.
pub data Replace : Type 0 where
  replaced shared refused : Replace

pub record CursorWorld : Type 0 where
  -- whether the temporary file is written
  pub writes : ℕ → Bool
  pub replaces : ℕ → Replace
  pub wall : ℕ → ℕ
  pub millis : ℕ → ℕ
  pub bits : ℕ → ℕ

pub record CursorFiles : Type 0 where
  pub turn : ℕ
  pub ulids : Ulids
  pub disk : Disk
  -- how often the retry has slept
  pub naps : ℕ

abbrev pub replace_attempts : ℕ
replace_attempts = 5

pub path_for : String → String → FilePath
path_for root strategy_id = record {
  root = root;
  folder = "";
  name = append_str (sanitize strategy_id) ".json";
}

-- A sequence that is an integer, no Boolean, and not negative.
pub sequence_of : Option Json → Result (Option ℕ)
sequence_of (some (int (pos n))) = ok (some n)
sequence_of _ = raised cursor_corrupt

checked : Option Json → Result (Option ℕ)
unfolding sequence_of
checked none = raised cursor_corrupt
checked (some (obj fields)) = sequence_of (get_field "sequence" fields)
checked (some _) = raised cursor_corrupt

load_text : CursorJson → Option Text → Result (Option ℕ)
unfolding checked
load_text json none = ok none
load_text json (some content) = checked (json.loads content)

unfoldable pub load_cursor : CursorJson → String → String → Disk → Result (Option ℕ)
unfolding load_text path_for
load_cursor json root strategy_id disk = load_text json (read (path_for root strategy_id) disk)

module _ (json : CursorJson) (world : CursorWorld) (root : String) where
  -- `new_ulid()`, for the name of the temporary file.
  name_temporary : Exec CursorFiles Text
  name_temporary s =
      let (r, u) = new_ulid (world.millis s.turn) (world.bits s.turn) s.ulids in
      (r, record s { turn = suc s.turn; ulids = u })

  -- The loop over the attempts, by how many are left; the last refusal is raised.
  replace_answer :
      FilePath → Text → Replace → Exec CursorFiles (Unit {0}) → Exec CursorFiles (Unit {0})
  replace_answer path content replaced rest s =
      (ok tt, record s { turn = suc s.turn; disk = write path content s.disk })
  replace_answer path content shared rest s = rest (record s { turn = suc s.turn })
  replace_answer path content refused rest s = (raised os_error, record s { turn = suc s.turn })

  nap : Exec CursorFiles (Unit {0}) → Exec CursorFiles (Unit {0})
  nap rest s = rest (record s { naps = suc s.naps })

  replace_loop : FilePath → Text → ℕ → Exec CursorFiles (Unit {0})
  unfolding replace_answer nap
  replace_loop path content zero s = (raised permission_error, s)
  replace_loop path content (suc zero) s =
      replace_answer path content (world.replaces s.turn) (raise permission_error) s
  replace_loop path content (suc (suc left)) s =
      replace_answer path content (world.replaces s.turn)
        (nap (replace_loop path content (suc left))) s

  replace_file : FilePath → Text → Bool → Exec CursorFiles (Unit {0})
  unfolding replace_loop
  replace_file path content true s =
      replace_loop path content replace_attempts (record s { turn = suc s.turn })
  replace_file path content false s = (raised os_error, record s { turn = suc s.turn })

  write_payload : String → Text → Exec CursorFiles (Unit {0})
  unfolding replace_file path_for
  write_payload strategy_id payload s =
      replace_file (path_for root strategy_id) payload (world.writes s.turn) s

  -- `commit`: the payload, then the temporary file, which has a name of its own and is gone at the
  -- end, so that the disk has only the cursor files.
  unfoldable pub commit_sequence : String → ℤ → Exec CursorFiles (Unit {0})
  unfolding name_temporary write_payload
  commit_sequence strategy_id n = do
    updated_at ← (λ s. (ok (world.wall s.turn), record s { turn = suc s.turn }))
    name_temporary
    write_payload strategy_id (json.dumps strategy_id n updated_at)
