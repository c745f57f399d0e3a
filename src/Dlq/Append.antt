-- ===== src/Dlq/Append.antt =====
-- What `append` leaves on the disk: one line more in the file of the strategy and the day, or nothing.
use multiedge_relay_python.Prelude.{
  ℕ, String, Text, [], arith, false, refl, some, suc, true, ◌++◌, ◌∷◌, ◌≡◌, Bool,
}
use multiedge_relay_python.Errors.{Cause, FilePath, is_publish_failed}
use multiedge_relay_python.Process.{Machine, fresh_ulid, attempt_write}
use multiedge_relay_python.Disk.{Disk, path_eq, path_eq_iff, read, read-write, write}
use multiedge_relay_python.Ulid.{Ulids, new_ulid}
use multiedge_relay_python.Exec.{Result, lift, mild, ok, raised, unfinished, ◌>>=◌, pure, ◌>>◌}
use multiedge_relay_python.Dlq.{append, dead_letter_path, old_text, sanitize, write_entry}
use multiedge_relay_python.World.{Env, Stored, Wire}
use multiedge_relay_python.Models.{Signal}

-- The file has one line more, which holds the failed signal; no other file has changed.
pub record Spilled (wire : Wire) (d d' : Disk) (root : String) (signal : Signal) (attempts : ℕ)
    (path : FilePath) : Type 0 where
  pub stored : Stored
  pub same_signal : stored.signal ≡ signal
  pub same_attempts : stored.attempts ≡ attempts
  pub in_folder : path.folder ≡ sanitize signal.strategy_id
  pub in_root : path.root ≡ root
  pub appended :
      read path d' ≡ some (old_text (read path d) ++ (wire.encode_line stored ++ 10 ∷ []))
  pub others : (q : FilePath) → path_eq path q ≡ false → read q d' ≡ read q d

abbrev pub Appended : Wire → Disk → String → Signal → ℕ → Result FilePath → Machine → Type 0
Appended wire d root signal attempts (ok path) m' = Spilled wire d m'.disk root signal attempts path
Appended wire d root signal attempts (raised e) m' = (m'.disk ≡ d) × (is_publish_failed e ≡ false)
Appended wire d root signal attempts unfinished m' = ⊥

module _ (env : Env) (wire : Wire) (root : String) (signal : Signal) (cause : Cause)
    (attempts : ℕ) where
  abbrev pub entry : Text → ℕ → Stored
  entry id failed_at = record {
    entry_id = id;
    signal = signal;
    error = cause;
    attempts = attempts;
    failed_at = failed_at;
  }

  write-Spilled :
      (path : FilePath) (stored : Stored) (d : Disk)
      → stored.signal ≡ signal
      → stored.attempts ≡ attempts
      → path.folder ≡ sanitize signal.strategy_id
      → path.root ≡ root
      → Spilled wire d
          (write path (old_text (read path d) ++ (wire.encode_line stored ++ 10 ∷ [])) d)
          root
          signal
          attempts
          path
  write-Spilled path stored d same same' folder in_root = record {
    stored = stored;
    same_signal = same;
    same_attempts = same';
    in_folder = folder;
    in_root = in_root;
    appended = rw (read-write, (path_eq_iff path path).1 refl) refl;
    others = λ q ne. rw (read-write, ne) refl;
  }

  stored-Appended :
      (path : FilePath) (stored : Stored) (m : Machine) (fine : Bool)
      → stored.signal ≡ signal
      → stored.attempts ≡ attempts
      → path.folder ≡ sanitize signal.strategy_id
      → path.root ≡ root
      → let content = old_text (read path m.disk) ++ (wire.encode_line stored ++ 10 ∷ []) in
        let out = (attempt_write path content fine >> pure path) m in
        Appended wire m.disk root signal attempts out.0 out.1
  stored-Appended path stored m true same same' folder in_root =
      write-Spilled path stored m.disk same same' folder in_root
  stored-Appended path stored m false same same' folder in_root = (refl, refl)

  write_entry-Appended :
      (day : String) (id : Text) (m : Machine)
      → Appended wire m.disk root signal attempts
          (write_entry env wire root signal cause attempts day id m).0
          (write_entry env wire root signal cause attempts day id m).1
  unfolding write_entry
  write_entry-Appended day id m =
      stored-Appended (dead_letter_path env wire root signal day) (entry id (env.wall m.turn))
        (record m { turn = suc m.turn }) (env.writable (suc m.turn)) refl refl refl refl

  continue-Appended :
      (r : Result Text) (day : String) (m : Machine)
      → mild r ≡ true
      → Appended wire m.disk root signal attempts
          ((lift r >>= write_entry env wire root signal cause attempts day) m).0
          ((lift r >>= write_entry env wire root signal cause attempts day) m).1
  continue-Appended (ok id) day m h = write_entry-Appended day id m
  continue-Appended (raised e) day m h = (refl, ground arith)
  continue-Appended unfinished day m h = cc

  new_ulid-mild : (ms bits : ℕ) (u : Ulids) → mild (new_ulid ms bits u).0 ≡ true
  unfolding new_ulid
  new_ulid-mild ms bits u = ground arith

  pub append-Appended :
      (m : Machine)
      → Appended wire m.disk root signal attempts
          (append env wire root signal cause attempts m).0
          (append env wire root signal cause attempts m).1
  unfolding append fresh_ulid
  append-Appended m =
      continue-Appended (new_ulid (env.millis (suc m.turn)) (env.bits (suc m.turn)) m.ulids).0
        (env.today m.turn) _
        (new_ulid-mild (env.millis (suc m.turn)) (env.bits (suc m.turn)) m.ulids)
