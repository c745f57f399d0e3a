-- ===== src/Dlq.antt =====
-- src/multiedge_relay/dlq.py: the dead-letter queue, one JSONL file per strategy and day. `resend`
-- is in Resend, since it publishes.
pub mod Lines
pub mod Append
use Prim.Native.Char.{Char, code}
use Prim.Native.String.{◌++◌ as append_str}
use multiedge_relay_python.Prelude.{
  ℕ, suc, ◌+◌, String, Bool, true, false, not, ◌&&◌, ◌||◌, Option, none, some, List, [], ◌∷◌, ◌++◌,
  Text, leb, ◌==◌, str_eq, length, if◌then◌else◌, ◌*◌,
}
use multiedge_relay_python.Models.{Signal}
use multiedge_relay_python.Errors.{Cause, FilePath, value_error}
use multiedge_relay_python.Exec.{
  Result, Exec, ok, raised, unfinished, pure, lift, gets, ◌>>=◌, ◌>>◌,
}
use multiedge_relay_python.World.{Env, Wire, Stored}
use multiedge_relay_python.Disk.{Disk, read, unlink}
use multiedge_relay_python.Process.{Machine, fresh_ulid, today, wall_now, store}

-- `[A-Za-z0-9._-]`
pub is_safe : ℕ → Bool
is_safe c =
    ((leb b'A' c && leb c b'Z') || (leb b'a' c && leb c b'z'))
    || ((leb b'0' c && leb c b'9') || ((c == b'.') || ((c == b'_') || (c == b'-'))))

replace_unsafe : String → String
unfolding is_safe
replace_unsafe String.[] = String.[]
replace_unsafe (String.◌∷◌ c s) =
    String.◌∷◌ (if is_safe (code c) then c else Char.char b'_' tt) (replace_unsafe s)

-- `_SAFE_COMPONENT.sub("_", strategy_id) or "_"`
unfoldable pub sanitize : String → String
unfolding replace_unsafe
sanitize strategy_id = let safe = replace_unsafe strategy_id in if str_eq safe "" then "_" else safe

-- The line boundaries of `str.splitlines`.
unfoldable pub is_break : ℕ → Bool
is_break c =
    (leb 10 c && leb c 13)
    || ((leb 28 c && leb c 30) || ((c == 133) || ((c == 8232) || (c == 8233))))

-- The characters that `str.strip` takes for white space.
unfoldable pub is_space : ℕ → Bool
is_space c =
    ((leb 9 c && leb c 13) || (leb 28 c && leb c 32))
    || ((c == 133)
        || ((c == 160)
            || ((c == 5760)
                || ((leb 8192 c && leb c 8202)
                    || ((c == 8232)
                        || ((c == 8233) || ((c == 8239) || ((c == 8287) || (c == 12288)))))))))

-- `not line.strip()`
unfoldable pub is_blank : Text → Bool
unfolding is_space
is_blank [] = true
is_blank (c ∷ t) = is_space c && is_blank t

-- A last line that is empty is none.
end_line : Text → List Text
end_line [] = []
end_line (c ∷ t) = (c ∷ t) ∷ []

-- `text.splitlines()`, with the line begun so far. CR LF reads as an empty line more, which the
-- reader skips.
pub split_from : Text → Text → List Text
unfolding is_break end_line
split_from line [] = end_line line
split_from line (c ∷ t) =
    let rest = split_from (if is_break c then [] else line ++ c ∷ []) t in
    if is_break c then line ∷ rest else rest

pub record DlqEntry : Type 0 where
  pub stored : Stored
  pub open stored use *
  pub path : FilePath

abbrev cons_result {ℓ} : {A : Type ℓ} → A → Result (List A) → Result (List A)
cons_result a (ok rest) = ok (a ∷ rest)
cons_result a r = r

abbrev pub append_result {ℓ} : {A : Type ℓ} → Result (List A) → Result (List A) → Result (List A)
append_result (ok xs) (ok ys) = ok (xs ++ ys)
append_result (ok xs) r = r
append_result r _ = r

read_line : FilePath → Option Stored → Result (List DlqEntry) → Result (List DlqEntry)
read_line path none rest = raised value_error
read_line path (some stored) rest = cons_result (record { stored = stored; path = path }) rest

module _ (wire : Wire) where
  -- The loop of `_read_file`: blank lines are skipped, a bad line raises.
  pub read_lines : FilePath → List Text → Result (List DlqEntry)
  unfolding read_line
  read_lines path [] = ok []
  read_lines path (line ∷ lines) =
      let rest = read_lines path lines in
      if is_blank line then rest else read_line path (wire.decode_line line) rest

  pub read_file : FilePath → Text → Result (List DlqEntry)
  read_file path content = read_lines path (split_from [] content)

-- `path.match("*.jsonl")`
is_jsonl : String → Bool
is_jsonl String.[] = false
is_jsonl (String.◌∷◌ c s) = str_eq (String.◌∷◌ c s) ".jsonl" || is_jsonl s

-- The files that `pending` lists: below the root, and for a strategy only in its directory.
pub in_scope : String → Option String → FilePath → Bool
unfolding is_jsonl
in_scope root none path = str_eq path.root root && is_jsonl path.name
in_scope root (some strategy_id) path =
    str_eq path.root root && (is_jsonl path.name && str_eq path.folder (sanitize strategy_id))

module _ (wire : Wire) where
  pub pending : String → Option String → Disk → Result (List DlqEntry)
  pending root strategy_id [] = ok []
  pending root strategy_id ((path, content) ∷ files) =
      let rest = pending root strategy_id files in
      if in_scope root strategy_id path
      then append_result (read_file wire path content) rest
      else rest

  unlink_all : List DlqEntry → Disk → Disk
  unlink_all [] disk = disk
  unlink_all (entry ∷ entries) disk = unlink_all entries (unlink entry.path disk)

  -- Every entry is read before any file is deleted.
  pub purge : String → Option String → Disk → Result ℕ × Disk
  unfolding unlink_all
  purge root strategy_id disk = elim (pending root strategy_id disk) [
    | ok entries ↦ (ok (length entries), unlink_all entries disk)
    | raised e ↦ (raised e, disk)
    | unfinished ↦ (unfinished, disk)
  ]

-- `path.open("a")` of a file that may not be there yet.
abbrev pub old_text : Option Text → Text
old_text none = []
old_text (some content) = content

module _ (env : Env) (wire : Wire) where
  abbrev append_line : FilePath → Stored → Exec Machine (Unit {0})
  append_line path stored m =
      store env path (old_text (read path m.disk) ++ (wire.encode_line stored ++ 10 ∷ [])) m

  dead_letter_path : String → Signal → String → FilePath
  dead_letter_path root signal day = record {
    root = root;
    folder = sanitize signal.strategy_id;
    name = append_str day ".jsonl";
  }

  -- `append` from the entry's id on.
  unfoldable pub write_entry : String → Signal → Cause → ℕ → String → Text → Exec Machine FilePath
  unfolding dead_letter_path
  write_entry root signal error attempts day entry_id = do
    failed_at ← wall_now env
    append_line (dead_letter_path root signal day) (record {
      entry_id = entry_id;
      signal = signal;
      error = error;
      attempts = attempts;
      failed_at = failed_at;
    })
    pure (dead_letter_path root signal day)

  unfoldable pub append : String → Signal → Cause → ℕ → Exec Machine FilePath
  append root signal error attempts = do
    day ← today env
    entry_id ← fresh_ulid env
    write_entry root signal error attempts day entry_id
