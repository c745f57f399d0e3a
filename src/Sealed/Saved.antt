-- ===== src/Sealed/Saved.antt =====
-- Key files: none is overwritten, and a saved key is loaded as it was.
use multiedge_relay_python.Prelude.{
  Bool, Text, false, inl, inr, none, refl, some, true, ◌≡◌, Bool-cases, Option, ◌∙◌,
}
use multiedge_relay_python.Sealed.KeyFiles.{write_private_file, create}
use multiedge_relay_python.Disk.{Disk, read, path_eq, path_eq_iff, read-write}
use multiedge_relay_python.Exec.{ok}
use multiedge_relay_python.Sealed.Primitives.{Primitives}
use multiedge_relay_python.Prelude.Json.{Fields, obj, Json}
use multiedge_relay_python.Errors.{FilePath}

create-kept :
    (o : Option Text) (opens : Bool) (path q : FilePath) (u t : Text) (disk : Disk)
    → read path disk ≡ o
    → read q disk ≡ some t
    → read q (create o opens path u disk).1 ≡ some t
create-kept (some old) opens path q u t disk e h = h
create-kept none false path q u t disk e h = h
create-kept none true path q u t disk e h = elim (Bool-cases (path_eq path q)) [
  | inl same ↦ cc (e, h, (path_eq_iff path q).0 same)
  | inr other ↦ read-write path q u disk ∙ rw other h
]

-- A text that a file holds stays.
pub write_private_file-kept :
    (p : Primitives) (opens : Bool) (path q : FilePath) (document : Fields) (disk : Disk) (t : Text)
    → read q disk ≡ some t
    → read q (write_private_file p opens path document disk).1 ≡ some t
unfolding write_private_file
write_private_file-kept p opens path q document disk t h =
    create-kept (read path disk) opens path q (p.dump_file (obj document)) t disk refl h

-- What a new key file holds.
pub write_private_file-new :
    (p : Primitives) (path : FilePath) (document : Fields) (disk : Disk)
    → read path disk ≡ none
    → ((write_private_file p true path document disk).0 ≡ ok tt)
      × (read path (write_private_file p true path document disk).1
          ≡ some (p.dump_file (obj document)))
unfolding write_private_file
write_private_file-new p path document disk fresh =
    let same : path_eq path path ≡ true = (path_eq_iff path path).1 refl in
    rw fresh (refl, read-write path path (p.dump_file (obj document)) disk ∙ rw same refl)
