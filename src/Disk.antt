-- ===== src/Disk.antt =====
-- A file system below the SDK's directories. The files are kept in the order of `sorted` on paths,
-- so a listing is a walk. Reads and writes go by whole files.
use Prim.Native.Nat.{Ordering}
use Prim.Native.String.{compare}
use multiedge_relay_python.Prelude.{
  Bool, true, false, ◌&&◌, ◌≡◌, ◌↔◌, refl, Option, none, some, List, [], ◌∷◌, Text, arith, str_eq,
  eq_iff, if◌then◌else◌,
}
use multiedge_relay_python.Errors.{FilePath}

unfoldable pub path_eq : FilePath → FilePath → Bool
path_eq p q = str_eq p.root q.root && (str_eq p.folder q.folder && str_eq p.name q.name)

pub path_eq_iff : (p q : FilePath) → (path_eq p q ≡ true) ↔ (p ≡ q)
unfolding path_eq
path_eq_iff p q =
    ground (arith, eq_iff p.root q.root, eq_iff p.folder q.folder, eq_iff p.name q.name)

-- The order of `sorted` on paths: folder by folder, then by name.
abbrev then_by : Ordering → Ordering → Ordering
then_by Ordering.eq o = o
then_by o _ = o

abbrev precedes : Ordering → Bool
precedes Ordering.lt = true
precedes _ = false

pub path_lt : FilePath → FilePath → Bool
path_lt p q =
    precedes (
      then_by (compare p.root q.root) (then_by (compare p.folder q.folder) (compare p.name q.name)))

abbrev pub Disk : Type 0
Disk = List (FilePath × Text)

-- `path.read_text()`, where `none` is `FileNotFoundError`.
unfoldable pub read : FilePath → Disk → Option Text
read p [] = none
read p ((q, t) ∷ d) = if path_eq q p then some t else read p d

-- A write replaces the file's content, or creates it in its place in the order.
unfoldable pub write : FilePath → Text → Disk → Disk
write p t [] = (p, t) ∷ []
write p t ((q, u) ∷ d) =
    if path_eq q p
    then (p, t) ∷ d
    else if path_lt p q
    then (p, t) ∷ (q, u) ∷ d
    else (q, u) ∷ write p t d

-- `path.unlink(missing_ok=True)`
pub unlink : FilePath → Disk → Disk
unlink p [] = []
unlink p ((q, u) ∷ d) = let rest = unlink p d in if path_eq q p then rest else (q, u) ∷ rest

pub read-write :
    (p q : FilePath) (t : Text) (d : Disk)
    → read q (write p t d) ≡ (if path_eq p q then some t else read q d)
unfolding read write
read-write p q t [] = refl
read-write p q t ((r, u) ∷ d) =
    ground (arith, path_eq_iff p q, path_eq_iff r p, path_eq_iff r q, read-write p q t d)

pub read-unlink :
    (p q : FilePath) (d : Disk) → read q (unlink p d) ≡ (if path_eq p q then none else read q d)
unfolding read unlink
read-unlink p q [] = ground arith
read-unlink p q ((r, u) ∷ d) =
    ground (arith, path_eq_iff p q, path_eq_iff r p, path_eq_iff r q, read-unlink p q d)
