-- ===== src/Sealed/KeyFiles.antt =====
-- src/multiedge_relay/sealed/keys.py: key files. `opens` is whether `os.open` may create the file.
use multiedge_relay_python.Prelude.{Bool, Option, String, Text, none, some, false, true}
use multiedge_relay_python.Exec.Outcome.{◌>>=◌, ◌>>◌, demand, found}
use multiedge_relay_python.Prelude.Json.{Fields, Json, end, field, get_field, obj, str}
use multiedge_relay_python.Sealed.Keys.{
  RecipientKeypair, SenderKeypair, bundle_fingerprint, recipient_bundle, recipient_fingerprint,
  sender_bundle, sender_fingerprint,
}
use multiedge_relay_python.Errors.{
  FilePath, file_exists_error, os_error, sealed_key_error, type_error,
}
use multiedge_relay_python.Disk.{Disk, read, write}
use multiedge_relay_python.Exec.{Exec, Result, ok, raised}
use multiedge_relay_python.Sealed.Primitives.{Bytes, Primitives}
use multiedge_relay_python.Sealed.Core.{is_text}

abbrev file_kind : String
file_kind = "multiedge-sealed-key-v1"

-- By what the path holds: `O_CREAT | O_EXCL` takes a new name only.
abbrev pub create : Option Text → Bool → FilePath → Text → Exec Disk (Unit {0})
create (some old) opens path t disk = (raised file_exists_error, disk)
create none false path t disk = (raised os_error, disk)
create none true path t disk = (ok tt, write path t disk)

-- `_write_private_file`
unfoldable pub write_private_file : Primitives → Bool → FilePath → Fields → Exec Disk (Unit {0})
write_private_file p opens path document disk =
    create (read path disk) opens path (p.dump_file (obj document)) disk

dict_of : Option Json → Result Fields
dict_of (some (obj fields)) = ok fields
dict_of _ = raised sealed_key_error

-- `_read_private_file`
unfoldable pub read_private_file : Primitives → FilePath → String → Disk → Result Fields
unfolding dict_of
read_private_file p path purpose disk = do
  text ← found (read path disk) sealed_key_error
  parsed ← found (p.load_file text) sealed_key_error
  document ← dict_of (some parsed)
  demand (is_text file_kind (get_field "kind" document)) sealed_key_error
  bundle ← dict_of (get_field "bundle" document)
  demand (is_text purpose (get_field "purpose" bundle)) sealed_key_error
  demand (is_text (bundle_fingerprint p bundle) (get_field "kid" document)) sealed_key_error
  ok document

-- `K.from_private_bytes(_b64d(document[name]))`; `b64decode` of a value that is no text is a
-- `TypeError`, which `load` does not catch.
unfoldable pub private_key : Primitives → String → (Bytes → Bool) → Fields → Result Bytes
private_key p name takes document = do
  value ← found (get_field name document) sealed_key_error
  raw ← elim value [ str t ↦ found (p.b64decode t) sealed_key_error | _ ↦ raised type_error ]
  demand (takes raw) sealed_key_error
  ok raw

-- `document["bundle"]["created_at"]`
unfoldable pub created_at_of : Fields → Result Json
unfolding dict_of
created_at_of document = do
  bundle ← dict_of (get_field "bundle" document)
  found (get_field "created_at" bundle) sealed_key_error

-- `"mldsa65_seed" in document`
unfoldable pub mldsa_key : Primitives → Fields → Option Json → Result (Option Bytes)
unfolding private_key
mldsa_key p document none = ok none
mldsa_key p document (some value) = do
  seed ← private_key p "mldsa65_seed" p.mldsa_seed document
  ok (some seed)

unfoldable pub load_recipient : Primitives → FilePath → Disk → Result RecipientKeypair
unfolding read_private_file private_key created_at_of
load_recipient p path disk = do
  document ← read_private_file p path "recipient" disk
  x25519 ← private_key p "x25519_priv" p.x25519_private document
  mlkem ← private_key p "mlkem768_seed" p.mlkem_seed document
  created_at ← created_at_of document
  ok (record { x25519 = x25519; mlkem = mlkem; created_at = created_at })

unfoldable pub load_sender : Primitives → FilePath → Disk → Result SenderKeypair
unfolding read_private_file private_key created_at_of mldsa_key
load_sender p path disk = do
  document ← read_private_file p path "sender" disk
  mldsa ← mldsa_key p document (get_field "mldsa65_seed" document)
  ed25519 ← private_key p "ed25519_priv" p.ed25519_private document
  created_at ← created_at_of document
  ok (record { ed25519 = ed25519; mldsa = mldsa; created_at = created_at })

unfoldable pub recipient_document : Primitives → RecipientKeypair → Fields
recipient_document p k = field "bundle" (obj (recipient_bundle p k)) (
    field "kid" (str (recipient_fingerprint p k)) (
      field "kind" (str file_kind) (
        field "mlkem768_seed" (str (p.b64encode k.mlkem))
          (field "x25519_priv" (str (p.b64encode k.x25519)) end))))

-- `if self._mldsa_priv is not None: document["mldsa65_seed"] = ...`
abbrev pub seed_field : Primitives → Option Bytes → Fields
seed_field p none = end
seed_field p (some seed) = field "mldsa65_seed" (str (p.b64encode seed)) end

unfoldable pub sender_document : Primitives → SenderKeypair → Fields
sender_document p k = field "bundle" (obj (sender_bundle p k)) (
    field "ed25519_priv" (str (p.b64encode k.ed25519)) (
      field "kid" (str (sender_fingerprint p k))
        (field "kind" (str file_kind) (seed_field p k.mldsa))))

unfoldable pub save_recipient :
    Primitives → Bool → FilePath → RecipientKeypair → Exec Disk (Unit {0})
unfolding write_private_file recipient_document
save_recipient p opens path k = write_private_file p opens path (recipient_document p k)

unfoldable pub save_sender : Primitives → Bool → FilePath → SenderKeypair → Exec Disk (Unit {0})
unfolding write_private_file sender_document
save_sender p opens path k = write_private_file p opens path (sender_document p k)
