-- ===== src/Sealed/Keys.antt =====
-- src/multiedge_relay/sealed/keys.py: the two key identities, their public bundles and fingerprints.
use multiedge_relay_python.Prelude.{Option, String, Text, none, some, ◌∷◌, Bool, false, true}
use multiedge_relay_python.Sealed.Primitives.{Bytes, Primitives}
use multiedge_relay_python.Prelude.Json.{Fields, Json, end, field, obj, str}

-- `canonical_json`
unfoldable pub canonical_json : Primitives → Json → Bytes
canonical_json p j = p.dumps j

unfoldable pub bundle_fingerprint : Primitives → Fields → String
unfolding canonical_json
bundle_fingerprint p bundle = p.hexdigest (canonical_json p (obj bundle))

-- `_display`: groups of four, a space between two groups.
pub display : Text → Text
display (a ∷ b ∷ c ∷ d ∷ e ∷ rest) = a ∷ b ∷ c ∷ d ∷ 32 ∷ display (e ∷ rest)
display short = short

pub record RecipientKeypair : Type 0 where
  pub x25519 : Bytes
  pub mlkem : Bytes
  -- a key file may hold any value here
  pub created_at : Json

-- `mldsa` is there in a dual sender.
pub record SenderKeypair : Type 0 where
  pub ed25519 : Bytes
  pub mldsa : Option Bytes
  pub created_at : Json

-- The bundle that `RecipientKeypair.__init__` builds. The fields of a `dict` stand in the order of
-- their names here, as `sort_keys` writes them.
unfoldable pub recipient_bundle : Primitives → RecipientKeypair → Fields
recipient_bundle p k = field "bundle" (str "mek-v1") (
    field "created_at" k.created_at (
      field "mlkem768_ek" (str (p.b64encode (p.mlkem_public_of k.mlkem))) (
        field "purpose" (str "recipient")
          (field "x25519_pub" (str (p.b64encode (p.x25519_public_of k.x25519))) end))))

-- `if mldsa_priv is not None: bundle["mldsa65_pub"] = ...`
unfoldable pub mldsa_field : Primitives → Option Bytes → Fields → Fields
mldsa_field p none rest = rest
mldsa_field p (some seed) rest =
    field "mldsa65_pub" (str (p.b64encode (p.mldsa_public_of seed))) rest

unfoldable pub sender_bundle : Primitives → SenderKeypair → Fields
unfolding mldsa_field
sender_bundle p k = field "bundle" (str "mek-v1") (
    field "created_at" k.created_at (
      field "ed25519_pub" (str (p.b64encode (p.ed25519_public_of k.ed25519)))
        (mldsa_field p k.mldsa (field "purpose" (str "sender") end))))

unfoldable pub recipient_fingerprint : Primitives → RecipientKeypair → String
recipient_fingerprint p k = bundle_fingerprint p (recipient_bundle p k)

unfoldable pub sender_fingerprint : Primitives → SenderKeypair → String
sender_fingerprint p k = bundle_fingerprint p (sender_bundle p k)

-- `SenderKeypair.dual`
abbrev pub dual : SenderKeypair → Bool
dual k = elim k.mldsa [ none ↦ false | some seed ↦ true ]
