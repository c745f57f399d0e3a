-- ===== src/Sealed/Seal.antt =====
-- src/multiedge_relay/sealed/core.py: `seal`. What `rng` and `cryptography` draw is an argument.
use multiedge_relay_python.Prelude.{
  ℕ, Bool, List, Option, String, Text, [], none, some, suc, ◌++◌, ◌∷◌,
}
use multiedge_relay_python.Exec.Outcome.{◌>>=◌, ◌>>◌, demand, found}
use multiedge_relay_python.Prelude.Json.{
  Fields, Items, Json, arr, end, field, get_field, item, nil, obj, str,
}
use multiedge_relay_python.Sealed.Keys.{
  SenderKeypair, bundle_fingerprint, canonical_json, dual, sender_fingerprint,
}
use multiedge_relay_python.Errors.{sealed_error, sealed_key_error, value_error}
use multiedge_relay_python.Exec.{Result, ok, raised}
use multiedge_relay_python.Sealed.Core.{aad_of, alg_of, domain, kek_of, signature_input, zero_nonce}
use multiedge_relay_python.Sealed.Primitives.{Bytes, Primitives}

-- What `rng` and the library draw for one envelope.
pub record Draws : Type 0 where
  pub dek : Bytes
  pub nonce : Bytes
  pub ephemeral : Bytes
  -- of the n-th recipient
  pub encapsulation : ℕ → Bytes
  pub signature : Bytes

-- `base64.b64decode(bundle[key], validate=True)`: a missing key, no text, or a malformed one.
peer_key : Primitives → String → Fields → (Bytes → Bool) → Result Bytes
peer_key p key bundle takes = do
  text ← found (get_field key bundle) sealed_key_error
  raw ← elim text [ str t ↦ found (p.b64decode t) sealed_key_error | _ ↦ raised sealed_key_error ]
  demand (takes raw) sealed_key_error
  ok raw

-- What is appended for a recipient: the shared secrets wrap the data key.
abbrev pub entry_of : Primitives → Draws → Bytes → Fields → ℕ → Bytes → Bytes → Fields
entry_of p d aad bundle n ss_x25519 peer_mlkem =
    let epk = p.x25519_public_of d.ephemeral in
    let (ss_mlkem, kem_ct) = p.mlkem_encapsulate peer_mlkem (d.encapsulation n) in
    let kid = bundle_fingerprint p bundle in
    let kek = kek_of p ss_x25519 ss_mlkem epk kem_ct kid aad in
    field "kid" (str kid) (
      field "epk" (str (p.b64encode epk)) (
        field "kem_ct" (str (p.b64encode kem_ct))
          (field "wrap" (str (p.b64encode (p.encrypt kek zero_nonce d.dek []))) end)))

-- One round of `for bundle in recipients`.
unfoldable pub seal_entry : Primitives → Draws → Bytes → Fields → ℕ → Result Fields
unfolding peer_key
seal_entry p d aad bundle n = do
  peer_x25519 ← peer_key p "x25519_pub" bundle p.x25519_public
  peer_mlkem ← peer_key p "mlkem768_ek" bundle p.mlkem_public
  ss_x25519 ← found (p.x25519_exchange d.ephemeral peer_x25519) value_error
  ok (entry_of p d aad bundle n ss_x25519 peer_mlkem)

unfoldable pub seal_entries : Primitives → Draws → Bytes → List Fields → ℕ → Result Items
unfolding seal_entry
seal_entries p d aad [] n = ok nil
seal_entries p d aad (bundle ∷ bundles) n = do
  entry ← seal_entry p d aad bundle n
  entries ← seal_entries p d aad bundles (suc n)
  ok (item (obj entry) entries)

-- The envelope before it is signed.
abbrev pub unsigned_envelope :
    Primitives → Draws → Json → String → Text → SenderKeypair → Items → Fields
unsigned_envelope p d payload strategy_id client_signal_id sender entries =
    let kid = sender_fingerprint p sender in
    let aad = aad_of p strategy_id client_signal_id kid in
    field "sealed" (str "v1") (
      field "alg" (obj (alg_of (dual sender))) (
        field "sender_kid" (str kid) (
          field "nonce" (str (p.b64encode d.nonce)) (
            field "ct" (str (p.b64encode (p.encrypt d.dek d.nonce (canonical_json p payload) aad)))
              (field "recipients" (arr entries) end)))))

-- `envelope[key] = value` for a key that is not there yet.
abbrev pub add_field : String → Json → Fields → Fields
add_field key value end = field key value end
add_field key value (field k v rest) = field k v (add_field key value rest)

abbrev pub sign_pq_field : Primitives → Draws → Option Bytes → Bytes → Fields → Fields
sign_pq_field p d none digest envelope = envelope
sign_pq_field p d (some seed) digest envelope =
    add_field "sig_pq" (str (p.b64encode (p.mldsa_sign seed d.signature digest (domain p))))
      envelope

-- The signatures, over the envelope without them.
unfoldable pub signed : Primitives → Draws → SenderKeypair → Fields → Fields
signed p d sender envelope =
    let digest = signature_input p envelope in
    sign_pq_field p d sender.mldsa digest (
      add_field "sig" (str (p.b64encode (p.ed25519_sign sender.ed25519 (domain p ++ digest))))
        envelope)

unfoldable pub seal :
    Primitives → Draws → Json → String → Text → List Fields → SenderKeypair → Result Fields
unfolding signed
seal p d payload strategy_id client_signal_id [] sender = raised sealed_error
seal p d payload strategy_id client_signal_id (bundle ∷ bundles) sender = do
  entries ←
      seal_entries p d (aad_of p strategy_id client_signal_id (sender_fingerprint p sender))
        (bundle ∷ bundles) 0
  ok (signed p d sender (unsigned_envelope p d payload strategy_id client_signal_id sender entries))
