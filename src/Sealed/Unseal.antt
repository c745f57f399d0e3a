-- ===== src/Sealed/Unseal.antt =====
-- src/multiedge_relay/sealed/core.py: `unseal`, its checks in the code's order.
use multiedge_relay_python.Prelude.{
  Bool, Option, String, Text, [], false, if◌then◌else◌, none, not, some, true, ◌&&◌, ◌++◌, ◌||◌,
}
use multiedge_relay_python.Exec.Outcome.{◌>>=◌, ◌>>◌, demand, found}
use multiedge_relay_python.Sealed.Primitives.{Bytes, Opened, Primitives, bad_input, bad_tag, opened}
use multiedge_relay_python.Sealed.Core.{
  aad_of, b64d, domain, is_text, kek_of, signature_input, suite_of, zero_nonce,
}
use multiedge_relay_python.Exec.{Result, ok, raised}
use multiedge_relay_python.Prelude.Json.{Fields, Items, Json, arr, get_field, item, nil, obj}
use multiedge_relay_python.Sealed.Keys.{RecipientKeypair, bundle_fingerprint, recipient_fingerprint}
use multiedge_relay_python.Errors.{not_a_recipient, unseal_error, value_error}

-- The pinned sender's signatures, both where its bundle has a key for both.
unfoldable pub check_pq : Primitives → Fields → Fields → Bytes → Option Json → Result (Unit {0})
check_pq p bundle envelope digest none = ok tt
check_pq p bundle envelope digest (some key) = do
  raw ← b64d p (some key)
  demand (p.mldsa_public raw) unseal_error
  sig ← b64d p (get_field "sig_pq" envelope)
  demand (p.mldsa_verify raw sig digest (domain p)) unseal_error

unfoldable pub check_signatures : Primitives → Fields → Fields → Result (Unit {0})
unfolding check_pq
check_signatures p bundle envelope =
    let digest = signature_input p envelope in
    do
      key ← b64d p (get_field "ed25519_pub" bundle)
      demand (p.ed25519_public key) unseal_error
      sig ← b64d p (get_field "sig" envelope)
      demand (p.ed25519_verify key sig (domain p ++ digest)) unseal_error
      check_pq p bundle envelope digest (get_field "mldsa65_pub" bundle)

abbrev present : Option Json → Bool
present none = false
present (some j) = true

-- `sender_is_dual and (alg["sig"] != "ed25519+mldsa65" or "sig_pq" not in envelope)`
unfoldable pub downgraded : Fields → Fields → Fields → Bool
downgraded bundle alg envelope =
    present (get_field "mldsa65_pub" bundle)
    && (not (is_text "ed25519+mldsa65" (get_field "sig" alg))
        || not (present (get_field "sig_pq" envelope)))

-- `next((e for e in entries if isinstance(e, dict) and e.get("kid") == fingerprint), None)`
unfoldable pub find_own : String → Items → Option Fields
find_own kid nil = none
find_own kid (item (obj e) rest) =
    if is_text kid (get_field "kid" e) then some e else find_own kid rest
find_own kid (item _ rest) = find_own kid rest

unfoldable pub recipients_of : Option Json → Result Items
recipients_of (some (arr entries)) = ok entries
recipients_of _ = raised unseal_error

unfoldable pub opened_result : Opened → Result Bytes
opened_result (opened raw) = ok raw
opened_result bad_tag = raised unseal_error
opened_result bad_input = raised unseal_error

-- From the recipient's own entry to the plaintext.
unfoldable pub open_entry : Primitives → RecipientKeypair → Bytes → Fields → Fields → Result Bytes
unfolding opened_result
open_entry p k aad envelope own = do
  epk ← b64d p (get_field "epk" own)
  kem_ct ← b64d p (get_field "kem_ct" own)
  ss_x25519 ← found (p.x25519_exchange k.x25519 epk) unseal_error
  ss_mlkem ← found (p.mlkem_decapsulate k.mlkem kem_ct) unseal_error
  wrap ← b64d p (get_field "wrap" own)
  dek ← opened_result (
      p.decrypt (kek_of p ss_x25519 ss_mlkem epk kem_ct (recipient_fingerprint p k) aad) zero_nonce
        wrap [])
  nonce ← b64d p (get_field "nonce" envelope)
  ct ← b64d p (get_field "ct" envelope)
  opened_result (p.decrypt dek nonce ct aad)

-- The checks up to the signatures, which come before anything is decrypted.
unfoldable pub verify_sender : Primitives → Fields → Fields → Result (Unit {0})
unfolding check_signatures downgraded
verify_sender p bundle envelope = do
  demand (is_text "v1" (get_field "sealed" envelope)) unseal_error
  alg ← suite_of (get_field "alg" envelope)
  demand (is_text (bundle_fingerprint p bundle) (get_field "sender_kid" envelope)) unseal_error
  demand (not (downgraded bundle alg envelope)) unseal_error
  check_signatures p bundle envelope

-- The sender's key id and the entry's are the fingerprints that they have just been compared with.
unfoldable pub unseal : Primitives → Json → String → Text → RecipientKeypair → Fields → Result Json
unfolding verify_sender open_entry recipients_of find_own
unseal p (obj envelope) strategy_id client_signal_id k bundle = do
  verify_sender p bundle envelope
  entries ← recipients_of (get_field "recipients" envelope)
  own ← found (find_own (recipient_fingerprint p k) entries) not_a_recipient
  plaintext ←
      open_entry p k (aad_of p strategy_id client_signal_id (bundle_fingerprint p bundle)) envelope
        own
  found (p.loads plaintext) value_error
unseal p _ strategy_id client_signal_id k bundle = raised unseal_error
