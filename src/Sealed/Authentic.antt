-- ===== src/Sealed/Authentic.antt =====
-- What a payload that `unseal` returns is known to be: signed by the pinned sender, and bound to the
-- strategy and to the idempotency key.
use multiedge_relay_python.Prelude.{
  Option, String, Text, ap, eq_iff, none, some, true, ◌++◌, ◌∙◌, ◌≡◌, not, refl, [],
}
use multiedge_relay_python.Exec.Outcome.{demand, demand_ok, then_ok, found, found_ok}
use multiedge_relay_python.Prelude.Json.{
  Fields, Json, arr, bool, get_field, int, null, obj, real, str,
}
use multiedge_relay_python.Errors.{unseal_error, not_a_recipient, value_error}
use multiedge_relay_python.Sealed.Primitives.{Bytes, Opened, Primitives, bad_input, bad_tag, opened}
use multiedge_relay_python.Sealed.Unseal.{
  check_pq, opened_result, check_signatures, downgraded, find_own, open_entry, recipients_of,
  unseal, verify_sender,
}
use multiedge_relay_python.Sealed.Core.{
  aad_of, b64d, domain, is_text, signature_input, suite_of, kek_of, zero_nonce,
}
use multiedge_relay_python.Sealed.Keys.{bundle_fingerprint, RecipientKeypair, recipient_fingerprint}
use multiedge_relay_python.Exec.{ok}

-- A field of base64 text.
pub record Encoded (p : Primitives) (field_of : Option Json) : Type 0 where
  pub raw : Bytes
  pub read : b64d p field_of ≡ ok raw

-- A classical signature of the envelope, by the key of the pinned bundle.
pub record Classical (p : Primitives) (bundle envelope : Fields) : Type 0 where
  pub key : Encoded p (get_field "ed25519_pub" bundle)
  pub sig : Encoded p (get_field "sig" envelope)
  pub verified : p.ed25519_verify key.raw sig.raw (domain p ++ signature_input p envelope) ≡ true

-- The post-quantum one.
pub record PostQuantum (p : Primitives) (bundle envelope : Fields) : Type 0 where
  pub key : Encoded p (get_field "mldsa65_pub" bundle)
  pub sig : Encoded p (get_field "sig_pq" envelope)
  pub verified : p.mldsa_verify key.raw sig.raw (signature_input p envelope) (domain p) ≡ true

-- The plaintext of the envelope's ciphertext, with its identities as associated data.
pub record Opening (p : Primitives) (aad : Bytes) (envelope : Fields) (payload : Json)
    : Type 0 where
  pub dek : Bytes
  pub nonce : Encoded p (get_field "nonce" envelope)
  pub ct : Encoded p (get_field "ct" envelope)
  pub plaintext : Bytes
  pub decrypted : p.decrypt dek nonce.raw ct.raw aad ≡ opened plaintext
  pub parsed : p.loads plaintext ≡ some payload

pub record Authentic (p : Primitives) (envelope : Fields) (strategy_id : String)
    (client_signal_id : Text) (bundle : Fields) (payload : Json) : Type 0 where
  pub sender : get_field "sender_kid" envelope ≡ some (str (bundle_fingerprint p bundle))
  pub classical : Classical p bundle envelope
  -- of a sender with a post-quantum key
  pub both :
      (key : Json) → get_field "mldsa65_pub" bundle ≡ some key → PostQuantum p bundle envelope
  pub opening :
      Opening p
        (aad_of p strategy_id client_signal_id (bundle_fingerprint p bundle))
        envelope
        payload

is_text_ok : (t : String) (o : Option Json) → is_text t o ≡ true → o ≡ some (str t)
is_text_ok t none h = cc
is_text_ok t (some (str s)) h = ap (λ u. some (str u)) ((eq_iff s t).0 h)
is_text_ok t (some null) h = cc
is_text_ok t (some (bool b)) h = cc
is_text_ok t (some (int n)) h = cc
is_text_ok t (some (real r)) h = cc
is_text_ok t (some (arr a)) h = cc
is_text_ok t (some (obj o)) h = cc

opened_ok : (o : Opened) (raw : Bytes) → opened_result o ≡ ok raw → o ≡ opened raw
unfolding opened_result
opened_ok (opened x) raw h = cc
opened_ok bad_tag raw h = cc
opened_ok bad_input raw h = cc

check_pq-PostQuantum :
    (p : Primitives) (bundle envelope : Fields) (key : Json)
    → get_field "mldsa65_pub" bundle ≡ some key
    → check_pq p bundle envelope (signature_input p envelope) (some key) ≡ ok tt
    → PostQuantum p bundle envelope
unfolding check_pq
check_pq-PostQuantum p bundle envelope key there h =
    let (raw, read, h₁) = then_ok (b64d p (some key)) _ h in
    let (_, _, h₂) = then_ok (demand (p.mldsa_public raw) unseal_error) _ h₁ in
    let (sig, sig_read, h₃) = then_ok (b64d p (get_field "sig_pq" envelope)) _ h₂ in
    record {
      key = record { raw = raw; read = ap (b64d p) there ∙ read };
      sig = record { raw = sig; read = sig_read };
      verified = demand_ok _ unseal_error h₃;
    }

check_pq-both :
    (p : Primitives) (bundle envelope : Fields) (o : Option Json)
    → get_field "mldsa65_pub" bundle ≡ o
    → check_pq p bundle envelope (signature_input p envelope) o ≡ ok tt
    → (key : Json) → get_field "mldsa65_pub" bundle ≡ some key
    → PostQuantum p bundle envelope
check_pq-both p bundle envelope none there h key has = cc
check_pq-both p bundle envelope (some other) there h key has =
    check_pq-PostQuantum p bundle envelope other there h

check_signatures-Classical :
    (p : Primitives) (bundle envelope : Fields)
    → check_signatures p bundle envelope ≡ ok tt
    → Classical p bundle envelope
      × ((key : Json) → get_field "mldsa65_pub" bundle ≡ some key → PostQuantum p bundle envelope)
unfolding check_signatures
check_signatures-Classical p bundle envelope h =
    let (key, read, h₁) = then_ok (b64d p (get_field "ed25519_pub" bundle)) _ h in
    let (_, _, h₂) = then_ok (demand (p.ed25519_public key) unseal_error) _ h₁ in
    let (sig, sig_read, h₃) = then_ok (b64d p (get_field "sig" envelope)) _ h₂ in
    let test = p.ed25519_verify key sig (domain p ++ signature_input p envelope) in
    let (_, verified, h₄) = then_ok (demand test unseal_error) _ h₃ in
    (
      record {
        key = record { raw = key; read = read };
        sig = record { raw = sig; read = sig_read };
        verified = demand_ok test unseal_error verified;
      },
      check_pq-both p bundle envelope (get_field "mldsa65_pub" bundle) refl h₄,
    )

open_entry-Opening :
    (p : Primitives) (k : RecipientKeypair) (aad : Bytes) (envelope own : Fields)
    (plaintext : Bytes) (payload : Json)
    → open_entry p k aad envelope own ≡ ok plaintext
    → p.loads plaintext ≡ some payload
    → Opening p aad envelope payload
unfolding open_entry
open_entry-Opening p k aad envelope own plaintext payload h parsed =
    let (epk, _, h₁) = then_ok (b64d p (get_field "epk" own)) _ h in
    let (kem_ct, _, h₂) = then_ok (b64d p (get_field "kem_ct" own)) _ h₁ in
    let (ss_x25519, _, h₃) = then_ok (found (p.x25519_exchange k.x25519 epk) unseal_error) _ h₂ in
    let (ss_mlkem, _, h₄) =
      then_ok (found (p.mlkem_decapsulate k.mlkem kem_ct) unseal_error) _ h₃ in
    let (wrap, _, h₅) = then_ok (b64d p (get_field "wrap" own)) _ h₄ in
    let kek = kek_of p ss_x25519 ss_mlkem epk kem_ct (recipient_fingerprint p k) aad in
    let (dek, _, h₆) = then_ok (opened_result (p.decrypt kek zero_nonce wrap [])) _ h₅ in
    let (nonce, nonce_read, h₇) = then_ok (b64d p (get_field "nonce" envelope)) _ h₆ in
    let (ct, ct_read, h₈) = then_ok (b64d p (get_field "ct" envelope)) _ h₇ in
    record {
      dek = dek;
      nonce = record { raw = nonce; read = nonce_read };
      ct = record { raw = ct; read = ct_read };
      plaintext = plaintext;
      decrypted = opened_ok (p.decrypt dek nonce ct aad) plaintext h₈;
      parsed = parsed;
    }

-- Whatever the envelope is, a payload that `unseal` returns comes from an object whose `sender_kid`
-- is the pinned bundle's fingerprint; the bundle's Ed25519 key verifies `sig` over the envelope
-- without its signatures; where the bundle has an ML-DSA-65 key, that key verifies `sig_pq` as well,
-- so no envelope without it passes; and the payload is what the ciphertext decrypts to, with the
-- strategy, the idempotency key and the sender as associated data.
pub unseal-Authentic :
    (p : Primitives) (j : Json) (strategy_id : String) (client_signal_id : Text)
    (k : RecipientKeypair) (bundle : Fields) (payload : Json)
    → unseal p j strategy_id client_signal_id k bundle ≡ ok payload
    → (envelope : Fields) × (j ≡ obj envelope)
      × Authentic p envelope strategy_id client_signal_id bundle payload
unfolding unseal verify_sender
unseal-Authentic p (obj envelope) strategy_id client_signal_id k bundle payload h =
    let (_, sender_ok, h₁) = then_ok (verify_sender p bundle envelope) _ h in
    let (entries, _, h₂) = then_ok (recipients_of (get_field "recipients" envelope)) _ h₁ in
    let (own, _, h₃) =
      then_ok (found (find_own (recipient_fingerprint p k) entries) not_a_recipient) _ h₂ in
    let aad = aad_of p strategy_id client_signal_id (bundle_fingerprint p bundle) in
    let (plaintext, clear, h₄) = then_ok (open_entry p k aad envelope own) _ h₃ in
    let kid = get_field "sender_kid" envelope in
    let (_, _, g₁) =
      then_ok (demand (is_text "v1" (get_field "sealed" envelope)) unseal_error) _ sender_ok in
    let (alg, _, g₂) = then_ok (suite_of (get_field "alg" envelope)) _ g₁ in
    let same = is_text (bundle_fingerprint p bundle) kid in
    let (_, matches, g₃) = then_ok (demand same unseal_error) _ g₂ in
    let (_, _, g₄) = then_ok (demand (not (downgraded bundle alg envelope)) unseal_error) _ g₃ in
    let (classical, both) = check_signatures-Classical p bundle envelope g₄ in
    (
      envelope,
      refl,
      record {
        sender = is_text_ok (bundle_fingerprint p bundle) kid (demand_ok same unseal_error matches);
        classical = classical;
        both = both;
        opening =
            open_entry-Opening p k aad envelope own plaintext payload clear
              (found_ok (p.loads plaintext) value_error h₄);
      },
    )
unseal-Authentic p null strategy_id client_signal_id k bundle payload h = cc
unseal-Authentic p (bool b) strategy_id client_signal_id k bundle payload h = cc
unseal-Authentic p (int n) strategy_id client_signal_id k bundle payload h = cc
unseal-Authentic p (real r) strategy_id client_signal_id k bundle payload h = cc
unseal-Authentic p (str s) strategy_id client_signal_id k bundle payload h = cc
unseal-Authentic p (arr a) strategy_id client_signal_id k bundle payload h = cc
