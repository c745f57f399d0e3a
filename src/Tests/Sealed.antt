-- ===== src/Tests/Sealed.antt =====
-- Sealed mode with stand-ins for the cryptography that keep the laws.
use multiedge_relay_python.Tests.Base64.{decode, decode-encode, encode}
use multiedge_relay_python.Prelude.{
  Option, String, [], arith, length, none, refl, replicate, some, true, ◌==◌, ◌∷◌, ◌≡◌, ◌≢◌,
  if◌then◌else◌, eq_iff, false≢true, map,
}
use multiedge_relay_python.Sealed.Primitives.{Bytes, Laws, Primitives, opened}
use multiedge_relay_python.Sealed.Keys.{
  RecipientKeypair, SenderKeypair, bundle_fingerprint, canonical_json, recipient_bundle,
  recipient_fingerprint, sender_bundle, sender_fingerprint,
}
use multiedge_relay_python.Sealed.Entries.{ValidDraws, ValidRecipient, ValidSender}
use multiedge_relay_python.Prelude.Json.{
  Json, get_json, int, str, Fields, null, obj, Items, item, nil,
}
use multiedge_relay_python.Sealed.Seal.{Draws, entry_of, signed, unsigned_envelope}
use multiedge_relay_python.Prelude.Int.{pos}
use multiedge_relay_python.Sealed.Unseal.{unseal, open_entry, verify_sender}
use multiedge_relay_python.Sealed.Registry.{Sealer, Unsealer, seal_signal, unseal_signal}
use multiedge_relay_python.Models.{ReceivedSignal, Signal}
use multiedge_relay_python.Sealed.Signals.{relayed, seal_signal-unseal_signal}
use multiedge_relay_python.Exec.{ok}
use multiedge_relay_python.Sealed.Core.{aad_of, b64d, suite_of}
use multiedge_relay_python.Sealed.Authentic.{Authentic, unseal-Authentic}

-- Bundles differ by their `created_at`; there is one text.
abbrev stamp : Option Json → Bytes
stamp (some (int (pos n))) = n ∷ []
stamp _ = 0 ∷ []

abbrev name_of : Bytes → String
name_of (n ∷ []) =
    if n == 1 then "one" else if n == 2 then "two" else if n == 3 then "three" else "other"
name_of _ = "other"

abbrev pub plain : Primitives
plain = record {
  dumps = λ j. stamp (get_json "created_at" j);
  loads = λ b. some (str "payload");
  dump_file = λ j. stamp (get_json "mark" j);
  load_file = λ t. none;
  sha256 = λ b. b;
  hexdigest = name_of;
  utf8 = λ t. 9 ∷ [];
  utf8_codes = λ t. t;
  b64encode = encode;
  b64decode = decode;
  hkdf = λ info ikm. replicate 32 0;
  encrypt = λ key nonce content aad. content;
  decrypt = λ key nonce content aad. opened content;
  x25519_private = λ a. true;
  x25519_public = λ a. true;
  x25519_public_of = λ a. a;
  x25519_exchange = λ a b. some [];
  mlkem_seed = λ a. true;
  mlkem_public = λ a. true;
  mlkem_public_of = λ a. a;
  mlkem_encapsulate = λ a draw. ([], 4 ∷ []);
  mlkem_decapsulate = λ a b. some [];
  ed25519_private = λ a. true;
  ed25519_public = λ a. true;
  ed25519_public_of = λ a. a;
  ed25519_sign = λ a m. a;
  ed25519_verify = λ a sig m. length a == length sig;
  mldsa_seed = λ a. true;
  mldsa_public = λ a. true;
  mldsa_public_of = λ a. a;
  mldsa_sign = λ a draw m context. a;
  mldsa_verify = λ a sig m context. length a == length sig;
}

abbrev first_recipient : RecipientKeypair
first_recipient = record { x25519 = 5 ∷ []; mlkem = 6 ∷ []; created_at = int (pos 1) }

abbrev pub second_recipient : RecipientKeypair
second_recipient = record { x25519 = 7 ∷ []; mlkem = 8 ∷ []; created_at = int (pos 2) }

abbrev pub dual_sender : SenderKeypair
dual_sender = record { ed25519 = 1 ∷ []; mldsa = some (2 ∷ 3 ∷ []); created_at = int (pos 3) }

same_length : (a : Bytes) → (length a == length a) ≡ true
same_length a = ground arith

pub plain-Laws : Laws plain
plain-Laws = record {
  b64 = decode-encode;
  hkdf_length = λ info ikm. refl;
  aead = λ key nonce content aad h g. refl;
  x25519_own = λ a h. refl;
  x25519_agree = λ a b h g. ([], refl, refl);
  mlkem_own = λ a h. refl;
  mlkem_agree = λ a draw h. refl;
  ed25519_own = λ a h. refl;
  ed25519_signed = λ a m h. same_length a;
  mldsa_own = λ a h. refl;
  mldsa_signed = λ a draw m context h. same_length a;
}

abbrev test_draws : Draws
test_draws = record {
  dek = replicate 32 1;
  nonce = replicate 12 2;
  ephemeral = 3 ∷ [];
  encapsulation = λ n. n ∷ [];
  signature = [];
}

test_draws-ValidDraws : ValidDraws plain test_draws
test_draws-ValidDraws = record { dek = refl; nonce = refl; ephemeral = refl }

dual_sender-ValidSender : ValidSender plain dual_sender
dual_sender-ValidSender = record { ed25519 = refl; mldsa = λ seed h. refl }

valid_recipient : (k : RecipientKeypair) → ValidRecipient plain k
valid_recipient k = record { x25519 = refl; mlkem = refl }

apart : recipient_fingerprint plain first_recipient ≢ recipient_fingerprint plain second_recipient
unfolding recipient_fingerprint bundle_fingerprint recipient_bundle canonical_json
apart e = false≢true ((eq_iff "one" "two").1 e)

abbrev test_signal : Signal
test_signal = record {
  strategy_id = "momentum";
  payload = str "payload";
  client_signal_id = some (4 ∷ []);
  schema_version = none;
  published_at = none;
  expires_at = none;
  correlation_id = none;
}

abbrev pub test_received : ReceivedSignal
test_received = record {
  sequence = 7;
  signal_id = "s7";
  strategy_id = "other";
  published_at = 1;
  payload = null;
  client_signal_id = none;
  correlation_id = none;
}

abbrev test_sealer : Sealer
test_sealer = record {
  sender = dual_sender;
  recipients = map (recipient_bundle plain) (first_recipient ∷ second_recipient ∷ []);
}

abbrev pub test_unsealer : Unsealer
test_unsealer = record {
  recipient = second_recipient;
  sender_bundle = sender_bundle plain dual_sender;
}

seal_signal-unseal_signal_example :
    (envelope : Fields) × (seal_signal plain test_draws test_sealer test_signal
      ≡ ok (record test_signal { payload = obj envelope }))
    × (unseal_signal plain test_unsealer
          (relayed (record test_signal { payload = obj envelope }) test_received)
        ≡ ok (record (relayed test_signal test_received) { payload = str "payload" }))
seal_signal-unseal_signal_example =
    seal_signal-unseal_signal plain plain-Laws test_draws test_draws-ValidDraws dual_sender
      dual_sender-ValidSender (first_recipient ∷ []) [] second_recipient
      (valid_recipient first_recipient, tt) (valid_recipient second_recipient) tt (apart, tt)
      test_signal test_received 4 [] (str "payload") refl refl

-- An envelope for the second recipient alone.
abbrev test_aad : Bytes
test_aad = aad_of plain "momentum" (4 ∷ []) (sender_fingerprint plain dual_sender)

abbrev test_entries : Items
test_entries =
    item
      (obj (
        entry_of plain test_draws test_aad (recipient_bundle plain second_recipient) 0 []
          second_recipient.mlkem))
      nil

abbrev pub test_envelope : Fields
test_envelope = signed plain test_draws dual_sender (
    unsigned_envelope plain test_draws (str "payload") "momentum" (4 ∷ []) dual_sender test_entries)

test_unsealed :
    unseal plain
      (obj test_envelope)
      "momentum"
      (4 ∷ [])
      second_recipient
      (sender_bundle plain dual_sender)
    ≡ ok (str "payload")
unfolding unseal signed verify_sender open_entry suite_of sender_fingerprint bundle_fingerprint
    sender_bundle b64d recipient_bundle recipient_fingerprint
test_unsealed = refl

unseal-Authentic_example :
    (envelope : Fields) × (obj test_envelope ≡ obj envelope)
    × Authentic plain envelope "momentum" (4 ∷ []) (sender_bundle plain dual_sender) (str "payload")
unseal-Authentic_example =
    unseal-Authentic plain (obj test_envelope) "momentum" (4 ∷ []) second_recipient
      (sender_bundle plain dual_sender) (str "payload") test_unsealed
