-- ===== src/Tests/Keys.antt =====
-- Sealed mode's keys from the relay and from files, with the same stand-ins.
use mathlib.Core.List.{Memᴰ}
use multiedge_relay_python.Tests.Sealed.{
  plain, dual_sender, second_recipient, test_envelope, test_unsealer, test_received,
}
use multiedge_relay_python.Prelude.{
  String, Text, [], if◌then◌else◌, map, none, refl, some, ◌==◌, ◌↔◌, ◌∷◌, ◌≡◌, ◌≢◌,
}
use multiedge_relay_python.Sealed.Core.{b64d, suite_of}
use multiedge_relay_python.Sealed.KeyFiles.{recipient_document, sender_document}
use multiedge_relay_python.Sealed.Authentic.{Authentic}
use multiedge_relay_python.Prelude.Json.{
  Fields, arr, end, field, get_field, get_json, item, nil, obj, str,
}
use multiedge_relay_python.Sealed.Seal.{signed}
use multiedge_relay_python.Sealed.Pinned.{sealer_from_relay-pinned, unsealer_from_relay-pinned}
use multiedge_relay_python.Sealed.Primitives.{Primitives}
use multiedge_relay_python.Sealed.Registry.{
  fetch_verified_bundles, sealer_from_relay, unseal_signal, unsealer_from_relay,
}
use multiedge_relay_python.Models.{ReceivedSignal}
use multiedge_relay_python.Sealed.Unseal.{unseal}
use multiedge_relay_python.World.{Reply, response}
use multiedge_relay_python.Errors.{FilePath}
use multiedge_relay_python.Sealed.Keys.{
  bundle_fingerprint, recipient_bundle, recipient_fingerprint, sender_bundle, sender_fingerprint,
}

-- The relay's listing of one key.
abbrev keys_reply : String → Fields → Reply
keys_reply kid bundle = response (record {
  status = 200;
  text = "";
  json = some (
      obj (
        field "keys"
          (arr (item (obj (field "bundle" (obj bundle) (field "key_id" (str kid) end))) nil)) end));
  retry_after = none;
})

sealer_from_relay-pinned_example :
    (dual_sender ≡ dual_sender)
    × ((recipient_bundle plain second_recipient ∷ []) ≢ [])
    × ((t : String)
        → Memᴰ t (map (bundle_fingerprint plain) (recipient_bundle plain second_recipient ∷ []))
          ↔ Memᴰ t ("two" ∷ []))
unfolding sealer_from_relay fetch_verified_bundles bundle_fingerprint recipient_bundle
sealer_from_relay-pinned_example =
    sealer_from_relay-pinned plain ("two" ∷ []) dual_sender
      (keys_reply "two" (recipient_bundle plain second_recipient))
      (record { sender = dual_sender; recipients = recipient_bundle plain second_recipient ∷ [] })
      refl

abbrev sealed_received : ReceivedSignal
sealed_received = record test_received {
  strategy_id = "momentum";
  payload = obj test_envelope;
  client_signal_id = some (4 ∷ []);
}

unsealer_from_relay-pinned_example :
    (envelope : Fields) × (cid : Text) × (obj test_envelope ≡ obj envelope)
    × (some (4 ∷ []) ≡ some cid)
    × (get_field "sender_kid" envelope ≡ some (str "three"))
    × (bundle_fingerprint plain (sender_bundle plain dual_sender) ≡ "three")
    × Authentic plain envelope "momentum" cid (sender_bundle plain dual_sender) (str "payload")
unfolding unsealer_from_relay fetch_verified_bundles unseal_signal unseal bundle_fingerprint
    sender_bundle signed suite_of sender_fingerprint b64d recipient_bundle recipient_fingerprint
unsealer_from_relay-pinned_example =
    unsealer_from_relay-pinned plain "three" second_recipient
      (keys_reply "three" (sender_bundle plain dual_sender)) test_unsealer sealed_received
      (record sealed_received { payload = str "payload" }) refl refl

abbrev key_path : String → FilePath
key_path name = record { root = "home"; folder = "keys"; name = name }

-- A file's text tells a recipient's document from a sender's.
abbrev filed : Primitives
filed = record plain {
  dump_file = λ j. elim (get_json "x25519_priv" j) [ some k ↦ 1 ∷ [] | none ↦ 2 ∷ [] ];
  load_file = λ t. elim t [
    | n ∷ rest ↦
        if n == 1
        then some (obj (recipient_document plain second_recipient))
        else some (obj (sender_document plain dual_sender))
    | [] ↦ none
  ];
}
