-- ===== src/Sealed/Registry.antt =====
-- src/multiedge_relay/sealed/registry.py: the registration and the fetching of bundles, `Sealer` and
-- `Unsealer`. What the relay answers to the one request of each is an argument.
use multiedge_relay_python.Prelude.{
  Bool, List, Option, String, Text, [], false, if◌then◌else◌, map, none, some, str_eq, true, ◌&&◌,
  ◌==◌, ◌||◌, ◌∷◌,
}
use multiedge_relay_python.Exec.Outcome.{◌>>=◌, ◌>>◌, demand}
use multiedge_relay_python.Prelude.Json.{
  Fields, Items, Json, arr, end, field, get_field, item, nil, obj, str,
}
use multiedge_relay_python.Errors.{
  attribute_error, http_error, key_pinning_error, sealed_error, sealed_key_error, type_error,
  unseal_error, value_error,
}
use multiedge_relay_python.Exec.{Result, ok, raised}
use multiedge_relay_python.Models.{ReceivedSignal, Signal}
use multiedge_relay_python.Sealed.Keys.{
  RecipientKeypair, SenderKeypair, bundle_fingerprint, recipient_bundle, recipient_fingerprint,
  sender_fingerprint, sender_bundle,
}
use multiedge_relay_python.World.{Reply, response, transport_error}
use multiedge_relay_python.Sealed.Unseal.{unseal}
use Prim.Native.String.{◌++◌}
use multiedge_relay_python.Sealed.Core.{is_text}
use multiedge_relay_python.Sealed.Seal.{Draws, seal}
use multiedge_relay_python.Sealed.Primitives.{Primitives}

-- One round of `for entry in ...get("keys", [])`.
unfoldable pub hashed_bundle : Primitives → Option Json → Option Json → Result Fields
hashed_bundle p (some (obj bundle)) key_id = do
  demand (is_text (bundle_fingerprint p bundle) key_id) sealed_key_error
  ok bundle
hashed_bundle p _ key_id = raised sealed_key_error

unfoldable pub verified_bundle : Primitives → Json → Result Fields
unfolding hashed_bundle
verified_bundle p (obj row) = hashed_bundle p (get_field "bundle" row) (get_field "key_id" row)
verified_bundle p _ = raised attribute_error

unfoldable pub verified_bundles : Primitives → Items → Result (List Fields)
unfolding verified_bundle
verified_bundles p nil = ok []
verified_bundles p (item row rows) = do
  bundle ← verified_bundle p row
  bundles ← verified_bundles p rows
  ok (bundle ∷ bundles)

unfoldable pub keys_of : Primitives → Option Json → Result (List Fields)
unfolding verified_bundles
keys_of p none = ok []
keys_of p (some (arr rows)) = verified_bundles p rows
keys_of p (some (str s)) = if str_eq s "" then ok [] else raised attribute_error
keys_of p (some (obj end)) = ok []
keys_of p (some (obj _)) = raised attribute_error
keys_of p (some _) = raised type_error

unfoldable pub listing : Primitives → Option Json → Result (List Fields)
unfolding keys_of
listing p none = raised value_error
listing p (some (obj fields)) = keys_of p (get_field "keys" fields)
listing p (some _) = raised attribute_error

-- `_fetch_verified_bundles`
unfoldable pub fetch_verified_bundles : Primitives → Reply → Result (List Fields)
unfolding listing
fetch_verified_bundles p (transport_error reason) = raised (http_error reason)
fetch_verified_bundles p (response r) = do
  demand (r.status == 200) sealed_key_error
  listing p r.json

-- What `register_recipient_key` and `register_sender_key` send, and how they end.
pub record Registration : Type 0 where
  pub path : String
  pub body : Json

abbrev registration_body : String → Fields → Json
registration_body kid bundle = obj (field "bundle" (obj bundle) (field "key_id" (str kid) end))

pub recipient_registration : Primitives → String → RecipientKeypair → Registration
recipient_registration p client_id k = record {
  path = "/v1/clients/" ++ client_id ++ "/sealed-keys";
  body = registration_body (recipient_fingerprint p k) (recipient_bundle p k);
}

pub sender_registration : Primitives → String → SenderKeypair → Registration
sender_registration p strategy_id k = record {
  path = "/v1/strategies/" ++ strategy_id ++ "/sealed-keys/sender";
  body = registration_body (sender_fingerprint p k) (sender_bundle p k);
}

pub registered : Reply → Result (Unit {0})
registered (transport_error reason) = raised (http_error reason)
registered (response r) = demand (r.status == 200 || r.status == 201) sealed_key_error

pub record Sealer : Type 0 where
  pub sender : SenderKeypair
  pub recipients : List Fields

unfoldable pub new_sealer : SenderKeypair → List Fields → Result Sealer
new_sealer sender [] = raised sealed_error
new_sealer sender (bundle ∷ bundles) =
    ok (record { sender = sender; recipients = bundle ∷ bundles })

abbrev pub contains : String → List String → Bool
contains t [] = false
contains t (s ∷ ss) = str_eq s t || contains t ss

abbrev pub includes : List String → List String → Bool
includes ss [] = true
includes ss (t ∷ ts) = contains t ss && includes ss ts

-- `fetched == pinned_recipients`, of sets.
unfoldable pub same_set : List String → List String → Bool
same_set ss ts = includes ss ts && includes ts ss

unfoldable pub check_pins : Option (List String) → List String → Result (Unit {0})
unfolding same_set
check_pins none fetched = ok tt
check_pins (some pins) fetched = demand (same_set fetched pins) key_pinning_error

-- `Sealer.from_relay`
unfoldable pub sealer_from_relay :
    Primitives → Option (List String) → SenderKeypair → Reply → Result Sealer
unfolding fetch_verified_bundles check_pins new_sealer
sealer_from_relay p pins sender reply = do
  bundles ← fetch_verified_bundles p reply
  check_pins pins (map (bundle_fingerprint p) bundles)
  new_sealer sender bundles

-- `Sealer.seal_signal`; an empty key counts as none.
unfoldable pub seal_named : Primitives → Draws → Sealer → Signal → Option Text → Result Signal
unfolding seal
seal_named p d sealer signal none = raised sealed_error
seal_named p d sealer signal (some []) = raised sealed_error
seal_named p d sealer signal (some (c ∷ cs)) = do
  envelope ← seal p d signal.payload signal.strategy_id (c ∷ cs) sealer.recipients sealer.sender
  ok (record signal { payload = obj envelope })

unfoldable pub seal_signal : Primitives → Draws → Sealer → Signal → Result Signal
unfolding seal_named
seal_signal p d sealer signal = seal_named p d sealer signal signal.client_signal_id

pub record Unsealer : Type 0 where
  pub recipient : RecipientKeypair
  pub sender_bundle : Fields

unfoldable pub check_pin : Primitives → Option String → Fields → Result (Unit {0})
check_pin p none newest = ok tt
check_pin p (some pin) newest = demand (str_eq (bundle_fingerprint p newest) pin) key_pinning_error

unfoldable pub newest_of : List Fields → Result Fields
newest_of [] = raised sealed_key_error
newest_of (newest ∷ older) = ok newest

-- `Unsealer.from_relay`
unfoldable pub unsealer_from_relay :
    Primitives → Option String → RecipientKeypair → Reply → Result Unsealer
unfolding fetch_verified_bundles check_pin newest_of
unsealer_from_relay p pin recipient reply = do
  bundles ← fetch_verified_bundles p reply
  newest ← newest_of bundles
  check_pin p pin newest
  ok (record { recipient = recipient; sender_bundle = newest })

unfoldable pub unseal_named :
    Primitives → Unsealer → ReceivedSignal → Option Text → Result ReceivedSignal
unfolding unseal
unseal_named p u received none = raised unseal_error
unseal_named p u received (some []) = raised unseal_error
unseal_named p u received (some (c ∷ cs)) = do
  plaintext ← unseal p received.payload received.strategy_id (c ∷ cs) u.recipient u.sender_bundle
  ok (record received { payload = plaintext })

-- `Unsealer.unseal_signal`
unfoldable pub unseal_signal : Primitives → Unsealer → ReceivedSignal → Result ReceivedSignal
unfolding unseal_named
unseal_signal p u received = unseal_named p u received received.client_signal_id
