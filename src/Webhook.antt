-- ===== src/Webhook.antt =====
-- src/multiedge_relay/webhook.py: the checks on a webhook request and on a Web PubSub frame, before
-- its body is read. Base64, HMAC-SHA256, the comparison of digests, `datetime` and `json` are
-- parameters. A body is its bytes; seconds are integers.
pub mod Order
use multiedge_relay_python.Prelude.{
  ℕ, Bool, List, Option, String, Text, [], if◌then◌else◌, length, ltb, none, not, some, str_eq,
  ◌++◌, ◌==◌, ◌∷◌,
}
use multiedge_relay_python.Exec.{Result, ok, raised, unfinished}
use multiedge_relay_python.Errors.{
  signature_verification, type_error, unseal_error, validation_error, value_error,
}
use multiedge_relay_python.Prelude.Json.{Fields, Json, get_field, int, obj, str}
use multiedge_relay_python.Models.{ReceivedSignal}
use multiedge_relay_python.Prelude.Int.{ℤ}

-- What the libraries make of a request.
pub record Crypto : Type 0 where
  -- `base64.b64decode(secret, validate=True)`, where `none` is its error
  pub decode : String → Option Text
  -- `secret.encode()`
  pub encoded : String → Text
  -- `f"{timestamp}.".encode()`
  pub prefix : ℤ → Text
  -- `hmac.new(key, message, hashlib.sha256).hexdigest()`
  pub digest : Text → Text → String
  -- whether a text has ASCII characters only, which `hmac.compare_digest` demands
  pub is_ascii : String → Bool
  -- `abs(now - datetime.fromtimestamp(timestamp))`, where `none` is the error of a timestamp that
  -- no `datetime` has
  pub age : ℕ → ℤ → Option ℕ
  pub int_of : String → Option ℤ
  pub lower : String → String
  -- `signature_header.removeprefix("sha256=")`, where `none` has no such prefix
  pub after_prefix : String → Option String
  -- `ReceivedSignal.model_validate_json`
  pub signal_of : Text → Option ReceivedSignal
  pub parse : Text → Option Json

pub record Guard : Type 0 where
  pub secret : String
  pub max_age : ℕ
  pub now : ℕ
  -- `unsealer.unseal_signal`, where `none` is an `UnsealError`
  pub unsealer : Option (ReceivedSignal → Option ReceivedSignal)

-- One request after another: `value >>= next`, of results.
abbrev pub then_result {ℓ} : {A B : Type ℓ} → Result A → (A → Result B) → Result B
then_result (ok a) k = k a
then_result (raised e) k = raised e
then_result unfinished k = unfinished

key_or_text : Text → Option Text → Text
key_or_text plain none = plain
key_or_text plain (some decoded) = if length decoded == 32 then decoded else plain

pub resolve_hmac_key : Crypto → String → Text
unfolding key_or_text
resolve_hmac_key c secret = key_or_text (c.encoded secret) (c.decode secret)

pub within : ℕ → Option ℕ → Result (Unit {0})
within max_age none = raised value_error
within max_age (some age) =
    if ltb max_age age then raised (signature_verification "timestamp outside tolerance") else ok tt

unfoldable pub check_freshness : Crypto → Guard → ℤ → Result (Unit {0})
unfolding within
check_freshness c g timestamp = within g.max_age (c.age g.now timestamp)

unfoldable pub expected : Crypto → Guard → ℤ → Text → String
expected c g timestamp body = c.digest (resolve_hmac_key c g.secret) (c.prefix timestamp ++ body)

-- `compare_digest` raises `TypeError` on a text that is not ASCII.
pub check_digest : Crypto → Guard → ℤ → Text → String → Result (Unit {0})
check_digest c g timestamp body claimed =
    if not (c.is_ascii claimed)
    then raised type_error
    else if str_eq (expected c g timestamp body) claimed
    then ok tt
    else raised (signature_verification "signature mismatch")

pub open_with :
    Option (ReceivedSignal → Option ReceivedSignal) → ReceivedSignal → Result ReceivedSignal
open_with none r = ok r
open_with (some unseal) r = elim (unseal r) [ none ↦ raised unseal_error | some plain ↦ ok plain ]

validated_body : Option ReceivedSignal → Result ReceivedSignal
validated_body none = raised validation_error
validated_body (some r) = ok r

-- What both entry points do from the timestamp on.
unfoldable pub accept : Crypto → Guard → ℤ → Text → String → Result ReceivedSignal
unfolding open_with validated_body check_freshness check_digest
accept c g timestamp body claimed = then_result (check_freshness c g timestamp) (λ _.
    then_result (check_digest c g timestamp body claimed)
      (λ _. then_result (validated_body (c.signal_of body)) (open_with g.unsealer)))

abbrev refusal : {A : Type 0} → String → Result A
refusal reason = raised (signature_verification reason)

required : Option String → String → Result String
required none reason = refusal reason
required (some value) reason = ok value

read_timestamp : Option ℤ → Result ℤ
read_timestamp none = refusal "malformed timestamp header"
read_timestamp (some n) = ok n

-- `lowered.get(name)`: of two headers that differ only in case the later one counts.
unfoldable pub header_of : Crypto → String → List (String × String) → Option String
header_of c name [] = none
header_of c name ((k, v) ∷ headers) =
    let rest = header_of c name headers in
    elim rest [ some later ↦ some later | none ↦ if str_eq (c.lower k) name then some v else none ]

unfoldable pub verify_signature :
    Crypto → Guard → Text → List (String × String) → Result ReceivedSignal
unfolding required read_timestamp
verify_signature c g raw_body headers =
    then_result (required (header_of c "x-multiedge-signature" headers) "missing signature header")
      (λ signature.
        then_result
          (required (header_of c "x-multiedge-timestamp" headers) "missing timestamp header")
          (λ stamp.
            then_result (required (c.after_prefix signature) "malformed signature header")
              (λ claimed.
                then_result (read_timestamp (c.int_of stamp))
                  (λ timestamp. accept c g timestamp raw_body claimed))))

-- `str | bytes | bytearray`, or a mapping that the client has parsed.
pub data Frame : Type 0 where
  text : Text → Frame
  mapping : Fields → Frame

object_of : Option Json → Result Fields
object_of none = refusal "malformed ws frame: not valid JSON"
object_of (some (obj fields)) = ok fields
object_of (some _) = refusal "malformed ws frame: expected a JSON object"

pub fields_of : Crypto → Frame → Result Fields
unfolding object_of
fields_of c (text t) = object_of (c.parse t)
fields_of c (mapping fields) = ok fields

signed_parts : Crypto → Guard → Option Json → Option Json → Option Json → Result ReceivedSignal
signed_parts c g (some (str envelope)) (some (str signature)) (some (int timestamp)) =
    accept c g timestamp (c.encoded envelope) signature
signed_parts c g _ _ _ = refusal "malformed ws frame: expected envelope, signature and timestamp"

unfoldable pub verify_ws_frame : Crypto → Guard → Frame → Result ReceivedSignal
unfolding fields_of signed_parts
verify_ws_frame c g frame = then_result (fields_of c frame) (λ fields.
    signed_parts c g (get_field "envelope" fields) (get_field "signature" fields)
      (get_field "timestamp" fields))
