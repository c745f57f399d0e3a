-- ===== src/Sealed/Core.antt =====
-- src/multiedge_relay/sealed/core.py: what `seal` and `unseal` share.
use multiedge_relay_python.Prelude.{
  ℕ, Bool, Option, String, Text, false, if◌then◌else◌, replicate, some, str_eq, suc, ◌&&◌, ◌++◌,
  ◌==◌, ◌||◌, ◌∷◌,
}
use multiedge_relay_python.Prelude.Json.{Fields, Json, end, field, get_field, obj, str}
use multiedge_relay_python.Exec.{Result, ok, raised}
use multiedge_relay_python.Sealed.Keys.{canonical_json}
use multiedge_relay_python.Errors.{unseal_error}
use multiedge_relay_python.Exec.Outcome.{found}
use multiedge_relay_python.Sealed.Primitives.{Bytes, Primitives}

abbrev pub domain : Primitives → Bytes
domain p = p.utf8 "multiedge-sealed-v1"

abbrev pub zero_nonce : Bytes
zero_nonce = replicate 12 0

-- `_ALG_DUAL` and `_ALG_CLASSICAL`
abbrev pub alg_of : Bool → Fields
alg_of is_dual = field "aead" (str "chacha20poly1305") (
    field "kem" (str "x25519-mlkem768") (
      field "kdf" (str "hkdf-sha256")
        (field "sig" (str (if is_dual then "ed25519+mldsa65" else "ed25519")) end)))

-- `value == text`, where a missing key is `None`.
abbrev pub is_text : String → Option Json → Bool
is_text t (some (str s)) = str_eq s t
is_text t _ = false

abbrev size : Fields → ℕ
size end = 0
size (field k v rest) = suc (size rest)

-- Equality of a parsed object with one of the two suites.
unfoldable pub is_suite : String → Fields → Bool
is_suite signature fields =
    size fields == 4
    && (is_text "chacha20poly1305" (get_field "aead" fields)
        && (is_text "x25519-mlkem768" (get_field "kem" fields)
            && (is_text "hkdf-sha256" (get_field "kdf" fields)
                && is_text signature (get_field "sig" fields))))

-- `alg in (_ALG_DUAL, _ALG_CLASSICAL)`
unfoldable pub suite_of : Option Json → Result Fields
unfolding is_suite
suite_of (some (obj fields)) =
    if is_suite "ed25519+mldsa65" fields || is_suite "ed25519" fields
    then ok fields
    else raised unseal_error
suite_of _ = raised unseal_error

-- `_b64d`. A missing key of a bundle is a `KeyError` there, which ends in the same error.
unfoldable pub b64d : Primitives → Option Json → Result Bytes
b64d p (some (str t)) = found (p.b64decode t) unseal_error
b64d p _ = raised unseal_error

-- `_aad`
pub aad_of : Primitives → String → Text → String → Bytes
aad_of p strategy_id client_signal_id sender_kid =
    domain p ++ 0 ∷ p.utf8 strategy_id ++ 0 ∷ p.utf8_codes client_signal_id ++ 0 ∷ p.utf8 sender_kid

-- `_kek`
unfoldable pub kek_of : Primitives → Bytes → Bytes → Bytes → Bytes → String → Bytes → Bytes
kek_of p ss_x25519 ss_mlkem epk kem_ct kid aad =
    p.hkdf (p.utf8 "multiedge-sealed-v1-kek" ++ p.sha256 (epk ++ kem_ct ++ p.utf8 kid ++ aad))
      (ss_x25519 ++ ss_mlkem)

unfoldable pub unsigned : Fields → Fields
unsigned end = end
unsigned (field k v rest) =
    let kept = unsigned rest in if str_eq k "sig" || str_eq k "sig_pq" then kept else field k v kept

-- `_signature_input`
unfoldable pub signature_input : Primitives → Fields → Bytes
unfolding unsigned
signature_input p envelope = p.sha256 (canonical_json p (obj (unsigned envelope)))
