-- ===== src/Sealed/Signed.antt =====
-- The signed envelope passes the checks that come before the decryption.
use multiedge_relay_python.Prelude.{
  Bool-cases, Option, String, Text, inl, inr, none, refl, some, str_eq, ◌++◌, ◌≡◌,
}
use multiedge_relay_python.Prelude.Json.{Fields, Items, Json, end, field, get_field, str}
use multiedge_relay_python.Sealed.Keys.{
  SenderKeypair, mldsa_field, sender_bundle, sender_fingerprint,
}
use multiedge_relay_python.Sealed.Core.{b64d, domain, is_suite, signature_input, suite_of, unsigned}
use multiedge_relay_python.Sealed.Entries.{ValidSender, is_text_same}
use multiedge_relay_python.Sealed.Primitives.{Bytes, Laws, Primitives}
use multiedge_relay_python.Sealed.Seal.{Draws, add_field, sign_pq_field, signed, unsigned_envelope}
use multiedge_relay_python.Sealed.Unseal.{check_pq, check_signatures, downgraded, verify_sender}
use multiedge_relay_python.Exec.{ok}

add_field-kept :
    (key k : String) (j v : Json) (fields : Fields)
    → get_field key fields ≡ some j
    → get_field key (add_field k v fields) ≡ some j
add_field-kept key k j v end h = cc
add_field-kept key k j v (field l w rest) h = elim (Bool-cases (str_eq l key)) [
  | inl here ↦ rw here (cc (h, here))
  | inr there ↦ rw there (add_field-kept key k j v rest (cc (h, there)))
]

pq-kept :
    (p : Primitives) (d : Draws) (mldsa : Option Bytes) (digest : Bytes) (key : String) (j v : Json)
    (fields : Fields)
    → get_field key fields ≡ some j
    → get_field key (sign_pq_field p d mldsa digest (add_field "sig" v fields)) ≡ some j
pq-kept p d none digest key j v fields h = add_field-kept key "sig" j v fields h
pq-kept p d (some seed) digest key j v fields h =
    add_field-kept key "sig_pq" j _ (add_field "sig" v fields)
      (add_field-kept key "sig" j v fields h)

-- The signatures leave the other fields.
pub signed-kept :
    (p : Primitives) (d : Draws) (s : SenderKeypair) (fields : Fields) (key : String) (j : Json)
    → get_field key fields ≡ some j
    → get_field key (signed p d s fields) ≡ some j
unfolding signed
signed-kept p d s fields key j h =
    pq-kept p d s.mldsa (signature_input p fields) key j
      (str (p.b64encode (p.ed25519_sign s.ed25519 (domain p ++ signature_input p fields)))) fields h

module _ (p : Primitives) (laws : Laws p) (d : Draws) where
  module _ (payload : Json) (strategy_id : String) (client_signal_id : Text) (entries : Items) where
    abbrev pub envelope_of : SenderKeypair → Fields
    envelope_of s =
        signed p d s (unsigned_envelope p d payload strategy_id client_signal_id s entries)

    pub verify_sender-signed :
        (ed25519 : Bytes) (mldsa : Option Bytes) (created_at : Json)
        → let s : SenderKeypair = record {
          ed25519 = ed25519;
          mldsa = mldsa;
          created_at = created_at;
        } in
          ValidSender p s → verify_sender p (sender_bundle p s) (envelope_of s) ≡ ok tt
    unfolding signed verify_sender check_signatures check_pq downgraded sender_bundle
        signature_input unsigned suite_of is_suite b64d sender_fingerprint mldsa_field
    verify_sender-signed ed25519 none created_at valid =
        let s : SenderKeypair = record {
          ed25519 = ed25519;
          mldsa = none;
          created_at = created_at;
        } in
        let digest = signature_input p (envelope_of s) in
        rw
          (
            is_text_same (sender_fingerprint p s),
            laws.b64 (p.ed25519_public_of ed25519),
            laws.ed25519_own ed25519 valid.ed25519,
            laws.b64 (p.ed25519_sign ed25519 (domain p ++ digest)),
            laws.ed25519_signed ed25519 (domain p ++ digest) valid.ed25519,
          )
          refl
    verify_sender-signed ed25519 (some seed) created_at valid =
        let s : SenderKeypair = record {
          ed25519 = ed25519;
          mldsa = some seed;
          created_at = created_at;
        } in
        let digest = signature_input p (envelope_of s) in
        let dual_sig = p.mldsa_sign seed d.signature digest (domain p) in
        rw
          (
            is_text_same (sender_fingerprint p s),
            laws.b64 (p.ed25519_public_of ed25519),
            laws.ed25519_own ed25519 valid.ed25519,
            laws.b64 (p.ed25519_sign ed25519 (domain p ++ digest)),
            laws.ed25519_signed ed25519 (domain p ++ digest) valid.ed25519,
            laws.b64 (p.mldsa_public_of seed),
            laws.mldsa_own seed (valid.mldsa seed refl),
            laws.b64 dual_sig,
            laws.mldsa_signed seed d.signature digest (domain p) (valid.mldsa seed refl),
          )
          refl
