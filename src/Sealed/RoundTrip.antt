-- ===== src/Sealed/RoundTrip.antt =====
-- A listed recipient opens what the pinned sender has sealed.
use multiedge_relay_python.Prelude.{
  All, List, String, Text, [], map, refl, some, ◌++◌, ◌∷◌, ◌≡◌, ◌≢◌,
}
use multiedge_relay_python.Sealed.Entries.{
  ValidDraws, ValidRecipient, ValidSender, open_entry-own, own_sealed,
}
use multiedge_relay_python.Prelude.Json.{Fields, Items, Json, arr, get_field, obj}
use multiedge_relay_python.Sealed.Unseal.{
  find_own, open_entry, recipients_of, unseal, verify_sender,
}
use multiedge_relay_python.Sealed.Keys.{
  RecipientKeypair, SenderKeypair, bundle_fingerprint, canonical_json, recipient_bundle,
  recipient_fingerprint, sender_bundle, sender_fingerprint,
}
use multiedge_relay_python.Sealed.Primitives.{Bytes, Laws, Primitives}
use multiedge_relay_python.Sealed.Seal.{Draws, seal, seal_entries, signed, unsigned_envelope}
use multiedge_relay_python.Sealed.Signed.{envelope_of, signed-kept, verify_sender-signed}
use multiedge_relay_python.Exec.{ok}
use multiedge_relay_python.Sealed.Core.{aad_of}

listed-some :
    (p : Primitives) (before after : List RecipientKeypair) (k : RecipientKeypair)
    → map (recipient_bundle p) (before ++ k ∷ after) ≢ []
listed-some p [] after k = λ e. cc
listed-some p (j ∷ before) after k = λ e. cc

-- With an entry for each bundle, `seal` returns the signed envelope.
seal-signed :
    (p : Primitives) (d : Draws) (payload : Json) (strategy_id : String) (client_signal_id : Text)
    (bundles : List Fields) (sender : SenderKeypair) (entries : Items)
    → bundles ≢ []
    → seal_entries p d
        (aad_of p strategy_id client_signal_id (sender_fingerprint p sender))
        bundles
        0
      ≡ ok entries
    → seal p d payload strategy_id client_signal_id bundles sender
      ≡ ok (
          signed p d sender
            (unsigned_envelope p d payload strategy_id client_signal_id sender entries))
unfolding seal
seal-signed p d payload strategy_id client_signal_id [] sender entries some_one all_of =
    elim (some_one refl) [ ]
seal-signed p d payload strategy_id client_signal_id (b ∷ bundles) sender entries some_one all_of =
    rw all_of refl

-- With every check passed, `unseal` returns the plaintext.
unseal-passed :
    (p : Primitives) (envelope : Fields) (strategy_id : String) (client_signal_id : Text)
    (k : RecipientKeypair) (bundle : Fields) (entries : Items) (own : Fields) (plaintext : Bytes)
    (back : Json)
    → verify_sender p bundle envelope ≡ ok tt
    → get_field "recipients" envelope ≡ some (arr entries)
    → find_own (recipient_fingerprint p k) entries ≡ some own
    → open_entry p k
        (aad_of p strategy_id client_signal_id (bundle_fingerprint p bundle))
        envelope
        own
      ≡ ok plaintext
    → p.loads plaintext ≡ some back
    → unseal p (obj envelope) strategy_id client_signal_id k bundle ≡ ok back
unfolding unseal recipients_of
unseal-passed p envelope strategy_id client_signal_id k bundle entries own plaintext back verified
      listed mine clear read_back =
    rw (verified, listed, mine, clear, read_back) refl

-- A valid dual or classical sender seals to the bundles of valid recipients, of which none before
-- `k` has its fingerprint: sealing returns an envelope, and unsealing it with `k`'s keys, the sender's
-- bundle and the same identities returns what `json` reads back from the payload's canonical bytes.
pub seal-unseal :
    (p : Primitives) (laws : Laws p) (d : Draws) (fresh : ValidDraws p d) (sender : SenderKeypair)
    (sound : ValidSender p sender) (before after : List RecipientKeypair) (k : RecipientKeypair)
    → All (ValidRecipient p) before
    → ValidRecipient p k
    → All (ValidRecipient p) after
    → All (λ j. recipient_fingerprint p j ≢ recipient_fingerprint p k) before
    → (payload back : Json) (strategy_id : String) (client_signal_id : Text)
    → p.loads (canonical_json p payload) ≡ some back
    → (envelope : Fields) × (seal p d payload strategy_id client_signal_id
          (map (recipient_bundle p) (before ++ k ∷ after))
          sender
        ≡ ok envelope)
      × (unseal p (obj envelope) strategy_id client_signal_id k (sender_bundle p sender) ≡ ok back)
unfolding signed sender_fingerprint
seal-unseal p laws d fresh sender sound before after k hb valid ha apart payload back strategy_id
      client_signal_id read_back =
    let aad = aad_of p strategy_id client_signal_id (sender_fingerprint p sender) in
    let (secret, agreed, met) =
      laws.x25519_agree d.ephemeral k.x25519 fresh.ephemeral valid.x25519 in
    let (entries, m, sealed_all, own) =
      own_sealed p laws d fresh aad k valid secret agreed before after 0 hb ha apart in
    let envelope = envelope_of p laws d payload strategy_id client_signal_id entries sender in
    let aside : (key : String) (j : Json)
        → get_field key (unsigned_envelope p d payload strategy_id client_signal_id sender entries)
          ≡ some j
        → get_field key envelope ≡ some j =
      λ key j h. signed-kept p d sender _ key j h in
    (
      envelope,
      seal-signed p d payload strategy_id client_signal_id
          (map (recipient_bundle p) (before ++ k ∷ after)) sender entries
          (listed-some p before after k) sealed_all,
      unseal-passed p envelope strategy_id client_signal_id k (sender_bundle p sender) entries _
          (canonical_json p payload) back
          (verify_sender-signed p laws d payload strategy_id client_signal_id entries sender.ed25519
            sender.mldsa sender.created_at sound)
          (aside "recipients" (arr entries) refl) own
          (open_entry-own p laws d fresh payload aad k valid m secret agreed envelope met
            (aside "nonce" _ refl) (aside "ct" _ refl))
          read_back,
    )
