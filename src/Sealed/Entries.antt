-- ===== src/Sealed/Entries.antt =====
-- A recipient's entry: `seal` writes one for each valid bundle, and its owner opens it.
use multiedge_relay_python.Prelude.{
  ℕ, All, List, String, [], arith, eq_iff, false, length, map, refl, some, suc, true, ◌++◌, ◌∷◌,
  ◌≡◌, ◌≢◌,
}
use multiedge_relay_python.Prelude.Json.{Fields, Items, Json, get_field, item, nil, obj, str}
use multiedge_relay_python.Sealed.Unseal.{find_own, open_entry, opened_result}
use multiedge_relay_python.Sealed.Seal.{Draws, entry_of, seal_entries, seal_entry}
use multiedge_relay_python.Sealed.Primitives.{Bytes, Laws, Primitives}
use multiedge_relay_python.Sealed.Keys.{
  RecipientKeypair, SenderKeypair, canonical_json, recipient_bundle, recipient_fingerprint,
}
use multiedge_relay_python.Sealed.Core.{b64d, is_text, kek_of, zero_nonce}
use multiedge_relay_python.Exec.{ok}

-- Key material that the libraries take.
pub record ValidRecipient (p : Primitives) (k : RecipientKeypair) : Type 0 where
  pub x25519 : p.x25519_private k.x25519 ≡ true
  pub mlkem : p.mlkem_seed k.mlkem ≡ true

pub record ValidDraws (p : Primitives) (d : Draws) : Type 0 where
  pub dek : length d.dek ≡ 32
  pub nonce : length d.nonce ≡ 12
  pub ephemeral : p.x25519_private d.ephemeral ≡ true

pub record ValidSender (p : Primitives) (s : SenderKeypair) : Type 0 where
  pub ed25519 : p.ed25519_private s.ed25519 ≡ true
  pub mldsa : (seed : Bytes) → s.mldsa ≡ some seed → p.mldsa_seed seed ≡ true

pub is_text_same : (t : String) → is_text t (some (str t)) ≡ true
is_text_same t = (eq_iff t t).1 refl

is_text_other : (s t : String) → s ≢ t → is_text t (some (str s)) ≡ false
is_text_other s t h = ground (arith, eq_iff s t, h)

kek_length :
    (p : Primitives) (laws : Laws p) (ss_x25519 ss_mlkem epk kem_ct : Bytes) (kid : String)
    (aad : Bytes)
    → length (kek_of p ss_x25519 ss_mlkem epk kem_ct kid aad) ≡ 32
unfolding kek_of
kek_length p laws ss_x25519 ss_mlkem epk kem_ct kid aad = laws.hkdf_length _ (ss_x25519 ++ ss_mlkem)

module _ (p : Primitives) (laws : Laws p) (d : Draws) (fresh : ValidDraws p d) where
  seal_entry-own :
      (aad : Bytes) (k : RecipientKeypair) (n : ℕ)
      → ValidRecipient p k
      → (secret : Bytes) → p.x25519_exchange d.ephemeral (p.x25519_public_of k.x25519) ≡ some secret
      → seal_entry p d aad (recipient_bundle p k) n
        ≡ ok (entry_of p d aad (recipient_bundle p k) n secret (p.mlkem_public_of k.mlkem))
  unfolding seal_entry recipient_bundle
  seal_entry-own aad k n valid secret agreed =
      rw
        (
          laws.b64 (p.x25519_public_of k.x25519),
          laws.x25519_own k.x25519 valid.x25519,
          laws.b64 (p.mlkem_public_of k.mlkem),
          laws.mlkem_own k.mlkem valid.mlkem,
          agreed,
        )
        refl

  -- Where every bundle is a valid recipient's, each gets an entry.
  every_sealed :
      (aad : Bytes) (ks : List RecipientKeypair) (n : ℕ)
      → All (ValidRecipient p) ks
      → (items : Items) × (seal_entries p d aad (map (recipient_bundle p) ks) n ≡ ok items)
  unfolding seal_entries
  every_sealed aad [] n valid = (nil, refl)
  every_sealed aad (k ∷ ks) n valid =
      let (secret, agreed, _) =
        laws.x25519_agree d.ephemeral k.x25519 fresh.ephemeral valid.0.x25519 in
      let (items, rest) = every_sealed aad ks (suc n) valid.1 in
      (
        item (obj (entry_of p d aad (recipient_bundle p k) n secret (p.mlkem_public_of k.mlkem)))
            items,
        rw (seal_entry-own aad k n valid.0 secret agreed, rest) refl,
      )

  module _ (aad : Bytes) (k : RecipientKeypair) (valid : ValidRecipient p k) (secret : Bytes)
      (agreed : p.x25519_exchange d.ephemeral (p.x25519_public_of k.x25519) ≡ some secret) where
    abbrev pub entry_at : ℕ → Fields
    entry_at n = entry_of p d aad (recipient_bundle p k) n secret (p.mlkem_public_of k.mlkem)

    -- The recipient finds its own entry, whatever others are listed.
    pub own_sealed :
        (before after : List RecipientKeypair) (n : ℕ)
        → All (ValidRecipient p) before
        → All (ValidRecipient p) after
        → All (λ j. recipient_fingerprint p j ≢ recipient_fingerprint p k) before
        → (items : Items) × (m : ℕ) × (seal_entries p d aad
              (map (recipient_bundle p) (before ++ k ∷ after))
              n
            ≡ ok items)
          × (find_own (recipient_fingerprint p k) items ≡ some (entry_at m))
    unfolding seal_entries find_own recipient_fingerprint
    own_sealed [] after n hb ha apart =
        let (items, rest) = every_sealed aad after (suc n) ha in
        (
          item (obj (entry_at n)) items,
          n,
          rw (seal_entry-own aad k n valid secret agreed, rest) refl,
          rw (is_text_same (recipient_fingerprint p k)) refl,
        )
    own_sealed (j ∷ before) after n hb ha apart =
        let (other, met, _) = laws.x25519_agree d.ephemeral j.x25519 fresh.ephemeral hb.0.x25519 in
        let (items, m, rest, own) = own_sealed before after (suc n) hb.1 ha apart.1 in
        (
          item (obj (entry_of p d aad (recipient_bundle p j) n other (p.mlkem_public_of j.mlkem)))
              items,
          m,
          rw (seal_entry-own aad j n hb.0 other met, rest) refl,
          rw (is_text_other (recipient_fingerprint p j) (recipient_fingerprint p k) apart.0) own,
        )

  pub open_entry-own :
      (payload : Json) (aad : Bytes) (k : RecipientKeypair) (valid : ValidRecipient p k) (m : ℕ)
      (secret : Bytes)
      (agreed : p.x25519_exchange d.ephemeral (p.x25519_public_of k.x25519) ≡ some secret)
      (envelope : Fields)
      → p.x25519_exchange k.x25519 (p.x25519_public_of d.ephemeral) ≡ some secret
      → get_field "nonce" envelope ≡ some (str (p.b64encode d.nonce))
      → get_field "ct" envelope
        ≡ some (str (p.b64encode (p.encrypt d.dek d.nonce (canonical_json p payload) aad)))
      → open_entry p k aad envelope (entry_at aad k valid secret agreed m)
        ≡ ok (canonical_json p payload)
  unfolding open_entry b64d opened_result recipient_fingerprint
  open_entry-own payload aad k valid m secret agreed envelope met nonce ct =
      let epk = p.x25519_public_of d.ephemeral in
      let (ss_mlkem, kem_ct) =
        p.mlkem_encapsulate (p.mlkem_public_of k.mlkem) (d.encapsulation m) in
      let kek = kek_of p secret ss_mlkem epk kem_ct (recipient_fingerprint p k) aad in
      rw
        (
          laws.b64 epk,
          laws.b64 kem_ct,
          met,
          laws.mlkem_agree k.mlkem (d.encapsulation m) valid.mlkem,
          laws.b64 (p.encrypt kek zero_nonce d.dek []),
          laws.aead kek zero_nonce d.dek []
              (kek_length p laws secret ss_mlkem epk kem_ct (recipient_fingerprint p k) aad) refl,
          nonce,
          laws.b64 d.nonce,
          ct,
          laws.b64 (p.encrypt d.dek d.nonce (canonical_json p payload) aad),
          laws.aead d.dek d.nonce (canonical_json p payload) aad fresh.dek fresh.nonce,
        )
        refl
