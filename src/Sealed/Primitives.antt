-- ===== src/Sealed/Primitives.antt =====
-- What sealed mode takes from `cryptography`, `hashlib`, `base64` and `json`, with the laws that
-- their documentation states. A key object is the bytes that `private_bytes_raw` gives.
use multiedge_relay_python.Prelude.{ℕ, Bool, List, Option, String, Text, length, some, true, ◌≡◌}
use multiedge_relay_python.Prelude.Json.{Json}

abbrev pub Bytes : Type 0
Bytes = List ℕ

-- How `ChaCha20Poly1305(key).decrypt(...)` ends.
pub data Opened : Type 0 where
  opened : Bytes → Opened
  -- `InvalidTag`
  bad_tag : Opened
  -- the `ValueError` of a key or a nonce of the wrong length
  bad_input : Opened

pub record Primitives : Type 0 where
  -- `json.dumps(obj, sort_keys=True, separators=(",", ":"), ensure_ascii=True).encode()`
  pub dumps : Json → Bytes
  -- `json.loads(plaintext)`, where `none` is its `ValueError`
  pub loads : Bytes → Option Json
  -- `json.dump(document, handle, indent=2, sort_keys=True)` and `json.loads` of a file's text
  pub dump_file : Json → Text
  pub load_file : Text → Option Json
  -- `hashlib.sha256(data).digest()` and `.hexdigest()`
  pub sha256 : Bytes → Bytes
  pub hexdigest : Bytes → String
  -- `text.encode()`
  pub utf8 : String → Bytes
  pub utf8_codes : Text → Bytes
  pub b64encode : Bytes → String
  -- `base64.b64decode(text, validate=True)`, where `none` is its `ValueError`
  pub b64decode : String → Option Bytes
  -- `HKDF(SHA256, length=32, salt=None, info=info).derive(ikm)`
  pub hkdf : Bytes → Bytes → Bytes
  -- `ChaCha20Poly1305(key).encrypt(nonce, data, aad)` for a key and a nonce of the right lengths
  pub encrypt : Bytes → Bytes → Bytes → Bytes → Bytes
  pub decrypt : Bytes → Bytes → Bytes → Bytes → Opened
  -- whether `from_private_bytes` and `from_public_bytes` take the bytes, `public_key()`, and
  -- `exchange`, where `none` is a `ValueError`
  pub x25519_private : Bytes → Bool
  pub x25519_public : Bytes → Bool
  pub x25519_public_of : Bytes → Bytes
  pub x25519_exchange : Bytes → Bytes → Option Bytes
  -- the same of ML-KEM-768; `encapsulate` takes its randomness and gives secret and ciphertext
  pub mlkem_seed : Bytes → Bool
  pub mlkem_public : Bytes → Bool
  pub mlkem_public_of : Bytes → Bytes
  pub mlkem_encapsulate : Bytes → Bytes → Bytes × Bytes
  pub mlkem_decapsulate : Bytes → Bytes → Option Bytes
  -- Ed25519; `verify` is false where it raises `InvalidSignature`
  pub ed25519_private : Bytes → Bool
  pub ed25519_public : Bytes → Bool
  pub ed25519_public_of : Bytes → Bytes
  pub ed25519_sign : Bytes → Bytes → Bytes
  pub ed25519_verify : Bytes → Bytes → Bytes → Bool
  -- ML-DSA-65: `sign` by seed, randomness, message and context; `verify` by key, signature, message
  -- and context
  pub mldsa_seed : Bytes → Bool
  pub mldsa_public : Bytes → Bool
  pub mldsa_public_of : Bytes → Bytes
  pub mldsa_sign : Bytes → Bytes → Bytes → Bytes → Bytes
  pub mldsa_verify : Bytes → Bytes → Bytes → Bytes → Bool

-- What the schemes promise to a party that follows them.
pub record Laws (p : Primitives) : Type 0 where
  pub b64 : (x : Bytes) → p.b64decode (p.b64encode x) ≡ some x
  pub hkdf_length : (info ikm : Bytes) → length (p.hkdf info ikm) ≡ 32
  pub aead :
      (key nonce content aad : Bytes)
      → length key ≡ 32
      → length nonce ≡ 12
      → p.decrypt key nonce (p.encrypt key nonce content aad) aad ≡ opened content
  pub x25519_own :
      (a : Bytes) → p.x25519_private a ≡ true → p.x25519_public (p.x25519_public_of a) ≡ true
  -- both sides agree on the shared secret
  pub x25519_agree :
      (a b : Bytes)
      → p.x25519_private a ≡ true
      → p.x25519_private b ≡ true
      → (secret : Bytes) × (p.x25519_exchange a (p.x25519_public_of b) ≡ some secret)
        × (p.x25519_exchange b (p.x25519_public_of a) ≡ some secret)
  pub mlkem_own :
      (seed : Bytes) → p.mlkem_seed seed ≡ true → p.mlkem_public (p.mlkem_public_of seed) ≡ true
  pub mlkem_agree :
      (seed draw : Bytes)
      → p.mlkem_seed seed ≡ true
      → p.mlkem_decapsulate seed (p.mlkem_encapsulate (p.mlkem_public_of seed) draw).1
        ≡ some (p.mlkem_encapsulate (p.mlkem_public_of seed) draw).0
  pub ed25519_own :
      (a : Bytes) → p.ed25519_private a ≡ true → p.ed25519_public (p.ed25519_public_of a) ≡ true
  pub ed25519_signed :
      (a message : Bytes)
      → p.ed25519_private a ≡ true
      → p.ed25519_verify (p.ed25519_public_of a) (p.ed25519_sign a message) message ≡ true
  pub mldsa_own : (a : Bytes) → p.mldsa_seed a ≡ true → p.mldsa_public (p.mldsa_public_of a) ≡ true
  pub mldsa_signed :
      (a draw message context : Bytes)
      → p.mldsa_seed a ≡ true
      → p.mldsa_verify (p.mldsa_public_of a) (p.mldsa_sign a draw message context) message context
        ≡ true
