-- ===== src/Sealed.antt =====
-- src/multiedge_relay/sealed/: keys, key files, the sealed envelope, and the registry of keys. What
-- `cryptography`, `hashlib`, `base64` and `json` do is a record of functions.
pub mod Primitives
pub mod Keys
pub mod KeyFiles
pub mod Core
pub mod Seal
pub mod Unseal
pub mod Entries
pub mod Signed
pub mod RoundTrip
pub mod Authentic
pub mod Saved
pub mod Registry
pub mod Pinned
pub mod Signals
