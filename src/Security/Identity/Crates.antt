-- ===== src/Security/Identity/Crates.antt =====
-- What the identity code takes from the crates base64, ed25519-dalek, serde_json, sha2, argon2 and
-- time, and what their documentation promises of it.
use fenrir.Prelude.{ℕ, String, Bool, true, false, Option, some, ◌≡◌, length}
use fenrir.Prelude.Exec.{Result, ok}
use fenrir.Prelude.Text.{has}
use fenrir.Security.Identity.{Bytes}
use fenrir.Security.Identity.Data.{PersistedIdentityState, RawHeader, Header, RawClaims}

pub record Crates : Type 1 where
  pub SigningKey : Type 0
  pub VerifyingKey : Type 0
  pub Signature : Type 0
  pub PasswordHash : Type 0
  -- `URL_SAFE_NO_PAD`; an error is its text.
  pub encode : Bytes → String
  pub decode : String → Result String Bytes
  -- `serde_json`, for each type that is written or read; an error is its text.
  pub state_to_vec_pretty : PersistedIdentityState → Result String Bytes
  pub state_from_slice : Bytes → Result String PersistedIdentityState
  pub header_to_vec : RawHeader → Result String Bytes
  pub header_from_slice : Bytes → Result String Header
  pub claims_to_vec : RawClaims → Result String Bytes
  pub claims_from_slice : Bytes → Result String RawClaims
  -- `SigningKey::from_bytes`, `to_bytes` and `verifying_key`.
  pub signing_from_bytes : Bytes → SigningKey
  pub signing_to_bytes : SigningKey → Bytes
  pub verifying_key : SigningKey → VerifyingKey
  -- `SigningKey::from_keypair_bytes`, of the two halves of the 64 bytes.
  pub from_keypair_bytes : Bytes → Bytes → Option SigningKey
  pub verifying_from_bytes : Bytes → Option VerifyingKey
  pub verifying_to_bytes : VerifyingKey → Bytes
  pub sign : SigningKey → String → Signature
  -- Whether `Verifier::verify` succeeds.
  pub verify : VerifyingKey → String → Signature → Bool
  pub signature_to_bytes : Signature → Bytes
  pub signature_from_slice : Bytes → Option Signature
  pub sha256 : String → Bytes
  -- `argon2`: the parsed hash, and whether the password is the one that was hashed.
  pub parse_hash : String → Option PasswordHash
  pub verify_password : PasswordHash → String → Bool
  -- `OffsetDateTime::to_string`.
  pub time_text : ℕ → String

pub record IsLawful (K : Crates) : Type 1 where
  pub decode-encode : (bytes : Bytes) → K.decode (K.encode bytes) ≡ ok bytes
  -- The alphabet has letters, digits, `-` and `_`.
  pub encode_alphabet : (bytes : Bytes) → has b'.' (K.encode bytes) ≡ false
  -- What is written is read back, where it can be written.
  pub state_reads :
      (state : PersistedIdentityState) (bytes : Bytes)
      → K.state_to_vec_pretty state ≡ ok bytes
      → K.state_from_slice bytes ≡ ok state
  pub header_reads :
      (header : RawHeader) (bytes : Bytes)
      → K.header_to_vec header ≡ ok bytes
      → K.header_from_slice bytes ≡ ok (record { alg = header.alg; kid = header.kid })
  pub claims_reads :
      (claims : RawClaims) (bytes : Bytes)
      → K.claims_to_vec claims ≡ ok bytes
      → K.claims_from_slice bytes ≡ ok claims
  -- A pair of halves is accepted only where the second belongs to the first.
  pub keypair_halves :
      (secret public : Bytes) (key : K.SigningKey)
      → K.from_keypair_bytes secret public ≡ some key
      → K.verifying_from_bytes public ≡ some (K.verifying_key key)
  pub verify-sign :
      (key : K.SigningKey) (message : String)
      → K.verify (K.verifying_key key) message (K.sign key message) ≡ true
  pub signature_reads :
      (signature : K.Signature)
      → K.signature_from_slice (K.signature_to_bytes signature) ≡ some signature
  -- The 32 bytes of a key, and the halves of a key that was just made.
  pub length-signing_to_bytes : (key : K.SigningKey) → length (K.signing_to_bytes key) ≡ 32
  pub length-verifying_to_bytes : (key : K.VerifyingKey) → length (K.verifying_to_bytes key) ≡ 32
  pub made_halves :
      (key : K.SigningKey)
      → K.from_keypair_bytes (K.signing_to_bytes key) (K.verifying_to_bytes (K.verifying_key key))
        ≡ some key
