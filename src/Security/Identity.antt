-- ===== src/Security/Identity.antt =====
-- security/identity/: the users, their passwords and the tokens that the server signs for them, in
-- the file backend. A time read from the clock is the nanoseconds since 1970; the clock's readings,
-- the random texts and the faults of the file system are arguments.
pub mod Data
pub mod Crates
pub mod Persisted
pub mod Store
pub mod Users
pub mod Jwt
pub mod Authority
pub mod Issue
pub mod Verify
pub mod Logins
pub mod Saved
pub mod Reload
pub mod Issued
pub mod RoundTrip
pub mod Verified
pub mod Login
pub mod Moves
pub mod Evolution
pub mod History
pub mod Restart
pub mod Resumed
mod Toy
mod Tests
pub mod Keys
use fenrir.Prelude.{ℕ, String, Option, List}
use fenrir.Prelude.Dict.{Dict}
use fenrir.Security.Role.{Role}

abbrev pub Bytes : Type 0
Bytes = List ℕ

-- The texts of utils/messages/security/identity.rs, with what is filled in.
pub data Reason : Type 0 where
  stored_key_material_invalid stored_public_key_invalid : Reason
  unsupported_identity_store_version : ℕ → Reason
  identity_store_environment_mismatch identity_store_instance_mismatch : String → String → Reason
  unknown_role_in_identity_store invalid_base64 : String → Reason
  unexpected_key_length_in_store : Reason
  invalid_token_missing_header invalid_token_missing_claims : Reason
  invalid_token_missing_signature invalid_token_too_many_segments : Reason
  invalid_token_header_encoding invalid_token_header_payload : Reason
  invalid_token_claims_encoding invalid_token_claims_payload : Reason
  invalid_signature_encoding invalid_signature_length : Reason
  unsupported_signing_algorithm unknown_signing_key signature_verification_failed : Reason
  issuer_mismatch audience_mismatch environment_mismatch token_expired : Reason
  unknown_role_claim : String → Reason
  invalid_issued_at_timestamp invalid_expiry_timestamp : Reason
  invalid_password_hash_format invalid_credentials : Reason

pub data IdentityError : Type 0 where
  io serde db : String → IdentityError
  state_poisoned : IdentityError
  invalid unauthorized : Reason → IdentityError
  password_not_set : String → IdentityError

pub record IdentityKeyMaterial : Type 0 where
  pub key_id : String
  pub created_at : ℕ
  pub secret_key : Bytes
  pub public_key : Bytes

pub record IdentityTokenRecord : Type 0 where
  pub token_id : String
  pub fingerprint : String
  pub issued_at : ℕ
  pub expires_at : ℕ
  pub key_id : String

pub record IdentityUserRecord : Type 0 where
  pub user_id : String
  pub display_name : Option String
  pub role : Role
  pub created_at : ℕ
  pub last_issued_at : Option ℕ
  pub token_count : ℕ
  pub last_token_fingerprint : Option String
  pub tokens : List IdentityTokenRecord
  pub password_hash : Option String
  pub password_updated_at : Option ℕ
  pub last_login_at : Option ℕ

pub record IdentityState : Type 0 where
  pub environment : String
  pub instance_id : String
  pub app_version : String
  pub current_key : IdentityKeyMaterial
  pub users : Dict IdentityUserRecord
