-- ===== src/Security/Identity/Data.antt =====
-- The data that identity/store.rs and identity/jwt.rs write as JSON and read back.
use fenrir.Prelude.{ℕ, String, Option, List}
use fenrir.Prelude.Int.{ℤ}

pub record PersistedIdentityKey : Type 0 where
  pub key_id : String
  pub created_at : ℕ
  pub secret_key : String
  pub public_key : String

pub record PersistedIdentityToken : Type 0 where
  pub token_id : String
  pub fingerprint : String
  pub issued_at : ℕ
  pub expires_at : ℕ
  pub key_id : String

pub record PersistedIdentityUser : Type 0 where
  pub user_id : String
  pub display_name : Option String
  pub role : String
  pub created_at : ℕ
  pub last_issued_at : Option ℕ
  pub token_count : ℕ
  pub last_token_fingerprint : Option String
  pub tokens : List PersistedIdentityToken
  pub password_hash : Option String
  pub password_updated_at : Option ℕ
  pub last_login_at : Option ℕ

pub record PersistedIdentityState : Type 0 where
  pub version : ℕ
  pub environment : String
  pub instance_id : String
  pub app_version : String
  pub current_key : PersistedIdentityKey
  pub users : List PersistedIdentityUser

pub record RawHeader : Type 0 where
  pub alg : String
  pub typ : String
  pub kid : String

pub record Header : Type 0 where
  pub alg : String
  pub kid : String

-- `RawClaims`, which is written, and `Claims`, which is read: their fields are the same.
pub record RawClaims : Type 0 where
  pub iss : String
  pub aud : String
  pub sub : String
  pub env : String
  pub inst : String
  pub role : String
  pub ver : String
  pub iat : ℤ
  pub exp : ℤ
  pub jti : String
