-- ===== src/Security/PasswordPolicy.antt =====
-- security/auth/password_policy.rs: what a password must be. The tables of Unicode that `char` and
-- `str` of the standard library go by are a parameter.
pub mod Characters
pub mod Accepted
mod Tests
use Prim.Native.Char.{code}
use Prim.Native.String
use Prim.Native.String.{count}
use text.Mathlib.Text as T
use fenrir.Prelude.{
  ℕ, String, Bool, true, false, not, ◌&&◌, ◌||◌, Option, none, some, List, [], ◌∷◌, ◌++◌, any, ltb,
  leb, if◌then◌else◌,
}
use fenrir.Prelude.Text.{is_empty, is_whitespace}

pub record Unicode : Type 0 where
  pub is_uppercase : ℕ → Bool
  pub is_lowercase : ℕ → Bool
  pub is_alphanumeric : ℕ → Bool
  pub to_lowercase : String → String

pub data PasswordPolicyError : Type 0 where
  too_short too_long : ℕ → ℕ → PasswordPolicyError
  missing_uppercase missing_lowercase missing_digit missing_special : PasswordPolicyError
  common_password contains_username no_whitespace_allowed : PasswordPolicyError

pub record PasswordValidationResult : Type 0 where
  pub valid : Bool
  pub errors : List PasswordPolicyError

pub record PasswordPolicy : Type 0 where
  pub min_length : ℕ
  pub max_length : ℕ
  pub require_uppercase : Bool
  pub require_lowercase : Bool
  pub require_digit : Bool
  pub require_special : Bool
  pub check_common_passwords : Bool
  pub check_username_in_password : Bool
  pub common_passwords : List String

abbrev pub default_common_passwords : List String
default_common_passwords =
    "password" ∷ "123456" ∷ "12345678" ∷ "qwerty" ∷ "abc123" ∷ "monkey" ∷ "1234567" ∷ "letmein"
    ∷ "trustno1" ∷ "dragon" ∷ "baseball" ∷ "iloveyou" ∷ "master" ∷ "sunshine" ∷ "ashley" ∷ "bailey"
    ∷ "passw0rd" ∷ "shadow" ∷ "123123" ∷ "654321" ∷ "superman" ∷ "qazwsx" ∷ "michael" ∷ "football"
    ∷ "password1" ∷ "password123" ∷ "welcome" ∷ "welcome1" ∷ "admin" ∷ "login" ∷ "princess"
    ∷ "qwerty123" ∷ "solo" ∷ "passpass" ∷ "hello" ∷ "charlie" ∷ "donald" ∷ "password12" ∷ "qwerty1"
    ∷ "1234567890" ∷ "fenrir" ∷ "fenrirdev" ∷ "fenrir123" ∷ "administrator" ∷ []

unfoldable pub standard : PasswordPolicy
standard = record {
  min_length = 12;
  max_length = 128;
  require_uppercase = true;
  require_lowercase = true;
  require_digit = true;
  require_special = false;
  check_common_passwords = true;
  check_username_in_password = true;
  common_passwords = default_common_passwords;
}

unfoldable pub development : PasswordPolicy
development = record {
  min_length = 8;
  max_length = 128;
  require_uppercase = false;
  require_lowercase = false;
  require_digit = false;
  require_special = false;
  check_common_passwords = true;
  check_username_in_password = true;
  common_passwords = default_common_passwords;
}

-- `chars().any(…)`, by the code points.
unfoldable pub any_char : (ℕ → Bool) → String → Bool
any_char p String.[] = false
any_char p (String.◌∷◌ c s) = p (code c) || any_char p s

-- `str::contains`.
unfoldable pub contains : String → String → Bool
contains String.[] part = is_empty part
contains (String.◌∷◌ c s) part = T.starts_with (String.◌∷◌ c s) part || contains s part

abbrev pub is_ascii_digit : ℕ → Bool
is_ascii_digit c = leb b'0' c && leb c b'9'

-- The errors of the checks that find something, in their order.
unfoldable pub found : List (Bool × PasswordPolicyError) → List PasswordPolicyError
found [] = []
found ((finds, e) ∷ checks) = let later = found checks in if finds then e ∷ later else later

module _ (U : Unicode) where
  abbrev pub has_username : String → Option String → Bool
  has_username password none = false
  has_username password (some user) =
      let lower = U.to_lowercase user in
      not (is_empty lower) && contains (U.to_lowercase password) lower

  abbrev pub is_common : List String → String → Bool
  is_common common password = any (λ known. T.◌==◌ known (U.to_lowercase password)) common

  unfoldable pub checks :
      PasswordPolicy → String → Option String → List (Bool × PasswordPolicyError)
  unfolding any_char contains
  checks policy password username =
      let len = count password in
      (ltb len policy.min_length, too_short policy.min_length len)
      ∷ (ltb policy.max_length len, too_long policy.max_length len)
      ∷ (any_char is_whitespace password, no_whitespace_allowed)
      ∷ (policy.require_uppercase && not (any_char U.is_uppercase password), missing_uppercase)
      ∷ (policy.require_lowercase && not (any_char U.is_lowercase password), missing_lowercase)
      ∷ (policy.require_digit && not (any_char is_ascii_digit password), missing_digit)
      ∷ (
        policy.require_special && not (any_char (λ c. not (U.is_alphanumeric c)) password),
        missing_special,
      )
      ∷ (
        policy.check_common_passwords && is_common policy.common_passwords password,
        common_password,
      )
      ∷ (policy.check_username_in_password && has_username password username, contains_username)
      ∷ []

  abbrev pub result : List PasswordPolicyError → PasswordValidationResult
  result [] = record { valid = true; errors = [] }
  result (e ∷ errors) = record { valid = false; errors = e ∷ errors }

  unfoldable pub validate : PasswordPolicy → String → Option String → PasswordValidationResult
  unfolding found checks
  validate policy password username = result (found (checks policy password username))
