-- ===== src/Security/PasswordPolicy/Tests.antt =====
-- The password policy's theorems at concrete policies, and runs of its code.
use fenrir.Prelude.{true, ◌||◌, ◌&&◌, some, none, [], ◌∷◌, leb, ◌≡◌, ◌↔◌, refl}
use fenrir.Security.PasswordPolicy.{
  Unicode, standard, validate, too_short, missing_uppercase, common_password,
}
use fenrir.Security.PasswordPolicy.Accepted.{IsAccepted, validate-IsAccepted_iff}

-- The tables for ASCII; lower-casing is left out.
abbrev ascii : Unicode
ascii = record {
  is_uppercase = λ c. leb b'A' c && leb c b'Z';
  is_lowercase = λ c. leb b'a' c && leb c b'z';
  is_alphanumeric =
      λ c. leb b'A' c && leb c b'Z' || leb b'a' c && leb c b'z' || leb b'0' c && leb c b'9';
  to_lowercase = λ s. s;
}

accepts : (validate ascii standard "SecurePass123!" (some "alice")).valid ≡ true
unfolding validate standard
accepts = refl

rejects :
    (validate ascii standard "password123" none).errors
    ≡ too_short 12 11 ∷ missing_uppercase ∷ common_password ∷ []
unfolding validate standard
rejects = refl

validate-IsAccepted_iff_example :
    ((validate ascii standard "SecurePass123!" (some "alice")).valid ≡ true)
    ↔ IsAccepted ascii standard "SecurePass123!" (some "alice")
validate-IsAccepted_iff_example =
    validate-IsAccepted_iff ascii standard "SecurePass123!" (some "alice")
