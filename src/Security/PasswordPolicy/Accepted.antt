-- ===== src/Security/PasswordPolicy/Accepted.antt =====
-- Which passwords a policy accepts (security/auth/password_policy.rs).
use Prim.Native.String.{count}
use text.Mathlib.Text as T
use fenrir.Prelude.{
  All, All-imp, any-eq-false_iff, ap, ◌≤◌, String, Bool, true, false, not, ◌&&◌, inl, inr, Option,
  none, some, List, [], ◌∷◌, ◌≡◌, ◌≢◌, ◌↔◌, refl, arith, eq_iff, Bool-cases,
}
use fenrir.Prelude.Text.{is_empty, is_whitespace}
use fenrir.Security.PasswordPolicy.{
  Unicode, PasswordPolicy, PasswordPolicyError, any_char, is_ascii_digit, has_username, found,
  checks, is_common, result, validate,
}
use fenrir.Security.PasswordPolicy.Characters.{
  HasChar, IsPart, any_char-HasChar, required, contains_iff,
}

abbrev Silent : Bool × PasswordPolicyError → Type 0
Silent check = check.0 ≡ false

found-nil_iff :
    (checks : List (Bool × PasswordPolicyError)) → (found checks ≡ []) ↔ All Silent checks
unfolding found
found-nil_iff [] = (λ h. tt, λ h. refl)
found-nil_iff ((true, e) ∷ checks) = (λ h. absurd (ground arith), λ h. absurd (ground (arith, h.0)))
found-nil_iff ((false, e) ∷ checks) =
    let (f, b) = found-nil_iff checks in (λ h. (refl, f h), λ h. b h.1)

module _ (U : Unicode) where
  -- The password says nothing of the user, who has a name: letter case aside.
  abbrev pub IsUnlike : String → Option String → Type 0
  IsUnlike password none = Unit
  IsUnlike password (some user) =
      U.to_lowercase user ≢ "" → IsPart (U.to_lowercase user) (U.to_lowercase password) → ⊥

  -- What the policy asks of a password.
  pub record IsAccepted (policy : PasswordPolicy) (password : String) (username : Option String)
      : Type 0 where
    pub long_enough : policy.min_length ≤ count password
    pub short_enough : count password ≤ policy.max_length
    pub unspaced : HasChar (λ c. is_whitespace c ≡ true) password → ⊥
    pub upper : policy.require_uppercase ≡ true → HasChar (λ c. U.is_uppercase c ≡ true) password
    pub lower : policy.require_lowercase ≡ true → HasChar (λ c. U.is_lowercase c ≡ true) password
    pub digit : policy.require_digit ≡ true → HasChar (λ c. (b'0' ≤ c) × (c ≤ b'9')) password
    pub special :
        policy.require_special ≡ true → HasChar (λ c. U.is_alphanumeric c ≡ false) password
    pub uncommon :
        policy.check_common_passwords ≡ true
        → All (λ known. known ≢ U.to_lowercase password) policy.common_passwords
    pub unlike : policy.check_username_in_password ≡ true → IsUnlike password username

  valid-result : (es : List PasswordPolicyError) → ((result U es).valid ≡ true) ↔ (es ≡ [])
  valid-result [] = (λ h. refl, λ h. refl)
  valid-result (e ∷ es) = (λ h. absurd (ground arith), λ h. absurd (ground arith))

  uncommon_iff :
      (asked : Bool) (common : List String) (password : String)
      → ((asked && is_common U common password) ≡ false)
        ↔ (asked ≡ true → All (λ known. known ≢ U.to_lowercase password) common)
  uncommon_iff asked common password =
      let lowered = U.to_lowercase password in
      let (f, b) = any-eq-false_iff (λ known. T.◌==◌ known lowered) common in
      (
        λ h on.
            All-imp (λ known. T.◌==◌ known lowered ≡ false) (λ known. known ≢ lowered) common
              (λ known e. ground (arith, eq_iff known lowered)) (f (ground arith)),
        λ h. elim (Bool-cases asked) [
          | inl on ↦
              let none_known = b (
                All-imp (λ known. known ≢ lowered) (λ known. T.◌==◌ known lowered ≡ false) common
                  (λ known e. ground (arith, eq_iff known lowered)) (h on)) in
              ground arith
          | inr off ↦ ground arith
        ],
      )

  empty_iff : (s : String) → (is_empty s ≡ true) ↔ (s ≡ "")
  empty_iff String.[] = (λ h. refl, λ h. refl)
  empty_iff (String.◌∷◌ c s) = (λ h. absurd (ground arith), λ h. ap is_empty h)

  IsUnlike-iff :
      (asked : Bool) (password : String) (username : Option String)
      → ((asked && has_username U password username) ≡ false)
        ↔ (asked ≡ true → IsUnlike password username)
  IsUnlike-iff asked password none = (λ h on. tt, λ h. ground arith)
  IsUnlike-iff asked password (some user) =
      let lowered = U.to_lowercase user in
      let (f, b) = contains_iff (U.to_lowercase password) lowered in
      let (f', b') = empty_iff lowered in
      (
        λ h on named part.
            let within = b part in
            elim (Bool-cases (is_empty lowered)) [
              | inl e ↦ absurd (named (f' e))
              | inr e ↦ absurd (ground arith)
            ],
        λ h. elim (Bool-cases (asked && has_username U password (some user))) [
          | inl e ↦ absurd (
              h (ground arith) (λ same. let nothing = b' same in absurd (ground arith))
                (f (ground arith)))
          | inr e ↦ e
        ],
      )

  -- A policy accepts exactly the passwords that have its length in characters, no blank, a character
  -- of each class that it asks for, that are not among the common ones and do not have the user's
  -- name in them, the last two in lower case and where it asks for them.
  pub validate-IsAccepted_iff :
      (policy : PasswordPolicy) (password : String) (username : Option String)
      → ((validate U policy password username).valid ≡ true) ↔ IsAccepted policy password username
  unfolding validate checks
  validate-IsAccepted_iff policy password username =
      let len = count password in
      let all = checks U policy password username in
      let valid = valid-result (found all) in
      let silent = found-nil_iff all in
      let blank = any_char-HasChar is_whitespace _ (λ c. (λ h. h, λ h. h)) password in
      let upper =
        required policy.require_uppercase U.is_uppercase _ (λ c. (λ h. h, λ h. h)) password in
      let lower =
        required policy.require_lowercase U.is_lowercase _ (λ c. (λ h. h, λ h. h)) password in
      let digit =
        required policy.require_digit is_ascii_digit (λ c. (b'0' ≤ c) × (c ≤ b'9'))
          (λ c. (λ h. (ground arith, ground arith), λ h. ground (arith, h.0, h.1))) password in
      let special =
        required policy.require_special (λ c. not (U.is_alphanumeric c))
          (λ c. U.is_alphanumeric c ≡ false) (λ c. (λ h. ground arith, λ h. ground arith))
          password in
      let uncommon = uncommon_iff policy.check_common_passwords policy.common_passwords password in
      let unlike = IsUnlike-iff policy.check_username_in_password password username in
      (
        λ h.
            let (e1, (e2, (e3, (e4, (e5, (e6, (e7, (e8, (e9, u))))))))) = silent.0 (valid.0 h) in
            record {
              long_enough = ground arith;
              short_enough = ground arith;
              unspaced = λ has. let e = blank.1 has in absurd (ground arith);
              upper = upper.0 e4;
              lower = lower.0 e5;
              digit = digit.0 e6;
              special = special.0 e7;
              uncommon = uncommon.0 e8;
              unlike = unlike.0 e9;
            },
        λ h.
            let low = h.long_enough in
            let high = h.short_enough in
            valid.1 (
              silent.1 (
                ground arith,
                (
                  ground arith,
                  (
                    elim (Bool-cases (any_char is_whitespace password)) [
                      | inl e ↦ absurd (h.unspaced (blank.0 e))
                      | inr e ↦ e
                    ],
                    (
                      upper.1 h.upper,
                      (
                        lower.1 h.lower,
                        (
                          digit.1 h.digit,
                          (special.1 h.special, (uncommon.1 h.uncommon, (unlike.1 h.unlike, tt))),
                        ),
                      ),
                    ),
                  ),
                ),
              )),
      )
