-- ===== src/Domain/Semver.antt =====
-- What the host takes from the crate `semver`: pre-release and build texts with their orders. The
-- hypotheses are its documentation's: the orders are lawful and agree with `==`, a pre-release is
-- its text, and a text that is all digits has no leading zero.
use Prim.Native.Nat.{Ordering}
use fenrir.Prelude.{ℕ, ◌≡◌, ◌≢◌, Bool, true, List, [], ◌∷◌, ◌&&◌, leb, all}
use fenrir.Prelude.Order.{IsLawful}

-- `u8::is_ascii_digit`.
abbrev pub is_digit : ℕ → Bool
is_digit b = leb b'0' b && leb b b'9'

-- A text of two bytes or more that is all digits does not start with `0`.
abbrev pub IsCanonical : List ℕ → Type 0
IsCanonical [] = Unit
IsCanonical (b ∷ []) = Unit
IsCanonical (b ∷ c ∷ bs) = all is_digit (b ∷ c ∷ bs) ≡ true → b ≢ b'0'

pub record Semver : Type 1 where
  pub Prerelease : Type 0
  pub as_str : Prerelease → List ℕ
  pub as_str_injective : (p q : Prerelease) → as_str p ≡ as_str q → p ≡ q
  pub as_str-IsCanonical : (p : Prerelease) → IsCanonical (as_str p)
  pub pre_cmp : Prerelease → Prerelease → Ordering
  pub pre_lawful : IsLawful pre_cmp
  pub BuildMetadata : Type 0
  pub build_cmp : BuildMetadata → BuildMetadata → Ordering
  pub build_lawful : IsLawful build_cmp
  pub no_pre : Prerelease
  pub no_build : BuildMetadata

module _ (S : Semver) where
  pub record Version : Type 0 where
    pub major : ℕ
    pub minor : ℕ
    pub patch : ℕ
    pub pre : S.Prerelease
    pub build : S.BuildMetadata

-- The operators of a comparator; `other` stands for whatever semver adds.
pub data Op : Type 0 where
  exact greater greater_eq less less_eq tilde caret wildcard other : Op
