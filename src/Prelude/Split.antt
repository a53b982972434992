-- ===== src/Prelude/Split.antt =====
-- `str::split` at one character.
use Prim.Native.Nat.{ℕ}
use Prim.Native.Char.{Char, code}
use Prim.Native.String.{String, ◌++◌}
use mathlib.Core.Path.{◌≡◌, refl}
use mathlib.Core.Bool.{false}
use mathlib.Core.List.{List, [], ◌∷◌}
use native.Mathlib.Omega.{arith}
use text.Mathlib.TextLemmas.{nil-append, cons-append}
use fenrir.Prelude.Tests.{◌==◌, if◌then◌else◌}
use fenrir.Prelude.Text.{has}

abbrev pub grow : Char → List String → List String
grow c [] = []
grow c (word ∷ words) = String.◌∷◌ c word ∷ words

-- `str::split`, at the character with the code.
unfoldable pub split : ℕ → String → List String
split at String.[] = "" ∷ []
split at (String.◌∷◌ c s) =
    let words = split at s in if code c == at then "" ∷ words else grow c words

pub split-none : (at : ℕ) (s : String) → has at s ≡ false → split at s ≡ s ∷ []
unfolding split has
split-none at String.[] h = refl
split-none at (String.◌∷◌ c s) h = ground (arith, split-none at s)

-- The first word ends at the first occurrence.
pub split-append :
    (d : Char) (s rest : String)
    → has (code d) s ≡ false
    → split (code d) (s ++ String.◌∷◌ d rest) ≡ s ∷ split (code d) rest
unfolding split has
split-append d String.[] rest h = ground (arith, nil-append (String.◌∷◌ d rest))
split-append d (String.◌∷◌ c s) rest h =
    ground (arith, cons-append c s (String.◌∷◌ d rest), split-append d s rest)
