-- ===== src/Security/PasswordPolicy/Characters.antt =====
-- What the tests of a password's characters and parts say (security/auth/password_policy.rs).
use Prim.Native.Char.{code}
use Prim.Native.String.{◌++◌}
use text.Mathlib.Text as T
use text.Mathlib.TextEquality.{starts_with_iff}
use text.Mathlib.TextPositions.{starts_with-append}
use text.Mathlib.TextLemmas.{nil-append, cons-append, append-eq-nil_iff}
use fenrir.Prelude.{
  subst, ap, ℕ, String, Bool, true, false, not, ◌&&◌, ◌⊎◌, inl, inr, ◌≡◌, ◌↔◌, refl, ◌∙◌, arith,
  Bool-cases,
}
use fenrir.Prelude.Text.{is_empty}
use fenrir.Security.PasswordPolicy.{any_char, contains}

-- Some character of the text has the property.
unfoldable pub HasChar : (ℕ → Type 0) → String → Type 0
HasChar P String.[] = ⊥
HasChar P (String.◌∷◌ c s) = P (code c) ⊎ HasChar P s

pub any_char-HasChar :
    (p : ℕ → Bool) (P : ℕ → Type 0)
    → ((c : ℕ) → (p c ≡ true) ↔ P c)
    → (s : String) → (any_char p s ≡ true) ↔ HasChar P s
unfolding any_char HasChar
any_char-HasChar p P same String.[] = (λ h. absurd (ground arith), λ h. absurd h)
any_char-HasChar p P same (String.◌∷◌ c s) =
    let (f, b) = any_char-HasChar p P same s in
    let (here, back) = same (code c) in
    (
      λ h. elim (Bool-cases (p (code c))) [ inl e ↦ inl (here e) | inr e ↦ inr (f (ground arith)) ],
      λ h. elim h [
        | inl e ↦ let first = back e in ground arith
        | inr e ↦ let later = b e in ground arith
      ],
    )

-- A class of characters that is asked for.
pub required :
    (asked : Bool) (p : ℕ → Bool) (P : ℕ → Type 0)
    → ((c : ℕ) → (p c ≡ true) ↔ P c)
    → (s : String) → ((asked && not (any_char p s)) ≡ false) ↔ (asked ≡ true → HasChar P s)
required asked p P same s =
    let (f, b) = any_char-HasChar p P same s in
    (
      λ h on. f (ground arith),
      λ h. elim (Bool-cases asked) [
        | inl on ↦ let some_char = b (h on) in ground arith
        | inr off ↦ ground arith
      ],
    )

contains-starts : (s part : String) → (T.starts_with s part) ≡ true → contains s part ≡ true
unfolding contains
contains-starts String.[] String.[] h = refl
contains-starts String.[] (String.◌∷◌ c part) h =
    let (rest, e) = (starts_with_iff "" (String.◌∷◌ c part)).0 h in
    let none_left : String.◌∷◌ c part ≡ "" = (append-eq-nil_iff.0 e).0 in
    let same : false ≡ true = ap is_empty none_left in absurd (ground arith)
contains-starts (String.◌∷◌ c s) part h = ground arith

contains-append : (front part back : String) → contains ((front ++ part) ++ back) part ≡ true
unfolding contains
contains-append String.[] part back =
    ap (λ x. contains (x ++ back) part) (nil-append part)
    ∙ contains-starts (part ++ back) part (starts_with-append part back)
contains-append (String.◌∷◌ c front) part back =
    ap (λ x. contains x part)
      (ap (λ x. x ++ back) (cons-append c front part) ∙ cons-append c (front ++ part) back)
    ∙ ground (arith, contains-append front part back)

-- The first text stands somewhere in the second.
abbrev pub IsPart : String → String → Type 0
IsPart part s = (front : String) × (back : String) × ((front ++ part) ++ back ≡ s)

IsPart-contains : (s part : String) → contains s part ≡ true → IsPart part s
unfolding contains
IsPart-contains String.[] String.[] h = ("", "", refl)
IsPart-contains String.[] (String.◌∷◌ c part) h = absurd (ground arith)
IsPart-contains (String.◌∷◌ c s) part h = elim (Bool-cases (T.starts_with (String.◌∷◌ c s) part)) [
  | inl e ↦
      let (back, same) = (starts_with_iff (String.◌∷◌ c s) part).0 e in
      ("", back, ap (λ x. x ++ back) (nil-append part) ∙ same)
  | inr e ↦
      let (front, back, same) = IsPart-contains s part (ground arith) in
      (
        String.◌∷◌ c front,
        back,
        ap (λ x. x ++ back) (cons-append c front part)
            ∙ cons-append c (front ++ part) back
            ∙ ap (String.◌∷◌ c) same,
      )
]

pub contains_iff : (s part : String) → (contains s part ≡ true) ↔ IsPart part s
contains_iff s part = (
  IsPart-contains s part,
  λ (front, back, same). subst (λ x. contains x part ≡ true) same (contains-append front part back),
)
