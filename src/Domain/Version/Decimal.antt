-- ===== src/Domain/Version/Decimal.antt =====
-- Two build numbers are equal only if their texts are (domain/module/version.rs, `pre_build`).
use mathlib.Core.List.{reverse, reverse-cons, reverse-reverse}
use native.Mathlib.Omega.{arith}
use fenrir.Prelude.{
  ℕ, ◌<◌, ◌≡◌, ◌≢◌, refl, sym, ap, ◌∙◌, Bool, true, some, List, [], ◌∷◌, ◌++◌, all,
}
use fenrir.Domain.Semver.{is_digit, IsCanonical}
use fenrir.Domain.Version.{digits_value, text_build}

-- All are digits and the last one, which counts most, is not zero.
abbrev IsNumeral : List ℕ → Type 0
IsNumeral [] = Unit
IsNumeral (d ∷ []) = (is_digit d ≡ true) × (d ≢ b'0')
IsNumeral (d ∷ e ∷ ds) = (is_digit d ≡ true) × IsNumeral (e ∷ ds)

digits_value-pos : (d : ℕ) (ds : List ℕ) → IsNumeral (d ∷ ds) → 0 < digits_value (d ∷ ds)
unfolding digits_value
digits_value-pos d [] h = ground arith
digits_value-pos d (e ∷ ds) h = omega (arith, digits_value-pos e ds h.1)

digits_value-injective :
    (ds es : List ℕ) → IsNumeral ds → IsNumeral es → digits_value ds ≡ digits_value es → ds ≡ es
unfolding digits_value
digits_value-injective [] [] h k e = refl
digits_value-injective [] (c ∷ cs) h k e = absurd (omega (arith, digits_value-pos c cs k))
digits_value-injective (d ∷ ds) [] h k e = absurd (omega (arith, digits_value-pos d ds h))
digits_value-injective (d ∷ []) (c ∷ []) h k e = ground arith
digits_value-injective (d ∷ []) (c ∷ b ∷ cs) h k e =
    absurd (ground (arith, digits_value-pos b cs k.1))
digits_value-injective (d ∷ b ∷ ds) (c ∷ []) h k e =
    absurd (ground (arith, digits_value-pos b ds h.1))
digits_value-injective (d ∷ a ∷ ds) (c ∷ b ∷ cs) h k e =
    ground (arith, digits_value-injective (a ∷ ds) (b ∷ cs) h.1 k.1)

all-append :
    (p : ℕ → Bool) (xs ys : List ℕ) → all p xs ≡ true → all p ys ≡ true → all p (xs ++ ys) ≡ true
all-append p [] ys h k = k
all-append p (x ∷ xs) ys h k = ground (arith, all-append p xs ys)

all-reverse : (p : ℕ → Bool) (xs : List ℕ) → all p xs ≡ true → all p (reverse xs) ≡ true
all-reverse p [] h = refl
all-reverse p (x ∷ xs) h =
    rw (reverse-cons x xs)
      (all-append p (reverse xs) (x ∷ []) (all-reverse p xs (ground arith)) (ground arith))

append-IsNumeral :
    (ds : List ℕ) (d : ℕ)
    → all is_digit ds ≡ true
    → is_digit d ≡ true
    → d ≢ b'0'
    → IsNumeral (ds ++ d ∷ [])
append-IsNumeral [] d h k n = (k, n)
append-IsNumeral (c ∷ []) d h k n = (ground arith, (k, n))
append-IsNumeral (c ∷ b ∷ ds) d h k n =
    (ground arith, append-IsNumeral (b ∷ ds) d (ground arith) k n)

-- What a text is that gives a build number: a numeral of that value.
record Reads (text : List ℕ) (n : ℕ) : Type 0 where
  numeral : IsNumeral (reverse text)
  value : digits_value (reverse text) ≡ n
  positive : 0 < n

text_build-Reads :
    (b : ℕ) (bs : List ℕ) (n : ℕ)
    → IsCanonical (b ∷ bs)
    → text_build (b ∷ bs) ≡ some n
    → Reads (b ∷ bs) n
unfolding text_build
text_build-Reads b [] n c e = record {
  numeral = (ground arith, λ zero_digit. ground arith);
  value = ground arith;
  positive = ground arith;
}
text_build-Reads b (d ∷ bs) n c e =
    let digits : all is_digit (b ∷ d ∷ bs) ≡ true = ground arith in
    record {
      numeral = rw (reverse-cons b (d ∷ bs)) (
          append-IsNumeral (reverse (d ∷ bs)) b (all-reverse is_digit (d ∷ bs) (ground arith))
            (ground arith) (c digits));
      value = ground arith;
      positive = ground arith;
    }

reverse-injective : (xs ys : List ℕ) → reverse xs ≡ reverse ys → xs ≡ ys
reverse-injective xs ys h = sym (reverse-reverse xs) ∙ (ap reverse h ∙ reverse-reverse ys)

pub text_build-injective :
    (s t : List ℕ) (n : ℕ)
    → IsCanonical s
    → IsCanonical t
    → text_build s ≡ some n
    → text_build t ≡ some n
    → s ≡ t
text_build-injective [] [] n c d h k = refl
text_build-injective [] (b ∷ bs) n c d h k =
    let r = text_build-Reads b bs n d k in absurd (unfold text_build in ground (arith, r.positive))
text_build-injective (b ∷ bs) [] n c d h k =
    let r = text_build-Reads b bs n c h in absurd (unfold text_build in ground (arith, r.positive))
text_build-injective (a ∷ cs) (b ∷ bs) n c d h k =
    let r = text_build-Reads a cs n c h in
    let q = text_build-Reads b bs n d k in
    reverse-injective (a ∷ cs) (b ∷ bs) (
      digits_value-injective (reverse (a ∷ cs)) (reverse (b ∷ bs)) r.numeral q.numeral
        (r.value ∙ sym q.value))
