-- ===== src/Security/Identity/Toy.antt =====
-- Crates that keep what `IsLawful` asks: base64 in unary, JSON by tables of the documents that can
-- be written, one key, and signatures that are the lengths of what they sign.
use Prim.Native.String.{◌++◌, char_at, len}
use text.Mathlib.Text as T
use text.Mathlib.TextLemmas.{cons-append, nil-append, append_assoc}
use Prim.Native.Char.{Char, code}
use fenrir.Prelude.{
  ℕ, zero, suc, ◌==◌, String, Bool, true, false, Option, none, some, List, [], ◌∷◌, if◌then◌else◌,
  ◌≡◌, ◌≢◌, refl, sym, ap, ◌∙◌, arith, eq_iff,
}
use fenrir.Prelude.Exec.{Result, ok, err, and_then}
use fenrir.Prelude.Exec.Rules.{ok_injective}
use fenrir.Prelude.Text.{has}
use fenrir.Security.Identity.{Bytes}
use fenrir.Security.Identity.Data.{PersistedIdentityState, RawHeader, Header, RawClaims}
use fenrir.Security.Identity.Crates.{Crates, IsLawful}

pub apart : (s t : String) → (T.◌==◌ s t) ≡ false → s ≢ t
apart s t e same = absurd (ground (arith, eq_iff s t))

abbrev pub decide : (s t : String) (same : Bool) → (T.◌==◌ s t) ≡ same → Dec (s ≡ t)
decide s t true e = yes ((eq_iff s t).0 e)
decide s t false e = no (apart s t e)

unfoldable pub text_discrete : Discrete String
text_discrete s t = decide s t (T.◌==◌ s t) refl

pub number_apart : (m n : ℕ) → (m == n) ≡ false → m ≢ n
number_apart m n e same = absurd (ground arith)

pub number_same : (m n : ℕ) → (m == n) ≡ true → m ≡ n
number_same m n e = ground arith

abbrev pub decide_number : (m n : ℕ) (same : Bool) → (m == n) ≡ same → Dec (m ≡ n)
decide_number m n true e = yes (number_same m n e)
decide_number m n false e = no (number_apart m n e)

unfoldable pub number_discrete : Discrete ℕ
number_discrete m n = decide_number m n (m == n) refl

unfoldable state_discrete : Discrete PersistedIdentityState
state_discrete = hlevel (number_discrete, text_discrete)

unfoldable claims_discrete : Discrete RawClaims
claims_discrete = hlevel (number_discrete, text_discrete)

unfoldable header_discrete : Discrete RawHeader
header_discrete = hlevel (text_discrete)

unfoldable pub unary : ℕ → String
unary zero = "b"
unary (suc n) = "a" ++ unary n

unfoldable pub encode : Bytes → String
unfolding unary
encode [] = ""
encode (n ∷ rest) = unary n ++ encode rest

-- One more, to the first number.
abbrev bump : Result String Bytes → Result String Bytes
bump (ok []) = err "ends early"
bump (ok (n ∷ rest)) = ok (suc n ∷ rest)
bump (err e) = err e

unfoldable pub decode : String → Result String Bytes
decode String.[] = ok []
decode (String.◌∷◌ c s) =
    let later = decode s in
    if code c == b'a' then bump later else and_then later λ rest. ok (0 ∷ rest)

decode-cons :
    (c : Char) (s : String)
    → decode (String.◌∷◌ c "" ++ s)
      ≡ (if code c == b'a' then bump (decode s) else and_then (decode s) λ rest. ok (0 ∷ rest))
unfolding decode
decode-cons c s = ground (arith, cons-append c "" s, nil-append s)

decode-unary :
    (n : ℕ) (rest : String) (bytes : Bytes)
    → decode rest ≡ ok bytes
    → decode (unary n ++ rest) ≡ ok (n ∷ bytes)
unfolding unary
decode-unary zero rest bytes h =
    ap (λ s. s) (decode-cons (char_at "b" 0) rest) ∙ ap (λ r. and_then r λ rest. ok (0 ∷ rest)) h
decode-unary (suc n) rest bytes h =
    ap decode (append_assoc "a" (unary n) rest)
    ∙ decode-cons (char_at "a" 0) (unary n ++ rest)
    ∙ ap bump (decode-unary n rest bytes h)

decode-encode : (bytes : Bytes) → decode (encode bytes) ≡ ok bytes
unfolding encode decode
decode-encode [] = refl
decode-encode (n ∷ rest) = decode-unary n (encode rest) rest (decode-encode rest)

has-append : (at : ℕ) (s t : String) → has at s ≡ false → has at t ≡ false → has at (s ++ t) ≡ false
unfolding has
has-append at String.[] t h k = ground (arith, nil-append t)
has-append at (String.◌∷◌ c s) t h k = ground (arith, cons-append c s t, has-append at s t)

has-unary : (n : ℕ) → has b'.' (unary n) ≡ false
unfolding unary has
has-unary zero = refl
has-unary (suc n) = has-append b'.' "a" (unary n) refl (has-unary n)

encode_alphabet : (bytes : Bytes) → has b'.' (encode bytes) ≡ false
unfolding encode has
encode_alphabet [] = refl
encode_alphabet (n ∷ rest) =
    has-append b'.' (unary n) (encode rest) (has-unary n) (encode_alphabet rest)

-- The place of a document in a table.
abbrev found {ℓ} : {P : Type ℓ} → Dec P → Result String Bytes → Result String Bytes
found (yes p) later = ok (0 ∷ [])
found (no p) later = bump later

module _ {A : Type 0} where
  unfoldable pub from_slice : List A → Bytes → Result String A
  from_slice [] bytes = err "not in the table"
  from_slice (d ∷ table) [] = err "empty"
  from_slice (d ∷ table) (zero ∷ rest) = ok d
  from_slice (d ∷ table) (suc k ∷ rest) = from_slice table (k ∷ rest)

  bump-reads :
      (d a : A) (table : List A) (r : Result String Bytes) (bytes : Bytes)
      → bump r ≡ ok bytes
      → ((b : Bytes) → r ≡ ok b → from_slice table b ≡ ok a)
      → from_slice (d ∷ table) bytes ≡ ok a
  unfolding from_slice
  bump-reads d a table (ok []) bytes h later = absurd (ground arith)
  bump-reads d a table (ok (n ∷ rest)) bytes h later =
      ap (from_slice (d ∷ table)) (sym (ok_injective h)) ∙ later (n ∷ rest) refl
  bump-reads d a table (err e) bytes h later = absurd (ground arith)

module _ {A : Type 0} (dec : Discrete A) where
  unfoldable pub to_vec : List A → A → Result String Bytes
  to_vec [] a = err "not in the table"
  to_vec (d ∷ table) a = let later = to_vec table a in found (dec a d) later

  found-reads :
      (d a : A) (table : List A) (o : Dec (a ≡ d)) (bytes : Bytes)
      → found o (to_vec table a) ≡ ok bytes
      → ((b : Bytes) → to_vec table a ≡ ok b → from_slice table b ≡ ok a)
      → from_slice (d ∷ table) bytes ≡ ok a
  unfolding from_slice
  found-reads d a table (yes p) bytes h later =
      ap (from_slice (d ∷ table)) (sym (ok_injective h)) ∙ ap ok (sym p)
  found-reads d a table (no p) bytes h later = bump-reads d a table (to_vec table a) bytes h later

  to_vec-reads :
      (table : List A) (a : A) (bytes : Bytes)
      → to_vec table a ≡ ok bytes
      → from_slice table bytes ≡ ok a
  unfolding to_vec from_slice
  to_vec-reads [] a bytes h = absurd (ground arith)
  to_vec-reads (d ∷ table) a bytes h =
      found-reads d a table (dec a d) bytes h (λ b k. to_vec-reads table a b k)

abbrev header_seen : RawHeader → Header
header_seen h = record { alg = h.alg; kid = h.kid }

abbrev half : Bytes
half =
    0 ∷ 0 ∷ 0 ∷ 0 ∷ 0 ∷ 0 ∷ 0 ∷ 0 ∷ 0 ∷ 0 ∷ 0 ∷ 0 ∷ 0 ∷ 0 ∷ 0 ∷ 0 ∷ 0 ∷ 0 ∷ 0 ∷ 0 ∷ 0 ∷ 0 ∷ 0 ∷ 0
    ∷ 0 ∷ 0 ∷ 0 ∷ 0 ∷ 0 ∷ 0 ∷ 0 ∷ 0 ∷ []

abbrev one_number : Bytes → Option ℕ
one_number (n ∷ []) = some n
one_number _ = none

abbrev see : Result String RawHeader → Result String Header
see (ok h) = ok (header_seen h)
see (err e) = err e

unfoldable pub toy : List PersistedIdentityState → List RawHeader → List RawClaims → Crates
unfolding encode decode to_vec from_slice state_discrete header_discrete claims_discrete
    text_discrete
toy states headers claims = record {
  SigningKey = Unit;
  VerifyingKey = Unit;
  Signature = ℕ;
  PasswordHash = String;
  encode = encode;
  decode = decode;
  state_to_vec_pretty = to_vec state_discrete states;
  state_from_slice = from_slice states;
  header_to_vec = to_vec header_discrete headers;
  header_from_slice = λ bytes. see (from_slice headers bytes);
  claims_to_vec = to_vec claims_discrete claims;
  claims_from_slice = from_slice claims;
  signing_from_bytes = λ bytes. tt;
  signing_to_bytes = λ key. half;
  verifying_key = λ key. tt;
  from_keypair_bytes = λ secret public. some tt;
  verifying_from_bytes = λ public. some tt;
  verifying_to_bytes = λ key. half;
  sign = λ key message. len message;
  verify = λ key message signature. len message == signature;
  signature_to_bytes = λ signature. signature ∷ [];
  signature_from_slice = one_number;
  sha256 = λ text. len text ∷ [];
  parse_hash = some;
  verify_password = λ hash password. T.◌==◌ hash password;
  time_text = λ time. "a time";
}

pub toy-IsLawful :
    (states : List PersistedIdentityState) (headers : List RawHeader) (claims : List RawClaims)
    → IsLawful (toy states headers claims)
unfolding toy
toy-IsLawful states headers claims = record {
  decode-encode = decode-encode;
  encode_alphabet = encode_alphabet;
  state_reads = to_vec-reads state_discrete states;
  header_reads = λ header bytes h. ap see (to_vec-reads header_discrete headers header bytes h);
  claims_reads = to_vec-reads claims_discrete claims;
  keypair_halves = λ secret public key h. refl;
  verify-sign = λ key message. ground arith;
  signature_reads = λ signature. refl;
  length-signing_to_bytes = λ key. refl;
  length-verifying_to_bytes = λ key. refl;
  made_halves = λ key. refl;
}
