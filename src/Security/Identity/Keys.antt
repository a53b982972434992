-- ===== src/Security/Identity/Keys.antt =====
-- A token that `encode_jwt` writes, `parse_jwt` takes apart (identity/jwt.rs).
use Prim.Native.String.{◌++◌, char_at}
use text.Mathlib.TextLemmas.{cons-append, nil-append, append_assoc}
use fenrir.Prelude.{String, false, Option, none, some, [], ◌∷◌, ◌≡◌, sym, ap, ◌∙◌, arith}
use fenrir.Prelude.Exec.{ok, wrap}
use fenrir.Prelude.Exec.Rules.{and_then-ok, wrap-ok, ok_injective}
use fenrir.Prelude.Text.{has}
use fenrir.Prelude.Split.{split, split-append, split-none}
use fenrir.Security.Identity.{Bytes, IdentityError, IdentityKeyMaterial, serde}
use fenrir.Security.Identity.Data.{RawHeader, RawClaims}
use fenrir.Security.Identity.Crates.{Crates, IsLawful}
use fenrir.Security.Identity.Jwt.{
  dotted, ok_or, keypair, signed, encode_jwt, parse_jwt, parse_segments,
}

dotted-split :
    (front back : String)
    → has b'.' front ≡ false
    → split b'.' (dotted front back) ≡ front ∷ split b'.' back
dotted-split front back h =
    ap (λ s. split b'.' (front ++ s))
      (cons-append (char_at "." 0) "" back ∙ ap (String.◌∷◌ (char_at "." 0)) (nil-append back))
    ∙ split-append (char_at "." 0) front back h

-- Three texts without dots are the segments of the text that joins them.
dotted-segments :
    (a b c : String)
    → has b'.' a ≡ false
    → has b'.' b ≡ false
    → has b'.' c ≡ false
    → split b'.' (dotted (dotted a b) c) ≡ a ∷ b ∷ c ∷ []
dotted-segments a b c on_a on_b on_c =
    ap (split b'.')
      (append_assoc a ("." ++ b) ("." ++ c) ∙ ap (λ s. a ++ s) (append_assoc "." b ("." ++ c)))
    ∙ dotted-split a (dotted b c) on_a
    ∙ ap (λ ws. a ∷ ws) (dotted-split b c on_b ∙ ap (λ ws. b ∷ ws) (split-none b'.' c on_c))

pub ok_or-ok :
    {A : Type 0} (e : IdentityError) (o : Option A) (a : A) → ok_or e o ≡ ok a → o ≡ some a
ok_or-ok e none a h = absurd (ground arith)
ok_or-ok e (some b) a h = ap some (ok_injective h)

module _ (K : Crates) where
  abbrev pub header_of : IdentityKeyMaterial → RawHeader
  header_of key = record { alg = "EdDSA"; typ = "JWT"; kid = key.key_id }

  -- What a token was made of.
  pub record Encoded (key : IdentityKeyMaterial) (claims : RawClaims) (token : String)
      : Type 0 where
    pub header_json : Bytes
    pub claims_json : Bytes
    pub pair : K.SigningKey
    pub on_header : K.header_to_vec (header_of key) ≡ ok header_json
    pub on_claims : K.claims_to_vec claims ≡ ok claims_json
    pub on_pair : K.from_keypair_bytes key.secret_key key.public_key ≡ some pair
    pub written : signed K pair (dotted (K.encode header_json) (K.encode claims_json)) ≡ token

  pub encode_jwt-Encoded :
      (key : IdentityKeyMaterial) (claims : RawClaims) (token : String)
      → encode_jwt K key claims ≡ ok token
      → Encoded key claims token
  unfolding encode_jwt
  encode_jwt-Encoded key claims token h =
      let (header_json, e_header, h1) =
        and_then-ok (wrap serde (K.header_to_vec (header_of key))) _ token h in
      let (claims_json, e_claims, h2) =
        and_then-ok (wrap serde (K.claims_to_vec claims)) _ token h1 in
      let (pair, e_pair, h3) = and_then-ok (keypair K key) _ token h2 in
      record {
        header_json = header_json;
        claims_json = claims_json;
        pair = pair;
        on_header = wrap-ok serde _ header_json e_header;
        on_claims = wrap-ok serde _ claims_json e_claims;
        on_pair = ok_or-ok _ _ pair e_pair;
        written = ok_injective h3;
      }

  module _ (L : IsLawful K) (key : IdentityKeyMaterial) (claims : RawClaims) (token : String)
      (enc : Encoded key claims token) where
    pub parse_jwt-Encoded :
        parse_jwt K token
        ≡ ok (
          record { encoded_header = K.encode enc.header_json; alg = "EdDSA"; kid = key.key_id },
          record { encoded_claims = K.encode enc.claims_json; decoded = enc.claims_json },
          K.sign enc.pair (dotted (K.encode enc.header_json) (K.encode enc.claims_json)),
        )
    unfolding parse_jwt
    parse_jwt-Encoded =
        ap (λ t. parse_segments K (split b'.' t)) (sym enc.written)
        ∙ ap (parse_segments K) (
            dotted-segments _ _ _ (L.encode_alphabet enc.header_json)
              (L.encode_alphabet enc.claims_json) (L.encode_alphabet _))
        ∙ rw (
          L.decode-encode enc.header_json,
          L.header_reads (header_of key) enc.header_json enc.on_header,
          L.decode-encode enc.claims_json,
          L.decode-encode (
              K.signature_to_bytes
                (K.sign enc.pair (dotted (K.encode enc.header_json) (K.encode enc.claims_json)))),
          L.signature_reads
              (K.sign enc.pair (dotted (K.encode enc.header_json) (K.encode enc.claims_json))),
        )
