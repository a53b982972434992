-- ===== src/Security/Identity/Jwt.antt =====
-- security/identity/jwt.rs: a token is three base64 texts with dots between, the last one the
-- signature of what is before it.
use Prim.Native.String.{◌++◌}
use fenrir.Prelude.{String, Option, none, some, List, [], ◌∷◌}
use fenrir.Prelude.Exec.{Result, ok, err, wrap, and_then}
use fenrir.Prelude.Split.{split}
use fenrir.Security.Identity.{
  Bytes, Reason, IdentityError, IdentityKeyMaterial, serde, invalid, unauthorized,
  stored_key_material_invalid, stored_public_key_invalid, invalid_token_missing_header,
  invalid_token_missing_claims, invalid_token_missing_signature, invalid_token_too_many_segments,
  invalid_token_header_encoding, invalid_token_header_payload, invalid_token_claims_encoding,
  invalid_signature_encoding, invalid_signature_length,
}
use fenrir.Security.Identity.Data.{RawHeader, RawClaims}
use fenrir.Security.Identity.Crates.{Crates}

pub record ParsedHeader : Type 0 where
  pub encoded_header : String
  pub alg : String
  pub kid : String

pub record ParsedClaims : Type 0 where
  pub encoded_claims : String
  pub decoded : Bytes

-- `ok_or_else`.
abbrev pub ok_or : {A : Type 0} → IdentityError → Option A → Result IdentityError A
ok_or e none = err e
ok_or e (some a) = ok a

-- `map_err(|_| …)`.
abbrev pub or_else : {A : Type 0} → Reason → Result String A → Result IdentityError A
or_else reason = wrap λ text. unauthorized reason

-- `format!("{header}.{claims}")`.
abbrev pub dotted : String → String → String
dotted front back = front ++ "." ++ back

module _ (K : Crates) where
  -- `IdentityKeyMaterial::keypair`.
  abbrev pub keypair : IdentityKeyMaterial → Result IdentityError K.SigningKey
  keypair key =
      ok_or (invalid stored_key_material_invalid)
        (K.from_keypair_bytes key.secret_key key.public_key)

  -- `IdentityKeyMaterial::verifying_key`.
  abbrev pub verifying_key : IdentityKeyMaterial → Result IdentityError K.VerifyingKey
  verifying_key key =
      ok_or (invalid stored_public_key_invalid) (K.verifying_from_bytes key.public_key)

  abbrev pub signed : K.SigningKey → String → String
  signed pair input = dotted input (K.encode (K.signature_to_bytes (K.sign pair input)))

  unfoldable pub encode_jwt : IdentityKeyMaterial → RawClaims → Result IdentityError String
  encode_jwt key claims =
      let header : RawHeader = record { alg = "EdDSA"; typ = "JWT"; kid = key.key_id } in
      and_then (wrap serde (K.header_to_vec header)) λ header_json.
        and_then (wrap serde (K.claims_to_vec claims)) λ claims_json.
          let input = dotted (K.encode header_json) (K.encode claims_json) in
          and_then (keypair key) λ pair. ok (signed pair input)

  unfoldable pub fingerprint_token : String → String
  fingerprint_token token = K.encode (K.sha256 token)

  abbrev Parsed : Type 0
  Parsed = ParsedHeader × ParsedClaims × K.Signature

  abbrev pub parse_parts : String → String → String → Result IdentityError Parsed
  parse_parts header claims signature =
      and_then (or_else invalid_token_header_encoding (K.decode header)) λ header_bytes.
        and_then (or_else invalid_token_header_payload (K.header_from_slice header_bytes)) λ obj.
          and_then (or_else invalid_token_claims_encoding (K.decode claims)) λ claims_bytes.
            and_then (or_else invalid_signature_encoding (K.decode signature)) λ bytes.
              and_then
                (ok_or (unauthorized invalid_signature_length) (K.signature_from_slice bytes))
                λ found.
                  let head : ParsedHeader = record {
                    encoded_header = header;
                    alg = obj.alg;
                    kid = obj.kid;
                  } in
                  let body : ParsedClaims = record {
                    encoded_claims = claims;
                    decoded = claims_bytes;
                  } in
                  ok (head, body, found)

  abbrev pub parse_segments : List String → Result IdentityError Parsed
  parse_segments [] = err (unauthorized invalid_token_missing_header)
  parse_segments (header ∷ []) = err (unauthorized invalid_token_missing_claims)
  parse_segments (header ∷ claims ∷ []) = err (unauthorized invalid_token_missing_signature)
  parse_segments (header ∷ claims ∷ signature ∷ []) = parse_parts header claims signature
  parse_segments (header ∷ claims ∷ signature ∷ _ ∷ _) =
      err (unauthorized invalid_token_too_many_segments)

  unfoldable pub parse_jwt : String → Result IdentityError Parsed
  unfolding split
  parse_jwt token = parse_segments (split b'.' token)
