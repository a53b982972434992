-- ===== src/Config/Edge/Settings.antt =====
-- `EdgeSection` and its policy (config/edge.rs).
use Prim.Native.Char.{code}
use fenrir.Prelude.{
  ℕ, ◌≡◌, refl, subst, String, Bool, true, false, not, ◌&&◌, ◌||◌, Option, none, some, List, [],
  ◌∷◌, All, map, any, keep, is_some, leb, ◌==◌, if◌then◌else◌, arith, inl, inr, Bool-cases,
}
use fenrir.Prelude.Exec.{Result, ok, err}
use fenrir.Config.Edge.{IpCidr, CidrError, from_str, Texts}
use fenrir.Config.Edge.Blocks.{IsBlock, from_str-IsBlock}

pub record EdgeSection : Type 0 where
  pub client_ip_header : Option String
  pub trusted_proxies : List String

pub record ClientIpPolicy : Type 0 where
  pub header : Option String
  pub trusted : List IpCidr

pub data EdgeError : Type 0 where
  invalid_header : String → EdgeError
  invalid_entry : String → CidrError → EdgeError
  needs_proxies : EdgeError

abbrev is_empty_text : String → Bool
is_empty_text String.[] = true
is_empty_text (String.◌∷◌ c s) = false

-- The characters of a token that are neither digits nor letters: "!#$%&'*+-.^_`|~".
abbrev token_marks : List ℕ
token_marks = 33 ∷ 35 ∷ 36 ∷ 37 ∷ 38 ∷ 39 ∷ 42 ∷ 43 ∷ 45 ∷ 46 ∷ 94 ∷ 95 ∷ 96 ∷ 124 ∷ 126 ∷ []

abbrev pub is_token_char : ℕ → Bool
is_token_char c =
    (leb b'0' c && leb c b'9')
    || (leb b'A' c && leb c b'Z')
    || (leb b'a' c && leb c b'z')
    || any (λ mark. mark == c) token_marks

unfoldable pub all_token : String → Bool
all_token String.[] = true
all_token (String.◌∷◌ c s) = let rest = all_token s in is_token_char (code c) && rest

unfoldable pub is_header_token : String → Bool
unfolding all_token
is_header_token name = not (is_empty_text name) && all_token name

abbrev filtered : Option String → Option String
filtered none = none
filtered (some value) = if is_empty_text value then none else some value

abbrev trimmed : (String → String) → Option String → Option String
trimmed trim none = none
trimmed trim (some value) = some (trim value)

abbrev is_empty {ℓ} : {A : Type ℓ} → List A → Bool
is_empty [] = true
is_empty (x ∷ xs) = false

module _ (T : Texts) where
  abbrev pub header_of : Option String → Result EdgeError (Option String)
  header_of none = ok none
  header_of (some name) =
      if not (is_header_token name)
      then err (invalid_header name)
      else ok (some (T.to_ascii_lowercase name))

  abbrev put_first : IpCidr → Result EdgeError (List IpCidr) → Result EdgeError (List IpCidr)
  put_first cidr (ok cidrs) = ok (cidr ∷ cidrs)
  put_first cidr (err e) = err e

  abbrev parsed_entry :
      String
      → Result CidrError IpCidr
      → Result EdgeError (List IpCidr)
      → Result EdgeError (List IpCidr)
  parsed_entry entry (err reason) rest = err (invalid_entry entry reason)
  parsed_entry entry (ok cidr) rest = put_first cidr rest

  -- `collect` stops at the first entry that is not parsed.
  unfoldable pub parse_all : List String → Result EdgeError (List IpCidr)
  parse_all [] = ok []
  parse_all (entry ∷ entries) =
      let rest = parse_all entries in parsed_entry entry (from_str T entry) rest

  abbrev with_trusted :
      Option String → Result EdgeError (List IpCidr) → Result EdgeError ClientIpPolicy
  with_trusted header (err e) = err e
  with_trusted header (ok trusted) =
      if is_some header && is_empty trusted
      then err needs_proxies
      else ok (record { header = header; trusted = trusted })

  abbrev with_header :
      Result EdgeError (Option String) → List String → Result EdgeError ClientIpPolicy
  with_header (err e) entries = err e
  with_header (ok header) entries = with_trusted header (parse_all entries)

  -- `EdgeSection::policy`.
  unfoldable pub policy : EdgeSection → Result EdgeError ClientIpPolicy
  unfolding parse_all is_header_token
  policy section =
      with_header (header_of (filtered (trimmed T.trim section.client_ip_header)))
        (keep (λ entry. not (is_empty_text entry)) (map T.trim section.trusted_proxies))

  put_first-IsBlock :
      (cidr : IpCidr) (rest : Result EdgeError (List IpCidr)) (cidrs : List IpCidr)
      → IsBlock cidr
      → ((others : List IpCidr) → rest ≡ ok others → All IsBlock others)
      → put_first cidr rest ≡ ok cidrs
      → All IsBlock cidrs
  put_first-IsBlock cidr (err e) cidrs here others made = absurd (ground arith)
  put_first-IsBlock cidr (ok rest) cidrs here others made =
      let same : (cidr ∷ rest) ≡ cidrs = ground arith in
      subst (All IsBlock) same (here, others rest refl)

  parsed_entry-IsBlock :
      (entry : String) (r : Result CidrError IpCidr) (rest : Result EdgeError (List IpCidr))
      (cidrs : List IpCidr)
      → ((cidr : IpCidr) → r ≡ ok cidr → IsBlock cidr)
      → ((others : List IpCidr) → rest ≡ ok others → All IsBlock others)
      → parsed_entry entry r rest ≡ ok cidrs
      → All IsBlock cidrs
  parsed_entry-IsBlock entry (err reason) rest cidrs here others made = absurd (ground arith)
  parsed_entry-IsBlock entry (ok cidr) rest cidrs here others made =
      put_first-IsBlock cidr rest cidrs (here cidr refl) others made

  parse_all-IsBlock :
      (entries : List String) (cidrs : List IpCidr)
      → parse_all entries ≡ ok cidrs
      → All IsBlock cidrs
  unfolding parse_all
  parse_all-IsBlock [] cidrs made =
      let same : [] ≡ cidrs = ground arith in subst (All IsBlock) same tt
  parse_all-IsBlock (entry ∷ entries) cidrs made =
      parsed_entry-IsBlock entry (from_str T entry) (parse_all entries) cidrs
        (λ cidr e. from_str-IsBlock T entry cidr e) (parse_all-IsBlock entries) made

  -- Every trusted entry is a block, and a header is believed of someone.
  abbrev pub IsSound : ClientIpPolicy → Type 0
  IsSound p = All IsBlock p.trusted × ((is_some p.header && is_empty p.trusted) ≡ false)

  with_trusted-IsSound :
      (header : Option String) (r : Result EdgeError (List IpCidr)) (p : ClientIpPolicy)
      → ((cidrs : List IpCidr) → r ≡ ok cidrs → All IsBlock cidrs)
      → with_trusted header r ≡ ok p
      → IsSound p
  with_trusted-IsSound header (err e) p blocks made = absurd (ground arith)
  with_trusted-IsSound header (ok trusted) p blocks made =
      elim (Bool-cases (is_some header && is_empty trusted)) [
        | inl h ↦ absurd (ground arith)
        | inr h ↦
            let same : record { header = header; trusted = trusted } ≡ p = ground arith in
            subst IsSound same (blocks trusted refl, h)
      ]

  with_header-IsSound :
      (r : Result EdgeError (Option String)) (entries : List String) (p : ClientIpPolicy)
      → with_header r entries ≡ ok p
      → IsSound p
  with_header-IsSound (err e) entries p made = absurd (ground arith)
  with_header-IsSound (ok header) entries p made =
      with_trusted-IsSound header (parse_all entries) p (parse_all-IsBlock entries) made

  -- Settings that are accepted name only blocks whose prefix fits and that have no bit below it
  -- set, and where they name a header they name a block.
  pub policy-IsSound :
      (section : EdgeSection) (p : ClientIpPolicy) → policy section ≡ ok p → IsSound p
  unfolding policy
  policy-IsSound section p made =
      with_header-IsSound (header_of (filtered (trimmed T.trim section.client_ip_header)))
        (keep (λ entry. not (is_empty_text entry)) (map T.trim section.trusted_proxies)) p made
