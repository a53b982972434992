-- ===== src/Config/Edge/Clients.antt =====
-- The client of a request from outside (`ClientIpPolicy` of config/edge.rs).
use Prim.Native.Nat.{◌/◌}
use fenrir.Prelude.{
  ℕ, ◌≡◌, refl, ap, String, Bool, true, false, ◌&&◌, Option, none, some, List, [], ◌∷◌, All, any,
  is_some, if◌then◌else◌, arith, subst, inl, inr, Bool-cases, ◌==◌, ◌^◌,
}
use fenrir.Prelude.Exec.{ok}
use fenrir.Config.Edge.{IpAddr, v4, v6, IpCidr, contains, to_canonical, Texts}
use fenrir.Config.Edge.Blocks.{IsBlock, InBlock, FitsBits, contains_iff}
use fenrir.Config.Edge.Settings.{ClientIpPolicy, EdgeSection, policy, policy-IsSound}

unfoldable pub is_trusted_peer : ClientIpPolicy → IpAddr → Bool
unfolding contains
is_trusted_peer p peer = any (λ cidr. contains cidr peer) p.trusted

module _ (T : Texts) where
  abbrev parsed_client : IpAddr → Option String → IpAddr
  parsed_client proxy none = proxy
  parsed_client proxy (some value) = elim (T.parse_ip (T.trim value)) [
    | none ↦ proxy
    | some client ↦ to_canonical client
  ]

  -- Exactly one value, that is an address.
  abbrev pub claimed : IpAddr → List (List ℕ) → IpAddr
  claimed proxy [] = proxy
  claimed proxy (value ∷ []) = parsed_client proxy (T.from_utf8 value)
  claimed proxy (value ∷ other ∷ more) = proxy

  -- `ClientIpPolicy::resolve`.
  unfoldable pub resolve : ClientIpPolicy → Option IpAddr → List (List ℕ) → Option IpAddr
  unfolding is_trusted_peer to_canonical
  resolve p none values = none
  resolve p (some ip) values =
      let peer = to_canonical ip in
      some (if is_some p.header && is_trusted_peer p peer then claimed peer values else peer)

to_canonical_idem : (ip : IpAddr) → to_canonical (to_canonical ip) ≡ to_canonical ip
unfolding to_canonical
to_canonical_idem (v4 n) = refl
to_canonical_idem (v6 n) = elim (Bool-cases (n / 2 ^ 32 == 65535)) [
  | inl h ↦ rw h refl
  | inr h ↦ rw (h, h) refl
]

to_canonical-FitsBits : (ip : IpAddr) → FitsBits ip → FitsBits (to_canonical ip)
unfolding to_canonical
to_canonical-FitsBits (v4 n) small = small
to_canonical-FitsBits (v6 n) small = elim (Bool-cases (n / 2 ^ 32 == 65535)) [
  | inl h ↦ rw h (omega arith)
  | inr h ↦ rw h small
]

-- The address is outside of the block.
abbrev pub IsOutside : IpAddr → IpCidr → Type 0
IsOutside ip cidr = ¬ (InBlock cidr.network cidr.prefix (to_canonical ip))

outside-All :
    (ip : IpAddr) (cidrs : List IpCidr)
    → FitsBits ip
    → All IsBlock cidrs
    → All (IsOutside ip) cidrs
    → any (λ cidr. contains cidr (to_canonical ip)) cidrs ≡ false
outside-All ip [] small blocks outside = refl
outside-All ip (cidr ∷ cidrs) small blocks outside =
    let rest = outside-All ip cidrs small blocks.1 outside.1 in
    let here =
      contains_iff cidr (to_canonical ip) blocks.0
        (to_canonical-FitsBits (to_canonical ip) (to_canonical-FitsBits ip small)) in
    elim (Bool-cases (contains cidr (to_canonical ip))) [
      | inl h ↦
          absurd
            (outside.0 (subst (InBlock cidr.network cidr.prefix) (to_canonical_idem ip) (here.0 h)))
      | inr h ↦ rw h rest
    ]

if_second :
    {A : Type 0} (first second : Bool) (a b : A)
    → second ≡ false
    → (if first && second then a else b) ≡ b
if_second true second a b h = rw h refl
if_second false second a b h = refl

module _ (T : Texts) where
  -- Whatever values of the header it sends, a peer outside of all the trusted proxies of accepted
  -- settings is taken for the address that it connects from.
  pub resolve-IsOutside :
      (section : EdgeSection) (p : ClientIpPolicy)
      → policy T section ≡ ok p
      → (ip : IpAddr) → FitsBits ip
      → All (IsOutside ip) p.trusted
      → (values : List (List ℕ)) → resolve T p (some ip) values ≡ some (to_canonical ip)
  unfolding resolve is_trusted_peer
  resolve-IsOutside section p accepted ip small outside values =
      let nobody = outside-All ip p.trusted small (policy-IsSound T section p accepted).0 outside in
      ap some (if_second (is_some p.header) (is_trusted_peer p (to_canonical ip)) _ _ nobody)
