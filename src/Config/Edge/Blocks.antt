-- ===== src/Config/Edge/Blocks.antt =====
-- Address blocks as intervals of addresses (config/edge.rs).
use Prim.Native.Nat.{◌/◌}
use native.Mathlib.Nat.{le-div_iff_mul-le, div-lt_iff_lt-mul}
use fenrir.Prelude.{
  ℕ, zero, suc, ◌+◌, ◌-◌, ◌*◌, ◌^◌, ◌≤◌, ◌<◌, ◌≡◌, ◌↔◌, refl, sym, subst, ◌∙◌, ap, String, Bool,
  true, false, Option, none, some, leb, lt→ltb, leb→le, arith, inl, inr, Bool-cases,
}
use fenrir.Prelude.Exec.{ok}
use fenrir.Config.Edge.{
  IpAddr, v4, v6, ip_eq, to_canonical, IpCidr, prefix_match, contains, contains_canonical,
  clear_low, mask_of, masked, max_prefix, checked_cidr, with_length, with_prefix, with_network,
  from_str, split_once, Texts,
}

-- The number is of the block that starts at the network and has the size that the prefix leaves.
abbrev pub IsWithin : ℕ → ℕ → ℕ → ℕ → Type 0
IsWithin bits net prefix ip = (net ≤ ip) × (ip < net + 2 ^ (bits - prefix))

abbrev pub InBlock : IpAddr → ℕ → IpAddr → Type 0
InBlock (v4 net) prefix (v4 ip) = IsWithin 32 net prefix ip
InBlock (v6 net) prefix (v6 ip) = IsWithin 128 net prefix ip
InBlock _ prefix _ = ◌≡◌ {A = Bool} false true

-- The prefix fits the kind of address, and no bit below it is set.
abbrev pub IsBlock : IpCidr → Type 0
IsBlock cidr = (cidr.prefix ≤ max_prefix cidr.network) × (masked cidr ≡ cidr.network)

-- The address has the bits of its kind.
abbrev pub FitsBits : IpAddr → Type 0
FitsBits (v4 n) = n < 2 ^ 32
FitsBits (v6 n) = n < 2 ^ 128

pow_pos : (k : ℕ) → 0 < 2 ^ k
pow_pos zero = omega arith
pow_pos (suc k) = omega (arith, pow_pos k)

-- A number has the quotient exactly when it is of the interval.
quotient_iff : (s q n : ℕ) → 0 < s → (n / s ≡ q) ↔ ((q * s ≤ n) × (n < q * s + s))
quotient_iff s q n pos =
    let low = le-div_iff_mul-le {k = s} {x = q} {y = n} pos in
    let high = div-lt_iff_lt-mul {k = s} {x = n} {y = suc q} pos in
    (
      λ e. (low.0 (omega arith), omega (arith, high.0 (omega arith))),
      λ (h, k). let above = low.1 h in let below = high.1 (omega arith) in omega arith,
    )

-- A network with no bit below the shift has a number's quotient exactly when the number is of its
-- interval.
same_quotient :
    (s net ip : ℕ) → 0 < s → net / s * s ≡ net → (net / s ≡ ip / s) ↔ ((net ≤ ip) × (ip < net + s))
same_quotient s net ip pos clear =
    let iff = quotient_iff s (net / s) ip pos in
    (
      λ e. let (h, k) = iff.0 (sym e) in (omega arith, omega arith),
      λ (h, k). sym (iff.1 (omega arith, omega arith)),
    )

clear_low_some : (w n s : ℕ) → s < w → clear_low w n s ≡ n / 2 ^ s * 2 ^ s
clear_low_some w n s h = rw (lt→ltb s w h) refl

clear_low_all : (w n : ℕ) → clear_low w n (w - 0) ≡ 0
clear_low_all w n = ground arith

prefix_match_iff :
    (bits net prefix ip : ℕ)
    → prefix ≤ bits
    → ip < 2 ^ bits
    → clear_low bits net (bits - prefix) ≡ net
    → (prefix_match net ip bits prefix ≡ true) ↔ IsWithin bits net prefix ip
unfolding prefix_match
prefix_match_iff bits net zero ip fits small clear =
    let all = sym clear ∙ clear_low_all bits net in
    let size : 2 ^ (bits - 0) ≡ 2 ^ bits = ap (λ k. 2 ^ k) (omega arith) in
    (λ e. (omega arith, omega (arith, size, small)), λ h. refl)
prefix_match_iff bits net (suc prefix) ip fits small clear =
    let s = bits - suc prefix in
    let iff =
      same_quotient (2 ^ s) net ip (pow_pos s)
        (sym (clear_low_some bits net s (omega arith)) ∙ clear) in
    (λ e. iff.0 (ground arith), λ h. let same = iff.1 h in ground arith)

number_of : IpAddr → ℕ
number_of (v4 n) = n
number_of (v6 n) = n

contains_canonical_iff :
    (net : IpAddr) (prefix : ℕ) (ip : IpAddr)
    → prefix ≤ max_prefix net
    → mask_of net prefix ≡ net
    → FitsBits ip
    → (contains_canonical net prefix ip ≡ true) ↔ InBlock net prefix ip
unfolding number_of
contains_canonical_iff (v4 net) prefix (v4 ip) fits clear small =
    prefix_match_iff 32 net prefix ip fits small (ap number_of clear)
contains_canonical_iff (v6 net) prefix (v6 ip) fits clear small =
    prefix_match_iff 128 net prefix ip fits small (ap number_of clear)
contains_canonical_iff (v4 net) prefix (v6 ip) fits clear small = (λ h. h, λ h. h)
contains_canonical_iff (v6 net) prefix (v4 ip) fits clear small = (λ h. h, λ h. h)

-- A block contains exactly the addresses of its interval, of as many addresses as its prefix leaves
-- bits: where the block's prefix fits and no bit below it is set, and the address, in its canonical
-- form, has the bits of its kind.
pub contains_iff :
    (cidr : IpCidr) (ip : IpAddr)
    → IsBlock cidr
    → FitsBits (to_canonical ip)
    → (contains cidr ip ≡ true) ↔ InBlock cidr.network cidr.prefix (to_canonical ip)
unfolding contains
contains_iff cidr ip (fits, clear) small =
    contains_canonical_iff cidr.network cidr.prefix (to_canonical ip) fits clear small

ip_eq_sound : (a b : IpAddr) → ip_eq a b ≡ true → a ≡ b
ip_eq_sound (v4 a) (v4 b) h = ap v4 (ground arith)
ip_eq_sound (v6 a) (v6 b) h = ap v6 (ground arith)
ip_eq_sound (v4 a) (v6 b) h = absurd (ground arith)
ip_eq_sound (v6 a) (v4 b) h = absurd (ground arith)

checked_cidr-IsBlock :
    (given cidr : IpCidr)
    → given.prefix ≤ max_prefix given.network
    → checked_cidr given ≡ ok cidr
    → IsBlock cidr
checked_cidr-IsBlock given cidr fits made = elim (Bool-cases (ip_eq given.network (masked given))) [
  | inl h ↦
      let same : given ≡ cidr = ground arith in
      subst IsBlock same (fits, sym (ip_eq_sound given.network (masked given) h))
  | inr h ↦ absurd (ground arith)
]

with_length-IsBlock :
    (network : IpAddr) (length : Option ℕ) (cidr : IpCidr)
    → with_length network length ≡ ok cidr
    → IsBlock cidr
with_length-IsBlock network none cidr made = absurd (ground arith)
with_length-IsBlock network (some prefix) cidr made =
    elim (Bool-cases (leb prefix (max_prefix network))) [
      | inl h ↦
          checked_cidr-IsBlock (record { network = network; prefix = prefix }) cidr
            (leb→le prefix (max_prefix network) h) (ground arith)
      | inr h ↦ absurd (ground arith)
    ]

module _ (T : Texts) where
  with_prefix-IsBlock :
      (network : IpAddr) (prefix : Option String) (cidr : IpCidr)
      → with_prefix T network prefix ≡ ok cidr
      → IsBlock cidr
  with_prefix-IsBlock network none cidr made =
      checked_cidr-IsBlock (record { network = network; prefix = max_prefix network }) cidr
        (omega arith) made
  with_prefix-IsBlock network (some value) cidr made =
      with_length-IsBlock network (T.parse_u8 (T.trim value)) cidr made

  with_network-IsBlock :
      (found : Option IpAddr) (prefix : Option String) (cidr : IpCidr)
      → with_network T found prefix ≡ ok cidr
      → IsBlock cidr
  with_network-IsBlock none prefix cidr made = absurd (ground arith)
  with_network-IsBlock (some ip) prefix cidr made =
      with_prefix-IsBlock (to_canonical ip) prefix cidr made

  -- What is parsed is a block.
  pub from_str-IsBlock : (raw : String) (cidr : IpCidr) → from_str T raw ≡ ok cidr → IsBlock cidr
  unfolding from_str
  from_str-IsBlock raw cidr made =
      with_network-IsBlock (T.parse_ip (T.trim (split_once 47 raw).0)) (split_once 47 raw).1 cidr
        made
