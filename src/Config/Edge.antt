-- ===== src/Config/Edge.antt =====
-- config/edge.rs: whose word the host takes for a client's address. An address is its number, of 32
-- or 128 bits. Parsing an address or a number, trimming, lowering and decoding a text are the
-- standard library's, and parameters.
pub mod Blocks
pub mod Settings
pub mod Clients
use Prim.Native.Nat.{◌/◌, ◌%◌}
use Prim.Native.String
use Prim.Native.Char.{code}
use fenrir.Prelude.{
  ℕ, ◌-◌, ◌*◌, ◌^◌, String, Bool, true, false, not, ◌&&◌, ◌||◌, Option, none, some, List, [], ◌∷◌,
  map, any, keep, is_some, ltb, leb, ◌==◌, if◌then◌else◌,
}
use fenrir.Prelude.Exec.{Result, ok, err}

pub data IpAddr : Type 0 where
  v4 v6 : ℕ → IpAddr

abbrev pub ip_eq : IpAddr → IpAddr → Bool
ip_eq (v4 a) (v4 b) = a == b
ip_eq (v6 a) (v6 b) = a == b
ip_eq _ _ = false

-- `IpAddr::to_canonical` of the standard library: `::ffff:a.b.c.d` is an IPv4 address.
unfoldable pub to_canonical : IpAddr → IpAddr
to_canonical (v4 n) = v4 n
to_canonical (v6 n) = if n / 2 ^ 32 == 65535 then v4 (n % 2 ^ 32) else v6 n

pub record IpCidr : Type 0 where
  pub network : IpAddr
  pub prefix : ℕ

-- `>>` on the number.
abbrev pub shift_right : ℕ → ℕ → ℕ
shift_right n shift = n / 2 ^ shift

unfoldable pub prefix_match : ℕ → ℕ → ℕ → ℕ → Bool
prefix_match net ip bits prefix =
    if prefix == 0 then true else shift_right net (bits - prefix) == shift_right ip (bits - prefix)

abbrev pub contains_canonical : IpAddr → ℕ → IpAddr → Bool
contains_canonical (v4 net) prefix (v4 ip) = prefix_match net ip 32 prefix
contains_canonical (v6 net) prefix (v6 ip) = prefix_match net ip 128 prefix
contains_canonical _ prefix _ = false

-- `IpCidr::contains`.
unfoldable pub contains : IpCidr → IpAddr → Bool
unfolding prefix_match
contains cidr ip = contains_canonical cidr.network cidr.prefix (to_canonical ip)

-- `n & MAX.checked_shl(shift).unwrap_or(0)`: the low bits are cleared, all of them where the shift
-- is not below the width.
abbrev pub clear_low : ℕ → ℕ → ℕ → ℕ
clear_low width n shift = if ltb shift width then n / 2 ^ shift * 2 ^ shift else 0

abbrev pub mask_of : IpAddr → ℕ → IpAddr
mask_of (v4 net) prefix = v4 (clear_low 32 net (32 - prefix))
mask_of (v6 net) prefix = v6 (clear_low 128 net (128 - prefix))

-- `IpCidr::masked`.
abbrev pub masked : IpCidr → IpAddr
masked cidr = mask_of cidr.network cidr.prefix

abbrev pub max_prefix : IpAddr → ℕ
max_prefix (v4 n) = 32
max_prefix (v6 n) = 128

-- What is wrong with an entry.
pub data CidrError : Type 0 where
  not_an_address : CidrError
  prefix_length : ℕ → CidrError
  host_bits : CidrError

-- What the code calls of the standard library.
pub record Texts : Type 0 where
  pub trim : String → String
  pub to_ascii_lowercase : String → String
  pub parse_ip : String → Option IpAddr
  pub parse_u8 : String → Option ℕ
  pub from_utf8 : List ℕ → Option String

abbrev pub cut : Bool → String → String × Option String → String × Option String
cut true rest later = ("", some rest)
cut false rest later = later

-- `split_once`, of the character with the code.
unfoldable pub split_once : ℕ → String → String × Option String
split_once at String.[] = ("", none)
split_once at (String.◌∷◌ c s) =
    let (front, back) = split_once at s in cut (code c == at) s (String.◌∷◌ c front, back)

abbrev pub checked_cidr : IpCidr → Result CidrError IpCidr
checked_cidr cidr = if not (ip_eq cidr.network (masked cidr)) then err host_bits else ok cidr

abbrev pub with_length : IpAddr → Option ℕ → Result CidrError IpCidr
with_length network none = err (prefix_length (max_prefix network))
with_length network (some prefix) =
    if leb prefix (max_prefix network)
    then checked_cidr (record { network = network; prefix = prefix })
    else err (prefix_length (max_prefix network))

module _ (T : Texts) where
  abbrev pub with_prefix : IpAddr → Option String → Result CidrError IpCidr
  with_prefix network none =
      checked_cidr (record { network = network; prefix = max_prefix network })
  with_prefix network (some value) = with_length network (T.parse_u8 (T.trim value))

  abbrev pub with_network : Option IpAddr → Option String → Result CidrError IpCidr
  with_network none prefix = err not_an_address
  with_network (some ip) prefix = with_prefix (to_canonical ip) prefix

  -- `IpCidr::from_str`; the character is `/`.
  unfoldable pub from_str : String → Result CidrError IpCidr
  unfolding split_once
  from_str raw =
      let (addr, prefix) = split_once 47 raw in with_network (T.parse_ip (T.trim addr)) prefix
