-- ===== src/Config/Tests.antt =====
-- The client addresses' theorems at concrete settings.
use text.Mathlib.Text.{◌==◌}
use fenrir.Prelude.{◌≡◌, ◌↔◌, refl, true, none, some, [], ◌∷◌, if◌then◌else◌, arith}
use fenrir.Prelude.Exec.{ok}
use fenrir.Config.Edge.{IpAddr, v4, v6, IpCidr, contains, to_canonical, from_str, Texts}
use fenrir.Config.Edge.Blocks.{contains_iff, InBlock}
use fenrir.Config.Edge.Settings.{EdgeSection, ClientIpPolicy, policy}
use fenrir.Config.Edge.Clients.{IsOutside, resolve, resolve-IsOutside}

-- A stand-in for the standard library, that knows two addresses.
abbrev known : Texts
known = record {
  trim = λ s. s;
  to_ascii_lowercase = λ s. s;
  parse_ip = λ s.
      if s == "10.0.0.0"
      then some (v4 167772160)
      else if s == "::ffff:10.1.1.1"
      then some (v6 281470849581313)
      else none;
  parse_u8 = λ s. if s == "8" then some 8 else none;
  from_utf8 = λ bytes. some "::ffff:10.1.1.1";
}

abbrev ten : IpCidr
ten = record { network = v4 167772160; prefix = 8 }

abbrev behind_proxy : EdgeSection
behind_proxy = record {
  client_ip_header = some "x-real-ip";
  trusted_proxies = "10.0.0.0/8" ∷ "" ∷ [];
}

abbrev trusting : ClientIpPolicy
trusting = record { header = some "x-real-ip"; trusted = ten ∷ [] }

accepts : policy known behind_proxy ≡ ok trusting
unfolding policy from_str to_canonical
accepts = refl

believes : resolve known trusting (some (v4 167772161)) ((1 ∷ []) ∷ []) ≡ some (v4 167837953)
unfolding resolve
believes = refl

abbrev stranger : IpAddr
stranger = v4 184549377

IsOutside-ten : IsOutside stranger ten
unfolding to_canonical
IsOutside-ten (low, high) = absurd (omega arith)

resolve-IsOutside_example :
    resolve known trusting (some stranger) ((1 ∷ []) ∷ []) ≡ some (to_canonical stranger)
resolve-IsOutside_example =
    resolve-IsOutside known behind_proxy trusting accepts stranger (omega arith) (IsOutside-ten, tt)
      ((1 ∷ []) ∷ [])

contains_iff_example :
    (contains ten (v4 167772161) ≡ true) ↔ InBlock (v4 167772160) 8 (to_canonical (v4 167772161))
unfolding to_canonical
contains_iff_example = contains_iff ten (v4 167772161) (omega arith, refl) (omega arith)
