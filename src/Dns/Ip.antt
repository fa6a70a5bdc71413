-- ===== src/Dns/Ip.antt =====
-- src/dns/mod.rs: addresses, the tests on them, and `filter_ips`.
use hakimi_hub.Prelude.{
  ltb, leb, ◌==◌, if◌then◌else◌, ltb→lt, lt→ltb, leb→le, le→leb, ==_iff, ==_refl, Bool-cases,
  Option-cases, &&-elim, &&-intro, ||-elim, is_some, present, length, get_elem?, take, drop,
  is_empty, any, all, select, All, length-append, take-append-drop, length-take, length-drop,
  take-length_append, drop-length_append, All-append, ℕ, zero, suc, ◌+◌, ◌-◌, ◌*◌, ◌/◌, ◌%◌, ◌^◌,
  ◌≤◌, ◌<◌, ◌≡◌, refl, sym, ap, ◌∙◌, ◌≢◌, ◌↔◌, ◌⊎◌, inl, inr, Bool, true, false, not, ◌&&◌, ◌||◌,
  Option, none, some, List, [], ◌∷◌, ◌++◌, map, arith,
}
use hakimi_hub.Prelude.Str.{Text, codes}
use hakimi_hub.Prelude.Str
use mathlib.Core.Option
use mathlib.Core.List
pub mod Filter
pub mod Equality

-- The four bytes of an IPv4 address; the eight 16-bit groups of an IPv6 address.
pub data IpAddr : Type 0 where
  v4 : ℕ → ℕ → ℕ → ℕ → IpAddr
  v6 : ℕ → ℕ → ℕ → ℕ → ℕ → ℕ → ℕ → ℕ → IpAddr

pub data IpFilterLevel : Type 0 where
  nothing strict public_only : IpFilterLevel

-- `octets[0] >= 240 && octets[0] < 255`
unfoldable pub is_reserved_ipv4 : ℕ → Bool
is_reserved_ipv4 a = leb 240 a && ltb a 255

-- The tests of the standard library's `Ipv4Addr` and `Ipv6Addr`, in the order of the source.
unfoldable pub is_invalid_ip : IpAddr → Bool
unfolding is_reserved_ipv4
is_invalid_ip (v4 a b c d) =
    (a == 0 && b == 0 && c == 0 && d == 0)
    || a == 127
    || (a == 169 && b == 254)
    || (a == 255 && b == 255 && c == 255 && d == 255)
    || ((a == 192 && b == 0 && c == 2)
        || (a == 198 && b == 51 && c == 100)
        || (a == 203 && b == 0 && c == 113))
    || (leb 224 a && leb a 239)
    || is_reserved_ipv4 a
is_invalid_ip (v6 a b c d e f g h) =
    (a == 0 && b == 0 && c == 0 && d == 0 && e == 0 && f == 0 && g == 0 && h == 0)
    || (a == 0 && b == 0 && c == 0 && d == 0 && e == 0 && f == 0 && g == 0 && h == 1)
    || a / 256 == 255
    || (leb 0xfe80 a && leb a 0xfebf)

unfoldable pub is_private_ip : IpAddr → Bool
is_private_ip (v4 a b c d) = a == 10 || (a == 172 && leb 16 b && leb b 31) || (a == 192 && b == 168)
is_private_ip (v6 a b c d e f g h) = leb 0xfc00 a && leb a 0xfdff

-- The deprecated `is_suspicious`.
unfoldable pub is_suspicious : IpAddr → Bool
unfolding is_invalid_ip is_private_ip
is_suspicious ip = is_invalid_ip ip || is_private_ip ip

abbrev pub is_public_only : IpFilterLevel → Bool
is_public_only nothing = false
is_public_only strict = false
is_public_only public_only = true

-- The closure of the filter.
unfoldable pub keeps : IpFilterLevel → IpAddr → Bool
keeps level ip =
    if is_invalid_ip ip
    then false
    else if is_public_only level && is_private_ip ip
    then false
    else true

abbrev pub fall_back : List IpAddr → List IpAddr → List IpAddr
fall_back ips filtered = if is_empty filtered && not (is_empty ips) then ips else filtered

unfoldable pub filter_ips : List IpAddr → IpFilterLevel → List IpAddr
filter_ips ips nothing = ips
filter_ips ips strict = fall_back ips (select (keeps strict) ips)
filter_ips ips public_only = fall_back ips (select (keeps public_only) ips)

-- The deprecated `filter_suspicious`.
unfoldable pub filter_suspicious : List IpAddr → List IpAddr
filter_suspicious ips = filter_ips ips public_only
