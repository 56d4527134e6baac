-- ===== src/Permissions/Ip.antt =====
-- The address ranges: `canon_ip`, `is_metadata_ip`, `is_private_ip`, with the predicates of
-- `std::net` that they call. An IPv4 address is its octets, an IPv6 address its segments.
pub mod Ranges
use Prim.Native.Nat.{bit_and}
use ferrijs.Prelude.{
  ℕ, ◌+◌, ◌*◌, ◌/◌, ◌%◌, Bool, true, false, ◌&&◌, ◌||◌, Option, none, some, if◌then◌else◌, in_range,
  ◌==◌, nat_eq,
}

pub record V4 : Type 0 where
  pub o0 : ℕ
  pub o1 : ℕ
  pub o2 : ℕ
  pub o3 : ℕ

pub record V6 : Type 0 where
  pub s0 : ℕ
  pub s1 : ℕ
  pub s2 : ℕ
  pub s3 : ℕ
  pub s4 : ℕ
  pub s5 : ℕ
  pub s6 : ℕ
  pub s7 : ℕ

pub data IpAddr : Type 0 where
  v4 : V4 → IpAddr
  v6 : V6 → IpAddr

-- `Ipv6Addr::to_ipv4_mapped`: `::ffff:a.b.c.d`.
unfoldable pub to_ipv4_mapped : V6 → Option V4
to_ipv4_mapped a =
    if a.s0 == 0 && (a.s1 == 0 && (a.s2 == 0 && (a.s3 == 0 && (a.s4 == 0 && a.s5 == 0xffff))))
    then some (record { o0 = a.s6 / 256; o1 = a.s6 % 256; o2 = a.s7 / 256; o3 = a.s7 % 256 })
    else none

unfoldable pub canon_ip : IpAddr → IpAddr
unfolding to_ipv4_mapped
canon_ip (v6 a) = elim (to_ipv4_mapped a) [ some b ↦ v4 b | none ↦ v6 a ]
canon_ip (v4 b) = v4 b

abbrev metadata_v4 : V4 → Bool
metadata_v4 a = a.o0 == 169 && (a.o1 == 254 && (a.o2 == 169 && a.o3 == 254))

abbrev metadata_v6 : V6 → Bool
metadata_v6 a =
    a.s0 == 0xfd00
    && (a.s1 == 0x0ec2
        && (a.s2 == 0
            && (a.s3 == 0 && (a.s4 == 0 && (a.s5 == 0 && (a.s6 == 0 && a.s7 == 0x0254))))))

-- The `match` on a canonical address.
abbrev judge : (V4 → Bool) → (V6 → Bool) → IpAddr → Bool
judge f g (v4 a) = f a
judge f g (v6 a) = g a

unfoldable pub is_metadata_ip : IpAddr → Bool
unfolding canon_ip
is_metadata_ip ip = judge metadata_v4 metadata_v6 (canon_ip ip)

-- `Ipv4Addr::is_loopback`, `is_private`, `is_link_local`, `is_unspecified`, `is_broadcast`.
abbrev is_loopback : V4 → Bool
is_loopback a = a.o0 == 127

abbrev is_private : V4 → Bool
is_private a = a.o0 == 10 || (a.o0 == 172 && in_range 16 31 a.o1 || a.o0 == 192 && a.o1 == 168)

abbrev is_link_local : V4 → Bool
is_link_local a = a.o0 == 169 && a.o1 == 254

abbrev is_unspecified : V4 → Bool
is_unspecified a = a.o0 == 0 && (a.o1 == 0 && (a.o2 == 0 && a.o3 == 0))

abbrev is_broadcast : V4 → Bool
is_broadcast a = a.o0 == 255 && (a.o1 == 255 && (a.o2 == 255 && a.o3 == 255))

abbrev private_v4 : V4 → Bool
private_v4 a =
    is_loopback a
    || (is_private a
        || (is_link_local a
            || (is_unspecified a
                || (is_broadcast a || (a.o0 == 0 || a.o0 == 100 && in_range 64 127 a.o1)))))

-- `Ipv6Addr::is_loopback` or `is_unspecified`.
abbrev low_v6 : V6 → Bool
low_v6 a =
    a.s0 == 0
    && (a.s1 == 0
        && (a.s2 == 0
            && (a.s3 == 0
                && (a.s4 == 0 && (a.s5 == 0 && (a.s6 == 0 && (a.s7 == 1 || a.s7 == 0)))))))

abbrev private_v6 : V6 → Bool
private_v6 a = low_v6 a || (bit_and a.s0 0xfe00 == 0xfc00 || bit_and a.s0 0xffc0 == 0xfe80)

unfoldable pub is_private_ip : IpAddr → Bool
unfolding canon_ip
is_private_ip ip = judge private_v4 private_v6 (canon_ip ip)
