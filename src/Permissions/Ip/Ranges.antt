-- ===== src/Permissions/Ip/Ranges.antt =====
-- Mapped addresses are judged by the address that they map, and the metadata endpoints are private.
use ferrijs.Prelude.{ℕ, ◌+◌, ◌*◌, ◌<◌, ◌≡◌, ap, true, arith, nat_eq}
use Prim.Native.Nat.{bit_and}
use ferrijs.Permissions.Ip.{
  judge, metadata_v4, metadata_v6, private_v4, private_v6, V4, IpAddr, v4, v6, canon_ip,
  is_metadata_ip, is_private_ip,
}

-- `::ffff:a.b.c.d`
abbrev pub mapped : V4 → IpAddr
mapped a = v6 (record {
  s0 = 0;
  s1 = 0;
  s2 = 0;
  s3 = 0;
  s4 = 0;
  s5 = 0xffff;
  s6 = a.o0 * 256 + a.o1;
  s7 = a.o2 * 256 + a.o3;
})

pub record IsV4 (a : V4) : Type 0 where
  pub b0 : a.o0 < 256
  pub b1 : a.o1 < 256
  pub b2 : a.o2 < 256
  pub b3 : a.o3 < 256

canon_ip-mapped : (a : V4) → IsV4 a → canon_ip (mapped a) ≡ v4 a
unfolding canon_ip
canon_ip-mapped a h = ground arith

-- An IPv4 address and its IPv6-mapped form are in the same ranges, so neither spelling gets past a
-- block of the other.
pub mapped_ranges :
    (a : V4)
    → IsV4 a
    → (is_metadata_ip (mapped a) ≡ is_metadata_ip (v4 a))
      × (is_private_ip (mapped a) ≡ is_private_ip (v4 a))
unfolding is_metadata_ip is_private_ip
mapped_ranges a h = (
  ap (judge metadata_v4 metadata_v6) (canon_ip-mapped a h),
  ap (judge private_v4 private_v6) (canon_ip-mapped a h),
)

judge-private :
    (c : IpAddr) → judge metadata_v4 metadata_v6 c ≡ true → judge private_v4 private_v6 c ≡ true
judge-private (v4 a) h = ground arith
judge-private (v6 a) h =
    let e : a.s0 ≡ 0xfd00 = ground arith in
    let m = ap {B = ℕ} (λ (s : ℕ). bit_and s 0xfe00) e in ground arith

-- The metadata endpoints are in the private ranges: blocking the private addresses blocks them too.
pub metadata_private : (ip : IpAddr) → is_metadata_ip ip ≡ true → is_private_ip ip ≡ true
unfolding is_metadata_ip is_private_ip
metadata_private ip h = judge-private (canon_ip ip) h
