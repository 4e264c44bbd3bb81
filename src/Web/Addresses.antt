-- ===== src/Web/Addresses.antt =====
-- `is_public_ip` of apps/jit-worker/src/web_access.rs, with the tests of `std::net` that it uses.
pub mod Blocks
use jitforge.Base.{
  ℕ, ◌+◌, ◌*◌, ◌/◌, ◌%◌, Bool, true, false, not, ◌&&◌, ◌||◌, leb, ltb, ◌==◌, if◌then◌else◌,
}

pub data IpAddr : Type 0 where
  v4 : ℕ → ℕ → ℕ → ℕ → IpAddr
  v6 : ℕ → ℕ → ℕ → ℕ → ℕ → ℕ → ℕ → ℕ → IpAddr

-- `is_private`, `is_loopback`, `is_link_local`, `is_multicast`, `is_broadcast`, `is_unspecified`
unfoldable pub is_special : ℕ → ℕ → ℕ → ℕ → Bool
is_special a b c d =
    (a == 10 || a == 172 && leb 16 b && leb b 31 || a == 192 && b == 168)
    || a == 127
    || a == 169 && b == 254
    || leb 224 a && leb a 239
    || a == 255 && b == 255 && c == 255 && d == 255
    || a == 0 && b == 0 && c == 0 && d == 0

unfoldable pub is_public_v4 : ℕ → ℕ → ℕ → ℕ → Bool
unfolding is_special
is_public_v4 a b c d = not (
    is_special a b c d
    || a == 0
    || leb 240 a
    || a == 100 && leb 64 b && leb b 127
    || a == 192 && b == 0 && c == 0
    || a == 192 && b == 0 && c == 2
    || a == 198 && (b == 18 || b == 19)
    || a == 198 && b == 51 && c == 100
    || a == 203 && b == 0 && c == 113)

abbrev pub all_zero : ℕ → ℕ → ℕ → ℕ → ℕ → Bool
all_zero a b c d e = a == 0 && b == 0 && c == 0 && d == 0 && e == 0

-- The masks 0xff00, 0xfe00 and 0xffc0 keep the bits above the lowest 8, 9 and 6.
unfoldable pub is_public_ip : IpAddr → Bool
unfolding is_public_v4
is_public_ip (v4 a b c d) = is_public_v4 a b c d
is_public_ip (v6 a b c d e f g h) = not (
    all_zero a b c d e && f == 0 && g == 0 && h == 1
    || all_zero a b c d e && f == 0 && g == 0 && h == 0
    || a / 256 == 0xff
    || a / 512 == 0x7e
    || a / 64 == 0x3fa
    || a == 0x2001 && b == 0xdb8
    || all_zero a b c d e
      && f == 0xffff
      && not (is_public_v4 (g / 256) (g % 256) (h / 256) (h % 256)))
