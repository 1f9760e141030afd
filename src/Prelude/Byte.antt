-- ===== src/Prelude/Byte.antt =====
-- Machine words: wrap-around, byte order and masks. A 16- or 32-bit field in memory holds the
-- number that a little-endian host reads from it, so `htons` swaps its two bytes.
use Prim.Native.Nat.{ℕ, ◌+◌, ◌*◌, ◌/◌, ◌%◌, ◌^◌, ◌<◌}
use mathlib.Core.Path.{◌≡◌}
use mathlib.Core.Bool.{Bool}
use native.Mathlib.Omega.{arith}
use mu_quinet.Prelude.Tests.{◌==◌}

-- Conversions to `uint16_t` and `uint32_t`.
abbrev pub u16 : ℕ → ℕ
u16 n = n % 2 ^ 16

abbrev pub u32 : ℕ → ℕ
u32 n = n % 2 ^ 32

-- `htons`, `ntohs`, `__cpu_to_be16`, `__be16_to_cpu`: the two bytes change places.
unfoldable pub swap16 : ℕ → ℕ
swap16 n = n % 2 ^ 8 * 2 ^ 8 + n / 2 ^ 8 % 2 ^ 8

-- `htonl`, `ntohl`: the four bytes in the opposite order.
unfoldable pub swap32 : ℕ → ℕ
swap32 n =
    n % 2 ^ 8 * 2 ^ 24
    + n / 2 ^ 8 % 2 ^ 8 * 2 ^ 16
    + n / 2 ^ 16 % 2 ^ 8 * 2 ^ 8
    + n / 2 ^ 24 % 2 ^ 8

-- `x & (2 ^ k - 1)`, and the test `(x & 2 ^ k) != 0`.
abbrev pub low_bits : ℕ → ℕ → ℕ
low_bits x k = x % 2 ^ k

abbrev pub test_bit : ℕ → ℕ → Bool
test_bit x k = x / 2 ^ k % 2 == 1

pub swap16-lt : (n : ℕ) → swap16 n < 2 ^ 16
unfolding swap16
swap16-lt n = omega arith

pub swap16-swap16 : (n : ℕ) → n < 2 ^ 16 → swap16 (swap16 n) ≡ n
unfolding swap16
swap16-swap16 n h = omega arith

pub swap32-lt : (n : ℕ) → swap32 n < 2 ^ 32
unfolding swap32
swap32-lt n = omega arith

pub swap32-swap32 : (n : ℕ) → n < 2 ^ 32 → swap32 (swap32 n) ≡ n
unfolding swap32
swap32-swap32 n h = omega arith

pub swap16-injective : (a b : ℕ) → a < 2 ^ 16 → b < 2 ^ 16 → swap16 a ≡ swap16 b → a ≡ b
unfolding swap16
swap16-injective a b p q e = omega arith
