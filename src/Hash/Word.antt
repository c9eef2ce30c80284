-- ===== src/Hash/Word.antt =====
-- The operations of Rust's `u32` and `u64` that src/hash.rs uses, on numbers below 2^32 and 2^64.
use Prim.Native.Nat.{bit_and, bit_xor}
use weavatrix_scan.Common.{
  ℕ, zero, suc, ◌+◌, ◌-◌, ◌*◌, ◌/◌, ◌%◌, ◌^◌, [], ◌∷◌, ◌++◌, ltb, if◌then◌else◌,
}
use weavatrix_scan.Text.{Bytes}

abbrev pub xor : ℕ → ℕ → ℕ
xor = bit_xor

abbrev pub and : ℕ → ℕ → ℕ
and = bit_and

abbrev pub shr : ℕ → ℕ → ℕ
shr x k = x / 2 ^ k

-- `wrapping_add` and `rotate_right` on `u32`, and `!x`.
abbrev pub add32 : ℕ → ℕ → ℕ
add32 a b = (a + b) % 2 ^ 32

abbrev pub rotate_right32 : ℕ → ℕ → ℕ
rotate_right32 x k = x / 2 ^ k + x % 2 ^ k * 2 ^ (32 - k)

abbrev pub not32 : ℕ → ℕ
not32 x = 2 ^ 32 - 1 - x

-- `wrapping_add`, `wrapping_mul` and `rotate_left` on `u64`.
abbrev pub add64 : ℕ → ℕ → ℕ
add64 a b = (a + b) % 2 ^ 64

abbrev pub mul64 : ℕ → ℕ → ℕ
mul64 a b = a * b % 2 ^ 64

abbrev pub rotate_left64 : ℕ → ℕ → ℕ
rotate_left64 x k = x * 2 ^ k % 2 ^ 64 + x / 2 ^ (64 - k)

-- `to_be_bytes`, of a number of `n` bytes.
unfoldable pub be_bytes : ℕ → ℕ → Bytes
be_bytes zero x = []
be_bytes (suc n) x = be_bytes n (x / 256) ++ x % 256 ∷ []

abbrev hex_digit : ℕ → ℕ
hex_digit d = if ltb d 10 then 48 + d else 87 + d

-- `{x:0nx}`: `n` hexadecimal digits.
unfoldable pub hex : ℕ → ℕ → Bytes
hex zero x = []
hex (suc n) x = hex n (x / 16) ++ hex_digit (x % 16) ∷ []
