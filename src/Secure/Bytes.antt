-- ===== src/Secure/Bytes.antt =====
-- `to_be_bytes` and `from_be_bytes` of Rust's fixed-width integers.
use webmux.Base.{
  ℕ, zero, suc, ◌+◌, ◌*◌, ◌/◌, ◌%◌, ◌^◌, ◌<◌, ◌≡◌, refl, List, [], ◌∷◌, arith, length,
}

-- The `w` bytes of a number, most significant first.
unfoldable pub to_be_bytes : ℕ → ℕ → List ℕ
to_be_bytes zero n = []
to_be_bytes (suc w) n = (n / 256 ^ w % 256) ∷ to_be_bytes w n

read_be : ℕ → List ℕ → ℕ
read_be acc [] = acc
read_be acc (b ∷ bs) = read_be (acc * 256 + b) bs

unfoldable pub from_be_bytes : List ℕ → ℕ
unfolding read_be
from_be_bytes = read_be 0

pub length-to_be_bytes : (w n : ℕ) → length (to_be_bytes w n) ≡ w
unfolding to_be_bytes
length-to_be_bytes zero n = refl
length-to_be_bytes (suc w) n = omega (arith, length-to_be_bytes w n)

pub from_be_bytes-to_be_bytes_u32 : (n : ℕ) → n < 2 ^ 32 → from_be_bytes (to_be_bytes 4 n) ≡ n
unfolding from_be_bytes to_be_bytes
from_be_bytes-to_be_bytes_u32 n h = omega arith

pub from_be_bytes-to_be_bytes_u64 : (n : ℕ) → n < 2 ^ 64 → from_be_bytes (to_be_bytes 8 n) ≡ n
unfolding from_be_bytes to_be_bytes
from_be_bytes-to_be_bytes_u64 n h = omega arith

pub from_be_bytes-to_be_bytes_u16 : (n : ℕ) → n < 2 ^ 16 → from_be_bytes (to_be_bytes 2 n) ≡ n
unfolding from_be_bytes to_be_bytes
from_be_bytes-to_be_bytes_u16 n h = omega arith
