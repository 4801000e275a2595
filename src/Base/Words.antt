-- ===== src/Base/Words.antt =====
-- Machine words as native numbers: big and little endian bytes, and arithmetic that wraps.
use Prim.Native.Nat.{ℕ, ◌+◌, ◌*◌, ◌/◌, ◌%◌, ◌^◌}

-- `u32::from_be_bytes`.
abbrev pub from_be : ℕ → ℕ → ℕ → ℕ → ℕ
from_be a b c d = a * 2 ^ 24 + b * 2 ^ 16 + c * 2 ^ 8 + d

-- `u32::to_be` on a little-endian host: the bytes in reverse order.
abbrev pub to_be : ℕ → ℕ
to_be w = from_be (w % 2 ^ 8) (w / 2 ^ 8 % 2 ^ 8) (w / 2 ^ 16 % 2 ^ 8) (w / 2 ^ 24 % 2 ^ 8)

-- `overflowing_mul(..).0` and `overflowing_add(..).0` on `u32`.
abbrev pub mul32 : ℕ → ℕ → ℕ
mul32 a b = a * b % 2 ^ 32

abbrev pub add32 : ℕ → ℕ → ℕ
add32 a b = (a + b) % 2 ^ 32
