-- ===== src/Word.antt =====
-- Machine words as native numbers, and the laws of their bit operations at every width.
pub mod Digits
pub mod Xor
pub mod Mask
pub mod Value
use syndrome.Prelude.{ℕ, zero, suc, ◌+◌, ◌*◌, ◌/◌, ◌%◌, ◌^◌}

-- `x >> k`
infixl 72 ◌>>>◌
abbrev pub ◌>>>◌ : ℕ → ℕ → ℕ
x >>> k = x / 2 ^ k

-- `x << k` on a u8, a u16, a u32 and a usize: the bits above the width are lost.
abbrev pub shl8 : ℕ → ℕ → ℕ
shl8 x k = x * 2 ^ k % 2 ^ 8

abbrev pub shl32 : ℕ → ℕ → ℕ
shl32 x k = x * 2 ^ k % 2 ^ 32

-- `count_ones` of a word of `width` bits.
unfoldable pub count_ones : ℕ → ℕ → ℕ
count_ones zero x = 0
count_ones (suc width) x = x % 2 + count_ones width (x / 2)
