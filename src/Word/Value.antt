-- ===== src/Word/Value.antt =====
-- The number that a string of binary digits spells, highest first.
use native.Mathlib.Nat.{pow-suc}
use syndrome.Prelude.{ℕ, ◌+◌, ◌*◌, ◌%◌, ◌^◌, ◌<◌, List, [], ◌∷◌, length, arith}

-- Only the lowest digit of each element counts.
abbrev pub value : List ℕ → ℕ
value [] = 0
value (b ∷ bs) = b % 2 * 2 ^ length bs + value bs

pub value-lt : (bs : List ℕ) → value bs < 2 ^ length bs
value-lt [] = omega arith
value-lt (b ∷ bs) = grind (arith, value-lt bs, pow-suc 2 (length bs))
