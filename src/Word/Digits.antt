-- ===== src/Word/Digits.antt =====
-- The native operations on binary digits, read off at the lowest digit. They mean `bitwise`, which
-- counts its rounds down from the first number; rounds beyond those that it needs change nothing.
use Prim.Native.Nat.{digits, bitwise, differ, bit_and-bitwise, bit_or-bitwise, bit_xor-bitwise}
use syndrome.Prelude.{
  ℕ, zero, suc, ◌+◌, ◌-◌, ◌*◌, ◌/◌, ◌%◌, ◌≤◌, ◌<◌, min, max, bit_and, bit_or, bit_xor, ◌≡◌, refl,
  ap, ◌∙◌, arith,
}

module _ (rest : ℕ → ℕ) (op : ℕ → ℕ → ℕ) where
  -- One round more than enough.
  spare_round :
      (rounds x y : ℕ) → x ≤ rounds → digits rest op (suc rounds) x y ≡ digits rest op rounds x y
  spare_round zero zero y h = refl
  spare_round zero (suc x) y h = absurd (omega arith)
  spare_round (suc r) zero y h = refl
  spare_round (suc r) (suc x) y h =
      ap (λ (high : ℕ). high * 2 + op (suc x % 2) (y % 2))
        (spare_round r (suc x / 2) (y / 2) (omega arith))

  spare_rounds : (extra x y : ℕ) → digits rest op (x + extra) x y ≡ bitwise rest op x y
  spare_rounds zero x y = ap (λ (n : ℕ). digits rest op n x y) {x = x + 0} {y = x} (omega arith)
  spare_rounds (suc extra) x y =
      ap (λ (n : ℕ). digits rest op n x y) {x = x + suc extra} {y = suc (x + extra)} (omega arith)
      ∙ spare_round (x + extra) x y (omega arith)
      ∙ spare_rounds extra x y

  -- The lowest digit apart, if the digits of the second number alone follow the same rule.
  lowest_digit :
      ((y : ℕ) → rest y ≡ rest (y / 2) * 2 + op 0 (y % 2))
      → (x y : ℕ) → bitwise rest op x y ≡ bitwise rest op (x / 2) (y / 2) * 2 + op (x % 2) (y % 2)
  lowest_digit alone zero y = alone y
  lowest_digit alone (suc x) y =
      ap (λ (high : ℕ). high * 2 + op (suc x % 2) (y % 2))
        (ap (λ (n : ℕ). digits rest op n (suc x / 2) (y / 2)) {x = x}
            {y = suc x / 2 + (x - suc x / 2)} (omega arith)
          ∙ spare_rounds (x - suc x / 2) (suc x / 2) (y / 2))

pub bit_and_step : (a b : ℕ) → bit_and a b ≡ bit_and (a / 2) (b / 2) * 2 + min (a % 2) (b % 2)
bit_and_step a b = simp bit_and-bitwise (lowest_digit (λ y. 0) min (λ y. omega arith) a b)

pub bit_or_step : (a b : ℕ) → bit_or a b ≡ bit_or (a / 2) (b / 2) * 2 + max (a % 2) (b % 2)
bit_or_step a b = simp bit_or-bitwise (lowest_digit (λ y. y) max (λ y. omega arith) a b)

differ_lem : (x y : ℕ) → x < 2 → y < 2 → differ x y ≡ (x + y) % 2
differ_lem zero y p q = omega arith
differ_lem (suc zero) zero p q = refl
differ_lem (suc zero) (suc zero) p q = refl
differ_lem (suc zero) (suc (suc y)) p q = absurd (omega arith)
differ_lem (suc (suc x)) y p q = absurd (omega arith)

-- The exclusive or of two digits is their sum modulo 2.
pub bit_xor_step : (a b : ℕ) → bit_xor a b ≡ bit_xor (a / 2) (b / 2) * 2 + (a + b) % 2
bit_xor_step a b = simp bit_xor-bitwise (
    omega (
      arith,
      lowest_digit (λ y. y) differ (λ y. omega arith) a b,
      differ_lem (a % 2) (b % 2) (omega arith) (omega arith),
    ))
