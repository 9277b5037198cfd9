-- ===== src/Word/Mask.antt =====
-- `&` with a mask of low bits, and `|` of fields that do not overlap, as arithmetic.
use native.Mathlib.Nat.{pow-suc, div-div-eq-div-mul}
use syndrome.Prelude.{
  ℕ, zero, suc, ◌+◌, ◌-◌, ◌*◌, ◌/◌, ◌%◌, ◌^◌, ◌≤◌, ◌<◌, bit_and, bit_or, ◌≡◌, refl, sym, ap, ◌∙◌,
  arith,
}
use syndrome.Word.Digits.{bit_and_step, bit_or_step}
use syndrome.Word.Xor.{pow_pos, mod-pow-suc, mul-pow-suc}

and-zero_fuel : (n a : ℕ) → a ≤ n → bit_and a 0 ≡ 0
and-zero_fuel n zero h = refl
and-zero_fuel zero (suc a) h = absurd (omega arith)
and-zero_fuel (suc n) (suc a) h =
    omega (arith, bit_and_step (suc a) 0, and-zero_fuel n (suc a / 2) (omega arith))

pub and-zero : (a : ℕ) → bit_and a 0 ≡ 0
and-zero a = and-zero_fuel a a (omega arith)

pub and-one : (a : ℕ) → bit_and a 1 ≡ a % 2
and-one a = omega (arith, bit_and_step a 1, and-zero (a / 2))

or-zero_fuel : (n a : ℕ) → a ≤ n → bit_or a 0 ≡ a
or-zero_fuel n zero h = refl
or-zero_fuel zero (suc a) h = absurd (omega arith)
or-zero_fuel (suc n) (suc a) h =
    omega (arith, bit_or_step (suc a) 0, or-zero_fuel n (suc a / 2) (omega arith))

pub or-zero : (a : ℕ) → bit_or a 0 ≡ a
or-zero a = or-zero_fuel a a (omega arith)

-- `a & ((1 << k) - 1)` is the remainder by `2 ^ k`.
pub and-mask : (k a : ℕ) → bit_and a (2 ^ k - 1) ≡ a % 2 ^ k
and-mask zero a = rw and-zero (omega arith)
and-mask (suc k) a = ground (
  arith,
  bit_and_step a (2 ^ suc k - 1),
  mod-pow-suc k a,
  pow-suc 2 k,
  pow_pos k,
  and-mask k (a / 2),
)

-- `a & (1 << k)`
pub and-bit : (k a : ℕ) → bit_and a (2 ^ k) ≡ a / 2 ^ k % 2 * 2 ^ k
and-bit zero a = omega (arith, and-one a)
and-bit (suc k) a =
    let half : 2 ^ suc k / 2 ≡ 2 ^ k = omega (arith, pow-suc 2 k) in
    let digit : a / 2 ^ suc k ≡ a / 2 / 2 ^ k =
      ap (λ (t : ℕ). a / t) {y = 2 * 2 ^ k} (omega (arith, pow-suc 2 k))
      ∙ sym (div-div-eq-div-mul a 2 (2 ^ k)) in
    omega (
      arith,
      bit_and_step a (2 ^ suc k),
      ap (bit_and (a / 2)) half,
      mul-pow-suc (a / 2 ^ suc k % 2) k,
      pow-suc 2 k,
      and-bit k (a / 2),
      ap (λ (t : ℕ). t * 2 ^ k) {x = a / 2 ^ suc k % 2} {y = a / 2 / 2 ^ k % 2}
          (ap (λ (t : ℕ). t % 2) digit),
    )

-- A high field and a low field that do not overlap.
pub or_fields : (k q r : ℕ) → r < 2 ^ k → bit_or (q * 2 ^ k) r ≡ q * 2 ^ k + r
or_fields zero q r h = ground (arith, or-zero q)
or_fields (suc k) q r h = ground (
  arith,
  bit_or_step (q * 2 ^ suc k) r,
  mul-pow-suc q k,
  pow-suc 2 k,
  or_fields k q (r / 2) (omega (arith, pow-suc 2 k)),
)

or_comm_fuel : (n a b : ℕ) → a ≤ n → b ≤ n → bit_or a b ≡ bit_or b a
or_comm_fuel zero zero zero ha hb = refl
or_comm_fuel zero (suc a) b ha hb = absurd (omega (arith, ha))
or_comm_fuel zero a (suc b) ha hb = absurd (omega (arith, hb))
or_comm_fuel (suc n) a b ha hb = omega (
  arith,
  bit_or_step a b,
  bit_or_step b a,
  or_comm_fuel n (a / 2) (b / 2) (omega (arith, ha)) (omega (arith, hb)),
)

pub or_comm : (a b : ℕ) → bit_or a b ≡ bit_or b a
or_comm a b = or_comm_fuel (a + b) a b (omega arith) (omega arith)

-- `(a << 1) | b` for a bit `b`.
pub or-shift_one : (a b : ℕ) → b < 2 → bit_or (a * 2) b ≡ a * 2 + b
or-shift_one a b h = ground (arith, bit_or_step (a * 2) b, or-zero a)
