-- ===== src/Word/Xor.antt =====
-- The group laws of exclusive or, and how it passes through shifts and masks.
use Prim.Native.Nat.{bit_xor-bitwise}
use native.Mathlib.Nat.{
  pow-suc, one-le-pow, div-div-eq-div-mul, mod-lt, add_comm, add-zero, add-suc,
  add-mul-mod_self_right, mod-eq_of_lt,
}
use syndrome.Prelude.{
  ℕ, zero, suc, ◌+◌, ◌*◌, ◌/◌, ◌%◌, ◌^◌, ◌≤◌, ◌<◌, bit_xor, ◌≡◌, refl, ap, ap₂, sym, ◌∙◌, arith,
}
use syndrome.Word.Digits.{bit_xor_step}

pub bit_xor-half : (a b : ℕ) → bit_xor a b / 2 ≡ bit_xor (a / 2) (b / 2)
bit_xor-half a b = omega (arith, bit_xor_step a b)

pub bit_xor-low : (a b : ℕ) → bit_xor a b % 2 ≡ (a + b) % 2
bit_xor-low a b = omega (arith, bit_xor_step a b)

-- Numbers with the same half and the same parity are equal.
pub half_ext : (a b : ℕ) → a / 2 ≡ b / 2 → a % 2 ≡ b % 2 → a ≡ b
half_ext a b p q = omega arith

comm_fuel : (n a b : ℕ) → a + b ≤ n → bit_xor a b ≡ bit_xor b a
comm_fuel zero zero zero h = refl
comm_fuel zero (suc a) b h = absurd (omega arith)
comm_fuel zero zero (suc b) h = absurd (omega arith)
comm_fuel (suc n) a b h =
    ground (arith, bit_xor_step a b, bit_xor_step b a, comm_fuel n (a / 2) (b / 2))

pub xor_comm : (a b : ℕ) → bit_xor a b ≡ bit_xor b a
xor_comm a b = comm_fuel (a + b) a b (omega arith)

pub zero-xor : (a : ℕ) → bit_xor 0 a ≡ a
zero-xor a = bit_xor-bitwise 0 a

pub xor-zero : (a : ℕ) → bit_xor a 0 ≡ a
xor-zero a = xor_comm a 0 ∙ zero-xor a

assoc_fuel : (n a b c : ℕ) → a + b + c ≤ n → bit_xor (bit_xor a b) c ≡ bit_xor a (bit_xor b c)
assoc_fuel zero zero b c h = ground (arith, zero-xor b, zero-xor (bit_xor b c))
assoc_fuel zero (suc a) b c h = absurd (omega arith)
assoc_fuel (suc n) a b c h =
    half_ext _ _
      (ground (
        arith,
        bit_xor-half (bit_xor a b) c,
        bit_xor-half a (bit_xor b c),
        bit_xor-half a b,
        bit_xor-half b c,
        assoc_fuel n (a / 2) (b / 2) (c / 2),
      ))
      (omega (
        arith,
        bit_xor-low (bit_xor a b) c,
        bit_xor-low a (bit_xor b c),
        bit_xor-low a b,
        bit_xor-low b c,
      ))

pub xor_assoc : (a b c : ℕ) → bit_xor (bit_xor a b) c ≡ bit_xor a (bit_xor b c)
xor_assoc a b c = assoc_fuel (a + b + c) a b c (omega arith)

self_fuel : (n a : ℕ) → a ≤ n → bit_xor a a ≡ 0
self_fuel zero zero h = refl
self_fuel zero (suc a) h = absurd (omega arith)
self_fuel (suc n) a h = omega (arith, bit_xor_step a a, self_fuel n (a / 2) (omega arith))

pub xor_self : (a : ℕ) → bit_xor a a ≡ 0
xor_self a = self_fuel a a (omega arith)

-- The middle two of four operands change places.
pub xor_swap :
    (a b c d : ℕ) → bit_xor (bit_xor a b) (bit_xor c d) ≡ bit_xor (bit_xor a c) (bit_xor b d)
xor_swap a b c d = ground (
  arith,
  xor_assoc a b (bit_xor c d),
  xor_assoc b c d,
  xor_comm b c,
  xor_assoc c b d,
  xor_assoc a c (bit_xor b d),
)

pub xor_cancel : (a b : ℕ) → bit_xor (bit_xor a b) b ≡ a
xor_cancel a b = ground (arith, xor_assoc a b b, xor_self b, xor-zero a)

-- Two numbers are equal exactly when their exclusive or is zero.
pub eq_of_xor : (a b : ℕ) → bit_xor a b ≡ 0 → a ≡ b
eq_of_xor a b h = ground (arith, xor_cancel a b, zero-xor b)

mul_two : (a b : ℕ) → bit_xor (a * 2) (b * 2) ≡ bit_xor a b * 2
mul_two a b = ground (arith, bit_xor_step (a * 2) (b * 2), omega_half a, omega_half b)
  where
    omega_half : (x : ℕ) → x * 2 / 2 ≡ x
    omega_half x = omega arith

pub mul-pow-suc : (q k : ℕ) → q * 2 ^ suc k ≡ q * 2 ^ k * 2
mul-pow-suc q k = rw pow-suc (omega arith)

pub div-pow-suc : (a k : ℕ) → a / 2 ^ suc k ≡ a / 2 ^ k / 2
div-pow-suc a k = ap (λ (t : ℕ). a / t) (pow-suc 2 k) ∙ sym (div-div-eq-div-mul a (2 ^ k) 2)

-- Shifting left distributes over exclusive or.
pub xor-shift_left : (k a b : ℕ) → bit_xor (a * 2 ^ k) (b * 2 ^ k) ≡ bit_xor a b * 2 ^ k
xor-shift_left zero a b = ground (arith)
xor-shift_left (suc k) a b = ground (
  arith,
  mul-pow-suc a k,
  mul-pow-suc b k,
  mul-pow-suc (bit_xor a b) k,
  mul_two (a * 2 ^ k) (b * 2 ^ k),
  xor-shift_left k a b,
)

-- Shifting right distributes over exclusive or.
pub xor-shift_right : (k a b : ℕ) → bit_xor a b / 2 ^ k ≡ bit_xor (a / 2 ^ k) (b / 2 ^ k)
xor-shift_right zero a b = ground arith
xor-shift_right (suc k) a b = ground (
  arith,
  div-pow-suc a k,
  div-pow-suc b k,
  div-pow-suc (bit_xor a b) k,
  bit_xor-half (a / 2 ^ k) (b / 2 ^ k),
  xor-shift_right k a b,
)

-- A high field and a low field that do not overlap add up.
pub xor_fields : (k q r : ℕ) → r < 2 ^ k → bit_xor (q * 2 ^ k) r ≡ q * 2 ^ k + r
xor_fields zero q r h = ground (arith, xor-zero q)
xor_fields (suc k) q r h = ground (
  arith,
  bit_xor_step (q * 2 ^ suc k) r,
  mul-pow-suc q k,
  pow-suc 2 k,
  xor_fields k q (r / 2) (omega (arith, pow-suc 2 k)),
)

pub xor-lt : (k a b : ℕ) → a < 2 ^ k → b < 2 ^ k → bit_xor a b < 2 ^ k
xor-lt zero a b p q = ground (arith, zero-xor 0)
xor-lt (suc k) a b p q = omega (
  arith,
  pow-suc 2 k,
  bit_xor_step a b,
  xor-lt k (a / 2) (b / 2) (omega (arith, pow-suc 2 k)) (omega (arith, pow-suc 2 k)),
)

pub pow_pos : (k : ℕ) → 0 < 2 ^ k
pow_pos k = one-le-pow k 2 (omega arith)

pub mod-pow-lt : (a k : ℕ) → a % 2 ^ k < 2 ^ k
mod-pow-lt a k = mod-lt a (pow_pos k)

-- A field above `k` bits, and what is below it, are got back by `/` and `%`.
pub mod_fields : (k q r : ℕ) → r < 2 ^ k → (q * 2 ^ k + r) % 2 ^ k ≡ r
mod_fields k q r h =
    ap (λ (t : ℕ). t % 2 ^ k) (add_comm (q * 2 ^ k) r)
    ∙ add-mul-mod_self_right r q (2 ^ k)
    ∙ mod-eq_of_lt h

pub div_mod_fields : (k a : ℕ) → a / 2 ^ k * 2 ^ k + a % 2 ^ k ≡ a
div_mod_fields k a = grind arith

pub fields : (k a : ℕ) → a ≡ bit_xor (a / 2 ^ k * 2 ^ k) (a % 2 ^ k)
fields k a = sym (xor_fields k (a / 2 ^ k) (a % 2 ^ k) (mod-pow-lt a k) ∙ div_mod_fields k a)

-- An exclusive or falls apart into those of the fields.
xor_parts :
    (k a b : ℕ)
    → bit_xor a b ≡ bit_xor (a / 2 ^ k) (b / 2 ^ k) * 2 ^ k + bit_xor (a % 2 ^ k) (b % 2 ^ k)
xor_parts k a b =
    ap₂ bit_xor (fields k a) (fields k b)
    ∙ xor_swap (a / 2 ^ k * 2 ^ k) (a % 2 ^ k) (b / 2 ^ k * 2 ^ k) (b % 2 ^ k)
    ∙ ap (λ (t : ℕ). bit_xor t (bit_xor (a % 2 ^ k) (b % 2 ^ k)))
        (xor-shift_left k (a / 2 ^ k) (b / 2 ^ k))
    ∙ xor_fields k _ _ (xor-lt k _ _ (mod-pow-lt a k) (mod-pow-lt b k))

-- Masking the low bits distributes over exclusive or.
pub xor-mod : (k a b : ℕ) → bit_xor a b % 2 ^ k ≡ bit_xor (a % 2 ^ k) (b % 2 ^ k)
xor-mod k a b =
    ap (λ (t : ℕ). t % 2 ^ k) (xor_parts k a b)
    ∙ mod_fields k _ _ (xor-lt k _ _ (mod-pow-lt a k) (mod-pow-lt b k))

-- The remainder by one more power of two: the lowest digit apart.
pub mod-pow-suc : (k a : ℕ) → a % 2 ^ suc k ≡ a / 2 % 2 ^ k * 2 + a % 2
mod-pow-suc k a =
    ap (λ (t : ℕ). t % 2 ^ suc k)
      (omega (arith, div_mod_fields k (a / 2), mul-pow-suc (a / 2 / 2 ^ k) k))
    ∙ mod_fields (suc k) (a / 2 / 2 ^ k) (a / 2 % 2 ^ k * 2 + a % 2)
        (omega (arith, mod-pow-lt (a / 2) k, pow-suc 2 k))

pub pow_add : (a b : ℕ) → 2 ^ (a + b) ≡ 2 ^ a * 2 ^ b
pow_add a zero = ground (arith, add-zero a)
pow_add a (suc b) =
    ap (λ (t : ℕ). 2 ^ t) (add-suc a b)
    ∙ pow-suc 2 (a + b)
    ∙ omega (arith, pow_add a b, mul-pow-suc (2 ^ a) b)

-- The same with the highest digit apart.
halves : (x : ℕ) → x ≡ x / 2 * 2 + x % 2
halves x = omega arith

pub mod-pow-suc_top : (k a : ℕ) → a % 2 ^ suc k ≡ a / 2 ^ k % 2 * 2 ^ k + a % 2 ^ k
mod-pow-suc_top k a =
    ap (λ (t : ℕ). t % 2 ^ suc k) split
    ∙ mod_fields (suc k) (a / 2 ^ k / 2) (a / 2 ^ k % 2 * 2 ^ k + a % 2 ^ k) below
  where
    split : a ≡ a / 2 ^ k / 2 * 2 ^ suc k + (a / 2 ^ k % 2 * 2 ^ k + a % 2 ^ k)
    split = omega (
      arith,
      div_mod_fields k a,
      mul-pow-suc (a / 2 ^ k / 2) k,
      ap (λ (t : ℕ). t * 2 ^ k) (halves (a / 2 ^ k)),
    )

    below : a / 2 ^ k % 2 * 2 ^ k + a % 2 ^ k < 2 ^ suc k
    below = grind (arith, mod-pow-lt a k, pow-suc 2 k)
