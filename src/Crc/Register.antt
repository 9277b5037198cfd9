-- ===== src/Crc/Register.antt =====
-- The register of `bit_serial_step` as an operator on numbers below `2 ^ L`, where L is `l + 1`:
-- it is linear over exclusive or, and takes a string of input digits in at the top.
use native.Mathlib.Nat.{pow-suc, mod-eq_of_lt}
use syndrome.Prelude.{
  ℕ, zero, suc, ◌+◌, ◌*◌, ◌/◌, ◌%◌, ◌^◌, ◌<◌, ◌≤◌, bit_xor, ◌≡◌, refl, ap, ap₂, sym, ◌∙◌, arith,
}
use syndrome.Word.Xor.{
  bit_xor-low, xor_swap, xor-zero, zero-xor, xor_self, xor-shift_left, xor-shift_right, xor-mod,
  xor-lt, mod-pow-lt, mul-pow-suc, pow_pos, mod-pow-suc, eq_of_xor, div_mod_fields,
}

-- `g` if the digit is 1, else 0.
abbrev pub times : ℕ → ℕ → ℕ
times zero g = 0
times (suc b) g = g

times-xor : (x y g : ℕ) → x < 2 → y < 2 → times ((x + y) % 2) g ≡ bit_xor (times x g) (times y g)
times-xor zero zero g p q = sym (zero-xor 0)
times-xor zero (suc zero) g p q = sym (zero-xor g)
times-xor (suc zero) zero g p q = sym (xor-zero g)
times-xor (suc zero) (suc zero) g p q = sym (xor_self g)
times-xor zero (suc (suc y)) g p q = absurd (omega arith)
times-xor (suc zero) (suc (suc y)) g p q = absurd (omega arith)
times-xor (suc (suc x)) y g p q = absurd (omega arith)

double_half : (r : ℕ) → r * 2 / 2 ≡ r
double_half r = omega arith

even_times : (g d x : ℕ) → d < 2 → g % 2 ≡ 1 → x * 2 ≡ times d g → (d ≡ 0) × (x ≡ 0)
even_times g zero x h odd e = (refl, omega arith)
even_times g (suc zero) x h odd e = absurd (omega arith)
even_times g (suc (suc d)) x h odd e = absurd (omega arith)

module _ (l g : ℕ) where
  -- One shift with no input.
  unfoldable pub shift : ℕ → ℕ
  shift r = bit_xor (r * 2 % 2 ^ suc l) (times (r / 2 ^ l % 2) g)

  unfoldable pub iterate : ℕ → ℕ → ℕ
  iterate zero r = r
  iterate (suc n) r = iterate n (shift r)

  pub shift-xor : (a b : ℕ) → shift (bit_xor a b) ≡ bit_xor (shift a) (shift b)
  unfolding shift
  shift-xor a b =
      ap₂ bit_xor
        (ap (λ (t : ℕ). t % 2 ^ suc l) (sym (xor-shift_left 1 a b))
          ∙ xor-mod (suc l) (a * 2) (b * 2))
        (ap (λ (t : ℕ). times t g) top
          ∙ times-xor (a / 2 ^ l % 2) (b / 2 ^ l % 2) g (omega arith) (omega arith))
      ∙ xor_swap _ _ _ _
    where
      top : bit_xor a b / 2 ^ l % 2 ≡ (a / 2 ^ l % 2 + b / 2 ^ l % 2) % 2
      top =
          ap (λ (t : ℕ). t % 2) (xor-shift_right l a b)
          ∙ bit_xor-low (a / 2 ^ l) (b / 2 ^ l)
          ∙ omega arith

  pub iterate-xor : (n a b : ℕ) → iterate n (bit_xor a b) ≡ bit_xor (iterate n a) (iterate n b)
  unfolding iterate
  iterate-xor zero a b = refl
  iterate-xor (suc n) a b = ap (iterate n) (shift-xor a b) ∙ iterate-xor n (shift a) (shift b)

  -- Below the top digit a shift doubles.
  pub shift_low : (r : ℕ) → r < 2 ^ l → shift r ≡ r * 2
  unfolding shift
  shift_low r h =
      rw (mod-eq_of_lt {n = r * 2} {m = 2 ^ suc l} (omega (arith, pow-suc 2 l)), top)
        (xor-zero (r * 2))
    where
      top : r / 2 ^ l ≡ 0
      top = grind arith

  pub iterate_low : (n r : ℕ) → r * 2 ^ n < 2 ^ suc l → iterate n r ≡ r * 2 ^ n
  unfolding iterate
  iterate_low zero r h = omega arith
  iterate_low (suc n) r h =
      ap (iterate n) (shift_low r below)
      ∙ iterate_low n (r * 2) (omega (arith, mul-pow-suc r n))
      ∙ omega (arith, mul-pow-suc r n)
    where
      grows : r ≤ r * 2 ^ n
      grows = grind (arith, pow_pos n)

      below : r < 2 ^ l
      below = omega (arith, grows, mul-pow-suc r n, pow-suc 2 l)

  module _ (small : g < 2 ^ suc l) where
    times-lt : (b : ℕ) → times b g < 2 ^ suc l
    times-lt zero = pow_pos (suc l)
    times-lt (suc b) = small

    pub shift-lt : (r : ℕ) → shift r < 2 ^ suc l
    unfolding shift
    shift-lt r =
        xor-lt (suc l) (r * 2 % 2 ^ suc l) (times (r / 2 ^ l % 2) g) (mod-pow-lt (r * 2) (suc l))
          (times-lt (r / 2 ^ l % 2))

    pub iterate-lt : (n r : ℕ) → r < 2 ^ suc l → iterate n r < 2 ^ suc l
    unfolding iterate
    iterate-lt zero r h = h
    iterate-lt (suc n) r h = iterate-lt n (shift r) (shift-lt r)

    -- With an odd generator only the zero register shifts to zero.
    pub shift-eq-zero : (r : ℕ) → g % 2 ≡ 1 → r < 2 ^ suc l → shift r ≡ 0 → r ≡ 0
    unfolding shift
    shift-eq-zero r odd h e =
        let (top, low) = even_times g (r / 2 ^ l % 2) (r % 2 ^ l) (omega arith) odd doubled in
        grind (arith, div_mod_fields l r, pow-suc 2 l)
      where
        doubled : r % 2 ^ l * 2 ≡ times (r / 2 ^ l % 2) g
        doubled = omega (
          arith,
          eq_of_xor (r * 2 % 2 ^ suc l) (times (r / 2 ^ l % 2) g) e,
          mod-pow-suc l (r * 2),
          ap (λ (t : ℕ). t % 2 ^ l) (double_half r),
        )

    pub iterate-eq-zero : (n r : ℕ) → g % 2 ≡ 1 → r < 2 ^ suc l → iterate n r ≡ 0 → r ≡ 0
    unfolding iterate
    iterate-eq-zero zero r odd h e = e
    iterate-eq-zero (suc n) r odd h e =
        shift-eq-zero r odd h (iterate-eq-zero n (shift r) odd (shift-lt r) e)
