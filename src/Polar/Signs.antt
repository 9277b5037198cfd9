-- ===== src/Polar/Signs.antt =====
-- What src/polar.rs relies on of floats, and how its kernels treat signs.
use syndrome.Word.Mask.{and-bit, or_fields, or_comm}
use syndrome.Word.Xor.{xor_comm, xor_assoc, xor_cancel, xor_fields, xor-shift_left, xor-shift_right}
use syndrome.Prelude.{
  ℕ, ◌+◌, ◌*◌, ◌/◌, ◌%◌, ◌^◌, ◌<◌, bit_and, bit_or, bit_xor, if◌then◌else◌, ◌⊎◌, inl, inr, ◌≡◌, sym,
  ap, ap₂, subst, ◌∙◌, arith,
}
use syndrome.Polar.{LlrOps, sign_mask, min_sum, add_flipped}
use syndrome.Polar.Kernels.{SignLaws, xor-IsBit}

-- What is assumed of floats. `IsNonzero x` says that `x` is neither zero nor not a number. The sign is
-- the highest of the 32 bits, and whether a float is zero depends on the others only; the sum of two
-- floats of one sign, neither of them zero, has that sign and is not zero; a float other than zero is
-- below zero if its sign is set.
pub record FloatLaws {A : Type 0} (ops : LlrOps A) : Type 1 where
  pub IsNonzero : A → Type 0
  pub bits_lt : (x : A) → ops.to_bits x < 2 ^ 32
  pub from_bits_bits : (w : ℕ) → w < 2 ^ 32 → ops.to_bits (ops.from_bits w) ≡ w
  pub abs_bits : (x : A) → ops.to_bits (ops.abs x) ≡ ops.to_bits x % 2 ^ 31
  pub smaller_is :
      (x y : A) → IsNonzero x → IsNonzero y → (ops.smaller x y ≡ x) ⊎ (ops.smaller x y ≡ y)
  pub same_size :
      (x y : A) → IsNonzero x → ops.to_bits x % 2 ^ 31 ≡ ops.to_bits y % 2 ^ 31 → IsNonzero y
  pub add_sign :
      (x y : A)
      → IsNonzero x
      → IsNonzero y
      → ops.to_bits x / 2 ^ 31 ≡ ops.to_bits y / 2 ^ 31
      → (ops.to_bits (ops.add x y) / 2 ^ 31 ≡ ops.to_bits y / 2 ^ 31) × IsNonzero (ops.add x y)
  pub is_negative_sign :
      (x : A) → IsNonzero x → (if ops.is_negative x then 1 else 0) ≡ ops.to_bits x / 2 ^ 31

-- The sign bit of the exclusive or.
sign_of_xor :
    (v w a b : ℕ)
    → v / 2 ^ 31 ≡ a
    → w / 2 ^ 31 ≡ b
    → bit_xor a b < 2
    → bit_and (bit_xor v w) sign_mask ≡ bit_xor a b * 2 ^ 31
sign_of_xor v w a b ha hb h =
    and-bit 31 (bit_xor v w)
    ∙ ap (λ (t : ℕ). t % 2 * 2 ^ 31) (xor-shift_right 31 v w ∙ ap₂ bit_xor ha hb)
    ∙ ap (λ (t : ℕ). t * 2 ^ 31) {x = bit_xor a b % 2} (omega arith)

-- A word with its sign bit flipped by `u`.
flipped : (v u : ℕ) → bit_xor v (u * 2 ^ 31) ≡ bit_xor (v / 2 ^ 31) u * 2 ^ 31 + v % 2 ^ 31
flipped v u =
    let q = v / 2 ^ 31 in
    let r = v % 2 ^ 31 in
    ap (λ (t : ℕ). bit_xor t (u * 2 ^ 31)) {x = v} {y = q * 2 ^ 31 + r} (omega arith)
    ∙ ap (λ (t : ℕ). bit_xor t (u * 2 ^ 31)) (sym (xor_fields 31 q r (omega arith)))
    ∙ xor_assoc (q * 2 ^ 31) r (u * 2 ^ 31)
    ∙ ap (bit_xor (q * 2 ^ 31)) (xor_comm r (u * 2 ^ 31))
    ∙ sym (xor_assoc (q * 2 ^ 31) (u * 2 ^ 31) r)
    ∙ ap (λ (t : ℕ). bit_xor t r) (xor-shift_left 31 q u)
    ∙ xor_fields 31 (bit_xor q u) r (omega arith)

module _ {A : Type 0} (ops : LlrOps A) (laws : FloatLaws ops) where
  -- `x` is not zero and has the sign of the bit `b`, positive for 0.
  abbrev pub AgreesWith : A → ℕ → Type 0
  AgreesWith x b = (ops.to_bits x / 2 ^ 31 ≡ b) × laws.IsNonzero x

  abs-IsNonzero : (x : A) → laws.IsNonzero x → laws.IsNonzero (ops.abs x)
  abs-IsNonzero x h = laws.same_size x (ops.abs x) h (omega (arith, laws.abs_bits x))

  smaller_abs :
      (x y : A)
      → laws.IsNonzero x
      → laws.IsNonzero y
      → (ops.to_bits (ops.smaller (ops.abs x) (ops.abs y)) < 2 ^ 31)
        × laws.IsNonzero (ops.smaller (ops.abs x) (ops.abs y))
  smaller_abs x y hx hy =
      elim (laws.smaller_is (ops.abs x) (ops.abs y) (abs-IsNonzero x hx) (abs-IsNonzero y hy)) [
        | inl e ↦
            subst (λ z. (ops.to_bits z < 2 ^ 31) × laws.IsNonzero z) (sym e)
              (omega (arith, laws.abs_bits x), abs-IsNonzero x hx)
        | inr e ↦
            subst (λ z. (ops.to_bits z < 2 ^ 31) × laws.IsNonzero z) (sym e)
              (omega (arith, laws.abs_bits y), abs-IsNonzero y hy)
      ]

  pub min_sum-AgreesWith :
      (x y : A) (a b : ℕ)
      → bit_xor a b < 2
      → AgreesWith x a
      → AgreesWith y b
      → AgreesWith (min_sum ops x y) (bit_xor a b)
  unfolding min_sum
  min_sum-AgreesWith x y a b h p q =
      let m = ops.smaller (ops.abs x) (ops.abs y) in
      let (low, nonzero) = smaller_abs x y p.1 q.1 in
      let word : bit_or (ops.to_bits m)
            (bit_and (bit_xor (ops.to_bits x) (ops.to_bits y)) sign_mask)
          ≡ bit_xor a b * 2 ^ 31 + ops.to_bits m =
        ap (bit_or (ops.to_bits m)) (sign_of_xor _ _ a b p.0 q.0 h)
        ∙ or_comm (ops.to_bits m) (bit_xor a b * 2 ^ 31)
        ∙ or_fields 31 (bit_xor a b) (ops.to_bits m) low in
      let bits =
        ap (λ (w : ℕ). ops.to_bits (ops.from_bits w)) word
        ∙ laws.from_bits_bits (bit_xor a b * 2 ^ 31 + ops.to_bits m) (omega arith) in
      (omega (arith, bits), laws.same_size m (min_sum ops x y) nonzero (omega (arith, bits)))

  pub add_flipped-AgreesWith :
      (x y : A) (u b : ℕ)
      → u < 2
      → b < 2
      → AgreesWith x (bit_xor u b)
      → AgreesWith y b
      → AgreesWith (add_flipped ops x y u) b
  unfolding add_flipped
  add_flipped-AgreesWith x y u b hu hb p q =
      let z = ops.from_bits (bit_xor (ops.to_bits x) (u * 2 ^ 31 % 2 ^ 32)) in
      let back : bit_xor (ops.to_bits x / 2 ^ 31) u ≡ b =
        ap (λ (t : ℕ). bit_xor t u) (p.0 ∙ xor_comm u b) ∙ xor_cancel b u in
      let word : bit_xor (ops.to_bits x) (u * 2 ^ 31 % 2 ^ 32)
          ≡ b * 2 ^ 31 + ops.to_bits x % 2 ^ 31 =
        ap (bit_xor (ops.to_bits x)) {y = u * 2 ^ 31} (omega arith)
        ∙ flipped (ops.to_bits x) u
        ∙ ap (λ (t : ℕ). t * 2 ^ 31 + ops.to_bits x % 2 ^ 31) back in
      let bits =
        ap (λ (w : ℕ). ops.to_bits (ops.from_bits w)) word
        ∙ laws.from_bits_bits (b * 2 ^ 31 + ops.to_bits x % 2 ^ 31) (omega arith) in
      let nonzero = laws.same_size x z p.1 (omega (arith, bits)) in
      let (sign, kept) = laws.add_sign y z q.1 nonzero (omega (arith, bits, q.0)) in
      (omega (arith, sign, bits), kept)

  unfoldable pub sign_laws : SignLaws ops
  sign_laws = record {
    Agrees = AgreesWith;
    min_sum_agrees = λ x y a b ha hb p q. min_sum-AgreesWith x y a b (xor-IsBit a b ha hb) p q;
    add_agrees = add_flipped-AgreesWith;
    sign_agrees = λ x b hb p. laws.is_negative_sign x p.1 ∙ p.0;
  }
