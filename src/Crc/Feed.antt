-- ===== src/Crc/Feed.antt =====
-- A string of input digits is taken in at the top of the register, all at once.
use native.Mathlib.Nat.{zero-mul}
use syndrome.Prelude.{
  ℕ, zero, suc, ◌+◌, ◌*◌, ◌%◌, ◌^◌, ◌<◌, bit_xor, List, [], ◌∷◌, ◌++◌, length, replicate, ◌≡◌, refl,
  ap, sym, ◌∙◌, arith,
}
use syndrome.Word.Xor.{
  xor_assoc, xor-zero, xor-shift_left, xor_fields, mul-pow-suc, pow_add, pow_pos,
}
use syndrome.Word.Value.{value, value-lt}
use syndrome.Crc.Register.{shift, iterate, shift-xor, shift_low, shift-lt}

module _ (l g : ℕ) where
  unfoldable pub step : ℕ → ℕ → ℕ
  step r b = shift l g (bit_xor r (b % 2 * 2 ^ l))

  unfoldable pub feed : ℕ → List ℕ → ℕ
  feed r [] = r
  feed r (b ∷ bs) = feed (step r b) bs

  -- The first digit shifted in, and the rest of the string one place further down.
  absorb :
      (m b : ℕ) (bs : List ℕ) (r : ℕ)
      → l ≡ length bs + m
      → shift l g (bit_xor r (value (b ∷ bs) * 2 ^ m)) ≡ bit_xor (step r b) (value bs * 2 ^ suc m)
  unfolding step
  absorb m b bs r e =
      ap (λ (t : ℕ). shift l g (bit_xor r t)) (spread ∙ ap (λ (t : ℕ). bit_xor t rest) top)
      ∙ ap (shift l g) (sym (xor_assoc r (b % 2 * 2 ^ l) rest))
      ∙ shift-xor l g (bit_xor r (b % 2 * 2 ^ l)) rest
      ∙ ap (bit_xor (step r b)) (shift_low l g rest below ∙ sym (mul-pow-suc (value bs) m))
    where
      rest : ℕ
      rest = value bs * 2 ^ m

      size : 2 ^ l ≡ 2 ^ length bs * 2 ^ m
      size = ap (λ (t : ℕ). 2 ^ t) e ∙ pow_add (length bs) m

      spread : value (b ∷ bs) * 2 ^ m ≡ bit_xor (b % 2 * 2 ^ length bs * 2 ^ m) rest
      spread =
          ap (λ (t : ℕ). t * 2 ^ m) (sym (xor_fields (length bs) (b % 2) (value bs) (value-lt bs)))
          ∙ sym (xor-shift_left m (b % 2 * 2 ^ length bs) (value bs))

      top : b % 2 * 2 ^ length bs * 2 ^ m ≡ b % 2 * 2 ^ l
      top = omega (arith, ap (λ (t : ℕ). b % 2 * t) size)

      below : rest < 2 ^ l
      below = grind (arith, value-lt bs, size, pow_pos m)

  -- Feeding `w` digits is adding their value at the top and shifting `w` times.
  pub feed-iterate :
      (m : ℕ) (bs : List ℕ) (r : ℕ)
      → length bs + m ≡ suc l
      → feed r bs ≡ iterate l g (length bs) (bit_xor r (value bs * 2 ^ m))
  unfolding feed step iterate
  feed-iterate m [] r h = sym (ap (bit_xor r) (zero-mul (2 ^ m)) ∙ xor-zero r)
  feed-iterate m (b ∷ bs) r h =
      feed-iterate (suc m) bs _ (omega arith)
      ∙ ap (iterate l g (length bs)) (sym (absorb m b bs r (omega arith)))

  pub feed-append : (r : ℕ) (cs bs : List ℕ) → feed r (cs ++ bs) ≡ feed (feed r cs) bs
  unfolding feed
  feed-append r [] bs = refl
  feed-append r (c ∷ cs) bs = feed-append (step r c) cs bs

  -- Digits that are zero only shift.
  pub feed-replicate_zero : (n r : ℕ) → feed r (replicate n 0) ≡ iterate l g n r
  unfolding feed step iterate
  feed-replicate_zero zero r = refl
  feed-replicate_zero (suc n) r =
      feed-replicate_zero n (step r 0)
      ∙ ap (λ (t : ℕ). iterate l g n (shift l g t)) (ap (bit_xor r) (zero-mul (2 ^ l)) ∙ xor-zero r)

  module _ (small : g < 2 ^ suc l) where
    pub feed-lt : (r : ℕ) (bs : List ℕ) → r < 2 ^ suc l → feed r bs < 2 ^ suc l
    unfolding feed step
    feed-lt r [] h = h
    feed-lt r (b ∷ bs) h = feed-lt (step r b) bs (shift-lt l g small _)
