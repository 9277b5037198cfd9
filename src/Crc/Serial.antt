-- ===== src/Crc/Serial.antt =====
-- `bit_serial_step` on u32 registers is the linear step of the register, and the loops that spell
-- out and read back digits are inverse.
use native.Mathlib.Nat.{pow-suc, mod-eq_of_lt, pow-le-pow_right, mul-mod_left, mul-div_left}
use syndrome.Prelude.{
  ℕ, zero, suc, ◌+◌, ◌-◌, ◌*◌, ◌/◌, ◌%◌, ◌^◌, ◌<◌, ◌≤◌, bit_xor, bit_and, bit_or, List, [], ◌∷◌,
  foldl, length, ◌≡◌, refl, ap, ap₂, sym, ◌∙◌, arith, ◌==◌, if◌then◌else◌,
}
use syndrome.Word.Xor.{
  xor-zero, xor-shift_left, xor-shift_right, xor-mod, bit_xor-low, mul-pow-suc, pow_pos,
  mod-pow-suc_top,
}
use syndrome.Word.Mask.{and-mask, and-one, or-shift_one}
use syndrome.Word.{◌>>>◌, shl32}
use syndrome.Crc.{bit_serial_step, run_bit_serial, feed_index, pack_bits, parity_bits}
use syndrome.Crc.Register.{shift, times, shift-lt}
use syndrome.Word.Value.{value}
use syndrome.Crc.Feed.{step, feed}

if-times : (s g d : ℕ) → d < 2 → (if d == 0 then s else bit_xor s g) ≡ bit_xor s (times d g)
if-times s g zero h = sym (xor-zero s)
if-times s g (suc zero) h = refl
if-times s g (suc (suc d)) h = absurd (omega arith)

module _ (l g : ℕ) (fits : suc l < 32) where
  shifted : (r : ℕ) → r < 2 ^ suc l → bit_and (shl32 r 1) (2 ^ suc l - 1) ≡ r * 2 % 2 ^ suc l
  shifted r h = and-mask (suc l) _ ∙ ap (λ (t : ℕ). t % 2 ^ suc l) (mod-eq_of_lt below)
    where
      bound : 2 ^ suc (suc l) ≤ 2 ^ 32
      bound = pow-le-pow_right (omega arith) fits

      below : r * 2 < 2 ^ 32
      below = omega (arith, bound, pow-suc 2 (suc l))

  pub bit_serial_step-eq-step :
      (r b : ℕ) → r < 2 ^ suc l → bit_serial_step r b (suc l) g (2 ^ suc l - 1) ≡ step l g r b
  unfolding bit_serial_step step shift
  bit_serial_step-eq-step r b h =
      ap₂ (λ (s d : ℕ). if d == 0 then s else bit_xor s g) (shifted r h ∙ sym input_low) top
      ∙ if-times (bit_xor r (b % 2 * 2 ^ l) * 2 % 2 ^ suc l) g
          (bit_xor r (b % 2 * 2 ^ l) / 2 ^ l % 2) (omega arith)
    where
      input_low : bit_xor r (b % 2 * 2 ^ l) * 2 % 2 ^ suc l ≡ r * 2 % 2 ^ suc l
      input_low =
          ap (λ (t : ℕ). t % 2 ^ suc l) (sym (xor-shift_left 1 r (b % 2 * 2 ^ l)))
          ∙ xor-mod (suc l) (r * 2) (b % 2 * 2 ^ l * 2)
          ∙ ap (bit_xor (r * 2 % 2 ^ suc l)) (
              ap (λ (t : ℕ). t % 2 ^ suc l) (sym (mul-pow-suc (b % 2) l))
              ∙ mul-mod_left (b % 2) (2 ^ suc l))
          ∙ xor-zero (r * 2 % 2 ^ suc l)

      input_top : bit_xor r (b % 2 * 2 ^ l) / 2 ^ l % 2 ≡ (r / 2 ^ l + b % 2) % 2
      input_top =
          ap (λ (t : ℕ). t % 2) (xor-shift_right l r (b % 2 * 2 ^ l))
          ∙ bit_xor-low (r / 2 ^ l) (b % 2 * 2 ^ l / 2 ^ l)
          ∙ ap (λ (t : ℕ). (r / 2 ^ l + t) % 2) (mul-div_left (b % 2) (pow_pos l))

      top :
          bit_and (bit_xor (r >>> (suc l - 1)) (bit_and b 1)) 1
          ≡ bit_xor r (b % 2 * 2 ^ l) / 2 ^ l % 2
      top =
          and-one (bit_xor (r >>> (suc l - 1)) (bit_and b 1))
          ∙ bit_xor-low (r >>> (suc l - 1)) (bit_and b 1)
          ∙ ap₂ (λ (s t : ℕ). (r / 2 ^ s + t) % 2) (omega arith) (and-one b)
          ∙ sym input_top

  module _ (small : g < 2 ^ suc l) where
    pub run_bit_serial-eq-feed :
        (r : ℕ) (bs : List ℕ)
        → r < 2 ^ suc l
        → run_bit_serial (suc l) g (2 ^ suc l - 1) r bs ≡ feed l g r bs
    unfolding run_bit_serial feed
    run_bit_serial-eq-feed r [] h = refl
    run_bit_serial-eq-feed r (b ∷ bs) h =
        ap (λ (t : ℕ). run_bit_serial (suc l) g (2 ^ suc l - 1) t bs)
          (bit_serial_step-eq-step r b h)
        ∙ run_bit_serial-eq-feed (step l g r b) bs (step-lt r b)
      where
        step-lt : (r b : ℕ) → step l g r b < 2 ^ suc l
        step-lt r b = unfold step in shift-lt l g small _

    -- The loop that fills a table entry feeds the digits of the index.
    pub feed_index-eq-feed :
        (w i r : ℕ)
        → r < 2 ^ suc l
        → feed_index (suc l) g (2 ^ suc l - 1) w i r ≡ feed l g r (parity_bits w i)
    unfolding feed_index feed parity_bits
    feed_index-eq-feed zero i r h = refl
    feed_index-eq-feed (suc w) i r h =
        ap (feed_index (suc l) g (2 ^ suc l - 1) w i) (bit_serial_step-eq-step r d h)
        ∙ feed_index-eq-feed w i (step l g r d) (unfold step in shift-lt l g small _)
      where
        d : ℕ
        d = bit_and (i >>> w) 1

-- The digits of a number, highest first, spell it again.
pub length-parity_bits : (w i : ℕ) → length (parity_bits w i) ≡ w
unfolding parity_bits
length-parity_bits zero i = refl
length-parity_bits (suc w) i = ap suc (length-parity_bits w i)

pub value-parity_bits : (w i : ℕ) → value (parity_bits w i) ≡ i % 2 ^ w
unfolding parity_bits
value-parity_bits zero i = omega arith
value-parity_bits (suc w) i = omega (
  arith,
  mod-pow-suc_top w i,
  value-parity_bits w i,
  ap₂ (λ (d n : ℕ). d * 2 ^ n) digit (length-parity_bits w i),
)
  where
    digit : bit_and (i >>> w) 1 % 2 ≡ i / 2 ^ w % 2
    digit = ap (λ (t : ℕ). t % 2) (and-one (i >>> w)) ∙ omega arith

-- The loop that packs digits spells them, as long as no digit leaves the u32.
pack_from :
    (n acc : ℕ) (bs : List ℕ)
    → acc < 2 ^ n
    → n + length bs < 33
    → foldl (λ acc b. bit_or (shl32 acc 1) (bit_and b 1)) acc bs ≡ acc * 2 ^ length bs + value bs
pack_from n acc [] h k = omega arith
pack_from n acc (b ∷ bs) h k =
    ap (λ (t : ℕ). foldl (λ acc b. bit_or (shl32 acc 1) (bit_and b 1)) t bs) joined
    ∙ pack_from (suc n) (acc * 2 + b % 2) bs (omega (arith, pow-suc 2 n)) (omega arith)
    ∙ omega (arith, mul-pow-suc acc (length bs))
  where
    bound : 2 ^ suc n ≤ 2 ^ 32
    bound = pow-le-pow_right (omega arith) {i = suc n} {j = 32} (omega arith)

    joined : bit_or (shl32 acc 1) (bit_and b 1) ≡ acc * 2 + b % 2
    joined =
        ap₂ bit_or (mod-eq_of_lt {n = acc * 2} {m = 2 ^ 32} (omega (arith, bound, pow-suc 2 n)))
          (and-one b)
        ∙ or-shift_one acc (b % 2) (omega arith)

pub pack_bits-eq-value : (bs : List ℕ) → length bs < 33 → pack_bits bs ≡ value bs
unfolding pack_bits
pack_bits-eq-value bs h = pack_from 0 0 bs (omega arith) (omega arith) ∙ omega arith
