-- ===== src/Crc/Table.antt =====
-- A table step over `w` digits is `w` bit-serial steps, so `Crc24::compute` is the bit-serial
-- reference.
use Prim.Native.Nat.{◌∣◌}
use native.Mathlib.Nat.{mod-eq_of_lt, mod-mod_of_dvd, dvd-mul_left, div-mul-le_self}
use syndrome.Prelude.{
  ℕ, zero, suc, ◌+◌, ◌-◌, ◌*◌, ◌/◌, ◌%◌, ◌^◌, ◌<◌, ◌≤◌, bit_xor, bit_and, List, get_or, take, drop,
  length, tabulate, get_or-tabulate, length-drop, length-take, take_add, take-append-drop, ◌≡◌, ap,
  ap₂, sym, subst, ◌∙◌, arith,
}
use syndrome.Word.Xor.{
  zero-xor, pow_pos, pow_add, xor-lt, xor-shift_left, fields, mod_fields, mod-pow-lt, xor_comm,
  xor_assoc, div_mod_fields,
}
use syndrome.Word.Mask.{and-mask}
use syndrome.Word.{◌>>>◌, shl32}
use syndrome.Crc.{
  chunk_step, chunk_loop, compute_chunked, run_bit_serial, pack_bits, feed_index, parity_bits,
}
use syndrome.Crc.Register.{iterate, iterate-xor, iterate_low}
use syndrome.Word.Value.{value, value-lt}
use syndrome.Crc.Feed.{feed, feed-iterate, feed-append, feed-lt}
use syndrome.Crc.Serial.{
  run_bit_serial-eq-feed, feed_index-eq-feed, pack_bits-eq-value, length-parity_bits,
  value-parity_bits,
}

-- The register has L = l + 1 = w + m digits, and the table `w` input digits.
module _ (l g w m : ℕ) (size : w + m ≡ suc l) (fits : suc l + w < 33) (pos : 0 < w)
    (small : g < 2 ^ suc l) where
  -- Entry `i` of a table filled by `Crc24::new`.
  pub table_entry :
      (i : ℕ) → i < 2 ^ w → feed_index (suc l) g (2 ^ suc l - 1) w i 0 ≡ iterate l g w (i * 2 ^ m)
  table_entry i h =
      feed_index-eq-feed l g (omega arith) small w i 0 (pow_pos (suc l))
      ∙ feed-iterate l g m (parity_bits w i) 0
          (ap (λ (t : ℕ). t + m) (length-parity_bits w i) ∙ size)
      ∙ ap₂ (iterate l g) (length-parity_bits w i) (
          zero-xor _
          ∙ ap (λ (t : ℕ). t * 2 ^ m) (value-parity_bits w i ∙ mod-eq_of_lt {n = i} {m = 2 ^ w} h))

  whole : 2 ^ suc l ≡ 2 ^ w * 2 ^ m
  whole = ap (λ (t : ℕ). 2 ^ t) (sym size) ∙ pow_add w m

  -- The digits of `r << w` that stay in the register are those below its top `w`.
  shifted_out : (r : ℕ) → bit_and (shl32 r w) (2 ^ suc l - 1) ≡ iterate l g w (r % 2 ^ m)
  shifted_out r =
      and-mask (suc l) (shl32 r w)
      ∙ mod-mod_of_dvd (2 ^ suc l) (r * 2 ^ w) divides
      ∙ ap (λ (t : ℕ). t % 2 ^ suc l) split
      ∙ mod_fields (suc l) (r / 2 ^ m) (r % 2 ^ m * 2 ^ w) below
      ∙ sym (iterate_low l g w (r % 2 ^ m) below)
    where
      divides : 2 ^ suc l ∣ 2 ^ 32
      divides =
          subst (λ (t : ℕ). 2 ^ suc l ∣ t)
            (sym (pow_add (32 - suc l) (suc l)) ∙ ap (λ (t : ℕ). 2 ^ t) {y = 32} (omega arith))
            (dvd-mul_left (2 ^ suc l) (2 ^ (32 - suc l)))

      split : r * 2 ^ w ≡ r / 2 ^ m * 2 ^ suc l + r % 2 ^ m * 2 ^ w
      split = omega (
        arith,
        ap (λ (t : ℕ). t * 2 ^ w) (div_mod_fields m r),
        ap (λ (t : ℕ). r / 2 ^ m * t) whole,
      )

      below : r % 2 ^ m * 2 ^ w < 2 ^ suc l
      below = grind (arith, whole, mod-pow-lt r m, pow_pos w)

  module _ (table : List ℕ)
      (filled : (i : ℕ) → i < 2 ^ w → get_or table i 0 ≡ iterate l g w (i * 2 ^ m)) where
    chunk_step-eq-feed :
        (r : ℕ) (bs : List ℕ)
        → r < 2 ^ suc l
        → length bs ≡ w
        → chunk_step w table (suc l) (2 ^ suc l - 1) r (pack_bits bs) ≡ feed l g r bs
    unfolding chunk_step
    chunk_step-eq-feed r bs h e =
        ap₂ bit_xor (shifted_out r) (ap (λ (t : ℕ). get_or table t 0) index ∙ filled top top-lt)
        ∙ sym (iterate-xor l g w (r % 2 ^ m) (top * 2 ^ m))
        ∙ ap₂ (iterate l g) (sym e) regroup
        ∙ sym (feed-iterate l g m bs r (ap (λ (t : ℕ). t + m) e ∙ size))
      where
        top : ℕ
        top = bit_xor (r / 2 ^ m) (value bs)

        value-lt_w : value bs < 2 ^ w
        value-lt_w = subst (λ (t : ℕ). value bs < 2 ^ t) e (value-lt bs)

        high-lt : r / 2 ^ m < 2 ^ w
        high-lt = grind (arith, whole, div_mod_fields m r)

        top-lt : top < 2 ^ w
        top-lt = xor-lt w (r / 2 ^ m) (value bs) high-lt value-lt_w

        index : bit_and (bit_xor (r >>> (suc l - w)) (pack_bits bs)) (2 ^ w - 1) ≡ top
        index =
            and-mask w _
            ∙ ap₂ (λ (s t : ℕ). bit_xor (r / 2 ^ s) t % 2 ^ w) (omega arith)
                (pack_bits-eq-value bs (omega arith))
            ∙ mod-eq_of_lt {n = top} {m = 2 ^ w} top-lt

        regroup : bit_xor (r % 2 ^ m) (top * 2 ^ m) ≡ bit_xor r (value bs * 2 ^ m)
        regroup =
            ap (bit_xor (r % 2 ^ m)) (sym (xor-shift_left m (r / 2 ^ m) (value bs)))
            ∙ sym (xor_assoc (r % 2 ^ m) (r / 2 ^ m * 2 ^ m) (value bs * 2 ^ m))
            ∙ ap (λ (t : ℕ). bit_xor t (value bs * 2 ^ m))
                (xor_comm (r % 2 ^ m) (r / 2 ^ m * 2 ^ m) ∙ sym (fields m r))

    chunk_loop-eq-feed :
        (chunks r : ℕ) (bits : List ℕ)
        → r < 2 ^ suc l
        → chunks * w ≤ length bits
        → chunk_loop w table (suc l) (2 ^ suc l - 1) chunks r bits
          ≡ feed l g r (take (chunks * w) bits)
    unfolding chunk_loop feed
    chunk_loop-eq-feed zero r bits h e =
        ap (λ (t : ℕ). feed l g r (take t bits)) {x = 0} {y = 0 * w} (omega arith)
    chunk_loop-eq-feed (suc chunks) r bits h e =
        ap (λ (t : ℕ). chunk_loop w table (suc l) (2 ^ suc l - 1) chunks t (drop w bits)) first
        ∙ chunk_loop-eq-feed chunks (feed l g r (take w bits)) (drop w bits)
            (feed-lt l g small r (take w bits) h) (omega (arith, length-drop w bits))
        ∙ sym (feed-append l g r (take w bits) (take (chunks * w) (drop w bits)))
        ∙ ap (feed l g r)
            (sym (take_add w (chunks * w) bits) ∙ ap (λ (t : ℕ). take t bits) (omega arith))
      where
        first :
            chunk_step w table (suc l) (2 ^ suc l - 1) r (pack_bits (take w bits))
            ≡ feed l g r (take w bits)
        first = chunk_step-eq-feed r (take w bits) h (omega (arith, length-take w bits))

    -- One arm of `compute` is the bit-serial loop.
    pub compute_chunked-eq-feed :
        (bits : List ℕ) → compute_chunked w table (suc l) g (2 ^ suc l - 1) bits ≡ feed l g 0 bits
    unfolding compute_chunked
    compute_chunked-eq-feed bits =
        ap (λ (t : ℕ). run_bit_serial (suc l) g (2 ^ suc l - 1) t (drop done bits)) whole_chunks
        ∙ run_bit_serial-eq-feed l g (omega arith) small (feed l g 0 (take done bits))
            (drop done bits) (feed-lt l g small 0 (take done bits) (pow_pos (suc l)))
        ∙ sym (feed-append l g 0 (take done bits) (drop done bits))
        ∙ ap (feed l g 0) (take-append-drop done bits)
      where
        done : ℕ
        done = length bits / w * w

        whole_chunks :
            chunk_loop w table (suc l) (2 ^ suc l - 1) (length bits / w) 0 bits
            ≡ feed l g 0 (take done bits)
        whole_chunks =
            chunk_loop-eq-feed (length bits / w) 0 bits (pow_pos (suc l))
              (div-mul-le_self (length bits) w)

  -- The table that `Crc24::new` fills.
  pub new_table-eq-feed :
      (n : ℕ) (bits : List ℕ)
      → n ≡ 2 ^ w
      → compute_chunked w
          (tabulate n (λ i. feed_index (suc l) g (2 ^ suc l - 1) w i 0))
          (suc l)
          g
          (2 ^ suc l - 1)
          bits
        ≡ feed l g 0 bits
  new_table-eq-feed n bits e = compute_chunked-eq-feed _ entry bits
    where
      entry :
          (i : ℕ)
          → i < 2 ^ w
          → get_or (tabulate n (λ j. feed_index (suc l) g (2 ^ suc l - 1) w j 0)) i 0
            ≡ iterate l g w (i * 2 ^ m)
      entry i h = get_or-tabulate n _ i 0 (omega (arith, e)) ∙ table_entry i h
