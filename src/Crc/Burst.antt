-- ===== src/Crc/Burst.antt =====
-- Error detection: an error pattern changes the remainder by its own remainder, and a burst no
-- longer than the parity has a remainder that is not zero.
use native.Mathlib.Nat.{zero-mul}
use syndrome.Prelude.{
  ℕ, suc, ◌+◌, ◌-◌, ◌*◌, ◌%◌, ◌^◌, ◌<◌, ◌≤◌, bit_xor, true, false, List, [], ◌∷◌, ◌++◌, length,
  replicate, ◌≡◌, ◌≢◌, refl, ap, ap₂, sym, subst, ◌∙◌, arith, Bool-cases, inl, inr,
}
use syndrome.Word.Xor.{xor_self, zero-xor, pow_pos, pow_add, xor_swap, xor-shift_left, xor-mod}
use syndrome.Crc.{CrcKind, parity_length, new, compute, check}
use syndrome.Crc.Register.{shift, shift-xor, iterate, iterate_low, iterate-eq-zero}
use syndrome.Word.Value.{value, value-lt}
use syndrome.Crc.Feed.{step, feed, feed-iterate, feed-append, feed-lt, feed-replicate_zero}
use syndrome.Crc.Engine.{
  top_digit, generator, kind-length, generator-small, generator-odd, compute-eq-feed,
}
use syndrome.Crc.Codeword.{check-compute_iff}

-- The string `word` with the places where `err` is 1 inverted.
pub corrupt : List ℕ → List ℕ → List ℕ
corrupt [] err = []
corrupt (b ∷ bs) [] = b ∷ bs
corrupt (b ∷ bs) (e ∷ es) = bit_xor b e ∷ corrupt bs es

pub length-corrupt : (bs es : List ℕ) → length (corrupt bs es) ≡ length bs
unfolding corrupt
length-corrupt [] es = refl
length-corrupt (b ∷ bs) [] = refl
length-corrupt (b ∷ bs) (e ∷ es) = ap suc (length-corrupt bs es)

module _ (l g : ℕ) where
  step-xor :
      (r s b c : ℕ) → step l g (bit_xor r s) (bit_xor b c) ≡ bit_xor (step l g r b) (step l g s c)
  unfolding step
  step-xor r s b c =
      ap (shift l g)
        (ap (bit_xor (bit_xor r s)) digits ∙ xor_swap r s (b % 2 * 2 ^ l) (c % 2 * 2 ^ l))
      ∙ shift-xor l g (bit_xor r (b % 2 * 2 ^ l)) (bit_xor s (c % 2 * 2 ^ l))
    where
      digits : bit_xor b c % 2 * 2 ^ l ≡ bit_xor (b % 2 * 2 ^ l) (c % 2 * 2 ^ l)
      digits = ap (λ (t : ℕ). t * 2 ^ l) (xor-mod 1 b c) ∙ sym (xor-shift_left l (b % 2) (c % 2))

  pub feed-corrupt :
      (bs es : List ℕ) (r s : ℕ)
      → length bs ≡ length es
      → feed l g (bit_xor r s) (corrupt bs es) ≡ bit_xor (feed l g r bs) (feed l g s es)
  unfolding feed corrupt
  feed-corrupt [] [] r s h = refl
  feed-corrupt [] (e ∷ es) r s h = absurd (omega arith)
  feed-corrupt (b ∷ bs) [] r s h = absurd (omega arith)
  feed-corrupt (b ∷ bs) (e ∷ es) r s h =
      ap (λ (t : ℕ). feed l g t (corrupt bs es)) (step-xor r s b e)
      ∙ feed-corrupt bs es (step l g r b) (step l g s e) (omega arith)

-- The remainder is linear: inverting a string by an error pattern of its length adds the pattern's
-- remainder.
pub compute-corrupt :
    (k : CrcKind) (bits err : List ℕ)
    → length bits ≡ length err
    → compute (new k) (corrupt bits err) ≡ bit_xor (compute (new k) bits) (compute (new k) err)
compute-corrupt k bits err h =
    compute-eq-feed k (corrupt bits err)
    ∙ ap (λ (t : ℕ). feed (top_digit k) (generator k) t (corrupt bits err)) (sym (xor_self 0))
    ∙ feed-corrupt (top_digit k) (generator k) bits err 0 0 h
    ∙ ap₂ bit_xor (sym (compute-eq-feed k bits)) (sym (compute-eq-feed k err))

-- The error pattern that is `burst`, with `before` untouched places in front and `after` behind.
abbrev pub burst_error : ℕ → List ℕ → ℕ → List ℕ
burst_error before burst after = replicate before 0 ++ (burst ++ replicate after 0)

module _ (k : CrcKind) (before : ℕ) (burst : List ℕ) (after : ℕ)
    (short : length burst ≤ parity_length k) (hit : value burst ≢ 0) where
  abbrev l : ℕ
  l = top_digit k

  abbrev g : ℕ
  g = generator k

  -- The burst alone leaves the register off zero.
  feed-burst : feed l g 0 burst ≢ 0
  feed-burst e = hit (
      eq-zero_of_shifted (
        iterate-eq-zero l g (generator-small k) (length burst) _ (generator-odd k) fits
          (sym taken ∙ e)))
    where
      free : ℕ
      free = suc l - length burst

      taken : feed l g 0 burst ≡ iterate l g (length burst) (value burst * 2 ^ free)
      taken =
          feed-iterate l g free burst 0 (omega (arith, kind-length k))
          ∙ ap (iterate l g (length burst)) (zero-xor _)

      fits : value burst * 2 ^ free < 2 ^ suc l
      fits = grind (
        arith,
        value-lt burst,
        pow_pos free,
        pow_add (length burst) free,
        ap (λ (t : ℕ). 2 ^ t) {x = length burst + free} {y = suc l} (omega (arith, kind-length k)),
      )

      eq-zero_of_shifted : value burst * 2 ^ free ≡ 0 → value burst ≡ 0
      eq-zero_of_shifted z = grind (arith, pow_pos free)

  compute-burst : compute (new k) (burst_error before burst after) ≢ 0
  compute-burst e = feed-burst (
      iterate-eq-zero l g (generator-small k) after (feed l g 0 burst) (generator-odd k)
        (feed-lt l g (generator-small k) 0 burst (pow_pos (suc l)))
        (sym unrolled ∙ sym (compute-eq-feed k _) ∙ e))
    where
      quiet : feed l g 0 (replicate before 0) ≡ 0
      quiet =
          feed-replicate_zero l g before 0
          ∙ iterate_low l g before 0
              (subst (λ (t : ℕ). t < 2 ^ suc l) (sym (zero-mul (2 ^ before))) (pow_pos (suc l)))
          ∙ zero-mul (2 ^ before)

      unrolled : feed l g 0 (burst_error before burst after) ≡ iterate l g after (feed l g 0 burst)
      unrolled =
          feed-append l g 0 (replicate before 0) (burst ++ replicate after 0)
          ∙ ap (λ (t : ℕ). feed l g t (burst ++ replicate after 0)) quiet
          ∙ feed-append l g 0 burst (replicate after 0)
          ∙ feed-replicate_zero l g after (feed l g 0 burst)

  -- For every kind, an error pattern of the string's length that is a burst no longer than the
  -- parity, with at least one place inverted, turns a string that `check` accepts into one that it
  -- rejects.
  pub check-burst :
      (word : List ℕ)
      → check (new k) word ≡ true
      → length word ≡ length (burst_error before burst after)
      → check (new k) (corrupt word (burst_error before burst after)) ≡ false
  check-burst word accepted same = elim (Bool-cases (check (new k) damaged)) [
    | inl missed ↦ absurd (compute-burst (sym added ∙ ((check-compute_iff k damaged).0 missed).1))
    | inr caught ↦ caught
  ]
    where
      damaged : List ℕ
      damaged = corrupt word (burst_error before burst after)

      added : compute (new k) damaged ≡ compute (new k) (burst_error before burst after)
      added =
          compute-corrupt k word (burst_error before burst after) same
          ∙ ap (λ (t : ℕ). bit_xor t (compute (new k) (burst_error before burst after)))
              (((check-compute_iff k word).0 accepted).1)
          ∙ zero-xor _
