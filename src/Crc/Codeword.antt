-- ===== src/Crc/Codeword.antt =====
-- `Crc24::attach` and `Crc24::check`: which strings a new engine accepts.
use native.Mathlib.Nat.{mod-eq_of_lt, zero-mul}
use syndrome.Prelude.{
  ℕ, suc, ◌+◌, ◌-◌, ◌^◌, ◌<◌, ◌≤◌, bit_xor, Bool, true, false, List, ◌++◌, take, drop, length,
  length-append, length-drop, take-append-drop, take_append, drop_append, ◌≡◌, refl, ap, ap₂, sym,
  subst, ◌∙◌, ◌↔◌, arith, ltb, ◌==◌, if◌then◌else◌, dec_le,
}
use syndrome.Word.Xor.{xor_self, eq_of_xor, pow_pos, xor-lt}
use syndrome.Crc.{
  CrcKind, crc24_a, crc24_b, crc24_c, crc16, crc11, crc6, parity_length, new, compute, attach,
  check, pack_bits, parity_bits,
}
use syndrome.Crc.Register.{iterate, iterate_low, iterate-eq-zero}
use syndrome.Word.Value.{value, value-lt}
use syndrome.Crc.Feed.{feed, feed-iterate, feed-append, feed-lt}
use syndrome.Crc.Serial.{pack_bits-eq-value, length-parity_bits, value-parity_bits}
use syndrome.Crc.Engine.{
  top_digit, generator, kind-length, generator-small, generator-odd, top_digit-lt, compute-eq-feed,
}

new-kind : (k : CrcKind) → (new k).kind ≡ k
unfolding new
new-kind crc24_a = refl
new-kind crc24_b = refl
new-kind crc24_c = refl
new-kind crc16 = refl
new-kind crc11 = refl
new-kind crc6 = refl

-- The remainder has at most as many digits as the kind's parity.
pub compute-lt : (k : CrcKind) (bits : List ℕ) → compute (new k) bits < 2 ^ parity_length k
compute-lt k bits =
    subst (λ (t : ℕ). compute (new k) bits < 2 ^ t) (sym (kind-length k))
      (subst (λ (t : ℕ). t < 2 ^ suc (top_digit k)) (sym (compute-eq-feed k bits))
        (feed-lt (top_digit k) (generator k) (generator-small k) 0 bits (pow_pos _)))

module _ (k : CrcKind) where
  abbrev residue : List ℕ → ℕ
  residue bits = feed (top_digit k) (generator k) 0 bits

  -- A payload followed by as many digits as the parity.
  residue-append :
      (p q : List ℕ)
      → length q ≡ parity_length k
      → residue (p ++ q)
        ≡ iterate (top_digit k) (generator k) (length q) (bit_xor (compute (new k) p) (value q))
  residue-append p q e =
      feed-append (top_digit k) (generator k) 0 p q
      ∙ feed-iterate (top_digit k) (generator k) 0 q (residue p) (omega (arith, kind-length k))
      ∙ ap₂ (λ (s t : ℕ). iterate (top_digit k) (generator k) (length q) (bit_xor s t))
          (sym (compute-eq-feed k p)) (omega arith)

  residue-zero_iff :
      (p q : List ℕ)
      → length q ≡ parity_length k
      → (residue (p ++ q) ≡ 0) ↔ (compute (new k) p ≡ value q)
  residue-zero_iff p q e = (
    λ h. eq_of_xor (compute (new k) p) (value q) (
        iterate-eq-zero (top_digit k) (generator k) (generator-small k) (length q) _
          (generator-odd k) fits (sym (residue-append p q e) ∙ h)),
    λ h.
        residue-append p q e
        ∙ ap (iterate (top_digit k) (generator k) (length q))
            (ap (λ (t : ℕ). bit_xor t (value q)) h ∙ xor_self (value q))
        ∙ iterate_low (top_digit k) (generator k) (length q) 0 (
            subst (λ (t : ℕ). t < 2 ^ suc (top_digit k)) (sym (zero-mul (2 ^ length q)))
              (pow_pos _))
        ∙ zero-mul (2 ^ length q),
  )
    where
      fits : bit_xor (compute (new k) p) (value q) < 2 ^ suc (top_digit k)
      fits =
          xor-lt (suc (top_digit k)) (compute (new k) p) (value q)
            (subst (λ (t : ℕ). compute (new k) p < 2 ^ t) (kind-length k) (compute-lt k p))
            (subst (λ (t : ℕ). value q < 2 ^ t) (e ∙ kind-length k) (value-lt q))

  check_lem :
      (bits : List ℕ)
      → check (new k) bits ≡ (
          if ltb (length bits) (parity_length k)
          then false
          else compute (new k) (take (length bits - parity_length k) bits)
            == pack_bits (drop (length bits - parity_length k) bits))
  unfolding check
  check_lem bits = ap at_kind (new-kind k)
    where
      at_kind : CrcKind → Bool
      at_kind kind =
          if ltb (length bits) (parity_length kind)
          then false
          else compute (new k) (take (length bits - parity_length kind) bits)
            == pack_bits (drop (length bits - parity_length kind) bits)

  -- `check` compares the remainder of what stands before the parity with the parity.
  pub check_append :
      (bits parity : List ℕ)
      → length parity ≡ parity_length k
      → check (new k) (bits ++ parity) ≡ (compute (new k) bits == pack_bits parity)
  check_append bits parity size =
      check_lem (bits ++ parity)
      ∙ ap (λ (b : Bool). if b then false else parts_agree) {y = false}
          (ground (arith, size, whole))
      ∙ ap₂ (λ (l r : List ℕ). compute (new k) l == pack_bits r)
          (ap (λ (n : ℕ). take n (bits ++ parity)) before ∙ take_append bits parity)
          (ap (λ (n : ℕ). drop n (bits ++ parity)) before ∙ drop_append bits parity)
    where
      whole : length (bits ++ parity) ≡ length bits + length parity
      whole = length-append bits parity

      before : length (bits ++ parity) - parity_length k ≡ length bits
      before = omega (arith, whole, size)

      parts_agree : Bool
      parts_agree =
          compute (new k) (take (length (bits ++ parity) - parity_length k) (bits ++ parity))
          == pack_bits (drop (length (bits ++ parity) - parity_length k) (bits ++ parity))

  -- `check` accepts exactly the strings that are long enough and leave the register at zero.
  pub check_iff :
      (bits : List ℕ)
      → (check (new k) bits ≡ true) ↔ ((parity_length k ≤ length bits) × (residue bits ≡ 0))
  check_iff bits = elim (dec_le (parity_length k) (length bits)) [
    | yes fits ↦
        let tail_length = tail_length fits in
        let spelt =
          pack_bits-eq-value q (omega (arith, tail_length, kind-length k, top_digit-lt k)) in
        let sound = residue-zero_iff p q tail_length in
        let joined = take-append-drop split bits in
        (
          λ h. (fits, ap residue (sym joined) ∙ sound.1 (ground (arith, check_lem bits, spelt))),
          λ h. ground (arith, check_lem bits, spelt, sound.0 (ap residue joined ∙ h.1)),
        )
    | no short ↦ (λ h. absurd (ground (arith, check_lem bits)), λ h. absurd (short h.0))
  ]
    where
      split : ℕ
      split = length bits - parity_length k

      p : List ℕ
      p = take split bits

      q : List ℕ
      q = drop split bits

      tail_length : parity_length k ≤ length bits → length q ≡ parity_length k
      tail_length h = omega (arith, length-drop split bits)

module _ (k : CrcKind) (bits : List ℕ) where
  parity : List ℕ
  parity = parity_bits (parity_length k) (compute (new k) bits)

  -- `attach` leaves the payload as it is and appends the parity.
  attach_lem : attach (new k) bits ≡ bits ++ parity
  unfolding attach parity
  attach_lem =
      ap (λ (t : CrcKind). bits ++ parity_bits (parity_length t) (compute (new k) bits))
        (new-kind k)

  length-parity : length parity ≡ parity_length k
  unfolding parity
  length-parity = length-parity_bits (parity_length k) (compute (new k) bits)

  pub length-attach : length (attach (new k) bits) ≡ length bits + parity_length k
  length-attach =
      ap length attach_lem ∙ length-append bits parity ∙ ap (◌+◌ (length bits)) length-parity

  pub take-attach : take (length bits) (attach (new k) bits) ≡ bits
  take-attach = ap (take (length bits)) attach_lem ∙ take_append bits parity

  -- For every kind and every bit string `check` accepts what `attach` makes.
  pub check-attach : check (new k) (attach (new k) bits) ≡ true
  unfolding parity
  check-attach = (check_iff k _).1 (
    omega (arith, length-attach),
    ap (residue k) attach_lem
        ∙ (residue-zero_iff k bits parity length-parity).1 (
            sym (
              value-parity_bits (parity_length k) (compute (new k) bits)
              ∙ mod-eq_of_lt (compute-lt k bits))),
  )

-- `check` accepts exactly the strings at least as long as the parity whose own remainder, parity
-- included, is zero.
pub check-compute_iff :
    (k : CrcKind) (bits : List ℕ)
    → (check (new k) bits ≡ true) ↔ ((parity_length k ≤ length bits) × (compute (new k) bits ≡ 0))
check-compute_iff k bits = (
  λ h. let r = (check_iff k bits).0 h in (r.0, compute-eq-feed k bits ∙ r.1),
  λ h. (check_iff k bits).1 (h.0, sym (compute-eq-feed k bits) ∙ h.1),
)
