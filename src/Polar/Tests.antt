-- ===== src/Polar/Tests.antt =====
-- src/polar.rs with a code of length 8 and four information bits, and LLRs as words of a sign and a size.
use syndrome.Prelude.{
  ℕ, ◌+◌, ◌-◌, ◌<◌, min, ◌*◌, ◌/◌, ◌%◌, ◌^◌, Bool-cases, ◌⊎◌, inl, inr, true, false, ◌&&◌, List, [],
  ◌∷◌, none, ◌==◌, ltb, if◌then◌else◌, ok, replicate, ◌≡◌, refl, sym, subst, arith,
}
use syndrome.Polar.{
  zeros_from, trailing_zeros, is_power_of_two, frozen_mask, polar_transform, fill_info, encode,
  encoder_new, decoder_new, any_not_finite, LlrOps, ScScratch, PolarEncoder, PolarDecoder,
  decode_sc,
}
use syndrome.Polar.Decode.{AllAgree}
use syndrome.Polar.Signs.{FloatLaws, sign_laws}
use syndrome.Polar.RoundTrip.{word_of}
use syndrome.Polar.Codec.{decode_sc-encode}

-- A word of a sign and 31 bits of size; the size of a sum stays below 2 ^ 31.
abbrev size_of : ℕ → ℕ
size_of w = w % 2 ^ 31

abbrev sign_of : ℕ → ℕ
sign_of w = w % 2 ^ 32 / 2 ^ 31

abbrev signed_sum : ℕ → ℕ → ℕ
signed_sum x y =
    if sign_of x == sign_of y
    then sign_of y * 2 ^ 31 + min (size_of x + size_of y) (2 ^ 31 - 1)
    else if ltb (size_of x) (size_of y)
    then sign_of y * 2 ^ 31 + (size_of y - size_of x)
    else sign_of x * 2 ^ 31 + (size_of x - size_of y)

abbrev signed_ops : LlrOps ℕ
signed_ops = record {
  to_bits = λ w. w % 2 ^ 32;
  from_bits = λ w. w;
  abs = λ w. w % 2 ^ 31;
  smaller = λ x y. if ltb (size_of x) (size_of y) then x else y;
  add = signed_sum;
  is_negative = λ w. (sign_of w == 1) && ltb 0 (size_of w);
  is_finite = λ w. true;
}

signed_smaller : (x y : ℕ) → (signed_ops.smaller x y ≡ x) ⊎ (signed_ops.smaller x y ≡ y)
signed_smaller x y = elim (Bool-cases (ltb (size_of x) (size_of y))) [
  | inl e ↦ inl (rw e)
  | inr e ↦ inr (rw e)
]

signed_add :
    (x y : ℕ)
    → 0 < size_of x
    → 0 < size_of y
    → sign_of x ≡ sign_of y
    → (sign_of (signed_sum x y) ≡ sign_of y) × (0 < size_of (signed_sum x y))
signed_add x y p q e = ground arith

signed_negative :
    (x : ℕ) → 0 < size_of x → (if (sign_of x == 1) && ltb 0 (size_of x) then 1 else 0) ≡ sign_of x
signed_negative x h = ground arith

signed_laws : FloatLaws signed_ops
signed_laws = record {
  IsNonzero = λ w. 0 < size_of w;
  bits_lt = λ w. omega arith;
  from_bits_bits = λ w h. omega arith;
  abs_bits = λ w. omega arith;
  smaller_is = λ x y p q. signed_smaller x y;
  same_size = λ x y p e. omega arith;
  add_sign = λ x y p q e. signed_add x y p q e;
  is_negative_sign = λ x h. signed_negative x h;
}

abbrev info4 : List ℕ
info4 = 1 ∷ 0 ∷ 1 ∷ 1 ∷ []

-- Positions 3, 5, 6 and 7 hold information.
abbrev enc8 : PolarEncoder
enc8 = record {
  n = 8;
  k = 4;
  is_frozen = true ∷ true ∷ true ∷ false ∷ true ∷ false ∷ false ∷ false ∷ [];
}

abbrev dec8 : PolarDecoder
dec8 = record {
  n = 8;
  k = 4;
  list_size = 1;
  is_frozen = enc8.is_frozen;
  crc = none;
  sc_scratch = record { decoded = replicate 8 0; beta = replicate 8 0 };
}

new8 : encoder_new (λ n. []) 8 4 ≡ ok enc8
unfolding encoder_new is_power_of_two trailing_zeros zeros_from frozen_mask
new8 = refl

decoder_new8 : decoder_new (λ n. []) 8 4 1 none ≡ ok dec8
unfolding decoder_new is_power_of_two trailing_zeros zeros_from frozen_mask
decoder_new8 = refl

word8 : word_of enc8 info4 ≡ 1 ∷ 0 ∷ 1 ∷ 0 ∷ 0 ∷ 1 ∷ 0 ∷ 1 ∷ []
unfolding polar_transform fill_info
word8 = refl

-- The sign bit is set where the codeword has a 1.
abbrev llr8 : List ℕ
llr8 = 0x80000003 ∷ 2 ∷ 0x80000005 ∷ 1 ∷ 4 ∷ 0x80000002 ∷ 2 ∷ 0x80000001 ∷ []

agree8 : AllAgree signed_ops (sign_laws signed_ops signed_laws) llr8 (word_of enc8 info4)
unfolding signed_laws sign_laws
agree8 =
    subst (AllAgree signed_ops (sign_laws signed_ops signed_laws) llr8) (sym word8) (omega arith)

-- What an earlier call left in the scratch.
abbrev stale : ScScratch
stale = record { decoded = replicate 8 1; beta = replicate 8 1 }

finite8 : any_not_finite signed_ops llr8 ≡ false
unfolding any_not_finite
finite8 = refl

decode_sc-encode_example :
    (encode enc8 info4 (replicate 8 0) ≡ ok (word_of enc8 info4))
    × ((decode_sc signed_ops (record dec8 { sc_scratch = stale }) llr8 (replicate 4 0)).1
        ≡ ok info4)
decode_sc-encode_example =
    decode_sc-encode signed_ops signed_laws (λ n. []) 8 4 1 none enc8 dec8 stale info4
      (replicate 8 0) (replicate 4 0) llr8 (omega arith) new8 decoder_new8 refl refl (omega arith)
      refl refl refl agree8 finite8
