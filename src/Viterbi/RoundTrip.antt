-- ===== src/Viterbi/RoundTrip.antt =====
-- Decoding what src/viterbi.rs encoded.
use native.Mathlib.Nat.{pow-suc, div-div-eq-div-mul}
use syndrome.Prelude.{
  ℕ, zero, suc, ◌+◌, ◌-◌, ◌*◌, ◌/◌, ◌%◌, ◌^◌, ◌<◌, min, bit_and, List, [], ◌∷◌, ◌++◌, All, length,
  length-append, length-replicate, get_or, replicate, distance, ◌≢◌, ◌≡◌, refl, sym, subst, ap, ap₂,
  ◌∙◌, arith,
}
use syndrome.Word.{count_ones}
use syndrome.Word.Digits.{bit_and_step}
use syndrome.Word.Xor.{pow_pos}
use syndrome.Viterbi.{
  TrellisTable, ViterbiDecoder, next, build, encode_from, encode, inf, decode_hard_scalar,
}
use syndrome.Viterbi.Trellis.{IsTrellis, build-out0}
use syndrome.Viterbi.Paths.{received}
use syndrome.Viterbi.Words.{IsDecoder}
use syndrome.Viterbi.Optimal.{decode_hard_scalar-IsNearest}

-- In every state the input shows in the first coded bit.
abbrev pub IsTelling : ℕ → TrellisTable → Type 0
IsTelling m trellis =
    (s : ℕ) → s < 2 ^ m → get_or trellis.out0 (s * 2 + 0) 0 ≢ get_or trellis.out0 (s * 2 + 1) 0

distance_self : (xs : List ℕ) → distance xs xs ≡ 0
distance_self [] = refl
distance_self (x ∷ xs) = ground (arith, distance_self xs)

received_bits : (xs : List ℕ) → All (λ b. b < 2) xs → received xs ≡ xs
received_bits [] bits = refl
received_bits (x ∷ xs) bits = ap₂ ◌∷◌ (omega (arith, bits.0)) (received_bits xs bits.1)

module _ (m : ℕ) (trellis : TrellisTable) (facts : IsTrellis m trellis)
    (telling : IsTelling m trellis) where
  input_shows :
      (s b c : ℕ)
      → s < 2 ^ m
      → b < 2
      → c < 2
      → get_or trellis.out0 (s * 2 + b) 0 ≡ get_or trellis.out0 (s * 2 + c) 0
      → b ≡ c
  input_shows s zero zero hs hb hc same = refl
  input_shows s zero (suc zero) hs hb hc same = absurd (telling s hs same)
  input_shows s (suc zero) zero hs hb hc same = absurd (telling s hs (sym same))
  input_shows s (suc zero) (suc zero) hs hb hc same = refl
  input_shows s (suc (suc b)) c hs hb hc same = absurd (omega (arith, hb))
  input_shows s b (suc (suc c)) hs hb hc same = absurd (omega (arith, hc))

  next-lt : (s b : ℕ) → s < 2 ^ m → b < 2 → next trellis s b < 2 ^ m
  next-lt s b hs hb = grind (arith, facts.shifts s b hs hb)

  -- Words with the same codeword are the same bits.
  encode_from-injective :
      (s : ℕ) (xs ys tail : List ℕ)
      → s < 2 ^ m
      → length xs ≡ length ys
      → distance (encode_from trellis s (xs ++ tail)) (encode_from trellis s (ys ++ tail)) ≡ 0
      → received xs ≡ received ys
  unfolding encode_from
  encode_from-injective s [] [] tail hs long same = refl
  encode_from-injective s [] (y ∷ ys) tail hs long same = absurd (omega (arith, long))
  encode_from-injective s (x ∷ xs) [] tail hs long same = absurd (omega (arith, long))
  encode_from-injective s (x ∷ xs) (y ∷ ys) tail hs long same =
      let head : get_or trellis.out0 (s * 2 + x % 2) 0 ≡ get_or trellis.out0 (s * 2 + y % 2) 0 =
        ground (arith, same) in
      let bit : x % 2 ≡ y % 2 = input_shows s (x % 2) (y % 2) hs (omega arith) (omega arith) head in
      let rest : distance (encode_from trellis (next trellis s (x % 2)) (xs ++ tail))
            (encode_from trellis (next trellis s (y % 2)) (ys ++ tail))
          ≡ 0 =
        omega (arith, same) in
      ap₂ ◌∷◌ bit (
        encode_from-injective (next trellis s (x % 2)) xs ys tail
          (next-lt s (x % 2) hs (omega arith)) (omega (arith, long))
          (subst
            (λ c.
              distance (encode_from trellis (next trellis s (x % 2)) (xs ++ tail))
                (encode_from trellis (next trellis s c) (ys ++ tail))
              ≡ 0)
            (sym bit) rest))

  -- Coded bits are bits.
  received-encode_from :
      (s : ℕ) (xs : List ℕ)
      → s < 2 ^ m
      → received (encode_from trellis s xs) ≡ encode_from trellis s xs
  unfolding encode_from
  received-encode_from s [] hs = refl
  received-encode_from s (x ∷ xs) hs =
      ap₂ ◌∷◌ (omega (arith, facts.bits0 s (x % 2) hs (omega arith))) (
        ap₂ ◌∷◌ (omega (arith, facts.bits1 s (x % 2) hs (omega arith)))
          (received-encode_from (next trellis s (x % 2)) xs (next-lt s (x % 2) hs (omega arith))))

length-encode_from :
    (trellis : TrellisTable) (s : ℕ) (xs : List ℕ)
    → length (encode_from trellis s xs) ≡ 2 * length xs
unfolding encode_from
length-encode_from trellis s [] = omega arith
length-encode_from trellis s (x ∷ xs) =
    omega (arith, length-encode_from trellis (next trellis s (x % 2)) xs)

module _ (m : ℕ) (dec : ViterbiDecoder) (facts : IsDecoder m dec) (wide : 0 < m) where
  length-encode : (info : List ℕ) → length (encode dec info) ≡ 2 * (length info + m)
  unfolding encode
  length-encode info = omega (
    arith,
    length-encode_from dec.trellis 0 (info ++ replicate (dec.constraint_length - 1) 0),
    length-append info (replicate (dec.constraint_length - 1) 0),
    length-replicate {A = ℕ} (dec.constraint_length - 1) 0,
    facts.constraint,
  )

  -- With a register of at least one bit and generators whose first coded bit tells the input in
  -- every state, decoding an encoded word, shorter than the metric that stands for infinity
  -- allows, gives the word's bits.
  pub decode_hard_scalar-encode :
      (info : List ℕ)
      → IsTelling m dec.trellis
      → 2 * (length info + m) < inf
      → (decode_hard_scalar dec (encode dec info)).1 ≡ received info
  unfolding encode
  decode_hard_scalar-encode info telling small =
      let coded = encode dec info in
      let clean : received coded ≡ coded =
        received-encode_from m dec.trellis facts.trellis_facts telling 0
          (info ++ replicate (dec.constraint_length - 1) 0) (pow_pos m) in
      let (count, bits, nearest) =
        decode_hard_scalar-IsNearest m dec facts wide coded (length info) (length-encode info)
          (omega (arith, length-encode info, small)) in
      sym (received_bits (decode_hard_scalar dec coded).1 bits)
      ∙ encode_from-injective m dec.trellis facts.trellis_facts telling 0
          (decode_hard_scalar dec coded).1 info (replicate (dec.constraint_length - 1) 0)
          (pow_pos m) count
          (omega (
            arith,
            nearest info refl,
            ap (λ word. distance coded word) clean,
            ap (λ word. distance (encode dec (decode_hard_scalar dec coded).1) word) clean,
            distance_self coded,
          ))

-- The lowest digit of `&`, and the others.
and-low : (a b : ℕ) → bit_and a b % 2 ≡ min (a % 2) (b % 2)
and-low a b = omega (arith, bit_and_step a b)

and-half : (a b : ℕ) → bit_and a b / 2 ≡ bit_and (a / 2) (b / 2)
and-half a b = omega (arith, bit_and_step a b)

halved : (a k : ℕ) → a / 2 / 2 ^ k ≡ a / 2 ^ suc k
halved a k =
    div-div-eq-div-mul a 2 (2 ^ k)
    ∙ ap (λ (t : ℕ). a / t) {x = 2 * 2 ^ k} {y = 2 ^ suc k} (omega (arith, pow-suc 2 k))

-- A generator whose top bit is set shows the input.
count_ones-top :
    (m width s g : ℕ)
    → m < width
    → s < 2 ^ m
    → g / 2 ^ m % 2 ≡ 1
    → count_ones width (bit_and (2 ^ m + s) g) ≡ count_ones width (bit_and s g) + 1
unfolding count_ones
count_ones-top m zero s g hm hs top = absurd (omega (arith, hm))
count_ones-top zero (suc width) s g hm hs top = omega (
  arith,
  hs,
  top,
  and-low (1 + s) g,
  and-low s g,
  ap (count_ones width) (and-half (1 + s) g),
  ap (count_ones width) (and-half s g),
  ap (λ (n : ℕ). count_ones width (bit_and n (g / 2))) {x = (1 + s) / 2} {y = s / 2}
      (omega (arith, hs)),
)
count_ones-top (suc m) (suc width) s g hm hs top = omega (
  arith,
  and-low (2 ^ suc m + s) g,
  and-low s g,
  pow-suc 2 m,
  ap (count_ones width) (and-half (2 ^ suc m + s) g),
  ap (count_ones width) (and-half s g),
  ap (λ (n : ℕ). count_ones width (bit_and n (g / 2))) {x = (2 ^ suc m + s) / 2} {y = 2 ^ m + s / 2}
      (omega (arith, pow-suc 2 m)),
  count_ones-top m width (s / 2) (g / 2) (omega (arith, hm)) (omega (arith, hs, pow-suc 2 m))
      (ap (λ (n : ℕ). n % 2) (halved g m) ∙ top),
)

pub build-IsTelling :
    (m g0 g1 : ℕ) → m < 16 → g0 / 2 ^ m % 2 ≡ 1 → IsTelling m (build (m + 1) g0 g1)
build-IsTelling m g0 g1 small top s hs same = absurd (
    omega (
      arith,
      same,
      build-out0 m g0 g1 s 0 small hs (omega arith),
      build-out0 m g0 g1 s 1 small hs (omega arith),
      ap (λ (x : ℕ). count_ones 32 (bit_and x g0)) {x = 0 * 2 ^ m + s} {y = s} (omega arith),
      ap (λ (x : ℕ). count_ones 32 (bit_and x g0)) {x = 1 * 2 ^ m + s} {y = 2 ^ m + s}
          (omega arith),
      count_ones-top m 32 s g0 (omega (arith, small)) hs top,
    ))
