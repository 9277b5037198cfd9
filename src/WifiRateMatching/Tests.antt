-- ===== src/WifiRateMatching/Tests.antt =====
-- src/wifi_rate_matching.rs on a codeword of the rate 1/2 code.
use syndrome.Prelude.{
  ℕ, ◌+◌, ◌≤◌, ◌↔◌, [], ◌∷◌, ◌++◌, length, length-append, length-take, take, replicate, ok,
  ok-injective, ◌≡◌, refl, sym, ap, ◌∙◌, arith,
}
use syndrome.WifiRateMatching.{
  LdpcCodec, shortening_and_puncture_counts, encode_shortened, decode_shortened,
}
use syndrome.WifiRateMatching.Shortened.{IsMatched, decode_shortened-encode_shortened}
use syndrome.WifiRateMatching.Counts.{shortening_and_puncture_counts_iff}

shortening_and_puncture_counts_iff_example :
    (shortening_and_puncture_counts 324 648 300 600 ≡ ok (24, 24))
    ↔ ((324 ≤ 648) × (300 ≤ 600) × (300 + 24 ≡ 324) × (600 + 24 + 24 ≡ 648))
shortening_and_puncture_counts_iff_example =
    shortening_and_puncture_counts_iff 324 648 300 600 24 24

abbrev one : ℕ
one = 1

-- A code of three information bits with all ones for parity.
abbrev ones : LdpcCodec ℕ
ones = record {
  info_bit_count = 3;
  codeword_bit_count = 6;
  encode = λ info. ok (take 3 (info ++ replicate 3 0) ++ replicate 3 1);
  variable_node_count = 6;
  check_node_count = 3;
  decode_layered_offset_min_sum = λ llr iterations. ok (llr, iterations);
}

ones-IsMatched : IsMatched ones
ones-IsMatched = record {
  same_length = refl;
  checks = refl;
  full = λ info codeword e.
      ap length (ok-injective codeword _ (sym e))
      ∙ omega (
        arith,
        length-append (take 3 (info ++ replicate 3 0)) (replicate {A = ℕ} 3 1),
        length-take 3 (info ++ replicate 3 0),
        length-append info (replicate {A = ℕ} 3 0),
      );
}

sent_bits : encode_shortened ones (1 ∷ 0 ∷ []) 4 (7 ∷ 7 ∷ 7 ∷ 7 ∷ []) ≡ ok (1 ∷ 0 ∷ 1 ∷ 1 ∷ [])
unfolding encode_shortened shortening_and_puncture_counts
sent_bits = refl

decode_shortened-encode_shortened_example :
    (length (1 ∷ 0 ∷ 1 ∷ one ∷ []) ≡ 4)
    × (decode_shortened 0 9 ones 2 (5 ∷ 4 ∷ 5 ∷ 5 ∷ []) (replicate 6 7) 8
        ≡ ok (5 ∷ 4 ∷ 9 ∷ 5 ∷ 5 ∷ 0 ∷ [], 8))
decode_shortened-encode_shortened_example =
    decode_shortened-encode_shortened 0 9 ones (λ bit. bit + 4) (1 ∷ 0 ∷ []) 4 (7 ∷ 7 ∷ 7 ∷ 7 ∷ [])
      (1 ∷ 0 ∷ 1 ∷ 1 ∷ []) (1 ∷ 0 ∷ 0 ∷ 1 ∷ 1 ∷ 1 ∷ []) (replicate 6 7) 8 ones-IsMatched refl
      sent_bits refl
