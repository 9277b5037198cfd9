-- ===== src/WifiRateMatching/Shortened.antt =====
-- What `decode_shortened` of src/wifi_rate_matching.rs makes of what `encode_shortened` sent.
use mathlib.Core.List.{map-append}
use syndrome.Prelude.{
  ℕ, ◌+◌, ◌-◌, Bool, true, false, List, ◌++◌, map, length, length-append, length-take, length-drop,
  length-map, take, drop, take_append, drop_append, take_short, replicate, ◌==◌, not, Result,
  ok-injective, ok, err, fail_if, ◌>>=◌, ◌>>◌, buffer_too_small, ◌≡◌, refl, sym, ap, ap₂, ◌∙◌,
  arith,
}
use syndrome.WifiRateMatching.{
  LdpcCodec, shortening_and_puncture_counts, encode_shortened, codeword_llr_of, decode_shortened,
}
use syndrome.WifiRateMatching.Counts.{shortening_and_puncture_counts_iff}

-- An encoder and a decoder of the same code, and the encoder's output is a full codeword.
pub record IsMatched {F : Type 0} (codec : LdpcCodec F) : Type 0 where
  pub same_length : codec.variable_node_count ≡ codec.codeword_bit_count
  pub checks : codec.check_node_count + codec.info_bit_count ≡ codec.codeword_bit_count
  pub full :
      (info codeword : List ℕ)
      → codec.encode info ≡ ok codeword
      → length codeword ≡ codec.codeword_bit_count

module _ {F : Type 0} (zero_f llr_known_zero : F) (codec : LdpcCodec F) (send : ℕ → F)
    (payload : List ℕ) (target : ℕ) where
  -- The codeword's LLRs: those of the bits that were sent, sure zeros for the shortened bits and
  -- erasures for the punctured ones.
  abbrev pub expected_llr : List ℕ → List F
  expected_llr codeword =
      map send payload
      ++ replicate (codec.info_bit_count - length payload) llr_known_zero
      ++ map send (take (target - length payload) (drop codec.info_bit_count codeword))
      ++ replicate (codec.codeword_bit_count - (codec.info_bit_count + (target - length payload)))
          zero_f

  -- A successful call took the counts, and sent the payload with the first parity bits.
  encode_shortened-ok :
      (out coded codeword : List ℕ)
      → codec.encode (payload ++ replicate (codec.info_bit_count - length payload) 0) ≡ ok codeword
      → encode_shortened codec payload target out ≡ ok coded
      → (shortened : ℕ) × (punctured : ℕ) × (shortening_and_puncture_counts codec.info_bit_count
            codec.codeword_bit_count
            (length payload)
            target
          ≡ ok (shortened, punctured))
        × (coded
            ≡ payload
              ++ take
                  (codec.codeword_bit_count - codec.info_bit_count - punctured)
                  (drop codec.info_bit_count codeword))
  unfolding encode_shortened
  encode_shortened-ok out coded codeword found sent =
      go
        (shortening_and_puncture_counts codec.info_bit_count codec.codeword_bit_count
          (length payload) target)
        refl sent
    where
      parity : ℕ → List ℕ → List ℕ
      parity punctured word =
          take (codec.codeword_bit_count - codec.info_bit_count - punctured)
            (drop codec.info_bit_count word)

      rest : Bool → ℕ → Result (List ℕ)
      rest wrong punctured =
          fail_if wrong (buffer_too_small target (length out))
          >> (codec.encode (payload ++ replicate (codec.info_bit_count - length payload) 0)
              >>= λ word. ok (payload ++ parity punctured word))

      written :
          (wrong : Bool) (punctured : ℕ)
          → rest wrong punctured ≡ ok coded
          → coded ≡ payload ++ parity punctured codeword
      written true punctured h = cc
      written false punctured h =
          ok-injective coded (payload ++ parity punctured codeword)
            (sym h ∙ ap (λ r. r >>= λ word. ok (payload ++ parity punctured word)) found)

      go :
          (r : Result (ℕ × ℕ))
          → shortening_and_puncture_counts codec.info_bit_count codec.codeword_bit_count
              (length payload)
              target
            ≡ r
          → (r >>= λ counts. rest (not (length out == target)) counts.1) ≡ ok coded
          → (shortened : ℕ) × (punctured : ℕ) × (shortening_and_puncture_counts codec.info_bit_count
                codec.codeword_bit_count
                (length payload)
                target
              ≡ ok (shortened, punctured))
            × (coded ≡ payload ++ parity punctured codeword)
      go (ok (shortened, punctured)) e h =
          (shortened, punctured, e, written (not (length out == target)) punctured h)
      go (err x) e h = cc

  -- For an encoder and a decoder of the same code whose encoder fills the codeword, if encoding
  -- the padded payload gives a codeword and `encode_shortened` succeeds, then it sent as many bits
  -- as the target, and `decode_shortened` on their LLRs, with a buffer of the right size, hands
  -- the decoder the LLRs of the sent bits at their places in that codeword, a known zero at each
  -- shortened place and an erasure at each punctured one.
  pub decode_shortened-encode_shortened :
      (out coded codeword : List ℕ) (codeword_llr : List F) (iterations : ℕ)
      → IsMatched codec
      → codec.encode (payload ++ replicate (codec.info_bit_count - length payload) 0) ≡ ok codeword
      → encode_shortened codec payload target out ≡ ok coded
      → length codeword_llr ≡ codec.variable_node_count
      → (length coded ≡ target)
        × (decode_shortened zero_f llr_known_zero codec
              (length payload)
              (map send coded)
              codeword_llr
              iterations
            ≡ codec.decode_layered_offset_min_sum (expected_llr codeword) iterations)
  unfolding decode_shortened codeword_llr_of
  decode_shortened-encode_shortened out coded codeword codeword_llr iterations matched found sent
        room =
      let (shortened, punctured, counted, made) =
        encode_shortened-ok out coded codeword found sent in
      let (k_n, fits, info, all) =
        (shortening_and_puncture_counts_iff codec.info_bit_count codec.codeword_bit_count
            (length payload) target shortened punctured).0
          counted in
      let parity_length : codec.codeword_bit_count - codec.info_bit_count - punctured
          ≡ target - length payload =
        omega (arith, k_n, fits, info, all) in
      let part = take (target - length payload) (drop codec.info_bit_count codeword) in
      let part_length : length part ≡ target - length payload = omega (
        arith,
        length-take (target - length payload) (drop codec.info_bit_count codeword),
        length-drop codec.info_bit_count codeword,
        matched.full _ codeword found,
        k_n,
        fits,
        info,
        all,
      ) in
      let coded_eq : coded ≡ payload ++ part =
        made
        ∙ ap (λ (n : ℕ). payload ++ take n (drop codec.info_bit_count codeword)) parity_length in
      let coded_length : length coded ≡ target =
        omega (arith, ap length coded_eq, length-append payload part, part_length, fits) in
      let llr_eq : map send coded ≡ map send payload ++ map send part =
        ap (map send) coded_eq ∙ map-append send payload part in
      let k_eq : codec.variable_node_count - codec.check_node_count ≡ codec.info_bit_count =
        omega (arith, matched.same_length, matched.checks) in
      let counted' : shortening_and_puncture_counts
            (codec.variable_node_count - codec.check_node_count) codec.variable_node_count
            (length payload) (length (map send coded))
          ≡ ok (shortened, punctured) =
        (shortening_and_puncture_counts_iff _ _ (length payload) _ shortened punctured).1 (
          omega (arith, k_eq, matched.same_length, k_n),
          omega (arith, length-map coded send, coded_length, fits),
          omega (arith, k_eq, info),
          omega (arith, length-map coded send, coded_length, all, matched.same_length),
        ) in
      let sized : (length codeword_llr == codec.variable_node_count) ≡ true =
        ground (arith, room) in
      let front : take (length payload) (map send coded) ≡ map send payload =
        ap₂ take {u = map send coded} (sym (length-map payload send)) llr_eq
        ∙ take_append (map send payload) (map send part) in
      let back : drop (length payload) (map send coded) ≡ map send part =
        ap₂ drop {u = map send coded} (sym (length-map payload send)) llr_eq
        ∙ drop_append (map send payload) (map send part) in
      let d_eq : codec.variable_node_count
            - (codec.variable_node_count - codec.check_node_count)
            - punctured
          ≡ target - length payload =
        omega (arith, k_eq, matched.same_length, parity_length) in
      (
        coded_length,
        rw (counted', sized)
            (ap (λ llr. codec.decode_layered_offset_min_sum llr iterations)
              (ap₂ ◌++◌
                (ap₂ ◌++◌
                  (ap₂ ◌++◌ front
                    (ap (λ (n : ℕ). replicate (n - length payload) llr_known_zero) k_eq))
                  (ap₂ take d_eq back
                    ∙ take_short (target - length payload) (map send part)
                        (omega (arith, length-map part send, part_length))))
                (ap (λ (n : ℕ). replicate n zero_f)
                  (omega (arith, k_eq, matched.same_length, d_eq))))),
      )
