-- ===== src/WifiRateMatching.antt =====
-- src/wifi_rate_matching.rs: which bits of a codeword are sent, and what the decoder puts in the
-- places of the others. The LDPC code is an interface; LLRs are floats: a type with a zero and a
-- value for a bit that is known to be zero.
pub mod Counts
pub mod Shortened
mod Tests
use syndrome.Prelude.{
  ℕ, ◌+◌, ◌-◌, List, ◌++◌, length, take, drop, replicate, ltb, ◌==◌, not, Result, ok, fail_if,
  ◌>>=◌, ◌>>◌, invalid_param, buffer_too_small,
}

-- The shortened and the punctured bits. `n - n_shrt` does not stop at 0, since `k <= n`.
pub shortening_and_puncture_counts : ℕ → ℕ → ℕ → ℕ → Result (ℕ × ℕ)
shortening_and_puncture_counts k n payload_bits target_coded_bits = do
  fail_if (ltb n k) (invalid_param "codeword length N must be at least the information length K")
  fail_if (ltb k payload_bits) (
      invalid_param
        "payload_bits exceeds this codeword's K; multi-codeword segmentation is not implemented")
  fail_if (ltb target_coded_bits payload_bits) (
      invalid_param
        "target_coded_bits must be at least payload_bits: every real information bit is always transmitted")
  let n_shrt = k - payload_bits
  let max_coded = n - n_shrt
  fail_if (ltb max_coded target_coded_bits) (
      invalid_param
        "target_coded_bits exceeds N minus the shortened bits (N - n_shrt); puncturing cannot add bits back")
  ok (n_shrt, max_coded - target_coded_bits)

-- The LDPC code of src/qc_ldpc.rs, as an encoder and a decoder.
pub record LdpcCodec (F : Type 0) : Type 0 where
  pub info_bit_count : ℕ
  pub codeword_bit_count : ℕ
  pub encode : List ℕ → Result (List ℕ)
  pub variable_node_count : ℕ
  pub check_node_count : ℕ
  -- The hard decisions and the iterations used.
  pub decode_layered_offset_min_sum : List F → ℕ → Result (List ℕ × ℕ)

module _ {F : Type 0} (codec : LdpcCodec F) where
  -- The written output.
  pub encode_shortened : List ℕ → ℕ → List ℕ → Result (List ℕ)
  encode_shortened payload target_coded_bits out = do
    let k = codec.info_bit_count
    let n = codec.codeword_bit_count
    let payload_bits = length payload
    counts ← shortening_and_puncture_counts k n payload_bits target_coded_bits
    fail_if (not (length out == target_coded_bits))
        (buffer_too_small target_coded_bits (length out))
    codeword ← codec.encode (payload ++ replicate (k - payload_bits) 0)
    let parity_transmit_len = n - k - counts.1
    ok (payload ++ take parity_transmit_len (drop k codeword))

module _ {F : Type 0} (zero_f llr_known_zero : F) (codec : LdpcCodec F) where
  -- The LLRs of the full codeword that `decode_shortened` writes.
  pub codeword_llr_of : ℕ → List F → List F → Result (List F)
  codeword_llr_of payload_bits rx_llr codeword_llr = do
    let n = codec.variable_node_count
    let k = n - codec.check_node_count
    counts ← shortening_and_puncture_counts k n payload_bits (length rx_llr)
    fail_if (not (length codeword_llr == n)) (buffer_too_small n (length codeword_llr))
    let parity_transmit_len = n - k - counts.1
    ok (
        take payload_bits rx_llr
        ++ replicate (k - payload_bits) llr_known_zero
        ++ take parity_transmit_len (drop payload_bits rx_llr)
        ++ replicate (n - (k + parity_transmit_len)) zero_f)

  -- `decode_shortened`, and `decode_shortened_with_workspace` on the buffers of a workspace.
  pub decode_shortened : ℕ → List F → List F → ℕ → Result (List ℕ × ℕ)
  decode_shortened payload_bits rx_llr codeword_llr iterations = do
    full ← codeword_llr_of payload_bits rx_llr codeword_llr
    codec.decode_layered_offset_min_sum full iterations
