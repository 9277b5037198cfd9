-- ===== src/TransportBlock.antt =====
-- src/transport_block.rs: the DL-SCH chain from a transport block to coded bits and back. The LDPC
-- code is an interface. The worker pipeline of the decoder is not modelled: this is the path that
-- decodes one code block after the other.
pub mod Encoder
pub mod Decoder
use syndrome.Prelude.{
  ℕ, ◌+◌, ◌-◌, ◌*◌, ◌/◌, ◌%◌, Bool, List, ◌++◌, drop, length, ltb, ◌==◌, ◌||◌, not, replicate, take,
  if◌then◌else◌, Result, ok, err, fail_if, ◌>>=◌, ◌>>◌, invalid_param, buffer_too_small,
}
use syndrome.Segmentation.{BaseGraph, bg1, bg2, systematic_columns, coded_columns}

-- The LDPC code of src/qc_ldpc.rs, as the chain uses it.
pub record LdpcCode (F : Type 0) : Type 0 where
  -- `QcLdpcParams::new`, which both `QcLdpcEncoder::new` and `QcLdpcDecoder::with_lifting_size` call.
  pub params_new : BaseGraph → ℕ → Result (Unit {0})
  -- `QcLdpcEncoder::encode`: all systematic bits to the codeword.
  pub encode : BaseGraph → ℕ → List ℕ → Result (List ℕ)
  -- `QcLdpcDecoder::decode_layered_offset_min_sum`: the hard decisions and the iterations used. It
  -- clears its scratch buffers first.
  pub decode_layered_offset_min_sum : BaseGraph → ℕ → List F → ℕ → Result (List ℕ × ℕ)

-- `QcLdpcEncoder::encode_5g`
pub encode_5g : {F : Type 0} → LdpcCode F → BaseGraph → ℕ → List ℕ → ℕ → Result (List ℕ)
encode_5g ldpc bg z info_bits n_filler = do
  let k = systematic_columns bg * z
  fail_if (ltb k n_filler) (invalid_param "n_filler exceeds k_bits")
  let k_prime = k - n_filler
  fail_if (not (length info_bits == k_prime)) (buffer_too_small k_prime (length info_bits))
  ldpc.encode bg z (info_bits ++ replicate (k - k_prime) 0)

-- `e_raw / qm * qm`
pub bits_per_cb : ℕ → ℕ → ℕ → ℕ
bits_per_cb g c qm = g / c / qm * qm

-- `BG1_COLS`, `BG2_COLS`: the two columns that are never sent come on top.
abbrev pub variable_node_count : BaseGraph → ℕ → ℕ
variable_node_count bg z = (coded_columns bg + 2) * z

-- `QcLdpcDecoder::init_5g_llr`
pub init_5g_llr : {F : Type 0} → F → F → BaseGraph → ℕ → List F → ℕ → Result (List F)
init_5g_llr zero_f llr_filler bg z llr n_filler = do
  let n = variable_node_count bg z
  fail_if (not (length llr == n)) (invalid_param "llr length must equal variable_node_count()")
  let k = systematic_columns bg * z
  let k_prime = k - n_filler
  let filled = take k_prime llr ++ replicate (k - k_prime) llr_filler ++ drop k llr
  ok (replicate (2 * z) zero_f ++ drop (2 * z) filled)
