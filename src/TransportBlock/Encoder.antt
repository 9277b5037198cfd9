-- ===== src/TransportBlock/Encoder.antt =====
-- `DlSchEncoder` of src/transport_block.rs.
pub mod Encoded
mod Tests
use syndrome.Prelude.{
  ℕ, zero, suc, ◌+◌, ◌-◌, ◌*◌, ◌/◌, ◌%◌, Bool, List, [], ◌∷◌, ◌++◌, drop, length, ltb, ◌==◌, ◌||◌,
  not, replicate, take, Result, ok, err, fail_if, ◌>>=◌, ◌>>◌, invalid_param, buffer_too_small,
  match_result,
}
use syndrome.Crc.{Crc24, crc24_a, crc24_b, attach}
use syndrome.Crc
use syndrome.Segmentation.{SegmentationParams, compute_segmentation, segment}
use syndrome.RateMatching.{RateMatchCache, empty_cache, rate_match_into}
use syndrome.TransportBlock.{LdpcCode, encode_5g, bits_per_cb}

-- The `c` clones of one LDPC encoder are given by `params.bg` and `params.z`.
pub record DlSchEncoder : Type 0 where
  pub params : SegmentationParams
  pub tb_crc : Crc24
  pub qm : ℕ
  pub e_per_cb : ℕ
  pub tb_size : ℕ
  pub rm_cache : RateMatchCache

module _ {F Rate : Type 0} (ldpc : LdpcCode F) (le_067 le_025 : Rate → Bool) where
  -- `DlSchEncoder::new`
  pub new_encoder : ℕ → Rate → ℕ → ℕ → Result DlSchEncoder
  new_encoder tb_size target_rate qm g = do
    fail_if (tb_size == 0) (invalid_param "tb_size must be > 0")
    fail_if (qm == 0) (invalid_param "qm must be >= 1")
    fail_if (g == 0 || not (g % qm == 0)) (invalid_param "G must be > 0 and divisible by Qm")
    params ← compute_segmentation le_067 le_025 tb_size target_rate
    ldpc.params_new params.bg params.z
    ok (record {
      params = params;
      tb_crc = Crc.new crc24_a;
      qm = qm;
      e_per_cb = bits_per_cb g params.c qm;
      tb_size = tb_size;
      rm_cache = empty_cache;
    })

pub output_bits : DlSchEncoder → ℕ
output_bits enc = enc.e_per_cb * enc.params.c

-- `out[start..start + xs.len()].copy_from_slice(xs)`
pub write_at : List ℕ → ℕ → List ℕ → List ℕ
write_at out start xs = take start out ++ xs ++ drop (start + length xs) out

module _ {F : Type 0} (ldpc : LdpcCode F) where
  -- The loop over the code blocks from `ci` on: the cache afterwards, and the output or an error.
  pub encode_blocks :
      DlSchEncoder
      → ℕ
      → List (List ℕ)
      → ℕ
      → RateMatchCache
      → List ℕ
      → List ℕ
      → RateMatchCache × Result (List ℕ)
  encode_blocks enc rv [] ci cache e_buf out = (cache, ok out)
  encode_blocks enc rv (cb ∷ cbs) ci cache e_buf out =
      match_result (encode_5g ldpc enc.params.bg enc.params.z cb enc.params.n_filler)
        (λ codeword.
          let (cache', matched) =
            rate_match_into cache codeword e_buf rv enc.qm enc.params.bg enc.params.z
              enc.params.n_filler in
          match_result matched
            (λ e_buf'.
              encode_blocks enc rv cbs (ci + 1) cache' e_buf'
                (write_at out (ci * enc.e_per_cb) e_buf'))
            (λ e. (cache', err e)))
        (λ e. (cache, err e))

  -- `DlSchEncoder::encode`: the cache afterwards, and the written output or an error.
  pub encode : DlSchEncoder → List ℕ → ℕ → List ℕ → RateMatchCache × Result (List ℕ)
  encode enc tb rv out =
      match_result
        (do
          fail_if (not (length tb == enc.tb_size)) (buffer_too_small enc.tb_size (length tb))
          fail_if (ltb (length out) (output_bits enc))
              (buffer_too_small (output_bits enc) (length out))
          segment (attach enc.tb_crc tb) enc.params)
        (λ cb_blocks. encode_blocks enc rv cb_blocks 0 enc.rm_cache (replicate enc.e_per_cb 0) out)
        (λ e. (enc.rm_cache, err e))
