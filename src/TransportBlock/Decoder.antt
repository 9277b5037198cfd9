-- ===== src/TransportBlock/Decoder.antt =====
-- `DlSchDecoder` of src/transport_block.rs, without its worker pipeline.
pub mod Prepare
pub mod Report
pub mod Recover
mod Tests
use syndrome.Prelude.{
  ℕ, zero, suc, ◌+◌, ◌-◌, ◌*◌, ◌/◌, ◌%◌, max, min, Bool, true, false, List, [], ◌∷◌, ◌++◌, map,
  drop, length, ltb, leb, ◌==◌, ◌||◌, ◌&&◌, not, replicate, take, get_elem?, Option, some, none,
  if◌then◌else◌, Result, ok, err, fail_if, ◌>>=◌, ◌>>◌, invalid_param, buffer_too_small,
  match_result,
}
use syndrome.Crc.{Crc24, crc24_a, crc24_b, compute, pack_bits, check}
use syndrome.Crc
use syndrome.Segmentation.{SegmentationParams, compute_segmentation}
use syndrome.Harq.{HarqBuffer, with_filler, combine, flush}
use syndrome.TransportBlock.{LdpcCode, bits_per_cb, init_5g_llr}

-- The decoders are given by `params`, the scratch buffers are written before they are read.
pub record DlSchDecoder (F : Type 0) : Type 0 where
  pub params : SegmentationParams
  pub tb_crc : Crc24
  pub cb_crc : Crc24
  pub harq_bufs : List (HarqBuffer F)
  pub qm : ℕ
  pub e_per_cb : ℕ
  pub iterations : ℕ
  pub tb_size : ℕ

pub record DecodeReport : Type 0 where
  pub crc_ok : Bool
  pub cb_crc : List Bool
  pub max_iters_used : ℕ
  pub harq_tx_count : ℕ

-- What the loop over the code blocks has written so far; `all_info` holds the payloads in order.
pub record Progress : Type 0 where
  pub all_info : List ℕ
  pub cb_crc_results : List Bool
  pub max_iters : ℕ

-- `payload_bits`
pub payload_bits : ℕ → Bool → ℕ
payload_bits k_prime has_cb_crc = if has_cb_crc then k_prime - 24 else k_prime

-- `crc_ok`
pub all_passed : List Bool → Bool
all_passed [] = true
all_passed (b ∷ results) = b && all_passed results

-- The decoder always has a first buffer, since there is at least one code block.
pub tx_count_of : {F : Type 0} → List (HarqBuffer F) → ℕ
tx_count_of [] = 0
tx_count_of (h ∷ hs) = h.tx_count

-- What a decoded block adds.
pub record_block : {F : Type 0} → DlSchDecoder F → List ℕ → ℕ → Progress → Progress
record_block dec hard cb_iters done =
    let info_bits = take dec.params.k_prime hard in
    record {
      all_info =
          done.all_info ++ take (payload_bits dec.params.k_prime dec.params.has_cb_crc) info_bits;
      cb_crc_results =
          done.cb_crc_results ++ (not dec.params.has_cb_crc || check dec.cb_crc info_bits) ∷ [];
      max_iters = max done.max_iters cb_iters;
    }

-- The check of the transport block's own CRC.
pub tb_crc_ok : {F : Type 0} → DlSchDecoder F → List ℕ → Bool
tb_crc_ok dec all_info =
    let expected_crc = compute dec.tb_crc (take (min dec.tb_size (length all_info)) all_info) in
    let received_crc = pack_bits (take 24 (drop dec.tb_size all_info)) in
    if leb (dec.tb_size + 24) (length all_info) then expected_crc == received_crc else false

module _ {F : Type 0} (◌+F◌ : F → F → F) (zero_f llr_filler : F) (ldpc : LdpcCode F) where
  -- `DlSchDecoder::new`
  pub new_decoder :
      {Rate : Type 0}
      → (Rate → Bool)
      → (Rate → Bool)
      → ℕ
      → Rate
      → ℕ
      → ℕ
      → ℕ
      → Result (DlSchDecoder F)
  new_decoder le_067 le_025 tb_size target_rate qm g iterations = do
    fail_if (tb_size == 0) (invalid_param "tb_size must be > 0")
    fail_if (qm == 0 || g == 0 || not (g % qm == 0))
        (invalid_param "Qm and G must be positive; G % Qm must be 0")
    params ← compute_segmentation le_067 le_025 tb_size target_rate
    ldpc.params_new params.bg params.z
    ok (record {
      params = params;
      tb_crc = Crc.new crc24_a;
      cb_crc = Crc.new crc24_b;
      harq_bufs = replicate params.c (with_filler ◌+F◌ zero_f params.bg params.z params.n_filler);
      qm = qm;
      e_per_cb = bits_per_cb g params.c qm;
      iterations = iterations;
      tb_size = tb_size;
    })

  -- `prepare_cb_llr`: the combined buffer, and the LLRs to decode or an error.
  pub prepare_cb_llr :
      HarqBuffer F → List F → ℕ → ℕ → SegmentationParams → HarqBuffer F × Result (List F)
  prepare_cb_llr harq e_llr rv qm p =
      let (harq', combined) = combine ◌+F◌ zero_f harq e_llr rv qm 0 in
      (
        harq',
        combined >>= λ _.
            init_5g_llr zero_f llr_filler p.bg p.z (replicate (2 * p.z) zero_f ++ harq'.acc)
              p.n_filler,
      )

  -- `decode_sequential_cbs` from block `ci` on, over the buffers that are left.
  pub decode_sequential_cbs :
      DlSchDecoder F
      → List F
      → ℕ
      → List (HarqBuffer F)
      → ℕ
      → Progress
      → List (HarqBuffer F) × Result Progress
  decode_sequential_cbs dec rx_llr rv [] ci done = ([], ok done)
  decode_sequential_cbs dec rx_llr rv (harq ∷ harqs) ci done =
      let e_llr = take dec.e_per_cb (drop (ci * dec.e_per_cb) rx_llr) in
      let (harq', prepared) = prepare_cb_llr harq e_llr rv dec.qm dec.params in
      match_result
        (prepared >>= λ llr_cb.
          ldpc.decode_layered_offset_min_sum dec.params.bg dec.params.z llr_cb dec.iterations)
        (λ decoded.
          let (harqs', result) =
            decode_sequential_cbs dec rx_llr rv harqs (ci + 1)
              (record_block dec decoded.0 decoded.1 done) in
          (harq' ∷ harqs', result))
        (λ e. (harq' ∷ harqs, err e))

  -- The buffers, `tb_out` and the report after the loop.
  pub conclude :
      DlSchDecoder F
      → ℕ
      → List (HarqBuffer F)
      → Progress
      → List ℕ
      → List (HarqBuffer F) × List ℕ × DecodeReport
  conclude dec harq_tx harqs done tb_out =
      let passed = all_passed done.cb_crc_results && tb_crc_ok dec done.all_info in
      let copy_len = min dec.tb_size (length done.all_info) in
      let report : DecodeReport = record {
        crc_ok = tb_crc_ok dec done.all_info && all_passed done.cb_crc_results;
        cb_crc = done.cb_crc_results;
        max_iters_used = done.max_iters;
        harq_tx_count = harq_tx;
      } in
      (
        if passed then map (flush ◌+F◌ zero_f) harqs else harqs,
        if passed then take copy_len done.all_info ++ drop copy_len tb_out else tb_out,
        report,
      )

  -- `DlSchDecoder::decode`: the buffers afterwards, and the written output with the report or an
  -- error.
  pub decode :
      DlSchDecoder F → List F → ℕ → List ℕ → List (HarqBuffer F) × Result (List ℕ × DecodeReport)
  decode dec rx_llr rv tb_out =
      let total_e = dec.e_per_cb * dec.params.c in
      let harq_tx = tx_count_of dec.harq_bufs + 1 in
      let start : Progress = record { all_info = []; cb_crc_results = []; max_iters = 0 } in
      let (harqs', result) = decode_sequential_cbs dec rx_llr rv dec.harq_bufs 0 start in
      match_result
        (do
          fail_if (ltb (length rx_llr) total_e) (buffer_too_small total_e (length rx_llr))
          fail_if (ltb (length tb_out) dec.tb_size) (buffer_too_small dec.tb_size (length tb_out)))
        (λ _.
          match_result result
            (λ done.
              let (harqs'', out, report) = conclude dec harq_tx harqs' done tb_out in
              (harqs'', ok (out, report)))
            (λ e. (harqs', err e)))
        (λ e. (dec.harq_bufs, err e))

  -- `DlSchDecoder::flush_harq`
  pub flush_harq : DlSchDecoder F → List (HarqBuffer F)
  flush_harq dec = map (flush ◌+F◌ zero_f) dec.harq_bufs
