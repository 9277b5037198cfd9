-- ===== src/TransportBlock/Decoder/Report.antt =====
-- What the report of `DlSchDecoder::decode` says.
use syndrome.Prelude.{
  ℕ, ◌+◌, ◌*◌, ◌≤◌, min, Bool, true, false, List, [], ◌++◌, map, drop, length, length-take,
  length-drop, take_add, ltb, ◌==◌, ◌&&◌, take, if◌then◌else◌, Result, ok, ◌↔◌, ◌≡◌, refl, sym, ap,
  ap₂, ◌∙◌, arith, dec_le,
}
use syndrome.Crc.{crc24_a, crc24_b, new, compute, pack_bits, check}
use syndrome.Crc.Codeword.{check_append}
use syndrome.Segmentation.Params.{IsSegmentation}
use syndrome.Harq.{HarqBuffer, flush}
use syndrome.TransportBlock.{LdpcCode}
use syndrome.TransportBlock.Decoder.{
  DlSchDecoder, DecodeReport, Progress, all_passed, tx_count_of, decode_sequential_cbs, tb_crc_ok,
  conclude, decode,
}

-- What `DlSchDecoder::new` sets up.
pub record IsReady {F : Type 0} (dec : DlSchDecoder F) : Type 0 where
  pub tb_engine : dec.tb_crc ≡ new crc24_a
  pub cb_engine : dec.cb_crc ≡ new crc24_b
  pub segmented : IsSegmentation dec.tb_size dec.params

-- The transport block's check accepts what begins with an accepted string.
pub tb_crc_ok_iff :
    {F : Type 0} (dec : DlSchDecoder F) (info : List ℕ)
    → dec.tb_crc ≡ new crc24_a
    → (tb_crc_ok dec info ≡ true) ↔ (
        (dec.tb_size + 24 ≤ length info)
        × (check (new crc24_a) (take (dec.tb_size + 24) info) ≡ true))
unfolding tb_crc_ok
tb_crc_ok_iff dec info engine = elim (dec_le (dec.tb_size + 24) (length info)) [
  | yes fits ↦
      let same : check (new crc24_a) (take (dec.tb_size + 24) info) ≡ (
          compute dec.tb_crc (take (min dec.tb_size (length info)) info)
          == pack_bits (take 24 (drop dec.tb_size info))) =
        ap (check (new crc24_a)) (take_add dec.tb_size 24 info)
        ∙ check_append crc24_a (take dec.tb_size info) (take 24 (drop dec.tb_size info)) (
            omega
              (arith, length-take 24 (drop dec.tb_size info), length-drop dec.tb_size info, fits))
        ∙ ap₂
            (λ engine' (n : ℕ).
              compute engine' (take n info) == pack_bits (take 24 (drop dec.tb_size info)))
            {u = dec.tb_size} {v = min dec.tb_size (length info)} (sym engine)
            (omega (arith, fits)) in
      (λ h. (fits, ground (arith, same)), λ h. ground (arith, same, h.1))
  | no short ↦ (λ h. absurd (ground arith), λ h. absurd (short h.0))
]

module _ {F : Type 0} (◌+F◌ : F → F → F) (zero_f llr_filler : F) (ldpc : LdpcCode F)
    (dec : DlSchDecoder F) (rx_llr : List F) (rv : ℕ) where
  -- The loop's outcome on the decoder's own buffers.
  abbrev pub loop_outcome : List (HarqBuffer F) × Result Progress
  loop_outcome =
      decode_sequential_cbs ◌+F◌ zero_f llr_filler ldpc dec rx_llr rv dec.harq_bufs 0
        (record { all_info = []; cb_crc_results = []; max_iters = 0 })

  -- What `decode` makes of a loop that ended.
  conclude_lem :
      (harq_tx : ℕ) (harqs : List (HarqBuffer F)) (done : Progress) (tb_out : List ℕ)
      → dec.tb_crc ≡ new crc24_a
      → let (harqs', out, report) =
          conclude ◌+F◌ zero_f llr_filler ldpc dec harq_tx harqs done tb_out in
        ((report.crc_ok ≡ true) ↔ (
          (all_passed done.cb_crc_results ≡ true)
          × (dec.tb_size + 24 ≤ length done.all_info)
          × (check (new crc24_a) (take (dec.tb_size + 24) done.all_info) ≡ true)))
        × (report.crc_ok ≡ true
            → (out ≡ take dec.tb_size done.all_info ++ drop dec.tb_size tb_out)
              × (harqs' ≡ map (flush ◌+F◌ zero_f) harqs))
        × (report.crc_ok ≡ false → (out ≡ tb_out) × (harqs' ≡ harqs))
  unfolding conclude
  conclude_lem harq_tx harqs done tb_out engine =
      go (all_passed done.cb_crc_results) (tb_crc_ok dec done.all_info)
        (tb_crc_ok_iff dec done.all_info engine)
    where
      copied : List ℕ
      copied =
          take (min dec.tb_size (length done.all_info)) done.all_info
          ++ drop (min dec.tb_size (length done.all_info)) tb_out

      copied_lem :
          dec.tb_size + 24 ≤ length done.all_info
          → copied ≡ take dec.tb_size done.all_info ++ drop dec.tb_size tb_out
      copied_lem fits =
          ap (λ (n : ℕ). take n done.all_info ++ drop n tb_out)
            {x = min dec.tb_size (length done.all_info)} {y = dec.tb_size} (omega (arith, fits))

      go :
          (a t : Bool)
          → ((t ≡ true) ↔ (
              (dec.tb_size + 24 ≤ length done.all_info)
              × (check (new crc24_a) (take (dec.tb_size + 24) done.all_info) ≡ true)))
          → (((t && a) ≡ true) ↔ (
              (a ≡ true)
              × (dec.tb_size + 24 ≤ length done.all_info)
              × (check (new crc24_a) (take (dec.tb_size + 24) done.all_info) ≡ true)))
            × ((t && a) ≡ true
                → ((if a && t then copied else tb_out)
                    ≡ take dec.tb_size done.all_info ++ drop dec.tb_size tb_out)
                  × ((if a && t then map (flush ◌+F◌ zero_f) harqs else harqs)
                      ≡ map (flush ◌+F◌ zero_f) harqs))
            × ((t && a) ≡ false
                → ((if a && t then copied else tb_out) ≡ tb_out)
                  × ((if a && t then map (flush ◌+F◌ zero_f) harqs else harqs) ≡ harqs))
      go true true i = (
        (λ h. (refl, (i.0 refl).0, (i.0 refl).1), λ h. refl),
        λ h. (copied_lem (i.0 refl).0, refl),
        λ h. cc,
      )
      go true false i = ((λ h. cc, λ h. i.1 (h.1, h.2)), λ h. cc, λ h. (refl, refl))
      go false true i = ((λ h. cc, λ h. h.0), λ h. cc, λ h. (refl, refl))
      go false false i = ((λ h. cc, λ h. h.0), λ h. cc, λ h. (refl, refl))

  -- How `decode` goes on from a loop that ended.
  from_done :
      (tb_out : List ℕ) (done : Progress)
      → loop_outcome.1 ≡ ok done
      → dec.e_per_cb * dec.params.c ≤ length rx_llr
      → dec.tb_size ≤ length tb_out
      → let (harqs, out, report) =
          conclude ◌+F◌ zero_f llr_filler ldpc dec
            (tx_count_of dec.harq_bufs + 1)
            loop_outcome.0
            done
            tb_out in
        decode ◌+F◌ zero_f llr_filler ldpc dec rx_llr rv tb_out ≡ (harqs, ok (out, report))
  unfolding decode
  from_done tb_out done e enough room =
      let long : ltb (length rx_llr) (dec.e_per_cb * dec.params.c) ≡ false = ground arith in
      let wide : ltb (length tb_out) dec.tb_size ≡ false = ground arith in rw (long, wide, e)

  -- On a ready decoder with enough LLRs and room for the output, when the loop over the blocks
  -- ends without an error, `decode` reports success exactly when every block passed, the payloads
  -- reach past the transport block's CRC and that CRC checks: a block that failed makes it report
  -- a failure even if the transport block's own CRC checks. On success the transport block is
  -- written and the accumulators are flushed, otherwise output and accumulators stay as the loop
  -- left them.
  pub decode_sound :
      (tb_out : List ℕ) (done : Progress)
      → IsReady dec
      → loop_outcome.1 ≡ ok done
      → dec.e_per_cb * dec.params.c ≤ length rx_llr
      → dec.tb_size ≤ length tb_out
      → (out : List ℕ) × (report : DecodeReport) × ((decode ◌+F◌ zero_f llr_filler ldpc dec rx_llr
            rv tb_out).1
          ≡ ok (out, report))
        × ((report.crc_ok ≡ true) ↔ (
            (all_passed done.cb_crc_results ≡ true)
            × (dec.tb_size + 24 ≤ length done.all_info)
            × (check (new crc24_a) (take (dec.tb_size + 24) done.all_info) ≡ true)))
        × (report.crc_ok ≡ true
            → (out ≡ take dec.tb_size done.all_info ++ drop dec.tb_size tb_out)
              × ((decode ◌+F◌ zero_f llr_filler ldpc dec rx_llr rv tb_out).0
                  ≡ map (flush ◌+F◌ zero_f) loop_outcome.0))
        × (report.crc_ok ≡ false
            → (out ≡ tb_out)
              × ((decode ◌+F◌ zero_f llr_filler ldpc dec rx_llr rv tb_out).0 ≡ loop_outcome.0))
  decode_sound tb_out done ready e enough room =
      let facts =
        conclude_lem (tx_count_of dec.harq_bufs + 1) loop_outcome.0 done tb_out ready.tb_engine in
      let run = from_done tb_out done e enough room in
      (
        _,
        _,
        ap (λ o. o.1) run,
        facts.0,
        λ good. ((facts.1 good).0, ap (λ o. o.0) run ∙ (facts.1 good).1),
        λ bad. ((facts.2 bad).0, ap (λ o. o.0) run ∙ (facts.2 bad).1),
      )
