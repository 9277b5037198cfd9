-- ===== src/TransportBlock/Decoder/Prepare.antt =====
-- `prepare_cb_llr` of src/transport_block.rs succeeds on the buffers that the chain keeps.
use syndrome.Prelude.{
  ℕ, ◌-◌, ◌*◌, true, List, ◌++◌, drop, length, length-append, length-replicate, ◌==◌, replicate,
  take, ok, ◌≡◌, refl, subst, ap, ◌∙◌, arith,
}
use syndrome.Segmentation.{SegmentationParams, systematic_columns, coded_columns}
use syndrome.RateMatching.{check_args}
use syndrome.RateMatching.Dematch.{length-accumulate}
use syndrome.Harq.{HarqBuffer, combine}
use syndrome.Harq.Combine.{IsValid, Combined, combine_lem}
use syndrome.TransportBlock.{LdpcCode, variable_node_count, init_5g_llr}
use syndrome.TransportBlock.Decoder.{prepare_cb_llr}

module _ {F : Type 0} (◌+F◌ : F → F → F) (zero_f llr_filler : F) (ldpc : LdpcCode F) where
  pub prepare_cb_llr_total :
      (harq : HarqBuffer F) (e_llr : List F) (rv qm : ℕ) (p : SegmentationParams)
      → IsValid ◌+F◌ zero_f harq
      → coded_columns harq.bg * harq.z ≡ coded_columns p.bg * p.z
      → check_args rv qm harq.z (length e_llr) ≡ ok tt
      → (llr : List F) × ((prepare_cb_llr ◌+F◌ zero_f llr_filler ldpc harq e_llr rv qm p).1
          ≡ ok llr)
  unfolding prepare_cb_llr init_5g_llr
  prepare_cb_llr_total harq e_llr rv qm p valid same args =
      let (after, done) = combine_lem ◌+F◌ zero_f harq e_llr rv qm 0 valid in
      let (passed, _, acc) =
        subst
          (λ r. Combined ◌+F◌ zero_f harq e_llr rv qm 0 r (combine ◌+F◌ zero_f harq e_llr rv qm 0))
          args done in
      let acc' : length (combine ◌+F◌ zero_f harq e_llr rv qm 0).0.acc
          ≡ coded_columns harq.bg * harq.z =
        ap length acc ∙ length-accumulate ◌+F◌ harq.acc e_llr _ ∙ valid.sized in
      let sized : length
            (replicate (2 * p.z) zero_f ++ (combine ◌+F◌ zero_f harq e_llr rv qm 0).0.acc)
          ≡ variable_node_count p.bg p.z =
        length-append (replicate (2 * p.z) zero_f) _
        ∙ omega (arith, length-replicate (2 * p.z) zero_f, acc', same) in
      let fits : (length
              (replicate (2 * p.z) zero_f ++ (combine ◌+F◌ zero_f harq e_llr rv qm 0).0.acc)
            == variable_node_count p.bg p.z)
          ≡ true =
        ground (arith, sized) in
      let llr = replicate (2 * p.z) zero_f ++ (combine ◌+F◌ zero_f harq e_llr rv qm 0).0.acc in
      let k = systematic_columns p.bg * p.z in
      (
        replicate (2 * p.z) zero_f
            ++ drop (2 * p.z) (
                take (k - p.n_filler) llr
                ++ replicate (k - (k - p.n_filler)) llr_filler
                ++ drop k llr),
        rw (passed, fits) refl,
      )
