-- ===== src/TransportBlock/Decoder/Recover.antt =====
-- When the chain recovers the transport block, and what a report says.
use syndrome.Prelude.{
  ℕ, zero, suc, ◌+◌, ◌*◌, ◌≤◌, Bool, true, false, List, [], ◌∷◌, ◌++◌, map, drop, length,
  length-take, take_short, append_assoc, append-nil, ◌&&◌, ◌||◌, not, take, All, concat, Result,
  ok-injective, ok, err, ◌>>=◌, match_result, Bool-cases, inl, inr, ◌≡◌, refl, sym, subst, ap, ap₂,
  ◌∙◌, arith,
}
use syndrome.Crc.{crc24_a, crc24_b, new, check, attach}
use syndrome.Crc.Codeword.{check-attach, take-attach, length-attach}
use syndrome.Segmentation.{payload_per_cb, segment}
use syndrome.Segmentation.Segment.{Sound, segment_lem, payload_per_cb_lem}
use syndrome.Harq.{HarqBuffer}
use syndrome.TransportBlock.{LdpcCode}
use syndrome.TransportBlock.Decoder.Report.{IsReady, decode_sound}
use syndrome.TransportBlock.Decoder.{
  DlSchDecoder, DecodeReport, Progress, payload_bits, all_passed, prepare_cb_llr, record_block,
  decode_sequential_cbs, decode,
}

all_passed-append : (xs ys : List Bool) → all_passed (xs ++ ys) ≡ (all_passed xs && all_passed ys)
unfolding all_passed
all_passed-append [] ys = refl
all_passed-append (true ∷ xs) ys = all_passed-append xs ys
all_passed-append (false ∷ xs) ys = refl

take-take : (m k : ℕ) (xs : List ℕ) → take m xs ≡ take m (take (m + k) xs)
take-take zero k xs = refl
take-take (suc m) k [] =
    ap (λ (n : ℕ). take (suc m) (take {A = ℕ} n [])) {x = suc (m + k)} {y = suc m + k} (omega arith)
take-take (suc m) k (x ∷ xs) =
    ap (◌∷◌ x) (take-take m k xs)
    ∙ ap (λ (n : ℕ). take (suc m) (take n (x ∷ xs))) {x = suc (m + k)} {y = suc m + k} (omega arith)

and_true : (b : Bool) → (b && true) ≡ b
and_true true = refl
and_true false = refl

module _ {F : Type 0} (◌+F◌ : F → F → F) (zero_f llr_filler : F) (ldpc : LdpcCode F)
    (dec : DlSchDecoder F) (rx_llr : List F) (rv : ℕ) where
  -- The LDPC decoder's result on one block.
  abbrev decoded_block : HarqBuffer F → ℕ → Result (List ℕ × ℕ)
  decoded_block harq ci =
      (prepare_cb_llr ◌+F◌ zero_f llr_filler ldpc harq
        (take dec.e_per_cb (drop (ci * dec.e_per_cb) rx_llr)) rv dec.qm dec.params).1
      >>= λ llr_cb.
          ldpc.decode_layered_offset_min_sum dec.params.bg dec.params.z llr_cb dec.iterations

  -- The LDPC decoder finds each of the blocks.
  abbrev pub Corrects : List (HarqBuffer F) → ℕ → List (List ℕ) → Type 0
  Corrects [] ci [] = Unit
  Corrects [] ci (block ∷ blocks) = ⊥
  Corrects (harq ∷ harqs) ci [] = ⊥
  Corrects (harq ∷ harqs) ci (block ∷ blocks) =
      ((found : List ℕ × ℕ) × (decoded_block harq ci ≡ ok found)
        × (take dec.params.k_prime found.0 ≡ block))
      × Corrects harqs (ci + 1) blocks

  -- What the loop makes of a sound block.
  abbrev payloads : List (List ℕ) → List ℕ
  payloads blocks = concat (map (take (payload_per_cb dec.params)) blocks)

  passes :
      (block : List ℕ)
      → dec.cb_crc ≡ new crc24_b
      → Sound [] dec.params block
      → (not dec.params.has_cb_crc || check dec.cb_crc block) ≡ true
  passes block engine sound = elim (Bool-cases dec.params.has_cb_crc) [
    | inl split ↦ ap₂ (λ b engine'. not b || check engine' block) split engine ∙ sound.1 split
    | inr whole ↦ ap (λ b. not b || check dec.cb_crc block) whole
  ]

  -- How the loop goes on from the LDPC decoder's result.
  abbrev from_found :
      HarqBuffer F
      → List (HarqBuffer F)
      → ℕ
      → Progress
      → Result (List ℕ × ℕ)
      → List (HarqBuffer F) × Result Progress
  from_found harq' harqs ci done r =
      match_result r
        (λ decoded.
          let (harqs', result) =
            decode_sequential_cbs ◌+F◌ zero_f llr_filler ldpc dec rx_llr rv harqs (ci + 1)
              (record_block dec decoded.0 decoded.1 done) in
          (harq' ∷ harqs', result))
        (λ e. (harq' ∷ harqs, err e))

  -- The loop over blocks that the LDPC decoder finds writes their payloads, all accepted.
  pub loop-Corrects :
      (harqs : List (HarqBuffer F)) (ci : ℕ) (blocks : List (List ℕ)) (done : Progress)
      → dec.cb_crc ≡ new crc24_b
      → Corrects harqs ci blocks
      → All (Sound [] dec.params) blocks
      → (done' : Progress) × ((decode_sequential_cbs ◌+F◌ zero_f llr_filler ldpc dec rx_llr rv harqs
            ci done).1
          ≡ ok done')
        × (done'.all_info ≡ done.all_info ++ payloads blocks)
        × (all_passed done'.cb_crc_results ≡ all_passed done.cb_crc_results)
  unfolding decode_sequential_cbs record_block payload_bits all_passed
  loop-Corrects [] ci [] done engine c s = (done, refl, sym (append-nil done.all_info), refl)
  loop-Corrects [] ci (block ∷ blocks) done engine c s = absurd c
  loop-Corrects (harq ∷ harqs) ci [] done engine c s = absurd c
  loop-Corrects (harq ∷ harqs) ci (block ∷ blocks) done engine ((found, e, head), c) s =
      let (done', run, info, crcs) =
        loop-Corrects harqs (ci + 1) blocks (record_block dec found.0 found.1 done) engine c s.1 in
      (
        done',
        ap
              (λ r.
                (from_found
                  (prepare_cb_llr ◌+F◌ zero_f llr_filler ldpc harq
                    (take dec.e_per_cb (drop (ci * dec.e_per_cb) rx_llr)) rv dec.qm dec.params).0
                  harqs ci done r).1)
              e
            ∙ run,
        info
            ∙ ap₂ (λ (n : ℕ) (l : List ℕ). done.all_info ++ take n l ++ payloads blocks)
                (sym (payload_per_cb_lem dec.params)) head
            ∙ append_assoc done.all_info (take (payload_per_cb dec.params) block) (payloads blocks),
        crcs
            ∙ all_passed-append done.cb_crc_results _
            ∙ ap (λ b. all_passed done.cb_crc_results && (b && true))
                (ap (λ l. not dec.params.has_cb_crc || check dec.cb_crc l) head
                  ∙ passes block engine s.0)
            ∙ and_true (all_passed done.cb_crc_results),
      )

  -- On a ready decoder with enough LLRs and room for the output, if the LDPC decoder finds in
  -- order each block that segmenting a transport block with its CRC makes, `decode` writes that
  -- transport block and reports its CRC as passed.
  pub decode-segment :
      (tb tb_out : List ℕ) (blocks : List (List ℕ))
      → IsReady dec
      → length tb ≡ dec.tb_size
      → segment (attach (new crc24_a) tb) dec.params ≡ ok blocks
      → Corrects dec.harq_bufs 0 blocks
      → dec.e_per_cb * dec.params.c ≤ length rx_llr
      → dec.tb_size ≤ length tb_out
      → (report : DecodeReport) × ((decode ◌+F◌ zero_f llr_filler ldpc dec rx_llr rv tb_out).1
          ≡ ok (tb ++ drop dec.tb_size tb_out, report))
        × (report.crc_ok ≡ true)
  unfolding all_passed
  decode-segment tb tb_out blocks ready size cut found enough room =
      let (made, cut', count, sound, joined) =
        segment_lem (attach (new crc24_a) tb) dec.params dec.tb_size ready.segmented
          (omega (arith, ready.segmented.with_crc, length-attach crc24_a tb, size)) in
      let (done, run, info, crcs) =
        loop-Corrects dec.harq_bufs 0 blocks
          (record { all_info = []; cb_crc_results = []; max_iters = 0 }) ready.cb_engine found
          (subst (All (Sound [] dec.params)) (ok-injective made blocks (sym cut' ∙ cut)) sound) in
      let (out, report, same, passed, good, bad) =
        decode_sound ◌+F◌ zero_f llr_filler ldpc dec rx_llr rv tb_out done ready run enough room in
      let whole : take (dec.tb_size + 24) done.all_info ≡ attach (new crc24_a) tb =
        ap₂ take {u = done.all_info} {v = payloads made} (sym ready.segmented.with_crc)
          (info ∙ ap payloads (ok-injective blocks made (sym cut ∙ cut')))
        ∙ joined
        ∙ take_short dec.params.b (attach (new crc24_a) tb)
            (omega (arith, ready.segmented.with_crc, length-attach crc24_a tb, size)) in
      let fits : dec.tb_size + 24 ≤ length done.all_info = omega (
        arith,
        ap length whole,
        length-take (dec.tb_size + 24) done.all_info,
        length-attach crc24_a tb,
        size,
      ) in
      let accepted : report.crc_ok ≡ true =
        passed.1 (crcs, fits, ap (check (new crc24_a)) whole ∙ check-attach crc24_a tb) in
      let head : take dec.tb_size done.all_info ≡ tb =
        take-take dec.tb_size 24 done.all_info
        ∙ ap₂ take (sym size) whole
        ∙ take-attach crc24_a tb in
      (
        report,
        same
            ∙ ap (λ l. ok (l, report))
                ((good accepted).0 ∙ ap (λ l. l ++ drop dec.tb_size tb_out) head),
        accepted,
      )
