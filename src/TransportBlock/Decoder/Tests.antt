-- ===== src/TransportBlock/Decoder/Tests.antt =====
-- `DlSchDecoder` of src/transport_block.rs on a transport block of three bits, with natural numbers
-- for the LLRs.
use syndrome.Prelude.{
  ℕ, ◌+◌, ◌*◌, ◌≤◌, ◌<◌, Bool, true, false, List, [], ◌∷◌, All, ◌++◌, map, length, length-replicate,
  take, drop, replicate, take_short, Bool-cases, inl, inr, ok, ◌>>=◌, ◌-◌, if◌then◌else◌, ◌↔◌, ◌≡◌,
  refl, subst, ap, ◌∙◌, arith,
}
use syndrome.Crc.{check, crc24_a, crc24_b, new, attach}
use syndrome.Crc.Codeword.{length-attach, check-attach}
use syndrome.Segmentation.{
  BaseGraph, bg1, bg2, max_block, coded_columns, payload_per_cb, SegmentationParams,
  compute_segmentation, select_base_graph, segment,
}
use syndrome.Segmentation.Params.{IsSegmentation, compute_segmentation_total}
use syndrome.Segmentation.Segment.{Sound, payload_per_cb_lem, segment_lem}
use syndrome.RateMatching.{empty_cache}
use syndrome.RateMatching.Cached.{empty_cache-IsFresh}
use syndrome.RateMatching.Memo.{check_args_lem}
use syndrome.Harq.{HarqBuffer, flush}
use syndrome.TransportBlock.{LdpcCode}
use syndrome.TransportBlock.Decoder.{
  DlSchDecoder, DecodeReport, Progress, all_passed, prepare_cb_llr, tb_crc_ok, conclude, decode,
}
use syndrome.TransportBlock.Decoder.Prepare.{prepare_cb_llr_total}
use syndrome.TransportBlock.Decoder.Report.{IsReady, tb_crc_ok_iff, loop_outcome, decode_sound}
use syndrome.TransportBlock.Decoder.Recover.{Corrects, loop-Corrects, decode-segment}

abbrev any_rate : ℕ → Bool
any_rate r = true

abbrev one_bit : ℕ
one_bit = 1

abbrev tb : List ℕ
tb = replicate 3 one_bit

segmented :
    (p : SegmentationParams) × (compute_segmentation any_rate any_rate 3 one_bit ≡ ok p)
    × (p.bg ≡ select_base_graph any_rate any_rate 3 one_bit)
    × IsSegmentation 3 p
segmented = compute_segmentation_total any_rate any_rate 3 one_bit (omega arith) (omega arith)

abbrev params : SegmentationParams
params = segmented.0

two_kinds : (bg : BaseGraph) → 3840 ≤ max_block bg
two_kinds bg1 = omega arith
two_kinds bg2 = omega arith

whole : params.has_cb_crc ≡ false
whole = elim (Bool-cases params.has_cb_crc) [
  | inl split ↦
      absurd
        (omega (arith, segmented.3.large_if_split split, segmented.3.with_crc, two_kinds params.bg))
  | inr single ↦ single
]

one_block : params.c ≡ 1
one_block = segmented.3.crc_iff_split.1 whole

cut :
    (blocks : List (List ℕ)) × (segment (attach (new crc24_a) tb) params ≡ ok blocks)
    × (length blocks ≡ params.c)
    × All (Sound (attach (new crc24_a) tb) params) blocks
cut =
    let (blocks, made, count, sound, joined) =
      segment_lem (attach (new crc24_a) tb) params 3 segmented.3
        (omega (arith, segmented.3.with_crc, length-attach crc24_a tb)) in
    (blocks, made, count, sound)

only : (blocks : List (List ℕ)) → length blocks ≡ 1 → (block : List ℕ) × (blocks ≡ block ∷ [])
only [] h = cc
only (block ∷ []) h = (block, refl)
only (block ∷ next ∷ blocks) h = absurd (omega (arith, h))

block : (b : List ℕ) × (cut.0 ≡ b ∷ [])
block = only cut.0 (cut.2 ∙ one_block)

-- An LDPC code whose decoder knows the block that was sent.
abbrev told : LdpcCode ℕ
told = record {
  params_new = λ bg z. ok tt;
  encode = λ bg z bits. ok bits;
  decode_layered_offset_min_sum = λ bg z llr iterations. ok (block.0, 1);
}

abbrev harq : HarqBuffer ℕ
harq = record {
  bg = params.bg;
  z = params.z;
  n_filler = params.n_filler;
  acc = replicate (coded_columns params.bg * params.z) 0;
  tx_count = 0;
  rm_cache = empty_cache;
}

abbrev decoder : DlSchDecoder ℕ
decoder = record {
  params = params;
  tb_crc = new crc24_a;
  cb_crc = new crc24_b;
  harq_bufs = harq ∷ [];
  qm = 2;
  e_per_cb = 6;
  iterations = 5;
  tb_size = 3;
}

ready : IsReady decoder
ready = record { tb_engine = refl; cb_engine = refl; segmented = segmented.3 }

abbrev received : List ℕ
received = 4 ∷ 1 ∷ 3 ∷ 2 ∷ 0 ∷ 6 ∷ []

size_pos : 0 < params.z
size_pos =
    let payload : payload_per_cb params ≡ params.k_prime =
      payload_per_cb_lem params
      ∙ ap (λ (b : Bool). if b then params.k_prime - 24 else params.k_prime) whole in
    let needed : 27 ≤ params.k_prime = omega (
      arith,
      segmented.3.covers,
      segmented.3.with_crc,
      ap (λ (c : ℕ). c * payload_per_cb params) one_block,
      payload,
    ) in
    grind (arith, needed, segmented.3.filler, segmented.3.systematic)

prepared : (llr : List ℕ) × ((prepare_cb_llr ◌+◌ 0 9 told harq received 0 2 params).1 ≡ ok llr)
prepared =
    prepare_cb_llr_total ◌+◌ 0 9 told harq received 0 2 params
      (record {
        sized = length-replicate (coded_columns params.bg * params.z) 0;
        fresh = empty_cache-IsFresh;
      })
      refl (check_args_lem 0 2 params.z 6 (omega arith) (omega arith) size_pos (omega arith))

block-length : length block.0 ≡ params.k_prime
block-length = (subst (All (Sound (attach (new crc24_a) tb) params)) block.1 cut.3).0.0

found : Corrects ◌+◌ 0 9 told decoder received 0 decoder.harq_bufs 0 (block.0 ∷ [])
found = (
  (
    (block.0, 1),
    ap (λ r. r >>= λ llr. ok (block.0, 1)) prepared.1,
    take_short params.k_prime block.0 (omega (arith, block-length)),
  ),
  tt,
)

decode-segment_example :
    (report : DecodeReport) × ((decode ◌+◌ 0 9 told decoder received 0 (7 ∷ 7 ∷ 7 ∷ 7 ∷ [])).1
      ≡ ok (tb ++ drop 3 (7 ∷ 7 ∷ 7 ∷ 7 ∷ []), report))
    × (report.crc_ok ≡ true)
decode-segment_example =
    decode-segment ◌+◌ 0 9 told decoder received 0 tb (7 ∷ 7 ∷ 7 ∷ 7 ∷ []) (block.0 ∷ []) ready refl
      (cut.1 ∙ ap ok block.1) found (omega (arith, one_block)) (omega arith)

loop_result : (done : Progress) × ((loop_outcome ◌+◌ 0 9 told decoder received 0).1 ≡ ok done)
loop_result =
    let (done, run, _, _) =
      loop-Corrects ◌+◌ 0 9 told decoder received 0 decoder.harq_bufs 0 (block.0 ∷ [])
        (record { all_info = []; cb_crc_results = []; max_iters = 0 }) refl found
        (subst (All (Sound (attach (new crc24_a) tb) params)) block.1 cut.3) in
    (done, run)

decode_sound_example :
    (out : List ℕ) × (report : DecodeReport) × ((decode ◌+◌ 0 9 told decoder received 0
        (7 ∷ 7 ∷ 7 ∷ 7 ∷ [])).1
      ≡ ok (out, report))
    × ((report.crc_ok ≡ true) ↔ (
        (all_passed loop_result.0.cb_crc_results ≡ true)
        × (3 + 24 ≤ length loop_result.0.all_info)
        × (check (new crc24_a) (take (3 + 24) loop_result.0.all_info) ≡ true)))
    × (report.crc_ok ≡ true
        → (out ≡ take 3 loop_result.0.all_info ++ drop 3 (7 ∷ 7 ∷ 7 ∷ 7 ∷ []))
          × ((decode ◌+◌ 0 9 told decoder received 0 (7 ∷ 7 ∷ 7 ∷ 7 ∷ [])).0
              ≡ map (flush ◌+◌ 0) (loop_outcome ◌+◌ 0 9 told decoder received 0).0))
    × (report.crc_ok ≡ false
        → (out ≡ 7 ∷ 7 ∷ 7 ∷ 7 ∷ [])
          × ((decode ◌+◌ 0 9 told decoder received 0 (7 ∷ 7 ∷ 7 ∷ 7 ∷ [])).0
              ≡ (loop_outcome ◌+◌ 0 9 told decoder received 0).0))
decode_sound_example =
    decode_sound ◌+◌ 0 9 told decoder received 0 (7 ∷ 7 ∷ 7 ∷ 7 ∷ []) loop_result.0 ready
      loop_result.1 (omega (arith, one_block)) (omega arith)

-- A loop whose second block failed its CRC, with payloads that pass the transport block's.
abbrev one_failed : Progress
one_failed = record {
  all_info = attach (new crc24_a) tb;
  cb_crc_results = true ∷ false ∷ [];
  max_iters = 1;
}

-- The transport block's CRC passes, and the report is a failure all the same.
failed_block_reported :
    let (harqs, out, report) =
      conclude ◌+◌ 0 9 told decoder 1 decoder.harq_bufs one_failed (7 ∷ 7 ∷ 7 ∷ []) in
    (tb_crc_ok decoder one_failed.all_info ≡ true)
    × (report.crc_ok ≡ false)
    × (out ≡ 7 ∷ 7 ∷ 7 ∷ [])
    × (harqs ≡ decoder.harq_bufs)
unfolding conclude all_passed
failed_block_reported =
    let fits : 3 + 24 ≤ length one_failed.all_info = omega (arith, length-attach crc24_a tb) in
    let whole : take (3 + 24) one_failed.all_info ≡ one_failed.all_info =
      take_short (3 + 24) one_failed.all_info (omega (arith, length-attach crc24_a tb)) in
    let accepted : tb_crc_ok decoder one_failed.all_info ≡ true =
      (tb_crc_ok_iff decoder one_failed.all_info refl).1
        (fits, ap (check (new crc24_a)) whole ∙ check-attach crc24_a tb) in
    (accepted, rw accepted, refl, refl)
