-- ===== src/Harq/Tests.antt =====
-- src/harq.rs on small buffers, with natural numbers for the LLRs.
use syndrome.Prelude.{ℕ, ◌+◌, List, [], ◌∷◌, length, ◌≡◌}
use syndrome.Segmentation.{bg2}
use syndrome.RateMatching.{check_args}
use syndrome.Harq.{HarqBuffer, with_filler, combine, flush}
use syndrome.Harq.Combine.{IsValid, with_filler-IsValid, Combined, combine_lem, flush_lem}

abbrev buffer : HarqBuffer ℕ
buffer = with_filler ◌+◌ 0 bg2 2 3

abbrev llrs : List ℕ
llrs = 4 ∷ 1 ∷ 3 ∷ 2 ∷ []

combine_lem_example :
    let outcome = combine ◌+◌ 0 buffer llrs 1 2 0 in
    IsValid ◌+◌ 0 outcome.0
    × Combined ◌+◌ 0 buffer llrs 1 2 0 (check_args 1 2 buffer.z (length llrs)) outcome
combine_lem_example = combine_lem ◌+◌ 0 buffer llrs 1 2 0 (with_filler-IsValid ◌+◌ 0 bg2 2 3)

flush_lem_example :
    let flushed = flush ◌+◌ 0 buffer in
    IsValid ◌+◌ 0 flushed
    × (flushed.tx_count ≡ 0)
    × (flushed.acc ≡ (with_filler ◌+◌ 0 buffer.bg buffer.z buffer.n_filler).acc)
flush_lem_example = flush_lem ◌+◌ 0 buffer (with_filler-IsValid ◌+◌ 0 bg2 2 3)
