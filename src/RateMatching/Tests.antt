-- ===== src/RateMatching/Tests.antt =====
-- src/rate_matching.rs on concrete windows.
use syndrome.Prelude.{
  ℕ, ◌+◌, ◌≤◌, List, [], ◌∷◌, ◌++◌, All, map, drop, replicate, tabulate, length, some, ok, ◌≡◌,
  refl, arith,
}
use syndrome.Segmentation.{bg1, bg2}
use syndrome.RateMatching.{
  window, position, walk, walk_fuel, selected, codeword_bit, check_args, interleave, accumulate,
  rate_dematch_llr, rate_match, RateMatchKey, empty_cache, ensure, gather_table, rate_match_into,
}
use syndrome.RateMatching.Walk.{window-IsProper, walk_total, IsFree, selected-IsFree}
use syndrome.RateMatching.Cached.{IsFresh, empty_cache-IsFresh, ensure_lem}
use syndrome.RateMatching.Memo.{rate_match_into-rate_match, no_filler-full}
use syndrome.RateMatching.Inverse.{rate_dematch_llr-rate_match}
use syndrome.RateMatching.Stale.{rate_match-one_bit}

-- The first bits of a codeword for the second base graph and lifting size 2.
abbrev codeword : List ℕ
codeword = 1 ∷ 0 ∷ 1 ∷ 1 ∷ 0 ∷ 0 ∷ 1 ∷ 0 ∷ 1 ∷ 1 ∷ []

abbrev buffer : List ℕ
buffer = 7 ∷ 7 ∷ 7 ∷ 7 ∷ 7 ∷ 7 ∷ []

walk_total_example :
    walk (window bg2 2 3 4) (walk_fuel (window bg2 2 3 4)) 150 0
    ≡ some (selected (window bg2 2 3 4) 150)
walk_total_example =
    walk_total (window bg2 2 3 4) 150 (window-IsProper bg2 2 3 4 (omega arith) (omega arith))

selected-IsFree_example :
    All (IsFree (window bg1 3 1 5)) (selected (window bg1 3 1 5) 200)
    × (length (selected (window bg1 3 1 5) 200) ≤ 200)
selected-IsFree_example =
    selected-IsFree (window bg1 3 1 5) 200 (window-IsProper bg1 3 1 5 (omega arith) (omega arith))

abbrev key : RateMatchKey
key = record { bg = bg2; z = 2; rv = 1; qm = 2; n_filler = 0; e_bits = 6 }

ensure_lem_example :
    IsFresh (ensure empty_cache key 4)
    × ((ensure empty_cache key 4).enc_idx ≡ map (λ pos. pos + 4) (gather_table key))
    × ((ensure empty_cache key 4).dec_idx ≡ gather_table key)
ensure_lem_example = ensure_lem empty_cache key empty_cache-IsFresh

rate_match_into-rate_match_example :
    let outcome = rate_match_into empty_cache codeword buffer 1 2 bg2 2 0 in
    IsFresh outcome.0 × (outcome.1 ≡ rate_match codeword buffer 1 2 bg2 2 0)
rate_match_into-rate_match_example =
    rate_match_into-rate_match empty_cache codeword buffer 1 2 bg2 2 0 empty_cache-IsFresh
      (no_filler-full bg2 2 1 6 (omega arith) (omega arith) (omega arith))

-- Two hundred and one positions are taken, and slots past them keep the 7 they held.
rate_match-one_bit_example :
    rate_match codeword (replicate 203 7) 0 1 bg2 2 0
    ≡ ok (
        tabulate 201 (λ j. codeword_bit codeword (position (window bg2 2 0 0) j + 4))
        ++ drop 201 (replicate 203 7))
rate_match-one_bit_example =
    rate_match-one_bit codeword (replicate 203 7) 0 bg2 2 (omega arith) (omega arith)

no_filler-full_example : length (selected (window bg1 2 2 0) 265) ≡ 265
no_filler-full_example = no_filler-full bg1 2 2 265 (omega arith) (omega arith) (omega arith)

abbrev wire : List ℕ
wire =
    let sel = selected (window bg2 2 1 0) 6 in
    interleave (map (λ pos. codeword_bit codeword (pos + 4)) sel ++ drop (length sel) buffer) 2

sent_wire : rate_match codeword buffer 1 2 bg2 2 0 ≡ ok wire
unfolding rate_match check_args
sent_wire = refl

-- The codeword's bits as LLRs 3 and 4, added to a buffer of zeros.
rate_dematch_llr-rate_match_example :
    let sel = selected (window bg2 2 1 0) 6 in
    rate_dematch_llr ◌+◌ 0 (map (λ bit. bit + 3) wire) (replicate 100 0) 1 2 bg2 2 0
    ≡ ok (
        accumulate ◌+◌
          (replicate 100 0)
          (map (λ bit. bit + 3) (map (λ pos. codeword_bit codeword (pos + 4)) sel))
          sel)
rate_dematch_llr-rate_match_example =
    rate_dematch_llr-rate_match ◌+◌ 0 (λ bit. bit + 3) codeword buffer wire (replicate 100 0) 1 2
      bg2 2 0 (no_filler-full bg2 2 1 6 (omega arith) (omega arith) (omega arith)) sent_wire
