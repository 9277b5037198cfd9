-- ===== src/Viterbi/Tests.antt =====
-- src/viterbi.rs on short frames.
use syndrome.Prelude.{
  ℕ, ◌^◌, ◌<◌, err, invalid_param, ◌≤◌, List, [], ◌∷◌, tabulate, tabulate_from, ok, ◌≡◌, refl,
  arith,
}
use syndrome.Word.{count_ones}
use syndrome.Viterbi.{
  ViterbiDecoder, build, per_branch, shift_register, encode, encode_from, decode_hard_scalar,
}
use syndrome.Viterbi.Trellis.{build-IsTrellis}
use syndrome.Viterbi.Paths.{received}
use syndrome.Viterbi.{
  acs_steps, acs_step_hard_scalar, relax_states, relax_state, relax, branch_metric,
  ensure_traceback, traceback_from,
}
use syndrome.Viterbi.RoundTrip.{build-IsTelling, decode_hard_scalar-encode}
use syndrome.Viterbi.{default_generators, encode_tail_biting}
use syndrome.Viterbi.TailBiting.{state_after, encode_tail_biting-closes}
use syndrome.Viterbi.Words.{IsDecoder}
use syndrome.Viterbi.Optimal.{IsNearest, decode_hard_scalar-IsNearest}

-- The code of constraint length 3, with a traceback table that an earlier call left.
abbrev decoder : ViterbiDecoder
decoder = record { constraint_length = 3; trellis = build 3 7 5; traceback = 9 ∷ 9 ∷ 9 ∷ [] }

facts : IsDecoder 2 decoder
facts = record { constraint = refl; trellis_facts = build-IsTrellis 2 7 5 (omega arith) }

-- A frame of two information bits, received with one bit wrong.
abbrev frame : List ℕ
frame = 1 ∷ 1 ∷ 0 ∷ 0 ∷ 0 ∷ 0 ∷ 1 ∷ 1 ∷ []

decode_hard_scalar-IsNearest_example :
    IsNearest 2 decoder facts (omega arith) frame 2 (decode_hard_scalar decoder frame).1
decode_hard_scalar-IsNearest_example =
    decode_hard_scalar-IsNearest 2 decoder facts (omega arith) frame 2 refl (omega arith)

encoded : encode decoder (1 ∷ 0 ∷ []) ≡ 1 ∷ 1 ∷ 1 ∷ 0 ∷ 1 ∷ 1 ∷ 0 ∷ 0 ∷ []
unfolding encode encode_from build per_branch shift_register tabulate tabulate_from count_ones
encoded = refl

decode_hard_scalar-encode_example :
    (decode_hard_scalar decoder (encode decoder (1 ∷ 0 ∷ 1 ∷ 1 ∷ []))).1
    ≡ received (1 ∷ 0 ∷ 1 ∷ 1 ∷ [])
decode_hard_scalar-encode_example =
    decode_hard_scalar-encode 2 decoder facts (omega arith) (1 ∷ 0 ∷ 1 ∷ 1 ∷ [])
      (build-IsTelling 2 7 5 (omega arith) (omega arith)) (omega arith)

-- The one state of constraint length 1 loses the information.
abbrev memoryless : ViterbiDecoder
memoryless = record { constraint_length = 1; trellis = build 1 1 1; traceback = [] }

memoryless_loses : (decode_hard_scalar memoryless (encode memoryless (1 ∷ []))).1 ≡ 0 ∷ []
unfolding encode encode_from build per_branch shift_register tabulate tabulate_from count_ones
    decode_hard_scalar acs_steps acs_step_hard_scalar relax_states relax_state relax branch_metric
    ensure_traceback traceback_from
memoryless_loses = refl

-- The generators of the lengths that have no entry in the list.
default_generators_long :
    (default_generators 10 ≡ (1023, 511)) × (default_generators 16 ≡ (65535, 32767))
unfolding default_generators
default_generators_long = (refl, refl)

encode_tail_biting-closes_example :
    (2 ≤ 3
      → (s : ℕ) × (s < 2 ^ 2)
        × (encode_tail_biting decoder (1 ∷ 0 ∷ 1 ∷ [])
            ≡ ok (encode_from decoder.trellis s (1 ∷ 0 ∷ 1 ∷ [])))
        × (state_after decoder.trellis s (1 ∷ 0 ∷ 1 ∷ []) ≡ s))
    × (3 < 2
        → encode_tail_biting decoder (1 ∷ 0 ∷ 1 ∷ [])
          ≡ err (
              invalid_param
                "tail-biting encode requires at least K-1 info bits to pre-load the register"))
encode_tail_biting-closes_example = encode_tail_biting-closes 2 decoder (1 ∷ 0 ∷ 1 ∷ []) facts
