-- ===== src/Turbo/Tests.antt =====
-- src/turbo.rs on a short block.
use syndrome.Prelude.{
  ℕ, ◌+◌, ◌*◌, ◌%◌, get_or, some, ◌<◌, ◌≤◌, List, [], ◌∷◌, All, length, replicate, ok, ◌≡◌, refl,
  arith,
}
use syndrome.Turbo.{
  TurboEncoder, qpp_params, find_params, build_qpp_interleaver, new, output_len, encode,
}
use syndrome.Turbo.Terminate.{tail_end}
use syndrome.Turbo.Layout.{layout, natural_end, interleaved_end, encode_lem}
use syndrome.Turbo.Interleaver.{occurrences, new_lem}

-- An encoder with a short interleaver.
abbrev encoder : TurboEncoder
encoder = record { k = 3; pi = 2 ∷ 0 ∷ 1 ∷ [] }

abbrev bits : List ℕ
bits = 1 ∷ 0 ∷ 1 ∷ []

room : output_len encoder ≤ 22
unfolding output_len
room = omega arith

encode_lem_example :
    (encode encoder bits (replicate 22 7) ≡ ok (layout encoder bits (replicate 22 7)))
    × (tail_end 3 (natural_end encoder bits (replicate 22 7)) ≡ 0)
    × (tail_end 3 (interleaved_end encoder bits (replicate 22 7)) ≡ 0)
encode_lem_example = encode_lem encoder bits (replicate 22 7) refl refl room

abbrev forty : TurboEncoder
forty = record { k = 40; pi = build_qpp_interleaver 40 3 10 }

made : new 40 ≡ ok forty
unfolding new qpp_params find_params
made = refl

new_lem_example :
    (forty.k ≡ 40)
    × (length forty.pi ≡ 40)
    × All (λ p. p < 40) forty.pi
    × (occurrences 7 forty.pi ≡ 1)
    × (f1 : ℕ) × (f2 : ℕ) × (qpp_params 40 ≡ some (f1, f2))
    × (get_or forty.pi 7 0 ≡ (f1 * 7 + f2 * 7 * 7) % 40)
new_lem_example = new_lem 40 forty 7 made (omega arith)
