-- ===== src/Bluetooth/Tests.antt =====
-- src/bluetooth.rs on concrete blocks.
use syndrome.Prelude.{ℕ, ◌≤◌, List, [], ◌∷◌, distance, ok, ◌≡◌, refl, arith}
use syndrome.Bits.{any_above_one}
use syndrome.Viterbi.{ViterbiDecoder, encode, decode_hard_scalar}
use syndrome.Viterbi.Paths
use syndrome.Bluetooth.LeCoded.{le_coded_phy_code_lem}
use syndrome.Bluetooth.{le_coded_phy_code, encode_block, decode_block, fec13_decode, fec13_encode}
use syndrome.Bluetooth.Repetition.{fec13_decode-fec13_encode}
use syndrome.Bluetooth.Fec23.{decode_block-encode_block}

-- The first generator row of the code with its second bit flipped.
abbrev info : List ℕ
info = 1 ∷ 0 ∷ 0 ∷ 0 ∷ 0 ∷ 0 ∷ 0 ∷ 0 ∷ 0 ∷ 0 ∷ []

abbrev received : List ℕ
received = 1 ∷ 1 ∷ 0 ∷ 0 ∷ 0 ∷ 0 ∷ 0 ∷ 0 ∷ 0 ∷ 0 ∷ 1 ∷ 1 ∷ 0 ∷ 1 ∷ 0 ∷ []

decode_block-encode_block_example :
    let d = distance received (encode_block info) in
    (d ≤ 1 → decode_block received ≡ record { info = info; corrected = d; uncorrectable = 0 })
    × (d ≡ 2
        → ((decode_block received).corrected ≡ 0) × ((decode_block received).uncorrectable ≡ 1))
decode_block-encode_block_example =
    decode_block-encode_block info received refl (omega arith) refl (omega arith)

abbrev bits : List ℕ
bits = 1 ∷ 0 ∷ []

abbrev triplets : List ℕ
triplets = 1 ∷ 1 ∷ 1 ∷ 0 ∷ 0 ∷ 0 ∷ []

bits_encoded : fec13_encode bits (0 ∷ 0 ∷ 0 ∷ 0 ∷ 0 ∷ 0 ∷ []) ≡ ok triplets
unfolding fec13_encode any_above_one
bits_encoded = refl

-- One error in each triplet.
abbrev damaged : List ℕ
damaged = 1 ∷ 0 ∷ 1 ∷ 0 ∷ 0 ∷ 1 ∷ []

fec13_decode-fec13_encode_example : fec13_decode damaged (0 ∷ 0 ∷ []) ≡ ok bits
fec13_decode-fec13_encode_example =
    fec13_decode-fec13_encode bits (0 ∷ 0 ∷ 0 ∷ 0 ∷ 0 ∷ 0 ∷ []) triplets damaged (0 ∷ 0 ∷ [])
      bits_encoded (omega arith) refl (omega arith) refl

le_coded_phy_code_lem_example :
    (code : ViterbiDecoder) × (le_coded_phy_code ≡ ok code)
    × ((decode_hard_scalar code (encode code (0 ∷ 1 ∷ 1 ∷ 0 ∷ []))).1
        ≡ Paths.received (0 ∷ 1 ∷ 1 ∷ 0 ∷ []))
le_coded_phy_code_lem_example = le_coded_phy_code_lem (0 ∷ 1 ∷ 1 ∷ 0 ∷ []) (omega arith)
