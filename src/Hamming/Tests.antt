-- ===== src/Hamming/Tests.antt =====
-- src/hamming.rs on concrete words.
use syndrome.Prelude.{◌≤◌, bit_xor, ok, ◌≡◌, ◌↔◌, arith}
use syndrome.Word.{count_ones}
use syndrome.Hamming.{encode, decode}
use syndrome.Hamming.Decode.{decode_iff}

-- The word of 0b0110 with position 3 flipped.
decode_iff_example :
    (decode (bit_xor 0b0110011 0b100) ≡ ok 0b0110)
    ↔ (count_ones 8 (bit_xor (bit_xor 0b0110011 0b100) (encode 0b0110)) ≤ 1)
decode_iff_example = decode_iff 0b0110 (bit_xor 0b0110011 0b100) (omega arith) (omega arith)
