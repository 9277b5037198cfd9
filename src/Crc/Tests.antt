-- ===== src/Crc/Tests.antt =====
-- src/crc.rs on concrete strings.
use syndrome.Prelude.{ℕ, ◌≤◌, true, false, List, [], ◌∷◌, bit_and, bit_xor, ◌≡◌, refl, ◌↔◌, arith}
use syndrome.Crc.{
  crc24_a, crc16, crc11, crc6, poly, len_mask, compute_bit_serial, new, compute, attach, check,
}
use syndrome.Crc.Engine.{compute-compute_bit_serial}
use syndrome.Crc.Codeword.{check-attach, length-attach, check-compute_iff}
use syndrome.Crc.Burst.{corrupt, burst_error, compute-corrupt, check-burst}

-- Two whole bytes and a tail for the byte table.
abbrev message : List ℕ
message = 1 ∷ 0 ∷ 1 ∷ 1 ∷ 0 ∷ 0 ∷ 1 ∷ 0 ∷ 1 ∷ 1 ∷ 1 ∷ 0 ∷ 0 ∷ 1 ∷ 0 ∷ 1 ∷ 1 ∷ 0 ∷ []

abbrev flips : List ℕ
flips = 0 ∷ 0 ∷ 1 ∷ 0 ∷ 0 ∷ 0 ∷ 0 ∷ 0 ∷ 0 ∷ 0 ∷ 0 ∷ 1 ∷ 0 ∷ 0 ∷ 0 ∷ 0 ∷ 0 ∷ 1 ∷ []

compute-compute_bit_serial_example :
    compute (new crc16) message
    ≡ compute_bit_serial 16 (bit_and (poly crc16) (len_mask 16)) (len_mask 16) message
compute-compute_bit_serial_example = compute-compute_bit_serial crc16 message

compute-corrupt_example :
    compute (new crc11) (corrupt message flips)
    ≡ bit_xor (compute (new crc11) message) (compute (new crc11) flips)
compute-corrupt_example = compute-corrupt crc11 message flips refl

check-attach_example : check (new crc24_a) (attach (new crc24_a) message) ≡ true
check-attach_example = check-attach crc24_a message

check-compute_iff_example :
    (check (new crc6) message ≡ true) ↔ ((6 ≤ 18) × (compute (new crc6) message ≡ 0))
check-compute_iff_example = check-compute_iff crc6 message

-- The message with its CRC-6, and a burst of three places in it.
check-burst_example :
    check (new crc6) (corrupt (attach (new crc6) message) (burst_error 4 (1 ∷ 0 ∷ 1 ∷ []) 17))
    ≡ false
check-burst_example =
    check-burst crc6 4 (1 ∷ 0 ∷ 1 ∷ []) 17 (omega arith) (λ h. omega arith)
      (attach (new crc6) message) (check-attach crc6 message) (length-attach crc6 message)
