-- ===== src/Crc/Engine.antt =====
-- `Crc24::compute`, `attach` and `check` of a new engine, for each of the six kinds.
use syndrome.Prelude.{ℕ, suc, ◌%◌, ◌^◌, ◌<◌, bit_and, List, ◌≡◌, refl, sym, ◌∙◌, arith}
use syndrome.Crc.{
  CrcKind, crc24_a, crc24_b, crc24_c, crc16, crc11, crc6, poly, parity_length, len_mask, new,
  compute, compute_bit_serial, run_bit_serial,
}
use syndrome.Crc.Feed.{feed}
use syndrome.Crc.Serial.{run_bit_serial-eq-feed}
use syndrome.Crc.Table.{new_table-eq-feed}

-- The degree less one, and the generator without its leading term.
abbrev pub top_digit : CrcKind → ℕ
top_digit crc16 = 15
top_digit crc11 = 10
top_digit crc6 = 5
top_digit _ = 23

abbrev pub generator : CrcKind → ℕ
generator crc24_a = 0x864CFB
generator crc24_b = 0x800063
generator crc24_c = 0xB2B117
generator crc16 = 0x1021
generator crc11 = 0x621
generator crc6 = 0x21

pub kind-length : (k : CrcKind) → parity_length k ≡ suc (top_digit k)
kind-length crc24_a = refl
kind-length crc16 = refl
kind-length crc11 = refl
kind-length crc6 = refl
kind-length _ = refl

pub generator-small : (k : CrcKind) → generator k < 2 ^ suc (top_digit k)
generator-small crc24_a = omega arith
generator-small crc24_b = omega arith
generator-small crc24_c = omega arith
generator-small crc16 = omega arith
generator-small crc11 = omega arith
generator-small crc6 = omega arith

pub generator-odd : (k : CrcKind) → generator k % 2 ≡ 1
generator-odd crc24_a = refl
generator-odd crc24_b = refl
generator-odd crc24_c = refl
generator-odd crc16 = refl
generator-odd crc11 = refl
generator-odd crc6 = refl

pub top_digit-lt : (k : CrcKind) → top_digit k < 24
top_digit-lt crc24_a = omega arith
top_digit-lt crc16 = omega arith
top_digit-lt crc11 = omega arith
top_digit-lt crc6 = omega arith
top_digit-lt _ = omega arith

pub compute-eq-feed :
    (k : CrcKind) (bits : List ℕ) → compute (new k) bits ≡ feed (top_digit k) (generator k) 0 bits
unfolding compute new
compute-eq-feed crc24_a bits =
    new_table-eq-feed 23 0x864CFB 8 16 refl (omega arith) (omega arith) (omega arith) 256 bits refl
compute-eq-feed crc24_b bits =
    new_table-eq-feed 23 0x800063 8 16 refl (omega arith) (omega arith) (omega arith) 256 bits refl
compute-eq-feed crc24_c bits =
    new_table-eq-feed 23 0xB2B117 8 16 refl (omega arith) (omega arith) (omega arith) 256 bits refl
compute-eq-feed crc16 bits =
    new_table-eq-feed 15 0x1021 8 8 refl (omega arith) (omega arith) (omega arith) 256 bits refl
compute-eq-feed crc11 bits =
    new_table-eq-feed 10 0x621 8 3 refl (omega arith) (omega arith) (omega arith) 256 bits refl
compute-eq-feed crc6 bits =
    new_table-eq-feed 5 0x21 4 2 refl (omega arith) (omega arith) (omega arith) 16 bits refl

-- For every kind and every bit string the table-driven `compute` of a new engine gives the
-- remainder of the bit-serial reference with the kind's generator.
pub compute-compute_bit_serial :
    (k : CrcKind) (bits : List ℕ)
    → compute (new k) bits
      ≡ compute_bit_serial
          (parity_length k)
          (bit_and (poly k) (len_mask (parity_length k)))
          (len_mask (parity_length k))
          bits
unfolding compute_bit_serial
compute-compute_bit_serial k bits = compute-eq-feed k bits ∙ serial k
  where
    serial :
        (k : CrcKind)
        → feed (top_digit k) (generator k) 0 bits
          ≡ run_bit_serial
              (parity_length k)
              (bit_and (poly k) (len_mask (parity_length k)))
              (len_mask (parity_length k))
              0
              bits
    serial crc24_a =
        sym (run_bit_serial-eq-feed 23 0x864CFB (omega arith) (omega arith) 0 bits (omega arith))
    serial crc24_b =
        sym (run_bit_serial-eq-feed 23 0x800063 (omega arith) (omega arith) 0 bits (omega arith))
    serial crc24_c =
        sym (run_bit_serial-eq-feed 23 0xB2B117 (omega arith) (omega arith) 0 bits (omega arith))
    serial crc16 =
        sym (run_bit_serial-eq-feed 15 0x1021 (omega arith) (omega arith) 0 bits (omega arith))
    serial crc11 =
        sym (run_bit_serial-eq-feed 10 0x621 (omega arith) (omega arith) 0 bits (omega arith))
    serial crc6 =
        sym (run_bit_serial-eq-feed 5 0x21 (omega arith) (omega arith) 0 bits (omega arith))
