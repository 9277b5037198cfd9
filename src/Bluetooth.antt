-- ===== src/Bluetooth.antt =====
-- src/bluetooth.rs: the LE Coded pattern mapper and the BR/EDR FEC 1/3 and FEC 2/3 codes. An output
-- slice is a list whose slots are each written once, in order, so its old elements only count by
-- their number. A bit held in a `u8` is a number below 2 after the checks.
pub mod Repetition
pub mod Parity
pub mod ErrorWords
pub mod Fec23
pub mod LeCoded
mod Tests
use syndrome.Prelude.{
  ℕ, zero, suc, ◌+◌, ◌-◌, ◌*◌, ◌/◌, ◌%◌, ◌^◌, Bool, true, false, List, [], ◌∷◌, ◌++◌, map, foldl,
  bit_and, bit_or, bit_xor, ltb, ◌==◌, not, length, get_or, set, take, drop, replicate, tabulate,
  chunks_exact, concat, Option, none, some, if◌then◌else◌, Result, ok, err, fail_if, ◌>>=◌, ◌>>◌,
  invalid_param, buffer_too_small,
}
use syndrome.Word.{◌>>>◌, shl8, count_ones}
use syndrome.Bits.{any_above_one}
use syndrome.Viterbi.{ViterbiDecoder, with_generators}

abbrev pub le_coded_g0 : ℕ
le_coded_g0 = 15

abbrev pub le_coded_g1 : ℕ
le_coded_g1 = 11

abbrev pub le_coded_constraint_length : ℕ
le_coded_constraint_length = 4

pub le_coded_phy_code : Result ViterbiDecoder
le_coded_phy_code = with_generators le_coded_constraint_length le_coded_g0 le_coded_g1

-- One coded bit's four symbols.
abbrev pub symbols_of : ℕ → List ℕ
symbols_of bit = bit ∷ bit ∷ (1 - bit) ∷ (1 - bit) ∷ []

pub pattern_map_s8 : List ℕ → List ℕ → Result (List ℕ)
pattern_map_s8 coded symbols = do
  let required = length coded * 4
  fail_if (not (length symbols == required)) (buffer_too_small required (length symbols))
  fail_if (any_above_one coded) (invalid_param "coded bits must be 0 or 1 for pattern mapping")
  ok (concat (map symbols_of coded))

-- LLRs are floats: a type with its addition, its subtraction and a value past the end of a group,
-- which is never read.
module _ {F : Type 0} (zero_f : F) (◌+F◌ ◌-F◌ : F → F → F) where
  -- `group[0] + group[1] - group[2] - group[3]`
  pub soft_bit : List F → F
  soft_bit group =
      ◌-F◌ (◌-F◌ (◌+F◌ (get_or group 0 zero_f) (get_or group 1 zero_f)) (get_or group 2 zero_f))
        (get_or group 3 zero_f)

  pub pattern_demap_s8 : List F → List F → Result (List F)
  pattern_demap_s8 symbol_llr coded_llr = do
    fail_if (not (length symbol_llr % 4 == 0))
        (invalid_param "S=8 symbol LLR length must be a multiple of 4")
    let required = length symbol_llr / 4
    fail_if (not (length coded_llr == required)) (buffer_too_small required (length coded_llr))
    ok (map soft_bit (chunks_exact 4 symbol_llr))

pub fec13_encode : List ℕ → List ℕ → Result (List ℕ)
fec13_encode bits out = do
  let required = length bits * 3
  fail_if (not (length out == required)) (buffer_too_small required (length out))
  fail_if (any_above_one bits) (invalid_param "FEC 1/3 input bits must be 0 or 1")
  ok (concat (map (replicate 3) bits))

-- `(t[0] & t[1]) | (t[1] & t[2]) | (t[2] & t[0])`
pub majority : List ℕ → ℕ
majority t =
    let t0 = get_or t 0 0 in
    let t1 = get_or t 1 0 in
    let t2 = get_or t 2 0 in bit_or (bit_or (bit_and t0 t1) (bit_and t1 t2)) (bit_and t2 t0)

pub fec13_decode : List ℕ → List ℕ → Result (List ℕ)
fec13_decode coded out = do
  fail_if (not (length coded % 3 == 0))
      (invalid_param "FEC 1/3 coded length must be a multiple of 3")
  let required = length coded / 3
  fail_if (not (length out == required)) (buffer_too_small required (length out))
  fail_if (any_above_one coded) (invalid_param "FEC 1/3 coded bits must be 0 or 1")
  ok (map majority (chunks_exact 3 coded))

abbrev pub fec23_info_bits : ℕ
fec23_info_bits = 10

abbrev pub fec23_coded_bits : ℕ
fec23_coded_bits = 15

abbrev pub fec23_parity_bits : ℕ
fec23_parity_bits = fec23_coded_bits - fec23_info_bits

abbrev pub fec23_feedback : ℕ
fec23_feedback = 0b10101

-- One round of the loop of `fec23_parity`.
pub parity_step : ℕ → ℕ → ℕ
parity_step reg bit =
    let feedback = bit_xor bit (bit_and (reg >>> (fec23_parity_bits - 1)) 1) in
    let reg = bit_and (shl8 reg 1) 0x1F in if feedback == 1 then bit_xor reg fec23_feedback else reg

pub fec23_parity : List ℕ → ℕ
fec23_parity info = foldl parity_step 0 info

-- One block: the ten bits and their parity, highest bit first.
pub encode_block : List ℕ → List ℕ
encode_block src =
    let parity = fec23_parity src in
    src ++ tabulate fec23_parity_bits (λ i. bit_and (parity >>> (fec23_parity_bits - 1 - i)) 1)

pub fec23_encode : List ℕ → List ℕ → Result (List ℕ)
fec23_encode info out = do
  fail_if (not (length info % fec23_info_bits == 0))
      (invalid_param "FEC 2/3 info length must be a multiple of 10")
  let blocks = length info / fec23_info_bits
  let required = blocks * fec23_coded_bits
  fail_if (not (length out == required)) (buffer_too_small required (length out))
  fail_if (any_above_one info) (invalid_param "FEC 2/3 info bits must be 0 or 1")
  ok (concat (map encode_block (chunks_exact fec23_info_bits info)))

pub record Fec23Status : Type 0 where
  pub corrected_bits : ℕ
  pub uncorrectable_blocks : ℕ

-- What one block gives: its ten bits and what it adds to the status.
pub record DecodedBlock : Type 0 where
  pub info : List ℕ
  pub corrected : ℕ
  pub uncorrectable : ℕ

-- `received_parity = (received_parity << 1) | bit` over the last five bits.
pub pack_parity : List ℕ → ℕ
pack_parity bits = foldl (λ received_parity bit. bit_or (shl8 received_parity 1) bit) 0 bits

-- The probe loop from `i` on, with `left` positions to go: `none` when no position fits.
pub find_error : ℕ → ℕ → ℕ → Option ℕ
find_error zero i syn = none
find_error (suc left) i syn =
    let rest = find_error left (i + 1) syn in
    if fec23_parity (set (replicate fec23_info_bits 0) i 1) == syn then some i else rest

-- What follows the probe loop.
abbrev pub fix : List ℕ → ℕ → Option ℕ → DecodedBlock
fix dst syn (some i) = record {
  info = set dst i (bit_xor (get_or dst i 0) 1);
  corrected = 1;
  uncorrectable = 0;
}
fix dst syn none =
    if count_ones 8 syn == 1
    then record { info = dst; corrected = 1; uncorrectable = 0 }
    else record { info = dst; corrected = 0; uncorrectable = 1 }

pub repair : List ℕ → ℕ → DecodedBlock
repair dst syn = fix dst syn (find_error fec23_info_bits 0 syn)

pub decode_block : List ℕ → DecodedBlock
decode_block src =
    let received_parity = pack_parity (drop fec23_info_bits src) in
    let syn = bit_xor (fec23_parity (take fec23_info_bits src)) received_parity in
    let dst = take fec23_info_bits src in
    let repaired = repair dst syn in
    if syn == 0 then record { info = dst; corrected = 0; uncorrectable = 0 } else repaired

-- The loop over the blocks, which counts as it goes.
pub decode_blocks : List (List ℕ) → Fec23Status → List ℕ × Fec23Status
decode_blocks [] status = ([], status)
decode_blocks (src ∷ srcs) status =
    let block = decode_block src in
    let (rest, status') = decode_blocks srcs record {
      corrected_bits = status.corrected_bits + block.corrected;
      uncorrectable_blocks = status.uncorrectable_blocks + block.uncorrectable;
    } in
    (block.info ++ rest, status')

pub fec23_decode : List ℕ → List ℕ → Result (List ℕ × Fec23Status)
fec23_decode coded out = do
  fail_if (not (length coded % fec23_coded_bits == 0))
      (invalid_param "FEC 2/3 coded length must be a multiple of 15")
  let blocks = length coded / fec23_coded_bits
  let required = blocks * fec23_info_bits
  fail_if (not (length out == required)) (buffer_too_small required (length out))
  fail_if (any_above_one coded) (invalid_param "FEC 2/3 coded bits must be 0 or 1")
  ok (
      decode_blocks (chunks_exact fec23_coded_bits coded)
        (record { corrected_bits = 0; uncorrectable_blocks = 0 }))
