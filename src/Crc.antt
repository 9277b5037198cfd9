-- ===== src/Crc.antt =====
-- src/crc.rs: the CRC engines of TS 38.212. A register is a u32, a bit string a list of bytes of
-- which only the lowest digit is read.
mod Tests
pub mod Register
pub mod Feed
pub mod Serial
pub mod Table
pub mod Engine
pub mod Codeword
pub mod Burst
use syndrome.Prelude.{
  ℕ, zero, suc, ◌+◌, ◌-◌, ◌*◌, ◌/◌, ◌%◌, ◌^◌, Bool, false, List, [], ◌∷◌, ◌++◌, foldl, bit_and,
  bit_or, bit_xor, leb, ltb, ◌==◌, if◌then◌else◌, length, take, drop, replicate, get_or, tabulate,
}
use syndrome.Word.{◌>>>◌, shl32}

pub data CrcKind : Type 0 where
  crc24_a crc24_b crc24_c crc16 crc11 crc6 : CrcKind

-- `CrcKind::poly`
abbrev pub poly : CrcKind → ℕ
poly crc24_a = 0x864CFB
poly crc24_b = 0x800063
poly crc24_c = 0xB2B117
poly crc16 = 0x11021
poly crc11 = 0xE21
poly crc6 = 0x61

-- `CrcKind::length`
abbrev pub parity_length : CrcKind → ℕ
parity_length crc16 = 16
parity_length crc11 = 11
parity_length crc6 = 6
parity_length _ = 24

-- `(1u32 << len).wrapping_sub(1)`
abbrev pub len_mask : ℕ → ℕ
len_mask len = (shl32 1 len + 2 ^ 32 - 1) % 2 ^ 32

-- One step of the shift register.
pub bit_serial_step : ℕ → ℕ → ℕ → ℕ → ℕ → ℕ
bit_serial_step reg bit len poly mask =
    let feedback = bit_and (bit_xor (reg >>> (len - 1)) (bit_and bit 1)) 1 in
    let shifted = bit_and (shl32 reg 1) mask in
    if feedback == 0 then shifted else bit_xor shifted poly

-- The bit-serial reference over a whole string, from register `reg`.
pub run_bit_serial : ℕ → ℕ → ℕ → ℕ → List ℕ → ℕ
run_bit_serial len poly mask reg bits = foldl (λ r b. bit_serial_step r b len poly mask) reg bits

-- `compute_bit_serial`
pub compute_bit_serial : ℕ → ℕ → ℕ → List ℕ → ℕ
unfolding run_bit_serial
compute_bit_serial len poly mask bits = run_bit_serial len poly mask 0 bits

pub record Crc24 : Type 0 where
  pub kind : CrcKind
  pub table : List ℕ
  pub nibble_table : List ℕ

-- The inner loop of `Crc24::new`: the lowest `shifts` digits of `i` are fed in, highest first.
pub feed_index : ℕ → ℕ → ℕ → ℕ → ℕ → ℕ → ℕ
feed_index len poly mask zero i reg = reg
feed_index len poly mask (suc shift) i reg =
    feed_index len poly mask shift i (bit_serial_step reg (bit_and (i >>> shift) 1) len poly mask)

-- `Crc24::new`
pub new : CrcKind → Crc24
new kind =
    let len = parity_length kind in
    let mask = len_mask len in
    let g = bit_and (poly kind) mask in
    if leb 8 len
    then record {
      kind = kind;
      table = tabulate 256 (λ i. feed_index len g mask 8 i 0);
      nibble_table = replicate 16 0;
    }
    else record {
      kind = kind;
      table = replicate 256 0;
      nibble_table = tabulate 16 (λ i. feed_index len g mask 4 i 0);
    }

-- `acc = (acc << 1) | (bit & 1)` over a slice.
pub pack_bits : List ℕ → ℕ
pack_bits bits = foldl (λ acc b. bit_or (shl32 acc 1) (bit_and b 1)) 0 bits

-- One table step over `w` bits: 8 for the byte table, 4 for the nibble table.
pub chunk_step : ℕ → List ℕ → ℕ → ℕ → ℕ → ℕ → ℕ
chunk_step w table len mask reg packed =
    let idx = bit_and (bit_xor (reg >>> (len - w)) packed) (2 ^ w - 1) in
    bit_xor (bit_and (shl32 reg w) mask) (get_or table idx 0)

-- The loop over the whole chunks; `bits` starts at the next chunk.
pub chunk_loop : ℕ → List ℕ → ℕ → ℕ → ℕ → ℕ → List ℕ → ℕ
chunk_loop w table len mask zero reg bits = reg
chunk_loop w table len mask (suc chunks) reg bits =
    chunk_loop w table len mask chunks (chunk_step w table len mask reg (pack_bits (take w bits)))
      (drop w bits)

-- One arm of `Crc24::compute`: whole chunks by table, then the tail bit by bit.
pub compute_chunked : ℕ → List ℕ → ℕ → ℕ → ℕ → List ℕ → ℕ
compute_chunked w table len poly mask bits =
    let chunks = length bits / w in
    run_bit_serial len poly mask (chunk_loop w table len mask chunks 0 bits)
      (drop (chunks * w) bits)

-- `Crc24::compute`
pub compute : Crc24 → List ℕ → ℕ
compute crc bits =
    let len = parity_length crc.kind in
    let mask = len_mask len in
    let g = bit_and (poly crc.kind) mask in
    if leb 8 len
    then compute_chunked 8 crc.table len g mask bits
    else compute_chunked 4 crc.nibble_table len g mask bits

-- The loop of `Crc24::attach`: digits `shifts - 1` down to 0 of the remainder.
pub parity_bits : ℕ → ℕ → List ℕ
parity_bits zero remainder = []
parity_bits (suc shift) remainder = bit_and (remainder >>> shift) 1 ∷ parity_bits shift remainder

-- `Crc24::attach`
pub attach : Crc24 → List ℕ → List ℕ
attach crc bits = bits ++ parity_bits (parity_length crc.kind) (compute crc bits)

-- `Crc24::check`
pub check : Crc24 → List ℕ → Bool
check crc bits =
    let l = parity_length crc.kind in
    let split = length bits - l in
    if ltb (length bits) l
    then false
    else compute crc (take split bits) == pack_bits (drop split bits)
