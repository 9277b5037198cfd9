-- ===== src/Hamming.antt =====
-- src/hamming.rs: the Hamming(7,4) code on the low bits of a byte.
pub mod Decode
mod Tests
use syndrome.Prelude.{
  ℕ, zero, suc, ◌+◌, ◌-◌, ◌*◌, ◌/◌, ◌%◌, ◌^◌, Bool, true, false, ◌&&◌, List, [], ◌∷◌, bit_and,
  bit_or, bit_xor, leb, ◌==◌, not, if◌then◌else◌, Result, ok,
}
use syndrome.Word.{◌>>>◌, shl8, count_ones}

-- `H_ROWS`
abbrev pub h_rows : List ℕ
h_rows = 0b1010101 ∷ 0b1100110 ∷ 0b1111000 ∷ []

-- The loop of `syndrome` from row `k` on.
pub syndrome_rows : ℕ → List ℕ → ℕ → ℕ → ℕ
syndrome_rows r [] k s = s
syndrome_rows r (row ∷ rows) k s =
    syndrome_rows r rows (k + 1) (bit_or s (shl8 (bit_and (count_ones 8 (bit_and r row)) 1) k))

-- `syndrome`
pub syndrome_of : ℕ → ℕ
syndrome_of r = syndrome_rows (bit_and r 0x7F) h_rows 0 0

-- `Hamming74::encode`
pub encode : ℕ → ℕ
encode nibble =
    let d = bit_and nibble 0x0F in
    let d0 = bit_and d 1 in
    let d1 = bit_and (d >>> 1) 1 in
    let d2 = bit_and (d >>> 2) 1 in
    let d3 = bit_and (d >>> 3) 1 in
    let p1 = bit_xor (bit_xor d3 d2) d0 in
    let p2 = bit_xor (bit_xor d3 d1) d0 in
    let p4 = bit_xor (bit_xor d2 d1) d0 in
    let code = bit_or 0 (bit_and p1 1) in
    let code = bit_or code (shl8 (bit_and p2 1) 1) in
    let code = bit_or code (shl8 (bit_and d3 1) 2) in
    let code = bit_or code (shl8 (bit_and p4 1) 3) in
    let code = bit_or code (shl8 (bit_and d2 1) 4) in
    let code = bit_or code (shl8 (bit_and d1 1) 5) in bit_or code (shl8 (bit_and d0 1) 6)

-- `Hamming74::decode`
pub decode : ℕ → Result ℕ
decode code =
    let r = bit_and code 0x7F in
    let s = syndrome_of r in
    let flipped = bit_xor r (shl8 1 (s - 1)) in
    let corrected = if not (s == 0) then if leb 1 s && leb s 7 then flipped else r else r in
    let d3 = bit_and (corrected >>> 2) 1 in
    let d2 = bit_and (corrected >>> 4) 1 in
    let d1 = bit_and (corrected >>> 5) 1 in
    let d0 = bit_and (corrected >>> 6) 1 in
    ok (bit_or (bit_or (bit_or (shl8 d3 3) (shl8 d2 2)) (shl8 d1 1)) d0)
