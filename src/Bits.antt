-- ===== src/Bits.antt =====
-- src/bits.rs: packed bytes and one bit per byte, highest bit first. A buffer that the caller hands
-- in is a list; the loops write each of its slots once, in order, so its old elements only count
-- by their number.
mod Tests
pub mod RoundTrip
use syndrome.Prelude.{
  ℕ, ◌+◌, ◌-◌, ◌*◌, ◌/◌, ◌%◌, Bool, true, false, ◌||◌, List, [], ◌∷◌, ◌++◌, map, foldl, bit_and,
  bit_or, ltb, ◌==◌, length, replicate, tabulate, chunks_exact, concat, not, Result, ok, err,
  fail_if, ◌>>=◌, ◌>>◌, invalid_param, buffer_too_small, if◌then◌else◌,
}
use syndrome.Word.{◌>>>◌, shl8}

-- The eight slots of one byte.
pub byte_slots : ℕ → List ℕ
unfolding tabulate
byte_slots byte = tabulate 8 (λ bit_idx. bit_and (byte >>> (7 - bit_idx)) 1)

pub bytes_to_bits : List ℕ → List ℕ → Result (List ℕ)
bytes_to_bits bytes bits = do
  let required = length bytes * 8
  fail_if (not (length bits == required)) (buffer_too_small required (length bits))
  ok (concat (map byte_slots bytes))

-- The `Err` that this caller drops leaves the fresh buffer as it is.
pub bytes_to_bits_vec : List ℕ → List ℕ
bytes_to_bits_vec bytes =
    let bits = replicate (length bytes * 8) 0 in
    elim (bytes_to_bits bytes bits) [ ok written ↦ written | err e ↦ bits ]

-- `bits.iter().any(|&b| b > 1)`
unfoldable pub any_above_one : List ℕ → Bool
any_above_one [] = false
any_above_one (b ∷ bits) = ltb 1 b || any_above_one bits

-- `byte = (byte << 1) | bit` over a chunk.
pub pack_byte : List ℕ → ℕ
pack_byte chunk = foldl (λ byte bit. bit_or (shl8 byte 1) bit) 0 chunk

pub bits_to_bytes : List ℕ → List ℕ → Result (List ℕ)
bits_to_bytes bits bytes = do
  fail_if (not (length bits % 8 == 0)) (invalid_param "bits length must be a multiple of 8")
  let required = length bits / 8
  fail_if (not (length bytes == required)) (buffer_too_small required (length bytes))
  fail_if (any_above_one bits) (invalid_param "bit buffer contains a value other than 0 or 1")
  ok (map pack_byte (chunks_exact 8 bits))

pub bits_to_bytes_vec : List ℕ → Result (List ℕ)
bits_to_bytes_vec bits = do bytes ← bits_to_bytes bits (replicate (length bits / 8) 0); ok bytes

-- An LLR is a float: a type with the test `l < 0.0`.
module _ {F : Type 0} (below_zero : F → Bool) where
  pub hard_decision : List F → List ℕ → Result (List ℕ)
  hard_decision llr bits = do
    fail_if (not (length bits == length llr)) (buffer_too_small (length llr) (length bits))
    ok (map (λ l. if below_zero l then 1 else 0) llr)
