-- ===== src/Bits/Tests.antt =====
-- src/bits.rs on concrete buffers.
use syndrome.Prelude.{ℕ, List, [], ◌∷◌, All, ok, ◌≡◌, ◌↔◌}
use syndrome.Bits.{bytes_to_bits_vec, bits_to_bytes_vec}
use syndrome.Bits.RoundTrip.{IsByte, bits_to_bytes_vec-bytes_to_bits_vec_iff}

abbrev bits : List ℕ
bits = 1 ∷ 0 ∷ 1 ∷ 0 ∷ 0 ∷ 1 ∷ 0 ∷ 1 ∷ []

bits_to_bytes_vec-bytes_to_bits_vec_iff_example :
    (bits_to_bytes_vec bits ≡ ok (0xA5 ∷ []))
    ↔ (All IsByte (0xA5 ∷ []) × (bytes_to_bits_vec (0xA5 ∷ []) ≡ bits))
bits_to_bytes_vec-bytes_to_bits_vec_iff_example =
    bits_to_bytes_vec-bytes_to_bits_vec_iff bits (0xA5 ∷ [])
