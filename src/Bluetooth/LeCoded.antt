-- ===== src/Bluetooth/LeCoded.antt =====
-- The convolutional code of `le_coded_phy_code` in src/bluetooth.rs.
use syndrome.Prelude.{ℕ, ◌+◌, ◌*◌, ◌<◌, List, length, ok, ◌≡◌, sym, subst, arith}
use syndrome.Viterbi.{ViterbiDecoder, encode, inf, decode_hard_scalar}
use syndrome.Viterbi.Paths.{received}
use syndrome.Viterbi.Words.{with_generators-IsDecoder}
use syndrome.Viterbi.RoundTrip.{IsTelling, build-IsTelling, decode_hard_scalar-encode}
use syndrome.Bluetooth.{le_coded_phy_code, le_coded_g0, le_coded_g1}

-- The LE Coded code is built, and decoding what it encodes, a word shorter than the metric that
-- stands for infinity allows, gives the word's bits.
pub le_coded_phy_code_lem :
    (info : List ℕ)
    → 2 * (length info + 3) < inf
    → (code : ViterbiDecoder) × (le_coded_phy_code ≡ ok code)
      × ((decode_hard_scalar code (encode code info)).1 ≡ received info)
unfolding le_coded_phy_code
le_coded_phy_code_lem info short =
    let (code, made, facts, trellis) =
      with_generators-IsDecoder 3 le_coded_g0 le_coded_g1 (omega arith) in
    (
      code,
      made,
      decode_hard_scalar-encode 3 code facts (omega arith) info
          (subst (IsTelling 3) (sym trellis)
            (build-IsTelling 3 le_coded_g0 le_coded_g1 (omega arith) (omega arith)))
          short,
    )
