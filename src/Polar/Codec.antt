-- ===== src/Polar/Codec.antt =====
-- The encoder and the successive cancellation decoder of src/polar.rs as `new` builds them.
use syndrome.Prelude.{ℕ, ◌≤◌, List, Option, length, false, All, ok, ◌≡◌, sym, ◌∙◌}
use syndrome.Crc.{CrcKind}
use syndrome.Polar.{
  LlrOps, ScScratch, PolarEncoder, PolarDecoder, encoder_new, decoder_new, encode, any_not_finite,
  decode_sc,
}
use syndrome.Polar.Decode.{AllAgree}
use syndrome.Polar.Kernels.{IsBit}
use syndrome.Polar.Signs.{FloatLaws, sign_laws}
use syndrome.Polar.RoundTrip.{word_of, encode-word_of, round_trip}
use syndrome.Polar.Positions.{encoder_new-sizes, new-IsPair}

-- For an encoder and a decoder that `new` returns for the same sizes, a length of at most 1024,
-- whatever of the right length an earlier call left in the scratch: if floats have the bit layout
-- and the signs of IEEE 754 that `FloatLaws` states, then k information bits and a buffer of n
-- places are encoded to the codeword, and from n finite LLRs with the signs of the codeword's
-- bits, none of them zero, `decode_sc` returns the information bits.
pub decode_sc-encode :
    {A : Type 0} (ops : LlrOps A) (laws : FloatLaws ops) (by_weight : ℕ → List ℕ)
    (n k list_size : ℕ) (crc_kind : Option CrcKind) (enc : PolarEncoder) (dec : PolarDecoder)
    (scratch : ScScratch) (info codeword out : List ℕ) (llr : List A)
    → n ≤ 1024
    → encoder_new by_weight n k ≡ ok enc
    → decoder_new by_weight n k list_size crc_kind ≡ ok dec
    → length scratch.decoded ≡ n
    → length scratch.beta ≡ n
    → All IsBit info
    → length info ≡ k
    → length codeword ≡ n
    → length out ≡ k
    → AllAgree ops (sign_laws ops laws) llr (word_of enc info)
    → any_not_finite ops llr ≡ false
    → (encode enc info codeword ≡ ok (word_of enc info))
      × ((decode_sc ops (record dec { sc_scratch = scratch }) llr out).1 ≡ ok info)
decode_sc-encode ops laws by_weight n k list_size crc_kind enc dec scratch info codeword out llr
      small he hd ld lb bits hk hn ho agree finite =
    let (en, ek) = encoder_new-sizes by_weight n k enc he in
    let pair = new-IsPair by_weight n k list_size crc_kind enc dec scratch small he hd ld lb in
    (
      encode-word_of enc info codeword (hk ∙ sym ek) (hn ∙ sym en),
      (round_trip ops (sign_laws ops laws) enc (record dec { sc_scratch = scratch }) pair info out
          llr bits (hk ∙ sym ek) (ho ∙ sym ek) agree finite).0,
    )
