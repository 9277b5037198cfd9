-- ===== src/TransportBlock/Encoder/Tests.antt =====
-- `DlSchEncoder` of src/transport_block.rs on a transport block of three bits.
use syndrome.Prelude.{ℕ, false, [], ◌∷◌, ok, ◌≡◌, replicate}
use syndrome.Crc.{crc24_a, new}
use syndrome.Segmentation.{bg2, SegmentationParams}
use syndrome.RateMatching.{empty_cache}
use syndrome.RateMatching.Cached.{IsFresh, empty_cache-IsFresh}
use syndrome.TransportBlock.{LdpcCode}
use syndrome.TransportBlock.Encoder.{DlSchEncoder, encode}
use syndrome.TransportBlock.Encoder.Encoded.{encode_each, encode-encode_each}

-- A code that sends the information bits and nothing else.
abbrev bare : LdpcCode ℕ
bare = record {
  params_new = λ bg z. ok tt;
  encode = λ bg z bits. ok bits;
  decode_layered_offset_min_sum = λ bg z llr iterations. ok (llr, 1);
}

-- What `compute_segmentation` makes of three bits.
abbrev params : SegmentationParams
params = record {
  bg = bg2;
  z = 5;
  c = 1;
  b = 27;
  k_prime = 27;
  k = 50;
  n = 250;
  n_filler = 23;
  has_cb_crc = false;
  k_b = 10;
}

abbrev encoder : DlSchEncoder
encoder = record {
  params = params;
  tb_crc = new crc24_a;
  qm = 2;
  e_per_cb = 6;
  tb_size = 3;
  rm_cache = empty_cache;
}

encode-encode_each_example :
    let outcome = encode bare encoder (1 ∷ 0 ∷ 1 ∷ []) 0 (replicate 8 7) in
    IsFresh outcome.0 × (outcome.1 ≡ encode_each bare encoder 0 (1 ∷ 0 ∷ 1 ∷ []) (replicate 8 7))
encode-encode_each_example =
    encode-encode_each bare encoder 0 (1 ∷ 0 ∷ 1 ∷ []) (replicate 8 7) empty_cache-IsFresh
