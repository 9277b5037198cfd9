-- ===== src/Lib.antt =====
-- A verification library for syndrome, a forward error correction library for the 5G NR physical
-- layer with the codes of other standards beside it.
--
-- A transport block gets a CRC (src/crc.rs), is cut into code blocks with a CRC each
-- (src/segmentation.rs), each code block is encoded, and rate matching (src/rate_matching.rs) takes
-- the bits to send from the codeword. The receiver runs the same steps backwards, adds the soft
-- values of several transmissions up (src/harq.rs) and hands code blocks to worker threads
-- (src/ldpc_pipeline.rs) over rings (src/spsc_queue.rs). Control channels have polar codes
-- (src/polar.rs). The block codes of src/hamming.rs and src/bluetooth.rs stand alone,
-- src/bits.rs packs bits into bytes, and every error is one of src/error.rs.
--
-- Which file models what:
--   Prelude, Word: tests, lists, tables, words of bits, `FecError` and the result type
--     (src/error.rs), and the laws of `^`, `&`, `|` and shifts at every width.
--   Bits: src/bits.rs, a function of the same name for each of its own.
--   Crc: src/crc.rs. `new`, `compute`, `attach` and `check` are the methods of `Crc24`;
--     `bit_serial_step` and `compute_bit_serial` the functions. Registers are numbers with the
--     wrap-around of a u32 written out.
--   Segmentation: src/segmentation.rs, and the enumeration `BaseGraph` of src/qc_ldpc.rs.
--   RateMatching: src/rate_matching.rs. `walk` is the selection loop that `rate_match` and
--     `selection_walk` share; `ensure`, `rate_match_into` and `rate_dematch_llr_into` are the methods
--     of `RateMatchCache`, from the old cache to the new one, and `rate_dematch_llr` is the function.
--   Harq: src/harq.rs. `finish` is what `combine` does with the result of dematching.
--   TransportBlock: src/transport_block.rs, and `encode_5g` and `init_5g_llr` of src/qc_ldpc.rs.
--     `new_encoder`, `encode`, `new_decoder`, `decode` and `flush_harq` are the methods of
--     `DlSchEncoder` and `DlSchDecoder`; the LDPC code is the interface `LdpcCode`, with the decoder's
--     offset as a part of it. `conclude` is what `decode` does after the loop over the blocks.
--   Viterbi: src/viterbi.rs, the trellis, both encoders and `decode_hard_scalar`, functions of the
--     methods' names. The rows of the traceback table are kept as a list, the latest first.
--   Turbo: the encoder of src/turbo.rs with its interleaver; `encode_natural`,
--     `encode_interleaved` and `terminate` are the loops of `encode`.
--   WifiRateMatching: src/wifi_rate_matching.rs, functions of the same names; the LDPC code is the
--     interface `LdpcCodec`.
--   Hamming: src/hamming.rs, `encode` and `decode` of `Hamming74`.
--   Bluetooth: src/bluetooth.rs, a function of the same name for each of its own; the bodies of the
--     loops over blocks are functions by themselves.
--   SpscQueue: src/spsc_queue.rs. A method takes the ring to the new ring and its result.
--   Pipeline: src/ldpc_pipeline.rs, functions of the methods' names. `worker_step` is one step of a
--     worker's loop, whose place is a `Phase`; Schedule gives the caller with its frames, and `run` a
--     sequence of calls and steps in any order. The rings are those of SpscQueue.
--   Polar: src/polar.rs, functions of the same names; `encoder_new` and `decoder_new` are the two
--     `new`. The float operations that the kernels call are the fields of `LlrOps`, and what is
--     assumed of them is `FloatLaws`.
-- The parts meet in values: TransportBlock calls Crc, Segmentation, RateMatching and Harq,
-- `segment` attaches `Crc.new crc24_b`, rate matching reads the base graph's columns from
-- Segmentation, and Bluetooth takes its check of bit buffers from Bits and its convolutional code
-- from Viterbi.
--
-- Numbers and loops: sizes and indices are natural numbers, since every size that the code admits is
-- far below 2 ^ 64; `saturating_sub` is `-`, which stops at 0. Loops are structural recursion over
-- the list or the count they run through, but for these. The selection loop runs on the fuel
-- `3 * ncb + 1`: the last position of the buffer is never a filler, and the loop, which starts inside
-- the buffer, passes it with `j` between `2 * ncb` and `3 * ncb - 1`, where its own guard ends it. The
-- `while` loops of the polar transform run on the length of the word as fuel: the one doubles its
-- step and the other moves on by two places at least. The recursion of the polar decoder counts its
-- levels, the length of a node being a power of two. The endless loop of a worker is cut into steps,
-- and a schedule says who takes the next one. A buffer that the caller hands in is a list, and a
-- function returns it as written. Floats (LLRs and target rates) are a parameter type with the
-- operations that are used.
--
-- Not modelled: the soft decoders and the tail-biting decoder of convolutional codes; the turbo
-- decoder; the list decoder of polar codes, and the ordering of its positions above length 1024,
-- which is computed in floats; the LDPC, BCH, Reed-Solomon and Golay codes; the float decoders, their
-- SIMD kernels and the channel simulations, since floats are outside the model; the atomic orderings
-- inside one call of the ring; entry points, bindings and test helpers, which hold no logic of the
-- program.
pub mod Prelude
pub mod Word
pub mod Bits
pub mod Crc
pub mod Segmentation
pub mod RateMatching
pub mod Hamming
pub mod Bluetooth
pub mod SpscQueue
pub mod Harq
pub mod TransportBlock
pub mod WifiRateMatching
pub mod Turbo
pub mod Viterbi
pub mod Polar
pub mod Pipeline
