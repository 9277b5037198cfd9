-- ===== src/Segmentation.antt =====
-- src/segmentation.rs: how a transport block is cut into code blocks (TS 38.212 5.2.2). All sizes
-- stay far below 2 ^ 64, so `usize` arithmetic is that of the natural numbers.
mod Tests
pub mod LiftingSize
pub mod Params
pub mod Segment
use syndrome.Prelude.{
  ℕ, zero, suc, ◌+◌, ◌-◌, ◌*◌, ◌/◌, ◌%◌, ◌≤◌, min, Bool, true, false, ◌&&◌, ◌||◌, List, [], ◌∷◌,
  ◌++◌, ltb, leb, ◌==◌, if◌then◌else◌, length, take, drop, replicate, tabulate, Result, ok, err,
  fail_if, ◌>>=◌, ◌>>◌, invalid_param, buffer_too_small,
}
use syndrome.Crc.{crc24_b, new, attach}

-- `qc_ldpc::BaseGraph`
pub data BaseGraph : Type 0 where
  bg1 bg2 : BaseGraph

-- `VALID_Z`
abbrev pub valid_z : List ℕ
valid_z =
    2 ∷ 3 ∷ 4 ∷ 5 ∷ 6 ∷ 7 ∷ 8 ∷ 9 ∷ 10 ∷ 11 ∷ 12 ∷ 13 ∷ 14 ∷ 15 ∷ 16 ∷ 18 ∷ 20 ∷ 22 ∷ 24 ∷ 26 ∷ 28
    ∷ 30 ∷ 32 ∷ 36 ∷ 40 ∷ 44 ∷ 48 ∷ 52 ∷ 56 ∷ 60 ∷ 64 ∷ 72 ∷ 80 ∷ 88 ∷ 96 ∷ 104 ∷ 112 ∷ 120 ∷ 128
    ∷ 144 ∷ 160 ∷ 176 ∷ 192 ∷ 208 ∷ 224 ∷ 240 ∷ 256 ∷ 288 ∷ 320 ∷ 352 ∷ 384 ∷ []

abbrev pub max_tb_size_bits : ℕ
max_tb_size_bits = 1277992

-- The loop of `min_valid_z` over the sizes that are left.
pub first_valid_z : ℕ → ℕ → List ℕ → Result ℕ
first_valid_z k_prime k_b [] = err (invalid_param "K' too large: no valid 3GPP lifting size exists")
first_valid_z k_prime k_b (z ∷ zs) =
    if leb k_prime (k_b * z) then ok z else first_valid_z k_prime k_b zs

pub min_valid_z : ℕ → ℕ → Result ℕ
min_valid_z k_prime k_b = first_valid_z k_prime k_b valid_z

pub record SegmentationParams : Type 0 where
  pub bg : BaseGraph
  pub z : ℕ
  pub c : ℕ
  pub b : ℕ
  pub k_prime : ℕ
  pub k : ℕ
  pub n : ℕ
  pub n_filler : ℕ
  pub has_cb_crc : Bool
  pub k_b : ℕ

pub lifting_selection_k_b : BaseGraph → ℕ → ℕ
lifting_selection_k_b bg1 b = 22
lifting_selection_k_b bg2 b =
    if ltb 640 b then 10 else if ltb 560 b then 9 else if ltb 192 b then 8 else 6

-- `usize::div_ceil`
pub div_ceil : ℕ → ℕ → ℕ
div_ceil a b = if a % b == 0 then a / b else a / b + 1

-- The maximal code block, the coded columns and the systematic columns of a base graph.
abbrev pub max_block : BaseGraph → ℕ
max_block bg1 = 8448
max_block bg2 = 3840

abbrev pub coded_columns : BaseGraph → ℕ
coded_columns bg1 = 66
coded_columns bg2 = 50

abbrev pub systematic_columns : BaseGraph → ℕ
systematic_columns bg1 = 22
systematic_columns bg2 = 10

-- The number of code blocks and the length of each block's CRC.
pub block_count : ℕ → ℕ → ℕ × ℕ
block_count k_cb b = if leb b k_cb then (1, 0) else (div_ceil b (k_cb - 24), 24)

-- `compute_segmentation` once `c` and `l` are known.
pub sized_params : BaseGraph → ℕ → ℕ → ℕ → Result SegmentationParams
sized_params bg b c l = do
  let b_prime = b + c * l
  let k_prime = div_ceil b_prime c
  z ← min_valid_z k_prime (lifting_selection_k_b bg b)
  let k = systematic_columns bg * z
  ok (record {
    bg = bg;
    z = z;
    c = c;
    b = b;
    k_prime = k_prime;
    k = k;
    n = coded_columns bg * z;
    n_filler = k - k_prime;
    has_cb_crc = ltb 0 l;
    k_b = systematic_columns bg;
  })

-- `compute_segmentation` after the base graph is selected.
pub segmentation_for : BaseGraph → ℕ → Result SegmentationParams
segmentation_for bg a =
    let b = a + 24 in let (c, l) = block_count (max_block bg) b in sized_params bg b c l

-- A target rate is a float: a type with its two tests, `r <= 0.67` and `r <= 0.25`.
module _ {Rate : Type 0} (le_067 le_025 : Rate → Bool) where
  pub select_base_graph : ℕ → Rate → BaseGraph
  select_base_graph a r = if leb a 292 || (leb a 3824 && le_067 r) || le_025 r then bg2 else bg1

  pub compute_segmentation : ℕ → Rate → Result SegmentationParams
  compute_segmentation a target_rate = do
    fail_if (a == 0) (invalid_param "transport block size must be > 0")
    fail_if (ltb max_tb_size_bits a)
        (invalid_param "transport block size exceeds the 3GPP maximum (1,277,992 bits)")
    segmentation_for (select_base_graph a target_rate) a

-- `Vec::resize`
pub resize : ℕ → ℕ → List ℕ → List ℕ
resize n v xs = take n xs ++ replicate (n - length xs) v

pub payload_per_cb : SegmentationParams → ℕ
payload_per_cb p = if p.has_cb_crc then p.k_prime - 24 else p.k_prime

-- The payload of code block `ci`, padded.
pub block_payload : List ℕ → SegmentationParams → ℕ → List ℕ
block_payload tb_with_crc p ci =
    let start = ci * payload_per_cb p in
    let end = min (start + payload_per_cb p) p.b in
    let src = if ltb start end then take (end - start) (drop start tb_with_crc) else [] in
    resize (payload_per_cb p) 0 src

pub code_block : List ℕ → SegmentationParams → ℕ → List ℕ
code_block tb_with_crc p ci =
    let cb = block_payload tb_with_crc p ci in if p.has_cb_crc then attach (new crc24_b) cb else cb

pub segment : List ℕ → SegmentationParams → Result (List (List ℕ))
segment tb_with_crc p = do
  fail_if (ltb (length tb_with_crc) p.b) (buffer_too_small p.b (length tb_with_crc))
  ok (tabulate p.c (code_block tb_with_crc p))
