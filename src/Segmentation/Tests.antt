-- ===== src/Segmentation/Tests.antt =====
-- src/segmentation.rs on concrete transport blocks.
use syndrome.Prelude.{
  ℕ, leb, Bool, List, All, map, take, concat, replicate, length, ok, ◌≡◌, arith, length-replicate,
}
use syndrome.Segmentation.{
  SegmentationParams, compute_segmentation, select_base_graph, segment, payload_per_cb,
}
use syndrome.Segmentation.Params.{IsSegmentation, compute_segmentation_total}
use syndrome.Segmentation.Segment.{Sound, segment_lem}

-- A rate in percent.
abbrev le_67 : ℕ → Bool
le_67 r = leb r 67

abbrev le_25 : ℕ → Bool
le_25 r = leb r 25

compute_segmentation_total_example :
    (p : SegmentationParams) × (compute_segmentation le_67 le_25 8425 67 ≡ ok p)
    × (p.bg ≡ select_base_graph le_67 le_25 8425 67)
    × IsSegmentation 8425 p
compute_segmentation_total_example =
    compute_segmentation_total le_67 le_25 8425 67 (omega arith) (omega arith)

-- The parameters of 8425 bits, which need two code blocks.
abbrev two_blocks : SegmentationParams
two_blocks = compute_segmentation_total_example.0

abbrev one : ℕ
one = 1

transport : List ℕ
transport = replicate 8449 one

segment_lem_example :
    (blocks : List (List ℕ)) × (segment transport two_blocks ≡ ok blocks)
    × (length blocks ≡ two_blocks.c)
    × All (Sound transport two_blocks) blocks
    × (take two_blocks.b (concat (map (take (payload_per_cb two_blocks)) blocks))
        ≡ take two_blocks.b transport)
unfolding transport
segment_lem_example =
    segment_lem transport two_blocks 8425 compute_segmentation_total_example.3
      (omega (arith, length-replicate 8449 one, compute_segmentation_total_example.3.with_crc))
