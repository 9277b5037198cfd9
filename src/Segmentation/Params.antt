-- ===== src/Segmentation/Params.antt =====
-- `compute_segmentation` succeeds on every transport block size in range, and what it returns is
-- consistent.
use native.Mathlib.Nat.{mod-lt, le_trans, mul-le-mul_right}
use syndrome.Prelude.{
  ℕ, ◌+◌, ◌-◌, ◌*◌, ◌%◌, ◌≤◌, ◌<◌, Bool, true, false, ltb, leb, ◌==◌, if◌then◌else◌, ok, ◌≡◌, refl,
  ap, ap₂, ◌∙◌, arith, dec_le, Bool-cases, inl, inr,
}
use syndrome.Segmentation.{
  BaseGraph, bg1, bg2, valid_z, max_tb_size_bits, SegmentationParams, lifting_selection_k_b,
  div_ceil, max_block, systematic_columns, coded_columns, segmentation_for, block_count,
  sized_params, select_base_graph, compute_segmentation, payload_per_cb,
}
use syndrome.Segmentation.LiftingSize.{IsFirst, IsFirst-fits, min_valid_z_total}

-- What a transport block of `a` bits may rely on.
pub record IsSegmentation (a : ℕ) (p : SegmentationParams) : Type 0 where
  pub with_crc : p.b ≡ a + 24
  pub blocks : 0 < p.c
  pub crc_iff_split : (p.has_cb_crc ≡ true → 1 < p.c) × (p.has_cb_crc ≡ false → p.c ≡ 1)
  pub large_if_split : p.has_cb_crc ≡ true → max_block p.bg < p.b
  pub fits_block : p.k_prime ≤ max_block p.bg
  pub crc_room : p.has_cb_crc ≡ true → 24 < p.k_prime
  pub covers : p.b ≤ p.c * payload_per_cb p
  pub slack : p.c * payload_per_cb p < p.b + p.c
  pub smallest : IsFirst p.k_prime (lifting_selection_k_b p.bg p.b) p.z valid_z
  pub systematic : p.k ≡ systematic_columns p.bg * p.z
  pub filler : p.n_filler + p.k_prime ≡ p.k
  pub coded : p.n ≡ coded_columns p.bg * p.z

pub div_ceil_covers : (a b : ℕ) → 0 < b → (a ≤ div_ceil a b * b) × (div_ceil a b * b < a + b)
unfolding div_ceil
div_ceil_covers a b h = elim (Bool-cases (a % b == 0)) [
  | inl exact ↦ rw exact (grind (arith, mod-lt a h), grind (arith, mod-lt a h))
  | inr rest ↦ rw rest (grind (arith, mod-lt a h), grind (arith, mod-lt a h))
]

k_b-le-columns : (bg : BaseGraph) (b : ℕ) → lifting_selection_k_b bg b ≤ systematic_columns bg
unfolding lifting_selection_k_b
k_b-le-columns bg1 b = ground arith
k_b-le-columns bg2 b = ground arith

-- The sizes when the block is cut into `c` pieces of at most `k_cb` bits, each with its CRC.
record IsSplit (k_cb b c k_prime : ℕ) : Type 0 where
  many : 1 < c
  large_block : k_cb < b
  crc_room : 24 < k_prime
  fits : k_prime ≤ k_cb
  covers : b ≤ c * (k_prime - 24)
  slack : c * (k_prime - 24) < b + c

parts : (x c : ℕ) → 24 ≤ x → c * (x - 24) + c * 24 ≡ x * c
parts x c h = omega (arith, ap (λ (t : ℕ). t * c) (restored x h))
  where
    restored : (x : ℕ) → 24 ≤ x → x - 24 + 24 ≡ x
    restored x h = omega arith

lt_of_mul : (x y c : ℕ) → y * c < x * c → y < x
lt_of_mul x y c h = grind arith

module _ (k_cb b c k_prime : ℕ) (room : 24 < k_cb) (large : k_cb < b) (enough : b ≤ c * (k_cb - 24))
    (covered : b + c * 24 ≤ k_prime * c) (tight : k_prime * c < b + c * 24 + c) where
  IsSplit-of_bounds : IsSplit k_cb b c k_prime
  IsSplit-of_bounds =
      let many : 1 < c = grind arith in
      let crc_room : 24 < k_prime = grind arith in
      let whole = parts k_cb c (omega arith) in
      let fits : k_prime < k_cb + 1 = lt_of_mul (k_cb + 1) k_prime c (omega arith) in
      let payload = parts k_prime c (omega arith) in
      record {
        many = many;
        large_block = large;
        crc_room = crc_room;
        fits = omega arith;
        covers = omega arith;
        slack = omega arith;
      }

-- The lifting size search succeeds on every block that fits.
k_prime-le :
    (bg : BaseGraph) (b k_prime : ℕ)
    → k_prime ≤ max_block bg
    → (b ≤ max_block bg → k_prime ≤ b)
    → k_prime ≤ lifting_selection_k_b bg b * 384
unfolding lifting_selection_k_b
k_prime-le bg1 b k_prime h k = omega arith
k_prime-le bg2 b k_prime h k = ground arith

module _ (k_cb b c l : ℕ)
    (split : ltb 0 l ≡ true → (l ≡ 24) × IsSplit k_cb b c (div_ceil (b + c * l) c))
    (single : ltb 0 l ≡ false → (l ≡ 0) × (c ≡ 1) × (b ≤ k_cb)) where
  abbrev size : ℕ
  size = div_ceil (b + c * l) c

  abbrev payload : ℕ
  payload = if ltb 0 l then size - 24 else size

  -- The sizes of the blocks, whether there are several or one.
  record Sizes : Type 0 where
    fits : size ≤ k_cb
    no_growth : b ≤ k_cb → size ≤ b
    covers : b ≤ c * payload
    slack : c * payload < b + c

  div_ceil-one : (b : ℕ) → div_ceil (b + 1 * 0) 1 ≡ b
  div_ceil-one b = omega (arith, div_ceil_covers (b + 1 * 0) 1 (omega arith))

  sizes : Sizes
  sizes = elim (Bool-cases (ltb 0 l)) [
    | inl e ↦
        let s = (split e).1 in
        let plain : payload ≡ size - 24 = ap (λ (t : Bool). if t then size - 24 else size) e in
        record {
          fits = s.fits;
          no_growth = λ h. absurd (omega (arith, s.large_block));
          covers = rw plain s.covers;
          slack = rw plain s.slack;
        }
    | inr e ↦
        let (none_left, one, fits) = single e in
        let whole : size ≡ b =
          ap₂ (λ (x y : ℕ). div_ceil (b + x * y) x) one none_left ∙ div_ceil-one b in
        let plain : payload ≡ b = ap (λ (t : Bool). if t then size - 24 else size) e ∙ whole in
        record {
          fits = omega (arith, whole);
          no_growth = λ h. omega (arith, whole);
          covers = rw (plain, one) (omega arith);
          slack = rw (plain, one) (omega arith);
        }
  ]

-- Everything that follows from the block count.
sized_params_total :
    (bg : BaseGraph) (a c l : ℕ)
    → 0 < c
    → (ltb 0 l ≡ true → (l ≡ 24) × IsSplit (max_block bg) (a + 24) c (div_ceil (a + 24 + c * l) c))
    → (ltb 0 l ≡ false → (l ≡ 0) × (c ≡ 1) × (a + 24 ≤ max_block bg))
    → (p : SegmentationParams) × (sized_params bg (a + 24) c l ≡ ok p)
      × (p.bg ≡ bg)
      × IsSegmentation a p
unfolding sized_params payload_per_cb
sized_params_total bg a c l pos split single =
    let s = sizes (max_block bg) (a + 24) c l split single in
    let k_prime = div_ceil (a + 24 + c * l) c in
    let (z, found, first) =
      min_valid_z_total k_prime (lifting_selection_k_b bg (a + 24))
        (k_prime-le bg (a + 24) k_prime s.fits s.no_growth) in
    let roomy : k_prime ≤ systematic_columns bg * z =
      le_trans (IsFirst-fits first) (mul-le-mul_right z (k_b-le-columns bg (a + 24))) in
    (
      record {
        bg = bg;
        z = z;
        c = c;
        b = a + 24;
        k_prime = k_prime;
        k = systematic_columns bg * z;
        n = coded_columns bg * z;
        n_filler = systematic_columns bg * z - k_prime;
        has_cb_crc = ltb 0 l;
        k_b = systematic_columns bg;
      },
      rw found,
      refl,
      record {
        with_crc = refl;
        blocks = pos;
        crc_iff_split = (λ h. (split h).1.many, λ h. (single h).1);
        large_if_split = λ h. (split h).1.large_block;
        fits_block = s.fits;
        crc_room = λ h. (split h).1.crc_room;
        covers = s.covers;
        slack = s.slack;
        smallest = first;
        systematic = refl;
        filler = omega arith;
        coded = refl;
      },
    )

room : (bg : BaseGraph) → 24 < max_block bg - 24
room bg1 = omega arith
room bg2 = omega arith

segmentation_for_total :
    (bg : BaseGraph) (a : ℕ)
    → (p : SegmentationParams) × (segmentation_for bg a ≡ ok p) × (p.bg ≡ bg) × IsSegmentation a p
unfolding segmentation_for block_count
segmentation_for_total bg a = elim (dec_le (a + 24) (max_block bg)) [
  | yes one ↦
      let e : leb (a + 24) (max_block bg) ≡ true = ground arith in
      rw e (sized_params_total bg a 1 0 (omega arith) (λ h. cc) (λ h. (refl, refl, one)))
  | no many ↦
      let e : leb (a + 24) (max_block bg) ≡ false = ground arith in
      let c = div_ceil (a + 24) (max_block bg - 24) in
      let (enough, tight) = div_ceil_covers (a + 24) (max_block bg - 24) (omega (arith, room bg)) in
      let pos : 0 < c = grind arith in
      let (covered, close) = div_ceil_covers (a + 24 + c * 24) c pos in
      rw e (
        sized_params_total bg a c 24 pos
          (λ h. (
            refl,
            IsSplit-of_bounds (max_block bg) (a + 24) c _ (omega (arith, room bg)) (omega arith)
                enough covered close,
          ))
          (λ h. cc))
]

module _ {Rate : Type 0} (le_067 le_025 : Rate → Bool) where
  -- Segmentation succeeds on every transport block size from 1 to the maximum, at every rate, with
  -- the selected base graph and parameters that are consistent: they cover the block with least
  -- slack, fit the largest code block and take the first lifting size that is large enough.
  pub compute_segmentation_total :
      (a : ℕ) (rate : Rate)
      → 0 < a
      → a ≤ max_tb_size_bits
      → (p : SegmentationParams) × (compute_segmentation le_067 le_025 a rate ≡ ok p)
        × (p.bg ≡ select_base_graph le_067 le_025 a rate)
        × IsSegmentation a p
  unfolding compute_segmentation
  compute_segmentation_total a rate pos small =
      let (p, e, same, facts) = segmentation_for_total (select_base_graph le_067 le_025 a rate) a in
      (p, ground (arith, e), same, facts)
