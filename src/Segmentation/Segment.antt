-- ===== src/Segmentation/Segment.antt =====
-- `segment` loses nothing: the payloads of the code blocks, in order, are the transport block.
use syndrome.Prelude.{
  ℕ, zero, suc, ◌+◌, ◌-◌, ◌*◌, ◌≤◌, ◌<◌, min, Bool, true, false, List, [], ◌++◌, map, length, take,
  drop, replicate, tabulate, tabulate_from, length-tabulate, length-append, length-take,
  length-drop, length-replicate, take_add, take_short, take-append_le, take_append, drop_append,
  drop_add, append-nil, concat, All, ok, fail_if, ◌>>◌, buffer_too_small, ltb, if◌then◌else◌,
  Bool-cases, inl, inr, dec_le, ◌≡◌, refl, sym, ap, ap₂, ◌∙◌, arith,
}
use syndrome.Crc.{crc24_b, new, check, attach}
use syndrome.Crc.Codeword.{length-attach, take-attach, check-attach}
use syndrome.Segmentation.{
  SegmentationParams, resize, payload_per_cb, block_payload, code_block, segment,
}
use syndrome.Segmentation.Params.{IsSegmentation}

length-resize : (n v : ℕ) (xs : List ℕ) → length (resize n v xs) ≡ n
unfolding resize
length-resize n v xs = omega (
  arith,
  length-append (take n xs) (replicate (n - length xs) v),
  length-take n xs,
  length-replicate (n - length xs) v,
)

slice_lem :
    (s e : ℕ) (xs : List ℕ)
    → (if ltb s e then take (e - s) (drop s xs) else []) ≡ take (e - s) (drop s xs)
slice_lem s e xs = elim (dec_le e s) [
  | yes h ↦
      ap (λ (t : Bool). if t then take (e - s) (drop s xs) else []) {x = ltb s e} {y = false}
        (ground arith)
      ∙ ap (λ (n : ℕ). take n (drop s xs)) {x = 0} {y = e - s} (omega arith)
  | no h ↦
      ap (λ (t : Bool). if t then take (e - s) (drop s xs) else []) {x = ltb s e} {y = true}
        (ground arith)
]

resize_exact : (v : ℕ) (xs : List ℕ) → resize (length xs) v xs ≡ xs
unfolding resize
resize_exact v xs =
    ap₂ ◌++◌ (take_short (length xs) xs (omega arith))
      (ap (λ (n : ℕ). replicate n v) {x = length xs - length xs} {y = 0} (omega arith))
    ∙ append-nil xs

take-resize : (n v : ℕ) (xs : List ℕ) → length xs ≤ n → take (length xs) (resize n v xs) ≡ xs
unfolding resize
take-resize n v xs h =
    ap (λ (t : List ℕ). take (length xs) (t ++ replicate (n - length xs) v)) (take_short n xs h)
    ∙ take_append xs (replicate (n - length xs) v)

module _ (tb : List ℕ) (p : SegmentationParams) where
  length-block_payload : (ci : ℕ) → length (block_payload tb p ci) ≡ payload_per_cb p
  unfolding block_payload
  length-block_payload ci = length-resize (payload_per_cb p) 0 _

  with_crc :
      (ci : ℕ)
      → p.has_cb_crc ≡ true
      → code_block tb p ci ≡ attach (new crc24_b) (block_payload tb p ci)
  unfolding code_block
  with_crc ci e =
      ap
        (λ (t : Bool).
          if t then attach (new crc24_b) (block_payload tb p ci) else block_payload tb p ci)
        e

  without_crc : (ci : ℕ) → p.has_cb_crc ≡ false → code_block tb p ci ≡ block_payload tb p ci
  unfolding code_block
  without_crc ci e =
      ap
        (λ (t : Bool).
          if t then attach (new crc24_b) (block_payload tb p ci) else block_payload tb p ci)
        e

  payload_with_crc : p.has_cb_crc ≡ true → payload_per_cb p ≡ p.k_prime - 24
  unfolding payload_per_cb
  payload_with_crc e = ap (λ (t : Bool). if t then p.k_prime - 24 else p.k_prime) e

  payload_without_crc : p.has_cb_crc ≡ false → payload_per_cb p ≡ p.k_prime
  unfolding payload_per_cb
  payload_without_crc e = ap (λ (t : Bool). if t then p.k_prime - 24 else p.k_prime) e

  -- Each block is its payload, followed by its parity where there is one.
  take-code_block : (ci : ℕ) → take (payload_per_cb p) (code_block tb p ci) ≡ block_payload tb p ci
  take-code_block ci = elim (Bool-cases p.has_cb_crc) [
    | inl e ↦
        ap₂ take (sym (length-block_payload ci)) (with_crc ci e)
        ∙ take-attach crc24_b (block_payload tb p ci)
    | inr e ↦
        ap (take (payload_per_cb p)) (without_crc ci e)
        ∙ take_short (payload_per_cb p) (block_payload tb p ci)
            (omega (arith, length-block_payload ci))
  ]

  abbrev pub Sound : List ℕ → Type 0
  Sound block =
      (length block ≡ p.k_prime) × (p.has_cb_crc ≡ true → check (new crc24_b) block ≡ true)

  code_block-Sound : (ci : ℕ) → (p.has_cb_crc ≡ true → 24 < p.k_prime) → Sound (code_block tb p ci)
  code_block-Sound ci room = elim (Bool-cases p.has_cb_crc) [
    | inl e ↦ (
      omega (
        arith,
        ap length (with_crc ci e),
        length-attach crc24_b (block_payload tb p ci),
        length-block_payload ci,
        payload_with_crc e,
        room e,
      ),
      λ _. ap (check (new crc24_b)) (with_crc ci e) ∙ check-attach crc24_b (block_payload tb p ci),
    )
    | inr e ↦
        (ap length (without_crc ci e) ∙ length-block_payload ci ∙ payload_without_crc e, λ h. cc)
  ]

  module _ (long : p.b ≤ length tb) (ci : ℕ) where
    abbrev start : ℕ
    start = ci * payload_per_cb p

    block_payload_lem :
        (count : ℕ)
        → count ≡ min (start + payload_per_cb p) p.b - start
        → block_payload tb p ci ≡ resize (payload_per_cb p) 0 (take count (drop start tb))
    unfolding block_payload
    block_payload_lem count e = ap (resize (payload_per_cb p) 0) (
        slice_lem start (min (start + payload_per_cb p) p.b) tb
        ∙ ap (λ (n : ℕ). take n (drop start tb)) (sym e))

    -- A block that ends before the end of the transport block is a slice of it.
    block_payload_whole :
        start + payload_per_cb p ≤ p.b
        → block_payload tb p ci ≡ take (payload_per_cb p) (drop start tb)
    block_payload_whole h =
        block_payload_lem (payload_per_cb p) (omega arith)
        ∙ ap (λ (n : ℕ). resize n 0 (take (payload_per_cb p) (drop start tb))) (sym full)
        ∙ resize_exact 0 (take (payload_per_cb p) (drop start tb))
      where
        full : length (take (payload_per_cb p) (drop start tb)) ≡ payload_per_cb p
        full = omega (arith, length-take (payload_per_cb p) (drop start tb), length-drop start tb)

    -- The last block begins with what is left of the transport block.
    take-block_payload_last :
        start ≤ p.b
        → p.b < start + payload_per_cb p
        → take (p.b - start) (block_payload tb p ci) ≡ take (p.b - start) (drop start tb)
    take-block_payload_last h k =
        ap (take (p.b - start)) (block_payload_lem (p.b - start) (omega arith))
        ∙ ap (λ (n : ℕ). take n (resize (payload_per_cb p) 0 rest)) (sym left)
        ∙ take-resize (payload_per_cb p) 0 rest (omega (arith, left))
      where
        rest : List ℕ
        rest = take (p.b - start) (drop start tb)

        left : length rest ≡ p.b - start
        left = omega (arith, length-take (p.b - start) (drop start tb), length-drop start tb)

  -- The payloads of the `n` blocks from number `ci` on.
  abbrev payloads : ℕ → ℕ → List ℕ
  payloads ci n = concat (map (take (payload_per_cb p)) (tabulate_from ci n (code_block tb p)))

  payloads-suc : (ci n : ℕ) → payloads ci (suc n) ≡ block_payload tb p ci ++ payloads (ci + 1) n
  unfolding tabulate_from
  payloads-suc ci n = ap (λ (t : List ℕ). t ++ payloads (ci + 1) n) (take-code_block ci)

  take-none : (n : ℕ) (xs ys : List ℕ) → n ≡ 0 → take n xs ≡ take n ys
  take-none n xs ys e = ap (λ (k : ℕ). take k xs) e ∙ sym (ap (λ (k : ℕ). take k ys) e)

  -- A whole block in front.
  take-payloads-suc :
      (ci n m : ℕ)
      → p.b ≤ length tb
      → ci * payload_per_cb p + payload_per_cb p ≤ p.b
      → take m (payloads (ci + 1) n) ≡ take m (drop ((ci + 1) * payload_per_cb p) tb)
      → take (payload_per_cb p + m) (payloads ci (suc n))
        ≡ take (payload_per_cb p + m) (drop (ci * payload_per_cb p) tb)
  take-payloads-suc ci n m long h rest =
      ap (take (payload_per_cb p + m)) (payloads-suc ci n)
      ∙ take_add (payload_per_cb p) m (block_payload tb p ci ++ payloads (ci + 1) n)
      ∙ ap₂ ◌++◌
          (ap (λ (k : ℕ). take k (block_payload tb p ci ++ payloads (ci + 1) n))
              (sym (length-block_payload ci))
            ∙ take_append (block_payload tb p ci) (payloads (ci + 1) n)
            ∙ block_payload_whole long ci h)
          (ap (λ (k : ℕ). take m (drop k (block_payload tb p ci ++ payloads (ci + 1) n)))
              (sym (length-block_payload ci))
            ∙ ap (take m) (drop_append (block_payload tb p ci) (payloads (ci + 1) n))
            ∙ rest
            ∙ ap (λ (k : ℕ). take m (drop k tb)) next
            ∙ ap (take m) (sym (drop_add (ci * payload_per_cb p) (payload_per_cb p) tb)))
      ∙ sym (take_add (payload_per_cb p) m (drop (ci * payload_per_cb p) tb))
    where
      next : (ci + 1) * payload_per_cb p ≡ ci * payload_per_cb p + payload_per_cb p
      next = omega arith

  concat-payloads :
      (ci n : ℕ)
      → p.b ≤ length tb
      → p.b ≤ (ci + n) * payload_per_cb p
      → take (p.b - ci * payload_per_cb p) (payloads ci n)
        ≡ take (p.b - ci * payload_per_cb p) (drop (ci * payload_per_cb p) tb)
  concat-payloads ci zero long h = take-none _ _ _ (omega arith)
  concat-payloads ci (suc n) long h = elim (dec_le (ci * payload_per_cb p + payload_per_cb p) p.b) [
    | yes whole ↦
        let m = p.b - (ci + 1) * payload_per_cb p in
        let split : p.b - ci * payload_per_cb p ≡ payload_per_cb p + m = omega arith in
        let rest = concat-payloads (ci + 1) n long (omega arith) in
        ap (λ (k : ℕ). take k (payloads ci (suc n))) split
        ∙ take-payloads-suc ci n m long whole rest
        ∙ ap (λ (k : ℕ). take k (drop (ci * payload_per_cb p) tb)) (sym split)
    | no short ↦ elim (dec_le (ci * payload_per_cb p) p.b) [
      | yes last ↦
          ap (take (p.b - ci * payload_per_cb p)) (payloads-suc ci n)
          ∙ take-append_le (p.b - ci * payload_per_cb p) (block_payload tb p ci)
              (payloads (ci + 1) n) (omega (arith, length-block_payload ci))
          ∙ take-block_payload_last long ci last (omega arith)
      | no past ↦ take-none _ _ _ (omega arith)
    ]
  ]

  from_start :
      (z : ℕ) (xs : List ℕ)
      → z ≡ 0
      → take (p.b - z) xs ≡ take (p.b - z) (drop z tb)
      → take p.b xs ≡ take p.b tb
  from_start z xs e h =
      ap (λ (k : ℕ). take k xs) {x = p.b} {y = p.b - z} (omega arith)
      ∙ h
      ∙ ap₂ (λ (j k : ℕ). take j (drop k tb)) {x = p.b - z} {y = p.b} (omega arith) e

  blocks-Sound :
      (ci n : ℕ)
      → (p.has_cb_crc ≡ true → 24 < p.k_prime)
      → All Sound (tabulate_from ci n (code_block tb p))
  unfolding tabulate_from
  blocks-Sound ci zero room = tt
  blocks-Sound ci (suc n) room = (code_block-Sound ci room, blocks-Sound (ci + 1) n room)

  -- With the parameters of a segmentation and a buffer that holds the transport block with its
  -- CRC, `segment` makes `c` code blocks of `k_prime` bits, each with a valid CRC-24B if there are
  -- several, whose payloads in order begin with the transport block.
  pub segment_lem :
      (a : ℕ)
      → IsSegmentation a p
      → p.b ≤ length tb
      → (blocks : List (List ℕ)) × (segment tb p ≡ ok blocks)
        × (length blocks ≡ p.c)
        × All Sound blocks
        × (take p.b (concat (map (take (payload_per_cb p)) blocks)) ≡ take p.b tb)
  unfolding segment tabulate
  segment_lem a facts long = (
    tabulate p.c (code_block tb p),
    ground arith,
    length-tabulate p.c (code_block tb p),
    blocks-Sound 0 p.c facts.crc_room,
    from_start (0 * payload_per_cb p) _ (omega arith)
        (concat-payloads 0 p.c long (omega (arith, facts.covers))),
  )

-- `segment` makes as many blocks as the parameters say.
pub segment-length :
    (tb : List ℕ) (p : SegmentationParams) (blocks : List (List ℕ))
    → segment tb p ≡ ok blocks
    → length blocks ≡ p.c
unfolding segment
segment-length tb p blocks h = go (ltb (length tb) p.b) h
  where
    go :
        (short : Bool)
        → (fail_if short (buffer_too_small p.b (length tb)) >> ok (tabulate p.c (code_block tb p)))
          ≡ ok blocks
        → length blocks ≡ p.c
    go true h = cc
    go false h = ground (arith, length-tabulate p.c (code_block tb p))

pub payload_per_cb_lem :
    (p : SegmentationParams)
    → payload_per_cb p ≡ (if p.has_cb_crc then p.k_prime - 24 else p.k_prime)
unfolding payload_per_cb
payload_per_cb_lem p = refl
