-- ===== src/Bluetooth/Repetition.antt =====
-- The FEC 1/3 code corrects one error in each triplet.
use syndrome.Prelude.{
  ℕ, ◌*◌, ◌/◌, ◌%◌, ◌≤◌, Bool, true, false, List, [], ◌∷◌, map, leb, ◌==◌, ==_iff, le→leb,
  if◌then◌else◌, distance, EachWithin, All, all_below, all_below-true, length, length-map,
  replicate, chunks_exact, chunks_exact-concat, chunks_exact-sizes, chunks_exact-All, concat,
  length-concat, ok, ◌≡◌, refl, sym, subst, ap, ap₂, ◌∙◌, arith,
}
use syndrome.Bits.RoundTrip.{IsBit, any_above_one_iff}
use syndrome.Bluetooth.{majority, fec13_encode, fec13_decode}

majority_table :
    all_below 2 (λ b. all_below 2 (λ x. all_below 2 (λ y. all_below 2 (λ z.
      if leb (distance (x ∷ y ∷ z ∷ []) (b ∷ b ∷ b ∷ [])) 1
      then majority (x ∷ y ∷ z ∷ []) == b
      else true))))
    ≡ true
unfolding all_below majority
majority_table = refl

majority_lem :
    (b : ℕ) (t : List ℕ)
    → IsBit b
    → length t ≡ 3
    → All IsBit t
    → distance t (replicate 3 b) ≤ 1
    → majority t ≡ b
majority_lem b (x ∷ y ∷ z ∷ []) hb e p near =
    let row =
      all_below-true 2 _ z
        (all_below-true 2 _ y (all_below-true 2 _ x (all_below-true 2 _ b majority_table hb) p.0)
          p.1.0)
        p.1.1.0 in
    (==_iff (majority (x ∷ y ∷ z ∷ [])) b).0
      (picked _ (le→leb (distance (x ∷ y ∷ z ∷ []) (b ∷ b ∷ b ∷ [])) 1 near) row)
  where
    picked : (c : Bool) {d : Bool} → c ≡ true → (if c then d else true) ≡ true → d ≡ true
    picked true h k = k
    picked false h k = cc
majority_lem b _ hb e p near = absurd (omega arith)

majorities :
    (bits : List ℕ) (ts : List (List ℕ))
    → All IsBit bits
    → All (λ t. length t ≡ 3) ts
    → All (All IsBit) ts
    → EachWithin 1 ts (map (replicate 3) bits)
    → map majority ts ≡ bits
majorities [] [] hb e p near = refl
majorities [] (t ∷ ts) hb e p near = absurd near
majorities (b ∷ bits) [] hb e p near = absurd near
majorities (b ∷ bits) (t ∷ ts) hb e p near =
    ap₂ ◌∷◌ (majority_lem b t hb.0 e.0 p.0 near.0) (majorities bits ts hb.1 e.1 p.1 near.1)

triples-sizes : (bits : List ℕ) → All (λ t. length t ≡ 3) (map (replicate 3) bits)
triples-sizes [] = tt
triples-sizes (b ∷ bits) = (refl, triples-sizes bits)

length-triples : (bits : List ℕ) → length (concat (map (replicate 3) bits)) ≡ length bits * 3
length-triples bits =
    length-concat 3 (map (replicate 3) bits) (triples-sizes bits)
    ∙ ap (λ (n : ℕ). n * 3) (length-map bits (replicate 3))

encoded :
    (bits out coded : List ℕ)
    → fec13_encode bits out ≡ ok coded
    → All IsBit bits × (concat (map (replicate 3) bits) ≡ coded) × (length out ≡ length bits * 3)
unfolding fec13_encode
encoded bits out coded h =
    let clean = any_above_one_iff bits in (clean.0 (ground arith), ground arith, ground arith)

-- From bits as many as `fec13_encode` returned, with at most one wrong in each triplet,
-- `fec13_decode` into a buffer of the right size returns the bits that were encoded.
pub fec13_decode-fec13_encode :
    (bits out coded received decoded : List ℕ)
    → fec13_encode bits out ≡ ok coded
    → All IsBit received
    → length received ≡ length coded
    → EachWithin 1 (chunks_exact 3 received) (chunks_exact 3 coded)
    → length decoded ≡ length bits
    → fec13_decode received decoded ≡ ok bits
unfolding fec13_decode
fec13_decode-fec13_encode bits out coded received decoded h clean same_length near sized =
    let (bits_clean, e, _) = encoded bits out coded h in
    let size : length received ≡ length bits * 3 =
      same_length ∙ ap length (sym e) ∙ length-triples bits in
    let whole : length received % 3 ≡ 0 = omega (arith, size) in
    let third : length received / 3 ≡ length bits = omega (arith, size) in
    let triples =
      ap (chunks_exact 3) (sym e)
      ∙ chunks_exact-concat 3 (map (replicate 3) bits) (omega arith) (triples-sizes bits) in
    let decided =
      majorities bits (chunks_exact 3 received) bits_clean (chunks_exact-sizes 3 received)
        (chunks_exact-All IsBit 3 received clean)
        (subst (EachWithin 1 (chunks_exact 3 received)) triples near) in
    let no_other = (any_above_one_iff received).1 clean in
    ground (arith, whole, third, decided, no_other, sized)
