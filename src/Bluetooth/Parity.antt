-- ===== src/Bluetooth/Parity.antt =====
-- The FEC 2/3 parity is linear, so the syndrome of a block depends on its errors alone.
use syndrome.Prelude.{
  ℕ, ◌-◌, ◌/◌, ◌^◌, ◌≤◌, ◌<◌, true, List, [], ◌∷◌, ◌++◌, foldl, bit_xor, ltb, ltb→lt, ◌==◌, ==_iff,
  weight, all_words, all_words-true, tabulate, tabulate_from, All, all_below, all_below-true,
  length, ◌≡◌, refl, ap, ◌∙◌, arith, bit_and,
}
use syndrome.Bits.RoundTrip.{IsBit}
use syndrome.Word.Mask.{and-one}
use syndrome.Bluetooth.{parity_step, fec23_parity, encode_block, pack_parity}

-- Bit by bit.
abbrev pub xors : List ℕ → List ℕ → List ℕ
xors [] ys = []
xors (x ∷ xs) [] = []
xors (x ∷ xs) (y ∷ ys) = bit_xor x y ∷ xors xs ys

step_table :
    all_below 32 (λ r. all_below 32 (λ r'. all_below 2 (λ b. all_below 2 (λ b'.
      parity_step (bit_xor r r') (bit_xor b b') == bit_xor (parity_step r b) (parity_step r' b')))))
    ≡ true
unfolding all_below parity_step
step_table = refl

step_bound : all_below 32 (λ r. all_below 2 (λ b. ltb (parity_step r b) 32)) ≡ true
unfolding all_below parity_step
step_bound = refl

parity_step-xor :
    (r r' b b' : ℕ)
    → r < 32
    → r' < 32
    → b < 2
    → b' < 2
    → parity_step (bit_xor r r') (bit_xor b b') ≡ bit_xor (parity_step r b) (parity_step r' b')
parity_step-xor r r' b b' p p' q q' = (==_iff _ _).0 (
    all_below-true 2 _ b'
      (all_below-true 2 _ b (all_below-true 32 _ r' (all_below-true 32 _ r step_table p) p') q) q')

parity_step-lt : (r b : ℕ) → r < 32 → b < 2 → parity_step r b < 32
parity_step-lt r b p q = ltb→lt _ 32 (all_below-true 2 _ b (all_below-true 32 _ r step_bound p) q)

fold-xors :
    (r r' : ℕ) (xs ys : List ℕ)
    → r < 32
    → r' < 32
    → length xs ≡ length ys
    → All IsBit xs
    → All IsBit ys
    → foldl parity_step (bit_xor r r') (xors xs ys)
      ≡ bit_xor (foldl parity_step r xs) (foldl parity_step r' ys)
fold-xors r r' [] [] p p' e c c' = refl
fold-xors r r' [] (y ∷ ys) p p' e c c' = absurd (omega arith)
fold-xors r r' (x ∷ xs) [] p p' e c c' = absurd (omega arith)
fold-xors r r' (x ∷ xs) (y ∷ ys) p p' e c c' =
    ap (λ (t : ℕ). foldl parity_step t (xors xs ys)) (parity_step-xor r r' x y p p' c.0 c'.0)
    ∙ fold-xors (parity_step r x) (parity_step r' y) xs ys (parity_step-lt r x p c.0)
        (parity_step-lt r' y p' c'.0) (omega arith) c.1 c'.1

pub fec23_parity-xors :
    (xs ys : List ℕ)
    → length xs ≡ length ys
    → All IsBit xs
    → All IsBit ys
    → fec23_parity (xors xs ys) ≡ bit_xor (fec23_parity xs) (fec23_parity ys)
unfolding fec23_parity
fec23_parity-xors xs ys e c c' = fold-xors 0 0 xs ys (omega arith) (omega arith) e c c'

fold-lt : (r : ℕ) (xs : List ℕ) → r < 32 → All IsBit xs → foldl parity_step r xs < 32
fold-lt r [] p c = p
fold-lt r (x ∷ xs) p c = fold-lt (parity_step r x) xs (parity_step-lt r x p c.0) c.1

pub fec23_parity-lt : (xs : List ℕ) → All IsBit xs → fec23_parity xs < 32
unfolding fec23_parity
fec23_parity-lt xs c = fold-lt 0 xs (omega arith) c

pack_table :
    all_words 5 5
      (λ a. all_words 5 5 (λ b. pack_parity (xors a b) == bit_xor (pack_parity a) (pack_parity b)))
    ≡ true
unfolding all_words pack_parity
pack_table = refl

weight-le : (e : List ℕ) → All IsBit e → weight e ≤ length e
weight-le [] c = omega arith
weight-le (b ∷ e) c = omega (arith, weight-le e c.1, c.0)

pub pack_parity-xors :
    (a b : List ℕ)
    → length a ≡ 5
    → length b ≡ 5
    → All IsBit a
    → All IsBit b
    → pack_parity (xors a b) ≡ bit_xor (pack_parity a) (pack_parity b)
pack_parity-xors a b ea eb ca cb = (==_iff _ _).0 (
    all_words-true 5 5 _ b
      (all_words-true 5 5 _ a pack_table ea ca (omega (arith, weight-le a ca, ea))) eb cb
      (omega (arith, weight-le b cb, eb)))

-- The five parity bits that the encoder appends.
abbrev pub parity_slots : ℕ → List ℕ
unfolding tabulate tabulate_from
parity_slots parity = tabulate 5 (λ i. bit_and (parity / 2 ^ (4 - i)) 1)

slots_table : all_below 32 (λ p. pack_parity (parity_slots p) == p) ≡ true
unfolding all_below pack_parity parity_slots tabulate tabulate_from
slots_table = refl

pub pack-slots : (p : ℕ) → p < 32 → pack_parity (parity_slots p) ≡ p
pack-slots p h = (==_iff _ p).0 (all_below-true 32 _ p slots_table h)

pub parity_slots_lem : (p : ℕ) → (length (parity_slots p) ≡ 5) × All IsBit (parity_slots p)
unfolding tabulate tabulate_from parity_slots
parity_slots_lem p =
    (refl, (bit (p / 16), (bit (p / 8), (bit (p / 4), (bit (p / 2), (bit (p / 1), tt))))))
  where
    bit : (a : ℕ) → bit_and a 1 < 2
    bit a = omega (arith, and-one a)

pub encode_block_lem :
    (info : List ℕ) → encode_block info ≡ info ++ parity_slots (fec23_parity info)
unfolding encode_block parity_slots
encode_block_lem info = refl
