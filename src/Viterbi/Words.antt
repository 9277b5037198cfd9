-- ===== src/Viterbi/Words.antt =====
-- The words that src/viterbi.rs encodes and the paths through its trellis that they take.
use syndrome.Prelude.{
  ℕ, zero, suc, ◌+◌, ◌-◌, ◌*◌, ◌%◌, ◌<◌, List, [], ◌∷◌, ◌++◌, All, All-append, All-drop, length,
  length-append, length-replicate, append-nil, get_or, drop, length-drop, replicate, distance, ok,
  ◌≡◌, refl, sym, ap, ◌∙◌, arith,
}
use syndrome.Viterbi.{
  max_constraint_length, TrellisTable, ViterbiDecoder, next, build, check_k, with_generators,
  encode_from, encode,
}
use syndrome.Viterbi.Trellis.{IsTrellis, build-IsTrellis}
use syndrome.Viterbi.Paths.{
  rev_onto, received, state_of, zeros_of_low, low_of_zeros, cost_of, distance-encode_from,
}

-- A decoder with a register of `m` bits, whatever its traceback table holds.
pub record IsDecoder (m : ℕ) (dec : ViterbiDecoder) : Type 0 where
  pub constraint : dec.constraint_length ≡ m + 1
  pub trellis_facts : IsTrellis m dec.trellis

pub with_generators-IsDecoder :
    (m g0 g1 : ℕ)
    → m < max_constraint_length
    → (dec : ViterbiDecoder) × (with_generators (m + 1) g0 g1 ≡ ok dec)
      × IsDecoder m dec
      × (dec.trellis ≡ build (m + 1) g0 g1)
unfolding with_generators check_k
with_generators-IsDecoder m g0 g1 small = (
  record { constraint_length = m + 1; trellis = build (m + 1) g0 g1; traceback = [] },
  ground (arith, small),
  record { constraint = refl; trellis_facts = build-IsTrellis m g0 g1 small },
  refl,
)

rev_onto-append : (xs ys zs : List ℕ) → rev_onto (xs ++ ys) zs ≡ rev_onto ys (rev_onto xs zs)
rev_onto-append [] ys zs = refl
rev_onto-append (x ∷ xs) ys zs = rev_onto-append xs ys (x ∷ zs)

rev_onto-rev_onto : (xs ys zs : List ℕ) → rev_onto (rev_onto xs ys) zs ≡ rev_onto ys (xs ++ zs)
rev_onto-rev_onto [] ys zs = refl
rev_onto-rev_onto (x ∷ xs) ys zs = rev_onto-rev_onto xs (x ∷ ys) zs

replicate_slide : (d v : ℕ) (p : List ℕ) → replicate d v ++ v ∷ p ≡ v ∷ (replicate d v ++ p)
replicate_slide zero v p = refl
replicate_slide (suc d) v p = ap (◌∷◌ v) (replicate_slide d v p)

rev_onto-replicate : (d v : ℕ) (p : List ℕ) → rev_onto (replicate d v) p ≡ replicate d v ++ p
rev_onto-replicate zero v p = refl
rev_onto-replicate (suc d) v p = rev_onto-replicate d v (v ∷ p) ∙ replicate_slide d v p

length-rev_onto : (xs ys : List ℕ) → length (rev_onto xs ys) ≡ length xs + length ys
length-rev_onto [] ys = omega arith
length-rev_onto (x ∷ xs) ys = omega (arith, length-rev_onto xs (x ∷ ys))

rev_onto-bits :
    (xs ys : List ℕ) → All (λ b. b < 2) xs → All (λ b. b < 2) ys → All (λ b. b < 2) (rev_onto xs ys)
rev_onto-bits [] ys ps qs = qs
rev_onto-bits (x ∷ xs) ys ps qs = rev_onto-bits xs (x ∷ ys) ps.1 (ps.0, qs)

pub All-zeros : (d : ℕ) → All (λ b. b < 2) (replicate d 0)
All-zeros zero = tt
All-zeros (suc d) = (omega arith, All-zeros d)

pub All-bits : (xs : List ℕ) → All (λ b. b < 2) (received xs)
All-bits [] = tt
All-bits (x ∷ xs) = (omega arith, All-bits xs)

encode_from-bits :
    (trellis : TrellisTable) (s : ℕ) (xs tail : List ℕ)
    → encode_from trellis s (xs ++ tail) ≡ encode_from trellis s (received xs ++ tail)
unfolding encode_from
encode_from-bits trellis s [] tail = refl
encode_from-bits trellis s (x ∷ xs) tail =
    ap
      (λ (c : ℕ).
        get_or trellis.out0 (s * 2 + c) 0
        ∷ get_or trellis.out1 (s * 2 + c) 0
        ∷ encode_from trellis (next trellis s c) (xs ++ tail))
      {x = x % 2} {y = x % 2 % 2} (omega arith)
    ∙ ap
        (λ l.
          get_or trellis.out0 (s * 2 + x % 2 % 2) 0 ∷ get_or trellis.out1 (s * 2 + x % 2 % 2) 0 ∷ l)
        (encode_from-bits trellis (next trellis s (x % 2 % 2)) xs tail)

-- The path of a word of information bits.
abbrev pub path : ℕ → List ℕ → List ℕ
path m xs = replicate m 0 ++ rev_onto xs []

module _ (m : ℕ) (dec : ViterbiDecoder) (facts : IsDecoder m dec) (coded : List ℕ) where
  pub cost_of-path :
      (xs : List ℕ)
      → All (λ b. b < 2) xs
      → length coded ≡ 2 * (length xs + m)
      → distance (encode dec xs) (received coded) ≡ cost_of dec.trellis coded (path m xs)
  unfolding encode
  cost_of-path xs bits size =
      ap (λ (d : ℕ). distance (encode_from dec.trellis 0 (xs ++ replicate d 0)) (received coded))
        {x = dec.constraint_length - 1} {y = m} (omega (arith, facts.constraint))
      ∙ omega (
        arith,
        distance-encode_from dec.trellis coded m facts.trellis_facts (xs ++ replicate m 0) []
            (All-append (λ b. b < 2) xs (replicate m 0) bits (All-zeros m)) tt
            (omega (arith, size, length-append xs (replicate m 0), length-replicate {A = ℕ} m 0)),
        ap (cost_of dec.trellis coded)
            (rev_onto-append xs (replicate m 0) [] ∙ rev_onto-replicate m 0 (rev_onto xs [])),
      )

  pub sent_as_bits : (sent : List ℕ) → encode dec sent ≡ encode dec (received sent)
  unfolding encode
  sent_as_bits sent = encode_from-bits dec.trellis 0 sent (replicate (dec.constraint_length - 1) 0)

  -- Every path of a word ends in state 0.
  pub path-ends : (xs : List ℕ) → All (λ b. b < 2) xs → state_of dec.trellis (path m xs) ≡ 0
  path-ends xs bits = omega (
    arith,
    low_of_zeros m dec.trellis facts.trellis_facts m 0 (rev_onto xs []) (omega arith)
        (rev_onto-bits xs [] bits tt),
  )

  pub path-bits : (xs : List ℕ) → All (λ b. b < 2) xs → All (λ b. b < 2) (path m xs)
  path-bits xs bits =
      All-append (λ b. b < 2) (replicate m 0) (rev_onto xs []) (All-zeros m)
        (rev_onto-bits xs [] bits tt)

  pub length-path : (xs : List ℕ) → length (path m xs) ≡ length xs + m
  length-path xs = omega (
    arith,
    length-append (replicate m 0) (rev_onto xs []),
    length-replicate {A = ℕ} m 0,
    length-rev_onto xs [],
  )

  -- A path that ends in state 0 is the path of the word that the traceback reads off.
  pub from_zero :
      (n : ℕ) (p : List ℕ)
      → length p ≡ n + m
      → All (λ b. b < 2) p
      → state_of dec.trellis p ≡ 0
      → (path m (rev_onto (drop m p) []) ≡ p)
        × (length (rev_onto (drop m p) []) ≡ n)
        × All (λ b. b < 2) (rev_onto (drop m p) [])
  from_zero n p long bits at = (
    ap (λ l. replicate m 0 ++ l) (rev_onto-rev_onto (drop m p) [] [] ∙ append-nil (drop m p))
        ∙ sym (
            zeros_of_low m dec.trellis facts.trellis_facts m 0 p (omega arith) bits
              (omega (arith, long)) (omega (arith, at))),
    omega (arith, length-rev_onto (drop m p) [], length-drop m p, long),
    rev_onto-bits (drop m p) [] (All-drop (λ b. b < 2) m p bits) tt,
  )
