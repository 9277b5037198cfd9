-- ===== src/Viterbi/Paths.antt =====
-- The paths through the trellis of src/viterbi.rs, latest input first, and what they cost.
use native.Mathlib.Nat.{pow-suc}
use syndrome.Prelude.{
  ℕ, zero, suc, ◌+◌, ◌*◌, ◌%◌, ◌^◌, ◌≤◌, ◌<◌, bit_xor, Bool, true, false, List, [], ◌∷◌, ◌++◌, All,
  map, length, length-map, get_or, get_or-map, drop, replicate, distance, ◌==◌, if◌then◌else◌, ◌≡◌,
  refl, subst, ap, ap₂, ◌∙◌, arith,
}
use syndrome.Word.Xor.{pow_pos, pow_add}
use syndrome.Viterbi.{TrellisTable, next, encode_from, branch_metric}
use syndrome.Viterbi.Trellis.{IsTrellis}

-- `xs` in reverse on top of `ys`.
abbrev pub rev_onto : List ℕ → List ℕ → List ℕ
rev_onto [] ys = ys
rev_onto (x ∷ xs) ys = rev_onto xs (x ∷ ys)

abbrev pub received : List ℕ → List ℕ
received coded = map (λ v. v % 2) coded

module _ (trellis : TrellisTable) where
  abbrev pub state_of : List ℕ → ℕ
  state_of [] = 0
  state_of (b ∷ p) = next trellis (state_of p) b

module _ (m : ℕ) (trellis : TrellisTable) (facts : IsTrellis m trellis) where
  pub state_of-lt : (p : List ℕ) → All (λ b. b < 2) p → state_of trellis p < 2 ^ m
  state_of-lt [] bits = pow_pos m
  state_of-lt (b ∷ p) bits = grind (
    arith,
    facts.shifts (state_of trellis p) b (state_of-lt p bits.1) bits.0,
    state_of-lt p bits.1,
  )

  half_room : (d i : ℕ) → suc d + i ≡ m → 2 ^ i * 2 ≤ 2 ^ m
  half_room d i all = grind (
    arith,
    ap (λ (n : ℕ). 2 ^ n) {x = d + suc i} {y = m} (omega (arith, all)),
    pow_add d (suc i),
    pow-suc 2 i,
    pow_pos d,
  )

  -- A low state has zeros for its latest inputs.
  pub zeros_of_low :
      (d i : ℕ) (p : List ℕ)
      → d + i ≡ m
      → All (λ b. b < 2) p
      → d ≤ length p
      → state_of trellis p < 2 ^ i
      → p ≡ replicate d 0 ++ drop d p
  zeros_of_low zero i p all bits long low = refl
  zeros_of_low (suc d) i [] all bits long low = absurd (omega (arith, long))
  zeros_of_low (suc d) i (zero ∷ p) all bits long low = ap (◌∷◌ 0) (
      zeros_of_low d (suc i) p (omega (arith, all)) bits.1 (omega (arith, long)) (
        omega (
          arith,
          low,
          facts.shifts (state_of trellis p) 0 (state_of-lt p bits.1) bits.0,
          pow-suc 2 i,
        )))
  zeros_of_low (suc d) i (suc zero ∷ p) all bits long low = absurd (
      omega (
        arith,
        low,
        facts.shifts (state_of trellis p) 1 (state_of-lt p bits.1) bits.0,
        half_room d i all,
      ))
  zeros_of_low (suc d) i (suc (suc b) ∷ p) all bits long low = absurd (omega (arith, bits.0))

  zeros-bits : (d : ℕ) (p : List ℕ) → All (λ b. b < 2) p → All (λ b. b < 2) (replicate d 0 ++ p)
  zeros-bits zero p bits = bits
  zeros-bits (suc d) p bits = (omega arith, zeros-bits d p bits)

  -- Zeros bring the state down.
  pub low_of_zeros :
      (d i : ℕ) (p : List ℕ)
      → d + i ≡ m
      → All (λ b. b < 2) p
      → state_of trellis (replicate d 0 ++ p) < 2 ^ i
  low_of_zeros zero i p all bits =
      subst (λ (n : ℕ). state_of trellis p < 2 ^ n) {x = m} {y = i} (omega (arith, all))
        (state_of-lt p bits)
  low_of_zeros (suc d) i p all bits = omega (
    arith,
    facts.shifts (state_of trellis (replicate d 0 ++ p)) 0 (state_of-lt _ (zeros-bits d p bits))
        (omega arith),
    low_of_zeros d (suc i) p (omega (arith, all)) bits,
    pow-suc 2 i,
  )

bits_differ : (o r : ℕ) → o < 2 → r < 2 → bit_xor r o ≡ (if o == r then 0 else 1)
bits_differ zero zero ho hr = refl
bits_differ zero (suc zero) ho hr = refl
bits_differ (suc zero) zero ho hr = refl
bits_differ (suc zero) (suc zero) ho hr = refl
bits_differ o (suc (suc r)) ho hr = absurd (omega (arith, hr))
bits_differ (suc (suc o)) r ho hr = absurd (omega (arith, ho))

drop_cons : (xs : List ℕ) (i d : ℕ) → i < length xs → drop i xs ≡ get_or xs i d ∷ drop (suc i) xs
drop_cons [] i d h = absurd (omega (arith, h))
drop_cons (x ∷ xs) zero d h = refl
drop_cons (x ∷ xs) (suc i) d h = drop_cons xs i d (omega (arith, h))

module _ (trellis : TrellisTable) (coded : List ℕ) where
  -- The received bits of step `t`.
  abbrev pub first : ℕ → ℕ
  first t = get_or coded (2 * t) 0 % 2

  abbrev pub second : ℕ → ℕ
  second t = get_or coded (2 * t + 1) 0 % 2

  -- In how many bits the path differs from what was received.
  abbrev pub cost_of : List ℕ → ℕ
  cost_of [] = 0
  cost_of (b ∷ p) =
      cost_of p
      + branch_metric trellis (first (length p)) (second (length p)) (state_of trellis p) b

  module _ (m : ℕ) (facts : IsTrellis m trellis) where
    -- A branch's metric counts its two bits that differ.
    branch_metric_lem :
        (r0 r1 s b : ℕ)
        → r0 < 2
        → r1 < 2
        → s < 2 ^ m
        → b < 2
        → branch_metric trellis r0 r1 s b
          ≡ (if get_or trellis.out0 (s * 2 + b) 0 == r0 then 0 else 1)
            + (if get_or trellis.out1 (s * 2 + b) 0 == r1 then 0 else 1)
    unfolding branch_metric
    branch_metric_lem r0 r1 s b h0 h1 hs hb =
        ap₂ ◌+◌ (bits_differ _ r0 (facts.bits0 s b hs hb) h0)
          (bits_differ _ r1 (facts.bits1 s b hs hb) h1)

    test-le : (c : Bool) → (if c then 0 else 1) ≤ 1
    test-le true = omega arith
    test-le false = omega arith

    pub cost_of-le : (p : List ℕ) → All (λ b. b < 2) p → cost_of p ≤ 2 * length p
    cost_of-le [] bits = omega arith
    cost_of-le (b ∷ p) bits = omega (
      arith,
      cost_of-le p bits.1,
      branch_metric_lem (first (length p)) (second (length p)) (state_of trellis p) b (omega arith)
          (omega arith) (state_of-lt m trellis facts p bits.1) bits.0,
      test-le (get_or trellis.out0 (state_of trellis p * 2 + b) 0 == first (length p)),
      test-le (get_or trellis.out1 (state_of trellis p * 2 + b) 0 == second (length p)),
    )

    next_two :
        (t : ℕ)
        → 2 * t + 1 < length coded
        → drop (2 * t) (received coded) ≡ first t ∷ second t ∷ drop (2 * suc t) (received coded)
    next_two t room =
        drop_cons (received coded) (2 * t) (first t)
          (omega (arith, room, length-map coded (λ v. v % 2)))
        ∙ ap₂ ◌∷◌ (get_or-map (λ v. v % 2) coded (2 * t) 0 (first t) (omega (arith, room))) (
            drop_cons (received coded) (suc (2 * t)) 0
              (omega (arith, room, length-map coded (λ v. v % 2)))
            ∙ ap₂ ◌∷◌
                (ap (λ (i : ℕ). get_or (received coded) i 0) {x = suc (2 * t)} {y = 2 * t + 1}
                    (omega arith)
                  ∙ get_or-map (λ v. v % 2) coded (2 * t + 1) 0 0 (omega (arith, room)))
                (ap (λ (n : ℕ). drop n (received coded)) {x = suc (suc (2 * t))} {y = 2 * suc t}
                  (omega arith)))

    -- The cost of going on from a path is the distance of the bits encoded from there.
    pub distance-encode_from :
        (bits p : List ℕ)
        → All (λ b. b < 2) bits
        → All (λ b. b < 2) p
        → 2 * (length p + length bits) ≤ length coded
        → cost_of p
            + distance
                (encode_from trellis (state_of trellis p) bits)
                (drop (2 * length p) (received coded))
          ≡ cost_of (rev_onto bits p)
    unfolding encode_from
    distance-encode_from [] p low past room = omega arith
    distance-encode_from (b ∷ bits) p low past room =
        ap₂
          (λ (c : ℕ) (l : List ℕ).
            cost_of p
            + distance
                (get_or trellis.out0 (state_of trellis p * 2 + c) 0
                  ∷ get_or trellis.out1 (state_of trellis p * 2 + c) 0
                  ∷ encode_from trellis (next trellis (state_of trellis p) c) bits)
                l)
          {x = b % 2} {y = b} (omega (arith, low.0)) (next_two (length p) (omega (arith, room)))
        ∙ omega (
          arith,
          branch_metric_lem (first (length p)) (second (length p)) (state_of trellis p) b
              (omega arith) (omega arith) (state_of-lt m trellis facts p past) low.0,
        )
        ∙ distance-encode_from bits (b ∷ p) low.1 (low.0, past) (omega (arith, room))
