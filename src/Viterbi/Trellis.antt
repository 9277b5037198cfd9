-- ===== src/Viterbi/Trellis.antt =====
-- What `TrellisTable::build` of src/viterbi.rs makes: a shift register.
use native.Mathlib.Nat.{mod-eq_of_lt}
use syndrome.Prelude.{
  ℕ, ◌+◌, ◌-◌, ◌*◌, ◌/◌, ◌%◌, ◌^◌, ◌≤◌, ◌<◌, bit_and, bit_or, true, get_or, get_or-tabulate, ltb,
  if◌then◌else◌, ◌≡◌, sym, subst, ap, ap₂, ◌∙◌, arith,
}
use syndrome.Word.{◌>>>◌, count_ones}
use syndrome.Word.Xor.{pow_pos, pow_add}
use syndrome.Word.Mask.{and-mask, or_fields}
use syndrome.Viterbi.{TrellisTable, shift_register, per_branch, build, next}

-- A trellis of `2 ^ m` states, in which the input bit enters at the top.
pub record IsTrellis (m : ℕ) (trellis : TrellisTable) : Type 0 where
  pub states : trellis.n_states ≡ 2 ^ m
  pub shifts : (s b : ℕ) → s < 2 ^ m → b < 2 → next trellis s b ≡ (b * 2 ^ m + s) / 2
  pub bits0 : (s b : ℕ) → s < 2 ^ m → b < 2 → get_or trellis.out0 (s * 2 + b) 0 < 2
  pub bits1 : (s b : ℕ) → s < 2 ^ m → b < 2 → get_or trellis.out1 (s * 2 + b) 0 < 2

pow_le : (a b : ℕ) → a ≤ b → 2 ^ a ≤ 2 ^ b
pow_le a b h = grind (
  arith,
  ap (λ (n : ℕ). 2 ^ n) {x = a + (b - a)} {y = b} (omega (arith, h)),
  pow_add a (b - a),
  pow_pos (b - a),
)

shift_register_lem :
    (m s b : ℕ)
    → m < 16
    → s < 2 ^ m
    → b < 2
    → (shift_register (m + 1) s b ≡ b * 2 ^ m + s) × (b * 2 ^ m + s < 2 ^ (m + 1))
unfolding shift_register
shift_register_lem m s b small hs hb =
    let register : bit_or (b * 2 ^ (m + 1 - 1)) s ≡ b * 2 ^ m + s =
      ap (λ (n : ℕ). bit_or (b * 2 ^ n) s) {x = m + 1 - 1} {y = m} (omega arith)
      ∙ or_fields m b s hs in
    let double : 2 ^ (m + 1) ≡ 2 ^ m * 2 = pow_add m 1 in
    let short : b * 2 ^ m + s < 2 ^ (m + 1) = grind (arith, double) in
    let wide : 2 ^ (m + 1) ≤ 2 ^ 32 = pow_le (m + 1) 32 (omega (arith, small)) in
    let narrow : ltb (m + 1) 32 ≡ true = ground arith in
    let cast : (b * 2 ^ m + s) % 2 ^ 32 ≡ b * 2 ^ m + s = omega (arith, short, wide) in
    (rw (narrow, register, cast) (and-mask (m + 1) (b * 2 ^ m + s) ∙ mod-eq_of_lt short), short)

per_branch-get_or :
    (n : ℕ) (entry : ℕ → ℕ → ℕ) (s b : ℕ)
    → s < n
    → b < 2
    → get_or (per_branch n entry) (s * 2 + b) 0 ≡ entry s b
unfolding per_branch
per_branch-get_or n entry s b hs hb =
    get_or-tabulate (n * 2) (λ i. entry (i / 2) (i % 2)) (s * 2 + b) 0 (omega (arith, hs, hb))
    ∙ ap₂ entry {x = (s * 2 + b) / 2} {y = s} {u = (s * 2 + b) % 2} {v = b} (omega (arith, hb))
        (omega (arith, hb))

-- There are as many entries' rows as states.
built : (m : ℕ) → (if ltb 0 (m + 1) then 2 ^ (m + 1 - 1) else 1) ≡ 2 ^ m
built m =
    let positive : ltb 0 (m + 1) ≡ true = ground arith in
    rw positive (ap (λ (n : ℕ). 2 ^ n) {x = m + 1 - 1} {y = m} (omega arith))

-- The first coded bit is the parity of the register under the first generator.
pub build-out0 :
    (m g0 g1 s b : ℕ)
    → m < 16
    → s < 2 ^ m
    → b < 2
    → get_or (build (m + 1) g0 g1).out0 (s * 2 + b) 0
      ≡ count_ones 32 (bit_and (b * 2 ^ m + s) g0) % 2
unfolding build
build-out0 m g0 g1 s b small hs hb =
    per_branch-get_or _ _ s b (omega (arith, hs, built m)) hb
    ∙ ap (λ x. count_ones 32 (bit_and x g0) % 2) (shift_register_lem m s b small hs hb).0

pub build-IsTrellis : (m g0 g1 : ℕ) → m < 16 → IsTrellis m (build (m + 1) g0 g1)
unfolding build
build-IsTrellis m g0 g1 small = record {
  states = built m;
  shifts = λ s b hs hb. per_branch-get_or _ _ s b (below s hs) hb ∙ shifted s b hs hb;
  bits0 = λ s b hs hb.
      subst (λ n. n < 2) (sym (per_branch-get_or _ _ s b (below s hs) hb)) (omega arith);
  bits1 = λ s b hs hb.
      subst (λ n. n < 2) (sym (per_branch-get_or _ _ s b (below s hs) hb)) (omega arith);
}
  where
    below : (s : ℕ) → s < 2 ^ m → s < (if ltb 0 (m + 1) then 2 ^ (m + 1 - 1) else 1)
    below s h = omega (arith, h, built m)

    shifted :
        (s b : ℕ)
        → s < 2 ^ m
        → b < 2
        → (shift_register (m + 1) s b >>> 1) % 2 ^ 16 ≡ (b * 2 ^ m + s) / 2
    shifted s b hs hb =
        let (register, short) = shift_register_lem m s b small hs hb in
        let wide : 2 ^ (m + 1) ≤ 2 ^ 16 = pow_le (m + 1) 16 (omega (arith, small)) in
        ap (λ (x : ℕ). (x >>> 1) % 2 ^ 16) register ∙ omega (arith, short, wide)
