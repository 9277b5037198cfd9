-- ===== src/RateMatching/Stale.antt =====
-- What `rate_match` returns for one bit to a symbol and no filler bits, however long the output.
use native.Mathlib.Nat.{mod-eq_of_lt}
use mathlib.Core.List.{List, [], ◌∷◌, ◌++◌, map}
use syndrome.Prelude.{
  ℕ, suc, ◌+◌, ◌*◌, ◌/◌, ◌<◌, min, drop, length, length-tabulate, get_or, tabulate_from, tabulate,
  tabulate_ext, tabulate_from_shift, map-tabulate_from, ◌>>=◌, Result, ok, ◌≡◌, refl, ap, ap₂, ◌∙◌,
  arith,
}
use syndrome.Segmentation.{BaseGraph, coded_columns}
use syndrome.RateMatching.{
  window, position, selected, interleave, interleaved_to_selection_index, codeword_bit, check_args,
  rate_match,
}
use syndrome.RateMatching.Cached.{interleave-tabulate}
use syndrome.RateMatching.Memo.{no_filler-selected}

pub tabulate-get_or : (xs : List ℕ) → tabulate (length xs) (λ p. get_or xs p 0) ≡ xs
unfolding tabulate tabulate_from
tabulate-get_or [] = refl
tabulate-get_or (x ∷ xs) = ap (◌∷◌ x) (
    tabulate_from_shift 1 0 (length xs) (λ p. get_or (x ∷ xs) p 0)
    ∙ tabulate_ext (length xs) _ _
        (λ p h. ap (λ (i : ℕ). get_or (x ∷ xs) i 0) {x = 1 + p} {y = suc p} (omega arith))
    ∙ tabulate-get_or xs)

index-one : (p n : ℕ) → p < n → interleaved_to_selection_index p 1 n ≡ p
unfolding interleaved_to_selection_index
index-one p n h = ap₂ (λ (a b : ℕ). a * 1 + b) (mod-eq_of_lt h) (zero_quotient p n h) ∙ omega arith
  where
    zero_quotient : (p n : ℕ) → p < n → p / n ≡ 0
    zero_quotient p n h = grind arith

-- One bit to a symbol: the interleaver does nothing.
pub interleave-one : (e : List ℕ) → interleave e 1 ≡ e
interleave-one e =
    interleave-tabulate e 1
    ∙ ap₂ (λ (n r : ℕ). tabulate n (λ p. get_or e (interleaved_to_selection_index p 1 r) 0))
        {x = 1 * (length e / 1)} {y = length e} {u = length e / 1} {v = length e} (omega arith)
        (omega arith)
    ∙ tabulate_ext (length e) _ _ (λ p h. ap (λ (i : ℕ). get_or e i 0) (index-one p (length e) h))
    ∙ tabulate-get_or e

-- For a positive lifting size, a redundancy version below 4, one bit to a symbol and no filler
-- bits, `rate_match` writes the codeword bits from the start position on, around the buffer, in at
-- most twice its size and one more slots, and the slots after those keep what the caller's buffer
-- held.
pub rate_match-one_bit :
    (codeword e_out : List ℕ) (rv : ℕ) (bg : BaseGraph) (z : ℕ)
    → 0 < z
    → rv < 4
    → let n = min (length e_out) (2 * (coded_columns bg * z) + 1) in
      rate_match codeword e_out rv 1 bg z 0
      ≡ ok (
          tabulate n (λ j. codeword_bit codeword (position (window bg z rv 0) j + 2 * z))
          ++ drop n e_out)
unfolding rate_match tabulate
rate_match-one_bit codeword e_out rv bg z pos small =
    ap
      (λ (c : Result (Unit {0})).
        c >>= λ _. ok (interleave (map bit_at sel ++ drop (length sel) e_out) 1))
      passes
    ∙ ap ok (
        interleave-one _
        ∙ ap₂ (λ (l : List ℕ) (k : ℕ). map bit_at l ++ drop k e_out) chosen
            (ap length chosen ∙ length-tabulate n _)
        ∙ ap (λ (l : List ℕ). l ++ drop n e_out)
            (map-tabulate_from bit_at 0 n (position (window bg z rv 0))))
  where
    n : ℕ
    n = min (length e_out) (2 * (coded_columns bg * z) + 1)

    sel : List ℕ
    sel = selected (window bg z rv 0) (length e_out)

    bit_at : ℕ → ℕ
    bit_at pos = codeword_bit codeword (pos + 2 * z)

    chosen : sel ≡ tabulate n (position (window bg z rv 0))
    chosen = no_filler-selected bg z rv (length e_out) pos small

    passes : check_args rv 1 z (length e_out) ≡ ok tt
    passes = unfold check_args in ground arith
