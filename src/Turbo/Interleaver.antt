-- ===== src/Turbo/Interleaver.antt =====
-- The interleaver that `TurboEncoder::new` of src/turbo.rs builds.
use native.Mathlib.Nat.{mod-lt}
use syndrome.Prelude.{
  ℕ, zero, suc, ◌+◌, ◌*◌, ◌%◌, ◌≤◌, ◌<◌, ◌==◌, ==_iff, List, [], ◌∷◌, All, length, length-tabulate,
  get_or, get_or-tabulate, tabulate, tabulate_from, Bool-cases, inl, inr, true, false,
  if◌then◌else◌, Option, none, some, ok-injective, ok, ◌≡◌, ◌≢◌, refl, ap, subst, ◌∙◌, arith,
}
use syndrome.Turbo.{TurboEncoder, qpp_params, build_qpp_interleaver, with_params, new}
use syndrome.Turbo.Inverse.{qpp, qpp_params-Undone, qpp_inverse}

entries-lt : (k f1 f2 i n : ℕ) → i + n ≡ k → All (λ p. p < k) (tabulate_from i n (qpp k f1 f2))
unfolding tabulate_from
entries-lt k f1 f2 i zero inside = tt
entries-lt k f1 f2 i (suc n) inside = (
  mod-lt (f1 * i + f2 * i * i) (omega (arith, inside)),
  entries-lt k f1 f2 (i + 1) n (omega (arith, inside)),
)

-- How often a number occurs in a list.
pub occurrences : ℕ → List ℕ → ℕ
occurrences p [] = 0
occurrences p (q ∷ qs) = (if q == p then 1 else 0) + occurrences p qs

module _ (f : ℕ → ℕ) (p t : ℕ) where
  miss : (u : ℕ) → (f u ≡ p → u ≡ t) → u ≢ t → (f u == p) ≡ false
  miss u only other = elim (Bool-cases (f u == p)) [
    | inl same ↦ absurd (other (only ((==_iff (f u) p).0 same)))
    | inr differs ↦ differs
  ]

  absent :
      (i n : ℕ)
      → ((u : ℕ) → i ≤ u → u < i + n → f u ≡ p → u ≡ t)
      → t < i
      → occurrences p (tabulate_from i n f) ≡ 0
  unfolding tabulate_from occurrences
  absent i zero only below = refl
  absent i (suc n) only below =
      let here : (f i == p) ≡ false =
        miss i (only i (omega arith) (omega arith)) (λ e. absurd (omega (arith, e, below))) in
      let later : occurrences p (tabulate_from (i + 1) n f) ≡ 0 =
        absent (i + 1) n (λ u lo hi. only u (omega (arith, lo)) (omega (arith, hi)))
          (omega (arith, below)) in
      rw (here, later)

  once :
      (i n : ℕ)
      → f t ≡ p
      → ((u : ℕ) → i ≤ u → u < i + n → f u ≡ p → u ≡ t)
      → i ≤ t
      → t < i + n
      → occurrences p (tabulate_from i n f) ≡ 1
  unfolding tabulate_from occurrences
  once i zero hit only above below = absurd (omega (arith, above, below))
  once i (suc n) hit only above below = elim (Bool-cases (i == t)) [
    | inl same ↦
        let at_t : i ≡ t = (==_iff i t).0 same in
        let here : (f i == p) ≡ true = (==_iff (f i) p).1 (ap f at_t ∙ hit) in
        let later : occurrences p (tabulate_from (i + 1) n f) ≡ 0 =
          absent (i + 1) n (λ u lo hi. only u (omega (arith, lo)) (omega (arith, hi)))
            (omega (arith, at_t)) in
        rw (here, later)
    | inr other ↦
        let apart : i ≢ t = λ e. absurd (ground (arith, e, other)) in
        let here : (f i == p) ≡ false = miss i (only i (omega arith) (omega arith)) apart in
        let later : occurrences p (tabulate_from (i + 1) n f) ≡ 1 =
          once (i + 1) n hit (λ u lo hi. only u (omega (arith, lo)) (omega (arith, hi)))
            (omega (arith, above, apart)) (omega (arith, below)) in
        rw (here, later)
  ]

-- An encoder that `new` returns has the size asked for and an interleaver of that length whose
-- entry at each position i is `(f1 * i + f2 * i * i) % k`, with the coefficients of the size's row
-- in the table, and which is a permutation: its entries are below the size, and each position i of
-- the block is among them exactly once.
pub new_lem :
    (k : ℕ) (enc : TurboEncoder) (i : ℕ)
    → new k ≡ ok enc
    → i < k
    → (enc.k ≡ k)
      × (length enc.pi ≡ k)
      × All (λ p. p < k) enc.pi
      × (occurrences i enc.pi ≡ 1)
      × (f1 : ℕ) × (f2 : ℕ) × (qpp_params k ≡ some (f1, f2))
      × (get_or enc.pi i 0 ≡ (f1 * i + f2 * i * i) % k)
unfolding new build_qpp_interleaver tabulate
new_lem k enc i made inside = go (qpp_params k) refl made
  where
    IsInterleaver : TurboEncoder → Type 0
    IsInterleaver e =
        (e.k ≡ k)
        × (length e.pi ≡ k)
        × All (λ p. p < k) e.pi
        × (occurrences i e.pi ≡ 1)
        × (f1 : ℕ) × (f2 : ℕ) × (qpp_params k ≡ some (f1, f2))
        × (get_or e.pi i 0 ≡ (f1 * i + f2 * i * i) % k)

    go :
        (params : Option (ℕ × ℕ))
        → qpp_params k ≡ params
        → with_params k params ≡ ok enc
        → IsInterleaver enc
    go none row h = absurd cc
    go (some (f1, f2)) row h =
        let (t, below, hit, only) = qpp_inverse k f1 f2 i (qpp_params-Undone k f1 f2 row) inside in
        subst IsInterleaver (ok-injective _ enc h) (
          refl,
          length-tabulate k (qpp k f1 f2),
          entries-lt k f1 f2 0 k (omega arith),
          once (qpp k f1 f2) i t 0 k hit (λ u lo hi same. only u (omega (arith, hi)) same)
              (omega arith) (omega (arith, below)),
          f1,
          f2,
          row,
          get_or-tabulate k (qpp k f1 f2) i 0 inside,
        )
