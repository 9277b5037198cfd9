-- ===== src/Turbo/Inverse.antt =====
-- The quadratic polynomials of src/turbo.rs, and quadratic polynomials that undo them.
use native.Mathlib.Nat.{mod-lt}
use syndrome.Prelude.{
  ℕ, ◌+◌, ◌*◌, ◌%◌, ◌<◌, Bool, true, List, [], ◌∷◌, ◌==◌, ==_iff, ◌&&◌, Bool-cases, inl, inr,
  all_below, all_below-true, All, Option, some, ◌≡◌, refl, subst, ap, sym, arith, ◌∙◌,
}
use syndrome.Turbo.{qpp_table, find_params, qpp_params}

abbrev pub qpp : ℕ → ℕ → ℕ → ℕ → ℕ
qpp k f1 f2 i = (f1 * i + f2 * i * i) % k

-- Each polynomial undoes the other below `k`.
undone_at : ℕ → ℕ → ℕ → ℕ → ℕ → ℕ → Bool
undone_at k f1 f2 g1 g2 i = qpp k g1 g2 (qpp k f1 f2 i) == i && qpp k f1 f2 (qpp k g1 g2 i) == i

pub Undone : ℕ × ℕ × ℕ → Type 0
Undone (k, f1, f2) = (g1 : ℕ) × (g2 : ℕ) × (all_below k (undone_at k f1 f2 g1 g2) ≡ true)

table-Undone : All Undone qpp_table
unfolding all_below undone_at Undone
table-Undone =
    let u40 : Undone (40, 3, 10) = (27, 10, refl) in
    let u104 : Undone (104, 7, 26) = (15, 26, refl) in
    let u256 : Undone (256, 15, 32) = (239, 32, refl) in
    let u512 : Undone (512, 31, 64) = (479, 64, refl) in
    let u1024 : Undone (1024, 31, 64) = (991, 64, refl) in
    let u2048 : Undone (2048, 31, 64) = (991, 64, refl) in
    let u4096 : Undone (4096, 31, 64) = (991, 64, refl) in
    let u6144 : Undone (6144, 263, 480) = (2231, 2784, refl) in
    (u40, (u104, (u256, (u512, (u1024, (u2048, (u4096, (u6144, tt))))))))

find_params-Undone :
    (k f1 f2 : ℕ) (rows : List (ℕ × ℕ × ℕ))
    → All Undone rows
    → find_params k rows ≡ some (f1, f2)
    → Undone (k, f1, f2)
unfolding find_params
find_params-Undone k f1 f2 [] all found = absurd cc
find_params-Undone k f1 f2 ((kk, h1, h2) ∷ rows) (here, there) found = elim (Bool-cases (kk == k)) [
  | inl same ↦
      let met : ◌≡◌ {A = Option (ℕ × ℕ)} (some (h1, h2)) (some (f1, f2)) = rw same at found in
      let size : kk ≡ k = (==_iff kk k).0 same in
      let row : ◌≡◌ {A = ℕ × ℕ × ℕ} (kk, h1, h2) (k, f1, f2) = cc in subst Undone row here
  | inr other ↦
      let later : find_params k rows ≡ some (f1, f2) = rw other at found in
      find_params-Undone k f1 f2 rows there later
]

pub qpp_params-Undone : (k f1 f2 : ℕ) → qpp_params k ≡ some (f1, f2) → Undone (k, f1, f2)
unfolding qpp_params
qpp_params-Undone k f1 f2 found = find_params-Undone k f1 f2 qpp_table table-Undone found

-- Where the polynomial of a row takes the value `p`, and nowhere else.
pub qpp_inverse :
    (k f1 f2 p : ℕ)
    → Undone (k, f1, f2)
    → p < k
    → (t : ℕ) × (t < k) × (qpp k f1 f2 t ≡ p) × ((u : ℕ) → u < k → qpp k f1 f2 u ≡ p → u ≡ t)
unfolding undone_at Undone
qpp_inverse k f1 f2 p (g1, g2, holds) inside = (
  qpp k g1 g2 p,
  mod-lt (g1 * p + g2 * p * p) (omega (arith, inside)),
  (==_iff (qpp k f1 f2 (qpp k g1 g2 p)) p).0 (both p inside).1,
  λ u below same.
      sym ((==_iff (qpp k g1 g2 (qpp k f1 f2 u)) u).0 (both u below).0) ∙ ap (qpp k g1 g2) same,
)
  where
    both :
        (i : ℕ)
        → i < k
        → ((qpp k g1 g2 (qpp k f1 f2 i) == i) ≡ true) × ((qpp k f1 f2 (qpp k g1 g2 i) == i) ≡ true)
    both i below =
        let h = all_below-true k (undone_at k f1 f2 g1 g2) i holds below in
        (ground (arith, h), ground (arith, h))
