-- ===== src/Prelude/Chunks.antt =====
-- Slices cut into pieces of one size, as `chunks_exact` cuts them, and put together again.
use Prim.Native.Nat.{ℕ, zero, suc, ◌*◌, ◌/◌, ◌%◌, ◌≤◌, ◌<◌}
use mathlib.Core.Path.{◌≡◌, refl, ap, ap₂, sym, ◌∙◌}
use mathlib.Core.List.{List, [], ◌∷◌, ◌++◌}
use native.Mathlib.Nat.{mul-div_left}
use native.Mathlib.Omega.{arith}
use syndrome.Prelude.Lists.{
  length, take, drop, length-append, length-take, length-drop, take-append-drop, take_append,
  drop_append,
}

-- A predicate of every element.
abbrev pub All {ℓ κ} : {A : Type ℓ} → (A → Type κ) → List A → Type κ
All P [] = Unit
All P (x ∷ xs) = P x × All P xs

module _ {ℓ κ} {A : Type ℓ} (P : A → Type κ) where
  pub All-append : (xs ys : List A) → All P xs → All P ys → All P (xs ++ ys)
  All-append [] ys p q = q
  All-append (x ∷ xs) ys p q = (p.0, All-append xs ys p.1 q)

  pub All-take : (n : ℕ) (xs : List A) → All P xs → All P (take n xs)
  All-take zero xs p = tt
  All-take (suc n) [] p = tt
  All-take (suc n) (x ∷ xs) p = (p.0, All-take n xs p.1)

  pub All-drop : (n : ℕ) (xs : List A) → All P xs → All P (drop n xs)
  All-drop zero xs p = p
  All-drop (suc n) [] p = tt
  All-drop (suc n) (x ∷ xs) p = All-drop n xs p.1

module _ {ℓ} {A : Type ℓ} where
  -- The first `count` pieces of `n` elements.
  abbrev pub chunks_of : ℕ → ℕ → List A → List (List A)
  chunks_of n zero xs = []
  chunks_of n (suc count) xs = take n xs ∷ chunks_of n count (drop n xs)

  -- `xs.chunks_exact(n)`: a shorter rest is left out.
  abbrev pub chunks_exact : ℕ → List A → List (List A)
  chunks_exact n xs = chunks_of n (length xs / n) xs

  abbrev pub concat : List (List A) → List A
  concat [] = []
  concat (xs ∷ xss) = xs ++ concat xss

  concat-chunks_of :
      (n count : ℕ) (xs : List A) → length xs ≡ count * n → concat (chunks_of n count xs) ≡ xs
  concat-chunks_of n zero [] e = refl
  concat-chunks_of n zero (x ∷ xs) e = absurd (omega arith)
  concat-chunks_of n (suc count) xs e =
      ap (◌++◌ (take n xs)) (concat-chunks_of n count (drop n xs) (omega (arith, length-drop n xs)))
      ∙ take-append-drop n xs

  pub concat-chunks_exact :
      (n : ℕ) (xs : List A) → length xs % n ≡ 0 → concat (chunks_exact n xs) ≡ xs
  concat-chunks_exact n xs e = concat-chunks_of n (length xs / n) xs (grind arith)

  pub length-concat :
      (n : ℕ) (xss : List (List A))
      → All (λ xs. length xs ≡ n) xss
      → length (concat xss) ≡ length xss * n
  length-concat n [] p = omega arith
  length-concat n (xs ∷ xss) p =
      omega (arith, length-append xs (concat xss), length-concat n xss p.1, p.0)

  chunks_of-concat :
      (n : ℕ) (xss : List (List A))
      → All (λ xs. length xs ≡ n) xss
      → chunks_of n (length xss) (concat xss) ≡ xss
  chunks_of-concat n [] p = refl
  chunks_of-concat n (xs ∷ xss) p =
      ap₂ ◌∷◌ (ap (λ (k : ℕ). take k (xs ++ concat xss)) (sym p.0) ∙ take_append xs (concat xss)) (
        ap (chunks_of n (length xss))
          (ap (λ (k : ℕ). drop k (xs ++ concat xss)) (sym p.0) ∙ drop_append xs (concat xss))
        ∙ chunks_of-concat n xss p.1)

  pub chunks_exact-concat :
      (n : ℕ) (xss : List (List A))
      → 0 < n
      → All (λ xs. length xs ≡ n) xss
      → chunks_exact n (concat xss) ≡ xss
  chunks_exact-concat n xss h p =
      ap (λ (k : ℕ). chunks_of n k (concat xss))
        (ap (λ (k : ℕ). k / n) (length-concat n xss p) ∙ mul-div_left (length xss) h)
      ∙ chunks_of-concat n xss p

  length-chunks_of : (n count : ℕ) (xs : List A) → length (chunks_of n count xs) ≡ count
  length-chunks_of n zero xs = refl
  length-chunks_of n (suc count) xs = ap suc (length-chunks_of n count (drop n xs))

  pub length-chunks_exact : (n : ℕ) (xs : List A) → length (chunks_exact n xs) ≡ length xs / n
  length-chunks_exact n xs = length-chunks_of n (length xs / n) xs

  chunks_of-sizes :
      (n count : ℕ) (xs : List A)
      → count * n ≤ length xs
      → All (λ ys. length ys ≡ n) (chunks_of n count xs)
  chunks_of-sizes n zero xs h = tt
  chunks_of-sizes n (suc count) xs h = (
    omega (arith, length-take n xs),
    chunks_of-sizes n count (drop n xs) (omega (arith, length-drop n xs)),
  )

  pub chunks_exact-sizes : (n : ℕ) (xs : List A) → All (λ ys. length ys ≡ n) (chunks_exact n xs)
  chunks_exact-sizes n xs = chunks_of-sizes n (length xs / n) xs (grind arith)

  chunks_of-All {κ} :
      (P : A → Type κ) (n count : ℕ) (xs : List A) → All P xs → All (All P) (chunks_of n count xs)
  chunks_of-All P n zero xs p = tt
  chunks_of-All P n (suc count) xs p =
      (All-take P n xs p, chunks_of-All P n count (drop n xs) (All-drop P n xs p))

  pub chunks_exact-All {κ} :
      (P : A → Type κ) (n : ℕ) (xs : List A) → All P xs → All (All P) (chunks_exact n xs)
  chunks_exact-All P n xs p = chunks_of-All P n (length xs / n) xs p
