-- ===== src/Prelude/Distance.antt =====
-- The Hamming distance of two words, and words of low weight enumerated.
use Prim.Native.Nat.{ℕ, zero, suc, ◌+◌, ◌≤◌, ◌<◌}
use mathlib.Core.Path.{◌≡◌}
use mathlib.Core.Bool.{Bool, true, ◌&&◌}
use mathlib.Core.List.{List, [], ◌∷◌}
use native.Mathlib.Omega.{arith}
use syndrome.Prelude.Tests.{◌==◌, if◌then◌else◌}
use syndrome.Prelude.Lists.{length}
use syndrome.Prelude.Chunks.{All}

-- In how many places two words differ.
abbrev pub distance : List ℕ → List ℕ → ℕ
distance [] ys = 0
distance (x ∷ xs) [] = 0
distance (x ∷ xs) (y ∷ ys) = (if x == y then 0 else 1) + distance xs ys

-- Two lists of words, word for word at most `d` places apart.
abbrev pub EachWithin : ℕ → List (List ℕ) → List (List ℕ) → Type 0
EachWithin d [] [] = Unit
EachWithin d [] (ys ∷ yss) = ⊥
EachWithin d (xs ∷ xss) [] = ⊥
EachWithin d (xs ∷ xss) (ys ∷ yss) = (distance xs ys ≤ d) × EachWithin d xss yss

-- The weight of a word of bits.
abbrev pub weight : List ℕ → ℕ
weight [] = 0
weight (e ∷ es) = e + weight es

-- A test of every word of `n` bits and weight at most `w`.
unfoldable pub all_words : ℕ → ℕ → (List ℕ → Bool) → Bool
all_words zero w p = p []
all_words (suc n) zero p = all_words n zero (λ e. p (0 ∷ e))
all_words (suc n) (suc w) p = all_words n (suc w) (λ e. p (0 ∷ e)) && all_words n w (λ e. p (1 ∷ e))

pub all_words-true :
    (n w : ℕ) (p : List ℕ → Bool) (e : List ℕ)
    → all_words n w p ≡ true
    → length e ≡ n
    → All (λ b. b < 2) e
    → weight e ≤ w
    → p e ≡ true
unfolding all_words
all_words-true zero w p [] h k bits light = h
all_words-true zero w p (b ∷ e) h k bits light = absurd (omega arith)
all_words-true (suc n) w p [] h k bits light = absurd (omega arith)
all_words-true (suc n) zero p (zero ∷ e) h k bits light =
    all_words-true n zero (λ e. p (0 ∷ e)) e h (omega arith) bits.1 (omega arith)
all_words-true (suc n) (suc w) p (zero ∷ e) h k bits light =
    all_words-true n (suc w) (λ e. p (0 ∷ e)) e (ground arith) (omega arith) bits.1 (omega arith)
all_words-true (suc n) zero p (suc b ∷ e) h k bits light = absurd (omega arith)
all_words-true (suc n) (suc w) p (suc zero ∷ e) h k bits light =
    all_words-true n w (λ e. p (1 ∷ e)) e (ground arith) (omega arith) bits.1 (omega arith)
all_words-true (suc n) (suc w) p (suc (suc b) ∷ e) h k bits light = absurd (omega (arith, bits.0))
