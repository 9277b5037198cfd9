-- ===== src/Polar/Kernels.antt =====
-- Words of bits, and what the kernels of src/polar.rs do with LLRs that agree with them.
use native.Mathlib.Nat.{pow-suc}
use syndrome.Prelude.{
  ℕ, zero, suc, ◌^◌, ◌<◌, List, [], ◌∷◌, ◌++◌, length, length-append, take, drop, All, All-append,
  All-take, All-drop, Each, bit_xor, if◌then◌else◌, ◌≡◌, sym, ◌∙◌, arith,
}
use syndrome.Polar.{LlrOps, min_sum, add_flipped}
use syndrome.Polar.Transform.{transform, take-half}
use syndrome.Polar.Blocks.{zip_xor, length-zip_xor}

abbrev pub IsBit : ℕ → Type 0
IsBit b = b < 2

pub xor-IsBit : (a b : ℕ) → a < 2 → b < 2 → bit_xor a b < 2
xor-IsBit zero zero p q = omega arith
xor-IsBit zero (suc zero) p q = omega arith
xor-IsBit (suc zero) zero p q = omega arith
xor-IsBit (suc zero) (suc zero) p q = omega arith
xor-IsBit zero (suc (suc b)) p q = absurd (omega arith)
xor-IsBit (suc zero) (suc (suc b)) p q = absurd (omega arith)
xor-IsBit (suc (suc a)) b p q = absurd (omega arith)

zip_xor-bits : (a b : List ℕ) → All IsBit a → All IsBit b → All IsBit (zip_xor a b)
zip_xor-bits [] b p q = tt
zip_xor-bits (x ∷ a) [] p q = tt
zip_xor-bits (x ∷ a) (y ∷ b) p q = (xor-IsBit x y p.0 q.0, zip_xor-bits a b p.1 q.1)

pub length-transform : (k : ℕ) (u : List ℕ) → length u ≡ 2 ^ k → length (transform k u) ≡ 2 ^ k
unfolding transform
length-transform zero u h = h
length-transform (suc k) u h =
    let (l, r) = take-half k u h in
    let left = transform k (take (2 ^ k) u) in
    let right = transform k (drop (2 ^ k) u) in
    let el : length left ≡ 2 ^ k = length-transform k (take (2 ^ k) u) l in
    let er : length right ≡ 2 ^ k = length-transform k (drop (2 ^ k) u) r in
    omega (
      arith,
      pow-suc 2 k,
      length-append (zip_xor left right) right,
      length-zip_xor left right (el ∙ sym er),
      el,
      er,
    )

pub transform-bits : (k : ℕ) (u : List ℕ) → All IsBit u → All IsBit (transform k u)
unfolding transform
transform-bits zero u h = h
transform-bits (suc k) u h =
    let left = transform-bits k (take (2 ^ k) u) (All-take IsBit (2 ^ k) u h) in
    let right = transform-bits k (drop (2 ^ k) u) (All-drop IsBit (2 ^ k) u h) in
    All-append IsBit (zip_xor _ _) _ (zip_xor-bits _ _ left right) right

-- LLRs that agree with bits, and the kernels that keep them so.
pub record SignLaws {A : Type 0} (ops : LlrOps A) : Type 1 where
  pub Agrees : A → ℕ → Type 0
  pub min_sum_agrees :
      (x y : A) (a b : ℕ)
      → a < 2
      → b < 2
      → Agrees x a
      → Agrees y b
      → Agrees (min_sum ops x y) (bit_xor a b)
  pub add_agrees :
      (x y : A) (u b : ℕ)
      → u < 2
      → b < 2
      → Agrees x (bit_xor u b)
      → Agrees y b
      → Agrees (add_flipped ops x y u) b
  pub sign_agrees : (x : A) (b : ℕ) → b < 2 → Agrees x b → (if ops.is_negative x then 1 else 0) ≡ b

pub split-Each :
    {A B : Type 0} (R : A → B → Type 0) (xs : List A) (ys zs : List B)
    → Each R xs (ys ++ zs)
    → Each R (take (length ys) xs) ys × Each R (drop (length ys) xs) zs
split-Each R xs [] zs p = (tt, p)
split-Each R [] (y ∷ ys) zs p = absurd p
split-Each R (x ∷ xs) (y ∷ ys) zs p = let (l, r) = split-Each R xs ys zs p.1 in ((p.0, l), r)
