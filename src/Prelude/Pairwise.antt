-- ===== src/Prelude/Pairwise.antt =====
-- Lists that agree place by place.
use Prim.Native.Nat.{ℕ, zero, suc, ◌<◌}
use mathlib.Core.Path.{◌≡◌, refl, ap}
use mathlib.Core.List.{List, [], ◌∷◌}
use native.Mathlib.Omega.{arith}
use syndrome.Prelude.Lists.{length, get_or, set, replicate}

-- Two lists of one length, related place by place.
abbrev pub Each : {A B : Type 0} → (A → B → Type 0) → List A → List B → Type 0
Each R [] [] = Unit
Each R [] (y ∷ ys) = ⊥
Each R (x ∷ xs) [] = ⊥
Each R (x ∷ xs) (y ∷ ys) = R x y × Each R xs ys

module _ {A B : Type 0} (R : A → B → Type 0) where
  pub length-Each : (xs : List A) (ys : List B) → Each R xs ys → length xs ≡ length ys
  length-Each [] [] p = refl
  length-Each [] (y ∷ ys) p = absurd p
  length-Each (x ∷ xs) [] p = absurd p
  length-Each (x ∷ xs) (y ∷ ys) p = ap suc (length-Each xs ys p.1)

  pub get-Each :
      (xs : List A) (ys : List B) (i : ℕ) (d : A) (d' : B)
      → Each R xs ys
      → i < length ys
      → R (get_or xs i d) (get_or ys i d')
  get-Each [] [] i d d' p h = absurd (omega arith)
  get-Each [] (y ∷ ys) i d d' p h = absurd p
  get-Each (x ∷ xs) [] i d d' p h = absurd p
  get-Each (x ∷ xs) (y ∷ ys) zero d d' p h = p.0
  get-Each (x ∷ xs) (y ∷ ys) (suc i) d d' p h = get-Each xs ys i d d' p.1 (omega arith)

  pub set-Each :
      (xs : List A) (ys : List B) (i : ℕ) (x : A) (y : B)
      → Each R xs ys
      → R x y
      → Each R (set xs i x) (set ys i y)
  set-Each [] [] i v w p r = tt
  set-Each [] (y ∷ ys) i v w p r = absurd p
  set-Each (x ∷ xs) [] i v w p r = absurd p
  set-Each (x ∷ xs) (y ∷ ys) zero v w p r = (r, p.1)
  set-Each (x ∷ xs) (y ∷ ys) (suc i) v w p r = (p.0, set-Each xs ys i v w p.1 r)

  -- A place changes on one side only.
  pub set_right-Each :
      (xs : List A) (ys : List B) (i : ℕ) (d : A) (y : B)
      → Each R xs ys
      → (i < length ys → R (get_or xs i d) y)
      → Each R xs (set ys i y)
  set_right-Each [] [] i d w p r = tt
  set_right-Each [] (y ∷ ys) i d w p r = absurd p
  set_right-Each (x ∷ xs) [] i d w p r = absurd p
  set_right-Each (x ∷ xs) (y ∷ ys) zero d w p r = (r (omega arith), p.1)
  set_right-Each (x ∷ xs) (y ∷ ys) (suc i) d w p r =
      (p.0, set_right-Each xs ys i d w p.1 (λ h. r (omega arith)))

  pub replicate-Each : (n : ℕ) (x : A) (y : B) → R x y → Each R (replicate n x) (replicate n y)
  replicate-Each zero x y r = tt
  replicate-Each (suc n) x y r = (r, replicate-Each n x y r)
