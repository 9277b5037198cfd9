-- ===== src/Segmentation/LiftingSize.antt =====
-- The search for the lifting size in src/segmentation.rs.
use syndrome.Prelude.{ℕ, ◌*◌, ◌≤◌, ◌<◌, List, [], ◌∷◌, ok, ◌≡◌, refl, sym, subst, arith, dec_le}
use syndrome.Segmentation.{valid_z, first_valid_z, min_valid_z}

-- The sizes of the list before the first that is large enough are all too small.
pub data IsFirst (k_prime k_b z : ℕ) : List ℕ → Type 0 where
  here : {zs : List ℕ} → k_prime ≤ k_b * z → IsFirst k_prime k_b z (z ∷ zs)
  later :
      {y : ℕ} {zs : List ℕ}
      → k_b * y < k_prime
      → IsFirst k_prime k_b z zs
      → IsFirst k_prime k_b z (y ∷ zs)

pub IsFirst-fits : {k_prime k_b z : ℕ} {zs : List ℕ} → IsFirst k_prime k_b z zs → k_prime ≤ k_b * z
IsFirst-fits (here h) = h
IsFirst-fits (later h f) = IsFirst-fits f

first_valid_z-IsFirst :
    (k_prime k_b z : ℕ) (zs : List ℕ)
    → first_valid_z k_prime k_b zs ≡ ok z
    → IsFirst k_prime k_b z zs
unfolding first_valid_z
first_valid_z-IsFirst k_prime k_b z [] h = absurd (ground arith)
first_valid_z-IsFirst k_prime k_b z (y ∷ zs) h = elim (dec_le k_prime (k_b * y)) [
  | yes fits ↦
      let e : y ≡ z = ground arith in
      subst (λ (t : ℕ). IsFirst k_prime k_b z (t ∷ zs)) (sym e) (here (ground arith))
  | no small ↦ later (omega arith) (first_valid_z-IsFirst k_prime k_b z zs (ground arith))
]

abbrev EndsWith : List ℕ → ℕ → Type 0
EndsWith [] y = ⊥
EndsWith (x ∷ []) y = x ≡ y
EndsWith (x ∷ x' ∷ xs) y = EndsWith (x' ∷ xs) y

-- If the last size is large enough, the search finds one.
first_valid_z_total :
    (k_prime k_b y : ℕ) (zs : List ℕ)
    → EndsWith zs y
    → k_prime ≤ k_b * y
    → (z : ℕ) × (first_valid_z k_prime k_b zs ≡ ok z)
unfolding first_valid_z
first_valid_z_total k_prime k_b y [] e h = absurd e
first_valid_z_total k_prime k_b y (x ∷ []) e h = (x, ground arith)
first_valid_z_total k_prime k_b y (x ∷ x' ∷ xs) e h = elim (dec_le k_prime (k_b * x)) [
  | yes fits ↦ (x, ground arith)
  | no small ↦
      let (z, found) = first_valid_z_total k_prime k_b y (x' ∷ xs) e h in (z, ground (arith, found))
]

pub min_valid_z_total :
    (k_prime k_b : ℕ)
    → k_prime ≤ k_b * 384
    → (z : ℕ) × (min_valid_z k_prime k_b ≡ ok z) × IsFirst k_prime k_b z valid_z
unfolding min_valid_z
min_valid_z_total k_prime k_b h =
    let (z, found) = first_valid_z_total k_prime k_b 384 valid_z refl h in
    (z, found, first_valid_z-IsFirst k_prime k_b z valid_z found)
