-- ===== src/Polar/Distinct.antt =====
-- Entries that free a position each, for the mask of src/polar.rs.
use syndrome.Prelude.{
  ℕ, zero, suc, ◌+◌, ◌≤◌, ◌<◌, Bool, true, false, List, [], ◌∷◌, ltb, length, get_or, get_or-set_ne,
  set, drop, if◌then◌else◌, ◌≡◌, ◌≢◌, refl, ◌∙◌, arith,
}
use syndrome.Polar.{entries_below, unfreeze}
use syndrome.Polar.RoundTrip.{info_positions}

-- Each entry finds its place still frozen.
pub Fresh : List ℕ → List Bool → Type 0
Fresh [] m = Unit
Fresh (x ∷ xs) m = (get_or m x false ≡ true) × Fresh xs (set m x false)

positions-set :
    (m : List Bool) (x : ℕ)
    → info_positions (set m x false) ≡ info_positions m + (if get_or m x false then 1 else 0)
positions-set [] x = refl
positions-set (true ∷ m) zero = omega arith
positions-set (false ∷ m) zero = omega arith
positions-set (true ∷ m) (suc x) = positions-set m x
positions-set (false ∷ m) (suc x) = omega (arith, positions-set m x)

unfreeze-le :
    (xs : List ℕ) (m : List Bool) → info_positions (unfreeze xs m) ≤ info_positions m + length xs
unfolding unfreeze
unfreeze-le [] m = omega arith
unfreeze-le (x ∷ xs) m = ground (arith, positions-set m x, unfreeze-le xs (set m x false))

-- If every entry counts, every entry is fresh, and the other way round.
pub Fresh-of_count :
    (xs : List ℕ) (m : List Bool)
    → info_positions m + length xs ≤ info_positions (unfreeze xs m)
    → Fresh xs m
unfolding Fresh unfreeze
Fresh-of_count [] m h = tt
Fresh-of_count (x ∷ xs) m h =
    let here : get_or m x false ≡ true =
      ground (arith, positions-set m x, unfreeze-le xs (set m x false)) in
    (here, Fresh-of_count xs (set m x false) (ground (arith, positions-set m x, here)))

pub count_of_Fresh :
    (xs : List ℕ) (m : List Bool)
    → Fresh xs m
    → info_positions (unfreeze xs m) ≡ info_positions m + length xs
unfolding Fresh unfreeze
count_of_Fresh [] m h = omega arith
count_of_Fresh (x ∷ xs) m h =
    let fresh = h.0 in
    ground (arith, fresh, positions-set m x, count_of_Fresh xs (set m x false) h.1)

get-set-false :
    (m : List Bool) (x i : ℕ)
    → get_or (set m x false) i false ≡ true
    → (x ≢ i) × (get_or m i false ≡ true)
get-set-false [] x i h = cc
get-set-false (b ∷ m) zero zero h = cc
get-set-false (b ∷ m) zero (suc i) h = (λ e. absurd (omega arith), h)
get-set-false (b ∷ m) (suc x) zero h = (λ e. absurd (omega arith), h)
get-set-false (b ∷ m) (suc x) (suc i) h =
    let (ne, g) = get-set-false m x i h in (λ e. ne (omega arith), g)

-- Where `P` holds, what is frozen in `m` is frozen in `m'`.
abbrev Covers : (ℕ → Type 0) → List Bool → List Bool → Type 0
Covers P m m' = (i : ℕ) → P i → get_or m i false ≡ true → get_or m' i false ≡ true

Covers-left :
    (P : ℕ → Type 0) (m m' : List Bool) (x : ℕ) → Covers P m m' → Covers P (set m x false) m'
Covers-left P m m' x h i p e = h i p (get-set-false m x i e).1

Covers-set :
    (P : ℕ → Type 0) (m m' : List Bool) (x : ℕ)
    → Covers P m m'
    → Covers P (set m x false) (set m' x false)
Covers-set P m m' x h i p e =
    let (ne, g) = get-set-false m x i e in get_or-set_ne m' x i false false ne ∙ h i p g

pub entries_below-Fresh :
    (n : ℕ) (xs : List ℕ) (m m' : List Bool)
    → Fresh xs m
    → Covers (λ i. i < n) m m'
    → Fresh (entries_below n xs) m'
unfolding Fresh entries_below
entries_below-Fresh n [] m m' f c = tt
entries_below-Fresh n (x ∷ xs) m m' f c =
    go (ltb x n) refl (λ m2 d. entries_below-Fresh n xs (set m x false) m2 f.1 d)
  where
    go :
        (b : Bool)
        → ltb x n ≡ b
        → ((m2 : List Bool)
            → Covers (λ i. i < n) (set m x false) m2
            → Fresh (entries_below n xs) m2)
        → Fresh (if b then x ∷ entries_below n xs else entries_below n xs) m'
    go true e ih = (c x (ground arith) f.0, ih (set m' x false) (Covers-set _ m m' x c))
    go false e ih = ih m' (Covers-left _ m m' x c)

pub drop-Fresh :
    (j : ℕ) (xs : List ℕ) (m m' : List Bool)
    → Fresh xs m
    → Covers (λ i. Unit {0}) m m'
    → Fresh (drop j xs) m'
unfolding Fresh
drop-Fresh zero [] m m' f c = tt
drop-Fresh (suc j) [] m m' f c = tt
drop-Fresh zero (x ∷ xs) m m' f c =
    (c x tt f.0, drop-Fresh zero xs (set m x false) (set m' x false) f.1 (Covers-set _ m m' x c))
drop-Fresh (suc j) (x ∷ xs) m m' f c =
    drop-Fresh j xs (set m x false) m' f.1 (Covers-left _ m m' x c)
