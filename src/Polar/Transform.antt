-- ===== src/Polar/Transform.antt =====
-- The loops of `polar_transform` in src/polar.rs compute the recursive transform.
use native.Mathlib.Nat.{pow-suc}
use mathlib.Core.List.{map-append}
use syndrome.Word.Xor.{pow_pos}
use syndrome.Prelude.{
  ℕ, zero, suc, ◌+◌, ◌*◌, ◌^◌, ◌≤◌, ◌<◌, List, [], ◌∷◌, ◌++◌, append_assoc, append-nil, map, lt→ltb,
  length, length-append, length-map, length-take, length-drop, take-append-drop, take, drop, All,
  concat, if◌then◌else◌, ◌≡◌, refl, sym, ap, ap₂, ◌∙◌, arith,
}
use syndrome.Polar.{butterflies, stages, polar_transform}
use syndrome.Polar.Blocks.{
  zip_xor, combine, flat, OfSize, length-flat, length-zip_xor, ltb-false, butterflies_lem,
}

-- x = u · G on 2 ^ k bits, by halves.
unfoldable pub transform : ℕ → List ℕ → List ℕ
transform zero u = u
transform (suc k) u =
    let left = transform k (take (2 ^ k) u) in
    let right = transform k (drop (2 ^ k) u) in zip_xor left right ++ right

-- The pieces of a word between two stages, and one stage on them.
abbrev pub merge : List (List ℕ) → List (List ℕ)
merge [] = []
merge (a ∷ []) = []
merge (a ∷ b ∷ pieces) = combine (a, b) ∷ merge pieces

abbrev pub pair_up : List (List ℕ) → List (List ℕ × List ℕ)
pair_up [] = []
pair_up (a ∷ []) = []
pair_up (a ∷ b ∷ pieces) = (a, b) ∷ pair_up pieces

abbrev pub merges : ℕ → List (List ℕ) → List (List ℕ)
merges zero pieces = pieces
merges (suc k) pieces = merges k (merge pieces)

-- Two to the power `k` pieces of `step` bits.
abbrev pub IsCut : ℕ → ℕ → List (List ℕ) → Type 0
IsCut k step pieces = (length pieces ≡ 2 ^ k) × All (λ (piece : List ℕ). length piece ≡ step) pieces

stage_pieces :
    (half step : ℕ) (pieces : List (List ℕ))
    → length pieces ≡ 2 * half
    → All (λ (piece : List ℕ). length piece ≡ step) pieces
    → (flat (pair_up pieces) ≡ concat pieces)
      × OfSize step (pair_up pieces)
      × (length (pair_up pieces) ≡ half)
      × (concat (map combine (pair_up pieces)) ≡ concat (merge pieces))
      × (length (merge pieces) ≡ half)
      × All (λ (piece : List ℕ). length piece ≡ step * 2) (merge pieces)
stage_pieces half step [] h p = (refl, tt, omega arith, refl, omega arith, tt)
stage_pieces half step (a ∷ []) h p = absurd (omega arith)
stage_pieces zero step (a ∷ b ∷ pieces) h p = absurd (omega arith)
stage_pieces (suc half) step (a ∷ b ∷ pieces) h p =
    let (f, o, l, c, m, q) = stage_pieces half step pieces (omega arith) p.1.1 in
    (
      ap (λ (t : List ℕ). (a ++ b) ++ t) f ∙ append_assoc a b (concat pieces),
      ((p.0, p.1.0), o),
      ap suc l,
      ap (λ (t : List ℕ). combine (a, b) ++ t) c,
      ap suc m,
      (
        omega (
          arith,
          length-append (zip_xor a b) b,
          length-zip_xor a b (omega (arith, p.0, p.1.0)),
          p.0,
          p.1.0,
        ),
        q,
      ),
    )

cut_size :
    (k step n : ℕ)
    → n ≡ 2 ^ suc k * step
    → 0 < step
    → (step < n) × (n ≡ 2 ^ k * (step * 2)) × (2 ^ k ≤ n)
cut_size k step n h pos = go (2 ^ k) (pow_pos k) (h ∙ ap (λ (t : ℕ). t * step) (pow-suc 2 k))
  where
    go : (t : ℕ) → 0 < t → n ≡ t * 2 * step → (step < n) × (n ≡ t * (step * 2)) × (t ≤ n)
    go t p e = (grind arith, grind arith, grind arith)

stages_lem :
    (n k fuel step : ℕ) (pieces : List (List ℕ))
    → 0 < step
    → n ≡ 2 ^ k * step
    → k ≤ fuel
    → length pieces ≡ 2 ^ k
    → All (λ (piece : List ℕ). length piece ≡ step) pieces
    → stages n fuel step (concat pieces) ≡ concat (merges k pieces)
unfolding stages
stages_lem n zero zero step pieces pos h f l p = refl
stages_lem n zero (suc fuel) step pieces pos h f l p =
    ap
      (λ c.
        if c
        then stages n fuel (step * 2) (butterflies n step n 0 (concat pieces))
        else concat pieces)
      (ltb-false step n (omega (arith, h)))
stages_lem n (suc k) zero step pieces pos h f l p = absurd (omega arith)
stages_lem n (suc k) (suc fuel) step pieces pos h f l p =
    let (more, same, room) = cut_size k step n h pos in
    let (flats, sizes, count, combined, merged, cut) =
      stage_pieces (2 ^ k) step pieces (omega (arith, l, pow-suc 2 k)) p in
    let total = ap length (sym flats) in
    ap
      (λ c.
        if c
        then stages n fuel (step * 2) (butterflies n step n 0 (concat pieces))
        else concat pieces)
      (lt→ltb step n more)
    ∙ ap (stages n fuel (step * 2)) (
        ap (butterflies n step n 0) (sym flats)
        ∙ butterflies_lem n step n [] (pair_up pieces) pos sizes
            (flat_total n k step (pair_up pieces) same count sizes) (omega (arith, count, room))
        ∙ combined)
    ∙ stages_lem n k fuel (step * 2) (merge pieces) (omega arith) same (omega arith) merged cut
  where
    flat_total :
        (n k step : ℕ) (pairs : List (List ℕ × List ℕ))
        → n ≡ 2 ^ k * (step * 2)
        → length pairs ≡ 2 ^ k
        → OfSize step pairs
        → n ≡ 0 + length (flat pairs)
    flat_total n k step pairs same count sizes =
        same
        ∙ ap₂ (λ (a b : ℕ). a * b) {y = length pairs} {v = 2 * step} (sym count) (omega arith)
        ∙ sym (length-flat step pairs sizes)
        ∙ omega arith

abbrev singletons : List ℕ → List (List ℕ)
singletons u = map (λ x. x ∷ []) u

concat-singletons : (u : List ℕ) → concat (singletons u) ≡ u
concat-singletons [] = refl
concat-singletons (x ∷ u) = ap (◌∷◌ x) (concat-singletons u)

singletons-sizes : (u : List ℕ) → All (λ (piece : List ℕ). length piece ≡ 1) (singletons u)
singletons-sizes [] = tt
singletons-sizes (x ∷ u) = (refl, singletons-sizes u)

merge-append :
    (half : ℕ) (xs ys : List (List ℕ))
    → length xs ≡ 2 * half
    → (merge (xs ++ ys) ≡ merge xs ++ merge ys) × (length (merge xs) ≡ half)
merge-append half [] ys h = (refl, omega arith)
merge-append half (a ∷ []) ys h = absurd (omega arith)
merge-append zero (a ∷ b ∷ xs) ys h = absurd (omega arith)
merge-append (suc half) (a ∷ b ∷ xs) ys h =
    let (e, l) = merge-append half xs ys (omega arith) in (ap (◌∷◌ (combine (a, b))) e, ap suc l)

merges-append :
    (k : ℕ) (xs ys : List (List ℕ))
    → length xs ≡ 2 ^ k
    → merges k (xs ++ ys) ≡ merges k xs ++ merges k ys
merges-append zero xs ys h = refl
merges-append (suc k) xs ys h =
    let (e, l) = merge-append (2 ^ k) xs ys (omega (arith, h, pow-suc 2 k)) in
    ap (merges k) e ∙ merges-append k (merge xs) (merge ys) l

merges-suc : (k : ℕ) (pieces : List (List ℕ)) → merges (suc k) pieces ≡ merge (merges k pieces)
merges-suc zero pieces = refl
merges-suc (suc k) pieces = merges-suc k (merge pieces)

pub take-half :
    (k : ℕ) (u : List ℕ)
    → length u ≡ 2 ^ suc k
    → (length (take (2 ^ k) u) ≡ 2 ^ k) × (length (drop (2 ^ k) u) ≡ 2 ^ k)
take-half k u h = (
  omega (arith, h, pow-suc 2 k, length-take (2 ^ k) u),
  omega (arith, h, pow-suc 2 k, length-drop (2 ^ k) u),
)

merges-transform :
    (k : ℕ) (u : List ℕ) → length u ≡ 2 ^ k → merges k (singletons u) ≡ transform k u ∷ []
unfolding transform
merges-transform zero [] h = absurd (omega arith)
merges-transform zero (x ∷ []) h = refl
merges-transform zero (x ∷ y ∷ u) h = absurd (omega arith)
merges-transform (suc k) u h =
    let (l, r) = take-half k u h in
    let a = take (2 ^ k) u in
    let b = drop (2 ^ k) u in
    merges-suc k (singletons u)
    ∙ ap (λ (v : List ℕ). merge (merges k (singletons v))) (sym (take-append-drop (2 ^ k) u))
    ∙ ap (λ (v : List (List ℕ)). merge (merges k v)) (map-append (λ x. x ∷ []) a b)
    ∙ ap merge (merges-append k (singletons a) (singletons b) (length-map a (λ x. x ∷ []) ∙ l))
    ∙ ap₂ (λ (s t : List (List ℕ)). merge (s ++ t)) (merges-transform k a l)
        (merges-transform k b r)

lt-pow : (k : ℕ) → k ≤ 2 ^ k
lt-pow zero = omega arith
lt-pow (suc k) = omega (arith, pow-suc 2 k, lt-pow k, pow_pos k)

-- The loops compute the recursive transform.
pub polar_transform-transform :
    (k : ℕ) (u : List ℕ) → length u ≡ 2 ^ k → polar_transform u ≡ transform k u
unfolding polar_transform
polar_transform-transform k u h =
    ap (stages (length u) (length u) 1) (sym (concat-singletons u))
    ∙ stages_lem (length u) k (length u) 1 (singletons u) (omega arith) (omega (arith, h))
        (omega (arith, h, lt-pow k)) (length-map u (λ x. x ∷ []) ∙ h) (singletons-sizes u)
    ∙ ap concat (merges-transform k u h)
    ∙ append-nil (transform k u)
