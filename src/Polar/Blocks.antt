-- ===== src/Polar/Blocks.antt =====
-- The inner loops of `polar_transform` in src/polar.rs, block by block.
use syndrome.Prelude.{
  ℕ, zero, suc, ◌+◌, ◌*◌, ◌≤◌, ◌<◌, false, List, [], ◌∷◌, ◌++◌, append_assoc, map, ltb, lt→ltb,
  length, length-append, get_or, set, All, concat, bit_xor, if◌then◌else◌, ◌≡◌, refl, sym, ap, ap₂,
  ◌∙◌, arith,
}
use syndrome.Polar.{xor_run, butterflies}

abbrev pub zip_xor : List ℕ → List ℕ → List ℕ
zip_xor [] ys = []
zip_xor (x ∷ xs) [] = []
zip_xor (x ∷ xs) (y ∷ ys) = bit_xor x y ∷ zip_xor xs ys

get_or-append_right :
    (xs ys : List ℕ) (i d : ℕ) → get_or (xs ++ ys) (length xs + i) d ≡ get_or ys i d
get_or-append_right [] ys i d = ap (λ (n : ℕ). get_or ys n d) {x = 0 + i} {y = i} (omega arith)
get_or-append_right (x ∷ xs) ys i d =
    ap (λ (n : ℕ). get_or (x ∷ xs ++ ys) n d) {y = suc (length xs + i)} (omega arith)
    ∙ get_or-append_right xs ys i d

pub set-append_right :
    (xs ys : List ℕ) (i v : ℕ) → set (xs ++ ys) (length xs + i) v ≡ xs ++ set ys i v
set-append_right [] ys i v = ap (λ (n : ℕ). set ys n v) {x = 0 + i} {y = i} (omega arith)
set-append_right (x ∷ xs) ys i v =
    ap (λ (n : ℕ). set (x ∷ xs ++ ys) n v) {y = suc (length xs + i)} (omega arith)
    ∙ ap (◌∷◌ x) (set-append_right xs ys i v)

snoc-append : (xs ys : List ℕ) (y : ℕ) → (xs ++ y ∷ []) ++ ys ≡ xs ++ y ∷ ys
snoc-append xs ys y = append_assoc xs (y ∷ []) ys

-- The run at the end of `pre` adds the second half of a block to its first. The part `mid` of the
-- second half was used already.
pub xor_run_lem :
    (step : ℕ) (pre a mid b post : List ℕ)
    → length a ≡ length b
    → length a + length mid ≡ step
    → xor_run step (length pre) (length a) (pre ++ (a ++ (mid ++ (b ++ post))))
      ≡ pre ++ (zip_xor a b ++ (mid ++ (b ++ post)))
unfolding xor_run
xor_run_lem step pre [] mid b post e h = refl
xor_run_lem step pre (x ∷ a) mid [] post e h = absurd (omega arith)
xor_run_lem step pre (x ∷ a) mid (y ∷ b) post e h =
    let tail = a ++ (mid ++ y ∷ (b ++ post)) in
    let z = bit_xor x y in
    let here =
      ap (λ (n : ℕ). get_or (pre ++ x ∷ tail) n 0) {x = length pre} {y = length pre + 0}
        (omega arith)
      ∙ get_or-append_right pre (x ∷ tail) 0 0 in
    let there =
      get_or-append_right pre (x ∷ tail) step 0
      ∙ ap (λ (n : ℕ). get_or (x ∷ tail) n 0) {x = step} {y = suc (length a + (length mid + 0))}
          (omega arith)
      ∙ get_or-append_right a (mid ++ y ∷ (b ++ post)) (length mid + 0) 0
      ∙ get_or-append_right mid (y ∷ (b ++ post)) 0 0 in
    let written =
      ap (λ (n : ℕ). set (pre ++ x ∷ tail) n z) {x = length pre} {y = length pre + 0} (omega arith)
      ∙ set-append_right pre (x ∷ tail) 0 z in
    let regroup = λ (l : List ℕ).
      snoc-append pre (l ++ ((mid ++ y ∷ []) ++ (b ++ post))) z
      ∙ ap (λ (m : List ℕ). pre ++ z ∷ (l ++ m)) (snoc-append mid (b ++ post) y) in
    ap (λ (v : ℕ). xor_run step (length pre + 1) (length a) (set (pre ++ x ∷ tail) (length pre) v))
      (ap₂ bit_xor here there)
    ∙ ap (xor_run step (length pre + 1) (length a)) written
    ∙ ap₂ (λ (n : ℕ) (l : List ℕ). xor_run step n (length a) l) (sym (length-append pre (z ∷ [])))
        (sym (regroup a))
    ∙ xor_run_lem step (pre ++ z ∷ []) a (mid ++ y ∷ []) b post (omega arith)
        (omega (arith, length-append mid (y ∷ [])))
    ∙ regroup (zip_xor a b)

-- One block of a stage.
abbrev pub combine : List ℕ × List ℕ → List ℕ
combine (a, b) = zip_xor a b ++ b

abbrev pub flat : List (List ℕ × List ℕ) → List ℕ
flat [] = []
flat ((a, b) ∷ pairs) = (a ++ b) ++ flat pairs

-- Both halves of each block have `step` elements.
abbrev pub OfSize : ℕ → List (List ℕ × List ℕ) → Type 0
OfSize step pairs = All (λ (p : List ℕ × List ℕ). (length p.0 ≡ step) × (length p.1 ≡ step)) pairs

pub length-flat :
    (step : ℕ) (pairs : List (List ℕ × List ℕ))
    → OfSize step pairs
    → length (flat pairs) ≡ length pairs * (2 * step)
length-flat step [] p = omega arith
length-flat step ((a, b) ∷ pairs) p = omega (
  arith,
  length-append (a ++ b) (flat pairs),
  length-append a b,
  p.0.0,
  p.0.1,
  length-flat step pairs p.1,
)

pub length-zip_xor : (a b : List ℕ) → length a ≡ length b → length (zip_xor a b) ≡ length a
length-zip_xor [] b h = refl
length-zip_xor (x ∷ a) [] h = absurd (omega arith)
length-zip_xor (x ∷ a) (y ∷ b) h = ap suc (length-zip_xor a b (omega arith))

pub ltb-false : (a b : ℕ) → b ≤ a → ltb a b ≡ false
ltb-false a b h = ground arith

-- One block in place.
pub xor_block :
    (step : ℕ) (pre a b rest : List ℕ)
    → length a ≡ step
    → length b ≡ step
    → xor_run step (length pre) step (pre ++ ((a ++ b) ++ rest)) ≡ (pre ++ combine (a, b)) ++ rest
xor_block step pre a b rest ha hb =
    ap₂ (λ (n : ℕ) (l : List ℕ). xor_run step (length pre) n (pre ++ l)) (sym ha)
      (append_assoc a b rest)
    ∙ xor_run_lem step pre a [] b rest (omega (arith, ha, hb)) (omega (arith, ha))
    ∙ sym (
        append_assoc pre (combine (a, b)) rest
        ∙ ap (λ (l : List ℕ). pre ++ l) (append_assoc (zip_xor a b) b rest))

-- A pass over the blocks after `pre`.
pub butterflies_lem :
    (n step fuel : ℕ) (pre : List ℕ) (pairs : List (List ℕ × List ℕ))
    → 0 < step
    → OfSize step pairs
    → n ≡ length pre + length (flat pairs)
    → length pairs ≤ fuel
    → butterflies n step fuel (length pre) (pre ++ flat pairs) ≡ pre ++ concat (map combine pairs)
unfolding butterflies
butterflies_lem n step zero pre [] pos p h k = refl
butterflies_lem n step (suc fuel) pre [] pos p h k =
    ap
      (λ c.
        if c
        then butterflies n step fuel (length pre + 2 * step)
            (xor_run step (length pre) step (pre ++ []))
        else pre ++ [])
      (ltb-false (length pre) n (omega arith))
butterflies_lem n step zero pre (pair ∷ pairs) pos p h k = absurd (omega arith)
butterflies_lem n step (suc fuel) pre ((a, b) ∷ pairs) pos p h k =
    let size = length-append (zip_xor a b) b in
    let zipped = length-zip_xor a b (omega (arith, p.0.0, p.0.1)) in
    let grown = length-append pre (combine (a, b)) in
    let flat_size = length-append (a ++ b) (flat pairs) in
    let block_size = length-append a b in
    let u = pre ++ ((a ++ b) ++ flat pairs) in
    ap
      (λ c.
        if c
        then butterflies n step fuel (length pre + 2 * step) (xor_run step (length pre) step u)
        else u)
      (lt→ltb (length pre) n (omega (arith, h, flat_size, block_size, p.0.0)))
    ∙ ap₂ (butterflies n step fuel) {x = length pre + 2 * step} {y = length (pre ++ combine (a, b))}
        (omega (arith, grown, size, zipped, p.0.0, p.0.1))
        (xor_block step pre a b (flat pairs) p.0.0 p.0.1)
    ∙ butterflies_lem n step fuel (pre ++ combine (a, b)) pairs pos p.1
        (omega (arith, h, flat_size, block_size, grown, size, zipped)) (omega arith)
    ∙ append_assoc pre (combine (a, b)) (concat (map combine pairs))
