-- ===== src/RateMatching/Walk.antt =====
-- The selection loop: it ends, it stays in the buffer, it never selects a filler.
use mathlib.Core.Option
use native.Mathlib.Nat.{mod-lt, mod-eq_of_lt, add-mul-mod_self_right}
use syndrome.Prelude.{
  ℕ, zero, suc, ◌+◌, ◌-◌, ◌*◌, ◌%◌, ◌≤◌, ◌<◌, min, true, false, List, [], ◌∷◌, ltb, length,
  tabulate_from, tabulate, All, Option, none, some, Bool-cases, dec_le, inl, inr, ◌≡◌, refl, sym,
  subst, ap, ◌∙◌, arith,
}
use syndrome.Segmentation.{BaseGraph, bg1, bg2}
use syndrome.RateMatching.{Window, window, rv_k0, position, is_filler, walk, walk_fuel, selected}

-- What the windows of the code have in common.
pub record IsProper (w : Window) : Type 0 where
  pub start_in : w.k0 < w.ncb
  pub last_free : w.filler_end < w.ncb

pub window-IsProper :
    (bg : BaseGraph) (z rv n_filler : ℕ) → 0 < z → rv < 4 → IsProper (window bg z rv n_filler)
unfolding window rv_k0
window-IsProper bg1 z zero n_filler pos h = omega arith
window-IsProper bg1 z (suc zero) n_filler pos h = omega arith
window-IsProper bg1 z (suc (suc zero)) n_filler pos h = omega arith
window-IsProper bg1 z (suc (suc (suc zero))) n_filler pos h = omega arith
window-IsProper bg2 z zero n_filler pos h = omega arith
window-IsProper bg2 z (suc zero) n_filler pos h = omega arith
window-IsProper bg2 z (suc (suc zero)) n_filler pos h = omega arith
window-IsProper bg2 z (suc (suc (suc zero))) n_filler pos h = omega arith
window-IsProper bg z (suc (suc (suc (suc rv)))) n_filler pos h = absurd (omega arith)

module _ (w : Window) where
  -- The last position of the buffer is no filler, and the loop passes it with `j` at least
  -- `2 * ncb`.
  last_stop : ℕ
  last_stop = 3 * w.ncb - 1 - w.k0

  position-last_stop : IsProper w → position w last_stop ≡ w.ncb - 1
  unfolding position last_stop
  position-last_stop v =
      ap (λ (t : ℕ). t % w.ncb) {x = w.k0 + (3 * w.ncb - 1 - w.k0)} {y = w.ncb - 1 + 2 * w.ncb}
        (omega arith)
      ∙ add-mul-mod_self_right (w.ncb - 1) 2 w.ncb
      ∙ mod-eq_of_lt {n = w.ncb - 1} {m = w.ncb} (omega arith)

  at_last_stop : IsProper w → is_filler w (position w last_stop) ≡ false
  at_last_stop v = ap (is_filler w) (position-last_stop v) ∙ unfold is_filler in ground arith

  walk-some :
      (fuel left j : ℕ)
      → IsProper w
      → j ≤ last_stop
      → last_stop < j + fuel
      → (sel : List ℕ) × (walk w fuel left j ≡ some sel)
  unfolding walk
  walk-some zero left j v h k = absurd (omega arith)
  walk-some (suc fuel) zero j v h k = ([], refl)
  walk-some (suc fuel) (suc left) j v h k = elim (dec_le (suc j) last_stop) [
    | yes below ↦
        let (skipped, e) = walk-some fuel (suc left) (j + 1) v (omega arith) (omega arith) in
        let (rest, e') = walk-some fuel left (j + 1) v (omega arith) (omega arith) in
        elim (Bool-cases (is_filler w (position w j))) [
          | inl filler ↦ (skipped, rw (filler, e))
          | inr free ↦ elim (Bool-cases (ltb (2 * w.ncb) (j + 1))) [
            | inl stop ↦ (position w j ∷ [], rw (free, stop))
            | inr go ↦ (position w j ∷ rest, rw (free, go, e'))
          ]
        ]
    | no above ↦
        let at : j ≡ last_stop = omega arith in
        let stop : ltb (2 * w.ncb) (j + 1) ≡ true = unfold last_stop in ground arith in
        (
          position w j ∷ [],
          rw (ap (λ (i : ℕ). is_filler w (position w i)) at ∙ at_last_stop v, stop),
        )
  ]

  -- In a proper window, one whose start and filler end lie inside the buffer, for any number of
  -- slots, the selection loop ends within the fuel that `selected` gives it.
  pub walk_total :
      (e_bits : ℕ) → IsProper w → walk w (walk_fuel w) e_bits 0 ≡ some (selected w e_bits)
  unfolding selected
  walk_total e_bits v =
      let (sel, e) =
        walk-some (walk_fuel w) e_bits 0 v (omega arith) (unfold last_stop in omega arith) in
      e ∙ ap some (sym (ap (λ (o : Option (List ℕ)). Option.get_or o []) e))

  -- A selected position lies in the buffer and is no filler.
  abbrev pub IsFree : ℕ → Type 0
  IsFree pos = (pos < w.ncb) × (is_filler w pos ≡ false)

  abbrev Holds : ℕ → Option (List ℕ) → Type 0
  Holds left none = Unit
  Holds left (some sel) = All IsFree sel × (length sel ≤ left)

  position-lt : (j : ℕ) → IsProper w → position w j < w.ncb
  unfolding position
  position-lt j v = mod-lt (w.k0 + j) (omega arith)

  Holds-cons :
      (pos left : ℕ) (o : Option (List ℕ))
      → IsFree pos
      → Holds left o
      → Holds (suc left) (Option.map (◌∷◌ pos) o)
  Holds-cons pos left none free h = tt
  Holds-cons pos left (some sel) free h = ((free, h.0), omega (arith, h.1))

  walk-Holds : (fuel left j : ℕ) → IsProper w → Holds left (walk w fuel left j)
  unfolding walk
  walk-Holds zero left j v = tt
  walk-Holds (suc fuel) zero j v = (tt, omega arith)
  walk-Holds (suc fuel) (suc left) j v = elim (Bool-cases (is_filler w (position w j))) [
    | inl filler ↦ rw filler (walk-Holds fuel (suc left) (j + 1) v)
    | inr free ↦ elim (Bool-cases (ltb (2 * w.ncb) (j + 1))) [
      | inl stop ↦ rw (free, stop) (((position-lt j v, free), tt), omega arith)
      | inr go ↦
          rw (free, go)
            (Holds-cons (position w j) left _ (position-lt j v, free)
              (walk-Holds fuel left (j + 1) v))
    ]
  ]

  -- In a proper window every selected position lies in the circular buffer and is no filler, and
  -- there are at most as many as there are slots.
  pub selected-IsFree :
      (e_bits : ℕ)
      → IsProper w
      → All IsFree (selected w e_bits) × (length (selected w e_bits) ≤ e_bits)
  selected-IsFree e_bits v =
      subst (Holds e_bits) (walk_total e_bits v) (walk-Holds (walk_fuel w) e_bits 0 v)

  table :
      (j left n : ℕ)
      → n ≡ min left (2 * w.ncb + 1 - j)
      → some (tabulate_from j n (position w))
        ≡ some (tabulate_from j (min left (2 * w.ncb + 1 - j)) (position w))
  table j left n e = ap (λ (m : ℕ). some (tabulate_from j m (position w))) e

  -- With no filler the loop takes every position in turn, and breaks after `2 * ncb + 1` of them.
  walk_no_filler :
      (fuel left j : ℕ)
      → ((pos : ℕ) → is_filler w pos ≡ false)
      → j ≤ 2 * w.ncb
      → 2 * w.ncb < j + fuel
      → walk w (suc fuel) left j
        ≡ some (tabulate_from j (min left (2 * w.ncb + 1 - j)) (position w))
  unfolding walk tabulate_from
  walk_no_filler fuel zero j none_filler h k = table j 0 0 (omega arith)
  walk_no_filler zero (suc left) j none_filler h k = absurd (omega arith)
  walk_no_filler (suc fuel) (suc left) j none_filler h k =
      elim (Bool-cases (ltb (2 * w.ncb) (j + 1))) [
        | inl stop ↦ rw (none_filler (position w j), stop) (table j (suc left) 1 (ground arith))
        | inr go ↦
            rw
              (
                none_filler (position w j),
                go,
                walk_no_filler fuel left (j + 1) none_filler (ground arith) (omega arith),
              )
              (table j (suc left) (suc (min left (2 * w.ncb + 1 - (j + 1)))) (ground arith))
      ]

  pub selected_no_filler :
      (e_bits : ℕ)
      → IsProper w
      → ((pos : ℕ) → is_filler w pos ≡ false)
      → selected w e_bits ≡ tabulate (min e_bits (2 * w.ncb + 1)) (position w)
  unfolding selected tabulate
  selected_no_filler e_bits v none_filler =
      ap (λ (o : Option (List ℕ)). Option.get_or o [])
        (ap (λ (n : ℕ). walk w n e_bits 0) {x = 3 * w.ncb + 1} {y = suc (3 * w.ncb)} (omega arith)
          ∙ walk_no_filler (3 * w.ncb) e_bits 0 none_filler (omega arith) (omega arith)
          ∙ ap (λ (n : ℕ). some (tabulate_from 0 n (position w)))
              {x = min e_bits (2 * w.ncb + 1 - 0)} {y = min e_bits (2 * w.ncb + 1)} (omega arith))

-- With no filler bits no position is a filler.
pub window_no_filler : (bg : BaseGraph) (z rv pos : ℕ) → is_filler (window bg z rv 0) pos ≡ false
unfolding window is_filler
window_no_filler bg z rv pos = ground arith
