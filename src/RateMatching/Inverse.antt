-- ===== src/RateMatching/Inverse.antt =====
-- The uncached dematching of src/rate_matching.rs undoes rate matching.
use syndrome.Prelude.{
  ℕ, zero, suc, ◌+◌, ◌*◌, ◌/◌, ◌≤◌, ◌<◌, List, [], ◌∷◌, ◌++◌, map, drop, length, length-map,
  length-tabulate, get_or, get_or-tabulate, tabulate, tabulate_ext, map-tabulate_from, concat,
  concat-tabulate, append-nil, Result, ok, ok-injective, err, ◌>>=◌, ◌≡◌, refl, sym, ap, ap₂, ◌∙◌,
  arith,
}
use syndrome.Segmentation.{BaseGraph}
use syndrome.RateMatching.{
  window, selected, interleave, interleaved_to_selection_index, codeword_bit, check_args,
  rate_match, deinterleave_f32, accumulate, rate_dematch_llr,
}
use syndrome.RateMatching.Cached.{index-slot, interleave-tabulate}
use syndrome.RateMatching.Stale.{tabulate-get_or}
use syndrome.RateMatching.Memo.{check_args-ok}

slot-lt : (col row qm rows : ℕ) → col < qm → row < rows → col * rows + row < qm * rows
slot-lt col row qm rows hc hr = grind arith

map-tabulate :
    {A B : Type 0} (h : A → B) (n : ℕ) (f : ℕ → A)
    → map h (tabulate n f) ≡ tabulate n (λ j. h (f j))
unfolding tabulate
map-tabulate h n f = map-tabulate_from h 0 n f

drop_all : (n : ℕ) (xs : List ℕ) → length xs ≤ n → drop n xs ≡ []
drop_all zero [] h = refl
drop_all zero (x ∷ xs) h = absurd (omega (arith, h))
drop_all (suc n) [] h = refl
drop_all (suc n) (x ∷ xs) h = drop_all n xs (omega (arith, h))

-- The deinterleaver undoes the interleaver.
deinterleave_f32-interleave :
    {F : Type 0} (zero_f : F) (send : ℕ → F) (e : List ℕ) (qm rows : ℕ)
    → 0 < qm
    → length e ≡ qm * rows
    → deinterleave_f32 zero_f (map send (interleave e qm)) qm ≡ map send e
unfolding deinterleave_f32
deinterleave_f32-interleave {F = F} zero_f send e qm rows pos size =
    ap₂
      (λ (l : List F) (r : ℕ).
        concat (tabulate r (λ row. tabulate qm (λ col. get_or l (col * r + row) zero_f))))
      {u = length (map send (interleave e qm)) / qm} {v = rows} wire count
    ∙ ap concat (
        tabulate_ext rows _ (λ row. tabulate qm (λ col. slot (row * qm + col)))
          (λ row hr.
            tabulate_ext qm _ (λ col. slot (row * qm + col))
              (λ col hc.
                get_or-tabulate (qm * rows) (λ p. slot (index p)) (col * rows + row) zero_f
                  (slot-lt col row qm rows hc hr)
                ∙ ap slot (index-slot col row qm rows hr))))
    ∙ concat-tabulate rows qm slot
    ∙ ap (λ (n : ℕ). tabulate n slot) {x = rows * qm} {y = length e} (omega (arith, size))
    ∙ sym (map-tabulate send (length e) (λ p. get_or e p 0))
    ∙ ap (map send) (tabulate-get_or e)
  where
    slot : ℕ → F
    slot p = send (get_or e p 0)

    index : ℕ → ℕ
    index p = interleaved_to_selection_index p qm rows

    wire_slots : List F
    wire_slots = tabulate (qm * rows) (λ p. slot (index p))

    row_count : length e / qm ≡ rows
    row_count = grind (arith, size, pos)

    wire : map send (interleave e qm) ≡ wire_slots
    wire =
        ap (map send) (interleave-tabulate e qm)
        ∙ ap
            (λ (r : ℕ).
              map send
                (tabulate (qm * r) (λ p. get_or e (interleaved_to_selection_index p qm r) 0)))
            row_count
        ∙ map-tabulate send (qm * rows) (λ p. get_or e (index p) 0)

    count : length (map send (interleave e qm)) / qm ≡ rows
    count =
        ap (λ l. length l / qm) wire
        ∙ ap (λ (n : ℕ). n / qm) (length-tabulate (qm * rows) (λ p. slot (index p)))
        ∙ grind (arith, pos)

length-interleave : (e : List ℕ) (qm : ℕ) → length (interleave e qm) ≡ qm * (length e / qm)
length-interleave e qm =
    ap length (interleave-tabulate e qm) ∙ length-tabulate (qm * (length e / qm)) _

-- When the selection fills every slot and `rate_match` succeeds, the uncached dematching of the
-- LLRs of the bits sent adds to each selected position of the buffer the LLR of the codeword bit
-- at that position, in the order of selection.
pub rate_dematch_llr-rate_match :
    {F : Type 0} (◌+F◌ : F → F → F) (zero_f : F) (send : ℕ → F) (codeword e_out sent : List ℕ)
    (cb_llr : List F) (rv qm : ℕ) (bg : BaseGraph) (z n_filler : ℕ)
    → let sel = selected (window bg z rv n_filler) (length e_out) in
      length sel ≡ length e_out
      → rate_match codeword e_out rv qm bg z n_filler ≡ ok sent
      → rate_dematch_llr ◌+F◌ zero_f (map send sent) cb_llr rv qm bg z n_filler
        ≡ ok (
            accumulate ◌+F◌ cb_llr
              (map send (map (λ pos. codeword_bit codeword (pos + 2 * z)) sel))
              sel)
unfolding rate_match rate_dematch_llr
rate_dematch_llr-rate_match {F = F} ◌+F◌ zero_f send codeword e_out sent cb_llr rv qm bg z n_filler
      full matched =
    go (check_args rv qm z (length e_out)) refl matched
  where
    sel : List ℕ
    sel = selected (window bg z rv n_filler) (length e_out)

    bits : List ℕ
    bits = map (λ pos. codeword_bit codeword (pos + 2 * z)) sel

    filled : List ℕ
    filled = bits ++ drop (length sel) e_out

    filled_eq : filled ≡ bits
    filled_eq =
        ap (λ l. bits ++ l) (drop_all (length sel) e_out (omega (arith, full))) ∙ append-nil bits

    bits_length : length bits ≡ length e_out
    bits_length = length-map sel _ ∙ full

    dematched : ℕ → List F → Result (List F)
    dematched n llr = check_args rv qm z n >>= λ _.
        ok (accumulate ◌+F◌ cb_llr llr (selected (window bg z rv n_filler) n))

    go :
        (r : Result (Unit {0}))
        → check_args rv qm z (length e_out) ≡ r
        → (r >>= λ _. ok (interleave filled qm)) ≡ ok sent
        → dematched (length (map send sent)) (deinterleave_f32 zero_f (map send sent) qm)
          ≡ ok (accumulate ◌+F◌ cb_llr (map send bits) sel)
    go (ok u) e h =
        let c = check_args-ok rv qm z (length e_out) u e in
        let rows = length e_out / qm in
        let even : length bits ≡ qm * rows = bits_length ∙ grind (arith, c.even, c.qm_pos) in
        let wire : sent ≡ interleave bits qm =
          ok-injective sent (interleave bits qm)
            (sym h ∙ ap (λ l. ok (interleave l qm)) filled_eq) in
        let sized : length (map send sent) ≡ length e_out =
          length-map sent send
          ∙ ap length wire
          ∙ length-interleave bits qm
          ∙ ap (λ (n : ℕ). qm * (n / qm)) bits_length
          ∙ sym even
          ∙ bits_length in
        ap₂ dematched sized (
          ap (λ l. deinterleave_f32 zero_f (map send l) qm) wire
          ∙ deinterleave_f32-interleave zero_f send bits qm rows c.qm_pos even)
        ∙ ap (λ r. r >>= λ _. ok (accumulate ◌+F◌ cb_llr (map send bits) sel)) e
    go (err x) e h = cc
