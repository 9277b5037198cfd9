-- ===== src/RateMatching/Dematch.antt =====
-- Dematching adds each LLR at the position that the key's own table names, whatever the cache held.
use syndrome.Prelude.{ℕ, zero, suc, ◌*◌, List, [], ◌∷◌, length, ◌≡◌, refl, ap, ◌∙◌}
use syndrome.Segmentation.{BaseGraph}
use syndrome.RateMatching.{
  RateMatchKey, RateMatchCache, ensure, answer, check_args, gather_table, add_at, accumulate,
  rate_dematch_llr_into,
}
use syndrome.RateMatching.Cached.{IsFresh, ensure_lem}

module _ {F : Type 0} (◌+F◌ : F → F → F) where
  length-add_at : (xs : List F) (i : ℕ) (v : F) → length (add_at ◌+F◌ xs i v) ≡ length xs
  unfolding add_at
  length-add_at [] i v = refl
  length-add_at (x ∷ xs) zero v = refl
  length-add_at (x ∷ xs) (suc i) v = ap suc (length-add_at xs i v)

  pub length-accumulate :
      (acc llrs : List F) (idx : List ℕ) → length (accumulate ◌+F◌ acc llrs idx) ≡ length acc
  unfolding accumulate
  length-accumulate acc [] idx = refl
  length-accumulate acc (llr ∷ llrs) [] = refl
  length-accumulate acc (llr ∷ llrs) (i ∷ idx) =
      length-accumulate (add_at ◌+F◌ acc i llr) llrs idx ∙ length-add_at acc i llr

  pub rate_dematch_llr_into_lem :
      (cache : RateMatchCache) (e_llr cb_llr : List F) (rv qm : ℕ) (bg : BaseGraph) (z n_filler : ℕ)
      → IsFresh cache
      → let key : RateMatchKey = record {
        bg = bg;
        z = z;
        rv = rv;
        qm = qm;
        n_filler = n_filler;
        e_bits = length e_llr;
      } in
        rate_dematch_llr_into ◌+F◌ cache e_llr cb_llr rv qm bg z n_filler
        ≡ answer
            (check_args rv qm z (length e_llr))
            cache
            (ensure cache key (2 * z))
            (accumulate ◌+F◌ cb_llr e_llr (gather_table key))
  unfolding rate_dematch_llr_into
  rate_dematch_llr_into_lem cache e_llr cb_llr rv qm bg z n_filler fresh =
      let key : RateMatchKey = record {
        bg = bg;
        z = z;
        rv = rv;
        qm = qm;
        n_filler = n_filler;
        e_bits = length e_llr;
      } in
      ap
        (λ idx.
          answer (check_args rv qm z (length e_llr)) cache (ensure cache key (2 * z))
            (accumulate ◌+F◌ cb_llr e_llr idx))
        (ensure_lem cache key fresh).2
