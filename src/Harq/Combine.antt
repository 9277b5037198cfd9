-- ===== src/Harq/Combine.antt =====
-- What a sequence of transmissions leaves in the buffer.
use syndrome.Prelude.{
  ℕ, ◌+◌, ◌*◌, List, [], ◌∷◌, length, length-map, replicate, length-replicate, Result, ok, err, ◌≡◌,
  refl, sym, subst, map, ap, ◌∙◌,
}
use syndrome.Segmentation.{BaseGraph, coded_columns}
use syndrome.RateMatching.{RateMatchKey, ensure, answer, check_args, gather_table, accumulate}
use syndrome.RateMatching.Cached.{IsFresh, empty_cache-IsFresh, ensure_lem}
use syndrome.RateMatching.Dematch.{length-accumulate, rate_dematch_llr_into_lem}
use syndrome.Harq.{HarqBuffer, with_filler, filler_of, finish, combine, flush}

module _ {F : Type 0} (◌+F◌ : F → F → F) (zero_f : F) where
  -- One accumulator to each place of the circular buffer, and a cache whose tables are its key's.
  pub record IsValid (h : HarqBuffer F) : Type 0 where
    pub sized : length h.acc ≡ coded_columns h.bg * h.z
    pub fresh : IsFresh h.rm_cache

  abbrev pub call_key : HarqBuffer F → List F → ℕ → ℕ → ℕ → RateMatchKey
  call_key h e_llr rv qm n_filler_override = record {
    bg = h.bg;
    z = h.z;
    rv = rv;
    qm = qm;
    n_filler = filler_of ◌+F◌ zero_f h n_filler_override;
    e_bits = length e_llr;
  }

  -- What a call gives: nothing but the error, or the LLRs added where the key's own table says.
  abbrev pub Combined :
      HarqBuffer F
      → List F
      → ℕ
      → ℕ
      → ℕ
      → Result (Unit {0})
      → HarqBuffer F × Result (Unit {0})
      → Type 0
  Combined h e_llr rv qm n_filler_override (err x) outcome = outcome ≡ (h, err x)
  Combined h e_llr rv qm n_filler_override (ok _) outcome =
      (outcome.1 ≡ ok tt)
      × (outcome.0.tx_count ≡ h.tx_count + 1)
      × (outcome.0.acc
          ≡ accumulate ◌+F◌ h.acc e_llr (gather_table (call_key h e_llr rv qm n_filler_override)))

  -- On a valid buffer `combine` leaves a valid buffer. When the argument checks refuse, it returns
  -- their error and changes nothing; otherwise it counts the transmission and adds each LLR where
  -- the index table of the call names, whatever the cache held before.
  pub combine_lem :
      (h : HarqBuffer F) (e_llr : List F) (rv qm n_filler_override : ℕ)
      → IsValid h
      → let outcome = combine ◌+F◌ zero_f h e_llr rv qm n_filler_override in
        IsValid outcome.0
        × Combined h e_llr rv qm n_filler_override (check_args rv qm h.z (length e_llr)) outcome
  unfolding combine
  combine_lem h e_llr rv qm n_filler_override v =
      subst
        (λ outcome.
          IsValid (finish ◌+F◌ zero_f h outcome).0
          × Combined h e_llr rv qm n_filler_override (check_args rv qm h.z (length e_llr))
              (finish ◌+F◌ zero_f h outcome))
        (sym (
          rate_dematch_llr_into_lem ◌+F◌ h.rm_cache e_llr h.acc rv qm h.bg h.z
            (filler_of ◌+F◌ zero_f h n_filler_override) v.fresh))
        (go (check_args rv qm h.z (length e_llr)))
    where
      key : RateMatchKey
      key = call_key h e_llr rv qm n_filler_override

      acc' : List F
      acc' = accumulate ◌+F◌ h.acc e_llr (gather_table key)

      go :
          (r : Result (Unit {0}))
          → let outcome =
              finish ◌+F◌ zero_f h (answer r h.rm_cache (ensure h.rm_cache key (2 * h.z)) acc') in
            IsValid outcome.0 × Combined h e_llr rv qm n_filler_override r outcome
      go (ok u) = (
        record {
          sized = length-accumulate ◌+F◌ h.acc e_llr (gather_table key) ∙ v.sized;
          fresh = (ensure_lem h.rm_cache key v.fresh).0;
        },
        (refl, refl, refl),
      )
      go (err x) = (record { sized = v.sized; fresh = v.fresh }, refl)

  -- Flushing a valid buffer leaves a valid one with no transmission counted and the zero
  -- accumulators of a new buffer.
  pub flush_lem :
      (h : HarqBuffer F)
      → IsValid h
      → let flushed = flush ◌+F◌ zero_f h in
        IsValid flushed
        × (flushed.tx_count ≡ 0)
        × (flushed.acc ≡ (with_filler ◌+F◌ zero_f h.bg h.z h.n_filler).acc)
  unfolding flush with_filler
  flush_lem h v = (
    record { sized = length-map h.acc _ ∙ v.sized; fresh = v.fresh },
    refl,
    zeros h.acc ∙ ap (λ (n : ℕ). replicate n zero_f) v.sized,
  )
    where
      zeros : (xs : List F) → map (λ x. zero_f) xs ≡ replicate (length xs) zero_f
      zeros [] = refl
      zeros (x ∷ xs) = ap (◌∷◌ zero_f) (zeros xs)

  pub with_filler-IsValid :
      (bg : BaseGraph) (z n_filler : ℕ) → IsValid (with_filler ◌+F◌ zero_f bg z n_filler)
  unfolding with_filler
  with_filler-IsValid bg z n_filler = record {
    sized = length-replicate (coded_columns bg * z) zero_f;
    fresh = empty_cache-IsFresh;
  }
