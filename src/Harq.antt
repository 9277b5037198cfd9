-- ===== src/Harq.antt =====
-- src/harq.rs: the soft-combining buffer. LLRs are floats: a type with its addition and its zero.
pub mod Combine
mod Tests
use syndrome.Prelude.{
  ℕ, ◌+◌, ◌*◌, List, ◌++◌, drop, length, map, ltb, if◌then◌else◌, replicate, Result, ok, err,
  fail_if, ◌>>=◌, ◌>>◌, buffer_too_small,
}
use syndrome.Segmentation.{BaseGraph, coded_columns}
use syndrome.RateMatching.{RateMatchCache, empty_cache, rate_dematch_llr_into}

pub record HarqBuffer (F : Type 0) : Type 0 where
  pub bg : BaseGraph
  pub z : ℕ
  pub n_filler : ℕ
  pub acc : List F
  pub tx_count : ℕ
  pub rm_cache : RateMatchCache

module _ {F : Type 0} (◌+F◌ : F → F → F) (zero_f : F) where
  pub with_filler : BaseGraph → ℕ → ℕ → HarqBuffer F
  with_filler bg z n_filler = record {
    bg = bg;
    z = z;
    n_filler = n_filler;
    acc = replicate (coded_columns bg * z) zero_f;
    tx_count = 0;
    rm_cache = empty_cache;
  }

  -- `HarqBuffer::new`
  pub new : BaseGraph → ℕ → HarqBuffer F
  new bg z = with_filler bg z 0

  pub ncb : HarqBuffer F → ℕ
  ncb h = length h.acc

  -- The filler count of a call.
  pub filler_of : HarqBuffer F → ℕ → ℕ
  filler_of h n_filler_override = if ltb 0 n_filler_override then n_filler_override else h.n_filler

  -- What `?` and the statements after it make of the dematching result.
  abbrev pub finish :
      HarqBuffer F → RateMatchCache × Result (List F) → HarqBuffer F × Result (Unit {0})
  finish h (cache', ok acc') = (
    record {
      bg = h.bg;
      z = h.z;
      n_filler = h.n_filler;
      acc = acc';
      tx_count = h.tx_count + 1;
      rm_cache = cache';
    },
    ok tt,
  )
  finish h (cache', err e) = (
    record {
      bg = h.bg;
      z = h.z;
      n_filler = h.n_filler;
      acc = h.acc;
      tx_count = h.tx_count;
      rm_cache = cache';
    },
    err e,
  )

  -- The new buffer and the result.
  pub combine : HarqBuffer F → List F → ℕ → ℕ → ℕ → HarqBuffer F × Result (Unit {0})
  combine h e_llr rv qm n_filler_override = finish h (
      rate_dematch_llr_into ◌+F◌ h.rm_cache e_llr h.acc rv qm h.bg h.z
        (filler_of h n_filler_override))

  -- The written destination.
  pub copy_llr_into : HarqBuffer F → List F → Result (List F)
  copy_llr_into h dst = do
    fail_if (ltb (length dst) (length h.acc)) (buffer_too_small (length h.acc) (length dst))
    ok (h.acc ++ drop (length h.acc) dst)

  pub flush : HarqBuffer F → HarqBuffer F
  flush h = record {
    bg = h.bg;
    z = h.z;
    n_filler = h.n_filler;
    acc = map (λ v. zero_f) h.acc;
    tx_count = 0;
    rm_cache = h.rm_cache;
  }
