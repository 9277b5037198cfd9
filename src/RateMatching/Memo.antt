-- ===== src/RateMatching/Memo.antt =====
-- `rate_match_into` and `rate_match` agree while the selection fills every slot.
use syndrome.Prelude.{
  ℕ, ◌+◌, ◌*◌, ◌/◌, ◌%◌, ◌≤◌, ◌<◌, min, List, ◌++◌, map, drop, ==_iff, length, length-tabulate,
  tabulate, ◌⊎◌, inl, inr, ◌>>=◌, Result, ok, err, FecError, ◌≡◌, refl, sym, ap, ◌∙◌, arith,
}
use syndrome.Segmentation.{BaseGraph, coded_columns}
use syndrome.RateMatching.{
  window, position, selected, interleave, codeword_bit, check_args, rate_match, RateMatchKey,
  RateMatchCache, gather_table, ensure, answer, gather, rate_match_into,
}
use syndrome.RateMatching.Walk.{window-IsProper, selected_no_filler, window_no_filler}
use syndrome.RateMatching.Cached.{IsFresh, ensure_lem, gather-table, interleave-selected}

Result-cases {ℓ} :
    {A : Type ℓ} (r : Result A) → ((x : A) × (r ≡ ok x)) ⊎ ((e : FecError) × (r ≡ err e))
Result-cases (ok x) = inl (x, refl)
Result-cases (err e) = inr (e, refl)

pub record Checked (rv qm z e_bits : ℕ) : Type 0 where
  pub rv_small : rv < 4
  pub qm_pos : 0 < qm
  pub z_pos : 0 < z
  pub even : e_bits % qm ≡ 0

pub check_args_lem :
    (rv qm z e_bits : ℕ)
    → rv < 4
    → 0 < qm
    → 0 < z
    → e_bits % qm ≡ 0
    → check_args rv qm z e_bits ≡ ok tt
unfolding check_args
check_args_lem rv qm z e_bits version modulation lifted whole = ground arith

pub check_args-ok :
    (rv qm z e_bits : ℕ) (u : Unit {0}) → check_args rv qm z e_bits ≡ ok u → Checked rv qm z e_bits
unfolding check_args
check_args-ok rv qm z e_bits u h = record {
  rv_small = ground arith;
  qm_pos = ground arith;
  z_pos = ground arith;
  even = ground (arith, ==_iff (e_bits % qm) 0);
}

-- What the key of a call is.
abbrev call_key : ℕ → ℕ → BaseGraph → ℕ → ℕ → ℕ → RateMatchKey
call_key rv qm bg z n_filler e_bits = record {
  bg = bg;
  z = z;
  rv = rv;
  qm = qm;
  n_filler = n_filler;
  e_bits = e_bits;
}

-- With a fresh cache, one whose tables are those of its key, and a selection that fills every
-- slot, `rate_match_into` returns what `rate_match` returns, errors included, and leaves a fresh
-- cache.
pub rate_match_into-rate_match :
    (cache : RateMatchCache) (codeword e_out : List ℕ) (rv qm : ℕ) (bg : BaseGraph) (z n_filler : ℕ)
    → IsFresh cache
    → length (selected (window bg z rv n_filler) (length e_out)) ≡ length e_out
    → let (cache', result) = rate_match_into cache codeword e_out rv qm bg z n_filler in
      IsFresh cache' × (result ≡ rate_match codeword e_out rv qm bg z n_filler)
unfolding rate_match_into rate_match
rate_match_into-rate_match cache codeword e_out rv qm bg z n_filler fresh full =
    go (check_args rv qm z (length e_out)) refl
  where
    key : RateMatchKey
    key = call_key rv qm bg z n_filler (length e_out)

    cache' : RateMatchCache
    cache' = ensure cache key (2 * z)

    direct : List ℕ
    direct =
        let sel = selected (window bg z rv n_filler) (length e_out) in
        interleave (map (λ pos. codeword_bit codeword (pos + 2 * z)) sel ++ drop (length sel) e_out)
          qm

    go :
        (r : Result (Unit {0}))
        → check_args rv qm z (length e_out) ≡ r
        → let (kept, result) = answer r cache cache' (gather codeword e_out cache'.enc_idx) in
          IsFresh kept × (result ≡ (r >>= λ _. ok direct))
    go (ok u) e =
        let (kept, enc, dec) = ensure_lem cache key fresh in
        let c = check_args-ok rv qm z (length e_out) u e in
        (kept, ap ok (ap (gather codeword e_out) enc ∙ agree c))
      where
        agree :
            Checked rv qm z (length e_out)
            → gather codeword e_out (map (λ pos. pos + 2 * z) (gather_table key)) ≡ direct
        agree c =
            let rows = length e_out / qm in
            let even : length e_out ≡ qm * rows = grind (arith, c.even, c.qm_pos) in
            gather-table key codeword e_out rows refl even refl full
            ∙ sym (interleave-selected key codeword e_out rows refl even refl full)
    go (err x) e = (fresh, refl)

pub no_filler-selected :
    (bg : BaseGraph) (z rv e_bits : ℕ)
    → 0 < z
    → rv < 4
    → selected (window bg z rv 0) e_bits
      ≡ tabulate (min e_bits (2 * (coded_columns bg * z) + 1)) (position (window bg z rv 0))
unfolding window
no_filler-selected bg z rv e_bits pos small =
    selected_no_filler (window bg z rv 0) e_bits (window-IsProper bg z rv 0 pos small)
      (window_no_filler bg z rv)

-- For a positive lifting size, a redundancy version below 4 and no filler bits, the selection
-- fills every slot of an output of up to twice the buffer size and one more.
pub no_filler-full :
    (bg : BaseGraph) (z rv e_bits : ℕ)
    → 0 < z
    → rv < 4
    → e_bits ≤ 2 * (coded_columns bg * z) + 1
    → length (selected (window bg z rv 0) e_bits) ≡ e_bits
no_filler-full bg z rv e_bits pos small short =
    ap length (no_filler-selected bg z rv e_bits pos small)
    ∙ length-tabulate (min e_bits (2 * (coded_columns bg * z) + 1)) _
    ∙ omega arith
