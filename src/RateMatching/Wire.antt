-- ===== src/RateMatching/Wire.antt =====
-- What `rate_match_into` returns does not depend on the buffer or on what a fresh cache holds.
use syndrome.Prelude.{
  ℕ, ◌+◌, ◌*◌, List, map, length, length-map, length-tabulate, Result, ok, err, ◌>>=◌, ◌≡◌, refl,
  sym, ap, ◌∙◌,
}
use syndrome.RateMatching.{
  codeword_bit, check_args, RateMatchKey, RateMatchCache, gather_table, ensure, answer, gather,
  rate_match_into,
}
use syndrome.RateMatching.Cached.{IsFresh, ensure_lem, gather-full}

-- The bits that go out for a codeword, in order.
pub wire_bits : RateMatchKey → List ℕ → List ℕ
wire_bits key codeword =
    map (codeword_bit codeword) (map (λ pos. pos + 2 * key.z) (gather_table key))

length-gather_table : (key : RateMatchKey) → length (gather_table key) ≡ key.e_bits
unfolding gather_table
length-gather_table key = length-tabulate key.e_bits _

length-indices :
    (key : RateMatchKey) → length (map (λ pos. pos + 2 * key.z) (gather_table key)) ≡ key.e_bits
length-indices key = length-map (gather_table key) _ ∙ length-gather_table key

pub length-wire_bits :
    (key : RateMatchKey) (codeword : List ℕ) → length (wire_bits key codeword) ≡ key.e_bits
unfolding wire_bits
length-wire_bits key codeword = length-map _ (codeword_bit codeword) ∙ length-indices key

-- The key of a call that fills `n` slots.
with_slots : RateMatchKey → ℕ → RateMatchKey
with_slots key n = record {
  bg = key.bg;
  z = key.z;
  rv = key.rv;
  qm = key.qm;
  n_filler = key.n_filler;
  e_bits = n;
}

own_length :
    (cache : RateMatchCache) (codeword e_out : List ℕ) (key : RateMatchKey)
    → IsFresh cache
    → let outcome = rate_match_into cache codeword e_out key.rv key.qm key.bg key.z key.n_filler in
      IsFresh outcome.0
      × (outcome.1 ≡ (
          check_args key.rv key.qm key.z (length e_out) >>= λ _.
          ok (wire_bits (with_slots key (length e_out)) codeword)))
unfolding rate_match_into wire_bits with_slots
own_length cache codeword e_out key fresh = go (check_args key.rv key.qm key.z (length e_out))
  where
    own : RateMatchKey
    own = with_slots key (length e_out)

    held :
        IsFresh (ensure cache own (2 * key.z))
        × ((ensure cache own (2 * key.z)).enc_idx ≡ map (λ pos. pos + 2 * key.z) (gather_table own))
    held = let (kept, enc, dec) = ensure_lem cache own fresh in (kept, enc)

    go :
        (r : Result (Unit {0}))
        → let outcome =
            answer r cache
              (ensure cache own (2 * key.z))
              (gather codeword e_out (ensure cache own (2 * key.z)).enc_idx) in
          IsFresh outcome.0 × (outcome.1 ≡ (r >>= λ _. ok (wire_bits own codeword)))
    go (ok u) = (
      held.0,
      ap ok (
          ap (gather codeword e_out) held.1
          ∙ gather-full codeword e_out _ (sym (length-indices own))),
    )
    go (err x) = (fresh, refl)

pub rate_match_into-wire_bits :
    (cache : RateMatchCache) (codeword e_out : List ℕ) (key : RateMatchKey)
    → IsFresh cache
    → length e_out ≡ key.e_bits
    → let outcome = rate_match_into cache codeword e_out key.rv key.qm key.bg key.z key.n_filler in
      IsFresh outcome.0
      × (outcome.1
          ≡ (check_args key.rv key.qm key.z key.e_bits >>= λ _. ok (wire_bits key codeword)))
unfolding with_slots
rate_match_into-wire_bits cache codeword e_out key fresh size =
    let (kept, e) = own_length cache codeword e_out key fresh in
    (
      kept,
      e
          ∙ ap
              (λ n. check_args key.rv key.qm key.z n >>= λ _.
                ok (wire_bits (with_slots key n) codeword))
              size,
    )
