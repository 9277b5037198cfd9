-- ===== src/RateMatching.antt =====
-- src/rate_matching.rs: bit selection from the circular buffer, interleaving, and the memoized index
-- tables. `saturating_sub` is `-`. The selection loop runs on fuel, `Walk.walk_total` shows that it
-- is enough. Indices stay far below 2 ^ 64.
mod Tests
pub mod Walk
pub mod Cached
pub mod Memo
pub mod Stale
pub mod Wire
pub mod Dematch
pub mod Inverse
use mathlib.Core.Option
use syndrome.Prelude.{
  ℕ, zero, suc, ◌+◌, ◌-◌, ◌*◌, ◌/◌, ◌%◌, ◌≤◌, min, Bool, true, false, ◌&&◌, ◌||◌, List, [], ◌∷◌,
  ◌++◌, map, ltb, leb, ◌==◌, if◌then◌else◌, length, take, drop, replicate, get_or, get_elem?, set,
  tabulate, concat, Option, none, some, Result, ok, err, fail_if, ◌>>=◌, ◌>>◌, invalid_param, not,
}
use syndrome.Segmentation.{BaseGraph, bg1, bg2, coded_columns, systematic_columns}

-- `RV_K0_SETS`
abbrev pub rv_k0_sets : BaseGraph → List ℕ
rv_k0_sets bg1 = 0 ∷ 17 ∷ 33 ∷ 56 ∷ []
rv_k0_sets bg2 = 0 ∷ 13 ∷ 25 ∷ 43 ∷ []

-- The table is read out of range only for `rv >= 4`, which every caller refuses.
pub rv_k0 : BaseGraph → ℕ → ℕ → ℕ
rv_k0 bg rv z = get_or (rv_k0_sets bg) rv 0 * z

-- What the selection loop reads: the buffer size, the filler positions and the start.
pub record Window : Type 0 where
  pub ncb : ℕ
  pub filler_start : ℕ
  pub filler_end : ℕ
  pub k0 : ℕ

pub window : BaseGraph → ℕ → ℕ → ℕ → Window
window bg z rv n_filler =
    let k = systematic_columns bg * z in
    let k_prime = k - n_filler in
    let two_z = 2 * z in
    record {
      ncb = coded_columns bg * z;
      filler_start = k_prime - two_z;
      filler_end = k - two_z;
      k0 = rv_k0 bg rv z;
    }

pub position : Window → ℕ → ℕ
position w j = (w.k0 + j) % w.ncb

pub is_filler : Window → ℕ → Bool
is_filler w pos = leb w.filler_start pos && ltb pos w.filler_end

-- The loop at `j` with `left` slots still to fill: the positions that it selects, in order, until
-- it has filled the slots or breaks. `none` means that the fuel ran out.
pub walk : Window → ℕ → ℕ → ℕ → Option (List ℕ)
walk w zero left j = none
walk w (suc fuel) zero j = some []
walk w (suc fuel) (suc left) j =
    let pos = position w j in
    let skipped = walk w fuel (suc left) (j + 1) in
    let rest = walk w fuel left (j + 1) in
    if is_filler w pos
    then skipped
    else if ltb (2 * w.ncb) (j + 1)
    then some (pos ∷ [])
    else Option.map (◌∷◌ pos) rest

abbrev pub walk_fuel : Window → ℕ
walk_fuel w = 3 * w.ncb + 1

pub selected : Window → ℕ → List ℕ
selected w e_bits = Option.get_or (walk w (walk_fuel w) e_bits 0) []

-- `selection_walk`: slots that a break leaves unfilled keep the zero that they began with.
pub selection_walk : BaseGraph → ℕ → ℕ → ℕ → ℕ → List ℕ
selection_walk bg z rv n_filler e_bits =
    let sel = selected (window bg z rv n_filler) e_bits in sel ++ replicate (e_bits - length sel) 0

-- `interleave`: the loops over columns and rows write slot `col * rows + row`, so in order.
pub interleave : List ℕ → ℕ → List ℕ
interleave e qm =
    let rows = length e / qm in
    concat (tabulate qm (λ col. tabulate rows (λ row. get_or e (row * qm + col) 0)))

-- A codeword bit, or 0 past its end.
pub codeword_bit : List ℕ → ℕ → ℕ
codeword_bit codeword i = if ltb i (length codeword) then get_or codeword i 0 else 0

-- The checks at the head of each rate-matching function.
pub check_args : ℕ → ℕ → ℕ → ℕ → Result (Unit {0})
check_args rv qm z e_bits = do
  fail_if (leb 4 rv) (invalid_param "RV must be 0..=3")
  fail_if (qm == 0) (invalid_param "Qm must be > 0")
  fail_if (z == 0) (invalid_param "lifting size Z must be > 0")
  fail_if (not (e_bits % qm == 0)) (invalid_param "E must be divisible by Qm")
  ok tt

-- `rate_match`: slots that a break leaves unfilled keep what the caller's buffer held.
pub rate_match : List ℕ → List ℕ → ℕ → ℕ → BaseGraph → ℕ → ℕ → Result (List ℕ)
rate_match codeword e_out rv qm bg z n_filler = do
  check_args rv qm z (length e_out)
  let sel = selected (window bg z rv n_filler) (length e_out)
  let filled = map (λ pos. codeword_bit codeword (pos + 2 * z)) sel ++ drop (length sel) e_out
  ok (interleave filled qm)

pub record RateMatchKey : Type 0 where
  pub bg : BaseGraph
  pub z : ℕ
  pub rv : ℕ
  pub qm : ℕ
  pub n_filler : ℕ
  pub e_bits : ℕ

pub interleaved_to_selection_index : ℕ → ℕ → ℕ → ℕ
interleaved_to_selection_index x qm rows = x % rows * qm + x / rows

pub record RateMatchCache : Type 0 where
  pub key : Option RateMatchKey
  pub enc_idx : List ℕ
  pub dec_idx : List ℕ

-- `RateMatchCache::new`
pub empty_cache : RateMatchCache
empty_cache = record { key = none; enc_idx = []; dec_idx = [] }

abbrev pub same_graph : BaseGraph → BaseGraph → Bool
same_graph bg1 bg1 = true
same_graph bg2 bg2 = true
same_graph _ _ = false

-- The derived equality of `RateMatchKey`.
pub same_key : RateMatchKey → RateMatchKey → Bool
same_key a b =
    same_graph a.bg b.bg
    && a.z == b.z
    && a.rv == b.rv
    && a.qm == b.qm
    && a.n_filler == b.n_filler
    && a.e_bits == b.e_bits

pub holds_key : Option RateMatchKey → RateMatchKey → Bool
holds_key none key = false
holds_key (some k) key = same_key k key

-- The circular-buffer position of each wire-order slot.
pub gather_table : RateMatchKey → List ℕ
gather_table key =
    let sel_pos = selection_walk key.bg key.z key.rv key.n_filler key.e_bits in
    let rows = key.e_bits / key.qm in
    tabulate key.e_bits (λ p. get_or sel_pos (interleaved_to_selection_index p key.qm rows) 0)

-- `RateMatchCache::ensure`
pub ensure : RateMatchCache → RateMatchKey → ℕ → RateMatchCache
ensure cache key two_z = if holds_key cache.key key then cache else record {
  key = some key;
  enc_idx = map (λ pos. pos + two_z) (gather_table key);
  dec_idx = gather_table key;
}

-- `out.iter_mut().zip(idx)`: slots past the shorter one keep what they held.
pub gather : List ℕ → List ℕ → List ℕ → List ℕ
gather codeword [] idx = []
gather codeword (old ∷ out) [] = old ∷ out
gather codeword (old ∷ out) (i ∷ idx) = codeword_bit codeword i ∷ gather codeword out idx

-- A refused call leaves the cache as it was.
abbrev pub answer {ℓ} :
    {A : Type ℓ}
    → Result (Unit {0})
    → RateMatchCache
    → RateMatchCache
    → A
    → RateMatchCache × Result A
answer (ok _) cache cache' out = (cache', ok out)
answer (err e) cache cache' out = (cache, err e)

-- `RateMatchCache::rate_match_into`: the new cache, and the filled buffer or an error.
pub rate_match_into :
    RateMatchCache → List ℕ → List ℕ → ℕ → ℕ → BaseGraph → ℕ → ℕ → RateMatchCache × Result (List ℕ)
rate_match_into cache codeword e_out rv qm bg z n_filler =
    let e_bits = length e_out in
    let key : RateMatchKey = record {
      bg = bg;
      z = z;
      rv = rv;
      qm = qm;
      n_filler = n_filler;
      e_bits = e_bits;
    } in
    let cache' = ensure cache key (2 * z) in
    answer (check_args rv qm z e_bits) cache cache' (gather codeword e_out cache'.enc_idx)

-- `deinterleave_f32`: slot `row * qm + col` is written once, from slot `col * rows + row`.
pub deinterleave_f32 : {F : Type 0} → F → List F → ℕ → List F
deinterleave_f32 zero_f e qm =
    let rows = length e / qm in
    concat (tabulate rows (λ row. tabulate qm (λ col. get_or e (col * rows + row) zero_f)))

-- LLRs are floats: a type with its addition.
module _ {F : Type 0} (◌+F◌ : F → F → F) where
  -- `if idx < cb_llr.len() { cb_llr[idx] += llr }`
  pub add_at : List F → ℕ → F → List F
  add_at [] i v = []
  add_at (x ∷ xs) zero v = ◌+F◌ x v ∷ xs
  add_at (x ∷ xs) (suc i) v = x ∷ add_at xs i v

  -- The scatter loop over the zipped slices.
  pub accumulate : List F → List F → List ℕ → List F
  accumulate cb_llr [] idx = cb_llr
  accumulate cb_llr (llr ∷ llrs) [] = cb_llr
  accumulate cb_llr (llr ∷ llrs) (i ∷ idx) = accumulate (add_at cb_llr i llr) llrs idx

  -- `RateMatchCache::rate_dematch_llr_into`
  pub rate_dematch_llr_into :
      RateMatchCache
      → List F
      → List F
      → ℕ
      → ℕ
      → BaseGraph
      → ℕ
      → ℕ
      → RateMatchCache × Result (List F)
  rate_dematch_llr_into cache e_llr cb_llr rv qm bg z n_filler =
      let e_bits = length e_llr in
      let key : RateMatchKey = record {
        bg = bg;
        z = z;
        rv = rv;
        qm = qm;
        n_filler = n_filler;
        e_bits = e_bits;
      } in
      let cache' = ensure cache key (2 * z) in
      answer (check_args rv qm z e_bits) cache cache' (accumulate cb_llr e_llr cache'.dec_idx)

  -- The uncached `rate_dematch_llr`: the selection loop adds the LLR of each slot that it reaches.
  pub rate_dematch_llr : F → List F → List F → ℕ → ℕ → BaseGraph → ℕ → ℕ → Result (List F)
  rate_dematch_llr zero_f e_llr cb_llr rv qm bg z n_filler = do
    check_args rv qm z (length e_llr)
    let e_deint = deinterleave_f32 zero_f e_llr qm
    ok (accumulate cb_llr e_deint (selected (window bg z rv n_filler) (length e_llr)))
