-- ===== src/Viterbi.antt =====
-- src/viterbi.rs: the convolutional encoder and the scalar hard-decision decoder. The kernels for the
-- vector units of a processor, with the butterfly tables that only they read, the soft decoders, whose
-- metrics are floats, and the tail-biting decoders are not modelled.
pub mod Trellis
pub mod Acs
pub mod Paths
pub mod Survivors
pub mod Words
pub mod Optimal
pub mod RoundTrip
pub mod TailBiting
mod Tests
use syndrome.Prelude.{
  ℕ, zero, suc, ◌+◌, ◌-◌, ◌*◌, ◌/◌, ◌%◌, ◌^◌, min, bit_and, bit_or, bit_xor, Bool, true, false,
  ◌||◌, List, [], ◌∷◌, ◌++◌, map, length, get_or, set, take, drop, replicate, tabulate, concat, ltb,
  ◌==◌, if◌then◌else◌, Result, ok, err, fail_if, ◌>>=◌, ◌>>◌, invalid_param,
}
use syndrome.Word.{◌>>>◌, count_ones}

abbrev pub max_constraint_length : ℕ
max_constraint_length = 16

-- Indexed by `state * 2 + input_bit`.
pub record TrellisTable : Type 0 where
  pub n_states : ℕ
  pub next_state : List ℕ
  pub out0 : List ℕ
  pub out1 : List ℕ

-- The full shift register: the new bit enters at the top.
pub shift_register : ℕ → ℕ → ℕ → ℕ
shift_register k s b =
    let mask = if ltb k 32 then 2 ^ k - 1 else 2 ^ 32 - 1 in
    bit_and (bit_or (b * 2 ^ (k - 1)) s % 2 ^ 32) mask

-- One entry for each state and each input bit.
pub per_branch : ℕ → (ℕ → ℕ → ℕ) → List ℕ
per_branch n_states entry = tabulate (n_states * 2) (λ i. entry (i / 2) (i % 2))

-- `TrellisTable::build`
pub build : ℕ → ℕ → ℕ → TrellisTable
build k g0 g1 =
    let n_states = if ltb 0 k then 2 ^ (k - 1) else 1 in
    record {
      n_states = n_states;
      next_state = per_branch n_states (λ s b. (shift_register k s b >>> 1) % 2 ^ 16);
      out0 = per_branch n_states (λ s b. count_ones 32 (bit_and (shift_register k s b) g0) % 2);
      out1 = per_branch n_states (λ s b. count_ones 32 (bit_and (shift_register k s b) g1) % 2);
    }

pub default_generators : ℕ → ℕ × ℕ
default_generators k =
    if k == 1
    then (1, 1)
    else if k == 2
    then (3, 2)
    else if k == 3
    then (7, 5)
    else if k == 4
    then (15, 11)
    else if k == 5
    then (19, 29)
    else if k == 6
    then (43, 61)
    else if k == 7
    then (91, 121)
    else if k == 8
    then (167, 249)
    else if k == 9
    then (369, 491)
    else ((2 ^ k - 1) % 2 ^ 32, bit_or (((2 ^ k - 1) % 2 ^ 32) >>> 1) 1)

-- Of the scratch buffers only the traceback table is kept: the metrics are written before they are
-- read.
pub record ViterbiDecoder : Type 0 where
  pub constraint_length : ℕ
  pub trellis : TrellisTable
  pub traceback : List ℕ

pub check_k : ℕ → Result (Unit {0})
check_k k =
    fail_if (k == 0 || ltb max_constraint_length k)
      (invalid_param "Viterbi constraint length must be in 1..=16")

pub with_generators : ℕ → ℕ → ℕ → Result ViterbiDecoder
with_generators k g0 g1 = do
  check_k k
  ok (record { constraint_length = k; trellis = build k g0 g1; traceback = [] })

-- `ViterbiDecoder::new`
pub new : ℕ → Result ViterbiDecoder
new k = do
  check_k k
  let (g0, g1) = default_generators k
  ok (record { constraint_length = k; trellis = build k g0 g1; traceback = [] })

module _ (trellis : TrellisTable) where
  abbrev pub next : ℕ → ℕ → ℕ
  next s b = get_or trellis.next_state (s * 2 + b) 0

  -- The loops of the two encoders: the coded bits from a state on.
  pub encode_from : ℕ → List ℕ → List ℕ
  encode_from state [] = []
  encode_from state (bit ∷ bits) =
      let b = bit % 2 in
      get_or trellis.out0 (state * 2 + b) 0
      ∷ get_or trellis.out1 (state * 2 + b) 0
      ∷ encode_from (next state b) bits

-- `ViterbiDecoder::encode`
pub encode : ViterbiDecoder → List ℕ → List ℕ
encode dec info = encode_from dec.trellis 0 (info ++ replicate (dec.constraint_length - 1) 0)

-- The loop that pre-loads the register, from bit `i` on.
pub preload : ℕ → ℕ → List ℕ → ℕ
preload i state [] = state
preload i state (bit ∷ bits) = preload (i + 1) (bit_or state (bit % 2 * 2 ^ i)) bits

-- `ViterbiDecoder::encode_tail_biting`
pub encode_tail_biting : ViterbiDecoder → List ℕ → Result (List ℕ)
encode_tail_biting dec info = do
  let reg_len = dec.constraint_length - 1
  fail_if (ltb (length info) reg_len)
      (invalid_param "tail-biting encode requires at least K-1 info bits to pre-load the register")
  ok (encode_from dec.trellis (preload 0 0 (drop (length info - reg_len) info)) info)

-- `u32::MAX / 2`
abbrev pub inf : ℕ
inf = 2147483647

-- The branch metric: how many of the two received bits differ from the branch's.
pub branch_metric : TrellisTable → ℕ → ℕ → ℕ → ℕ → ℕ
branch_metric trellis r0 r1 s b =
    bit_xor r0 (get_or trellis.out0 (s * 2 + b) 0) + bit_xor r1 (get_or trellis.out1 (s * 2 + b) 0)

module _ (trellis : TrellisTable) (cur_met : List ℕ) (r0 r1 : ℕ) where
  -- The body of the inner loop, on `nxt_met` and the row of the traceback table.
  pub relax : ℕ → ℕ → List ℕ × List ℕ → List ℕ × List ℕ
  relax s b (nxt_met, row) =
      let ns = next trellis s b in
      let new = min (get_or cur_met s 0 + branch_metric trellis r0 r1 s b) (2 ^ 32 - 1) in
      if ltb new (get_or nxt_met ns 0) then (set nxt_met ns new, set row ns s) else (nxt_met, row)

  -- The body of the outer loop.
  pub relax_state : ℕ → List ℕ × List ℕ → List ℕ × List ℕ
  relax_state s tables = if get_or cur_met s 0 == inf then tables else relax s 1 (relax s 0 tables)

  pub relax_states : ℕ → ℕ → List ℕ × List ℕ → List ℕ × List ℕ
  relax_states zero s tables = tables
  relax_states (suc left) s tables = relax_states left (s + 1) (relax_state s tables)

  pub acs_step_hard_scalar : List ℕ → List ℕ × List ℕ
  acs_step_hard_scalar row = relax_states trellis.n_states 0 (replicate trellis.n_states inf, row)

module _ (trellis : TrellisTable) (coded traceback : List ℕ) where
  -- The loop over the trellis steps from `t` on, with the rows written so far, the latest first.
  pub acs_steps : ℕ → ℕ → List ℕ → List (List ℕ) → List (List ℕ)
  acs_steps zero t cur_met rows = rows
  acs_steps (suc left) t cur_met rows =
      let old = take trellis.n_states (drop (t * trellis.n_states) traceback) in
      let (nxt_met, row) =
        acs_step_hard_scalar trellis cur_met (get_or coded (2 * t) 0 % 2)
          (get_or coded (2 * t + 1) 0 % 2) old in
      acs_steps left (t + 1) nxt_met (row ∷ rows)

-- `traceback_from_zero`, from state `s` and the rows that are left; the bits are found last to first.
pub traceback_from : TrellisTable → ℕ → List (List ℕ) → ℕ → List ℕ → List ℕ
traceback_from trellis n_info [] s decoded = decoded
traceback_from trellis n_info (row ∷ rows) s decoded =
    let ps = get_or row s 0 in
    let b = if get_or trellis.next_state (ps * 2) 0 == s then 0 else 1 in
    traceback_from trellis n_info rows ps
      (if ltb (length rows) n_info then b ∷ decoded else decoded)

-- `ViterbiScratch::ensure_traceback`
pub ensure_traceback : List ℕ → ℕ → List ℕ
ensure_traceback traceback needed =
    if ltb (length traceback) needed
    then traceback ++ replicate (needed - length traceback) 0
    else traceback

abbrev pub reverse_rows : List (List ℕ) → List ℕ → List ℕ
reverse_rows [] later = later
reverse_rows (row ∷ rows) later = reverse_rows rows (row ++ later)

-- `decode_hard_scalar`: the traceback table afterwards, and the decoded bits.
pub decode_hard_scalar : ViterbiDecoder → List ℕ → List ℕ × List ℕ
decode_hard_scalar dec coded =
    let n_states = dec.trellis.n_states in
    let t_max = length coded / 2 in
    let n_info = t_max - (dec.constraint_length - 1) in
    let table = ensure_traceback dec.traceback (n_states * t_max) in
    let start = set (replicate n_states inf) 0 0 in
    let rows = acs_steps dec.trellis coded table t_max 0 start [] in
    if n_info == 0 then (dec.traceback, []) else (
      reverse_rows rows (drop (n_states * t_max) table),
      traceback_from dec.trellis n_info rows 0 [],
    )
