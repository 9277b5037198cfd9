-- ===== src/Turbo.antt =====
-- src/turbo.rs: the turbo encoder and its interleaver. The decoder works on floats.
pub mod Weave
pub mod Layout
pub mod Terminate
pub mod Inverse
pub mod Interleaver
mod Tests
use syndrome.Prelude.{
  ℕ, zero, suc, ◌+◌, ◌*◌, ◌/◌, ◌%◌, ◌^◌, bit_or, bit_xor, List, [], ◌∷◌, length, get_or, set,
  tabulate, ltb, ◌==◌, not, Option, none, some, if◌then◌else◌, Result, ok, err, fail_if, ◌>>=◌,
  ◌>>◌, invalid_param, buffer_too_small,
}
use syndrome.Word.{◌>>>◌}

abbrev pub qpp_table : List (ℕ × ℕ × ℕ)
qpp_table =
    (40, 3, 10)
    ∷ (104, 7, 26)
    ∷ (256, 15, 32)
    ∷ (512, 31, 64)
    ∷ (1024, 31, 64)
    ∷ (2048, 31, 64)
    ∷ (4096, 31, 64)
    ∷ (6144, 263, 480)
    ∷ []

-- The search of `qpp_params` in the rows that are left.
pub find_params : ℕ → List (ℕ × ℕ × ℕ) → Option (ℕ × ℕ)
find_params k [] = none
find_params k ((kk, f1, f2) ∷ rows) = if kk == k then some (f1, f2) else find_params k rows

pub qpp_params : ℕ → Option (ℕ × ℕ)
qpp_params k = find_params k qpp_table

-- The products stay far below 2 ^ 64 at every supported size.
pub build_qpp_interleaver : ℕ → ℕ → ℕ → List ℕ
build_qpp_interleaver k f1 f2 = tabulate k (λ i. (f1 * i + f2 * i * i) % k)

-- The entries of `RSC_TRELLIS` for state `s` and input `b`: the next state and the parity bit.
pub rsc_feedback : ℕ → ℕ → ℕ
rsc_feedback s b = bit_xor (bit_xor b ((s >>> 1) % 2)) ((s >>> 2) % 2)

pub rsc_next : ℕ → ℕ → ℕ
rsc_next s b = bit_or (bit_or (rsc_feedback s b) (s % 2 * 2)) ((s >>> 1) % 2 * 4)

pub rsc_parity : ℕ → ℕ → ℕ
rsc_parity s b = bit_xor (bit_xor (rsc_feedback s b) (s % 2)) ((s >>> 2) % 2)

-- `build_rsc_trellis`, indexed by `state * 2 + input_bit`.
pub rsc_trellis : List ℕ × List ℕ
rsc_trellis =
    (tabulate 16 (λ i. rsc_next (i / 2) (i % 2)), tabulate 16 (λ i. rsc_parity (i / 2) (i % 2)))

abbrev pub next_state : ℕ → ℕ → ℕ
next_state s b = get_or rsc_trellis.0 (s * 2 + b) 0

abbrev pub out_z : ℕ → ℕ → ℕ
out_z s b = get_or rsc_trellis.1 (s * 2 + b) 0

pub record TurboEncoder : Type 0 where
  pub k : ℕ
  pub pi : List ℕ

-- The encoder for the parameters that were found.
abbrev pub with_params : ℕ → Option (ℕ × ℕ) → Result TurboEncoder
with_params k none = err (invalid_param "unsupported turbo block length K")
with_params k (some (f1, f2)) = ok (record { k = k; pi = build_qpp_interleaver k f1 f2 })

-- `TurboEncoder::new`
pub new : ℕ → Result TurboEncoder
new k = with_params k (qpp_params k)

pub output_len : TurboEncoder → ℕ
output_len enc = 3 * enc.k + 12

-- The loop of encoder 1 from step `t` on: its last state and the output.
pub encode_natural : ℕ → ℕ → List ℕ → List ℕ → ℕ × List ℕ
encode_natural t state1 [] out = (state1, out)
encode_natural t state1 (bit ∷ bits) out =
    let b = bit % 2 in
    encode_natural (t + 1) (next_state state1 b) bits
      (set (set out (3 * t) b) (3 * t + 1) (out_z state1 b))

-- The loop of encoder 2 over the interleaver's entries.
pub encode_interleaved : List ℕ → ℕ → ℕ → List ℕ → List ℕ → ℕ × List ℕ
encode_interleaved info t state2 [] out = (state2, out)
encode_interleaved info t state2 (p ∷ pi) out =
    let b = get_or info p 0 % 2 in
    encode_interleaved info (t + 1) (next_state state2 b) pi (set out (3 * t + 2) (out_z state2 b))

-- The loop of termination steps, `left` of them, that write from `base` on.
pub terminate : ℕ → ℕ → ℕ → List ℕ → ℕ × List ℕ
terminate zero base state out = (state, out)
terminate (suc left) base state out =
    let b = bit_xor ((state >>> 1) % 2) ((state >>> 2) % 2) in
    terminate left (base + 2) (next_state state b) (set (set out base b) (base + 1) (out_z state b))

-- `TurboEncoder::encode`: the written output.
pub encode : TurboEncoder → List ℕ → List ℕ → Result (List ℕ)
encode enc info out = do
  fail_if (not (length info == enc.k)) (invalid_param "info length must equal K")
  fail_if (ltb (length out) (output_len enc)) (buffer_too_small (output_len enc) (length out))
  let (state1, out1) = encode_natural 0 0 info out
  let (state2, out2) = encode_interleaved info 0 0 enc.pi out1
  let (end1, out3) = terminate 3 (3 * enc.k) state1 out2
  let (end2, out4) = terminate 3 (3 * enc.k + 6) state2 out3
  ok out4
