-- ===== src/Polar.antt =====
-- src/polar.rs: the frozen positions, the transform, the encoder and the successive cancellation
-- decoder. A buffer that is changed in place is a list, returned as written. LLRs are a type `A`
-- with the float operations that the kernels use; the ordering of the positions above length 1024,
-- which the code computes in floats, is a parameter.
pub mod Reliability
pub mod Blocks
pub mod Transform
pub mod Kernels
pub mod Decode
pub mod Signs
pub mod RoundTrip
pub mod Distinct
pub mod Positions
pub mod Codec
mod Tests
use syndrome.Prelude.{
  ℕ, zero, suc, ◌+◌, ◌-◌, ◌*◌, ◌/◌, ◌%◌, ◌^◌, min, Bool, true, false, not, ◌||◌, List, [], ◌∷◌,
  ◌++◌, ◌==◌, ltb, leb, length, get_or, set, take, drop, replicate, Option, none, some, bit_and,
  bit_or, bit_xor, if◌then◌else◌, FecError, invalid_param, buffer_too_small, Result, ok, err,
  fail_if, ◌>>◌,
}
use syndrome.Crc.{CrcKind, Crc24}
use syndrome.Crc
use syndrome.Polar.Reliability.{reliability_seq}

-- `trailing_zeros`, with fuel: 2 ^ r divides a number below 2 ^ fuel only for r below the fuel.
pub zeros_from : ℕ → ℕ → ℕ
zeros_from zero n = 0
zeros_from (suc fuel) n = let rest = suc (zeros_from fuel (n / 2)) in if n % 2 == 0 then rest else 0

pub trailing_zeros : ℕ → ℕ
trailing_zeros n = zeros_from n n

pub is_power_of_two : ℕ → Bool
is_power_of_two n = n == 2 ^ trailing_zeros n

-- `filter(|&idx| idx < n)`
pub entries_below : ℕ → List ℕ → List ℕ
entries_below n [] = []
entries_below n (x ∷ xs) = if ltb x n then x ∷ entries_below n xs else entries_below n xs

pub unfreeze : List ℕ → List Bool → List Bool
unfreeze [] is_frozen = is_frozen
unfreeze (pos ∷ rest) is_frozen = unfreeze rest (set is_frozen pos false)

-- `by_weight` is the ordering by polarization weight.
pub frozen_mask : (ℕ → List ℕ) → ℕ → ℕ → List Bool
unfolding entries_below unfreeze
frozen_mask by_weight n_polar k_info =
    let candidates =
      if leb n_polar 1024 then entries_below n_polar reliability_seq else by_weight n_polar in
    let info_count = min k_info (length candidates) in
    unfreeze (drop (length candidates - info_count) candidates) (replicate n_polar true)

-- `for j in 0..step { u[i + j] ^= u[i + j + step]; }`, with `count` rounds left at position `p`.
pub xor_run : ℕ → ℕ → ℕ → List ℕ → List ℕ
xor_run step p zero u = u
xor_run step p (suc count) u =
    xor_run step (p + 1) count (set u p (bit_xor (get_or u p 0) (get_or u (p + step) 0)))

-- `while i < n`, with fuel: `i` grows by at least 2 in each round.
pub butterflies : ℕ → ℕ → ℕ → ℕ → List ℕ → List ℕ
butterflies n step zero i u = u
butterflies n step (suc fuel) i u =
    let rest = butterflies n step fuel (i + 2 * step) (xor_run step i step u) in
    if ltb i n then rest else u

-- `while step < n`, with fuel: `step` doubles in each round.
pub stages : ℕ → ℕ → ℕ → List ℕ → List ℕ
stages n zero step u = u
stages n (suc fuel) step u =
    let rest = stages n fuel (step * 2) (butterflies n step n 0 u) in if ltb step n then rest else u

pub polar_transform : List ℕ → List ℕ
unfolding xor_run butterflies stages
polar_transform u = stages (length u) (length u) 1 u

pub record PolarEncoder : Type 0 where
  pub n : ℕ
  pub k : ℕ
  pub is_frozen : List Bool

pub encoder_new : (ℕ → List ℕ) → ℕ → ℕ → Result PolarEncoder
encoder_new by_weight n k =
    fail_if (not (is_power_of_two n) || n == 0)
      (invalid_param "polar N must be a positive power of 2")
    >> fail_if (leb n k) (invalid_param "k must be < n")
    >> ok (record { n = n; k = k; is_frozen = frozen_mask by_weight n k })

-- The loop that fills `u`. To run out of information bits is a panic in the source.
pub fill_info : List Bool → List ℕ → List ℕ
fill_info [] info = []
fill_info (true ∷ is_frozen) info = 0 ∷ fill_info is_frozen info
fill_info (false ∷ is_frozen) [] = 0 ∷ fill_info is_frozen []
fill_info (false ∷ is_frozen) (b ∷ info) = bit_and b 1 ∷ fill_info is_frozen info

pub encode : PolarEncoder → List ℕ → List ℕ → Result (List ℕ)
unfolding fill_info
encode enc info_bits codeword =
    fail_if (not (length info_bits == enc.k)) (buffer_too_small enc.k (length info_bits))
    >> fail_if (not (length codeword == enc.n)) (buffer_too_small enc.n (length codeword))
    >> ok (polar_transform (fill_info enc.is_frozen info_bits))

-- What the decoder does with an `f32`: the bits, the absolute value, the smaller of two, the sum,
-- `< 0.0` and `is_finite`.
pub record LlrOps (A : Type 0) : Type 0 where
  pub to_bits : A → ℕ
  pub from_bits : ℕ → A
  pub abs : A → A
  pub smaller : A → A → A
  pub add : A → A → A
  pub is_negative : A → Bool
  pub is_finite : A → Bool

pub record ScScratch : Type 0 where
  pub decoded : List ℕ
  pub beta : List ℕ

pub record PolarDecoder : Type 0 where
  pub n : ℕ
  pub k : ℕ
  pub list_size : ℕ
  pub is_frozen : List Bool
  pub crc : Option Crc24
  pub sc_scratch : ScScratch

pub map_crc : Option CrcKind → Option Crc24
map_crc none = none
map_crc (some kind) = some (Crc.new kind)

pub decoder_new : (ℕ → List ℕ) → ℕ → ℕ → ℕ → Option CrcKind → Result PolarDecoder
unfolding map_crc
decoder_new by_weight n k list_size crc_kind =
    fail_if (not (is_power_of_two n) || n == 0)
      (invalid_param "polar N must be a positive power of 2")
    >> fail_if (leb n k) (invalid_param "k must be < n")
    >> fail_if (list_size == 0)
        (invalid_param "list_size must be >= 1 (0 would leave the SCL path list empty)")
    >> ok (record {
      n = n;
      k = k;
      list_size = list_size;
      is_frozen = frozen_mask by_weight n k;
      crc = map_crc crc_kind;
      sc_scratch = record { decoded = replicate n 0; beta = replicate n 0 };
    })

-- `block[i] ^= block[half + i]` on the slice from `start` with halves of `half` elements.
pub beta_combine : ℕ → ℕ → List ℕ → List ℕ
beta_combine start half beta = xor_run half start half beta

-- The information bits, which overwrite the first places of `out`.
pub extract_info : List Bool → List ℕ → List ℕ
extract_info [] decoded = []
extract_info (frozen ∷ is_frozen) [] = []
extract_info (frozen ∷ is_frozen) (b ∷ decoded) =
    let rest = extract_info is_frozen decoded in if frozen then rest else b ∷ rest

abbrev pub sign_mask : ℕ
sign_mask = 0x80000000

module _ {A : Type 0} (ops : LlrOps A) where
  -- The body of the loop of `f_kernel`.
  pub min_sum : A → A → A
  min_sum x y =
      let sign = bit_and (bit_xor (ops.to_bits x) (ops.to_bits y)) sign_mask in
      let abs_min = ops.smaller (ops.abs x) (ops.abs y) in
      ops.from_bits (bit_or (ops.to_bits abs_min) sign)

  -- The body of the loop of `g_kernel`.
  pub add_flipped : A → A → ℕ → A
  add_flipped x y u =
      let flip = u * 2 ^ 31 % 2 ^ 32 in
      let signed_a = ops.from_bits (bit_xor (ops.to_bits x) flip) in ops.add y signed_a

  pub f_kernel : List A → List A → List A
  f_kernel [] b = []
  f_kernel (x ∷ a) [] = []
  f_kernel (x ∷ a) (y ∷ b) = min_sum x y ∷ f_kernel a b

  pub g_kernel : List A → List A → List ℕ → List A
  g_kernel [] b u_hat = []
  g_kernel (x ∷ a) [] u_hat = []
  g_kernel (x ∷ a) (y ∷ b) [] = []
  g_kernel (x ∷ a) (y ∷ b) (u ∷ u_hat) = add_flipped x y u ∷ g_kernel a b u_hat

  -- `length` is 2 ^ level. A level's block of the LLR scratch is written before it is read, so it is
  -- the result of its kernel.
  pub sc_decode_recursive : List Bool → ℕ → List A → ℕ → ScScratch → ScScratch
  unfolding f_kernel g_kernel beta_combine
  sc_decode_recursive is_frozen zero [] bit_start s = s
  sc_decode_recursive is_frozen zero (x ∷ llr) bit_start s =
      let bit = if get_or is_frozen bit_start true then 0 else if ops.is_negative x then 1 else 0 in
      record { decoded = set s.decoded bit_start bit; beta = set s.beta bit_start bit }
  sc_decode_recursive is_frozen (suc level) llr bit_start s =
      let half = 2 ^ level in
      let a = take half llr in
      let b = drop half llr in
      let left = sc_decode_recursive is_frozen level (f_kernel a b) bit_start s in
      let partial_sum = take half (drop bit_start left.beta) in
      let right =
        sc_decode_recursive is_frozen level (g_kernel a b partial_sum) (bit_start + half) left in
      record { decoded = right.decoded; beta = beta_combine bit_start half right.beta }

  pub any_not_finite : List A → Bool
  any_not_finite [] = false
  any_not_finite (x ∷ llr) = not (ops.is_finite x) || any_not_finite llr

  -- The decoder, whose scratch is behind a `RefCell`, with the result.
  pub decode_sc : PolarDecoder → List A → List ℕ → PolarDecoder × Result (List ℕ)
  unfolding sc_decode_recursive any_not_finite extract_info trailing_zeros
  decode_sc dec llr out =
      let s = sc_decode_recursive dec.is_frozen (trailing_zeros dec.n) llr 0 dec.sc_scratch in
      let info = extract_info dec.is_frozen s.decoded in
      if not (length llr == dec.n)
      then (dec, err (buffer_too_small dec.n (length llr)))
      else if not (length out == dec.k)
      then (dec, err (buffer_too_small dec.k (length out)))
      else if any_not_finite llr
      then (dec, err (invalid_param "polar decode_sc: llr contains NaN or infinite value"))
      else (record dec { sc_scratch = s }, ok (info ++ drop (length info) out))
