-- ===== src/Polar/RoundTrip.antt =====
-- Successive cancellation undoes the encoder of src/polar.rs on LLRs that agree with its codeword.
use syndrome.Prelude.{
  ℕ, zero, suc, ◌+◌, ◌^◌, ◌≤◌, ◌<◌, Bool, true, false, not, List, [], ◌∷◌, ◌++◌, append-nil, ◌==◌,
  length, drop, get_or, All, length-Each, ==_iff, bit_and, if◌then◌else◌, FecError, invalid_param,
  buffer_too_small, Result, ok, err, fail_if, ◌>>◌, ◌≡◌, refl, sym, ap, ap₂, subst, ◌∙◌, arith,
}
use syndrome.Polar.{
  trailing_zeros, LlrOps, PolarEncoder, PolarDecoder, polar_transform, fill_info, encode,
  extract_info, sc_decode_recursive, any_not_finite, decode_sc,
}
use syndrome.Polar.Transform.{transform, polar_transform-transform}
use syndrome.Polar.Decode.{AllAgree, sc_lem}
use syndrome.Polar.Kernels.{IsBit, SignLaws, length-transform}

-- The number of information positions.
abbrev pub info_positions : List Bool → ℕ
info_positions [] = 0
info_positions (true ∷ is_frozen) = info_positions is_frozen
info_positions (false ∷ is_frozen) = suc (info_positions is_frozen)

length-fill_info :
    (is_frozen : List Bool) (info : List ℕ) → length (fill_info is_frozen info) ≡ length is_frozen
unfolding fill_info
length-fill_info [] info = refl
length-fill_info (true ∷ is_frozen) info = ap suc (length-fill_info is_frozen info)
length-fill_info (false ∷ is_frozen) [] = ap suc (length-fill_info is_frozen [])
length-fill_info (false ∷ is_frozen) (b ∷ info) = ap suc (length-fill_info is_frozen info)

and_one : (b : ℕ) → b < 2 → bit_and b 1 ≡ b
and_one zero h = refl
and_one (suc zero) h = refl
and_one (suc (suc b)) h = absurd (omega arith)

fill_info-bits :
    (is_frozen : List Bool) (info : List ℕ) → All IsBit info → All IsBit (fill_info is_frozen info)
unfolding fill_info
fill_info-bits [] info h = tt
fill_info-bits (true ∷ is_frozen) info h = (omega arith, fill_info-bits is_frozen info h)
fill_info-bits (false ∷ is_frozen) [] h = (omega arith, fill_info-bits is_frozen [] tt)
fill_info-bits (false ∷ is_frozen) (b ∷ info) h =
    (subst IsBit (sym (and_one b h.0)) h.0, fill_info-bits is_frozen info h.1)

fill_info-zero :
    (is_frozen : List Bool) (info : List ℕ) (i : ℕ)
    → get_or is_frozen i true ≡ true
    → get_or (fill_info is_frozen info) i 0 ≡ 0
unfolding fill_info
fill_info-zero [] info i h = refl
fill_info-zero (true ∷ is_frozen) info zero h = refl
fill_info-zero (true ∷ is_frozen) info (suc i) h = fill_info-zero is_frozen info i h
fill_info-zero (false ∷ is_frozen) info zero h = absurd (true-ne (sym h))
  where
    true-ne : true ≡ false → ⊥
    true-ne e = cc
fill_info-zero (false ∷ is_frozen) [] (suc i) h = fill_info-zero is_frozen [] i h
fill_info-zero (false ∷ is_frozen) (b ∷ info) (suc i) h = fill_info-zero is_frozen info i h

extract_info-fill_info :
    (is_frozen : List Bool) (info : List ℕ)
    → All IsBit info
    → info_positions is_frozen ≡ length info
    → extract_info is_frozen (fill_info is_frozen info) ≡ info
unfolding fill_info extract_info
extract_info-fill_info [] [] h e = refl
extract_info-fill_info [] (b ∷ info) h e = absurd (omega arith)
extract_info-fill_info (true ∷ is_frozen) info h e = extract_info-fill_info is_frozen info h e
extract_info-fill_info (false ∷ is_frozen) [] h e = absurd (omega arith)
extract_info-fill_info (false ∷ is_frozen) (b ∷ info) h e =
    ap₂ ◌∷◌ (and_one b h.0) (extract_info-fill_info is_frozen info h.1 (omega arith))

drop_all : (xs : List ℕ) (n : ℕ) → length xs ≤ n → drop n xs ≡ []
drop_all [] zero h = refl
drop_all [] (suc n) h = refl
drop_all (x ∷ xs) zero h = absurd (omega arith)
drop_all (x ∷ xs) (suc n) h = drop_all xs n (omega arith)

-- An encoder and a decoder of one code of length 2 ^ m, the scratch of the decoder of that length.
pub record IsPair (enc : PolarEncoder) (dec : PolarDecoder) : Type 0 where
  pub same_n : dec.n ≡ enc.n
  pub same_k : dec.k ≡ enc.k
  pub same_mask : dec.is_frozen ≡ enc.is_frozen
  pub mask_length : length enc.is_frozen ≡ enc.n
  pub power : enc.n ≡ 2 ^ trailing_zeros enc.n
  pub positions : info_positions enc.is_frozen ≡ enc.k
  pub decoded_length : length dec.sc_scratch.decoded ≡ enc.n
  pub beta_length : length dec.sc_scratch.beta ≡ enc.n

-- Three guards that let the last branch through.
past_guards :
    {B : Type 0} (a b c : Bool) (x y z w : B)
    → a ≡ true
    → b ≡ true
    → c ≡ false
    → (if not a then x else if not b then y else if c then z else w) ≡ w
past_guards true true false x y z w p q r = refl
past_guards true true true x y z w p q r = cc
past_guards true false c x y z w p q r = cc
past_guards false b c x y z w p q r = cc

-- The codeword of a word of information bits.
abbrev pub word_of : PolarEncoder → List ℕ → List ℕ
word_of enc info = polar_transform (fill_info enc.is_frozen info)

past_checks :
    (a b : Bool) (e f : FecError) (v : List ℕ)
    → a ≡ true
    → b ≡ true
    → (fail_if (not a) e >> fail_if (not b) f >> ok v) ≡ ok v
past_checks true true e f v p q = refl
past_checks true false e f v p q = cc
past_checks false b e f v p q = cc

pub encode-word_of :
    (enc : PolarEncoder) (info codeword : List ℕ)
    → length info ≡ enc.k
    → length codeword ≡ enc.n
    → encode enc info codeword ≡ ok (word_of enc info)
unfolding encode
encode-word_of enc info codeword hk hn =
    past_checks (length info == enc.k) (length codeword == enc.n) _ _ (word_of enc info)
      ((==_iff _ _).1 hk) ((==_iff _ _).1 hn)

module _ {A : Type 0} (ops : LlrOps A) (laws : SignLaws ops) (enc : PolarEncoder)
    (dec : PolarDecoder) (pair : IsPair enc dec) where
  abbrev input : List ℕ → List ℕ
  input info = fill_info enc.is_frozen info

  length-input : (info : List ℕ) → length (input info) ≡ 2 ^ trailing_zeros dec.n
  length-input info =
      length-fill_info enc.is_frozen info
      ∙ pair.mask_length
      ∙ pair.power
      ∙ ap (λ (n : ℕ). 2 ^ trailing_zeros n) (sym pair.same_n)

  length-scratch :
      (buffer : List ℕ) → length buffer ≡ enc.n → length buffer ≡ 2 ^ trailing_zeros dec.n
  length-scratch buffer h = h ∙ pair.power ∙ ap (λ (n : ℕ). 2 ^ trailing_zeros n) (sym pair.same_n)

  -- The scratch after the recursion.
  scratch_after :
      (info : List ℕ) (llr : List A)
      → All IsBit info
      → AllAgree ops laws llr (polar_transform (input info))
      → let t = sc_decode_recursive ops dec.is_frozen (trailing_zeros dec.n) llr 0 dec.sc_scratch in
        (t.decoded ≡ input info) × (t.beta ≡ polar_transform (input info))
  scratch_after info llr bits agree =
      let s = dec.sc_scratch in
      let same =
        polar_transform-transform (trailing_zeros dec.n) (input info) (length-input info) in
      let (d, b) =
        sc_lem ops laws dec.is_frozen (trailing_zeros dec.n) llr 0 s (input info) [] s.decoded [] []
          s.beta [] (length-input info) (length-scratch s.decoded pair.decoded_length)
          (length-scratch s.beta pair.beta_length) (fill_info-bits enc.is_frozen info bits)
          (λ i l frozen. fill_info-zero enc.is_frozen info i (
            ap₂ (λ (m : List Bool) (n : ℕ). get_or m n true) {u = i} {v = 0 + i}
              (sym pair.same_mask) (omega arith)
            ∙ frozen))
          (subst (AllAgree ops laws llr) same agree) (sym (append-nil s.decoded), refl)
          (sym (append-nil s.beta), refl) in
      (
        d ∙ append-nil (input info),
        b ∙ append-nil (transform (trailing_zeros dec.n) (input info)) ∙ sym same,
      )

  pub round_trip :
      (info out : List ℕ) (llr : List A)
      → All IsBit info
      → length info ≡ enc.k
      → length out ≡ enc.k
      → AllAgree ops laws llr (polar_transform (input info))
      → any_not_finite ops llr ≡ false
      → ((decode_sc ops dec llr out).1 ≡ ok info) × IsPair enc (decode_sc ops dec llr out).0
  unfolding decode_sc
  round_trip info out llr bits hk ho agree finite =
      let s = sc_decode_recursive ops dec.is_frozen (trailing_zeros dec.n) llr 0 dec.sc_scratch in
      let found = extract_info dec.is_frozen s.decoded in
      let (d, b) = scratch_after info llr bits agree in
      let sent = polar_transform (input info) in
      let long : length sent ≡ 2 ^ trailing_zeros dec.n =
        ap length
          (polar_transform-transform (trailing_zeros dec.n) (input info) (length-input info))
        ∙ length-transform (trailing_zeros dec.n) (input info) (length-input info) in
      let power : dec.n ≡ 2 ^ trailing_zeros dec.n =
        pair.same_n ∙ pair.power ∙ ap (λ (n : ℕ). 2 ^ trailing_zeros n) (sym pair.same_n) in
      let is_info : found ≡ info =
        ap₂ extract_info pair.same_mask d
        ∙ extract_info-fill_info enc.is_frozen info bits (pair.positions ∙ sym hk) in
      let whole : info ++ drop (length info) out ≡ info =
        ap (λ (l : List ℕ). info ++ l) (drop_all out (length info) (omega (arith, hk, ho)))
        ∙ append-nil info in
      let result =
        past_guards (length llr == dec.n) (length out == dec.k) (any_not_finite ops llr)
          (dec, err (buffer_too_small dec.n (length llr)))
          (dec, err (buffer_too_small dec.k (length out)))
          (dec, err (invalid_param "polar decode_sc: llr contains NaN or infinite value"))
          (record dec { sc_scratch = s }, ok (found ++ drop (length found) out))
          ((==_iff _ _).1 (length-Each laws.Agrees llr sent agree ∙ long ∙ sym power))
          ((==_iff _ _).1 (ho ∙ sym pair.same_k)) finite in
      (
        ap (λ r. r.1) result
            ∙ ap (λ (l : List ℕ). ok (l ++ drop (length l) out)) is_info
            ∙ ap ok whole,
        subst (λ (r : PolarDecoder × Result (List ℕ)). IsPair enc r.0) (sym result)
            (record {
              same_n = pair.same_n;
              same_k = pair.same_k;
              same_mask = pair.same_mask;
              mask_length = pair.mask_length;
              power = pair.power;
              positions = pair.positions;
              decoded_length = ap length d ∙ length-fill_info enc.is_frozen info ∙ pair.mask_length;
              beta_length = ap length b ∙ long ∙ sym power ∙ pair.same_n;
            }),
      )
