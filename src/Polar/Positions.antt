-- ===== src/Polar/Positions.antt =====
-- The mask of src/polar.rs leaves exactly the information positions free, up to length 1024.
use native.Mathlib.Nat.{pow-le-pow_right}
use syndrome.Prelude.{
  ℕ, zero, suc, ◌-◌, ◌^◌, ◌≤◌, min, Bool, true, false, not, ◌||◌, List, [], ◌∷◌, ◌==◌, ==_iff, leb,
  le→leb, length, length-set, length-replicate, length-drop, get_or-replicate, set, drop, replicate,
  all_below, all_below-true, dec_lt, Option, if◌then◌else◌, FecError, ok, fail_if, ◌>>◌,
  ok-injective, ◌≡◌, refl, sym, ap, subst, ◌∙◌, arith,
}
use syndrome.Crc.{CrcKind}
use syndrome.Polar.{
  trailing_zeros, is_power_of_two, entries_below, unfreeze, frozen_mask, PolarEncoder, PolarDecoder,
  ScScratch, encoder_new, decoder_new,
}
use syndrome.Polar.Reliability.{reliability_seq}
use syndrome.Polar.RoundTrip.{info_positions, IsPair}
use syndrome.Polar.Distinct.{Fresh, Fresh-of_count, count_of_Fresh, entries_below-Fresh, drop-Fresh}

-- The sequence names each of the 1024 positions once.
all_free : unfreeze reliability_seq (replicate 1024 true) ≡ replicate 1024 false
unfolding unfreeze
all_free = refl

positions_false : (n : ℕ) → info_positions (replicate n false) ≡ n
positions_false zero = refl
positions_false (suc n) = ap suc (positions_false n)

positions_true : (n : ℕ) → info_positions (replicate n true) ≡ 0
positions_true zero = refl
positions_true (suc n) = positions_true n

reliability_seq-Fresh : Fresh reliability_seq (replicate 1024 true)
reliability_seq-Fresh =
    Fresh-of_count reliability_seq (replicate 1024 true)
      (omega (arith, ap info_positions all_free, positions_false 1024, positions_true 1024))

-- For each length 2 ^ m up to 1024 there are as many entries as positions.
candidates_table :
    all_below 11 (λ m. length (entries_below (2 ^ m) reliability_seq) == 2 ^ m) ≡ true
unfolding all_below entries_below
candidates_table = refl

length-candidates : (m : ℕ) → m ≤ 10 → length (entries_below (2 ^ m) reliability_seq) ≡ 2 ^ m
length-candidates m h = (==_iff _ _).0 (
    all_below-true 11 (λ m. length (entries_below (2 ^ m) reliability_seq) == 2 ^ m) m
      candidates_table (omega arith))

candidates-Fresh : (n : ℕ) → n ≤ 1024 → Fresh (entries_below n reliability_seq) (replicate n true)
candidates-Fresh n h =
    entries_below-Fresh n reliability_seq (replicate 1024 true) (replicate n true)
      reliability_seq-Fresh (λ i lt e. get_or-replicate n i true false lt)

length-unfreeze : (xs : List ℕ) (m : List Bool) → length (unfreeze xs m) ≡ length m
unfolding unfreeze
length-unfreeze [] m = refl
length-unfreeze (x ∷ xs) m = length-unfreeze xs (set m x false) ∙ length-set m x false

-- The last entries of the sequence, as many as information bits, are freed.
unfrozen :
    (n k : ℕ) (candidates : List ℕ)
    → length candidates ≡ n
    → k ≤ n
    → Fresh candidates (replicate n true)
    → info_positions (
        unfreeze
          (drop (length candidates - min k (length candidates)) candidates)
          (replicate n true))
      ≡ k
unfrozen n k candidates size le fresh =
    let j : ℕ = length candidates - min k (length candidates) in
    count_of_Fresh (drop j candidates) (replicate n true)
      (drop-Fresh j candidates (replicate n true) (replicate n true) fresh (λ i p e. e))
    ∙ omega (arith, positions_true n, length-drop j candidates, size)

frozen_mask_lem :
    (by_weight : ℕ → List ℕ) (m k : ℕ)
    → m ≤ 10
    → 2 ^ m ≤ 1024
    → k ≤ 2 ^ m
    → (info_positions (frozen_mask by_weight (2 ^ m) k) ≡ k)
      × (length (frozen_mask by_weight (2 ^ m) k) ≡ 2 ^ m)
unfolding frozen_mask
frozen_mask_lem by_weight m k small table le =
    let seq = entries_below (2 ^ m) reliability_seq in
    let mask =
      λ (c : List ℕ). unfreeze (drop (length c - min k (length c)) c) (replicate (2 ^ m) true) in
    let same : (if leb (2 ^ m) 1024 then seq else by_weight (2 ^ m)) ≡ seq =
      ap (λ b. if b then seq else by_weight (2 ^ m)) (le→leb (2 ^ m) 1024 table) in
    (
      ap (λ c. info_positions (mask c)) same
          ∙ unfrozen (2 ^ m) k seq (length-candidates m small) le (candidates-Fresh (2 ^ m) table),
      ap (λ c. length (mask c)) same
          ∙ length-unfreeze (drop (length seq - min k (length seq)) seq) (replicate (2 ^ m) true)
          ∙ length-replicate (2 ^ m) true,
    )

small_power : (m n : ℕ) → n ≡ 2 ^ m → n ≤ 1024 → m ≤ 10
small_power m n e h = elim (dec_lt 10 m) [
  | yes big ↦
      absurd
        (omega (arith, e, pow-le-pow_right {n = 2} (omega arith) {i = 11} {j = m} (omega arith)))
  | no fits ↦ omega arith
]

-- What the two constructors check.
checked :
    {A : Type 0} (a b : Bool) (e f : FecError) (v c : A)
    → (fail_if a e >> fail_if b f >> ok v) ≡ ok c
    → (v ≡ c) × (a ≡ false) × (b ≡ false)
checked false false e f v c h = (ok-injective v c h, refl, refl)
checked false true e f v c h = cc
checked true b e f v c h = cc

checked_thrice :
    {A : Type 0} (a b d : Bool) (e f g : FecError) (v c : A)
    → (fail_if a e >> fail_if b f >> fail_if d g >> ok v) ≡ ok c
    → v ≡ c
checked_thrice false false false e f g v c h = ok-injective v c h
checked_thrice false false true e f g v c h = cc
checked_thrice false true d e f g v c h = cc
checked_thrice true b d e f g v c h = cc

power_checked : (n : ℕ) → (not (is_power_of_two n) || n == 0) ≡ false → n ≡ 2 ^ trailing_zeros n
unfolding is_power_of_two
power_checked n h = (==_iff _ _).0 (either (n == 2 ^ trailing_zeros n) (n == 0) h)
  where
    either : (a b : Bool) → (not a || b) ≡ false → a ≡ true
    either true b e = refl
    either false b e = cc

pub encoder_new-sizes :
    (by_weight : ℕ → List ℕ) (n k : ℕ) (enc : PolarEncoder)
    → encoder_new by_weight n k ≡ ok enc
    → (enc.n ≡ n) × (enc.k ≡ k)
unfolding encoder_new
encoder_new-sizes by_weight n k enc h =
    let (e, power, less) = checked (not (is_power_of_two n) || n == 0) (leb n k) _ _ _ enc h in
    (ap (λ (c : PolarEncoder). c.n) (sym e), ap (λ (c : PolarEncoder). c.k) (sym e))

-- `new` of the encoder and of the decoder at the same sizes, up to 1024, make a pair.
pub new-IsPair :
    (by_weight : ℕ → List ℕ) (n k list_size : ℕ) (crc_kind : Option CrcKind) (enc : PolarEncoder)
    (dec : PolarDecoder) (scratch : ScScratch)
    → n ≤ 1024
    → encoder_new by_weight n k ≡ ok enc
    → decoder_new by_weight n k list_size crc_kind ≡ ok dec
    → length scratch.decoded ≡ n
    → length scratch.beta ≡ n
    → IsPair enc (record dec { sc_scratch = scratch })
unfolding encoder_new decoder_new
new-IsPair by_weight n k list_size crc_kind enc dec scratch small he hd ld lb =
    let (e, power, less) = checked (not (is_power_of_two n) || n == 0) (leb n k) _ _ _ enc he in
    let d =
      checked_thrice (not (is_power_of_two n) || n == 0) (leb n k) (list_size == 0) _ _ _ _ dec
        hd in
    let is_power = power_checked n power in
    let m = trailing_zeros n in
    let (positions, size) : (info_positions (frozen_mask by_weight n k) ≡ k)
        × (length (frozen_mask by_weight n k) ≡ n) =
      subst
        (λ (t : ℕ).
          (info_positions (frozen_mask by_weight t k) ≡ k)
          × (length (frozen_mask by_weight t k) ≡ t))
        (sym is_power)
        (frozen_mask_lem by_weight m k (small_power m n is_power small) (omega (arith, is_power))
          (ground (arith, is_power, less))) in
    subst (λ (q : PolarEncoder). IsPair q (record dec { sc_scratch = scratch })) e
      (subst
        (λ (r : PolarDecoder).
          IsPair (record { n = n; k = k; is_frozen = frozen_mask by_weight n k })
            (record r { sc_scratch = scratch }))
        d
        (record {
          same_n = refl;
          same_k = refl;
          same_mask = refl;
          mask_length = size;
          power = is_power;
          positions = positions;
          decoded_length = ld;
          beta_length = lb;
        }))
