-- ===== src/Hamming/Decode.antt =====
-- Nearest-codeword decoding, the Hamming(7,4) code being perfect.
use syndrome.Prelude.{
  ℕ, ◌≤◌, ◌<◌, ◌==◌, ==_iff, leb, ◌↔◌, Bool, true, false, bit_xor, all_below, all_below-true,
  Result, ok, err, ◌≡◌, refl, ap, arith,
}
use syndrome.Word.{count_ones}
use syndrome.Hamming.{syndrome_rows, syndrome_of, encode, decode}

-- Whether a result is this number.
yields : Result ℕ → ℕ → Bool
yields (ok m) n = m == n
yields (err e) n = false

yields_iff : (r : Result ℕ) (n : ℕ) → (yields r n ≡ true) ↔ (r ≡ ok n)
unfolding yields
yields_iff (ok m) n = (λ h. ap ok ((==_iff m n).0 h), λ e. (==_iff m n).1 (value_eq e))
  where
    value_eq : ok m ≡ ok n → m ≡ n
    value_eq e = cc
yields_iff (err e) n = (λ h. cc, λ h. cc)

abbrev same : Bool → Bool → Bool
same true b = b
same false true = false
same false false = true

nearest_table :
    all_below 16 (λ n.
      all_below 128 (λ r. same (yields (decode r) n) (leb (count_ones 8 (bit_xor r (encode n))) 1)))
    ≡ true
unfolding all_below decode encode syndrome_of syndrome_rows yields count_ones
nearest_table = refl

-- For every nibble and every word of seven bits, `decode` returns the nibble exactly when the word
-- differs from the nibble's code in at most one place.
pub decode_iff :
    (n r : ℕ) → n < 16 → r < 128 → (decode r ≡ ok n) ↔ (count_ones 8 (bit_xor r (encode n)) ≤ 1)
decode_iff n r hn hr =
    let agrees =
      same_iff _ _ (all_below-true 128 _ r (all_below-true 16 _ n nearest_table hn) hr) in
    let near = le_iff (count_ones 8 (bit_xor r (encode n))) in
    let yielded = yields_iff (decode r) n in
    (λ e. near.0 (agrees.0 (yielded.1 e)), λ h. yielded.0 (agrees.1 (near.1 h)))
  where
    same_iff : (a b : Bool) → same a b ≡ true → (a ≡ true) ↔ (b ≡ true)
    same_iff true b h = (λ _. h, λ _. refl)
    same_iff false true h = (λ _. refl, λ _. h)
    same_iff false false h = (λ e. e, λ e. e)

    le_iff : (a : ℕ) → (leb a 1 ≡ true) ↔ (a ≤ 1)
    le_iff a = ground arith
