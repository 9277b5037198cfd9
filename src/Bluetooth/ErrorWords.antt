-- ===== src/Bluetooth/ErrorWords.antt =====
-- Error words of the FEC 2/3 code of src/bluetooth.rs, and what their syndromes tell.
use syndrome.Prelude.{
  ℕ, zero, suc, ◌+◌, ◌<◌, Bool, true, false, ◌&&◌, List, [], ◌∷◌, bit_xor, ◌==◌, ==_iff, distance,
  weight, all_words, take, drop, set, get_or, replicate, All, length, Option, some, none, ◌≡◌, refl,
  sym, ap, ap₂, ◌∙◌, arith, if◌then◌else◌,
}
use syndrome.Word.{count_ones}
use syndrome.Word.Xor.{xor_assoc, xor_self, eq_of_xor, zero-xor}
use syndrome.Bits.RoundTrip.{IsBit}
use syndrome.Bluetooth.{parity_step, fec23_parity, pack_parity, find_error}
use syndrome.Bluetooth.Parity.{xors}

unfoldable pub alike : List ℕ → List ℕ → Bool
alike [] [] = true
alike (x ∷ xs) (y ∷ ys) = x == y && alike xs ys
alike _ _ = false

pub alike-eq : (xs ys : List ℕ) → alike xs ys ≡ true → xs ≡ ys
unfolding alike
alike-eq [] [] h = refl
alike-eq (x ∷ xs) (y ∷ ys) h =
    ap₂ ◌∷◌ ((==_iff x y).0 (ground arith)) (alike-eq xs ys (ground arith))
alike-eq [] (y ∷ ys) h = cc
alike-eq (x ∷ xs) [] h = cc

abbrev pub zeros : List ℕ
zeros = replicate 10 0

-- The syndrome of an error word.
unfoldable pub syndrome_of : List ℕ → ℕ
syndrome_of e = bit_xor (fec23_parity (take 10 e)) (pack_parity (drop 10 e))

-- What the decoder must find for an error word of weight at most two.
unfoldable pub found : List ℕ → ℕ → Option ℕ → Bool
found e syn none =
    if syn == 0
    then weight e == 0 && alike (take 10 e) zeros
    else if count_ones 8 syn == 1
    then weight e == 1 && alike (take 10 e) zeros
    else weight e == 2
found e syn (some i) =
    if syn == 0
    then weight e == 0 && alike (take 10 e) zeros
    else weight e == 1 && alike (take 10 e) (set zeros i 1)

pub found_table :
    all_words 15 2 (λ e. found e (syndrome_of e) (find_error 10 0 (syndrome_of e))) ≡ true
unfolding all_words found syndrome_of find_error fec23_parity parity_step pack_parity alike
    count_ones
found_table = refl

pub take-xors : (n : ℕ) (xs ys : List ℕ) → take n (xors xs ys) ≡ xors (take n xs) (take n ys)
take-xors zero xs ys = refl
take-xors (suc n) [] ys = refl
take-xors (suc n) (x ∷ xs) [] = refl
take-xors (suc n) (x ∷ xs) (y ∷ ys) = ap (◌∷◌ (bit_xor x y)) (take-xors n xs ys)

pub drop-xors :
    (n : ℕ) (xs ys : List ℕ)
    → length xs ≡ length ys
    → drop n (xors xs ys) ≡ xors (drop n xs) (drop n ys)
drop-xors zero xs ys h = refl
drop-xors (suc n) [] ys h = refl
drop-xors (suc n) (x ∷ xs) [] h = absurd (omega arith)
drop-xors (suc n) (x ∷ xs) (y ∷ ys) h = drop-xors n xs ys (omega arith)

pub length-xors : (xs ys : List ℕ) → length xs ≡ length ys → length (xors xs ys) ≡ length xs
length-xors [] ys h = refl
length-xors (x ∷ xs) [] h = absurd (omega arith)
length-xors (x ∷ xs) (y ∷ ys) h = ap suc (length-xors xs ys (omega arith))

bit_cases :
    (x y : ℕ) → x < 2 → y < 2 → (bit_xor x y < 2) × (bit_xor x y ≡ (if x == y then 0 else 1))
bit_cases zero zero p q = (omega arith, refl)
bit_cases zero (suc zero) p q = (omega arith, refl)
bit_cases (suc zero) zero p q = (omega arith, refl)
bit_cases (suc zero) (suc zero) p q = (omega arith, refl)
bit_cases (suc (suc x)) y p q = absurd (omega arith)
bit_cases x (suc (suc y)) p q = absurd (omega arith)

-- The errors of a received word are bits, as many as its distance.
pub xors_lem :
    (xs ys : List ℕ)
    → length xs ≡ length ys
    → All IsBit xs
    → All IsBit ys
    → All IsBit (xors xs ys) × (weight (xors xs ys) ≡ distance xs ys)
xors_lem [] ys h p q = (tt, refl)
xors_lem (x ∷ xs) [] h p q = absurd (omega arith)
xors_lem (x ∷ xs) (y ∷ ys) h p q =
    let (bits, count) = xors_lem xs ys (omega arith) p.1 q.1 in
    let (bit, one) = bit_cases x y p.0 q.0 in ((bit, bits), ap₂ ◌+◌ one count)

pub same_of_zeros :
    (xs ys : List ℕ) → length xs ≡ length ys → xors xs ys ≡ replicate (length xs) 0 → xs ≡ ys
same_of_zeros [] [] h e = refl
same_of_zeros [] (y ∷ ys) h e = absurd (omega arith)
same_of_zeros (x ∷ xs) [] h e = absurd (omega arith)
same_of_zeros (x ∷ xs) (y ∷ ys) h e =
    ap₂ ◌∷◌ (eq_of_xor x y (ap (λ l. get_or l 0 7) e))
      (same_of_zeros xs ys (omega arith) (ap (drop 1) e))

-- Flipping the one bit that is wrong gives the right word.
pub flip-unit :
    (xs ys : List ℕ) (i : ℕ)
    → length xs ≡ length ys
    → xors xs ys ≡ set (replicate (length xs) 0) i 1
    → set xs i (bit_xor (get_or xs i 0) 1) ≡ ys
flip-unit [] [] i h e = refl
flip-unit [] (y ∷ ys) i h e = absurd (omega arith)
flip-unit (x ∷ xs) [] i h e = absurd (omega arith)
flip-unit (x ∷ xs) (y ∷ ys) zero h e =
    ap₂ ◌∷◌
      (ap (bit_xor x) (sym (ap (λ l. get_or l 0 7) e))
        ∙ sym (xor_assoc x x y)
        ∙ ap (λ (t : ℕ). bit_xor t y) (xor_self x)
        ∙ zero-xor y)
      (same_of_zeros xs ys (omega arith) (ap (drop 1) e))
flip-unit (x ∷ xs) (y ∷ ys) (suc i) h e =
    ap₂ ◌∷◌ (eq_of_xor x y (ap (λ l. get_or l 0 7) e))
      (flip-unit xs ys i (omega arith) (ap (drop 1) e))
