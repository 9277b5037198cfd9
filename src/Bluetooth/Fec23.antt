-- ===== src/Bluetooth/Fec23.antt =====
-- The FEC 2/3 code corrects one error of a block and reports two.
use syndrome.Prelude.{
  ℕ, ◌≤◌, Bool, true, false, ◌&&◌, List, ◌++◌, bit_xor, ◌==◌, ==_iff, distance, weight,
  all_words-true, take, drop, take_append, drop_append, length-append, All-append, set, get_or,
  replicate, length-take, length-drop, All-take, All-drop, All, length, Option, some, none, ◌≡◌,
  refl, sym, subst, ap, ap₂, ◌∙◌, arith, if◌then◌else◌,
}
use syndrome.Word.{count_ones}
use syndrome.Word.Xor.{xor_self, xor_swap, xor-zero}
use syndrome.Bits.RoundTrip.{IsBit}
use syndrome.Bluetooth.{
  fec23_parity, encode_block, pack_parity, find_error, repair, fix, DecodedBlock, decode_block,
}
use syndrome.Bluetooth.Parity.{
  xors, fec23_parity-xors, fec23_parity-lt, pack_parity-xors, pack-slots, parity_slots,
  parity_slots_lem, encode_block_lem,
}
use syndrome.Bluetooth.ErrorWords.{
  alike, alike-eq, zeros, syndrome_of, found, found_table, take-xors, drop-xors, length-xors,
  xors_lem, same_of_zeros, flip-unit,
}

-- A block of fifteen bits and the ten bits that it should carry.
module _ (info src : List ℕ) (ten : length info ≡ 10) (bits : All IsBit info)
    (fifteen : length src ≡ 15) (clean : All IsBit src) where
  abbrev sent : List ℕ
  sent = info ++ parity_slots (fec23_parity info)

  abbrev errors : List ℕ
  errors = xors src sent

  abbrev slots : List ℕ
  slots = parity_slots (fec23_parity info)

  take-sent : take 10 sent ≡ info
  take-sent = ap (λ (n : ℕ). take n sent) (sym ten) ∙ take_append info slots

  drop-sent : drop 10 sent ≡ slots
  drop-sent = ap (λ (n : ℕ). drop n sent) (sym ten) ∙ drop_append info slots

  same_length : length src ≡ length sent
  same_length =
      omega
        (arith, length-append info slots, (parity_slots_lem (fec23_parity info)).0, ten, fifteen)

  IsBit-sent : All IsBit sent
  IsBit-sent = All-append IsBit info slots bits (parity_slots_lem (fec23_parity info)).1

  take-errors : take 10 errors ≡ xors (take 10 src) info
  take-errors = take-xors 10 src sent ∙ ap (xors (take 10 src)) take-sent

  drop-errors : drop 10 errors ≡ xors (drop 10 src) slots
  drop-errors = drop-xors 10 src sent same_length ∙ ap (xors (drop 10 src)) drop-sent

  head_length : length (take 10 src) ≡ length info
  head_length = omega (arith, length-take 10 src, ten, fifteen)

  tail_length : length (drop 10 src) ≡ 5
  tail_length = omega (arith, length-drop 10 src, fifteen)

  -- The decoder's syndrome is that of the errors.
  syndrome-errors :
      syndrome_of errors ≡ bit_xor (fec23_parity (take 10 src)) (pack_parity (drop 10 src))
  unfolding syndrome_of
  syndrome-errors =
      ap₂ bit_xor
        (ap fec23_parity take-errors
          ∙ fec23_parity-xors (take 10 src) info head_length (All-take IsBit 10 src clean) bits)
        (ap pack_parity drop-errors
          ∙ pack_parity-xors (drop 10 src) slots tail_length (parity_slots_lem p).0
              (All-drop IsBit 10 src clean) (parity_slots_lem p).1
          ∙ ap (bit_xor (pack_parity (drop 10 src))) (pack-slots p (fec23_parity-lt info bits)))
      ∙ xor_swap (fec23_parity (take 10 src)) p (pack_parity (drop 10 src)) p
      ∙ ap (bit_xor (bit_xor (fec23_parity (take 10 src)) (pack_parity (drop 10 src)))) (xor_self p)
      ∙ xor-zero _
    where
      p : ℕ
      p = fec23_parity info

  abbrev syn : ℕ
  syn = bit_xor (fec23_parity (take 10 src)) (pack_parity (drop 10 src))

  weight-errors : weight errors ≡ distance src sent
  weight-errors = (xors_lem src sent same_length clean IsBit-sent).1

  found-errors : distance src sent ≤ 2 → found errors syn (find_error 10 0 syn) ≡ true
  found-errors near =
      subst (λ (s : ℕ). found errors s (find_error 10 0 s) ≡ true) syndrome-errors
        (all_words-true 15 2 _ errors found_table (length-xors src sent same_length ∙ fifteen)
          (xors_lem src sent same_length clean IsBit-sent).0 (omega (arith, near, weight-errors)))

  no_error : alike (take 10 errors) zeros ≡ true → take 10 src ≡ info
  no_error h = same_of_zeros (take 10 src) info head_length (
      sym take-errors
      ∙ alike-eq _ zeros h
      ∙ ap (λ (n : ℕ). replicate n 0) {x = 10} {y = length (take 10 src)} (sym (head_length ∙ ten)))

  one_error :
      (i : ℕ)
      → alike (take 10 errors) (set zeros i 1) ≡ true
      → set (take 10 src) i (bit_xor (get_or (take 10 src) i 0) 1) ≡ info
  one_error i h = flip-unit (take 10 src) info i head_length (
      sym take-errors
      ∙ alike-eq _ (set zeros i 1) h
      ∙ ap (λ (n : ℕ). set (replicate n 0) i 1) {x = 10} {y = length (take 10 src)}
          (sym (head_length ∙ ten)))

  -- What the decoder makes of a block at distance `d`.
  abbrev Right : ℕ → DecodedBlock → Type 0
  Right d block =
      (d ≤ 1 → block ≡ record { info = info; corrected = d; uncorrectable = 0 })
      × (d ≡ 2 → (block.corrected ≡ 0) × (block.uncorrectable ≡ 1))

  as_sent :
      (d d' : ℕ) (word : List ℕ)
      → d ≤ 1
      → word ≡ info
      → d' ≡ d
      → Right d record { info = word; corrected = d'; uncorrectable = 0 }
  as_sent d d' word small e e' = (
    λ _. ap₂ (λ (l : List ℕ) (n : ℕ). record { info = l; corrected = n; uncorrectable = 0 }) e e',
    λ two. absurd (omega arith),
  )

  abbrev Is : ℕ → List ℕ → Type 0
  Is w unit = (weight errors ≡ w) × (alike (take 10 errors) unit ≡ true)

  both :
      (w : ℕ) (unit : List ℕ)
      → (weight errors == w && alike (take 10 errors) unit) ≡ true
      → Is w unit
  both w unit h = (ground arith, ground arith)

  found-zero : (o : Option ℕ) → found errors syn o ≡ true → (syn == 0) ≡ true → Is 0 zeros
  unfolding found
  found-zero none h z = both 0 zeros (
      subst
        (λ (b : Bool).
          (if b
            then weight errors == 0 && alike (take 10 errors) zeros
            else if count_ones 8 syn == 1
            then weight errors == 1 && alike (take 10 errors) zeros
            else weight errors == 2)
          ≡ true)
        z h)
  found-zero (some i) h z = both 0 zeros (
      subst
        (λ (b : Bool).
          (if b
            then weight errors == 0 && alike (take 10 errors) zeros
            else weight errors == 1 && alike (take 10 errors) (set zeros i 1))
          ≡ true)
        z h)

  found-some :
      (i : ℕ) → found errors syn (some i) ≡ true → (syn == 0) ≡ false → Is 1 (set zeros i 1)
  unfolding found
  found-some i h z = both 1 (set zeros i 1) (
      subst
        (λ (b : Bool).
          (if b
            then weight errors == 0 && alike (take 10 errors) zeros
            else weight errors == 1 && alike (take 10 errors) (set zeros i 1))
          ≡ true)
        z h)

  found-none :
      found errors syn none ≡ true
      → (syn == 0) ≡ false
      → (if count_ones 8 syn == 1
          then weight errors == 1 && alike (take 10 errors) zeros
          else weight errors == 2)
        ≡ true
  unfolding found
  found-none h z =
      subst
        (λ (b : Bool).
          (if b
            then weight errors == 0 && alike (take 10 errors) zeros
            else if count_ones 8 syn == 1
            then weight errors == 1 && alike (take 10 errors) zeros
            else weight errors == 2)
          ≡ true)
        z h

  none-Right :
      (b : Bool)
      → (if b then weight errors == 1 && alike (take 10 errors) zeros else weight errors == 2)
        ≡ true
      → Right (weight errors) (
          if b
          then record { info = take 10 src; corrected = 1; uncorrectable = 0 }
          else record { info = take 10 src; corrected = 0; uncorrectable = 1 })
  none-Right true h =
      let (w, zero_head) = both 1 zeros h in
      as_sent (weight errors) 1 (take 10 src) (omega (arith, w)) (no_error zero_head) (sym w)
  none-Right false h =
      let w : weight errors ≡ 2 = (==_iff (weight errors) 2).0 h in
      (λ small. absurd (omega (arith, w, small)), λ _. (refl, refl))

  fix-Right :
      (o : Option ℕ)
      → found errors syn o ≡ true
      → (syn == 0) ≡ false
      → Right (weight errors) (fix (take 10 src) syn o)
  fix-Right none h z = none-Right (count_ones 8 syn == 1) (found-none h z)
  fix-Right (some i) h z =
      let (w, unit) = found-some i h z in
      as_sent (weight errors) 1 _ (omega (arith, w)) (one_error i unit) (sym w)

  block-Right :
      (b : Bool)
      → (syn == 0) ≡ b
      → found errors syn (find_error 10 0 syn) ≡ true
      → Right (weight errors) (
          if b
          then record { info = take 10 src; corrected = 0; uncorrectable = 0 }
          else repair (take 10 src) syn)
  unfolding repair
  block-Right true z h =
      let (w, zero_head) = found-zero (find_error 10 0 syn) h z in
      as_sent (weight errors) 0 (take 10 src) (omega (arith, w)) (no_error zero_head) (sym w)
  block-Right false z h = fix-Right (find_error 10 0 syn) h z

  decode_block-Right : distance src sent ≤ 2 → Right (distance src sent) (decode_block src)
  unfolding decode_block
  decode_block-Right near =
      subst (λ (d : ℕ). Right d (decode_block src)) weight-errors
        (block-Right (syn == 0) refl (found-errors near))

-- A received block of 15 bits at distance at most 1 from the encoding of 10 bits decodes to those
-- bits and counts the error; one at distance 2 is counted as uncorrectable and not as corrected.
pub decode_block-encode_block :
    (info src : List ℕ)
    → length info ≡ 10
    → All IsBit info
    → length src ≡ 15
    → All IsBit src
    → let d = distance src (encode_block info) in
      (d ≤ 1 → decode_block src ≡ record { info = info; corrected = d; uncorrectable = 0 })
      × (d ≡ 2 → ((decode_block src).corrected ≡ 0) × ((decode_block src).uncorrectable ≡ 1))
decode_block-encode_block info src ten bits fifteen clean = rw (encode_block_lem info) (
  (λ near. (decode_block-Right info src ten bits fifteen clean (omega arith)).0 near),
  λ two. (decode_block-Right info src ten bits fifteen clean (omega arith)).1 two,
)
