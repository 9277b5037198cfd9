-- ===== src/Viterbi/TailBiting.antt =====
-- `encode_tail_biting` of src/viterbi.rs ends in the state that it starts from.
use native.Mathlib.Nat.{pow-suc, add-mul-div_right, div-eq_of_lt, div-div-eq-div-mul}
use syndrome.Prelude.{
  ℕ, suc, ◌+◌, ◌-◌, ◌*◌, ◌/◌, ◌%◌, ◌^◌, ◌≤◌, ◌<◌, bit_or, true, false, List, [], ◌∷◌, ◌++◌, length,
  length-drop, take, drop, take-append-drop, ltb, err, invalid_param, ok, ◌≡◌, refl, sym, ap, ◌∙◌,
  arith,
}
use syndrome.Word.Xor.{pow_pos, pow_add}
use syndrome.Word.Mask.{or_comm, or_fields}
use syndrome.Viterbi.{TrellisTable, ViterbiDecoder, next, preload, encode_from, encode_tail_biting}
use syndrome.Viterbi.Trellis.{IsTrellis}
use syndrome.Viterbi.Words.{IsDecoder}

-- The state that `encode_from` ends in.
abbrev pub state_after : TrellisTable → ℕ → List ℕ → ℕ
state_after trellis s [] = s
state_after trellis s (bit ∷ bits) = state_after trellis (next trellis s (bit % 2)) bits

-- The number that the bits spell, lowest first.
abbrev little : List ℕ → ℕ
little [] = 0
little (bit ∷ bits) = bit % 2 + 2 * little bits

spread : (b l p : ℕ) → (b + 2 * l) * p ≡ b * p + l * p * 2
spread b l p = grind arith

little-lt : (bits : List ℕ) → little bits < 2 ^ length bits
little-lt [] = omega arith
little-lt (bit ∷ bits) = omega (arith, little-lt bits, pow-suc 2 (length bits))

halved : (a k : ℕ) → a / 2 ^ suc k ≡ a / 2 / 2 ^ k
halved a k =
    ap (λ (t : ℕ). a / t) {x = 2 ^ suc k} {y = 2 * 2 ^ k} (omega (arith, pow-suc 2 k))
    ∙ sym (div-div-eq-div-mul a 2 (2 ^ k))

-- A register of `m` bits after the bits are shifted in.
state_after-little :
    (m : ℕ) (trellis : TrellisTable) (s : ℕ) (bits : List ℕ)
    → IsTrellis m trellis
    → s < 2 ^ m
    → state_after trellis s bits ≡ (s + little bits * 2 ^ m) / 2 ^ length bits
state_after-little m trellis s [] facts hs = omega arith
state_after-little m trellis s (bit ∷ bits) facts hs =
    let step = facts.shifts s (bit % 2) hs (omega arith) in
    state_after-little m trellis (next trellis s (bit % 2)) bits facts (grind (arith, step))
    ∙ ap (λ (n : ℕ). n / 2 ^ length bits) {x = next trellis s (bit % 2) + little bits * 2 ^ m}
        {y = (s + little (bit ∷ bits) * 2 ^ m) / 2}
        (omega (arith, step, spread (bit % 2) (little bits) (2 ^ m)))
    ∙ sym (halved (s + little (bit ∷ bits) * 2 ^ m) (length bits))

preload-little :
    (i state : ℕ) (bits : List ℕ)
    → state < 2 ^ i
    → preload i state bits ≡ state + little bits * 2 ^ i
unfolding preload
preload-little i state [] small = omega arith
preload-little i state (bit ∷ bits) small =
    let joined : bit_or state (bit % 2 * 2 ^ i) ≡ bit % 2 * 2 ^ i + state =
      or_comm state _ ∙ or_fields i (bit % 2) state small in
    let double : 2 ^ (i + 1) ≡ 2 ^ i * 2 = pow_add i 1 in
    preload-little (i + 1) (bit_or state (bit % 2 * 2 ^ i)) bits (grind (arith, joined, double))
    ∙ omega (
      arith,
      joined,
      ap (λ (t : ℕ). little bits * t) double,
      spread (bit % 2) (little bits) (2 ^ i),
    )

state_after-append :
    (trellis : TrellisTable) (s : ℕ) (xs ys : List ℕ)
    → state_after trellis s (xs ++ ys) ≡ state_after trellis (state_after trellis s xs) ys
state_after-append trellis s [] ys = refl
state_after-append trellis s (x ∷ xs) ys = state_after-append trellis (next trellis s (x % 2)) xs ys

state_after-lt :
    (m : ℕ) (trellis : TrellisTable) (s : ℕ) (bits : List ℕ)
    → IsTrellis m trellis
    → s < 2 ^ m
    → state_after trellis s bits < 2 ^ m
state_after-lt m trellis s [] facts hs = hs
state_after-lt m trellis s (bit ∷ bits) facts hs =
    state_after-lt m trellis (next trellis s (bit % 2)) bits facts
      (grind (arith, facts.shifts s (bit % 2) hs (omega arith)))

high_field : (m a q : ℕ) → a < 2 ^ m → (a + q * 2 ^ m) / 2 ^ m ≡ q
high_field m a q h = add-mul-div_right a q (pow_pos m) ∙ omega (arith, div-eq_of_lt h)

-- A word with at least as many bits as the register is encoded from a state in range that the
-- encoder is in again after the word; a shorter word is refused.
pub encode_tail_biting-closes :
    (m : ℕ) (dec : ViterbiDecoder) (info : List ℕ)
    → IsDecoder m dec
    → (m ≤ length info
        → (s : ℕ) × (s < 2 ^ m)
          × (encode_tail_biting dec info ≡ ok (encode_from dec.trellis s info))
          × (state_after dec.trellis s info ≡ s))
      × (length info < m
          → encode_tail_biting dec info
            ≡ err (
                invalid_param
                  "tail-biting encode requires at least K-1 info bits to pre-load the register"))
unfolding encode_tail_biting
encode_tail_biting-closes m dec info facts = (
  (λ long.
      let wide : ltb (length info) reg_len ≡ false = ground (arith, reg, long) in
      (start, start-lt, rw wide refl, closes long)),
  λ short.
      let narrow : ltb (length info) reg_len ≡ true = ground (arith, reg, short) in rw narrow refl,
)
  where
    reg_len : ℕ
    reg_len = dec.constraint_length - 1

    reg : reg_len ≡ m
    reg = omega (arith, facts.constraint)

    front : List ℕ
    front = take (length info - reg_len) info

    last : List ℕ
    last = drop (length info - reg_len) info

    last-le : length last ≤ m
    last-le = omega (arith, length-drop (length info - reg_len) info, reg)

    start : ℕ
    start = preload 0 0 last

    loaded : start ≡ little last
    loaded = omega (arith, preload-little 0 0 last (omega arith))

    start-lt : start < 2 ^ m
    start-lt = grind (
      arith,
      loaded,
      little-lt last,
      pow_add (length last) (m - length last),
      pow_pos (m - length last),
      ap (λ (n : ℕ). 2 ^ n) {x = length last + (m - length last)} {y = m} (omega (arith, last-le)),
    )

    closes : m ≤ length info → state_after dec.trellis start info ≡ start
    closes long =
        let full : length last ≡ m =
          omega (arith, length-drop (length info - reg_len) info, reg, long) in
        let middle = state_after dec.trellis start front in
        let small : middle < 2 ^ m =
          state_after-lt m dec.trellis start front facts.trellis_facts start-lt in
        ap (state_after dec.trellis start) (sym (take-append-drop (length info - reg_len) info))
        ∙ state_after-append dec.trellis start front last
        ∙ state_after-little m dec.trellis middle last facts.trellis_facts small
        ∙ ap (λ (n : ℕ). (middle + little last * 2 ^ m) / 2 ^ n) full
        ∙ high_field m middle (little last) small
        ∙ sym loaded
