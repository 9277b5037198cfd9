-- ===== src/RateMatching/Cached.antt =====
-- The memoized `rate_match_into` against the direct `rate_match`.
use native.Mathlib.Nat.{mod-lt, mod-eq_of_lt, add-mul-mod_self_right, add_comm}
use mathlib.Core.Option.{some-injective}
use syndrome.Prelude.{
  ℕ, zero, suc, ◌+◌, ◌-◌, ◌*◌, ◌/◌, ◌%◌, ◌<◌, true, List, [], ◌∷◌, ◌++◌, map, drop, length-drop,
  append-nil, length, length-map, length-tabulate, replicate, get_or, get_or-map, tabulate,
  tabulate_ext, map-tabulate_from, concat-tabulate, concat, Option, none, some, Bool-cases, inl,
  inr, ◌≡◌, refl, sym, subst, ap, ap₂, ◌∙◌, arith,
}
use syndrome.Segmentation.{BaseGraph, bg1, bg2}
use syndrome.RateMatching.{
  window, selected, selection_walk, interleave, codeword_bit, RateMatchKey,
  interleaved_to_selection_index, RateMatchCache, empty_cache, same_graph, same_key, holds_key,
  gather_table, ensure, gather,
}

rows_pos : (p qm rows : ℕ) → p < qm * rows → 0 < rows
rows_pos p qm zero h = absurd (omega arith)
rows_pos p qm (suc rows) h = omega arith

col-lt : (p qm rows : ℕ) → p < qm * rows → p / rows < qm
col-lt p qm rows h = grind (arith, rows_pos p qm rows h)

index-lt : (p qm rows : ℕ) → p < qm * rows → interleaved_to_selection_index p qm rows < qm * rows
unfolding interleaved_to_selection_index
index-lt p qm rows h = grind (arith, col-lt p qm rows h, mod-lt p (rows_pos p qm rows h))

-- Slot `col * rows + row` is the one of row `row` and column `col`.
pub index-slot :
    (col row qm rows : ℕ)
    → row < rows
    → interleaved_to_selection_index (col * rows + row) qm rows ≡ row * qm + col
unfolding interleaved_to_selection_index
index-slot col row qm rows h = ap₂ (λ (a b : ℕ). a * qm + b) low high
  where
    low : (col * rows + row) % rows ≡ row
    low =
        ap (λ (t : ℕ). t % rows) (add_comm (col * rows) row)
        ∙ add-mul-mod_self_right row col rows
        ∙ mod-eq_of_lt h

    high : (col * rows + row) / rows ≡ col
    high = grind arith

-- The interleaver gathers by `interleaved_to_selection_index`.
pub interleave-tabulate :
    (e : List ℕ) (qm : ℕ)
    → interleave e qm
      ≡ tabulate
          (qm * (length e / qm))
          (λ p. get_or e (interleaved_to_selection_index p qm (length e / qm)) 0)
unfolding interleave
interleave-tabulate e qm =
    ap concat (
      tabulate_ext qm _ _ λ col _.
        tabulate_ext (length e / qm) _ _
          λ row h. ap (λ (i : ℕ). get_or e i 0) (sym (index-slot col row qm (length e / qm) h)))
    ∙ concat-tabulate qm (length e / qm)
        (λ p. get_or e (interleaved_to_selection_index p qm (length e / qm)) 0)

-- A table of full length gathers every slot.
pub gather-full :
    (codeword out idx : List ℕ)
    → length out ≡ length idx
    → gather codeword out idx ≡ map (codeword_bit codeword) idx
unfolding gather
gather-full codeword [] [] h = refl
gather-full codeword [] (i ∷ idx) h = absurd (omega arith)
gather-full codeword (old ∷ out) [] h = absurd (omega arith)
gather-full codeword (old ∷ out) (i ∷ idx) h =
    ap (◌∷◌ (codeword_bit codeword i)) (gather-full codeword out idx (omega arith))

-- What a cache holds under a key are that key's tables.
abbrev pub IsFresh : RateMatchCache → Type 0
IsFresh cache =
    (key : RateMatchKey)
    → cache.key ≡ some key
    → (cache.enc_idx ≡ map (λ pos. pos + 2 * key.z) (gather_table key))
      × (cache.dec_idx ≡ gather_table key)

pub empty_cache-IsFresh : IsFresh empty_cache
unfolding empty_cache
empty_cache-IsFresh key e = cc

same_graph-eq : (a b : BaseGraph) → same_graph a b ≡ true → a ≡ b
same_graph-eq bg1 bg1 h = refl
same_graph-eq bg2 bg2 h = refl
same_graph-eq bg1 bg2 h = cc
same_graph-eq bg2 bg1 h = cc

same_key-eq : (a b : RateMatchKey) → same_key a b ≡ true → a ≡ b
unfolding same_key
same_key-eq a b h = ground (arith, same_graph-eq a.bg b.bg)

holds_key-eq :
    (o : Option RateMatchKey) (key : RateMatchKey) → holds_key o key ≡ true → o ≡ some key
unfolding holds_key
holds_key-eq none key h = cc
holds_key-eq (some k) key h = ap some (same_key-eq k key h)

-- On a fresh cache `ensure` gives a fresh cache that holds the two index tables of the key asked
-- for, whatever key it held before.
pub ensure_lem :
    (cache : RateMatchCache) (key : RateMatchKey)
    → IsFresh cache
    → let cache' = ensure cache key (2 * key.z) in
      IsFresh cache'
      × (cache'.enc_idx ≡ map (λ pos. pos + 2 * key.z) (gather_table key))
      × (cache'.dec_idx ≡ gather_table key)
unfolding ensure
ensure_lem cache key fresh = elim (Bool-cases (holds_key cache.key key)) [
  | inl hit ↦
      let (enc, dec) = fresh key (holds_key-eq cache.key key hit) in rw hit (fresh, enc, dec)
  | inr miss ↦ rw miss (λ k e. rebuilt k (some-injective key k e), refl, refl)
]
  where
    rebuilt :
        (k : RateMatchKey)
        → key ≡ k
        → (map (λ pos. pos + 2 * key.z) (gather_table key)
            ≡ map (λ pos. pos + 2 * k.z) (gather_table k))
          × (gather_table key ≡ gather_table k)
    rebuilt k e = (
      ap (λ (t : RateMatchKey). map (λ pos. pos + 2 * t.z) (gather_table t)) e,
      ap gather_table e,
    )

no_more : (xs : List ℕ) → length xs ≡ 0 → xs ≡ []
no_more [] h = refl
no_more (x ∷ xs) h = absurd (omega arith)

module _ (key : RateMatchKey) (codeword e_out : List ℕ) (rows : ℕ)
    (sized : length e_out ≡ key.e_bits) (even : key.e_bits ≡ key.qm * rows)
    (row_count : key.e_bits / key.qm ≡ rows) where
  abbrev sel : List ℕ
  sel = selected (window key.bg key.z key.rv key.n_filler) key.e_bits

  abbrev bit_at : ℕ → ℕ
  bit_at pos = codeword_bit codeword (pos + 2 * key.z)

  -- What the table gathers, as a table of bits.
  pub gather-table :
      length sel ≡ key.e_bits
      → gather codeword e_out (map (λ pos. pos + 2 * key.z) (gather_table key))
        ≡ tabulate key.e_bits
            (λ p. bit_at (get_or sel (interleaved_to_selection_index p key.qm rows) 0))
  unfolding gather_table selection_walk tabulate
  gather-table full =
      gather-full codeword e_out _
        (sized ∙ sym (length-map (gather_table key) _ ∙ length-tabulate key.e_bits _))
      ∙ ap (map (codeword_bit codeword)) (map-tabulate_from _ 0 key.e_bits _)
      ∙ map-tabulate_from (codeword_bit codeword) 0 key.e_bits _
      ∙ tabulate_ext key.e_bits _ _ slot
    where
      padded : sel ++ replicate (key.e_bits - length sel) 0 ≡ sel
      padded =
          ap (λ (n : ℕ). sel ++ replicate n 0) {x = key.e_bits - length sel} {y = 0}
            (omega (arith, full))
          ∙ append-nil sel

      slot :
          (p : ℕ)
          → p < key.e_bits
          → bit_at (
              get_or
                (sel ++ replicate (key.e_bits - length sel) 0)
                (interleaved_to_selection_index p key.qm (key.e_bits / key.qm))
                0)
            ≡ bit_at (get_or sel (interleaved_to_selection_index p key.qm rows) 0)
      slot p h =
          ap₂
            (λ (l : List ℕ) (r : ℕ).
              bit_at (get_or l (interleaved_to_selection_index p key.qm r) 0))
            padded row_count

  -- What the interleaver makes of the selected bits.
  pub interleave-selected :
      length sel ≡ key.e_bits
      → interleave (map bit_at sel ++ drop (length sel) e_out) key.qm
        ≡ tabulate key.e_bits
            (λ p. bit_at (get_or sel (interleaved_to_selection_index p key.qm rows) 0))
  interleave-selected full =
      ap (λ (l : List ℕ). interleave l key.qm) filled
      ∙ interleave-tabulate (map bit_at sel) key.qm
      ∙ ap₂
          (λ (n r : ℕ).
            tabulate n (λ p. get_or (map bit_at sel) (interleaved_to_selection_index p key.qm r) 0))
          {u = length (map bit_at sel) / key.qm} {v = rows} slots count
      ∙ tabulate_ext key.e_bits _ _ slot
    where
      nothing_left : drop (length sel) e_out ≡ []
      nothing_left =
          no_more (drop (length sel) e_out)
            (omega (arith, length-drop (length sel) e_out, full, sized))

      filled : map bit_at sel ++ drop (length sel) e_out ≡ map bit_at sel
      filled = ap (λ (l : List ℕ). map bit_at sel ++ l) nothing_left ∙ append-nil (map bit_at sel)

      count : length (map bit_at sel) / key.qm ≡ rows
      count = ap (λ (n : ℕ). n / key.qm) (length-map sel bit_at ∙ full) ∙ row_count

      slots : key.qm * (length (map bit_at sel) / key.qm) ≡ key.e_bits
      slots = ap (λ (r : ℕ). key.qm * r) count ∙ sym even

      slot :
          (p : ℕ)
          → p < key.e_bits
          → get_or (map bit_at sel) (interleaved_to_selection_index p key.qm rows) 0
            ≡ bit_at (get_or sel (interleaved_to_selection_index p key.qm rows) 0)
      slot p h = get_or-map bit_at sel (interleaved_to_selection_index p key.qm rows) 0 0 (
          subst (λ (n : ℕ). interleaved_to_selection_index p key.qm rows < n) (sym even ∙ sym full)
            (index-lt p key.qm rows (subst (λ (n : ℕ). p < n) even h)))
