-- ===== src/Viterbi/Acs.antt =====
-- One trellis step of the decoder of src/viterbi.rs: every state gets its best way in.
use syndrome.Prelude.{
  ℕ, zero, suc, ◌+◌, ◌-◌, ◌^◌, ◌≤◌, ◌<◌, min, Bool, true, false, List, length, get_or, set,
  length-set, get_or-set_self, get_or-set_ne, replicate, length-replicate, get_or-replicate, ltb,
  ◌==◌, if◌then◌else◌, inl, inr, ◌⊎◌, ◌≢◌, ◌≡◌, refl, sym, subst, ap, ap₂, ◌∙◌, arith, dec_lt,
  ℕ_discrete,
}
use syndrome.Viterbi.{
  TrellisTable, next, inf, branch_metric, relax, relax_state, relax_states, acs_step_hard_scalar,
}

module _ (trellis : TrellisTable) (cur_met : List ℕ) (r0 r1 : ℕ) where
  -- The metric of the way into the next state from `s` with input `b`.
  abbrev pub way : ℕ → ℕ → ℕ
  way s b = get_or cur_met s 0 + branch_metric trellis r0 r1 s b

  -- A branch from a state that is reached into state `j`.
  pub record IsWay (j s b : ℕ) : Type 0 where
    pub state : s < trellis.n_states
    pub input : b < 2
    pub reached : get_or cur_met s 0 ≢ inf
    pub leads : next trellis s b ≡ j

  -- What state `j`'s cells hold once the branches in `Seen` are tried.
  pub record IsBest (Seen : ℕ → ℕ → Type 0) (j : ℕ) (tables : List ℕ × List ℕ) : Type 0 where
    pub lower : (s b : ℕ) → Seen s b → IsWay j s b → get_or tables.0 j 0 ≤ way s b
    pub attained :
        (get_or tables.0 j 0 ≡ inf)
        ⊎ ((s b : ℕ) × IsWay j s b
            × (get_or tables.1 j 0 ≡ s)
            × (get_or tables.0 j 0 ≡ way s b)
            × (way s b < inf))

  -- The tables have a cell for each state.
  abbrev pub Sized : List ℕ × List ℕ → Type 0
  Sized tables = (length tables.0 ≡ trellis.n_states) × (length tables.1 ≡ trellis.n_states)

  relax-Sized :
      (s b : ℕ) (tables : List ℕ × List ℕ)
      → Sized tables
      → Sized (relax trellis cur_met r0 r1 s b tables)
  unfolding relax
  relax-Sized s b (nxt, row) sized =
      go (ltb (min (way s b) (2 ^ 32 - 1)) (get_or nxt (next trellis s b) 0))
    where
      go :
          (better : Bool)
          → Sized (
              if better
              then (
                set nxt (next trellis s b) (min (way s b) (2 ^ 32 - 1)),
                set row (next trellis s b) s,
              )
              else (nxt, row))
      go true = (length-set nxt _ _ ∙ sized.0, length-set row _ _ ∙ sized.1)
      go false = sized

  pub best-le :
      {Seen : ℕ → ℕ → Type 0} (j : ℕ) (tables : List ℕ × List ℕ)
      → IsBest Seen j tables
      → get_or tables.0 j 0 ≤ inf
  best-le j tables best = elim best.attained [
    | inl untouched ↦ omega (arith, untouched)
    | inr (s, b, way, from, e, small) ↦ omega (arith, e, small)
  ]

  -- One more branch that is no better.
  IsBest-kept :
      {Seen Seen' : ℕ → ℕ → Type 0} (j : ℕ) (tables tables' : List ℕ × List ℕ)
      → IsBest Seen j tables
      → get_or tables'.0 j 0 ≡ get_or tables.0 j 0
      → get_or tables'.1 j 0 ≡ get_or tables.1 j 0
      → ((s b : ℕ) → Seen' s b → IsWay j s b → get_or tables.0 j 0 ≤ way s b)
      → IsBest Seen' j tables'
  IsBest-kept j tables tables' best same_met same_row more = record {
    lower = λ s b seen w. omega (arith, same_met, more s b seen w);
    attained = elim best.attained [
      | inl untouched ↦ inl (same_met ∙ untouched)
      | inr (s, b, w, from, e, small) ↦ inr (s, b, w, same_row ∙ from, same_met ∙ e, small)
    ];
  }

  -- The branches seen so far, and one more.
  abbrev With : (ℕ → ℕ → Type 0) → ℕ → ℕ → ℕ → ℕ → Type 0
  With Seen s b s' b' = Seen s' b' ⊎ ((s' ≡ s) × (b' ≡ b))

  relax-IsBest :
      {Seen : ℕ → ℕ → Type 0} (j s b : ℕ) (tables : List ℕ × List ℕ)
      → j < trellis.n_states
      → s < trellis.n_states
      → b < 2
      → get_or cur_met s 0 ≢ inf
      → Sized tables
      → IsBest Seen j tables
      → IsBest (With Seen s b) j (relax trellis cur_met r0 r1 s b tables)
  unfolding relax
  relax-IsBest {Seen = Seen} j s b (nxt, row) hj hs hb reached sized best =
      go (ltb (min (way s b) (2 ^ 32 - 1)) (get_or nxt (next trellis s b) 0)) refl
    where
      ns : ℕ
      ns = next trellis s b

      new : ℕ
      new = min (way s b) (2 ^ 32 - 1)

      written : List ℕ × List ℕ
      written = (set nxt ns new, set row ns s)

      go :
          (better : Bool)
          → ltb new (get_or nxt ns 0) ≡ better
          → IsBest (With Seen s b) j (if better then written else (nxt, row))
      go false e =
          IsBest-kept j (nxt, row) (nxt, row) best refl refl
            (λ s' b' seen w. elim seen [
              | inl old ↦ best.lower s' b' old w
              | inr (es, eb) ↦
                  let at : ns ≡ j = ap₂ (next trellis) (sym es) (sym eb) ∙ w.leads in
                  let not_better : get_or nxt ns 0 ≤ new = ground (arith, e) in
                  omega (arith, ap (λ i. get_or nxt i 0) at, not_better, ap₂ way es eb)
            ])
      go true e = elim (ℕ_discrete ns j) [
        | yes same ↦
            let better : new < get_or nxt ns 0 = ground (arith, e) in
            let cell : get_or nxt ns 0 ≡ get_or nxt j 0 = ap (λ i. get_or nxt i 0) same in
            let met : get_or (set nxt ns new) j 0 ≡ new =
              ap (λ i. get_or (set nxt ns new) i 0) (sym same)
              ∙ get_or-set_self nxt ns new 0 (omega (arith, same, sized.0)) in
            let from : get_or (set row ns s) j 0 ≡ s =
              ap (λ i. get_or (set row ns s) i 0) (sym same)
              ∙ get_or-set_self row ns s 0 (omega (arith, same, sized.1)) in
            record {
              lower = λ s' b' seen w. elim seen [
                | inl old ↦ omega (arith, best.lower s' b' old w, better, cell, met)
                | inr (es, eb) ↦ omega (arith, met, ap₂ way es eb)
              ];
              attained = inr (
                s,
                b,
                record { state = hs; input = hb; reached = reached; leads = same },
                from,
                omega (arith, met, better, cell, best-le j (nxt, row) best),
                omega (arith, better, cell, best-le j (nxt, row) best),
              );
            }
        | no other ↦
            IsBest-kept j (nxt, row) written best (get_or-set_ne nxt ns j new 0 other)
              (get_or-set_ne row ns j s 0 other)
              (λ s' b' seen w. elim seen [
                | inl old ↦ best.lower s' b' old w
                | inr (es, eb) ↦ absurd (other (ap₂ (next trellis) (sym es) (sym eb) ∙ w.leads))
              ])
      ]

  -- Every branch of the states below `s` is seen.
  abbrev Below : ℕ → ℕ → ℕ → Type 0
  Below s s' b' = s' < s

  relax_state-lem :
      (j s : ℕ) (tables : List ℕ × List ℕ)
      → j < trellis.n_states
      → s < trellis.n_states
      → Sized tables
      → IsBest (Below s) j tables
      → Sized (relax_state trellis cur_met r0 r1 s tables)
        × IsBest (Below (s + 1)) j (relax_state trellis cur_met r0 r1 s tables)
  unfolding relax_state
  relax_state-lem j s tables hj hs sized best = go (get_or cur_met s 0 == inf) refl
    where
      one : List ℕ × List ℕ
      one = relax trellis cur_met r0 r1 s 0 tables

      two : List ℕ × List ℕ
      two = relax trellis cur_met r0 r1 s 1 one

      go :
          (skip : Bool)
          → (get_or cur_met s 0 == inf) ≡ skip
          → Sized (if skip then tables else two)
            × IsBest (Below (s + 1)) j (if skip then tables else two)
      go true e = (
        sized,
        IsBest-kept j tables tables best refl refl (λ s' b' seen w. elim (dec_lt s' s) [
          | yes old ↦ best.lower s' b' old w
          | no new ↦ absurd (
              w.reached (
                ap (λ i. get_or cur_met i 0) {x = s'} {y = s} (omega (arith, new, seen))
                ∙ ground (arith, e)))
        ]),
      )
      go false e =
          let reached : get_or cur_met s 0 ≢ inf = λ same. ground (arith, e, same) in
          let sized_one = relax-Sized s 0 tables sized in
          let best_one = relax-IsBest j s 0 tables hj hs (omega arith) reached sized best in
          let best_two = relax-IsBest j s 1 one hj hs (omega arith) reached sized_one best_one in
          (
            relax-Sized s 1 one sized_one,
            IsBest-kept j two two best_two refl refl (λ s' b' seen w.
                best_two.lower s' b'
                  (elim (dec_lt s' s) [
                    | yes old ↦ inl (inl old)
                    | no new ↦ last s' b' (omega (arith, new, seen)) w.input
                  ])
                  w),
          )
        where
          last : (s' b' : ℕ) → s' ≡ s → b' < 2 → With (With (Below s) s 0) s 1 s' b'
          last s' zero es h = inl (inr (es, refl))
          last s' (suc zero) es h = inr (es, refl)
          last s' (suc (suc b')) es h = absurd (omega (arith, h))

  relax_states-lem :
      (left s j : ℕ) (tables : List ℕ × List ℕ)
      → s + left ≡ trellis.n_states
      → j < trellis.n_states
      → Sized tables
      → IsBest (Below s) j tables
      → Sized (relax_states trellis cur_met r0 r1 left s tables)
        × IsBest (Below trellis.n_states) j (relax_states trellis cur_met r0 r1 left s tables)
  unfolding relax_states
  relax_states-lem zero s j tables all hj sized best = (
    sized,
    subst (λ n. IsBest (Below n) j tables) {x = s} {y = trellis.n_states} (omega (arith, all)) best,
  )
  relax_states-lem (suc left) s j tables all hj sized best =
      let (sized', best') = relax_state-lem j s tables hj (omega (arith, all)) sized best in
      relax_states-lem left (s + 1) j (relax_state trellis cur_met r0 r1 s tables)
        (omega (arith, all)) hj sized' best'

  -- After a step every state's cells hold its best way in.
  pub acs_step_hard_scalar_lem :
      (row : List ℕ) (j : ℕ)
      → length row ≡ trellis.n_states
      → j < trellis.n_states
      → let tables = acs_step_hard_scalar trellis cur_met r0 r1 row in
        Sized tables × IsBest (λ s b. s < trellis.n_states) j tables
  unfolding acs_step_hard_scalar
  acs_step_hard_scalar_lem row j size hj =
      relax_states-lem trellis.n_states 0 j (replicate trellis.n_states inf, row) (omega arith) hj
        (length-replicate trellis.n_states inf, size)
        (record {
          lower = λ s b seen w. absurd (omega (arith, seen));
          attained = inl (get_or-replicate trellis.n_states j inf 0 hj);
        })
