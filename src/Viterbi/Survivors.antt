-- ===== src/Viterbi/Survivors.antt =====
-- The loop over the trellis steps of src/viterbi.rs keeps a cheapest path to every state.
use syndrome.Prelude.{
  ℕ, zero, suc, ◌+◌, ◌-◌, ◌*◌, ◌^◌, ◌≤◌, ◌<◌, true, false, List, [], ◌∷◌, All, length, get_or, set,
  take, drop, length-take, length-drop, length-replicate, get_or-set_self, get_or-set_ne,
  get_or-replicate, replicate, ltb, ◌==◌, if◌then◌else◌, inl, inr, ◌⊎◌, ◌≢◌, ◌≡◌, refl, sym, subst,
  ap, ap₂, ◌∙◌, arith, ℕ_discrete,
}
use syndrome.Word.Xor.{pow_pos, pow_add}
use syndrome.Viterbi.{
  TrellisTable, next, inf, branch_metric, acs_step_hard_scalar, acs_steps, traceback_from,
}
use syndrome.Viterbi.Trellis.{IsTrellis}
use syndrome.Viterbi.Acs.{IsBest, best-le, acs_step_hard_scalar_lem}
use syndrome.Viterbi.Paths.{rev_onto, state_of, state_of-lt, first, second, cost_of}

module _ (trellis : TrellisTable) where
  -- The input that `traceback_from` reads off a step from `ps` to `s`.
  abbrev pub input_of : ℕ → ℕ → ℕ
  input_of ps s = if get_or trellis.next_state (ps * 2) 0 == s then 0 else 1

  -- The path that the rows spell from state `s` back, latest input first.
  abbrev pub traced : List (List ℕ) → ℕ → List ℕ
  traced [] s = []
  traced (row ∷ rows) s = input_of (get_or row s 0) s ∷ traced rows (get_or row s 0)

  pub length-traced : (rows : List (List ℕ)) (s : ℕ) → length (traced rows s) ≡ length rows
  length-traced [] s = refl
  length-traced (row ∷ rows) s = ap suc (length-traced rows (get_or row s 0))

  traceback_from-all :
      (n : ℕ) (rows : List (List ℕ)) (s : ℕ) (decoded : List ℕ)
      → length rows ≤ n
      → traceback_from trellis n rows s decoded ≡ rev_onto (traced rows s) decoded
  unfolding traceback_from
  traceback_from-all n [] s decoded size = refl
  traceback_from-all n (row ∷ rows) s decoded size =
      let kept : ltb (length rows) n ≡ true = ground (arith, size) in
      ap
        (λ c.
          traceback_from trellis n rows (get_or row s 0)
            (if c then input_of (get_or row s 0) s ∷ decoded else decoded))
        kept
      ∙ traceback_from-all n rows (get_or row s 0) (input_of (get_or row s 0) s ∷ decoded)
          (omega (arith, size))

  -- `traceback_from` reads the first `n_info` inputs off that path.
  pub traceback_from_lem :
      (n d : ℕ) (rows : List (List ℕ)) (s : ℕ) (decoded : List ℕ)
      → length rows ≡ n + d
      → traceback_from trellis n rows s decoded ≡ rev_onto (drop d (traced rows s)) decoded
  unfolding traceback_from
  traceback_from_lem n zero rows s decoded size =
      traceback_from-all n rows s decoded (omega (arith, size))
  traceback_from_lem n (suc d) [] s decoded size = absurd (omega (arith, size))
  traceback_from_lem n (suc d) (row ∷ rows) s decoded size =
      let skipped : ltb (length rows) n ≡ false = ground (arith, size) in
      ap
        (λ c.
          traceback_from trellis n rows (get_or row s 0)
            (if c then input_of (get_or row s 0) s ∷ decoded else decoded))
        skipped
      ∙ traceback_from_lem n d rows (get_or row s 0) decoded (omega (arith, size))

module _ (m : ℕ) (trellis : TrellisTable) (facts : IsTrellis m trellis) (wide : 0 < m)
    (coded : List ℕ) where
  -- What is known of state `s` after `t` steps.
  pub record IsSurvivor (t : ℕ) (cur_met : List ℕ) (rows : List (List ℕ)) (s : ℕ) : Type 0 where
    pub lower :
        (p : List ℕ)
        → length p ≡ t
        → All (λ b. b < 2) p
        → state_of trellis p ≡ s
        → get_or cur_met s 0 ≤ cost_of trellis coded p
    pub attained :
        (get_or cur_met s 0 ≡ inf)
        ⊎ (All (λ b. b < 2) (traced trellis rows s)
            × (state_of trellis (traced trellis rows s) ≡ s)
            × (cost_of trellis coded (traced trellis rows s) ≡ get_or cur_met s 0))

  two_ways : (s : ℕ) → s < 2 ^ m → next trellis s 0 ≢ next trellis s 1
  two_ways s hs same = absurd (
      omega (
        arith,
        same,
        facts.shifts s 0 hs (omega arith),
        facts.shifts s 1 hs (omega arith),
        ap (λ (n : ℕ). 2 ^ n) {x = m} {y = m - 1 + 1} (omega (arith, wide)),
        pow_add (m - 1) 1,
        pow_pos (m - 1),
      ))

  zero_way : (s : ℕ) → get_or trellis.next_state (s * 2) 0 ≡ next trellis s 0
  zero_way s =
      ap (λ (i : ℕ). get_or trellis.next_state i 0) {x = s * 2} {y = s * 2 + 0} (omega arith)

  input_of_lem :
      (ps s b : ℕ) → ps < 2 ^ m → b < 2 → next trellis ps b ≡ s → input_of trellis ps s ≡ b
  input_of_lem ps s zero hs hb leads = ground (arith, leads, zero_way ps)
  input_of_lem ps s (suc zero) hs hb leads = ground (arith, leads, zero_way ps, two_ways ps hs)
  input_of_lem ps s (suc (suc b)) hs hb leads = absurd (omega (arith, hb))

  -- One step keeps a cheapest path to every state.
  step-IsSurvivor :
      (t : ℕ) (cur_met row : List ℕ) (rows : List (List ℕ))
      → length rows ≡ t
      → length row ≡ trellis.n_states
      → ((s : ℕ) → s < trellis.n_states → IsSurvivor t cur_met rows s)
      → let tables =
          acs_step_hard_scalar trellis cur_met
            (first trellis coded t)
            (second trellis coded t)
            row in
        (s : ℕ)
        → s < trellis.n_states
        → (length tables.0 ≡ trellis.n_states) × IsSurvivor (t + 1) tables.0 (tables.1 ∷ rows) s
  step-IsSurvivor t cur_met row rows count size old j hj =
      (sized.0, record { lower = lower; attained = attained })
    where
      tables : List ℕ × List ℕ
      tables =
          acs_step_hard_scalar trellis cur_met (first trellis coded t) (second trellis coded t) row

      sized : (length tables.0 ≡ trellis.n_states) × (length tables.1 ≡ trellis.n_states)
      sized =
          (acs_step_hard_scalar_lem trellis cur_met (first trellis coded t) (second trellis coded t)
            row j size hj).0

      best :
          IsBest trellis cur_met
            (first trellis coded t)
            (second trellis coded t)
            (λ s b. s < trellis.n_states)
            j
            tables
      best =
          (acs_step_hard_scalar_lem trellis cur_met (first trellis coded t) (second trellis coded t)
            row j size hj).1

      metric : ℕ → ℕ → ℕ → ℕ
      metric n s b = branch_metric trellis (first trellis coded n) (second trellis coded n) s b

      lower :
          (p : List ℕ)
          → length p ≡ t + 1
          → All (λ b. b < 2) p
          → state_of trellis p ≡ j
          → get_or tables.0 j 0 ≤ cost_of trellis coded p
      lower [] long bits leads = absurd (omega (arith, long))
      lower (b ∷ p) long bits leads =
          let hs : state_of trellis p < trellis.n_states =
            omega (arith, state_of-lt m trellis facts p bits.1, facts.states) in
          let so_far = (old (state_of trellis p) hs).lower p (omega (arith, long)) bits.1 refl in
          let same : metric (length p) (state_of trellis p) b ≡ metric t (state_of trellis p) b =
            ap (λ (n : ℕ). metric n (state_of trellis p) b) {x = length p} {y = t}
              (omega (arith, long)) in
          elim (ℕ_discrete (get_or cur_met (state_of trellis p) 0) inf) [
            | yes unreached ↦ omega (arith, unreached, so_far, best-le _ _ _ _ j tables best)
            | no reached ↦ omega (
              arith,
              so_far,
              same,
              best.lower (state_of trellis p) b hs
                  (record { state = hs; input = bits.0; reached = reached; leads = leads }),
            )
          ]

      Attained : List ℕ → Type 0
      Attained p =
          All (λ b. b < 2) p
          × (state_of trellis p ≡ j)
          × (cost_of trellis coded p ≡ get_or tables.0 j 0)

      attained : (get_or tables.0 j 0 ≡ inf) ⊎ Attained (traced trellis (tables.1 ∷ rows) j)
      attained = elim best.attained [
        | inl untouched ↦ inl untouched
        | inr (s, b, w, from, e, small) ↦ elim (old s w.state).attained [
          | inl unreached ↦ absurd (w.reached unreached)
          | inr (bits, at, cost) ↦
              let spelled : traced trellis (tables.1 ∷ rows) j ≡ b ∷ traced trellis rows s =
                ap (λ ps. input_of trellis ps j ∷ traced trellis rows ps) from
                ∙ ap (λ b'. b' ∷ traced trellis rows s)
                    (input_of_lem s j b (omega (arith, w.state, facts.states)) w.input w.leads) in
              inr (
                subst Attained (sym spelled) (
                  (w.input, bits),
                  ap (λ s'. next trellis s' b) at ∙ w.leads,
                  ap₂ (λ (c : ℕ) (n : ℕ). c + metric n (state_of trellis (traced trellis rows s)) b)
                        {u = length (traced trellis rows s)} {v = t} cost
                        (length-traced trellis rows s ∙ count)
                      ∙ ap (λ s'. get_or cur_met s 0 + metric t s' b) at
                      ∙ sym e,
                ))
        ]
      ]

  -- What is known of every state after the steps.
  abbrev pub IsTable : ℕ → List ℕ → List (List ℕ) → Type 0
  IsTable t cur_met rows =
      (length rows ≡ t) × ((s : ℕ) → s < trellis.n_states → IsSurvivor t cur_met rows s)

  -- The loop keeps a cheapest path to every state, whatever the traceback table held.
  pub acs_steps-IsTable :
      (traceback : List ℕ) (left t : ℕ) (cur_met : List ℕ) (rows : List (List ℕ))
      → trellis.n_states * (t + left) ≤ length traceback
      → IsTable t cur_met rows
      → (last_met : List ℕ) × IsTable
          (t + left)
          last_met
          (acs_steps trellis coded traceback left t cur_met rows)
  unfolding acs_steps
  acs_steps-IsTable traceback zero t cur_met rows room known =
      (cur_met, subst (λ n. IsTable n cur_met rows) {x = t} {y = t + 0} (omega arith) known)
  acs_steps-IsTable traceback (suc left) t cur_met rows room known =
      let old = take trellis.n_states (drop (t * trellis.n_states) traceback) in
      let size : length old ≡ trellis.n_states = grind (
        arith,
        length-take trellis.n_states (drop (t * trellis.n_states) traceback),
        length-drop (t * trellis.n_states) traceback,
        room,
      ) in
      let tables =
        acs_step_hard_scalar trellis cur_met (first trellis coded t) (second trellis coded t) old in
      let (last_met, there) =
        acs_steps-IsTable traceback left (t + 1) tables.0 (tables.1 ∷ rows)
          (omega (
            arith,
            room,
            ap (λ (n : ℕ). trellis.n_states * n) {x = t + suc left} {y = t + 1 + left}
                (omega arith),
          ))
          (
            omega (arith, known.0),
            λ s hs. (step-IsSurvivor t cur_met old rows known.0 size known.1 s hs).1,
          ) in
      (
        last_met,
        subst
            (λ (n : ℕ).
              IsTable n last_met
                (acs_steps trellis coded traceback left (t + 1) tables.0 (tables.1 ∷ rows)))
            {x = t + 1 + left} {y = t + suc left} (omega arith) there,
      )

  -- Before the first step only state 0 is reached.
  pub start-IsTable : IsTable 0 (set (replicate trellis.n_states inf) 0 0) []
  start-IsTable = (refl, start)
    where
      start :
          (s : ℕ)
          → s < trellis.n_states
          → IsSurvivor 0 (set (replicate trellis.n_states inf) 0 0) [] s
      start zero hs =
          let met =
            get_or-set_self (replicate trellis.n_states inf) 0 0 0
              (omega (arith, hs, length-replicate trellis.n_states inf)) in
          record {
            lower = λ p long bits at. omega (arith, met);
            attained = inr (tt, refl, sym met);
          }
      start (suc s) hs =
          let met : get_or (set (replicate trellis.n_states inf) 0 0) (suc s) 0 ≡ inf =
            get_or-set_ne (replicate trellis.n_states inf) 0 (suc s) 0 0
              (λ e. absurd (omega (arith, e)))
            ∙ get_or-replicate trellis.n_states (suc s) inf 0 hs in
          record { lower = unreachable; attained = inl met }
        where
          unreachable :
              (p : List ℕ)
              → length p ≡ 0
              → All (λ b. b < 2) p
              → state_of trellis p ≡ suc s
              → get_or (set (replicate trellis.n_states inf) 0 0) (suc s) 0
                ≤ cost_of trellis coded p
          unreachable [] long bits at = absurd (omega (arith, at))
          unreachable (b ∷ p) long bits at = absurd (omega (arith, long))
