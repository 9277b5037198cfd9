-- ===== src/Viterbi/Optimal.antt =====
-- `decode_hard_scalar` of src/viterbi.rs decodes to a nearest codeword.
use syndrome.Prelude.{
  ℕ, ◌+◌, ◌-◌, ◌*◌, ◌/◌, ◌%◌, ◌≤◌, ◌<◌, Bool, true, false, List, [], ◌∷◌, ◌++◌, All, length,
  length-map, length-append, length-replicate, get_or, set, drop, replicate, distance, ltb, ◌==◌,
  if◌then◌else◌, inl, inr, ◌≡◌, refl, sym, subst, ap, ◌∙◌, arith,
}
use syndrome.Word.Xor.{pow_pos}
use syndrome.Viterbi.{
  ViterbiDecoder, encode, inf, acs_steps, traceback_from, ensure_traceback, reverse_rows,
  decode_hard_scalar,
}
use syndrome.Viterbi.Paths.{rev_onto, received, state_of, cost_of, cost_of-le}
use syndrome.Viterbi.Words.{
  IsDecoder, path, All-zeros, All-bits, cost_of-path, sent_as_bits, path-ends, path-bits,
  length-path, from_zero,
}
use syndrome.Viterbi.Survivors.{
  traced, length-traced, traceback_from_lem, acs_steps-IsTable, start-IsTable,
}

length-ensure_traceback :
    (traceback : List ℕ) (needed : ℕ) → needed ≤ length (ensure_traceback traceback needed)
unfolding ensure_traceback
length-ensure_traceback traceback needed = go (ltb (length traceback) needed) refl
  where
    go :
        (short : Bool)
        → ltb (length traceback) needed ≡ short
        → needed
          ≤ length
              (if short then traceback ++ replicate (needed - length traceback) 0 else traceback)
    go true e = omega (
      arith,
      length-append traceback (replicate (needed - length traceback) 0),
      length-replicate {A = ℕ} (needed - length traceback) 0,
    )
    go false e = ground (arith, e)

module _ (m : ℕ) (dec : ViterbiDecoder) (facts : IsDecoder m dec) (wide : 0 < m)
    (coded : List ℕ) where
  -- The rows that the decoder's loop leaves.
  abbrev decoder_rows : ℕ → List (List ℕ)
  decoder_rows t_max =
      acs_steps dec.trellis coded (ensure_traceback dec.traceback (dec.trellis.n_states * t_max))
        t_max 0 (set (replicate dec.trellis.n_states inf) 0 0) []

  -- The decoder traces back a path to state 0 that no other such path undercuts.
  traced-cheapest :
      (t_max : ℕ)
      → 2 * t_max ≡ length coded
      → m ≤ t_max
      → length coded < inf
      → let p = traced dec.trellis (decoder_rows t_max) 0 in
        (length p ≡ t_max)
        × All (λ b. b < 2) p
        × (state_of dec.trellis p ≡ 0)
        × ((q : List ℕ)
            → length q ≡ t_max
            → All (λ b. b < 2) q
            → state_of dec.trellis q ≡ 0
            → cost_of dec.trellis coded p ≤ cost_of dec.trellis coded q)
  traced-cheapest t_max size enough small =
      let (last_met, table) =
        acs_steps-IsTable m dec.trellis facts.trellis_facts wide coded
          (ensure_traceback dec.traceback (dec.trellis.n_states * t_max)) t_max 0
          (set (replicate dec.trellis.n_states inf) 0 0) []
          (omega (
            arith,
            length-ensure_traceback dec.traceback (dec.trellis.n_states * t_max),
            ap (λ (n : ℕ). dec.trellis.n_states * n) {x = 0 + t_max} {y = t_max} (omega arith),
          ))
          (start-IsTable m dec.trellis facts.trellis_facts wide coded) in
      let (count, known) = table in
      let zero_state = known 0 (omega (arith, facts.trellis_facts.states, pow_pos m)) in
      let idle = replicate (t_max - m) 0 in
      let idle_cost : cost_of dec.trellis coded (path m idle) < inf = omega (
        arith,
        cost_of-le dec.trellis coded m facts.trellis_facts (path m idle)
            (path-bits m dec facts coded idle (All-zeros (t_max - m))),
        length-path m dec facts coded idle,
        length-replicate {A = ℕ} (t_max - m) 0,
        size,
        enough,
        small,
      ) in
      let reached : get_or last_met 0 0 ≤ cost_of dec.trellis coded (path m idle) =
        zero_state.lower (path m idle)
          (omega (
            arith,
            length-path m dec facts coded idle,
            length-replicate {A = ℕ} (t_max - m) 0,
            enough,
          ))
          (path-bits m dec facts coded idle (All-zeros (t_max - m)))
          (path-ends m dec facts coded idle (All-zeros (t_max - m))) in
      elim zero_state.attained [
        | inl unreached ↦ absurd (omega (arith, unreached, reached, idle_cost))
        | inr (bits, at, cost) ↦ (
          omega (arith, length-traced dec.trellis (decoder_rows t_max) 0, count),
          bits,
          at,
          λ q long qbits ends.
              omega (arith, cost, zero_state.lower q (omega (arith, long)) qbits ends),
        )
      ]

  -- A word of `n` bits whose codeword is nearest to what was received.
  abbrev pub IsNearest : ℕ → List ℕ → Type 0
  IsNearest n info =
      (length info ≡ n)
      × All (λ b. b < 2) info
      × ((sent : List ℕ)
          → length sent ≡ n
          → distance (encode dec info) (received coded)
            ≤ distance (encode dec sent) (received coded))

  empty-IsNearest : (n : ℕ) → n ≡ 0 → IsNearest n []
  empty-IsNearest n none = (sym none, tt, λ sent long. same sent (long ∙ none))
    where
      same :
          (sent : List ℕ)
          → length sent ≡ 0
          → distance (encode dec []) (received coded) ≤ distance (encode dec sent) (received coded)
      same [] long = omega arith
      same (x ∷ sent) long = absurd (omega (arith, long))

  traced-IsNearest :
      (n t_max : ℕ)
      → length coded ≡ 2 * (n + m)
      → 2 * t_max ≡ length coded
      → length coded < inf
      → IsNearest n (rev_onto (drop m (traced dec.trellis (decoder_rows t_max) 0)) [])
  traced-IsNearest n t_max size whole small =
      let (long, bits, at, cheapest) =
        traced-cheapest t_max whole (omega (arith, size, whole)) small in
      let p = traced dec.trellis (decoder_rows t_max) 0 in
      let (same, count, info_bits) =
        from_zero m dec facts coded n p (omega (arith, long, size, whole)) bits at in
      (
        count,
        info_bits,
        λ sent sent_long.
            let sent_path = path m (received sent) in
            let sent_count : length (received sent) ≡ n =
              length-map sent (λ v. v % 2) ∙ sent_long in
            omega (
              arith,
              cost_of-path m dec facts coded (rev_onto (drop m p) []) info_bits
                  (omega (arith, size, count)),
              ap (cost_of dec.trellis coded) same,
              cheapest sent_path
                  (omega
                    (arith, length-path m dec facts coded (received sent), sent_count, size, whole))
                  (path-bits m dec facts coded (received sent) (All-bits sent))
                  (path-ends m dec facts coded (received sent) (All-bits sent)),
              cost_of-path m dec facts coded (received sent) (All-bits sent)
                  (omega (arith, size, sent_count)),
              ap (λ word. distance word (received coded)) (sent_as_bits m dec facts coded sent),
            ),
      )

  -- For a register of at least one bit, whatever the traceback table holds, a frame of n
  -- information bits and the tail, shorter than the metric that stands for infinity, decodes to n
  -- bits whose codeword is at least as near to what was received as that of any other n bits.
  pub decode_hard_scalar-IsNearest :
      (n : ℕ)
      → length coded ≡ 2 * (n + m)
      → length coded < inf
      → IsNearest n (decode_hard_scalar dec coded).1
  unfolding decode_hard_scalar
  decode_hard_scalar-IsNearest n size small = go (n_info == 0) refl
    where
      t_max : ℕ
      t_max = length coded / 2

      n_info : ℕ
      n_info = t_max - (dec.constraint_length - 1)

      n_info-eq : n_info ≡ n
      n_info-eq = omega (arith, size, facts.constraint)

      whole : 2 * t_max ≡ length coded
      whole = omega (arith, size)

      rows : List (List ℕ)
      rows = decoder_rows t_max

      table : List ℕ
      table = ensure_traceback dec.traceback (dec.trellis.n_states * t_max)

      outcome : Bool → List ℕ × List ℕ
      outcome empty = if empty then (dec.traceback, []) else (
        reverse_rows rows (drop (dec.trellis.n_states * t_max) table),
        traceback_from dec.trellis n_info rows 0 [],
      )

      go : (empty : Bool) → (n_info == 0) ≡ empty → IsNearest n (outcome empty).1
      go true e = empty-IsNearest n (ground (arith, e, n_info-eq))
      go false e =
          subst (IsNearest n)
            (sym (
              traceback_from_lem dec.trellis n_info m rows 0 [] (
                omega (
                  arith,
                  length-traced dec.trellis rows 0,
                  (traced-cheapest t_max whole (omega (arith, size, whole)) small).0,
                  n_info-eq,
                  size,
                ))))
            (traced-IsNearest n t_max size whole small)
