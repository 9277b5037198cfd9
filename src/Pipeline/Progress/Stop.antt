-- ===== src/Pipeline/Progress/Stop.antt =====
-- After the drop every worker of src/ldpc_pipeline.rs stops, so that joining them ends.
use syndrome.Prelude.{
  ℕ, ◌+◌, ◌-◌, ◌*◌, ◌≤◌, ◌<◌, true, List, [], ◌∷◌, ◌++◌, map, length, All, get_or, ◌≡◌, refl, ap,
  ◌∙◌, arith, Each,
}
use syndrome.Pipeline.{
  Phase, polling, checking, decoding, pushing, stopped, LdpcDecoder, drop_pipeline,
}
use syndrome.Pipeline.Schedule.{System, Move, drop_all, work, step, run, start, reached}
use syndrome.Pipeline.Lanes.{le-total, count, Lane, idle_lane, in_hand, lane_size, All_of_get}
use syndrome.Pipeline.Ownership.{IsValid}
use syndrome.Pipeline.Ownership.Around.{AtPhase}
use syndrome.Pipeline.Ownership.Workers.{lane_turn}
use syndrome.Pipeline.Ownership.Reachable.{run-IsValid}
use syndrome.Pipeline.Progress.{turned, turns-Lowered, IsFair, fair_lanes, foldl-append}

-- The turns that a worker needs to stop, after the flag is set.
phase_left : Phase → ℕ → ℕ
phase_left polling queued = 3 * queued + 2
phase_left checking queued = 1
phase_left (decoding idx) queued = 3 * queued + 4
phase_left (pushing idx) queued = 3 * queued + 3
phase_left stopped queued = 0

abbrev to_stop : Lane → ℕ
to_stop lane = phase_left lane.phase (length lane.queued)

to_stop-falls_at :
    (p : Phase) (q f : List ℕ) → to_stop (lane_turn true p q f) ≤ phase_left p (length q) - 1
unfolding lane_turn phase_left
to_stop-falls_at polling [] f = omega arith
to_stop-falls_at polling (x ∷ q) f = omega arith
to_stop-falls_at checking q f = omega arith
to_stop-falls_at (decoding idx) q f = omega arith
to_stop-falls_at (pushing idx) q f = omega arith
to_stop-falls_at stopped q f = omega arith

to_stop-falls : (lane : Lane) → to_stop (turned true lane) ≤ to_stop lane - 1
to_stop-falls lane = to_stop-falls_at lane.phase lane.queued lane.finished

to_stop-le_at :
    (p : Phase) (q : List ℕ) → phase_left p (length q) ≤ 3 * (length q + length (in_hand p)) + 2
unfolding phase_left
to_stop-le_at polling q = omega arith
to_stop-le_at checking q = omega arith
to_stop-le_at (decoding idx) q = omega arith
to_stop-le_at (pushing idx) q = omega arith
to_stop-le_at stopped q = omega arith

stopped_of_no_steps : (p : Phase) (queued : ℕ) → phase_left p queued ≡ 0 → p ≡ stopped
unfolding phase_left
stopped_of_no_steps polling queued h = absurd (omega arith)
stopped_of_no_steps checking queued h = absurd (omega arith)
stopped_of_no_steps (decoding idx) queued h = absurd (omega arith)
stopped_of_no_steps (pushing idx) queued h = absurd (omega arith)
stopped_of_no_steps stopped queued h = refl

abbrev HasStopped : Lane → Type 0
HasStopped lane = lane.phase ≡ stopped

stopped_phases :
    (phases : List Phase) (lanes : List Lane)
    → Each AtPhase phases lanes
    → All HasStopped lanes
    → All (λ p. p ≡ stopped) phases
stopped_phases [] [] p h = tt
stopped_phases [] (lane ∷ lanes) p h = absurd p
stopped_phases (x ∷ phases) [] p h = absurd p
stopped_phases (x ∷ phases) (lane ∷ lanes) p h = (p.0 ∙ h.0, stopped_phases phases lanes p.1 h.1)

module _ {F : Type 0} (dec : LdpcDecoder F) (iterations : ℕ) where
  all_stopped :
      (turns : List ℕ) {s : System F} (v : IsValid s)
      → s.pipe.stop_flag ≡ true
      → ((wi : ℕ) → wi < length v.lanes → 51 ≤ count wi turns)
      → All (λ p. p ≡ stopped) (run dec iterations s (map work turns)).pipe.workers
  all_stopped turns {s} v flag enough =
      let (v', held, flag', out, size, low) =
        turns-Lowered dec iterations true to_stop to_stop-falls turns v flag in
      stopped_phases (run dec iterations s (map work turns)).pipe.workers v'.lanes v'.phases (
        All_of_get HasStopped v'.lanes idle_lane (λ i l.
          let lane : Lane = get_or v.lanes i idle_lane in
          let lane' : Lane = get_or v'.lanes i idle_lane in
          stopped_of_no_steps lane'.phase (length lane'.queued) (
            omega (
              arith,
              low i (omega (arith, size)),
              enough i (omega (arith, size)),
              v.sizes,
              to_stop-le_at lane.phase lane.queued,
              le-total lane_size v.lanes i idle_lane (omega (arith, size)),
            ))))

  flag_set :
      (workers : ℕ) (moves : List (Move F))
      → (reached dec iterations workers (moves ++ drop_all ∷ [])).pipe.stop_flag ≡ true
  unfolding step drop_pipeline
  flag_set workers moves =
      ap (λ (u : System F). u.pipe.stop_flag)
        (foldl-append (step dec iterations) (start dec workers) moves (drop_all ∷ []))

  -- After any sequence of the caller's calls and the workers' steps and then the stop flag that
  -- `drop` sets, if the workers take turns in any order, each of them at least 51 times, then
  -- every worker has left its loop, so that joining them ends.
  pub drop-stops :
      (workers : ℕ) (moves : List (Move F)) (turns : List ℕ)
      → IsFair (reached dec iterations workers (moves ++ drop_all ∷ [])) 51 turns
      → All
          (λ p. p ≡ stopped)
          (run dec iterations
            (reached dec iterations workers (moves ++ drop_all ∷ []))
            (map work turns)).pipe.workers
  drop-stops workers moves turns fair =
      let v = run-IsValid dec iterations workers (moves ++ drop_all ∷ []) in
      all_stopped turns v (flag_set workers moves) (fair_lanes v turns fair)
