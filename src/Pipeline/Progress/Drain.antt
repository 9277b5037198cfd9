-- ===== src/Pipeline/Progress/Drain.antt =====
-- Every submitted frame of src/ldpc_pipeline.rs comes back.
use syndrome.Prelude.{
  ℕ, zero, suc, ◌+◌, ◌-◌, ◌*◌, ◌≤◌, ◌<◌, min, false, List, [], ◌∷◌, ◌++◌, map, length, All, get_or,
  replicate, Option, none, some, inl, inr, ◌≡◌, ◌≢◌, refl, sym, ap, subst, ◌∙◌, arith, Each,
}
use syndrome.Pipeline.{
  Phase, polling, checking, decoding, pushing, stopped, LdpcFrame, LdpcDecoder, LdpcPipeline,
  try_recv,
}
use syndrome.Pipeline.Schedule.{System, Move, recv_frame, work, collected, step, run, reached}
use syndrome.Pipeline.Lanes.{
  total, total-set, le-total, count, Lane, idle_lane, in_hand, lane_size, set-All, get-All,
  All_of_get, IsAwake,
}
use syndrome.Pipeline.Ownership.{IsValid}
use syndrome.Pipeline.Ownership.Around.{Loaded}
use syndrome.Pipeline.Ownership.Workers.{lane_turn}
use syndrome.Pipeline.Ownership.Callers.{try_recv_lem, with_finished}
use syndrome.Pipeline.Ownership.Reachable.{run-IsValid}
use syndrome.Pipeline.Progress.{turned, turns-Lowered, IsFair, fair_lanes, foldl-append}

-- The turns that a worker needs for the slots of its lane, while it is not to stop.
phase_work : Phase → ℕ → ℕ
phase_work polling queued = 3 * queued
phase_work checking queued = 3 * queued + min queued 1
phase_work (decoding idx) queued = 3 * queued + 2
phase_work (pushing idx) queued = 3 * queued + 1
phase_work stopped queued = 0

abbrev to_do : Lane → ℕ
to_do lane = phase_work lane.phase (length lane.queued)

to_do-falls_at :
    (p : Phase) (q f : List ℕ) → to_do (lane_turn false p q f) ≤ phase_work p (length q) - 1
unfolding lane_turn phase_work
to_do-falls_at polling [] f = omega arith
to_do-falls_at polling (x ∷ q) f = omega arith
to_do-falls_at checking q f = ground arith
to_do-falls_at (decoding idx) q f = omega arith
to_do-falls_at (pushing idx) q f = omega arith
to_do-falls_at stopped q f = omega arith

to_do-falls : (lane : Lane) → to_do (turned false lane) ≤ to_do lane - 1
to_do-falls lane = to_do-falls_at lane.phase lane.queued lane.finished

-- A worker that is awake and has nothing to do has its slots in the done ring.
rested-size_at :
    (p : Phase) (q : List ℕ)
    → p ≢ stopped
    → phase_work p (length q) ≡ 0
    → length q + length (in_hand p) ≡ 0
unfolding phase_work
rested-size_at polling q awake h = omega arith
rested-size_at checking q awake h = omega arith
rested-size_at (decoding idx) q awake h = absurd (omega arith)
rested-size_at (pushing idx) q awake h = absurd (omega arith)
rested-size_at stopped q awake h = absurd (awake refl)

to_do-le_at :
    (p : Phase) (q : List ℕ) → phase_work p (length q) ≤ 3 * (length q + length (in_hand p)) + 1
unfolding phase_work
to_do-le_at polling q = omega arith
to_do-le_at checking q = omega arith
to_do-le_at (decoding idx) q = omega arith
to_do-le_at (pushing idx) q = omega arith
to_do-le_at stopped q = omega arith

abbrev IsRested : Lane → Type 0
IsRested lane = length lane.queued + length (in_hand lane.phase) ≡ 0

all_empty :
    (lanes : List Lane)
    → All IsRested lanes
    → All (λ (lane : Lane). lane.finished ≡ []) lanes
    → total lane_size lanes ≡ 0
all_empty [] r e = refl
all_empty (lane ∷ lanes) r e = omega (arith, r.0, ap length e.0, all_empty lanes r.1 e.1)

total-loads :
    (loads : List ℕ) (lanes : List Lane)
    → Each Loaded loads lanes
    → total (λ (n : ℕ). n) loads ≡ total lane_size lanes
total-loads [] [] p = refl
total-loads [] (lane ∷ lanes) p = absurd p
total-loads (n ∷ loads) [] p = absurd p
total-loads (n ∷ loads) (lane ∷ lanes) p = omega (arith, p.0, total-loads loads lanes p.1)

-- The frames that were submitted and are not yet back.
abbrev pub in_flight : {F : Type 0} → System F → ℕ
in_flight s = total (λ (n : ℕ). n) s.pipe.outstanding

held-collected :
    {F : Type 0} (held : List LdpcFrame) (outcome : LdpcPipeline F × Option LdpcFrame) (x : ℕ)
    → outcome.1 ≡ some x
    → length (collected held outcome).held ≡ suc (length held)
unfolding collected
held-collected held (pipe, none) x h = cc
held-collected held (pipe, some frame) x h = refl

-- The caller has back all that was in flight.
abbrev pub Drained : {F : Type 0} → System F → System F → Type 0
Drained s t = (in_flight t ≡ 0) × (length t.held ≡ length s.held + in_flight s)

module _ {F : Type 0} (dec : LdpcDecoder F) (iterations : ℕ) where
  receive_all :
      (k : ℕ) {s : System F} (v : IsValid s)
      → All IsRested v.lanes
      → total lane_size v.lanes ≡ k
      → (in_flight (run dec iterations s (replicate k recv_frame)) ≡ 0)
        × (length (run dec iterations s (replicate k recv_frame)).held ≡ length s.held + k)
  unfolding step
  receive_all zero {s} v rested e =
      (total-loads s.pipe.outstanding v.lanes v.loads ∙ e, omega arith)
  receive_all (suc k) {s} v rested e = elim (try_recv_lem v) [
    | inl (empty, _, kept) ↦ absurd (omega (arith, all_empty v.lanes rested empty))
    | inr (wi, x, rest, lt, f, got, (v', same)) ↦
        let lane : Lane = with_finished v (get_or v.lanes wi idle_lane) rest in
        let (none_left, all_held) =
          receive_all k v'
            (subst (All IsRested) (sym same) (
              set-All IsRested v.lanes wi lane rested
                (get-All IsRested v.lanes wi idle_lane rested lt)))
            (omega (
              arith,
              e,
              ap (total lane_size) same,
              ap length f,
              total-set lane_size v.lanes wi lane idle_lane lt,
            )) in
        (none_left, omega (arith, all_held, held-collected s.held (try_recv s.pipe) x got))
  ]

  -- The lanes after enough turns of every worker.
  turns-IsRested :
      (turns : List ℕ) {s : System F} (v : IsValid s)
      → s.pipe.stop_flag ≡ false
      → ((wi : ℕ) → wi < length v.lanes → 49 ≤ count wi turns)
      → (v' : IsValid (run dec iterations s (map work turns))) × ((run dec iterations s
            (map work turns)).held
          ≡ s.held)
        × ((run dec iterations s (map work turns)).pipe.outstanding ≡ s.pipe.outstanding)
        × All IsRested v'.lanes
  turns-IsRested turns {s} v flag enough =
      let (v', held, flag', out, size, low) =
        turns-Lowered dec iterations false to_do to_do-falls turns v flag in
      (
        v',
        held,
        out,
        All_of_get IsRested v'.lanes idle_lane (λ i l.
            let lane : Lane = get_or v.lanes i idle_lane in
            let lane' : Lane = get_or v'.lanes i idle_lane in
            rested-size_at lane'.phase lane'.queued
              (get-All IsAwake v'.lanes i idle_lane (v'.alive flag') l)
              (omega (
                arith,
                low i (omega (arith, size)),
                enough i (omega (arith, size)),
                v.sizes,
                to_do-le_at lane.phase lane.queued,
                le-total lane_size v.lanes i idle_lane (omega (arith, size)),
              ))),
      )

  turns-Drained :
      (turns : List ℕ) {s : System F} (v : IsValid s)
      → s.pipe.stop_flag ≡ false
      → ((wi : ℕ) → wi < length v.lanes → 49 ≤ count wi turns)
      → Drained s (run dec iterations s (map work turns ++ replicate (in_flight s) recv_frame))
  turns-Drained turns {s} v flag enough =
      let (v', held, out, rested) = turns-IsRested turns v flag enough in
      let t = run dec iterations s (map work turns) in
      let flying =
        sym (total-loads t.pipe.outstanding v'.lanes v'.loads) ∙ ap (total (λ (n : ℕ). n)) out in
      let (none_left, all_held) = receive_all (in_flight s) v' rested flying in
      let joined =
        foldl-append (step dec iterations) s (map work turns)
          (replicate (in_flight s) recv_frame) in
      (
        ap in_flight joined ∙ none_left,
        ap (λ (u : System F). length u.held) joined
            ∙ all_held
            ∙ ap (λ (l : List ℕ). length l + in_flight s) held,
      )

  -- In every state that any sequence of the caller's calls and the workers' steps leads to and in
  -- which the stop flag is not set, if then the workers alone take turns in any order, each of
  -- them at least 49 times, and the caller calls `try_recv` as often as frames were outstanding,
  -- then it gets back that many frames and no frame is outstanding.
  pub run-drains :
      (workers : ℕ) (moves : List (Move F)) (turns : List ℕ)
      → (reached dec iterations workers moves).pipe.stop_flag ≡ false
      → IsFair (reached dec iterations workers moves) 49 turns
      → Drained (reached dec iterations workers moves) (
          run dec iterations (reached dec iterations workers moves) (
            map work turns
            ++ replicate (in_flight (reached dec iterations workers moves)) recv_frame))
  run-drains workers moves turns flag fair =
      let v = run-IsValid dec iterations workers moves in
      turns-Drained turns v flag (fair_lanes v turns fair)
