-- ===== src/Pipeline/Ownership/Reachable.antt =====
-- The invariant holds at the start and after every sequence of moves.
use syndrome.Prelude.{
  ℕ, zero, suc, ◌+◌, ◌≤◌, min, max, List, [], ◌∷◌, ltb, leb, ◌&&◌, ◌==◌, length, get_or,
  length-replicate, replicate, Option, none, some, dec_lt, if◌then◌else◌, inl, inr, ◌≡◌, refl, sym,
  ap, subst, arith, length-Each, replicate-Each,
}
use syndrome.SpscQueue.Fifo.{new-Holds}
use syndrome.Pipeline.{
  pool_size, polling, stopped, LdpcFrame, LdpcDecoder, indices, with_workers, turn, worker_step,
  submit,
}
use syndrome.Pipeline.Schedule.{
  System, Move, acquire_frame, fill_frame, submit_frame, recv_frame, release_frame, drop_all, work,
  take_at, fill_at, submit_at, release_at, step, run, start, reached,
}
use syndrome.Pipeline.Lanes.{
  total, total-replicate, count, take_at-cases, Lane, idle_lane, lane_size, lane_count, Queued,
  Finished, IsAwake, replicate-All,
}
use syndrome.Pipeline.Ownership.{IsValid}
use syndrome.Pipeline.Ownership.Around.{Loaded, AtPhase}
use syndrome.Pipeline.Ownership.Workers.{worker_step-Next}
use syndrome.Pipeline.Ownership.Callers.{
  acquire-Unlaned, submit_lem, release-Unlaned, fill-Unlaned, drop-Unlaned, try_recv_lem,
}

get_or_beyond : {A : Type 0} (xs : List A) (i : ℕ) (d : A) → length xs ≤ i → get_or xs i d ≡ d
get_or_beyond [] i d h = refl
get_or_beyond (x ∷ xs) zero d h = absurd (omega arith)
get_or_beyond (x ∷ xs) (suc i) d h = get_or_beyond xs i d (omega arith)

count-indices : (j i n : ℕ) → count j (indices i n) ≡ (if leb i j && ltb j (i + n) then 1 else 0)
unfolding indices
count-indices j i zero = ground arith
count-indices j i (suc n) = ground (arith, count-indices j (i + 1) n)

length-indices : (i n : ℕ) → length (indices i n) ≡ n
unfolding indices
length-indices i zero = refl
length-indices i (suc n) = ap suc (length-indices (i + 1) n)

start-owned :
    (n j : ℕ)
    → count j (indices 0 pool_size) + 0 + total (lane_count j) (replicate n idle_lane)
      ≡ (if ltb j pool_size then 1 else 0)
start-owned n j =
    ground (arith, count-indices j 0 16, total-replicate (lane_count j) n idle_lane refl)

module _ {F : Type 0} (dec : LdpcDecoder F) (iterations : ℕ) where
  start-IsValid : (workers : ℕ) → IsValid (start dec workers)
  unfolding with_workers
  start-IsValid workers =
      let n : ℕ = min (max workers 1) 8 in
      record {
        lanes = replicate n idle_lane;
        some_worker = omega (arith, length-replicate {A = Lane} n idle_lane);
        works = replicate-Each Queued n _ idle_lane (new-Holds 4 (omega arith));
        dones = replicate-Each Finished n _ idle_lane (new-Holds 4 (omega arith));
        loads = replicate-Each Loaded n 0 idle_lane refl;
        phases = replicate-Each AtPhase n polling idle_lane refl;
        sizes = omega (arith, length-indices 0 16, total-replicate lane_size n idle_lane refl);
        owned = start-owned n;
        alive = λ _. replicate-All IsAwake n idle_lane (λ h. cc);
      }

  module _ {s : System F} (v : IsValid s) where
    -- There is no such worker.
    pub worker_step_beyond :
        (wi : ℕ) → length v.lanes ≤ wi → worker_step dec iterations wi s.pipe ≡ s.pipe
    unfolding worker_step turn
    worker_step_beyond wi beyond = ap (turn dec iterations wi s.pipe) (
        get_or_beyond s.pipe.workers wi stopped
          (omega (arith, length-Each AtPhase s.pipe.workers v.lanes v.phases)))

    worker-IsValid : (wi : ℕ) → IsValid (step dec iterations s (work wi))
    unfolding step
    worker-IsValid wi = elim (dec_lt wi (length v.lanes)) [
      | yes lt ↦ (worker_step-Next v wi dec iterations lt).0
      | no beyond ↦
          subst (λ p. IsValid (record s { pipe = p })) (sym (worker_step_beyond wi (omega arith))) v
    ]

    -- A move at a frame of the caller, if there is one.
    at_frame :
        (i : ℕ) (f : Option (LdpcFrame × List LdpcFrame) → System F)
        → IsValid (f none)
        → ((frame : LdpcFrame) (rest : List LdpcFrame)
            → (length s.held ≡ suc (length rest))
              × ((j : ℕ) → count j s.held ≡ (if frame == j then 1 else 0) + count j rest)
            → IsValid (f (some (frame, rest))))
        → IsValid (f (take_at i s.held))
    at_frame i f nothing something = elim (take_at-cases i s.held) [
      | inl e ↦ subst (λ o. IsValid (f o)) (sym e) nothing
      | inr (frame, rest, e, size, counts) ↦
          subst (λ o. IsValid (f o)) (sym e) (something frame rest (size, counts))
    ]

    step-IsValid : (move : Move F) → IsValid (step dec iterations s move)
    unfolding step fill_at submit_at release_at
    step-IsValid acquire_frame = (acquire-Unlaned v).0
    step-IsValid (fill_frame i llr tag) =
        at_frame i (fill_at dec iterations s llr tag) v
          (λ frame rest own. (fill-Unlaned v dec frame llr tag).0)
    step-IsValid (submit_frame i) =
        at_frame i (submit_at dec iterations s) v
          (λ frame rest own. (submit_lem v frame rest own).1.0)
    step-IsValid recv_frame = elim (try_recv_lem v) [
      | inl (all, e, kept) ↦ kept.0
      | inr (wi, x, rest, lt, f, e, kept) ↦ kept.0
    ]
    step-IsValid (release_frame i) =
        at_frame i (release_at dec iterations s) v
          (λ frame rest own. (release-Unlaned v frame rest own).0)
    step-IsValid drop_all = (drop-Unlaned v).0
    step-IsValid (work wi) = worker-IsValid wi

  pub run_from-IsValid :
      (moves : List (Move F)) {s : System F} → IsValid s → IsValid (run dec iterations s moves)
  run_from-IsValid [] v = v
  run_from-IsValid (move ∷ moves) v = run_from-IsValid moves (step-IsValid v move)

  pub run-IsValid :
      (workers : ℕ) (moves : List (Move F)) → IsValid (reached dec iterations workers moves)
  run-IsValid workers moves = run_from-IsValid moves (start-IsValid workers)

  -- In every state that any sequence of the caller's calls and the workers' steps leads to,
  -- `submit` accepts every frame that the caller owns: the ring of the chosen worker is never
  -- full.
  pub submit-accepts :
      (workers : ℕ) (moves : List (Move F)) (i : ℕ) (frame : LdpcFrame) (rest : List LdpcFrame)
      → take_at i (reached dec iterations workers moves).held ≡ some (frame, rest)
      → (submit (reached dec iterations workers moves).pipe frame).1 ≡ inl tt
  submit-accepts workers moves i frame rest h =
      elim (take_at-cases i (reached dec iterations workers moves).held) [
        | inl e ↦ cc
        | inr (frame', rest', e, size, counts) ↦
            let same : frame' ≡ frame = cc in
            subst (λ f. (submit (reached dec iterations workers moves).pipe f).1 ≡ inl tt) same
              (submit_lem (run-IsValid workers moves) frame' rest' (size, counts)).0
      ]
