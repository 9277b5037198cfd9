-- ===== src/Pipeline/Ownership/Callers.antt =====
-- Every call of the caller of src/ldpc_pipeline.rs keeps each slot in one place.
use syndrome.Prelude.{
  ℕ, suc, ◌+◌, ◌<◌, List, [], ◌∷◌, ◌++◌, length, length-append, get_or, set, All, Option, none,
  some, if◌then◌else◌, ◌==◌, ◌⊎◌, inl, inr, ◌≡◌, refl, sym, ap, subst, ◌∙◌, arith, length-Each,
}
use syndrome.SpscQueue.{try_push}
use syndrome.Pipeline.{
  pool_size, empty_ring, LdpcFrame, LdpcDecoder, LdpcPipeline, release, fill, drop_pipeline,
  pick_worker, acquired, acquire, submitted, submit, recv_from, try_recv,
}
use syndrome.Pipeline.Pick.{pick_worker-lt}
use syndrome.Pipeline.Schedule.{System, collected, sent}
use syndrome.Pipeline.Lanes.{
  le-total, count, count-append, pop_last-cases, Lane, idle_lane, lane_size,
}
use syndrome.Pipeline.Ownership.{IsValid, relane, push-room}
use syndrome.Pipeline.Ownership.Around.{
  Loaded, lane_at, keep_works, keep_dones, keep_phases, set_works, set_dones, set_loads,
}
use syndrome.Pipeline.Ownership.Receive.{true-ne, popped_at, RecvOutcome, recv_from_lem}

module _ {F : Type 0} {s : System F} (v : IsValid s) where
  -- A valid state with one lane changed.
  abbrev pub Relaned : System F → ℕ → Lane → Type 0
  Relaned t wi lane = (v' : IsValid t) × (v'.lanes ≡ set v.lanes wi lane)

  -- A valid state with no lane changed.
  abbrev pub Unlaned : System F → Type 0
  Unlaned t = (v' : IsValid t) × (v'.lanes ≡ v.lanes)

  -- Only the free list and the caller's frames change.
  keep_lanes :
      (free : List ℕ) (held : List ℕ)
      → length free + length held ≡ length s.pipe.free_list + length s.held
      → ((j : ℕ) → count j free + count j held ≡ count j s.pipe.free_list + count j s.held)
      → Unlaned (record { pipe = record s.pipe { free_list = free }; held = held })
  keep_lanes free held size counts = (
    record {
      lanes = v.lanes;
      some_worker = v.some_worker;
      works = v.works;
      dones = v.dones;
      loads = v.loads;
      phases = v.phases;
      sizes = omega (arith, size, v.sizes);
      owned = λ j. omega (arith, counts j, v.owned j);
      alive = v.alive;
    },
    refl,
  )

  pub acquire-Unlaned : Unlaned (collected s.held (acquire s.pipe))
  unfolding acquire acquired collected
  acquire-Unlaned = elim (pop_last-cases s.pipe.free_list) [
    | inl (e, h) ↦
        subst (λ r. Unlaned (collected s.held (acquired s.pipe r))) (sym e)
          (keep_lanes s.pipe.free_list s.held refl (λ j. refl))
    | inr (ys, y, e, h) ↦
        subst (λ r. Unlaned (collected s.held (acquired s.pipe r))) (sym e)
          (keep_lanes ys (y ∷ s.held) (omega (arith, ap length h, length-append ys (y ∷ [])))
            (λ j. omega (arith, ap (count j) h, count-append j ys (y ∷ []))))
  ]

  abbrev lane_now : ℕ → Lane
  lane_now wi = get_or v.lanes wi idle_lane

  abbrev with_queued : Lane → ℕ → Lane
  with_queued lane x = record {
    queued = lane.queued ++ x ∷ [];
    phase = lane.phase;
    finished = lane.finished;
  }

  -- The worker that the next frame goes to.
  abbrev pub target : ℕ
  target = pick_worker s.pipe.outstanding s.pipe.next_submit

  target-lt : target < length v.lanes
  target-lt =
      let e = length-Each Loaded s.pipe.outstanding v.lanes v.loads in
      omega (
        arith,
        e,
        pick_worker-lt s.pipe.outstanding s.pipe.next_submit (omega (arith, e, v.some_worker)),
      )

  -- The caller owns `frame` beside the frames `rest`.
  abbrev pub OwnsBeside : LdpcFrame → List LdpcFrame → Type 0
  OwnsBeside frame rest =
      (length s.held ≡ suc (length rest))
      × ((j : ℕ) → count j s.held ≡ (if frame == j then 1 else 0) + count j rest)

  pub submit_lem :
      (frame : LdpcFrame) (rest : List LdpcFrame)
      → OwnsBeside frame rest
      → ((submit s.pipe frame).1 ≡ inl tt)
        × Relaned (sent rest (submit s.pipe frame)) target (with_queued (lane_now target) frame)
  unfolding submit submitted sent
  submit_lem frame rest (size, counts) =
      let a = lane_at v target target-lt in
      let ring = get_or s.pipe.work_rings target empty_ring in
      let lane : Lane = with_queued (lane_now target) frame in
      let grown = length-append (lane_now target).queued (frame ∷ []) in
      let (kept, accepted) =
        push-room ring (lane_now target).queued frame a.work
          (omega (arith, v.sizes, size, le-total lane_size v.lanes target idle_lane a.lt)) in
      let after = λ (r : Unit {0} ⊎ ℕ).
        submitted s.pipe frame target ((try_push pool_size ring frame).0, r) in
      subst (λ r. ((after r).1 ≡ inl tt) × Relaned (sent rest (after r)) target lane) (sym accepted)
        (
          refl,
          relane v target a.lt lane _ rest refl a.awake (set_works v target lane _ kept)
              (keep_dones v target lane a.done)
              (set_loads v target lane _ (omega (arith, a.load, grown)))
              (keep_phases v target lane a.phase) (omega (arith, size, grown))
              (λ j. omega (arith, counts j, count-append j (lane_now target).queued (frame ∷ []))),
        )

  pub release-Unlaned :
      (frame : LdpcFrame) (rest : List LdpcFrame)
      → OwnsBeside frame rest
      → Unlaned (record { pipe = release s.pipe frame; held = rest })
  unfolding release
  release-Unlaned frame rest (size, counts) =
      keep_lanes (s.pipe.free_list ++ frame ∷ []) rest
        (omega (arith, size, length-append s.pipe.free_list (frame ∷ [])))
        (λ j. omega (arith, counts j, count-append j s.pipe.free_list (frame ∷ [])))

  -- Nothing but the contents of the slots, or the stop flag, changes.
  pub fill-Unlaned :
      (dec : LdpcDecoder F) (frame : LdpcFrame) (llr : List F) (tag : ℕ)
      → Unlaned (record s { pipe = fill dec s.pipe frame llr tag })
  unfolding fill
  fill-Unlaned dec frame llr tag = (
    record {
      lanes = v.lanes;
      some_worker = v.some_worker;
      works = v.works;
      dones = v.dones;
      loads = v.loads;
      phases = v.phases;
      sizes = v.sizes;
      owned = v.owned;
      alive = v.alive;
    },
    refl,
  )

  pub drop-Unlaned : Unlaned (record s { pipe = drop_pipeline s.pipe })
  unfolding drop_pipeline
  drop-Unlaned = (
    record {
      lanes = v.lanes;
      some_worker = v.some_worker;
      works = v.works;
      dones = v.dones;
      loads = v.loads;
      phases = v.phases;
      sizes = v.sizes;
      owned = v.owned;
      alive = λ h. absurd (true-ne h);
    },
    refl,
  )

  abbrev pub with_finished : Lane → List ℕ → Lane
  with_finished lane rest = record { queued = lane.queued; phase = lane.phase; finished = rest }

  -- What `try_recv` gives: nothing, and then no worker has finished a slot, or the oldest finished
  -- slot of a worker, which is then the caller's.
  abbrev pub Received : LdpcPipeline F × Option LdpcFrame → Type 0
  Received outcome =
      (All (λ (lane : Lane). lane.finished ≡ []) v.lanes
        × (outcome ≡ (s.pipe, none))
        × Unlaned (collected s.held outcome))
      ⊎ ((wi : ℕ) × (x : ℕ) × (rest : List ℕ) × (wi < length v.lanes)
          × ((lane_now wi).finished ≡ x ∷ rest)
          × (outcome.1 ≡ some x)
          × Relaned (collected s.held outcome) wi (with_finished (lane_now wi) rest))

  pub try_recv_lem : Received (try_recv s.pipe)
  unfolding try_recv collected
  try_recv_lem =
      go (recv_from s.pipe 0 s.pipe.done_rings)
        (recv_from_lem s.pipe 0 s.pipe.done_rings v.lanes v.dones)
    where
      go :
          (outcome : LdpcPipeline F × Option LdpcFrame)
          → RecvOutcome s.pipe 0 v.lanes outcome
          → Received outcome
      go outcome (inl (all, e)) =
          inl (all, e, subst (λ r. Unlaned (collected s.held r)) (sym e) (v, refl))
      go outcome (inr (k, x, rest, ring, lt, f, holds, e)) =
          let e' = e ∙ ap (popped_at s.pipe ring x) {x = 0 + k} {y = k} (omega arith) in
          let a = lane_at v k lt in
          let lane : Lane = with_finished (lane_now k) rest in
          inr (
            k,
            x,
            rest,
            lt,
            f,
            ap (λ o. o.1) e',
            subst (λ r. Relaned (collected s.held r) k lane) (sym e')
                (relane v k lt lane _ (x ∷ s.held) refl a.awake (keep_works v k lane a.work)
                  (set_dones v k lane ring holds)
                  (set_loads v k lane _ (omega (arith, a.load, ap length f)))
                  (keep_phases v k lane a.phase) (omega (arith, ap length f))
                  (λ j. omega (arith, ap (count j) f))),
          )
