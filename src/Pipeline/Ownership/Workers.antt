-- ===== src/Pipeline/Ownership/Workers.antt =====
-- Every step of a worker of src/ldpc_pipeline.rs keeps each slot in one place.
use syndrome.Prelude.{
  ℕ, ◌<◌, Bool, true, false, List, [], ◌∷◌, ◌++◌, length, length-append, get_or, set, if◌then◌else◌,
  ◌≡◌, ◌≢◌, refl, sym, ap, subst, arith, Each,
}
use syndrome.SpscQueue.{try_push, try_pop}
use syndrome.Pipeline.{
  pool_size, empty_ring, assume_init, Phase, polling, checking, decoding, pushing, stopped,
  LdpcDecoder, LdpcPipeline, polled, handed_back, turn, worker_step,
}
use syndrome.Pipeline.Schedule.{System}
use syndrome.Pipeline.Lanes.{
  count, count-append, Lane, idle_lane, in_hand, lane_size, lane_count, Queued, Finished, IsAwake,
}
use syndrome.Pipeline.Ownership.{IsValid, relane, pop-nil, pop-cons, push-room}
use syndrome.Pipeline.Ownership.Around.{
  Loaded, AtPhase, LaneAt, lane_at, keep_works, keep_dones, keep_loads, keep_phases, set_works,
  set_dones, set_phases,
}

-- What one step of a worker does to its lane.
unfoldable pub lane_turn : Bool → Phase → List ℕ → List ℕ → Lane
lane_turn stop polling [] finished = record { queued = []; phase = checking; finished = finished }
lane_turn stop polling (x ∷ queued) finished = record {
  queued = queued;
  phase = decoding x;
  finished = finished;
}
lane_turn stop checking queued finished = record {
  queued = queued;
  phase = if stop then stopped else polling;
  finished = finished;
}
lane_turn stop (decoding x) queued finished = record {
  queued = queued;
  phase = pushing x;
  finished = finished;
}
lane_turn stop (pushing x) queued finished = record {
  queued = queued;
  phase = polling;
  finished = finished ++ x ∷ [];
}
lane_turn stop stopped queued finished = record {
  queued = queued;
  phase = stopped;
  finished = finished;
}

in_hand-if : (b : Bool) → in_hand (if b then stopped else polling) ≡ []
in_hand-if true = refl
in_hand-if false = refl

awake-if : (b : Bool) → b ≡ false → (if b then stopped else polling) ≢ stopped
awake-if true h e = absurd (cc)
awake-if false h e = absurd (cc)

module _ {F : Type 0} {s : System F} (v : IsValid s) (wi : ℕ) where
  -- The state that follows is valid, and in it only the lane of `wi` has changed.
  abbrev Next : LdpcPipeline F → Lane → Type 0
  Next pipe lane =
      (v' : IsValid (record { pipe = pipe; held = s.held })) × (v'.lanes ≡ set v.lanes wi lane)

  abbrev lane_of : Phase → List ℕ → List ℕ → Lane
  lane_of phase queued finished = record { queued = queued; phase = phase; finished = finished }

  worker_Next :
      {old : Lane} (lane : Lane) (pipe : LdpcPipeline F)
      → LaneAt v wi old
      → pipe.free_list ≡ s.pipe.free_list
      → pipe.stop_flag ≡ s.pipe.stop_flag
      → (s.pipe.stop_flag ≡ false → IsAwake lane)
      → Each Queued pipe.work_rings (set v.lanes wi lane)
      → Each Finished pipe.done_rings (set v.lanes wi lane)
      → Each Loaded pipe.outstanding (set v.lanes wi lane)
      → Each AtPhase pipe.workers (set v.lanes wi lane)
      → lane_size lane ≡ lane_size old
      → ((j : ℕ) → lane_count j lane ≡ lane_count j old)
      → Next pipe lane
  worker_Next {old} lane pipe a free flag awake works dones loads phases size counts =
      relane v wi a.lt lane pipe s.held flag awake works dones loads phases
        (omega (arith, ap length free, size, ap lane_size a.is))
        (λ j. omega (arith, ap (count j) free, counts j, ap (lane_count j) a.is))

  turn-Next :
      (dec : LdpcDecoder F) (iterations : ℕ) (p : Phase) (q f : List ℕ)
      → LaneAt v wi (lane_of p q f)
      → Next (turn dec iterations wi s.pipe p) (lane_turn s.pipe.stop_flag p q f)
  unfolding turn lane_turn
  turn-Next dec iterations polling [] f a =
      let lane : Lane = lane_of checking [] f in
      subst (λ r. Next (polled dec wi s.pipe r.0 (assume_init r.1)) lane) (sym (pop-nil _ a.work))
        (worker_Next lane _ a refl refl (λ _ h. cc) (keep_works v wi lane a.work)
          (keep_dones v wi lane a.done) (keep_loads v wi lane a.load) (set_phases v wi lane) refl
          (λ j. refl))
  turn-Next dec iterations polling (x ∷ q) f a =
      let lane : Lane = lane_of (decoding x) q f in
      let (kept, read) = pop-cons _ x q a.work in
      subst
        (λ r.
          Next
            (polled dec wi s.pipe (try_pop pool_size (get_or s.pipe.work_rings wi empty_ring)).0
              (assume_init r))
            lane)
        (sym read)
        (worker_Next lane _ a refl refl (λ _ h. cc) (set_works v wi lane _ kept)
          (keep_dones v wi lane a.done) (keep_loads v wi lane (omega (arith, a.load)))
          (set_phases v wi lane) (omega arith) (λ j. omega arith))
  turn-Next dec iterations checking q f a =
      let p = if s.pipe.stop_flag then stopped else polling in
      let lane : Lane = lane_of p q f in
      let e = in_hand-if s.pipe.stop_flag in
      worker_Next lane _ a refl refl (λ h. awake-if s.pipe.stop_flag h)
        (keep_works v wi lane a.work) (keep_dones v wi lane a.done)
        (keep_loads v wi lane (omega (arith, a.load, ap length e))) (set_phases v wi lane)
        (omega (arith, ap length e)) (λ j. omega (arith, ap (count j) e))
  turn-Next dec iterations (decoding x) q f a =
      let lane : Lane = lane_of (pushing x) q f in
      worker_Next lane _ a refl refl (λ _ h. cc) (keep_works v wi lane a.work)
        (keep_dones v wi lane a.done) (keep_loads v wi lane a.load) (set_phases v wi lane) refl
        (λ j. refl)
  turn-Next dec iterations (pushing x) q f a =
      let lane : Lane = lane_of polling q (f ++ x ∷ []) in
      let (kept, accepted) = push-room _ f x a.done (omega (arith, a.small)) in
      subst
        (λ r.
          Next
            (handed_back dec wi s.pipe
              (try_push pool_size (get_or s.pipe.done_rings wi empty_ring) x).0 r)
            lane)
        (sym accepted)
        (worker_Next lane _ a refl refl (λ _ h. cc) (keep_works v wi lane a.work)
          (set_dones v wi lane _ kept)
          (keep_loads v wi lane (omega (arith, a.load, length-append f (x ∷ []))))
          (set_phases v wi lane) (omega (arith, length-append f (x ∷ [])))
          (λ j. omega (arith, count-append j f (x ∷ []))))
  turn-Next dec iterations stopped q f a =
      let lane : Lane = lane_of stopped q f in
      worker_Next lane s.pipe a refl refl a.awake (keep_works v wi lane a.work)
        (keep_dones v wi lane a.done) (keep_loads v wi lane a.load) (keep_phases v wi lane a.phase)
        refl (λ j. refl)

  abbrev lane_now : Lane
  lane_now = get_or v.lanes wi idle_lane

  pub worker_step-Next :
      (dec : LdpcDecoder F) (iterations : ℕ)
      → wi < length v.lanes
      → Next
          (worker_step dec iterations wi s.pipe)
          (lane_turn s.pipe.stop_flag lane_now.phase lane_now.queued lane_now.finished)
  unfolding worker_step
  worker_step-Next dec iterations lt =
      let a = lane_at v wi lt in
      subst
        (λ p.
          Next (turn dec iterations wi s.pipe p)
            (lane_turn s.pipe.stop_flag lane_now.phase lane_now.queued lane_now.finished))
        (sym a.phase) (turn-Next dec iterations lane_now.phase lane_now.queued lane_now.finished a)
