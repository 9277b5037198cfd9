-- ===== src/Pipeline/Ownership/Around.antt =====
-- One worker's lane in a valid state, and what must be shown when it changes.
use syndrome.Prelude.{
  ℕ, ◌≤◌, ◌<◌, false, length, get_or, set, ◌≡◌, refl, arith, Each, get-Each, set-Each,
  set_right-Each,
}
use syndrome.SpscQueue.{SpscRing}
use syndrome.Pipeline.{pool_size, empty_ring, Phase, stopped}
use syndrome.Pipeline.Schedule.{System}
use syndrome.Pipeline.Lanes.{
  Lane, idle_lane, lane_size, le-total, Queued, Finished, IsAwake, get-All,
}
use syndrome.Pipeline.Ownership.{IsValid}

abbrev pub Loaded : ℕ → Lane → Type 0
Loaded n lane = n ≡ lane_size lane

abbrev pub AtPhase : Phase → Lane → Type 0
AtPhase p lane = p ≡ lane.phase

-- What is known of one worker's lane.
pub record LaneAt {F : Type 0} {s : System F} (v : IsValid s) (wi : ℕ) (lane : Lane) : Type 0 where
  pub lt : wi < length v.lanes
  pub is : get_or v.lanes wi idle_lane ≡ lane
  pub work : Queued (get_or s.pipe.work_rings wi empty_ring) lane
  pub done : Finished (get_or s.pipe.done_rings wi empty_ring) lane
  pub load : get_or s.pipe.outstanding wi 0 ≡ lane_size lane
  pub phase : get_or s.pipe.workers wi stopped ≡ lane.phase
  pub small : lane_size lane ≤ pool_size
  pub awake : s.pipe.stop_flag ≡ false → IsAwake lane

pub lane_at :
    {F : Type 0} {s : System F} (v : IsValid s) (wi : ℕ)
    → wi < length v.lanes
    → LaneAt v wi (get_or v.lanes wi idle_lane)
lane_at {s} v wi lt = record {
  lt = lt;
  is = refl;
  work = get-Each Queued s.pipe.work_rings v.lanes wi empty_ring idle_lane v.works lt;
  done = get-Each Finished s.pipe.done_rings v.lanes wi empty_ring idle_lane v.dones lt;
  load = get-Each Loaded s.pipe.outstanding v.lanes wi 0 idle_lane v.loads lt;
  phase = get-Each AtPhase s.pipe.workers v.lanes wi stopped idle_lane v.phases lt;
  small = omega (arith, v.sizes, le-total lane_size v.lanes wi idle_lane lt);
  awake = λ h. get-All IsAwake v.lanes wi idle_lane (v.alive h) lt;
}

module _ {F : Type 0} {s : System F} (v : IsValid s) (wi : ℕ) where
  -- Where the rings and the load of the lane stay, its new contents must agree with them.
  pub keep_works :
      (lane : Lane)
      → Queued (get_or s.pipe.work_rings wi empty_ring) lane
      → Each Queued s.pipe.work_rings (set v.lanes wi lane)
  keep_works lane h =
      set_right-Each Queued s.pipe.work_rings v.lanes wi empty_ring lane v.works (λ _. h)

  pub keep_dones :
      (lane : Lane)
      → Finished (get_or s.pipe.done_rings wi empty_ring) lane
      → Each Finished s.pipe.done_rings (set v.lanes wi lane)
  keep_dones lane h =
      set_right-Each Finished s.pipe.done_rings v.lanes wi empty_ring lane v.dones (λ _. h)

  pub keep_loads :
      (lane : Lane)
      → Loaded (get_or s.pipe.outstanding wi 0) lane
      → Each Loaded s.pipe.outstanding (set v.lanes wi lane)
  keep_loads lane h = set_right-Each Loaded s.pipe.outstanding v.lanes wi 0 lane v.loads (λ _. h)

  pub set_works :
      (lane : Lane) (ring : SpscRing ℕ)
      → Queued ring lane
      → Each Queued (set s.pipe.work_rings wi ring) (set v.lanes wi lane)
  set_works lane ring h = set-Each Queued s.pipe.work_rings v.lanes wi ring lane v.works h

  pub set_dones :
      (lane : Lane) (ring : SpscRing ℕ)
      → Finished ring lane
      → Each Finished (set s.pipe.done_rings wi ring) (set v.lanes wi lane)
  set_dones lane ring h = set-Each Finished s.pipe.done_rings v.lanes wi ring lane v.dones h

  pub set_loads :
      (lane : Lane) (n : ℕ)
      → Loaded n lane
      → Each Loaded (set s.pipe.outstanding wi n) (set v.lanes wi lane)
  set_loads lane n h = set-Each Loaded s.pipe.outstanding v.lanes wi n lane v.loads h

  pub set_phases :
      (lane : Lane) → Each AtPhase (set s.pipe.workers wi lane.phase) (set v.lanes wi lane)
  set_phases lane = set-Each AtPhase s.pipe.workers v.lanes wi lane.phase lane v.phases refl

  pub keep_phases :
      (lane : Lane)
      → get_or s.pipe.workers wi stopped ≡ lane.phase
      → Each AtPhase s.pipe.workers (set v.lanes wi lane)
  keep_phases lane h =
      set_right-Each AtPhase s.pipe.workers v.lanes wi stopped lane v.phases (λ _. h)
