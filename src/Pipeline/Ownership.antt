-- ===== src/Pipeline/Ownership.antt =====
-- Each slot of the pool is in one place only, in every reachable state of src/ldpc_pipeline.rs.
pub mod Around
pub mod Workers
pub mod Receive
pub mod Callers
pub mod Reachable
use syndrome.Prelude.{
  ℕ, zero, suc, ◌+◌, ◌≤◌, ◌<◌, List, [], ◌∷◌, ◌++◌, ltb, All, false, length, length-set,
  length-append, get_or, set, Option, none, some, if◌then◌else◌, ◌⊎◌, inl, inr, ◌≡◌, refl, sym, ap,
  subst, ◌∙◌, arith, Each,
}
use syndrome.SpscQueue.{SpscRing, try_push, try_pop}
use syndrome.SpscQueue.Slots.{Holds}
use syndrome.SpscQueue.Fifo.{try_push_lem, try_pop_lem}
use syndrome.Pipeline.{pool_size, Phase, stopped, LdpcPipeline}
use syndrome.Pipeline.Schedule.{System}
use syndrome.Pipeline.Lanes.{
  total, total-set, count, Lane, idle_lane, lane_size, lane_count, Queued, Finished, IsAwake,
  set-All,
}

-- Each worker's rings hold the slots of its lane, its load counts them, and each of the 16 slots of
-- the pool, and no other number, stands once in the free list, with the caller or in a lane. No worker has
-- stopped before the flag is set.
pub record IsValid {F : Type 0} (s : System F) : Type 0 where
  pub lanes : List Lane
  pub some_worker : 0 < length lanes
  pub works : Each Queued s.pipe.work_rings lanes
  pub dones : Each Finished s.pipe.done_rings lanes
  pub loads : Each (λ (n : ℕ) lane. n ≡ lane_size lane) s.pipe.outstanding lanes
  pub phases : Each (λ (p : Phase) (lane : Lane). p ≡ lane.phase) s.pipe.workers lanes
  pub sizes : length s.pipe.free_list + length s.held + total lane_size lanes ≡ pool_size
  pub owned :
      (j : ℕ)
      → count j s.pipe.free_list + count j s.held + total (lane_count j) lanes
        ≡ (if ltb j pool_size then 1 else 0)
  pub alive : s.pipe.stop_flag ≡ false → All IsAwake lanes

pub pop-nil : (ring : SpscRing ℕ) → Holds pool_size ring [] → try_pop pool_size ring ≡ (ring, none)
pop-nil ring v = (try_pop_lem 4 (omega arith) ring [] v).0 refl

pub pop-cons :
    (ring : SpscRing ℕ) (x : ℕ) (q : List ℕ)
    → Holds pool_size ring (x ∷ q)
    → Holds pool_size (try_pop pool_size ring).0 q × ((try_pop pool_size ring).1 ≡ some (some x))
pop-cons ring x q v = (try_pop_lem 4 (omega arith) ring (x ∷ q) v).1 x q refl

-- A push on a ring that holds fewer than 16 slots.
pub push-room :
    (ring : SpscRing ℕ) (q : List ℕ) (x : ℕ)
    → Holds pool_size ring q
    → length q < pool_size
    → Holds pool_size (try_push pool_size ring x).0 (q ++ x ∷ [])
      × ((try_push pool_size ring x).1 ≡ inl tt)
push-room ring q x v room = (try_push_lem 4 (omega arith) ring q x v).1 room

-- One lane changes, and the slots of the lane, of the free list and of the caller are kept together.
module _ {F : Type 0} {s : System F} (v : IsValid s) (wi : ℕ) (lt : wi < length v.lanes) where
  pub relane :
      (lane : Lane) (pipe : LdpcPipeline F) (held : List ℕ)
      → pipe.stop_flag ≡ s.pipe.stop_flag
      → (s.pipe.stop_flag ≡ false → IsAwake lane)
      → Each Queued pipe.work_rings (set v.lanes wi lane)
      → Each Finished pipe.done_rings (set v.lanes wi lane)
      → Each (λ (n : ℕ) lane. n ≡ lane_size lane) pipe.outstanding (set v.lanes wi lane)
      → Each (λ (p : Phase) (lane : Lane). p ≡ lane.phase) pipe.workers (set v.lanes wi lane)
      → length pipe.free_list + length held + lane_size lane
        ≡ length s.pipe.free_list + length s.held + lane_size (get_or v.lanes wi idle_lane)
      → ((j : ℕ)
          → count j pipe.free_list + count j held + lane_count j lane
            ≡ count j s.pipe.free_list
              + count j s.held
              + lane_count j (get_or v.lanes wi idle_lane))
      → (v' : IsValid (record { pipe = pipe; held = held })) × (v'.lanes ≡ set v.lanes wi lane)
  relane lane pipe held flag awake works dones loads phases size counts = (
    record {
      lanes = set v.lanes wi lane;
      some_worker = omega (arith, v.some_worker, length-set v.lanes wi lane);
      works = works;
      dones = dones;
      loads = loads;
      phases = phases;
      sizes = omega (arith, v.sizes, size, total-set lane_size v.lanes wi lane idle_lane lt);
      owned = λ j.
          omega (arith, counts j, total-set (lane_count j) v.lanes wi lane idle_lane lt, v.owned j);
      alive = λ h. set-All IsAwake v.lanes wi lane (v.alive (sym flag ∙ h)) (awake (sym flag ∙ h));
    },
    refl,
  )
