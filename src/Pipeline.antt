-- ===== src/Pipeline.antt =====
-- src/ldpc_pipeline.rs: frames that a caller hands to worker threads over pairs of rings. A call of
-- a ring is one step; a worker's loop is cut into such steps, so that every interleaving of the
-- caller and the workers is a sequence of them. The floats are a type `F`, and the decoder, whose
-- kernel works on floats, is a parameter.
pub mod Pick
pub mod Schedule
pub mod Lanes
pub mod Ownership
pub mod Progress
pub mod Exclusive
mod Tests
use syndrome.Prelude.{
  ℕ, zero, suc, ◌+◌, ◌-◌, ◌%◌, min, max, Bool, true, false, List, [], ◌∷◌, ◌++◌, ltb, length,
  get_or, set, replicate, Option, none, some, if◌then◌else◌, ◌⊎◌, inl, inr,
}
use syndrome.SpscQueue.{wrapping_add, SpscRing, new, try_push, try_pop}

abbrev pub pool_size : ℕ
pool_size = 16

pub record FrameSlot (F : Type 0) : Type 0 where
  pub llr : List F
  pub edge_r : List F
  pub scratch : List F
  pub hard : List ℕ
  pub iterations_used : ℕ
  pub tag : ℕ

-- A frame is the index of its slot: its pointer is that of `slot_ptrs` at the index.
abbrev pub LdpcFrame : Type 0
LdpcFrame = ℕ

-- What the pipeline uses of a `QcLdpcDecoder`: the buffer sizes, and the decoding call, which returns
-- the four buffers it wrote and the iterations used, or `none` for an error.
pub record LdpcDecoder (F : Type 0) : Type 0 where
  pub zero_llr : F
  pub variable_node_count : ℕ
  pub required_edge_buffer : ℕ
  pub required_layer_buffer : ℕ
  pub decode :
      List F → List F → List F → List ℕ → ℕ → (List F × List F × List F × List ℕ) × Option ℕ

-- `for step in 1..n`, with `count` rounds left.
pub pick_from : List ℕ → ℕ → ℕ → ℕ → ℕ → ℕ → ℕ
pick_from outstanding cursor step zero best best_load = best
pick_from outstanding cursor step (suc count) best best_load =
    let wi = wrapping_add cursor step % length outstanding in
    let load = get_or outstanding wi 0 in
    pick_from outstanding cursor (step + 1) count (if ltb load best_load then wi else best)
      (if ltb load best_load then load else best_load)

pub pick_worker : List ℕ → ℕ → ℕ
pick_worker outstanding cursor =
    let best = cursor % length outstanding in
    pick_from outstanding cursor 1 (length outstanding - 1) best (get_or outstanding best 0)

-- Where a worker's loop stands: before `try_pop`, before the load of the stop flag, before the
-- decoding of a slot, before `try_push` of a slot, and after the loop.
pub data Phase : Type 0 where
  polling : Phase
  checking : Phase
  decoding : ℕ → Phase
  pushing : ℕ → Phase
  stopped : Phase

pub record LdpcPipeline (F : Type 0) : Type 0 where
  pub pool : List (FrameSlot F)
  pub free_list : List ℕ
  pub work_rings : List (SpscRing ℕ)
  pub done_rings : List (SpscRing ℕ)
  pub n_workers : ℕ
  pub next_submit : ℕ
  pub outstanding : List ℕ
  pub stop_flag : Bool
  pub workers : List Phase

abbrev pub empty_ring : SpscRing ℕ
empty_ring = new pool_size

-- `Vec::pop`: the rest and the last element.
pub pop_last : {A : Type 0} → List A → Option (List A × A)
pop_last [] = none
pop_last (x ∷ xs) = elim (pop_last xs) [ none ↦ some ([], x) | some (ys, y) ↦ some (x ∷ ys, y) ]

-- The element that a pop read. To read an uninitialised slot is undefined in the source.
abbrev pub assume_init : {A : Type 0} → Option (Option A) → Option A
assume_init none = none
assume_init (some slot) = slot

abbrev pub saturating_sub : ℕ → ℕ → ℕ
saturating_sub a b = a - b

-- `(0..n).collect()` from an offset.
pub indices : ℕ → ℕ → List ℕ
indices i zero = []
indices i (suc n) = i ∷ indices (i + 1) n

module _ {F : Type 0} (dec : LdpcDecoder F) where
  new_slot : FrameSlot F
  new_slot = record {
    llr = replicate dec.variable_node_count dec.zero_llr;
    edge_r = replicate dec.required_edge_buffer dec.zero_llr;
    scratch = replicate dec.required_layer_buffer dec.zero_llr;
    hard = replicate dec.variable_node_count 0;
    iterations_used = 0;
    tag = 0;
  }

  pub with_workers : ℕ → LdpcPipeline F
  unfolding new_slot indices
  with_workers workers =
      let n = min (max workers 1) 8 in
      record {
        pool = replicate pool_size new_slot;
        free_list = indices 0 pool_size;
        work_rings = replicate n empty_ring;
        done_rings = replicate n empty_ring;
        n_workers = n;
        next_submit = 0;
        outstanding = replicate n 0;
        stop_flag = false;
        workers = replicate n polling;
      }

  -- One decoding of a slot by a worker.
  pub decode_slot : ℕ → FrameSlot F → FrameSlot F
  decode_slot iterations slot =
      let ((llr, edge_r, scratch, hard), used) =
        dec.decode slot.llr slot.edge_r slot.scratch slot.hard iterations in
      record {
        llr = llr;
        edge_r = edge_r;
        scratch = scratch;
        hard = hard;
        iterations_used = elim used [ none ↦ 0 | some n ↦ n ];
        tag = slot.tag;
      }

  pub polled : ℕ → LdpcPipeline F → SpscRing ℕ → Option ℕ → LdpcPipeline F
  polled wi pipe ring none = record pipe { workers = set pipe.workers wi checking }
  polled wi pipe ring (some idx) = record pipe {
    work_rings = set pipe.work_rings wi ring;
    workers = set pipe.workers wi (decoding idx);
  }

  pub handed_back : ℕ → LdpcPipeline F → SpscRing ℕ → Unit {0} ⊎ ℕ → LdpcPipeline F
  handed_back wi pipe ring (inl _) = record pipe {
    done_rings = set pipe.done_rings wi ring;
    workers = set pipe.workers wi polling;
  }
  handed_back wi pipe ring (inr _) = pipe

  -- One step of worker `wi`.
  pub turn : ℕ → ℕ → LdpcPipeline F → Phase → LdpcPipeline F
  unfolding polled handed_back decode_slot
  turn iterations wi pipe polling =
      let (ring, item) = try_pop pool_size (get_or pipe.work_rings wi empty_ring) in
      polled wi pipe ring (assume_init item)
  turn iterations wi pipe checking = record pipe {
    workers = set pipe.workers wi (if pipe.stop_flag then stopped else polling);
  }
  turn iterations wi pipe (decoding idx) = record pipe {
    pool = set pipe.pool idx (decode_slot iterations (get_or pipe.pool idx new_slot));
    workers = set pipe.workers wi (pushing idx);
  }
  turn iterations wi pipe (pushing idx) =
      let (ring, result) = try_push pool_size (get_or pipe.done_rings wi empty_ring) idx in
      handed_back wi pipe ring result
  turn iterations wi pipe stopped = pipe

  pub worker_step : ℕ → ℕ → LdpcPipeline F → LdpcPipeline F
  unfolding turn
  worker_step iterations wi pipe = turn iterations wi pipe (get_or pipe.workers wi stopped)

  -- What the caller does to a frame that it owns: `llr_mut` and `set_tag`.
  pub fill : LdpcPipeline F → LdpcFrame → List F → ℕ → LdpcPipeline F
  fill pipe frame llr tag =
      let slot = get_or pipe.pool frame new_slot in
      record pipe { pool = set pipe.pool frame (record slot { llr = llr; tag = tag }) }

module _ {F : Type 0} where
  acquired : LdpcPipeline F → Option (List ℕ × ℕ) → LdpcPipeline F × Option LdpcFrame
  acquired pipe none = (pipe, none)
  acquired pipe (some (rest, idx)) = (record pipe { free_list = rest }, some idx)

  pub acquire : LdpcPipeline F → LdpcPipeline F × Option LdpcFrame
  unfolding acquired pop_last
  acquire pipe = acquired pipe (pop_last pipe.free_list)

  submitted :
      LdpcPipeline F
      → LdpcFrame
      → ℕ
      → SpscRing ℕ × (Unit {0} ⊎ ℕ)
      → LdpcPipeline F × (Unit {0} ⊎ LdpcFrame)
  submitted pipe frame wi (ring, inr _) = (pipe, inr frame)
  submitted pipe frame wi (ring, inl _) = (
    record pipe {
      work_rings = set pipe.work_rings wi ring;
      outstanding = set pipe.outstanding wi (get_or pipe.outstanding wi 0 + 1);
      next_submit = wrapping_add pipe.next_submit 1;
    },
    inl tt,
  )

  pub submit : LdpcPipeline F → LdpcFrame → LdpcPipeline F × (Unit {0} ⊎ LdpcFrame)
  unfolding submitted pick_worker pick_from
  submit pipe frame =
      let wi = pick_worker pipe.outstanding pipe.next_submit in
      submitted pipe frame wi (try_push pool_size (get_or pipe.work_rings wi empty_ring) frame)

  -- `rest` is what the loop returns from the next worker on.
  pub received :
      LdpcPipeline F
      → ℕ
      → SpscRing ℕ
      → Option ℕ
      → LdpcPipeline F × Option LdpcFrame
      → LdpcPipeline F × Option LdpcFrame
  received pipe wi popped none rest = rest
  received pipe wi popped (some idx) rest = (
    record pipe {
      done_rings = set pipe.done_rings wi popped;
      outstanding = set pipe.outstanding wi (saturating_sub (get_or pipe.outstanding wi 0) 1);
    },
    some idx,
  )

  -- The loop over the done rings, from worker `wi` on.
  pub recv_from : LdpcPipeline F → ℕ → List (SpscRing ℕ) → LdpcPipeline F × Option LdpcFrame
  unfolding received
  recv_from pipe wi [] = (pipe, none)
  recv_from pipe wi (ring ∷ rings) =
      let (popped, item) = try_pop pool_size ring in
      received pipe wi popped (assume_init item) (recv_from pipe (suc wi) rings)

  pub try_recv : LdpcPipeline F → LdpcPipeline F × Option LdpcFrame
  unfolding recv_from
  try_recv pipe = recv_from pipe 0 pipe.done_rings

  pub release : LdpcPipeline F → LdpcFrame → LdpcPipeline F
  release pipe frame = record pipe { free_list = pipe.free_list ++ frame ∷ [] }

  -- The first act of `drop`; the second is to join the workers, which is to wait until each is
  -- `stopped`.
  pub drop_pipeline : LdpcPipeline F → LdpcPipeline F
  drop_pipeline pipe = record pipe { stop_flag = true }
