-- ===== src/Pipeline/Tests.antt =====
-- src/ldpc_pipeline.rs with one worker and a decoder that flips nothing.
use syndrome.Prelude.{
  ℕ, zero, suc, ◌<◌, false, List, [], ◌∷◌, ◌++◌, map, length, All, get_or, replicate, some, inl,
  ◌≡◌, refl, arith,
}
use syndrome.SpscQueue.{new, try_push, try_pop}
use syndrome.Pipeline.{
  LdpcDecoder, decoding, stopped, pick_from, pick_worker, with_workers, acquire, submit,
  worker_step, drop_pipeline,
}
use syndrome.Pipeline.Pick.{IsFairPick, pick_worker_lem}
use syndrome.Pipeline.Schedule.{
  Move, acquire_frame, submit_frame, recv_frame, drop_all, work, step, run, reached, take_at,
}
use syndrome.Pipeline.Ownership.Reachable.{submit-accepts}
use syndrome.Pipeline.Exclusive.{IsAloneWith, run-IsAloneWith}
use syndrome.Pipeline.Progress.{IsFair}
use syndrome.Pipeline.Progress.Drain.{in_flight, Drained, run-drains}
use syndrome.Pipeline.Progress.Stop.{drop-stops}

-- Every LLR is a number, and the decoder copies its input.
abbrev copying : LdpcDecoder ℕ
copying = record {
  zero_llr = 0;
  variable_node_count = 2;
  required_edge_buffer = 1;
  required_layer_buffer = 1;
  decode = λ llr edge_r scratch hard iterations. ((llr, edge_r, scratch, llr), some iterations);
}

-- A frame is acquired and submitted.
abbrev one_frame : List (Move ℕ)
one_frame = acquire_frame ∷ submit_frame 0 ∷ []

one_acquired : take_at 0 (reached copying 5 1 (acquire_frame ∷ [])).held ≡ some (15, [])
unfolding take_at step acquire with_workers
one_acquired = refl

submit-accepts_example : (submit (reached copying 5 1 (acquire_frame ∷ [])).pipe 15).1 ≡ inl tt
submit-accepts_example = submit-accepts copying 5 1 (acquire_frame ∷ []) 0 15 [] one_acquired

pick_worker_lem_example : IsFairPick (1 ∷ 6 ∷ 1 ∷ 6 ∷ []) 3 (pick_worker (1 ∷ 6 ∷ 1 ∷ 6 ∷ []) 3)
pick_worker_lem_example = pick_worker_lem (1 ∷ 6 ∷ 1 ∷ 6 ∷ []) 3 (omega arith) (omega arith)

picked : pick_worker (1 ∷ 6 ∷ 1 ∷ 6 ∷ []) 3 ≡ 0
unfolding pick_worker pick_from
picked = refl

still_running : (reached copying 5 1 one_frame).pipe.stop_flag ≡ false
unfolding step acquire submit with_workers try_push new
still_running = refl

one-IsFair : IsFair (reached copying 5 1 one_frame) 49 (replicate 49 0)
unfolding step acquire submit with_workers try_push new
one-IsFair zero lt = omega arith
one-IsFair (suc wi) lt = absurd (omega arith)

run-drains_example : Drained (reached copying 5 1 one_frame) (
    run copying 5 (reached copying 5 1 one_frame) (
      map work (replicate 49 0)
      ++ replicate (in_flight (reached copying 5 1 one_frame)) recv_frame))
run-drains_example = run-drains copying 5 1 one_frame (replicate 49 0) still_running one-IsFair

abbrev dropped : List (Move ℕ)
dropped = one_frame ++ drop_all ∷ []

dropped-IsFair : IsFair (reached copying 5 1 dropped) 51 (replicate 51 0)
unfolding step acquire submit with_workers try_push drop_pipeline new
dropped-IsFair zero lt = omega arith
dropped-IsFair (suc wi) lt = absurd (omega arith)

drop-stops_example :
    All
      (λ p. p ≡ stopped)
      (run copying 5 (reached copying 5 1 dropped) (map work (replicate 51 0))).pipe.workers
drop-stops_example = drop-stops copying 5 1 one_frame (replicate 51 0) dropped-IsFair

abbrev one_decoding : List (Move ℕ)
one_decoding = one_frame ++ work 0 ∷ []

decoding_15 :
    (0 < length (reached copying 5 1 one_decoding).pipe.workers)
    × (get_or (reached copying 5 1 one_decoding).pipe.workers 0 stopped ≡ decoding 15)
unfolding step acquire submit with_workers try_push worker_step try_pop new
decoding_15 = (omega arith, refl)

run-IsAloneWith_example : IsAloneWith (reached copying 5 1 one_decoding) 0 15
run-IsAloneWith_example = run-IsAloneWith copying 5 1 one_decoding 0 15 decoding_15.0 decoding_15.1

-- A worker that found its ring empty before a frame was submitted and the pipeline dropped stops with
-- the frame still in its ring.
abbrev stale_stop : List (Move ℕ)
stale_stop = acquire_frame ∷ work 0 ∷ submit_frame 0 ∷ drop_all ∷ work 0 ∷ []

stopped_with_frame :
    ((reached copying 5 1 stale_stop).pipe.workers ≡ stopped ∷ [])
    × ((reached copying 5 1 stale_stop).pipe.outstanding ≡ 1 ∷ [])
unfolding step acquire submit with_workers try_push worker_step try_pop drop_pipeline new
stopped_with_frame = (refl, refl)
