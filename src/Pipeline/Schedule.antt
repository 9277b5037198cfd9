-- ===== src/Pipeline/Schedule.antt =====
-- The pipeline with the frames that its caller owns, under every interleaving of the caller's calls
-- and the workers' steps. Calls after the drop are among the schedules, though the source has none.
use syndrome.Prelude.{ℕ, zero, suc, List, [], ◌∷◌, foldl, Option, none, some, ◌⊎◌, inl, inr}
use syndrome.Pipeline.{
  LdpcFrame, LdpcDecoder, LdpcPipeline, with_workers, worker_step, fill, acquire, submit, try_recv,
  release, drop_pipeline,
}

pub record System (F : Type 0) : Type 0 where
  pub pipe : LdpcPipeline F
  pub held : List LdpcFrame

-- A move of the caller names a frame by its place among those that the caller owns.
pub data Move (F : Type 0) : Type 0 where
  acquire_frame : Move F
  fill_frame : ℕ → List F → ℕ → Move F
  submit_frame : ℕ → Move F
  recv_frame : Move F
  release_frame : ℕ → Move F
  drop_all : Move F
  work : ℕ → Move F

module _ {A : Type 0} where
  unfoldable pub taken : A → Option (A × List A) → Option (A × List A)
  taken x none = none
  taken x (some (y, rest)) = some (y, x ∷ rest)

  -- The element at a place, and the others.
  unfoldable pub take_at : ℕ → List A → Option (A × List A)
  unfolding taken
  take_at i [] = none
  take_at zero (x ∷ xs) = some (x, xs)
  take_at (suc i) (x ∷ xs) = taken x (take_at i xs)

-- The frame that a call returned joins those that the caller owns.
unfoldable pub collected :
    {F : Type 0} → List LdpcFrame → LdpcPipeline F × Option LdpcFrame → System F
collected held (pipe, none) = record { pipe = pipe; held = held }
collected held (pipe, some frame) = record { pipe = pipe; held = frame ∷ held }

-- A frame that was submitted is the caller's no more, unless it was handed back.
unfoldable pub sent :
    {F : Type 0} → List LdpcFrame → LdpcPipeline F × (Unit {0} ⊎ LdpcFrame) → System F
sent rest (pipe, inl _) = record { pipe = pipe; held = rest }
sent rest (pipe, inr frame) = record { pipe = pipe; held = frame ∷ rest }

module _ {F : Type 0} (dec : LdpcDecoder F) (iterations : ℕ) where
  unfoldable pub fill_at : System F → List F → ℕ → Option (LdpcFrame × List LdpcFrame) → System F
  fill_at s llr tag none = s
  fill_at s llr tag (some (frame, rest)) = record s { pipe = fill dec s.pipe frame llr tag }

  unfoldable pub submit_at : System F → Option (LdpcFrame × List LdpcFrame) → System F
  unfolding sent
  submit_at s none = s
  submit_at s (some (frame, rest)) = sent rest (submit s.pipe frame)

  unfoldable pub release_at : System F → Option (LdpcFrame × List LdpcFrame) → System F
  release_at s none = s
  release_at s (some (frame, rest)) = record { pipe = release s.pipe frame; held = rest }

  unfoldable pub step : System F → Move F → System F
  unfolding collected fill_at submit_at release_at take_at
  step s acquire_frame = collected s.held (acquire s.pipe)
  step s (fill_frame i llr tag) = fill_at s llr tag (take_at i s.held)
  step s (submit_frame i) = submit_at s (take_at i s.held)
  step s recv_frame = collected s.held (try_recv s.pipe)
  step s (release_frame i) = release_at s (take_at i s.held)
  step s drop_all = record s { pipe = drop_pipeline s.pipe }
  step s (work wi) = record s { pipe = worker_step dec iterations wi s.pipe }

  abbrev pub run : System F → List (Move F) → System F
  run = foldl step

-- A new pipeline, none of whose frames the caller owns.
abbrev pub start : {F : Type 0} → LdpcDecoder F → ℕ → System F
start dec workers = record { pipe = with_workers dec workers; held = [] }

-- The state that a sequence of moves leads to.
abbrev pub reached : {F : Type 0} → LdpcDecoder F → ℕ → ℕ → List (Move F) → System F
reached dec iterations workers moves = run dec iterations (start dec workers) moves
