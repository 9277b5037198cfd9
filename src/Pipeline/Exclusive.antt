-- ===== src/Pipeline/Exclusive.antt =====
-- A worker that decodes a slot of src/ldpc_pipeline.rs is the only one that can reach it.
use syndrome.Prelude.{
  ℕ, zero, suc, ◌+◌, ◌≤◌, ◌<◌, List, [], ◌∷◌, length, get_or, ltb, if◌then◌else◌, ◌≡◌, ◌≢◌, refl,
  sym, ap, arith, length-Each,
}
use syndrome.Pipeline.{pool_size, Phase, decoding, stopped, LdpcDecoder}
use syndrome.Pipeline.Schedule.{System, Move, reached}
use syndrome.Pipeline.Lanes.{total, le-total, count, Lane, idle_lane, in_hand, lane_count}
use syndrome.Pipeline.Ownership.{IsValid}
use syndrome.Pipeline.Ownership.Around.{AtPhase, lane_at}
use syndrome.Pipeline.Ownership.Reachable.{run-IsValid}

-- Two places of a list make up no more than the whole.
two-le-total :
    {A : Type 0} (f : A → ℕ) (xs : List A) (i j : ℕ) (d : A)
    → i < length xs
    → j < length xs
    → i ≢ j
    → f (get_or xs i d) + f (get_or xs j d) ≤ total f xs
two-le-total f [] i j d h k n = absurd (omega arith)
two-le-total f (x ∷ xs) zero zero d h k n = absurd (n refl)
two-le-total f (x ∷ xs) zero (suc j) d h k n = omega (arith, le-total f xs j d (omega arith))
two-le-total f (x ∷ xs) (suc i) zero d h k n = omega (arith, le-total f xs i d (omega arith))
two-le-total f (x ∷ xs) (suc i) (suc j) d h k n =
    omega (arith, two-le-total f xs i j d (omega arith) (omega arith) (λ e. n (ap suc e)))

-- Slot `idx` of the pool is in the hands of worker `wi` alone.
abbrev pub IsAloneWith : {F : Type 0} → System F → ℕ → ℕ → Type 0
IsAloneWith s wi idx =
    (idx < pool_size)
    × (count idx s.pipe.free_list ≡ 0)
    × (count idx s.held ≡ 0)
    × ((wj : ℕ)
        → wj < length s.pipe.workers
        → wj ≢ wi
        → count idx (in_hand (get_or s.pipe.workers wj stopped)) ≡ 0)

count_self : (x : ℕ) → 1 ≤ count x (x ∷ [])
count_self x = ground arith

below_of_owned :
    (x n : ℕ) → 1 ≤ n → n ≡ (if ltb x pool_size then 1 else 0) → (x < pool_size) × (n ≡ 1)
below_of_owned x n h e = ground arith

module _ {F : Type 0} {s : System F} (v : IsValid s) where
  hand-le :
      (j wi : ℕ)
      → wi < length v.lanes
      → count j (in_hand (get_or s.pipe.workers wi stopped))
        ≤ lane_count j (get_or v.lanes wi idle_lane)
  hand-le j wi lt =
      let lane : Lane = get_or v.lanes wi idle_lane in
      omega (arith, ap (λ (p : Phase). count j (in_hand p)) (lane_at v wi lt).phase)

  valid-IsAloneWith :
      (wi idx : ℕ)
      → wi < length s.pipe.workers
      → get_or s.pipe.workers wi stopped ≡ decoding idx
      → IsAloneWith s wi idx
  valid-IsAloneWith wi idx lt e =
      let size = length-Each AtPhase s.pipe.workers v.lanes v.phases in
      let li : wi < length v.lanes = omega (arith, size) in
      let mine : 1 ≤ lane_count idx (get_or v.lanes wi idle_lane) =
        omega
          (arith, count_self idx, hand-le idx wi li, ap (λ (p : Phase). count idx (in_hand p)) e) in
      let part = le-total (lane_count idx) v.lanes wi idle_lane li in
      let (below, one) = below_of_owned idx _ (omega (arith, part, mine)) (v.owned idx) in
      (
        below,
        omega (arith, part, mine, one),
        omega (arith, part, mine, one),
        λ wj lj ne.
            let l : wj < length v.lanes = omega (arith, size) in
            omega (
              arith,
              mine,
              one,
              hand-le idx wj l,
              two-le-total (lane_count idx) v.lanes wi wj idle_lane li l (λ q. ne (sym q)),
            ),
      )

-- In every state that any sequence of the caller's calls and the workers' steps leads to, a slot
-- that a worker is about to decode is one of the pool's 16, is not in the free list, is not owned
-- by the caller and is in no other worker's hands.
pub run-IsAloneWith :
    {F : Type 0} (dec : LdpcDecoder F) (iterations workers : ℕ) (moves : List (Move F)) (wi idx : ℕ)
    → wi < length (reached dec iterations workers moves).pipe.workers
    → get_or (reached dec iterations workers moves).pipe.workers wi stopped ≡ decoding idx
    → IsAloneWith (reached dec iterations workers moves) wi idx
run-IsAloneWith dec iterations workers moves wi idx lt e =
    valid-IsAloneWith (run-IsValid dec iterations workers moves) wi idx lt e
