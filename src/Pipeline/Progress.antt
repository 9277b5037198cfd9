-- ===== src/Pipeline/Progress.antt =====
-- The workers of src/ldpc_pipeline.rs finish what was submitted, in whatever order they take turns.
pub mod Drain
pub mod Stop
use syndrome.Prelude.{
  Option, none, some, ◌⊎◌, inl, inr, ℕ, zero, suc, ◌+◌, ◌-◌, ◌*◌, ◌≤◌, ◌<◌, min, Bool, true, false,
  List, [], ◌∷◌, ◌++◌, map, foldl, length, length-set, get_or, get_or-set_self, get_or-set_ne, set,
  dec_lt, ℕ_discrete, if◌then◌else◌, ◌≡◌, refl, sym, ap, subst, ◌∙◌, arith, length-Each,
}
use syndrome.Pipeline.{
  Phase, polling, checking, decoding, pushing, stopped, LdpcDecoder, LdpcPipeline, polled,
  handed_back, turn, worker_step, assume_init, pool_size, empty_ring,
}
use syndrome.SpscQueue.{SpscRing}
use syndrome.Pipeline.Schedule.{System, Move, work, step, run}
use syndrome.Pipeline.Ownership.Around.{AtPhase}
use syndrome.Pipeline.Lanes.{count, Lane, idle_lane, lane_size}
use syndrome.Pipeline.Ownership.{IsValid}
use syndrome.Pipeline.Ownership.Workers.{lane_turn, worker_step-Next}
use syndrome.Pipeline.Ownership.Reachable.{worker_step_beyond}

-- A turn at a lane.
abbrev pub turned : Bool → Lane → Lane
turned stop lane = lane_turn stop lane.phase lane.queued lane.finished

-- A worker's step leaves the stop flag and the counts of outstanding frames alone.
abbrev Spares : {F : Type 0} → LdpcPipeline F → LdpcPipeline F → Type 0
Spares pipe pipe' = (pipe'.stop_flag ≡ pipe.stop_flag) × (pipe'.outstanding ≡ pipe.outstanding)

polled-Spares :
    {F : Type 0} (dec : LdpcDecoder F) (wi : ℕ) (pipe : LdpcPipeline F) (ring : SpscRing ℕ)
    (item : Option ℕ)
    → Spares pipe (polled dec wi pipe ring item)
unfolding polled
polled-Spares dec wi pipe ring none = (refl, refl)
polled-Spares dec wi pipe ring (some idx) = (refl, refl)

handed_back-Spares :
    {F : Type 0} (dec : LdpcDecoder F) (wi : ℕ) (pipe : LdpcPipeline F) (ring : SpscRing ℕ)
    (result : Unit {0} ⊎ ℕ)
    → Spares pipe (handed_back dec wi pipe ring result)
unfolding handed_back
handed_back-Spares dec wi pipe ring (inl _) = (refl, refl)
handed_back-Spares dec wi pipe ring (inr _) = (refl, refl)

turn-Spares :
    {F : Type 0} (dec : LdpcDecoder F) (iterations wi : ℕ) (pipe : LdpcPipeline F) (p : Phase)
    → Spares pipe (turn dec iterations wi pipe p)
unfolding turn
turn-Spares dec iterations wi pipe polling = polled-Spares dec wi pipe _ _
turn-Spares dec iterations wi pipe checking = (refl, refl)
turn-Spares dec iterations wi pipe (decoding idx) = (refl, refl)
turn-Spares dec iterations wi pipe (pushing idx) = handed_back-Spares dec wi pipe _ _
turn-Spares dec iterations wi pipe stopped = (refl, refl)

worker_step-Spares :
    {F : Type 0} (dec : LdpcDecoder F) (iterations wi : ℕ) (pipe : LdpcPipeline F)
    → Spares pipe (worker_step dec iterations wi pipe)
unfolding worker_step
worker_step-Spares dec iterations wi pipe = turn-Spares dec iterations wi pipe _

module _ {F : Type 0} where
  -- Each worker of the pipeline takes at least `least` turns.
  abbrev pub IsFair : System F → ℕ → List ℕ → Type 0
  IsFair s least turns = (wi : ℕ) → wi < length s.pipe.workers → least ≤ count wi turns

  pub fair_lanes :
      {s : System F} (v : IsValid s) {least : ℕ} (turns : List ℕ)
      → IsFair s least turns
      → (wi : ℕ) → wi < length v.lanes
      → least ≤ count wi turns
  fair_lanes {s} v turns fair wi l =
      fair wi (omega (arith, length-Each AtPhase s.pipe.workers v.lanes v.phases))

pub foldl-append :
    {A B : Type 0} (f : B → A → B) (b : B) (xs ys : List A)
    → foldl f b (xs ++ ys) ≡ foldl f (foldl f b xs) ys
foldl-append f b [] ys = refl
foldl-append f b (x ∷ xs) ys = foldl-append f (f b x) xs ys

-- A measure of a lane that each turn of its worker lowers, while there is something to lower.
module _ {F : Type 0} (dec : LdpcDecoder F) (iterations : ℕ) (stop : Bool) (measure : Lane → ℕ)
    (falls : (lane : Lane) → measure (turned stop lane) ≤ measure lane - 1) where
  abbrev at : List Lane → ℕ → ℕ
  at lanes i = measure (get_or lanes i idle_lane)

  -- After turns of the workers, each lane is lower by the number of its worker's turns.
  abbrev pub Lowered : {s : System F} → IsValid s → List ℕ → System F → Type 0
  Lowered {s} v turns t =
      (v' : IsValid t) × (t.held ≡ s.held)
      × (t.pipe.stop_flag ≡ stop)
      × (t.pipe.outstanding ≡ s.pipe.outstanding)
      × (length v'.lanes ≡ length v.lanes)
      × ((i : ℕ) → i < length v.lanes → at v'.lanes i ≤ at v.lanes i - count i turns)

  one_turn :
      {s : System F} (v : IsValid s) (wi : ℕ)
      → s.pipe.stop_flag ≡ stop
      → Lowered v (wi ∷ []) (record s { pipe = worker_step dec iterations wi s.pipe })
  one_turn {s} v wi flag = elim (dec_lt wi (length v.lanes)) [
    | yes lt ↦
        let (v', e) = worker_step-Next v wi dec iterations lt in
        let spares = worker_step-Spares dec iterations wi s.pipe in
        let lane : Lane = turned s.pipe.stop_flag (get_or v.lanes wi idle_lane) in
        (
          v',
          refl,
          spares.0 ∙ flag,
          spares.1,
          ap length e ∙ length-set v.lanes wi lane,
          λ i l.
              subst (λ lanes. at lanes i ≤ at v.lanes i - count i (wi ∷ [])) (sym e)
                (changed lt i lane l (
                  omega (
                    arith,
                    falls (get_or v.lanes wi idle_lane),
                    ap (λ b. measure (turned b (get_or v.lanes wi idle_lane))) flag,
                  ))),
        )
    | no beyond ↦
        subst (λ p. Lowered v (wi ∷ []) (record s { pipe = p }))
          (sym (worker_step_beyond dec iterations v wi (omega arith)))
          (v, refl, flag, refl, refl, λ i l. ground arith)
  ]
    where
      changed :
          wi < length v.lanes
          → (i : ℕ) (lane : Lane) → i < length v.lanes
          → measure lane ≤ at v.lanes wi - 1
          → at (set v.lanes wi lane) i ≤ at v.lanes i - count i (wi ∷ [])
      changed wl i lane l low = elim (ℕ_discrete wi i) [
        | yes e ↦
            subst (λ k. at (set v.lanes wi lane) k ≤ at v.lanes k - count k (wi ∷ [])) e
              (ground (arith, ap measure (get_or-set_self v.lanes wi lane idle_lane wl)))
        | no ne ↦ ground (arith, ap measure (get_or-set_ne v.lanes wi i lane idle_lane ne))
      ]

  pub turns-Lowered :
      (turns : List ℕ) {s : System F} (v : IsValid s)
      → s.pipe.stop_flag ≡ stop
      → Lowered v turns (run dec iterations s (map work turns))
  unfolding step
  turns-Lowered [] v flag = (v, refl, flag, refl, refl, λ i l. omega arith)
  turns-Lowered (wi ∷ turns) v flag =
      let (v1, held1, flag1, out1, size1, low1) = one_turn v wi flag in
      let (v2, held2, flag2, out2, size2, low2) = turns-Lowered turns v1 flag1 in
      (
        v2,
        held2 ∙ held1,
        flag2,
        out2 ∙ out1,
        size2 ∙ size1,
        λ i l. omega (arith, low1 i l, low2 i (omega (arith, size1))),
      )
