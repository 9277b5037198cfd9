-- ===== src/Pipeline/Ownership/Receive.antt =====
-- The loop of `try_recv` in src/ldpc_pipeline.rs over the done rings.
use syndrome.Prelude.{
  ℕ, suc, ◌+◌, ◌<◌, true, false, List, [], ◌∷◌, length, get_or, set, All, Option, none, some, ◌⊎◌,
  inl, inr, ◌≡◌, refl, sym, ap, subst, ◌∙◌, arith, Each,
}
use syndrome.SpscQueue.{SpscRing, try_pop}
use syndrome.SpscQueue.Slots.{Holds}
use syndrome.Pipeline.{
  pool_size, assume_init, saturating_sub, LdpcFrame, LdpcPipeline, received, recv_from,
}
use syndrome.Pipeline.Lanes.{Lane, idle_lane, Finished}
use syndrome.Pipeline.Ownership.{pop-nil, pop-cons}

pub true-ne : true ≡ false → ⊥
true-ne h = cc

-- The state and the frame after slot `x` was popped from the done ring of worker `wi`.
abbrev pub popped_at :
    {F : Type 0} → LdpcPipeline F → SpscRing ℕ → ℕ → ℕ → LdpcPipeline F × Option LdpcFrame
popped_at pipe ring x wi = (
  record pipe {
    done_rings = set pipe.done_rings wi ring;
    outstanding = set pipe.outstanding wi (saturating_sub (get_or pipe.outstanding wi 0) 1);
  },
  some x,
)

-- What the loop over the done rings from worker `wi` on gives: nothing if they are all empty, and
-- else the oldest slot of one of them.
abbrev pub RecvOutcome :
    {F : Type 0} → LdpcPipeline F → ℕ → List Lane → LdpcPipeline F × Option LdpcFrame → Type 0
RecvOutcome pipe wi lanes outcome =
    (All (λ (lane : Lane). lane.finished ≡ []) lanes × (outcome ≡ (pipe, none)))
    ⊎ ((k : ℕ) × (x : ℕ) × (rest : List ℕ) × (ring : SpscRing ℕ) × (k < length lanes)
        × ((get_or lanes k idle_lane).finished ≡ x ∷ rest)
        × Holds pool_size ring rest
        × (outcome ≡ popped_at pipe ring x (wi + k)))

module _ {F : Type 0} (pipe : LdpcPipeline F) where
  recv_later :
      (wi : ℕ) (lane : Lane) (lanes : List Lane) (outcome : LdpcPipeline F × Option LdpcFrame)
      → lane.finished ≡ []
      → RecvOutcome pipe (suc wi) lanes outcome
      → RecvOutcome pipe wi (lane ∷ lanes) outcome
  recv_later wi lane lanes outcome h (inl (all, e)) = inl ((h, all), e)
  recv_later wi lane lanes outcome h (inr (k, x, rest, ring, l, f, holds, e)) = inr (
    suc k,
    x,
    rest,
    ring,
    omega arith,
    f,
    holds,
    e ∙ ap (popped_at pipe ring x) {x = suc wi + k} {y = wi + suc k} (omega arith),
  )

  recv_first :
      (wi : ℕ) (ring : SpscRing ℕ) (lane : Lane) (lanes : List Lane) (q : List ℕ)
      → lane.finished ≡ q
      → Holds pool_size ring q
      → (rest : LdpcPipeline F × Option LdpcFrame) → RecvOutcome pipe (suc wi) lanes rest
      → RecvOutcome pipe wi (lane ∷ lanes) (
          received pipe wi (try_pop pool_size ring).0 (assume_init (try_pop pool_size ring).1) rest)
  unfolding received
  recv_first wi ring lane lanes [] h holds rest ih =
      subst (λ r. RecvOutcome pipe wi (lane ∷ lanes) (received pipe wi r.0 (assume_init r.1) rest))
        (sym (pop-nil ring holds)) (recv_later wi lane lanes rest h ih)
  recv_first wi ring lane lanes (x ∷ q) h holds rest ih =
      let (kept, read) = pop-cons ring x q holds in
      inr (
        0,
        x,
        q,
        (try_pop pool_size ring).0,
        omega arith,
        h,
        kept,
        ap (λ r. received pipe wi (try_pop pool_size ring).0 (assume_init r) rest) read
            ∙ ap (popped_at pipe (try_pop pool_size ring).0 x) {x = wi} {y = wi + 0} (omega arith),
      )

  pub recv_from_lem :
      (wi : ℕ) (rings : List (SpscRing ℕ)) (lanes : List Lane)
      → Each Finished rings lanes
      → RecvOutcome pipe wi lanes (recv_from pipe wi rings)
  unfolding recv_from
  recv_from_lem wi [] [] p = inl (tt, refl)
  recv_from_lem wi [] (lane ∷ lanes) p = absurd p
  recv_from_lem wi (ring ∷ rings) [] p = absurd p
  recv_from_lem wi (ring ∷ rings) (lane ∷ lanes) p =
      recv_first wi ring lane lanes lane.finished refl p.0 (recv_from pipe (suc wi) rings)
        (recv_from_lem (suc wi) rings lanes p.1)
