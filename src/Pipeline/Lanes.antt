-- ===== src/Pipeline/Lanes.antt =====
-- Lists that agree place by place with another list, and sums and counts over lists.
use syndrome.Prelude.{
  ℕ, zero, suc, ◌+◌, ◌≤◌, ◌<◌, List, [], ◌∷◌, ◌++◌, ◌==◌, length, get_or, set, replicate, All, none,
  some, if◌then◌else◌, ◌⊎◌, inl, inr, ◌≡◌, ◌≢◌, refl, ap, arith,
}
use syndrome.SpscQueue.{SpscRing}
use syndrome.SpscQueue.Slots.{Holds}
use syndrome.Pipeline.{pool_size, Phase, polling, checking, decoding, pushing, stopped, pop_last}
use syndrome.Pipeline.Schedule.{taken, take_at}

module _ {A : Type 0} (P : A → Type 0) where
  pub set-All : (xs : List A) (i : ℕ) (x : A) → All P xs → P x → All P (set xs i x)
  set-All [] i x p h = tt
  set-All (y ∷ xs) zero x p h = (h, p.1)
  set-All (y ∷ xs) (suc i) x p h = (p.0, set-All xs i x p.1 h)

  pub get-All : (xs : List A) (i : ℕ) (d : A) → All P xs → i < length xs → P (get_or xs i d)
  get-All [] i d p h = absurd (omega arith)
  get-All (x ∷ xs) zero d p h = p.0
  get-All (x ∷ xs) (suc i) d p h = get-All xs i d p.1 (omega arith)

  pub All_of_get : (xs : List A) (d : A) → ((i : ℕ) → i < length xs → P (get_or xs i d)) → All P xs
  All_of_get [] d h = tt
  All_of_get (x ∷ xs) d h = (h 0 (omega arith), All_of_get xs d (λ i lt. h (suc i) (omega arith)))

  pub replicate-All : (n : ℕ) (x : A) → P x → All P (replicate n x)
  replicate-All zero x h = tt
  replicate-All (suc n) x h = (h, replicate-All n x h)

abbrev pub total : {A : Type 0} → (A → ℕ) → List A → ℕ
total f [] = 0
total f (x ∷ xs) = f x + total f xs

pub total-set :
    {A : Type 0} (f : A → ℕ) (xs : List A) (i : ℕ) (v d : A)
    → i < length xs
    → total f (set xs i v) + f (get_or xs i d) ≡ total f xs + f v
total-set f [] i v d h = absurd (omega arith)
total-set f (x ∷ xs) zero v d h = omega arith
total-set f (x ∷ xs) (suc i) v d h = omega (arith, total-set f xs i v d (omega arith))

pub le-total :
    {A : Type 0} (f : A → ℕ) (xs : List A) (i : ℕ) (d : A)
    → i < length xs
    → f (get_or xs i d) ≤ total f xs
le-total f [] i d h = absurd (omega arith)
le-total f (x ∷ xs) zero d h = omega arith
le-total f (x ∷ xs) (suc i) d h = omega (arith, le-total f xs i d (omega arith))

pub total-replicate :
    {A : Type 0} (f : A → ℕ) (n : ℕ) (x : A) → f x ≡ 0 → total f (replicate n x) ≡ 0
total-replicate f zero x h = refl
total-replicate f (suc n) x h = omega (arith, h, total-replicate f n x h)

-- How often a number stands in a list.
abbrev pub count : ℕ → List ℕ → ℕ
count j [] = 0
count j (x ∷ xs) = (if x == j then 1 else 0) + count j xs

pub count-append : (j : ℕ) (xs ys : List ℕ) → count j (xs ++ ys) ≡ count j xs + count j ys
count-append j [] ys = omega arith
count-append j (x ∷ xs) ys = omega (arith, count-append j xs ys)

-- What `pop_last` takes is the end of the list.
pub pop_last-cases :
    {A : Type 0} (xs : List A)
    → ((pop_last xs ≡ none) × (xs ≡ []))
      ⊎ ((ys : List A) × (y : A) × (pop_last xs ≡ some (ys, y)) × (xs ≡ ys ++ y ∷ []))
unfolding pop_last
pop_last-cases [] = inl (refl, refl)
pop_last-cases (x ∷ xs) = elim (pop_last-cases xs) [
  | inl (e, h) ↦ inr ([], x, rw e, ap (◌∷◌ x) h)
  | inr (ys, y, e, h) ↦ inr (x ∷ ys, y, rw e, ap (◌∷◌ x) h)
]

-- What `take_at` takes is one element, and the others are left.
pub take_at-cases :
    (i : ℕ) (xs : List ℕ)
    → (take_at i xs ≡ none)
      ⊎ ((y : ℕ) × (rest : List ℕ) × (take_at i xs ≡ some (y, rest))
          × (length xs ≡ suc (length rest))
          × ((j : ℕ) → count j xs ≡ (if y == j then 1 else 0) + count j rest))
unfolding take_at
take_at-cases i [] = inl refl
take_at-cases zero (x ∷ xs) = inr (x, xs, refl, refl, λ j. refl)
take_at-cases (suc i) (x ∷ xs) = elim (take_at-cases i xs) [
  | inl e ↦ inl (rw (e, taken))
  | inr (y, rest, e, l, c) ↦ inr (y, x ∷ rest, rw (e, taken), ap suc l, λ j. omega (arith, c j))
]

-- What stands between the caller's two ends of one worker: the slots in its work ring, the worker's
-- place in its loop, and the slots in its done ring.
pub record Lane : Type 0 where
  pub queued : List ℕ
  pub phase : Phase
  pub finished : List ℕ

abbrev pub idle_lane : Lane
idle_lane = record { queued = []; phase = polling; finished = [] }

-- The slots that a worker has in hand.
abbrev pub in_hand : Phase → List ℕ
in_hand polling = []
in_hand checking = []
in_hand (decoding idx) = idx ∷ []
in_hand (pushing idx) = idx ∷ []
in_hand stopped = []

abbrev pub lane_size : Lane → ℕ
lane_size lane = length lane.queued + length (in_hand lane.phase) + length lane.finished

abbrev pub lane_count : ℕ → Lane → ℕ
lane_count j lane = count j lane.queued + count j (in_hand lane.phase) + count j lane.finished

abbrev pub Queued : SpscRing ℕ → Lane → Type 0
Queued ring lane = Holds pool_size ring lane.queued

abbrev pub Finished : SpscRing ℕ → Lane → Type 0
Finished ring lane = Holds pool_size ring lane.finished

abbrev pub IsAwake : Lane → Type 0
IsAwake lane = lane.phase ≢ stopped
