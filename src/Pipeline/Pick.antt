-- ===== src/Pipeline/Pick.antt =====
-- A frame goes to the least Loaded worker, the first one from the cursor on.
use native.Mathlib.Nat.{mod-lt, mod-eq_of_lt, mod-add-mod, add-mod_right}
use syndrome.Prelude.{
  ℕ, zero, suc, ◌+◌, ◌-◌, ◌%◌, ◌^◌, ◌≤◌, ◌<◌, Bool, true, false, List, ltb, length, get_or, dec_lt,
  if◌then◌else◌, ◌≡◌, refl, sym, ap, subst, ◌∙◌, arith,
}
use syndrome.SpscQueue.{wrapping_add}
use syndrome.Pipeline.{pick_from, pick_worker}

-- Among the workers that are `0` to `count` places after the cursor, `best` is the first with the
-- least load.
abbrev pub IsFirstLeast : List ℕ → ℕ → ℕ → ℕ → Type 0
IsFirstLeast outstanding cursor count best =
    (k : ℕ) × (k < count)
    × (best ≡ (cursor + k) % length outstanding)
    × ((j : ℕ)
        → j < count
        → get_or outstanding best 0 ≤ get_or outstanding ((cursor + j) % length outstanding) 0)
    × ((j : ℕ)
        → j < k
        → get_or outstanding best 0 < get_or outstanding ((cursor + j) % length outstanding) 0)

module _ (outstanding : List ℕ) (cursor : ℕ) (near : cursor + length outstanding ≤ 2 ^ 64) where
  abbrev load_at : ℕ → ℕ
  load_at j = get_or outstanding ((cursor + j) % length outstanding) 0

  abbrev next_best : ℕ → ℕ → ℕ → ℕ
  next_best step best load =
      if ltb (load_at step) load then (cursor + step) % length outstanding else best

  next-IsFirstLeast :
      (step best : ℕ)
      → IsFirstLeast outstanding cursor step best
      → (b : Bool) → ltb (load_at step) (get_or outstanding best 0) ≡ b
      → IsFirstLeast outstanding cursor
          (step + 1)
          (if b then (cursor + step) % length outstanding else best)
  next-IsFirstLeast step best (k, l, e, least, first) true h = (
    step,
    omega arith,
    refl,
    λ j lt. ground (arith, least j, ap load_at {x = j} {y = step}),
    λ j lt. ground (arith, least j),
  )
  next-IsFirstLeast step best (k, l, e, least, first) false h =
      (k, omega arith, e, λ j lt. ground (arith, least j, ap load_at {x = j} {y = step}), first)

  pick_from-IsFirstLeast :
      (count step best : ℕ)
      → step + count ≡ length outstanding
      → IsFirstLeast outstanding cursor step best
      → IsFirstLeast outstanding cursor
          (length outstanding)
          (pick_from outstanding cursor step count best (get_or outstanding best 0))
  unfolding pick_from
  pick_from-IsFirstLeast zero step best e p =
      subst (λ (n : ℕ). IsFirstLeast outstanding cursor n best) (omega arith) p
  pick_from-IsFirstLeast (suc count) step best e p =
      subst
        (λ (w : ℕ).
          let wi = w % length outstanding in
          let less = ltb (get_or outstanding wi 0) (get_or outstanding best 0) in
          IsFirstLeast outstanding cursor (length outstanding) (
            pick_from outstanding cursor (step + 1) count (if less then wi else best)
              (if less then get_or outstanding wi 0 else get_or outstanding best 0)))
        (sym (mod-eq_of_lt {n = cursor + step} {m = 2 ^ 64} (omega arith)))
        (go (ltb (load_at step) (get_or outstanding best 0)) refl
          (λ best' q. pick_from-IsFirstLeast count (step + 1) best' (omega arith) q))
    where
      go :
          (b : Bool)
          → ltb (load_at step) (get_or outstanding best 0) ≡ b
          → ((best' : ℕ)
              → IsFirstLeast outstanding cursor (step + 1) best'
              → IsFirstLeast outstanding cursor (length outstanding) (
                  pick_from outstanding cursor (step + 1) count best' (get_or outstanding best' 0)))
          → IsFirstLeast outstanding cursor (length outstanding) (
              pick_from outstanding cursor
                (step + 1)
                count
                (if b then (cursor + step) % length outstanding else best)
                (if b then load_at step else get_or outstanding best 0))
      go true h ih = ih _ (next-IsFirstLeast step best p true h)
      go false h ih = ih best (next-IsFirstLeast step best p false h)

  all_rounds :
      0 < length outstanding
      → IsFirstLeast outstanding cursor (length outstanding) (pick_worker outstanding cursor)
  unfolding pick_worker
  all_rounds some_worker =
      pick_from-IsFirstLeast (length outstanding - 1) 1 (cursor % length outstanding) (omega arith)
        (
          0,
          omega arith,
          ap (λ (t : ℕ). t % length outstanding) {x = cursor} {y = cursor + 0} (omega arith),
          λ j lt. omega (
            arith,
            ap load_at {x = j} {y = 0} (omega arith),
            ap (λ (t : ℕ). get_or outstanding (t % length outstanding) 0) {x = cursor}
                {y = cursor + 0} (omega arith),
          ),
          λ j lt. absurd (omega arith),
        )

-- Every worker stands some places after the cursor.
place : (cursor n wi : ℕ) → wi < n → (j : ℕ) × (j < n) × ((cursor + j) % n ≡ wi)
place cursor n wi h = elim (dec_lt wi (cursor % n)) [
  | yes before ↦ (
    wi + n - cursor % n,
    omega arith,
    sym (mod-add-mod cursor n (wi + n - cursor % n))
        ∙ ap (λ (t : ℕ). t % n) {y = wi + n} (omega (arith, mod-lt cursor {m = n} (omega arith)))
        ∙ add-mod_right wi n
        ∙ mod-eq_of_lt h,
  )
  | no after ↦ (
    wi - cursor % n,
    omega arith,
    sym (mod-add-mod cursor n (wi - cursor % n))
        ∙ ap (λ (t : ℕ). t % n) {y = wi} (omega arith)
        ∙ mod-eq_of_lt h,
  )
]

pick_from-lt :
    (outstanding : List ℕ) (cursor count step best load : ℕ)
    → best < length outstanding
    → pick_from outstanding cursor step count best load < length outstanding
unfolding pick_from
pick_from-lt outstanding cursor zero step best load h = h
pick_from-lt outstanding cursor (suc count) step best load h =
    let wi = wrapping_add cursor step % length outstanding in
    pick_from-lt outstanding cursor count (step + 1) _ _
      (within (ltb (get_or outstanding wi 0) load) wi best (mod-lt _ (omega arith)) h)
  where
    within :
        (b : Bool) (x y : ℕ)
        → x < length outstanding
        → y < length outstanding
        → (if b then x else y) < length outstanding
    within true x y p q = p
    within false x y p q = q

pub pick_worker-lt :
    (outstanding : List ℕ) (cursor : ℕ)
    → 0 < length outstanding
    → pick_worker outstanding cursor < length outstanding
unfolding pick_worker
pick_worker-lt outstanding cursor h = pick_from-lt outstanding cursor _ 1 _ _ (mod-lt cursor h)

-- The chosen worker, when counted from the cursor, is the first one with the least load of all.
abbrev pub IsFairPick : List ℕ → ℕ → ℕ → Type 0
IsFairPick outstanding cursor best =
    (best < length outstanding)
    × ((wi : ℕ) → wi < length outstanding → get_or outstanding best 0 ≤ get_or outstanding wi 0)
    × ((k : ℕ) × (best ≡ (cursor + k) % length outstanding)
        × ((j : ℕ)
            → j < k
            → get_or outstanding best 0 < get_or outstanding ((cursor + j) % length outstanding) 0))

-- With at least one worker and a cursor whose round does not pass the counter's end, `pick_worker`
-- returns a worker with the least load of all, and the first such worker from the cursor on.
pub pick_worker_lem :
    (outstanding : List ℕ) (cursor : ℕ)
    → 0 < length outstanding
    → cursor + length outstanding ≤ 2 ^ 64
    → IsFairPick outstanding cursor (pick_worker outstanding cursor)
pick_worker_lem outstanding cursor h near =
    let (k, l, e, least, first) = all_rounds outstanding cursor near h in
    (
      pick_worker-lt outstanding cursor h,
      λ wi lt.
          let (j, before, at) = place cursor (length outstanding) wi lt in
          subst
            (λ (t : ℕ).
              get_or outstanding (pick_worker outstanding cursor) 0 ≤ get_or outstanding t 0)
            at (least j before),
      (k, e, first),
    )
