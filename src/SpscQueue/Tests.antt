-- ===== src/SpscQueue/Tests.antt =====
-- src/spsc_queue.rs on a ring of four slots.
use syndrome.Prelude.{ℕ, [], ◌∷◌, some, inl, ◌≡◌, refl, arith}
use syndrome.SpscQueue.{SpscRing, new, try_push, try_pop}
use syndrome.SpscQueue.Slots.{Holds}
use syndrome.SpscQueue.Fifo.{PushOutcome, PopOutcome, try_push_lem, try_pop_lem, new-Holds}
use syndrome.SpscQueue.Trace.{Reaches, start, pushed, popped, Accounts, Reaches-Accounts}

abbrev empty_ring : SpscRing ℕ
empty_ring = new 4

one_item : SpscRing ℕ
one_item = (try_push 4 empty_ring 5).0

one_item-Holds : Holds 4 one_item (5 ∷ [])
unfolding one_item
one_item-Holds =
    ((try_push_lem 2 (omega arith) empty_ring [] 5 (new-Holds 2 (omega arith))).1 (omega arith)).0

try_push_lem_example : PushOutcome 2 (omega arith) one_item (5 ∷ []) 6 (try_push 4 one_item 6)
try_push_lem_example = try_push_lem 2 (omega arith) one_item (5 ∷ []) 6 one_item-Holds

try_pop_lem_example : PopOutcome 2 (omega arith) one_item (5 ∷ []) (try_pop 4 one_item)
try_pop_lem_example = try_pop_lem 2 (omega arith) one_item (5 ∷ []) one_item-Holds

-- A push and a pop.
round_trip : Reaches 4 (try_pop 4 one_item).0 (5 ∷ []) (some 5 ∷ [])
unfolding one_item
round_trip =
    popped (some 5) (pushed 5 start accepted)
      (((try_pop_lem 2 (omega arith) one_item (5 ∷ []) one_item-Holds).1 5 [] refl).1)
  where
    accepted : (try_push 4 empty_ring 5).1 ≡ inl tt
    accepted =
        ((try_push_lem 2 (omega arith) empty_ring [] 5 (new-Holds 2 (omega arith))).1
          (omega arith)).1

Reaches-Accounts_example : Accounts 4 (try_pop 4 one_item).0 (5 ∷ []) (some 5 ∷ [])
Reaches-Accounts_example =
    Reaches-Accounts 2 (omega arith) (try_pop 4 one_item).0 (5 ∷ []) (some 5 ∷ []) round_trip
