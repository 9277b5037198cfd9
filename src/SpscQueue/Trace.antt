-- ===== src/SpscQueue/Trace.antt =====
-- Every interleaving of calls: what the consumer got is what the producer sent, in order.
use mathlib.Core.Option.{some-injective}
use syndrome.Prelude.{
  ℕ, ◌^◌, ◌<◌, dec_lt, List, [], ◌∷◌, ◌++◌, map, append_assoc, length, Option, none, some, ◌⊎◌, inl,
  inr, ◌≡◌, refl, sym, subst, ap, ◌∙◌, arith,
}
use syndrome.SpscQueue.{SpscRing, new, try_push, try_pop}
use syndrome.SpscQueue.Slots.{Holds}
use syndrome.SpscQueue.Fifo.{try_push_lem, try_pop_lem, new-Holds}

module _ {A : Type 0} where
  -- The rings that calls of the two sides, in any order, lead to, with the items that were accepted
  -- and the slots that were handed out so far.
  pub data Reaches (n : ℕ) : SpscRing A → List A → List (Option A) → Type 0 where
    start : Reaches n (new n) [] []
    pushed :
        {ring : SpscRing A} {sent : List A} {got : List (Option A)} (item : A)
        → Reaches n ring sent got
        → (try_push n ring item).1 ≡ inl tt
        → Reaches n (try_push n ring item).0 (sent ++ item ∷ []) got
    refused :
        {ring : SpscRing A} {sent : List A} {got : List (Option A)} (item : A)
        → Reaches n ring sent got
        → (try_push n ring item).1 ≡ inr item
        → Reaches n (try_push n ring item).0 sent got
    popped :
        {ring : SpscRing A} {sent : List A} {got : List (Option A)} (slot : Option A)
        → Reaches n ring sent got
        → (try_pop n ring).1 ≡ some slot
        → Reaches n (try_pop n ring).0 sent (got ++ slot ∷ [])
    nothing :
        {ring : SpscRing A} {sent : List A} {got : List (Option A)}
        → Reaches n ring sent got
        → (try_pop n ring).1 ≡ none
        → Reaches n (try_pop n ring).0 sent got

  -- The elements in the ring are those sent and not yet handed out.
  abbrev pub Accounts : ℕ → SpscRing A → List A → List (Option A) → Type 0
  Accounts n ring sent got = (q : List A) × Holds n ring q × (map some sent ≡ got ++ map some q)

inl-inr : {A : Type 0} (item : A) → ◌≡◌ {A = Unit {0} ⊎ A} (inl tt) (inr item) → ⊥
inl-inr item h = cc

some-none : {A : Type 0} (a : A) → some a ≡ none → ⊥
some-none a h = cc

map-snoc :
    {A B : Type 0} (f : A → B) (xs : List A) (x : A) → map f (xs ++ x ∷ []) ≡ map f xs ++ f x ∷ []
map-snoc f [] x = refl
map-snoc f (y ∷ xs) x = ap (◌∷◌ (f y)) (map-snoc f xs x)

module _ {A : Type 0} (e : ℕ) (small : e < 64) where
  push-Accounts :
      (ring : SpscRing A) (sent : List A) (got : List (Option A)) (item : A)
      → Accounts (2 ^ e) ring sent got
      → ((try_push (2 ^ e) ring item).1 ≡ inl tt
          → Accounts (2 ^ e) (try_push (2 ^ e) ring item).0 (sent ++ item ∷ []) got)
        × ((try_push (2 ^ e) ring item).1 ≡ inr item
            → Accounts (2 ^ e) (try_push (2 ^ e) ring item).0 sent got)
  push-Accounts ring sent got item (q, v, h) =
      let (full, room) = try_push_lem e small ring q item v in
      elim (dec_lt (length q) (2 ^ e)) [
        | yes free ↦
            let (kept, accepted) = room free in
            (
              λ _. (
                q ++ item ∷ [],
                kept,
                map-snoc some sent item
                    ∙ ap (λ l. l ++ some item ∷ []) h
                    ∙ append_assoc got (map some q) (some item ∷ [])
                    ∙ ap (λ l. got ++ l) (sym (map-snoc some q item)),
              ),
              λ r. absurd (inl-inr item (sym accepted ∙ r)),
            )
        | no taken ↦
            let same = full (omega (arith, taken, v.fits)) in
            (
              λ r. absurd (inl-inr item (sym r ∙ ap (λ o. o.1) same)),
              λ _. (q, subst (λ t. Holds (2 ^ e) t q) (sym (ap (λ o. o.0) same)) v, h),
            )
      ]

  pop-Accounts :
      (ring : SpscRing A) (sent : List A) (got : List (Option A))
      → Accounts (2 ^ e) ring sent got
      → ((slot : Option A)
          → (try_pop (2 ^ e) ring).1 ≡ some slot
          → Accounts (2 ^ e) (try_pop (2 ^ e) ring).0 sent (got ++ slot ∷ []))
        × ((try_pop (2 ^ e) ring).1 ≡ none → Accounts (2 ^ e) (try_pop (2 ^ e) ring).0 sent got)
  pop-Accounts ring sent got ([], v, h) =
      let same = (try_pop_lem e small ring [] v).0 refl in
      (
        λ slot r. absurd (some-none slot (sym r ∙ ap (λ o. o.1) same)),
        λ _. ([], subst (λ t. Holds (2 ^ e) t []) (sym (ap (λ o. o.0) same)) v, h),
      )
  pop-Accounts ring sent got (x ∷ q, v, h) =
      let (kept, read) = (try_pop_lem e small ring (x ∷ q) v).1 x q refl in
      (
        λ slot r. (
          q,
          kept,
          h
              ∙ sym (
                  append_assoc got (slot ∷ []) (map some q)
                  ∙ ap (λ s. got ++ s ∷ map some q) (some-injective slot (some x) (sym r ∙ read))),
        ),
        λ r. absurd (some-none (some x) (sym read ∙ r)),
      )

  -- After any sequence of single-item calls on a new ring of 2 ^ e slots, e below 64, the slots
  -- handed out and then the elements still in the ring are exactly the items accepted, in order.
  pub Reaches-Accounts :
      (ring : SpscRing A) (sent : List A) (got : List (Option A))
      → Reaches (2 ^ e) ring sent got
      → Accounts (2 ^ e) ring sent got
  Reaches-Accounts _ _ _ start = ([], new-Holds e small, refl)
  Reaches-Accounts _ _ _ (pushed item r h) =
      (push-Accounts _ _ _ item (Reaches-Accounts _ _ _ r)).0 h
  Reaches-Accounts _ _ _ (refused item r h) =
      (push-Accounts _ _ _ item (Reaches-Accounts _ _ _ r)).1 h
  Reaches-Accounts _ _ _ (popped slot r h) =
      (pop-Accounts _ _ _ (Reaches-Accounts _ _ _ r)).0 slot h
  Reaches-Accounts _ _ _ (nothing r h) = (pop-Accounts _ _ _ (Reaches-Accounts _ _ _ r)).1 h
