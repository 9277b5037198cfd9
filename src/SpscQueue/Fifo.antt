-- ===== src/SpscQueue/Fifo.antt =====
-- The ring is a bounded first-in first-out queue.
use syndrome.Prelude.{
  ℕ, suc, ◌+◌, ◌%◌, ◌^◌, ◌<◌, Bool, true, false, List, [], ◌∷◌, ◌++◌, bit_and, ◌==◌, length,
  length-append, length-set, get_or, get_elem?, get_elem?-set_self, get_elem?-set_ne, set,
  length-replicate, Option, none, some, if◌then◌else◌, ◌⊎◌, inl, inr, ◌≡◌, refl, sym, ap, ap₂, ◌∙◌,
  arith,
}
use syndrome.SpscQueue.{wrapping_add, wrapping_sub, SpscRing, new, try_push, try_pop}
use syndrome.SpscQueue.Slots.{
  Holds, mod-ne, occupied, n-lt, slot_index, index-lt, snoc-cases, get_or_of_get_elem?,
}

module _ {A : Type 0} (e : ℕ) (small : e < 64) where
  occ :
      (ring : SpscRing A) (q : List A)
      → Holds (2 ^ e) ring q
      → wrapping_sub ring.head ring.tail ≡ length q
  occ ring q v =
      ap₂ wrapping_sub v.head_is v.tail_is
      ∙ occupied v.base (length q) (omega (arith, v.fits, n-lt e small))

  abbrev pushed : SpscRing A → A → SpscRing A
  pushed ring item = record {
    buffer = set ring.buffer (bit_and ring.head ring.mask) (some item);
    head = wrapping_add ring.head 1;
    tail = ring.tail;
    mask = ring.mask;
  }

  pushed-Holds :
      (ring : SpscRing A) (q : List A) (item : A)
      → Holds (2 ^ e) ring q
      → length q < 2 ^ e
      → Holds (2 ^ e) (pushed ring item) (q ++ item ∷ [])
  pushed-Holds ring q item v room = record {
    base = v.base;
    sized = length-set ring.buffer _ (some item) ∙ v.sized;
    masked = v.masked;
    tail_is = v.tail_is;
    head_is = omega (arith, v.head_is, length-append q (item ∷ []));
    fits = omega (arith, room, length-append q (item ∷ []));
    slots = λ i x h. elim (snoc-cases q item i x h) [
      | inl (k, l) ↦
          get_elem?-set_ne ring.buffer (some item)
            (λ same. mod-ne v.base i (length q) (2 ^ e) l (omega (arith, room)) (sym at ∙ same))
          ∙ v.slots i x k
      | inr (k, l) ↦
          ap₂ (λ (a b : ℕ). get_elem? (set ring.buffer a (some item)) b) at
            (ap (λ (t : ℕ). (v.base + t) % 2 ^ e) k)
          ∙ get_elem?-set_self ring.buffer _ (some item)
              (omega (arith, index-lt e small (v.base + length q), v.sized))
          ∙ ap (λ (y : A). some (some y)) l
    ];
  }
    where
      at : bit_and ring.head ring.mask ≡ (v.base + length q) % 2 ^ e
      at = ap₂ bit_and v.head_is v.masked ∙ slot_index e small (v.base + length q)

  -- What a push on the elements `q` gives.
  abbrev pub PushOutcome : SpscRing A → List A → A → SpscRing A × (Unit {0} ⊎ A) → Type 0
  PushOutcome ring q item outcome =
      ((length q ≡ 2 ^ e) → outcome ≡ (ring, inr item))
      × (length q < 2 ^ e → Holds (2 ^ e) outcome.0 (q ++ item ∷ []) × (outcome.1 ≡ inl tt))

  -- On a ring of 2 ^ e slots, e below 64, that holds a queue, `try_push` changes nothing and hands
  -- the item back if the queue is full, and otherwise appends the item, also when a counter wraps
  -- around.
  pub try_push_lem :
      (ring : SpscRing A) (q : List A) (item : A)
      → Holds (2 ^ e) ring q
      → PushOutcome ring q item (try_push (2 ^ e) ring item)
  unfolding try_push
  try_push_lem ring q item v = go (wrapping_sub ring.head ring.tail == 2 ^ e) refl
    where
      go :
          (b : Bool)
          → (wrapping_sub ring.head ring.tail == 2 ^ e) ≡ b
          → PushOutcome ring q item (
              if◌then◌else◌ {A = SpscRing A × (Unit {0} ⊎ A)} b
                (ring, inr item)
                (pushed ring item, inl tt))
      go true z = (λ _. refl, λ room. absurd (ground (arith, occ ring q v)))
      go false z = (
        λ full. absurd (ground (arith, occ ring q v)),
        λ room. (pushed-Holds ring q item v room, refl),
      )

  abbrev popped : SpscRing A → SpscRing A
  popped ring = record {
    buffer = ring.buffer;
    head = ring.head;
    tail = wrapping_add ring.tail 1;
    mask = ring.mask;
  }

  -- What a pop of the elements `q` gives.
  abbrev pub PopOutcome : SpscRing A → List A → SpscRing A × Option (Option A) → Type 0
  PopOutcome ring q outcome =
      (q ≡ [] → outcome ≡ (ring, none))
      × ((x : A) (rest : List A)
          → q ≡ x ∷ rest
          → Holds (2 ^ e) outcome.0 rest × (outcome.1 ≡ some (some x)))

  -- On a ring of 2 ^ e slots, e below 64, that holds a queue, `try_pop` changes nothing and
  -- returns nothing if the queue is empty, and otherwise removes and returns the oldest element,
  -- never an uninitialised slot.
  pub try_pop_lem :
      (ring : SpscRing A) (q : List A)
      → Holds (2 ^ e) ring q
      → PopOutcome ring q (try_pop (2 ^ e) ring)
  unfolding try_pop
  try_pop_lem ring q v = go (ring.head == ring.tail) refl
    where
      count : (ring.head == ring.tail) ≡ (length q == 0)
      count = ground (arith, v.head_is, v.tail_is, v.fits, n-lt e small)

      at : bit_and ring.tail ring.mask ≡ v.base % 2 ^ e
      at = ap₂ bit_and v.tail_is v.masked ∙ slot_index e small v.base

      taken :
          (x : A) (rest : List A)
          → q ≡ x ∷ rest
          → Holds (2 ^ e) (popped ring) rest
            × (get_or ring.buffer (bit_and ring.tail ring.mask) none ≡ some x)
      taken x rest h = (
        record {
          base = suc v.base;
          sized = v.sized;
          masked = v.masked;
          tail_is = omega (arith, v.tail_is);
          head_is = omega (arith, v.head_is, ap length h);
          fits = omega (arith, v.fits, ap length h);
          slots = λ i y k.
              ap (λ (t : ℕ). get_elem? ring.buffer (t % 2 ^ e)) {x = suc v.base + i}
                {y = v.base + suc i} (omega arith)
              ∙ v.slots (suc i) y (ap (λ (l : List A). get_elem? l (suc i)) h ∙ k);
        },
        get_or_of_get_elem? ring.buffer _ (some x) none (
            ap (get_elem? ring.buffer)
              (at ∙ ap (λ (t : ℕ). t % 2 ^ e) {x = v.base} {y = v.base + 0} (omega arith))
            ∙ v.slots 0 x (ap (λ (l : List A). get_elem? l 0) h)),
      )

      go :
          (b : Bool)
          → (ring.head == ring.tail) ≡ b
          → PopOutcome ring q (
              if◌then◌else◌ {A = SpscRing A × Option (Option A)} b
                (ring, none)
                (popped ring, some (get_or ring.buffer (bit_and ring.tail ring.mask) none)))
      go true z = (λ _. refl, λ x rest h. absurd (ground (arith, sym count ∙ z, ap length h)))
      go false z = (
        λ h. absurd (ground (arith, sym count ∙ z, ap length h)),
        λ x rest h. let (kept, read) = taken x rest h in (kept, ap some read),
      )

  pub new-Holds : Holds (2 ^ e) (new {A = A} (2 ^ e)) []
  unfolding new
  new-Holds = record {
    base = 0;
    sized = length-replicate (2 ^ e) none;
    masked = refl;
    tail_is = refl;
    head_is = refl;
    fits = omega arith;
    slots = λ i x h. cc;
  }
