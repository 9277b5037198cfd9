-- ===== src/SpscQueue.antt =====
-- src/spsc_queue.rs: the single-producer single-consumer ring. A slot is an `Option`, `none` while it
-- is uninitialised. The counters are `usize` words of 64 bits that wrap around. One call is one step
-- here: the atomic orderings inside a call are not modelled.
pub mod Slots
pub mod Fifo
pub mod Trace
mod Tests
use syndrome.Prelude.{
  ℕ, zero, suc, ◌+◌, ◌-◌, ◌%◌, ◌^◌, min, Bool, List, [], ◌∷◌, ◌++◌, map, bit_and, ◌==◌, length,
  get_or, set, take, drop, replicate, Option, none, some, if◌then◌else◌, ◌⊎◌, inl, inr,
}

abbrev pub word : ℕ
word = 2 ^ 64

abbrev pub wrapping_add : ℕ → ℕ → ℕ
wrapping_add a b = (a + b) % word

abbrev pub wrapping_sub : ℕ → ℕ → ℕ
wrapping_sub a b = (a + (word - b)) % word

pub record SpscRing (A : Type 0) : Type 0 where
  pub buffer : List (Option A)
  pub head : ℕ
  pub tail : ℕ
  pub mask : ℕ

-- `N`, the capacity, is a parameter; `new` asserts that it is a power of two.
module _ {A : Type 0} (n : ℕ) where
  unfoldable pub new : SpscRing A
  new = record { buffer = replicate n none; head = 0; tail = 0; mask = n - 1 }

  pub is_empty : SpscRing A → Bool
  is_empty ring = ring.head == ring.tail

  pub is_full : SpscRing A → Bool
  is_full ring = wrapping_sub ring.head ring.tail == n

  -- `inl tt` is `Ok(())`, `inr item` is `Err(item)`.
  unfoldable pub try_push : SpscRing A → A → SpscRing A × (Unit {0} ⊎ A)
  try_push ring item =
      let idx = bit_and ring.head ring.mask in
      let pushed : SpscRing A = record {
        buffer = set ring.buffer idx (some item);
        head = wrapping_add ring.head 1;
        tail = ring.tail;
        mask = ring.mask;
      } in
      if wrapping_sub ring.head ring.tail == n then (ring, inr item) else (pushed, inl tt)

  -- The popped slot as it stands: `some none` would be a read of an uninitialised slot.
  unfoldable pub try_pop : SpscRing A → SpscRing A × Option (Option A)
  try_pop ring =
      let idx = bit_and ring.tail ring.mask in
      let popped : SpscRing A = record {
        buffer = ring.buffer;
        head = ring.head;
        tail = wrapping_add ring.tail 1;
        mask = ring.mask;
      } in
      if ring.head == ring.tail then (ring, none) else (popped, some (get_or ring.buffer idx none))

  -- A loop that writes consecutive slots.
  pub write_run : List (Option A) → ℕ → List A → List (Option A)
  write_run buffer i [] = buffer
  write_run buffer i (x ∷ items) = write_run (set buffer i (some x)) (i + 1) items

  pub push_slice : SpscRing A → List A → SpscRing A × ℕ
  push_slice ring items =
      let free = n - wrapping_sub ring.head ring.tail in
      let count = min free (length items) in
      let start = bit_and ring.head ring.mask in
      let first = min count (n - start) in
      let buffer = write_run ring.buffer start (take first items) in
      let buffer = write_run buffer 0 (take (count - first) (drop first items)) in
      let pushed : SpscRing A = record {
        buffer = buffer;
        head = wrapping_add ring.head count;
        tail = ring.tail;
        mask = ring.mask;
      } in
      if count == 0 then (ring, 0) else (pushed, count)

  -- A loop that reads consecutive slots.
  pub read_run : List (Option A) → ℕ → ℕ → List (Option A)
  read_run buffer i zero = []
  read_run buffer i (suc count) = get_or buffer i none ∷ read_run buffer (i + 1) count

  -- The new ring, the slots of `out` and the count.
  pub pop_slice : SpscRing A → List A → SpscRing A × List (Option A) × ℕ
  pop_slice ring out =
      let available = wrapping_sub ring.head ring.tail in
      let count = min available (length out) in
      let start = bit_and ring.tail ring.mask in
      let first = min count (n - start) in
      let moved = read_run ring.buffer start first ++ read_run ring.buffer 0 (count - first) in
      let popped : SpscRing A = record {
        buffer = ring.buffer;
        head = ring.head;
        tail = wrapping_add ring.tail count;
        mask = ring.mask;
      } in
      if count == 0
      then (ring, map some out, 0)
      else (popped, moved ++ drop count (map some out), count)
