-- ===== src/SpscQueue/Slots.antt =====
-- Counters that wrap around and the slots that they name, for src/spsc_queue.rs.
use native.Mathlib.Nat.{mod-lt, mod-mod_of_dvd, dvd-mul_left, pow-le-pow_right}
use syndrome.Prelude.{
  ℕ, zero, suc, ◌+◌, ◌-◌, ◌*◌, ◌/◌, ◌%◌, ◌^◌, ◌≤◌, ◌<◌, List, [], ◌∷◌, ◌++◌, bit_and, length,
  get_or, get_elem?, some, ◌⊎◌, inl, inr, ◌≡◌, ◌≢◌, refl, sym, subst, ap, ◌∙◌, arith,
}
use Prim.Native.Nat.{◌∣◌}
use mathlib.Core.Option.{some-injective}
use syndrome.Word.Mask.{and-mask}
use syndrome.Word.Xor.{pow_pos, pow_add}
use syndrome.SpscQueue.{word, wrapping_sub, SpscRing}

-- The ring of `2 ^ e` slots holds the elements `q`, the oldest first: `base` is the number of the
-- oldest, not wrapped around.
pub record Holds {A : Type 0} (n : ℕ) (ring : SpscRing A) (q : List A) : Type 0 where
  pub base : ℕ
  pub sized : length ring.buffer ≡ n
  pub masked : ring.mask ≡ n - 1
  pub tail_is : ring.tail ≡ base % word
  pub head_is : ring.head ≡ (base + length q) % word
  pub fits : length q ≤ n
  pub slots :
      (i : ℕ) (x : A)
      → get_elem? q i ≡ some x
      → get_elem? ring.buffer ((base + i) % n) ≡ some (some x)

-- Fewer than `n` apart, two numbers have different remainders.
pub mod-ne : (b i l n : ℕ) → i < l → l < i + n → (b + l) % n ≢ (b + i) % n
mod-ne b i l n h k e =
    different n ((b + l) / n) ((b + i) / n) (l - i) (grind arith) (omega arith) (omega arith)
  where
    different : (n q r d : ℕ) → n * q ≡ n * r + d → 0 < d → d < n → ⊥
    different n zero r d e p h = omega arith
    different n (suc q) zero d e p h = omega arith
    different n (suc q) (suc r) d e p h = different n q r d (omega arith) p h

pub occupied : (b l : ℕ) → l < word → wrapping_sub ((b + l) % word) (b % word) ≡ l
occupied b l h = omega arith

module _ (e : ℕ) (small : e < 64) where
  abbrev n : ℕ
  n = 2 ^ e

  pub n-lt : n < word
  n-lt = omega (arith, pow-le-pow_right {n = 2} (omega arith) {i = e} {j = 63} (omega arith))

  pub slot_index : (a : ℕ) → bit_and (a % word) (n - 1) ≡ a % n
  slot_index a =
      and-mask e (a % word)
      ∙ mod-mod_of_dvd (2 ^ e) {b = word} a
          (subst (λ (w : ℕ). 2 ^ e ∣ w) split (dvd-mul_left (2 ^ e) (2 ^ (64 - e))))
    where
      split : 2 ^ (64 - e) * 2 ^ e ≡ word
      split =
          sym (pow_add (64 - e) e) ∙ ap (λ (k : ℕ). 2 ^ k) {x = 64 - e + e} {y = 64} (omega arith)

  pub index-lt : (a : ℕ) → a % n < n
  index-lt a = mod-lt a (pow_pos e)

get_elem?-lt {ℓ} : {A : Type ℓ} (q : List A) (i : ℕ) (x : A) → get_elem? q i ≡ some x → i < length q
get_elem?-lt [] i x h = cc
get_elem?-lt (y ∷ q) zero x h = omega arith
get_elem?-lt (y ∷ q) (suc i) x h = omega (arith, get_elem?-lt q i x h)

pub snoc-cases {ℓ} :
    {A : Type ℓ} (q : List A) (item : A) (i : ℕ) (x : A)
    → get_elem? (q ++ item ∷ []) i ≡ some x
    → ((get_elem? q i ≡ some x) × (i < length q)) ⊎ ((i ≡ length q) × (item ≡ x))
snoc-cases [] item zero x h = inr (refl, some-injective item x h)
snoc-cases [] item (suc i) x h = cc
snoc-cases (y ∷ q) item zero x h = inl (h, omega arith)
snoc-cases (y ∷ q) item (suc i) x h = elim (snoc-cases q item i x h) [
  | inl (k, l) ↦ inl (k, omega (arith, l))
  | inr (k, l) ↦ inr (ap suc k, l)
]

pub get_or_of_get_elem? {ℓ} :
    {A : Type ℓ} (xs : List A) (i : ℕ) (x d : A) → get_elem? xs i ≡ some x → get_or xs i d ≡ x
get_or_of_get_elem? [] i x d h = cc
get_or_of_get_elem? (y ∷ xs) zero x d h = some-injective y x h
get_or_of_get_elem? (y ∷ xs) (suc i) x d h = get_or_of_get_elem? xs i x d h
