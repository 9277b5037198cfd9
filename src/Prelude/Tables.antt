-- ===== src/Prelude/Tables.antt =====
-- Lists given by a function of the index.
use Prim.Native.Nat.{ℕ, zero, suc, ◌+◌, ◌*◌, ◌≤◌, ◌<◌}
use mathlib.Core.Path.{◌≡◌, refl, ap, ap₂, sym, ◌∙◌}
use mathlib.Core.List.{List, [], ◌∷◌, ◌++◌, map}
use native.Mathlib.Omega.{arith}
use syndrome.Prelude.Lists.{length, get_or}
use syndrome.Prelude.Chunks.{concat}

module _ {ℓ} {A : Type ℓ} where
  -- `f` at `n` indices from `i` on.
  unfoldable pub tabulate_from : ℕ → ℕ → (ℕ → A) → List A
  tabulate_from i zero f = []
  tabulate_from i (suc n) f = f i ∷ tabulate_from (i + 1) n f

  unfoldable pub tabulate : ℕ → (ℕ → A) → List A
  unfolding tabulate_from
  tabulate n f = tabulate_from 0 n f

  get_or-tabulate_from :
      (i n : ℕ) (f : ℕ → A) (j : ℕ) (d : A) → j < n → get_or (tabulate_from i n f) j d ≡ f (i + j)
  unfolding tabulate_from
  get_or-tabulate_from i zero f j d h = absurd (omega arith)
  get_or-tabulate_from i (suc n) f zero d h = ap f (omega arith)
  get_or-tabulate_from i (suc n) f (suc j) d h =
      get_or-tabulate_from (i + 1) n f j d (omega arith) ∙ ap f (omega arith)

  pub get_or-tabulate :
      (n : ℕ) (f : ℕ → A) (j : ℕ) (d : A) → j < n → get_or (tabulate n f) j d ≡ f j
  unfolding tabulate
  get_or-tabulate n f j d h = get_or-tabulate_from 0 n f j d h ∙ ap f (omega arith)

module _ {ℓ} {A : Type ℓ} where
  pub length-tabulate_from : (i n : ℕ) (f : ℕ → A) → length (tabulate_from i n f) ≡ n
  unfolding tabulate_from
  length-tabulate_from i zero f = refl
  length-tabulate_from i (suc n) f = ap suc (length-tabulate_from (i + 1) n f)

  pub length-tabulate : (n : ℕ) (f : ℕ → A) → length (tabulate n f) ≡ n
  unfolding tabulate
  length-tabulate n f = length-tabulate_from 0 n f

  -- Tables of functions that agree below their length are the same.
  tabulate_from_ext :
      (i n : ℕ) (f g : ℕ → A)
      → ((j : ℕ) → i ≤ j → j < i + n → f j ≡ g j)
      → tabulate_from i n f ≡ tabulate_from i n g
  unfolding tabulate_from
  tabulate_from_ext i zero f g h = refl
  tabulate_from_ext i (suc n) f g h =
      ap₂ ◌∷◌ (h i (omega arith) (omega arith))
        (tabulate_from_ext (i + 1) n f g (λ j p q. h j (omega arith) (omega arith)))

  pub tabulate_ext :
      (n : ℕ) (f g : ℕ → A) → ((j : ℕ) → j < n → f j ≡ g j) → tabulate n f ≡ tabulate n g
  unfolding tabulate
  tabulate_ext n f g h = tabulate_from_ext 0 n f g (λ j p q. h j (omega arith))

  pub tabulate_from_shift :
      (i k n : ℕ) (f : ℕ → A) → tabulate_from (i + k) n f ≡ tabulate_from k n (λ j. f (i + j))
  unfolding tabulate_from
  tabulate_from_shift i k zero f = refl
  tabulate_from_shift i k (suc n) f = ap (◌∷◌ (f (i + k))) (
      ap (λ (m : ℕ). tabulate_from m n f) {x = i + k + 1} {y = i + (k + 1)} (omega arith)
      ∙ tabulate_from_shift i (k + 1) n f)

  pub tabulate_from_add :
      (i m n : ℕ) (f : ℕ → A)
      → tabulate_from i (m + n) f ≡ tabulate_from i m f ++ tabulate_from (i + m) n f
  unfolding tabulate_from
  tabulate_from_add i zero n f =
      ap₂ (λ (a b : ℕ). tabulate_from a b f) {x = i} {y = i + 0} {u = 0 + n} {v = n} (omega arith)
        (omega arith)
  tabulate_from_add i (suc m) n f =
      ap (λ (k : ℕ). tabulate_from i k f) {x = suc m + n} {y = suc (m + n)} (omega arith)
      ∙ ap (◌∷◌ (f i)) (
          tabulate_from_add (i + 1) m n f
          ∙ ap (λ (k : ℕ). tabulate_from (i + 1) m f ++ tabulate_from k n f) {x = i + 1 + m}
              {y = i + suc m} (omega arith))

pub map-tabulate_from {ℓ κ} :
    {A : Type ℓ} {B : Type κ} (h : A → B) (i n : ℕ) (f : ℕ → A)
    → map h (tabulate_from i n f) ≡ tabulate_from i n (λ j. h (f j))
unfolding tabulate_from
map-tabulate_from h i zero f = refl
map-tabulate_from h i (suc n) f = ap (◌∷◌ (h (f i))) (map-tabulate_from h (i + 1) n f)

module _ {ℓ} {A : Type ℓ} where
  concat_from :
      (c q r : ℕ) (g : ℕ → A)
      → concat (tabulate_from c q (λ col. tabulate r (λ row. g (col * r + row))))
        ≡ tabulate_from (c * r) (q * r) g
  unfolding tabulate tabulate_from
  concat_from c zero r g =
      ap (λ (n : ℕ). tabulate_from (c * r) n g) {x = 0} {y = 0 * r} (omega arith)
  concat_from c (suc q) r g =
      ap₂ ◌++◌ row (concat_from (c + 1) q r g)
      ∙ ap (λ (k : ℕ). tabulate_from (c * r) r g ++ tabulate_from k (q * r) g) {x = (c + 1) * r}
          {y = c * r + r} (omega arith)
      ∙ sym (tabulate_from_add (c * r) r (q * r) g)
      ∙ ap (λ (n : ℕ). tabulate_from (c * r) n g) {x = r + q * r} {y = suc q * r} (omega arith)
    where
      row : tabulate_from 0 r (λ i. g (c * r + i)) ≡ tabulate_from (c * r) r g
      row =
          sym (tabulate_from_shift (c * r) 0 r g)
          ∙ ap (λ (k : ℕ). tabulate_from k r g) {x = c * r + 0} {y = c * r} (omega arith)

  -- Rows of one length, one after the other, are one table.
  pub concat-tabulate :
      (q r : ℕ) (g : ℕ → A)
      → concat (tabulate q (λ col. tabulate r (λ row. g (col * r + row)))) ≡ tabulate (q * r) g
  unfolding tabulate
  concat-tabulate q r g =
      concat_from 0 q r g
      ∙ ap (λ (k : ℕ). tabulate_from k (q * r) g) {x = 0 * r} {y = 0} (omega arith)
