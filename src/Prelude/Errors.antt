-- ===== src/Prelude/Errors.antt =====
-- src/error.rs: the crate's one error type, and the results that its functions return.
use Prim.Native.Nat.{ℕ}
use Prim.Native.String.{String}
use mathlib.Core.Path.{◌≡◌}
use mathlib.Core.Bool.{Bool}
use mathlib.Core.List.{List, [], ◌∷◌}
use syndrome.Prelude.Tests.{if◌then◌else◌}

pub data FecError : Type 0 where
  invalid_param : String → FecError
  crc_mismatch : FecError
  decoder_not_converged : FecError
  buffer_too_small : ℕ → ℕ → FecError

-- `Result<A, FecError>`
pub data Result {ℓ} (A : Type ℓ) : Type ℓ where
  ok : A → Result A
  err : FecError → Result A

-- `match r { Ok(a) => on_ok(a), Err(e) => on_err(e) }`
abbrev pub match_result {ℓ κ} : {A : Type ℓ} {C : Type κ} → Result A → (A → C) → (FecError → C) → C
match_result (ok a) on_ok on_err = on_ok a
match_result (err e) on_ok on_err = on_err e

-- The operator `?` with what follows it: an error is returned at once.
infixl 5 ◌>>=◌ ◌>>◌
abbrev pub ◌>>=◌ {ℓ κ} : {A : Type ℓ} {C : Type κ} → Result A → (A → Result C) → Result C
r >>= next = match_result r next err

abbrev pub ◌>>◌ {κ} : {C : Type κ} → Result (Unit {0}) → Result C → Result C
check >> next = match_result check (λ passed. next) err

-- `if bad { return Err(e); }`
abbrev pub fail_if : Bool → FecError → Result (Unit {0})
fail_if bad e = if bad then err e else ok tt

-- A function run on each element in turn, up to the first error.
abbrev pub map_result {ℓ κ} : {A : Type ℓ} {B : Type κ} → (A → Result B) → List A → Result (List B)
map_result f [] = ok []
map_result f (x ∷ xs) = f x >>= λ y. map_result f xs >>= λ ys. ok (y ∷ ys)

pub ok-injective : {A : Type 0} (x y : A) → ◌≡◌ {A = Result A} (ok x) (ok y) → x ≡ y
ok-injective x y h = cc
