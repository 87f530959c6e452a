-- ===== src/Base/Runs.antt =====
-- Outcomes of a piece of C code, and what the C library's allocator may answer.
use Prim.Native.Nat.{ℕ}
use mathlib.Core.Path.{◌≡◌, refl}
use mathlib.Core.Bool.{Bool}

-- An access outside an allocated block, a loop that has not ended, or a result.
pub data Run {ℓ} (Result : Type ℓ) : Type ℓ where
  fault : Run Result
  out_of_fuel : Run Result
  ok : Result → Run Result

module _ {ℓ κ} {First : Type ℓ} {Second : Type κ} where
  infixl 5 ◌>>=◌
  abbrev pub ◌>>=◌ : Run First → (First → Run Second) → Run Second
  fault >>= go_on = fault
  out_of_fuel >>= go_on = out_of_fuel
  ok result >>= go_on = go_on result

-- The errors that the code returns, each as the `int` `-errno`.
pub data Errno : Type 0 where
  enomem einval ebadslt enodata enotsup eintr : Errno

-- The `int` result of a fallible function: 0, or a negative error.
pub data Code : Type 0 where
  success : Code
  failure : Errno → Code

-- The answers of malloc, calloc and realloc during one call: whether a request for so many units
-- is granted, and what stands in the units that are not initialised.
pub record Allocator : Type 0 where
  pub grants : ℕ → Bool
  pub junk : ℕ → ℕ

-- The run ends with a result of which `Good` holds.
pub data Returns {ℓ κ} {Result : Type ℓ} (Good : Result → Type κ) : Run Result → Type (ℓ ⊔ κ) where
  returns : {result : Result} → Good result → Returns Good (ok result)

module _ {ℓ κ} {First : Type ℓ} {Good : First → Type κ} where
  pub Returns-bind {μ ν} :
      {Second : Type μ} {Fine : Second → Type ν} {run : Run First} {go_on : First → Run Second}
      → Returns Good run
      → ((first : First) → Good first → Returns Fine (go_on first))
      → Returns Fine (run >>= go_on)
  Returns-bind (returns good) then_good = then_good _ good

  pub Returns-mono {ν} :
      {Fine : First → Type ν} {run : Run First}
      → Returns Good run
      → ((first : First) → Good first → Fine first)
      → Returns Fine run
  Returns-mono (returns good) weaken = returns (weaken _ good)

  pub Returns-inv :
      {run : Run First} → Returns Good run → (first : First) × (run ≡ ok first) × Good first
  Returns-inv (returns good) = (_, refl, good)

  -- The result, together with the run that gives it.
  pub Returns-keep :
      {run : Run First} → Returns Good run → Returns (λ first. (run ≡ ok first) × Good first) run
  Returns-keep (returns good) = returns (refl, good)

  pub Returns-of_eq :
      {run : Run First} {first : First} → run ≡ ok first → Good first → Returns Good run
  Returns-of_eq same good = rw same (returns good)
