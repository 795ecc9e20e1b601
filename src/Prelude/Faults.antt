-- ===== src/Prelude/Faults.antt =====
-- A run of C code that may meet undefined behaviour: an access out of bounds, a null or dangling
-- pointer. `fault` is that outcome.
use mathlib.Core.Path.{◌≡◌}

pub data Run {ℓ} (T : Type ℓ) : Type ℓ where
  fault : Run T
  ok : (result : T) → Run T

-- The rest of a run is skipped after a fault.
abbrev pub ◌>>=◌ {ℓ κ} : {T : Type ℓ} {U : Type κ} (first : Run T) (rest : T → Run U) → Run U
fault >>= rest = fault
ok result >>= rest = rest result

infixl 5 ◌>>=◌
-- The run meets no undefined behaviour, and its result satisfies `Good`.
abbrev pub Returns {ℓ κ} : {T : Type ℓ} → Run T → (Good : T → Type κ) → Type (ℓ ⊔ κ)
Returns {T} run Good = (result : T) × (run ≡ ok result) × Good result
