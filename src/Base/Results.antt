-- ===== src/Base/Results.antt =====
-- A step that may throw: what it returns, or what it throws.
use mathlib.Core.Bool.{Bool, true, false}

pub data Result {ℓ κ} (E : Type κ) (A : Type ℓ) : Type (ℓ ⊔ κ) where
  ok : A → Result E A
  err : E → Result E A

-- The guard `if (!holds) throw new Error(...)`.
abbrev pub require {κ} : {E : Type κ} → Bool → E → Result E (Unit {0})
require false refusal = err refusal
require true refusal = ok tt

-- A step that needs the value of an earlier one.
abbrev pub and_then {ℓ κ τ} :
    {E : Type κ} {A : Type ℓ} {B : Type τ} → Result E A → (A → Result E B) → Result E B
and_then (ok a) next = next a
and_then (err e) next = err e
