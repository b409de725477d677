-- ===== src/Base/Options.antt =====
-- Chains of steps that may fail, as `Option`, and arrays that are read and written within their bounds.
use bbview.Base.{ℕ, List, Option, none, some, ltb, if◌then◌else◌, length, set}

infixl 5 ◌>>=◌
abbrev pub ◌>>=◌ {ℓ κ} : {A : Type ℓ} {B : Type κ} → Option A → (A → Option B) → Option B
none >>= f = none
some a >>= f = f a

-- A write out of bounds fails.
abbrev pub store {ℓ} : {A : Type ℓ} → List A → ℕ → A → Option (List A)
store xs i v = if ltb i (length xs) then some (set xs i v) else none
