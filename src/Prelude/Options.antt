-- ===== src/Prelude/Options.antt =====
-- The methods of Rust's `Option` that the code calls.
use mathlib.Core.Bool.{Bool, false}
use mathlib.Core.Option.{Option, none, some}

-- `or` and `or_else`.
infixr 30 ◌or_else◌
abbrev pub ◌or_else◌ {ℓ} : {A : Type ℓ} → Option A → Option A → Option A
none or_else fallback = fallback
some a or_else fallback = some a

abbrev pub unwrap_or {ℓ} : {A : Type ℓ} → A → Option A → A
unwrap_or default none = default
unwrap_or default (some a) = a

abbrev pub is_some_and {ℓ} : {A : Type ℓ} → Option A → (A → Bool) → Bool
is_some_and none p = false
is_some_and (some a) p = p a
