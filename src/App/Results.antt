-- ===== src/App/Results.antt =====
-- `do` blocks of functions that may throw and have no other effect.
use thelab_ms.App.{Result, ok, err}

infixl 5 ◌>>=◌
abbrev pub ◌>>=◌ {ℓ κ} : {A : Type ℓ} {B : Type κ} → Result A → (A → Result B) → Result B
ok a >>= f = f a
err e >>= f = err e
