-- ===== src/Sql.antt =====
-- SQL's three-valued conditions: `none` is NULL.
use thelab_ms.Base.{Bool, true, false, Option, none, some, List, [], ◌∷◌, Comparable, ◌==◌}

abbrev pub Cond : Type 0
Cond = Option Bool

unfoldable pub and3 : Cond → Cond → Cond
and3 (some false) q = some false
and3 (some true) q = q
and3 none (some false) = some false
and3 none _ = none

unfoldable pub or3 : Cond → Cond → Cond
or3 (some true) q = some true
or3 (some false) q = q
or3 none (some true) = some true
or3 none _ = none

module _ {ℓ} {A : Type ℓ} ⦃e : Comparable A⦄ where
  -- column = value
  unfoldable pub eq3 : Option A → A → Cond
  eq3 none b = none
  eq3 (some a) b = some (a == b)

  -- column IN (values)
  unfoldable pub in3 : Option A → List A → Cond
  unfolding eq3 or3
  in3 a [] = some false
  in3 a (b ∷ bs) = or3 (eq3 a b) (in3 a bs)

-- column IS NOT NULL
unfoldable pub is_not_null {ℓ} : {A : Type ℓ} → Option A → Cond
is_not_null none = some false
is_not_null (some a) = some true

-- A WHERE clause keeps a row only if its condition is true; so does COALESCE(condition, 0).
unfoldable pub holds : Cond → Bool
holds (some b) = b
holds none = false
