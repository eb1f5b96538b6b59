-- ===== src/Database/Tables.antt =====
-- The tables of site/migrations as one state, and the UNIQUE columns of `members`.
use thelab_ms.Base.{
  ℕ, Bool, false, Option, none, some, List, [], ◌∷◌, ◌==◌, Comparable, string_eq, nat_eq,
  if◌then◌else◌,
}
use thelab_ms.Rows.{Member, MemberEvent, FobAssignment, Waiver}

pub record EdgeChanges : Type 0 where
  pub revision : ℕ
  pub sync_requested : ℕ

pub record Database : Type 0 where
  pub members : List Member
  pub edge_changes : EdgeChanges
  pub fob_assignments : List FobAssignment
  pub waivers : List Waiver
  pub member_events : List MemberEvent
  -- the last ids given out in `member_events` and `waivers`
  pub last_event : ℕ
  pub last_waiver : ℕ

-- A statement that breaks a UNIQUE constraint is rolled back with an error that names the column.
pub data UniqueColumn : Type 0 where
  member_id discord_user_id email fob_id stripe_customer_id : UniqueColumn

-- A NULL is distinct from every value, a NULL too.
unfoldable pub clashes {ℓ} : {A : Type ℓ} ⦃e : Comparable A⦄ → Option A → Option A → Bool
clashes none b = false
clashes (some a) none = false
clashes (some a) (some b) = a == b

clash : Member → Member → Option UniqueColumn
clash a b =
    if a.member_id == b.member_id
    then some member_id
    else if clashes a.discord_user_id b.discord_user_id
    then some discord_user_id
    else if clashes a.email b.email
    then some email
    else if clashes a.fob_id b.fob_id
    then some fob_id
    else if clashes a.stripe_customer_id b.stripe_customer_id
    then some stripe_customer_id
    else none

or_else {ℓ} : {A : Type ℓ} → Option A → Option A → Option A
or_else none o = o
or_else (some a) o = some a

clash_with : Member → List Member → Option UniqueColumn
clash_with a [] = none
clash_with a (b ∷ bs) = or_else (clash a b) (clash_with a bs)

-- The constraint that a list of rows breaks, if any.
unfoldable pub violation : List Member → Option UniqueColumn
unfolding clash or_else clash_with
violation [] = none
violation (m ∷ ms) = or_else (clash_with m ms) (violation ms)
