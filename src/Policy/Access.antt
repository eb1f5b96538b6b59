-- ===== src/Policy/Access.antt =====
-- `memberAccessSQL` and `fobEnabledSQL` of site/src/lib.ts, evaluated in SQL's three-valued logic.
use thelab_ms.Base.{
  ◌≡◌, ◌≢◌, ◌↔◌, Bool, true, ◌&&◌, ◌||◌, none, some, [], ◌∷◌, string_eq, nat_eq, bool_eq, arith,
}
use thelab_ms.Rows.{Member}
use thelab_ms.Sql.{Cond, and3, or3, eq3, in3, is_not_null, holds}
use thelab_ms.Policy.{grants_membership}

-- members.non_billable = 1 OR ((members.legacy_billing = 1 OR
--   members.stripe_subscription_state IN ('active', 'trialing')) AND members.waiver_signed = 1)
unfoldable pub member_access_sql : Member → Cond
unfolding and3 or3 eq3 in3
member_access_sql m = or3 (eq3 (some m.non_billable) true) (
    and3
      (or3 (eq3 (some m.legacy_billing) true)
        (in3 m.stripe_subscription_state ("active" ∷ "trialing" ∷ [])))
      (eq3 (some m.waiver_signed) true))

unfoldable pub fob_enabled_sql : Member → Cond
unfolding member_access_sql is_not_null
fob_enabled_sql m = and3 (is_not_null m.fob_id) (member_access_sql m)

-- The policy in two-valued logic, with the worker's own `grantsMembership`.
abbrev pub has_access : Member → Bool
has_access m =
    m.non_billable
    || ((m.legacy_billing || grants_membership m.stripe_subscription_state) && m.waiver_signed)

-- A member passes `memberAccessSQL` exactly if it is non-billable, or if it has signed the waiver and
-- is on legacy billing or has a subscription state that `grantsMembership` accepts. A missing
-- subscription state, NULL in SQL, never lets anyone in.
pub holds-member_access_sql : (m : Member) → holds (member_access_sql m) ≡ has_access m
unfolding member_access_sql holds grants_membership
holds-member_access_sql m = ground arith

-- A member passes `fobEnabledSQL` exactly if it has a fob and passes the access policy.
pub holds-fob_enabled_sql :
    (m : Member) → (holds (fob_enabled_sql m) ≡ true) ↔ ((m.fob_id ≢ none) × (has_access m ≡ true))
unfolding fob_enabled_sql holds grants_membership
holds-fob_enabled_sql m = ground arith
