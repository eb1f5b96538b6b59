-- ===== src/Policy.antt =====
-- Membership and door-access policy (site/src/lib.ts): which subscription counts, and the SQL
-- fragment that decides whether a member's fob opens doors, in SQL's three-valued logic.
pub mod Selection
pub mod Access
use Prim.Native.Nat.{compare, Ordering}
use thelab_ms.Base.{
  ℕ, String, Bool, true, false, ◌||◌, not, Option, none, some, List, [], ◌∷◌, ◌==◌, string_eq,
  if◌then◌else◌,
}

unfoldable pub grants_membership : Option String → Bool
grants_membership none = false
grants_membership (some status) = status == "active" || status == "trialing"

unfoldable pub is_ongoing_subscription : String → Bool
is_ongoing_subscription status = not (status == "canceled" || status == "incomplete_expired")

pub record Subscription : Type 0 where
  pub id : String
  pub status : String
  pub created : ℕ

-- `priority` of `selectCurrentSubscription`
unfoldable pub priority : Subscription → ℕ
priority sub =
    if grants_membership (some sub.status)
    then 2
    else if is_ongoing_subscription sub.status
    then 1
    else 0

-- The comparator: `priority(b) - priority(a) || b.created - a.created`. `lt` is a negative number:
-- `a` comes first.
unfoldable pub comparator : Subscription → Subscription → Ordering
comparator a b = elim (compare (priority b) (priority a)) [
  | Ordering.eq ↦ compare b.created a.created
  | Ordering.lt ↦ Ordering.lt
  | Ordering.gt ↦ Ordering.gt
]

-- Stable: `x` is put before the first element that it does not follow.
unfoldable pub insert_sorted : Subscription → List Subscription → List Subscription
insert_sorted x [] = x ∷ []
insert_sorted x (y ∷ ys) = elim (comparator x y) [
  | Ordering.gt ↦ y ∷ insert_sorted x ys
  | _ ↦ x ∷ y ∷ ys
]

-- `toSorted` is stable, so its result is the one of any stable sort.
unfoldable pub to_sorted : List Subscription → List Subscription
to_sorted [] = []
to_sorted (x ∷ xs) = insert_sorted x (to_sorted xs)

abbrev pub first : List Subscription → Option Subscription
first [] = none
first (x ∷ xs) = some x

unfoldable pub select_current_subscription : List Subscription → Option Subscription
select_current_subscription subscriptions = first (to_sorted subscriptions)
