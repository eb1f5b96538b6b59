-- ===== src/Examples/Policy.antt =====
-- The access policy and the choice of a subscription at concrete inputs.
use thelab_ms.Base.{◌≡◌, ◌≢◌, ◌↔◌, refl, true, none, some, List, [], ◌∷◌, any, All}
use mathlib.Core.List.{Memᴰ}
use thelab_ms.Policy.{
  Subscription, grants_membership, is_ongoing_subscription, priority, comparator, insert_sorted,
  to_sorted, select_current_subscription,
}
use thelab_ms.Policy.Selection.{AtLeast, status_of, select-grants, select-AtLeast}
use thelab_ms.Policy.Access.{
  member_access_sql, fob_enabled_sql, has_access, holds-member_access_sql, holds-fob_enabled_sql,
}
use thelab_ms.Sql.{holds}
use thelab_ms.Examples.Sample.{ann, bob}

abbrev canceled : Subscription
canceled = record { id = "sub_1"; status = "canceled"; created = 30 }

abbrev past_due : Subscription
past_due = record { id = "sub_2"; status = "past_due"; created = 20 }

abbrev active : Subscription
active = record { id = "sub_3"; status = "active"; created = 10 }

abbrev three : List Subscription
three = canceled ∷ past_due ∷ active ∷ []

selected : select_current_subscription three ≡ some active
unfolding select_current_subscription to_sorted insert_sorted comparator priority grants_membership
    is_ongoing_subscription
selected = refl

select-grants_example :
    grants_membership (status_of (select_current_subscription three))
    ≡ any (λ s. grants_membership (some s.status)) three
select-grants_example = select-grants three

select-AtLeast_example :
    ((s : Subscription)
      → select_current_subscription three ≡ some s
      → Memᴰ s three × All (AtLeast s) three)
    × ((select_current_subscription three ≡ none) ↔ (three ≡ []))
select-AtLeast_example = select-AtLeast three

holds-member_access_sql_example : holds (member_access_sql ann) ≡ has_access ann
holds-member_access_sql_example = holds-member_access_sql ann

holds-fob_enabled_sql_example :
    (holds (fob_enabled_sql bob) ≡ true) ↔ ((bob.fob_id ≢ none) × (has_access bob ≡ true))
holds-fob_enabled_sql_example = holds-fob_enabled_sql bob
