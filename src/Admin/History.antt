-- ===== src/Admin/History.antt =====
-- The history pages: which events, in which order, and how each is described (site/src/admin.tsx).
use Prim.Native.Nat.{compare}
use thelab_ms.Base.{
  String, Bool, true, false, ◌&&◌, not, Option, none, some, List, [], ◌∷◌, map, ◌==◌, string_eq,
  nat_eq, option_eq, if◌then◌else◌, any, find, keep, template, decimal, sort_by,
}
use thelab_ms.Rows.{Member, MemberEvent, Scalar, null, num, text, Details}
use thelab_ms.Database.{Database, has_id}
use thelab_ms.App.{Platform, App, query}
use thelab_ms.Admin.Listing.{Listed, show_page, page_number, then_by, is_not_gt}

-- The table `eventTypes`, as types with their labels.
abbrev pub event_types : List (String × String)
event_types =
    ("ConwayEvent", "Conway event")
    ∷ ("FobChanged", "Fob assignment changed")
    ∷ ("NonBillableChanged", "Non-billable changed")
    ∷ ("LegacyBillingChanged", "Legacy billing changed")
    ∷ ("FobSwipe", "Fob swipe")
    ∷ ("MemberRegistered", "Member registered")
    ∷ ("WaiverSigned", "Waiver signed")
    ∷ ("DiscordAccountChanged", "Discord account changed")
    ∷ ("DiscordUsernameChanged", "Discord username changed")
    ∷ ("DiscordEmailChanged", "Discord email changed")
    ∷ ("BillingNameChanged", "Billing name changed")
    ∷ ("BillingEmailChanged", "Billing email changed")
    ∷ ("NameOverrideChanged", "Name override changed")
    ∷ ("NotesUpdated", "Notes updated")
    ∷ ("BillingCycleChanged", "Billing cycle changed")
    ∷ ("DiscountTypeModified", "Discount changed")
    ∷ ("StripeCustomerChanged", "Stripe customer changed")
    ∷ ("StripeSubscriptionChanged", "Stripe subscription changed")
    ∷ ("SubscriptionStatusChanged", "Subscription status changed")
    ∷ []

abbrev has_type : String → String × String → Bool
has_type type entry = entry.0 == type

label_or : String → Option (String × String) → String
label_or type none = type
label_or type (some (key, label)) = label

-- hasKey(eventTypes, type) ? eventTypes[type] : type
unfoldable pub event_label : String → String
unfolding label_or
event_label type = label_or type (find (has_type type) event_types)

-- The type that is asked for, '' where there is none of that name.
unfoldable pub requested_type : Option String → String
requested_type none = ""
requested_type (some type) = if any (has_type type) event_types then type else ""

-- details[name], `none` where it is undefined
unfoldable pub detail : String → Details → Option Scalar
detail name [] = none
detail name ((key, value) ∷ rest) =
    let later = detail name rest in if key == name then some value else later

-- String(value)
abbrev pub shown : Option Scalar → String
shown none = "undefined"
shown (some null) = "null"
shown (some (num n)) = decimal n
shown (some (text s)) = s

abbrev pub is_truthy : Option Scalar → Bool
is_truthy none = false
is_truthy (some null) = false
is_truthy (some (num n)) = not (n == 0)
is_truthy (some (text s)) = not (s == "")

abbrev pub is_flag_change : String → Bool
is_flag_change type = any (λ t. t == type) ("NonBillableChanged" ∷ "LegacyBillingChanged" ∷ [])

blank_or_shown : Option Scalar → String
blank_or_shown (some (text s)) = if s == "" then "(blank)" else s
blank_or_shown item = shown item

-- item === ''
is_blank : Option Scalar → Bool
is_blank (some (text s)) = s == ""
is_blank item = false

is_null : Option Scalar → Bool
is_null (some null) = true
is_null item = false

-- value(item), for a type of event
unfoldable pub change_value : String → Option Scalar → String
unfolding blank_or_shown is_blank is_null
change_value type item =
    if is_null item
    then "Not set"
    else if type == "BillingCycleChanged"
    then (if is_truthy item then "Yearly" else "Monthly")
    else if is_flag_change type
    then (if is_truthy item then "Enabled" else "Disabled")
    else if type == "DiscountTypeModified" && is_blank item
    then "Standard rate"
    else blank_or_shown item

-- eventDetails
unfoldable pub event_details : MemberEvent → String
event_details event =
    let type = event.event_type in
    let d = event.details in
    if type == "MemberRegistered"
    then "Membership registered."
    else if type == "NotesUpdated"
    then "Internal notes updated."
    else if type == "ConwayEvent"
    then template (shown (detail "event" d) ∷ ": " ∷ shown (detail "details" d) ∷ [])
    else if type == "FobSwipe"
    then template (
        "Fob "
        ∷ shown (detail "fob" d)
        ∷ " · "
        ∷ (if is_truthy (detail "allowed" d) then "Allowed" else "Denied")
        ∷ " · Controller "
        ∷ shown (detail "controller" d)
        ∷ " · "
        ∷ shown (detail "time" d)
        ∷ [])
    else if type == "WaiverSigned"
    then template ("Signature #" ∷ shown (detail "waiver_id" d) ∷ "." ∷ [])
    else template
        (change_value type (detail "from" d) ∷ " → " ∷ change_value type (detail "to" d) ∷ [])

-- A row of the table: the event, and the member that its LEFT JOIN finds.
pub record HistoryEvent : Type 0 where
  pub event : MemberEvent
  pub member : Option Member

owner_of : List Member → Option String → Option Member
owner_of members none = none
owner_of members (some id) = find (has_id id) members

-- e.member_id = ? AND e.event_type = ?, each only where it is asked for
unfoldable pub event_matches : Option String → String → MemberEvent → Bool
event_matches member type event =
    (elim member [ none ↦ true | some id ↦ event.member_id == some id ])
    && (if type == "" then true else event.event_type == type)

-- ORDER BY e.created DESC, e.id DESC
unfoldable pub newer_event : MemberEvent → MemberEvent → Bool
newer_event a b = is_not_gt (then_by (compare b.created a.created) (compare b.id a.id))

unfoldable pub listed_events : Option String → String → Database → List MemberEvent
listed_events member type db =
    sort_by newer_event (keep (event_matches member type) db.member_events)

abbrev pub with_member : List Member → MemberEvent → HistoryEvent
unfolding owner_of
with_member members event = record { event = event; member = owner_of members event.member_id }

-- `history`, of the query's parameters, for one member or for all.
unfoldable pub history :
    Platform → (member event_type page : Option String) → App (Listed HistoryEvent)
history p member event_type page = query p (λ db.
    show_page (page_number page)
      (map (with_member db.members) (listed_events member (requested_type event_type) db)))
