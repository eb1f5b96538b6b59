-- ===== src/Billing/Sync.antt =====
-- `syncMember`, `webhookCustomer` and `stripeWebhook` of site/src/billing.ts.
use Prim.Native.Char.{code}
use mathlib.Core.Option
use text.Mathlib.Text.{starts_with}
use thelab_ms.Base.{
  ℕ, zero, suc, ◌+◌, String, Bool, true, false, ◌&&◌, ◌||◌, Option, none, some, List, [], ◌∷◌, ◌==◌,
  string_eq, nat_eq, bool_eq, option_eq, if◌then◌else◌, find, template, leb,
}
use thelab_ms.Json.{Json, obj, end, prop, as_string, as_num, is_record}
use thelab_ms.Rows.{Member}
use thelab_ms.Policy.{Subscription, select_current_subscription}
use thelab_ms.Database.{Database, has_id, Billing, begin_sync, publish_sync, link_customer}
use thelab_ms.App.{http_error, Platform, App, pure, throw, ◌>>=◌, ◌>>◌, query, execute}
use thelab_ms.Clients.{stripe, stripe_list}
use thelab_ms.Edge.{push_fobs}
use thelab_ms.Billing.Role.{sync_discord_role}

-- value || null
unfoldable pub or_null : String → Option String
or_null value = if value == "" then none else some value

-- value || ''
abbrev pub or_empty : Option String → String
or_empty none = ""
or_empty (some value) = value

unfoldable pub decode_subscription : Json → Option Subscription
decode_subscription value = elim (as_string (prop "id" value)) [
  | none ↦ none
  | some id ↦ elim (as_string (prop "status" value)) [
    | none ↦ none
    | some status ↦ elim (as_num (prop "created" value)) [
      | none ↦ none
      | some created ↦ some (record { id = id; status = status; created = created })
    ]
  ]
]

-- WHERE member_id = ? AND stripe_customer_id IS ?
abbrev pub is_customer_of : String → Option String → Member → Bool
is_customer_of member_id customer m = has_id member_id m && m.stripe_customer_id == customer

-- RETURNING stripe_sync_version
unfoldable pub begun_version : String → Option String → Database → Option ℕ
begun_version member_id customer before =
    Option.map (λ m. m.stripe_sync_version + 1)
      (find (is_customer_of member_id customer) before.members)

-- RETURNING member_id, as whether a row was updated
unfoldable pub was_published : String → Option String → ℕ → Database → Bool
was_published member_id customer version before =
    elim (find (λ m. is_customer_of member_id customer m && m.stripe_sync_version == version)
      before.members) [ none ↦ false | some m ↦ true ]

abbrev pub current_id : Option Subscription → Option String
current_id none = none
current_id (some s) = or_null s.id

abbrev pub current_status : Option Subscription → Option String
current_status none = none
current_status (some s) = or_null s.status

-- What the second UPDATE binds.
unfoldable pub billing_of : Option Json → List Subscription → Billing
billing_of customer subscriptions =
    let current = select_current_subscription subscriptions in
    record {
      subscription_id = current_id current;
      subscription_state = current_status current;
      name = or_empty (Option.bind customer (λ c. as_string (prop "name" c)));
      email = or_empty (Option.bind customer (λ c. as_string (prop "email" c)));
    }

-- A nullable text that is a JavaScript condition.
abbrev pub present : Option String → Option String
present none = none
present (some s) = or_null s

-- The fuel bounds the pages of a Stripe list and the rounds of `syncDiscordRole`.
module _ (p : Platform) (fuel : ℕ) where
  -- The two lookups, which the source starts together; both only read.
  unfoldable pub lookup_customer : Option String → App (Option Json × List Subscription)
  lookup_customer none = pure (none, [])
  lookup_customer (some customer) = do
    billing ← stripe p (template ("/customers/" ∷ customer ∷ [])) [] none none
    subscriptions ←
        stripe_list p decode_subscription (λ s. s.id) fuel "/subscriptions"
          (("customer", customer) ∷ ("status", "all") ∷ [])
    pure (some billing, subscriptions)

  unfoldable pub finish_sync : String → Option String → Option ℕ → App (Unit {0})
  finish_sync member_id customer none = pure tt
  finish_sync member_id customer (some version) = do
    found ← lookup_customer (present customer)
    updated ←
        execute p (publish_sync (billing_of found.0 found.1) member_id customer version)
          (λ before after. was_published member_id customer version before)
    if updated then (push_fobs p >> sync_discord_role p fuel member_id) else pure tt

  unfoldable pub sync_member : String → Option String → App (Unit {0})
  sync_member member_id customer = do
    version ←
        execute p (begin_sync member_id customer)
          (λ before after. begun_version member_id customer before)
    finish_sync member_id customer version

-- /^[a-f0-9]{32}$/
is_hex_digit : ℕ → Bool
is_hex_digit c = (leb b'a' c && leb c b'f') || (leb b'0' c && leb c b'9')

all_hex : ℕ → String → Bool
unfolding is_hex_digit
all_hex n String.[] = n == 0
all_hex zero (String.◌∷◌ c s) = false
all_hex (suc n) (String.◌∷◌ c s) = is_hex_digit (code c) && all_hex n s

unfoldable pub is_member_id : String → Bool
unfolding all_hex
is_member_id = all_hex 32

-- The customer whose members need a sync, and the reference of the statement to run first.
pub record Target : Type 0 where
  pub customer : Option String
  pub link : Option String

abbrev pub ignored : Target
ignored = record { customer = none; link = none }

abbrev for_customer : Option String → Target
for_customer customer = record { customer = customer; link = none }

-- isRecord(event.data) && isRecord(event.data.object) ? event.data.object : {}
abbrev record_or_empty : Option Json → Json
record_or_empty (some value) = if is_record value then value else obj end
record_or_empty none = obj end

unfoldable pub event_object : Json → Json
event_object event = record_or_empty (prop "object" (record_or_empty (prop "data" event)))

completed_checkout : Option String → Option String → Target
completed_checkout none reference = ignored
completed_checkout (some customer) none = for_customer (some customer)
completed_checkout (some customer) (some reference) = record {
  customer = some customer;
  link = if is_member_id reference then some reference else none;
}

target_of : String → Json → Target
unfolding completed_checkout
target_of type object =
    if type == "checkout.session.completed"
    then completed_checkout (as_string (prop "customer" object))
        (as_string (prop "client_reference_id" object))
    else if type == "customer.updated"
    then for_customer (as_string (prop "id" object))
    else if starts_with type "customer.subscription."
    then for_customer (as_string (prop "customer" object))
    else ignored

unfoldable pub webhook_customer : Json → Target
unfolding target_of
webhook_customer event = elim (as_string (prop "type" event)) [
  | none ↦ ignored
  | some type ↦ target_of type (event_object event)
]

-- SELECT * FROM members WHERE stripe_customer_id = ?
unfoldable pub member_of_customer : String → Database → Option Member
member_of_customer customer db = find (λ m. m.stripe_customer_id == some customer) db.members

module _ (p : Platform) (fuel : ℕ) where
  sync_found : Option Member → App ℕ
  sync_found none = pure 204
  sync_found (some m) = do sync_member p fuel m.member_id m.stripe_customer_id; pure 204

  -- The link and the lookup are one batch.
  link_and_find : Option String → String → App (Option Member)
  link_and_find none customer = query p (member_of_customer customer)
  link_and_find (some reference) customer =
      execute p (link_customer customer reference)
        (λ before after. member_of_customer customer after)

  handle_target : Option String → Option String → App ℕ
  handle_target none link = pure 204
  handle_target (some customer) link = do member ← link_and_find link customer; sync_found member

  -- `stripeWebhook` after `verifyStripe`: the text as JSON, `none` where `JSON.parse` throws.
  unfoldable pub stripe_webhook : Option Json → App ℕ
  unfolding sync_found link_and_find handle_target
  stripe_webhook none = throw (http_error 400 "Invalid Stripe event.")
  stripe_webhook (some event) =
      let target = webhook_customer event in handle_target (present target.customer) target.link
