-- ===== src/Billing/Checkout/Sessions.antt =====
-- The sessions of a checkout, and what is sent to Stripe for them (site/src/billing.ts).
use thelab_ms.Base.{
  ℕ, String, Bool, ◌&&◌, ◌||◌, not, Option, none, some, List, [], ◌∷◌, ◌++◌, ◌==◌, string_eq,
  nat_eq, option_eq, if◌then◌else◌, keep, template, decimal,
}
use thelab_ms.Rows.{Member}
use thelab_ms.Json.{Json, prop, as_string}
use thelab_ms.Prices.{Price}
use thelab_ms.Billing.Pricing.{Coupon, text_or_empty, inside}

-- `price_id` and `coupon_id` are metadata?.thelab_price_id and metadata?.thelab_coupon_id.
pub record CheckoutSession : Type 0 where
  pub id : String
  pub url : String
  pub mode : String
  pub status : String
  pub customer : Option String
  pub reference : Option String
  pub price_id : Option String
  pub coupon_id : Option String

abbrev pub session_from : Json → Option String → Option CheckoutSession
session_from value none = none
session_from value (some id) = some (record {
  id = id;
  url = text_or_empty (as_string (prop "url" value));
  mode = text_or_empty (as_string (prop "mode" value));
  status = text_or_empty (as_string (prop "status" value));
  customer = as_string (prop "customer" value);
  reference = as_string (prop "client_reference_id" value);
  price_id = as_string (inside "thelab_price_id" (prop "metadata" value));
  coupon_id = as_string (inside "thelab_coupon_id" (prop "metadata" value));
})

unfoldable pub decode_session : Json → Option CheckoutSession
decode_session value = session_from value (as_string (prop "id" value))

-- session.mode === 'subscription' && session.client_reference_id === member.member_id
unfoldable pub is_own_session : String → CheckoutSession → Bool
is_own_session member_id session =
    session.mode == "subscription" && session.reference == some member_id

abbrev pub is_open : CheckoutSession → Bool
is_open session = session.status == "open"

-- The customer that a recent session names, if it is open or complete.
abbrev pub session_customer : CheckoutSession → List String
session_customer session = elim session.customer [
  | none ↦ []
  | some customer ↦
      if session.status == "open" || session.status == "complete" then customer ∷ [] else []
]

abbrev pub flat_map {ℓ κ} : {A : Type ℓ} {B : Type κ} → (A → List B) → List A → List B
flat_map f [] = []
flat_map f (x ∷ xs) = f x ++ flat_map f xs

-- [...new Set(values)]
unfoldable pub distinct : List String → List String
distinct [] = []
distinct (x ∷ xs) = x ∷ keep (λ y. not (y == x)) (distinct xs)

unfoldable pub recent_customers : List CheckoutSession → List String
recent_customers recent = distinct (flat_map session_customer recent)

-- The pending session for exactly this price and coupon.
unfoldable pub is_reusable : String → String → CheckoutSession → Bool
is_reusable price_id coupon_id session =
    session.price_id == some price_id && text_or_empty session.coupon_id == coupon_id

-- The sessions other than the first that passes a test.
unfoldable pub all_but_first :
    (CheckoutSession → Bool) → List CheckoutSession → List CheckoutSession
all_but_first test [] = []
all_but_first test (s ∷ rest) = if test s then rest else s ∷ all_but_first test rest

abbrev pub coupon_id_of : Option Coupon → String
coupon_id_of none = ""
coupon_id_of (some coupon) = coupon.id

abbrev pub expire_path : CheckoutSession → String
expire_path session = template ("/checkout/sessions/" ∷ session.id ∷ "/expire" ∷ [])

abbrev pub expire_key : CheckoutSession → String
expire_key session = template ("member-checkout-expire:" ∷ session.id ∷ [])

abbrev pub with_email : Member → List (String × String) → List (String × String)
with_email member fields =
    let email =
      if member.discord_email == "" then text_or_empty member.email else member.discord_email in
    if email == "" then fields else ("email", email) ∷ fields

abbrev pub coupon_field : String → Option Coupon → List (String × String)
coupon_field name none = []
coupon_field name (some coupon) = (name, coupon.id) ∷ []

-- The form of a new checkout session.
abbrev pub session_form : String → String → String → Price → Option Coupon → List (String × String)
session_form site member_id customer price coupon =
    ("mode", "subscription")
    ∷ ("customer", customer)
    ∷ ("customer_update[name]", "auto")
    ∷ ("client_reference_id", member_id)
    ∷ ("success_url", template (site ∷ "/welcome" ∷ []))
    ∷ ("cancel_url", template (site ∷ "/#membership" ∷ []))
    ∷ ("line_items[0][price]", price.id)
    ∷ ("line_items[0][quantity]", "1")
    ∷ ("payment_method_types[0]", "card")
    ∷ ("metadata[thelab_member_id]", member_id)
    ∷ ("metadata[thelab_price_id]", price.id)
    ∷ (coupon_field "metadata[thelab_coupon_id]" coupon
        ++ ("subscription_data[metadata][thelab_member_id]", member_id)
          ∷ coupon_field "discounts[0][coupon]" coupon)

abbrev pub session_key : String → String → ℕ → String
session_key member_id customer count =
    template ("member-checkout:" ∷ member_id ∷ ":" ∷ customer ∷ ":" ∷ decimal count ∷ [])

abbrev pub customer_key : Member → String
customer_key member =
    template ("member-customer:" ∷ member.member_id ∷ ":" ∷ decimal member.metadata_version ∷ [])
