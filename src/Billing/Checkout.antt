-- ===== src/Billing/Checkout.antt =====
-- `checkoutLink` and `checkout` of site/src/billing.ts.
mod Sessions
pub mod OwnRow
pub mod OwnSessions
pub mod Billed
pub mod Keys
pub mod Pending
use mathlib.Core.Option
use thelab_ms.Base.{
  ℕ, ◌+◌, ◌-◌, String, Bool, true, false, ◌&&◌, ◌||◌, not, Option, none, some, List, [], ◌∷◌, ◌++◌,
  map, ◌==◌, string_eq, nat_eq, option_eq, if◌then◌else◌, any, find, keep, length, template,
  decimal,
}
use thelab_ms.Rows.{Member}
use thelab_ms.Policy.{Subscription, is_ongoing_subscription}
use thelab_ms.Json.{Json, prop, as_string}
use thelab_ms.Prices.{Price}
use thelab_ms.Database.{Database, has_id, save_customer}
use thelab_ms.App.{http_error, Platform, App, pure, throw, ◌>>=◌, ◌>>◌, query, execute, now}
use thelab_ms.Clients.{stripe, stripe_list, trusted, lift}
use thelab_ms.Session.{Crypto, Session, read_session, member_of, current_member}
use thelab_ms.Billing.Sync.{decode_subscription, present}
use thelab_ms.Billing.Pricing.{Coupon, text_or_empty, inside, resolve_pricing}
pub use Sessions.{CheckoutSession}
unfoldable pub use Sessions.{
  session_from, is_open, session_customer, flat_map, coupon_id_of, expire_path, expire_key,
  with_email, coupon_field, session_form, session_key, customer_key, decode_session, is_own_session,
  distinct, recent_customers, is_reusable, all_but_first,
}

-- `fuel` bounds the pages of Stripe's lists; `lower` is toLowerCase.
module _ (p : Platform) (fuel : ℕ) (lower : String → String) where
  abbrev pub sessions_of : List (String × String) → String → App (List CheckoutSession)
  sessions_of params member_id = do
    all ←
        stripe_list p decode_session (λ (s : CheckoutSession). s.id) fuel "/checkout/sessions"
          params
    pure (keep (is_own_session member_id) all)

  -- reply[name], a text
  abbrev pub text_of : String → Json → App String
  text_of name reply = lift (trusted (as_string (prop name reply)))

  -- await stripe(env, path, form, key), for the text field `name` of the reply
  abbrev pub post : String → List (String × String) → Option String → String → App String
  post path fields key name = do reply ← stripe p path [] (some fields) key; text_of name reply

  abbrev pub portal_for : Bool → String → Bool → App (Option String)
  portal_for shared customer false = pure none
  portal_for true customer true =
      throw (http_error 409 "This member already has an ongoing subscription. Manage it in Stripe.")
  portal_for false customer true = do
    url ←
        post "/billing_portal/sessions"
          (("customer", customer) ∷ ("return_url", p.env.site_origin) ∷ []) none "url"
    pure (some url)

  -- The portal's address if the customer has an ongoing subscription, and the member's sessions,
  -- which are read first.
  unfoldable pub existing_checkout :
      Bool → String → String → App (Option String × List CheckoutSession)
  existing_checkout shared member_id customer = do
    sessions ← sessions_of (("customer", customer) ∷ []) member_id
    subscriptions ←
        stripe_list p decode_subscription (λ s. s.id) fuel "/subscriptions"
          (("customer", customer) ∷ ("status", "all") ∷ [])
    portal ← portal_for shared customer (any (λ s. is_ongoing_subscription s.status) subscriptions)
    pure (portal, sessions)

  -- for (const session of sessions) await stripe(.../expire)
  unfoldable pub expire_all : List CheckoutSession → App (Unit {0})
  expire_all [] = pure tt
  expire_all (s ∷ rest) = do
    stripe p (expire_path s) [] (some []) (some (expire_key s))
    expire_all rest

  abbrev pub answer_checkout :
      Member
      → String
      → List CheckoutSession
      → Price
      → Option Coupon
      → Option CheckoutSession
      → App (String × Member)
  answer_checkout member customer sessions price coupon (some reusable) =
      pure (reusable.url, member)
  answer_checkout member customer sessions price coupon none = do
    url ←
        post "/checkout/sessions"
          (session_form p.env.site_origin member.member_id customer price coupon)
          (some (session_key member.member_id customer (length sessions))) "url"
    pure (url, member)

  -- From the pricing on: reuse a pending session, expire the others, or open a new one.
  unfoldable pub settle_checkout :
      Member → String → List CheckoutSession → Price × Option Coupon → App (String × Member)
  settle_checkout member customer sessions (price, coupon) = do
    let pending = keep is_open sessions
    let reusable = is_reusable price.id (coupon_id_of coupon)
    expire_all (all_but_first reusable pending)
    answer_checkout member customer sessions price coupon (find reusable pending)

  abbrev pub priced : Member → Option (Price × Option Coupon) → App (Price × Option Coupon)
  priced member none = resolve_pricing p fuel lower member
  priced member (some pricing) = pure pricing

  abbrev pub finish_checkout :
      Member
      → String
      → Option (Price × Option Coupon)
      → Option String × List CheckoutSession
      → App (String × Member)
  finish_checkout member customer pricing (some url, sessions) = pure (url, member)
  finish_checkout member customer pricing (none, sessions) = do
    chosen ← priced member pricing
    settle_checkout member customer sessions chosen

  abbrev pub customer_from : Member → Option String → App String
  customer_from member (some customer) = pure customer
  customer_from member none =
      post "/customers" (with_email member (("metadata[thelab_member_id]", member.member_id) ∷ []))
        (some (customer_key member)) "id"

  abbrev pub pricing_before : Member → Option String → App (Option (Price × Option Coupon))
  pricing_before member (some customer) = pure none
  pricing_before member none = do pricing ← resolve_pricing p fuel lower member; pure (some pricing)

  abbrev pub reread : String → Database → Option Member → Option Member
  reread member_id after none = none
  reread member_id after (some old) = find (has_id member_id) after.members

  -- RETURNING *, of the row that the UPDATE changed
  abbrev pub saved_row : Member → Database → Database → Option Member
  saved_row member before after = reread member.member_id after (
      find
        (λ m.
          has_id member.member_id m
          && (m.stripe_customer_id == none && m.metadata_version == member.metadata_version))
        before.members)

  -- SELECT * FROM members WHERE member_id = ? AND stripe_customer_id = ? AND metadata_version = ?
  abbrev pub same_customer_row : Member → String → Database → Option Member
  same_customer_row member customer db =
      find
        (λ m.
          has_id member.member_id m
          && (m.stripe_customer_id == some customer
              && m.metadata_version == member.metadata_version + 1))
        db.members

  abbrev pub or_same : Member → String → Option Member → App (Option Member)
  or_same member customer (some row) = pure (some row)
  or_same member customer none = query p (same_customer_row member customer)

  abbrev pub saved : Option Member → App Member
  saved none = throw (
      http_error 409
        "Your membership changed while checkout was opening. Please reload and try again.")
  saved (some row) = pure row

  unfoldable pub save_new_customer : Member → String → App Member
  save_new_customer member customer = do
    updated ←
        execute p (save_customer customer member.member_id member.metadata_version)
          (saved_row member)
    row ← or_same member customer updated
    saved row

  abbrev pub one_customer : List String → App (Option String)
  one_customer [] = pure none
  one_customer (customer ∷ []) = pure (present (some customer))
  one_customer (customer ∷ other ∷ rest) = throw (
      http_error 409
        "We found multiple billing accounts for your membership. Please contact leadership before paying.")

  -- session.status === 'open' && !session.customer
  abbrev pub is_customerless : CheckoutSession → Bool
  is_customerless session = is_open session && present session.customer == none

  unfoldable pub checkout_without_customer : Bool → Member → App (String × Member)
  checkout_without_customer shared member = do
    seconds ← now p
    recent ← sessions_of (("created[gte]", decimal (seconds - 86400)) ∷ []) member.member_id
    known ← one_customer (recent_customers recent)
    pricing ← pricing_before member known
    expire_all (keep is_customerless recent)
    customer ← customer_from member known
    row ← save_new_customer member customer
    found ← existing_checkout shared row.member_id customer
    finish_checkout row customer pricing found

  -- Admin-shared links can precede the waiver.
  abbrev pub after_waiver : Bool → Member → App (String × Member) → App (String × Member)
  after_waiver shared member next =
      if not shared && not member.waiver_signed
      then pure (template (p.env.site_origin ∷ "/waiver" ∷ []), member)
      else next

  abbrev pub with_customer :
      Bool → Member → String → Option String × List CheckoutSession → App (String × Member)
  with_customer shared member customer (some url, sessions) = pure (url, member)
  with_customer shared member customer (none, sessions) =
      after_waiver shared member (finish_checkout member customer none (none, sessions))

  abbrev pub checkout_for : Bool → Member → Option String → App (String × Member)
  checkout_for shared member none =
      after_waiver shared member (checkout_without_customer shared member)
  checkout_for shared member (some customer) = do
    found ← existing_checkout shared member.member_id customer
    with_customer shared member customer found

  unfoldable pub checkout_link : Bool → Member → App (String × Member)
  checkout_link shared member = checkout_for shared member (present member.stripe_customer_id)

  abbrev pub checkout_page : Option Member → App String
  checkout_page none = pure "/login?next=%2Fcheckout"
  checkout_page (some member) = do link ← checkout_link false member; pure link.0

  -- `checkout`: where it redirects. `cookie` is the session cookie.
  unfoldable pub checkout : Crypto → String → App String
  checkout c cookie = do
    seconds ← now p
    session ← lift (read_session c seconds cookie)
    member ← current_member p session
    checkout_page member
