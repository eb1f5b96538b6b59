-- ===== src/Billing/Checkout/Billed.antt =====
-- What a request of `checkoutLink` (site/src/billing.ts) may ask of Stripe, and what its parts ask.
use thelab_ms.Base.{
  ℕ, String, ◌≡◌, refl, sym, Bool, true, false, Option, none, some, List, [], ◌∷◌, ◌==◌, string_eq,
  nat_eq, option_eq, length, Bool-cases, All, subst, inl, inr, append-nil,
}
use thelab_ms.Rows.{Member, discount_text}
use thelab_ms.Prices.{Price}
use thelab_ms.Billing.Sync.{present}
use thelab_ms.App.{ok, Fetch, Platform, World, App}
use thelab_ms.App.Requests.{
  Emits, pure-Emits, throw-Emits, lift-Emits, >>=-Emits, Yields, pure-Yields, >>=-Yields,
  >>=-Yields_any,
}
use thelab_ms.Clients.{stripe_request}
use thelab_ms.Clients.Requests.{stripe-Emits, stripe_list-Emits}
use thelab_ms.Billing.Pricing.{
  Coupon, resolve_pricing, membership_price, look_up, discounted, with_coupon, read_cache, remember,
}
use thelab_ms.Billing.Checkout.OwnSessions.{IsPending}
use thelab_ms.Billing.Checkout.{
  CheckoutSession, expire_path, expire_key, with_email, session_form, session_key, customer_key,
  sessions_of, post, portal_for, existing_checkout, expire_all, save_new_customer,
}

module _ (p : Platform) (fuel : ℕ) (lower : String → String) (member : Member) where
  -- The customer that the member's row has, or one that a statement gave the row.
  pub data IsBilling (customer : String) : Type 0 where
    on_row : present member.stripe_customer_id ≡ some customer → IsBilling customer
    saved_as :
        (row : Member) (w w' : World)
        → save_new_customer p fuel lower member customer w ≡ (ok row, w')
        → IsBilling customer

  -- The price and the coupon that were resolved for a row of the member.
  abbrev pub IsPriced : Price × Option Coupon → Type 0
  IsPriced chosen =
      (row : Member) × (w : World) × (w' : World) × (row.member_id ≡ member.member_id)
      × (resolve_pricing p fuel lower row w ≡ (ok chosen, w'))

  -- The member's sessions that were read of the customer.
  abbrev pub IsListed : String → List CheckoutSession → Type 0
  IsListed customer sessions =
      (w : World) × (w' : World) × (sessions_of p fuel lower (("customer", customer) ∷ [])
          member.member_id w
        ≡ (ok sessions, w'))

  -- A request that Stripe answers, apart from the reads: the billing portal of the member's customer; the
  -- end of an open session of the member, under that session's key; a customer in the member's name, under
  -- the key of the member's id and version; or a subscription session in the member's name, for its
  -- customer at the price and with the coupon that were resolved, under the key of member, customer and the
  -- number of the member's sessions that were read of that customer.
  pub data Billed (r : Fetch) : Type 0 where
    reads : r.method ≡ "GET" → Billed r
    portal :
        (customer : String)
        → IsBilling customer
        → r
          ≡ stripe_request p "/billing_portal/sessions" []
              (some (("customer", customer) ∷ ("return_url", p.env.site_origin) ∷ []))
              none
        → Billed r
    expires :
        (s : CheckoutSession)
        → IsPending member.member_id s
        → r ≡ stripe_request p (expire_path s) [] (some []) (some (expire_key s))
        → Billed r
    creates_customer :
        r
          ≡ stripe_request p "/customers" []
              (some (with_email member (("metadata[thelab_member_id]", member.member_id) ∷ [])))
              (some (customer_key member))
        → Billed r
    creates_session :
        (customer : String) (price : Price) (coupon : Option Coupon)
        (sessions : List CheckoutSession)
        → IsBilling customer
        → IsPriced (price, coupon)
        → IsListed customer sessions
        → r
          ≡ stripe_request p "/checkout/sessions" []
              (some (session_form p.env.site_origin member.member_id customer price coupon))
              (some (session_key member.member_id customer (length sessions)))
        → Billed r

  abbrev id : String
  id = member.member_id

  abbrev Asks {ℓ} : {A : Type ℓ} → App A → Type 0
  Asks m = Emits Billed m

  any_read :
      (path : String) (query : List (String × String))
      → Billed (stripe_request p path query none none)
  unfolding stripe_request
  any_read path query = reads refl

  pub sessions_of-Asks :
      (params : List (String × String)) (member_id : String)
      → Asks (sessions_of p fuel lower params member_id)
  sessions_of-Asks params member_id =
      >>=-Emits _ _ _ (stripe_list-Emits _ p _ _ any_read fuel _ _) (λ all. pure-Emits _ _)

  pub post-Asks :
      (path : String) (fields : List (String × String)) (key : Option String) (name : String)
      → Billed (stripe_request p path [] (some fields) key)
      → Asks (post p fuel lower path fields key name)
  post-Asks path fields key name h =
      >>=-Emits _ _ _ (stripe-Emits _ p path [] (some fields) key h) (λ reply. lift-Emits _ _)

  portal_for-Asks :
      (shared : Bool) (customer : String) (ongoing : Bool)
      → IsBilling customer
      → Asks (portal_for p fuel lower shared customer ongoing)
  portal_for-Asks shared customer false c = pure-Emits _ _
  portal_for-Asks true customer true c = throw-Emits _ _ _
  portal_for-Asks false customer true c =
      >>=-Emits _ _ _ (post-Asks _ _ none "url" (portal customer c refl)) (λ url. pure-Emits _ _)

  pub existing_checkout-Asks :
      (shared : Bool) (member_id customer : String)
      → IsBilling customer
      → Asks (existing_checkout p fuel lower shared member_id customer)
  unfolding existing_checkout
  existing_checkout-Asks shared member_id customer c =
      >>=-Emits _ _ _ (sessions_of-Asks _ member_id) (λ sessions.
        >>=-Emits _ _ _ (stripe_list-Emits _ p _ _ any_read fuel _ _) (λ subscriptions.
          >>=-Emits _ _ _ (portal_for-Asks shared customer _ c) (λ url. pure-Emits _ _)))

  -- What is found of a customer are the sessions that were read.
  pub existing_checkout-IsListed :
      (shared : Bool) (member_id customer : String)
      → member_id ≡ id
      → Yields
          (λ (found : Option String × List CheckoutSession). IsListed customer found.1)
          (existing_checkout p fuel lower shared member_id customer)
  unfolding existing_checkout
  existing_checkout-IsListed shared member_id customer own =
      >>=-Yields _ (IsListed customer) _ _
        (record {
          yields = λ w w' sessions h. (
            w,
            w',
            subst
                (λ i.
                  sessions_of p fuel lower (("customer", customer) ∷ []) i w ≡ (ok sessions, w'))
                own h,
          );
        })
        (λ sessions listed.
          >>=-Yields_any _ _ _
            (λ subscriptions. >>=-Yields_any _ _ _ (λ url. pure-Yields _ (url, sessions) listed)))

  pub expire_all-Asks :
      (sessions : List CheckoutSession)
      → All (IsPending id) sessions
      → Asks (expire_all p fuel lower sessions)
  unfolding expire_all
  expire_all-Asks [] h = pure-Emits _ _
  expire_all-Asks (s ∷ rest) h =
      >>=-Emits _ _ _ (stripe-Emits _ p _ _ _ _ (expires s h.0 refl))
        (λ done. expire_all-Asks rest h.1)

  read_cache-Asks : (interval : String) → Asks (read_cache p interval)
  unfolding read_cache
  read_cache-Asks interval = record { added = λ w. ([], sym (append-nil w.sent), tt) }

  remember-Asks : (interval : String) (found : Option Price) → Asks (remember p interval found)
  unfolding remember
  remember-Asks interval none = record { added = λ w. ([], sym (append-nil w.sent), tt) }
  remember-Asks interval (some price) = record { added = λ w. ([], sym (append-nil w.sent), tt) }

  look_up-Asks : (annual : Bool) (cached : Option Price) → Asks (look_up p fuel lower annual cached)
  look_up-Asks annual (some price) = pure-Emits _ _
  look_up-Asks annual none =
      >>=-Emits _ _ _ (stripe_list-Emits _ p _ _ any_read fuel _ _) (λ found. remember-Asks _ _)

  discounted-Asks :
      (member : Member) (price : Option Price) → Asks (discounted p fuel lower member price)
  discounted-Asks member none = throw-Emits _ _ _
  discounted-Asks member (some price) =
      elim (Bool-cases (discount_text member.discount_type == "")) [
        | inl standard ↦ rw standard (pure-Emits _ _)
        | inr reduced ↦ rw reduced (
            >>=-Emits _ _ _ (stripe_list-Emits _ p _ _ any_read fuel _ _)
              (λ coupons. with_coupon-Asks _))
      ]
    where
      with_coupon-Asks : (coupon : Option Coupon) → Asks (with_coupon p fuel lower price coupon)
      with_coupon-Asks none = throw-Emits _ _ _
      with_coupon-Asks (some coupon) = pure-Emits _ _

  pub resolve_pricing-Asks : (member : Member) → Asks (resolve_pricing p fuel lower member)
  unfolding resolve_pricing membership_price
  resolve_pricing-Asks member =
      >>=-Emits _ _ _
        (>>=-Emits _ _ _ (read_cache-Asks _) (λ cached. look_up-Asks member.bill_annually cached))
        (λ price. discounted-Asks member price)
