-- ===== src/Billing/Checkout/Pending.antt =====
-- What `checkoutLink` does with the pending sessions of a customer.
use thelab_ms.Base.{
  ℕ, String, ◌≡◌, ◌≢◌, All, refl, sym, ap, ◌∙◌, inl, inr, Bool, true, false, Option, none, some,
  List, [], ◌∷◌, ◌++◌, map, append-nil, append_assoc, ◌==◌, string_eq, find, keep, length,
  Bool-cases,
}
use thelab_ms.Rows.{Member}
use thelab_ms.Json.{Json}
use thelab_ms.Prices.{Price}
use thelab_ms.App.{Result, ok, Fetch, Platform, World, pure, throw, ◌>>=◌, send}
use thelab_ms.App.Laws.{>>=-eq-ok, returned}
use thelab_ms.Clients.{provider, stripe, stripe_request}
use thelab_ms.Billing.Pricing.{Coupon}
use thelab_ms.Billing.Checkout.{
  CheckoutSession, expire_path, expire_key, expire_all, session_form, session_key, answer_checkout,
  settle_checkout, is_open, is_reusable, all_but_first, coupon_id_of, post,
}

module _ (p : Platform) where
  -- POST /checkout/sessions/../expire
  abbrev pub expire_request : CheckoutSession → Fetch
  expire_request s = stripe_request p (expire_path s) [] (some []) (some (expire_key s))

  -- POST /checkout/sessions, for a member
  abbrev pub session_request :
      Member → String → List CheckoutSession → Price → Option Coupon → Fetch
  session_request member customer sessions price coupon =
      stripe_request p "/checkout/sessions" []
        (some (session_form p.env.site_origin member.member_id customer price coupon))
        (some (session_key member.member_id customer (length sessions)))

  stripe_called :
      (path : String) (query : List (String × String)) (fields : Option (List (String × String)))
      (key : Option String) (w : World)
      → (p.env.stripe_secret_key == "") ≡ false
      → (stripe p path query fields key w).1.sent
        ≡ w.sent ++ stripe_request p path query fields key ∷ []
  unfolding stripe provider send ◌>>=◌
  stripe_called path query fields key w set = rw set refl

  stripe_uncalled :
      (path : String) (query : List (String × String)) (fields : Option (List (String × String)))
      (key : Option String) (w w' : World) (value : Json)
      → (p.env.stripe_secret_key == "") ≡ true
      → stripe p path query fields key w ≢ (ok value, w')
  unfolding stripe throw
  stripe_uncalled path query fields key w w' value unset h = cc (rw unset at h)

  -- A call that returns has sent its request.
  stripe-sent :
      (path : String) (query : List (String × String)) (fields : Option (List (String × String)))
      (key : Option String) (w w' : World) (value : Json)
      → stripe p path query fields key w ≡ (ok value, w')
      → w'.sent ≡ w.sent ++ stripe_request p path query fields key ∷ []
  stripe-sent path query fields key w w' value h =
      elim (Bool-cases (p.env.stripe_secret_key == "")) [
        | inl unset ↦ absurd (stripe_uncalled path query fields key w w' value unset h)
        | inr set ↦
            ap (λ (r : Result Json × World). r.1.sent) (sym h)
            ∙ stripe_called path query fields key w set
      ]

  -- What is left of the open sessions of a member when checkout returns `url`. Either a session for this
  -- price and coupon is open: its address is returned, and an end is asked for every other open session,
  -- and nothing else. Or none is: an end is asked for every open one, and then a new session.
  pub data Settled (member : Member) (customer url : String) (sessions : List CheckoutSession)
      (price : Price) (coupon : Option Coupon) (sent sent' : List Fetch) : Type 0 where
    reused :
        (before after : List CheckoutSession) (s : CheckoutSession)
        → keep is_open sessions ≡ before ++ s ∷ after
        → All (λ t. is_reusable price.id (coupon_id_of coupon) t ≡ false) before
        → is_reusable price.id (coupon_id_of coupon) s ≡ true
        → url ≡ s.url
        → sent' ≡ sent ++ map expire_request (before ++ after)
        → Settled member customer url sessions price coupon sent sent'
    opened :
        All (λ t. is_reusable price.id (coupon_id_of coupon) t ≡ false) (keep is_open sessions)
        → sent'
          ≡ (sent ++ map expire_request (keep is_open sessions))
            ++ session_request member customer sessions price coupon ∷ []
        → Settled member customer url sessions price coupon sent sent'

  module _ (fuel : ℕ) (lower : String → String) where
    expire_all-sent :
        (sessions : List CheckoutSession) (w w' : World)
        → expire_all p fuel lower sessions w ≡ (ok tt, w')
        → w'.sent ≡ w.sent ++ map expire_request sessions
    unfolding expire_all pure
    expire_all-sent [] w w' h =
        ap (λ (r : Result (Unit {0}) × World). r.1.sent) (sym h) ∙ sym (append-nil w.sent)
    expire_all-sent (s ∷ rest) w w' h =
        let (value, w₁, e, k) =
          >>=-eq-ok (stripe p (expire_path s) [] (some []) (some (expire_key s))) _ w h in
        expire_all-sent rest w₁ w' k
        ∙ ap (λ l. l ++ map expire_request rest) (stripe-sent _ _ _ _ w w₁ value e)
        ∙ append_assoc w.sent (expire_request s ∷ []) (map expire_request rest)

    post-sent :
        (path : String) (fields : List (String × String)) (key : Option String) (name : String)
        (w w' : World) (text : String)
        → post p fuel lower path fields key name w ≡ (ok text, w')
        → w'.sent ≡ w.sent ++ stripe_request p path [] (some fields) key ∷ []
    post-sent path fields key name w w' text h =
        let (value, w₁, e, k) = >>=-eq-ok (stripe p path [] (some fields) key) _ w h in
        ap (λ (r : Result String × World). r.1.sent) (sym k) ∙ stripe-sent _ _ _ _ w w₁ value e

    all_but_first-none :
        (test : CheckoutSession → Bool) (sessions : List CheckoutSession)
        → find test sessions ≡ none
        → all_but_first test sessions ≡ sessions
    unfolding all_but_first
    all_but_first-none test [] h = refl
    all_but_first-none test (s ∷ rest) h = elim (Bool-cases (test s)) [
      | inl here ↦ cc (rw here at h)
      | inr later ↦ rw later (ap (λ l. s ∷ l) (all_but_first-none test rest (rw later at h)))
    ]

    none_passes :
        (test : CheckoutSession → Bool) (sessions : List CheckoutSession)
        → find test sessions ≡ none
        → All (λ t. test t ≡ false) sessions
    none_passes test [] h = tt
    none_passes test (s ∷ rest) h = elim (Bool-cases (test s)) [
      | inl here ↦ cc (rw here at h)
      | inr later ↦ (later, none_passes test rest (rw later at h))
    ]

    -- The first session that passes, and the others.
    first_apart :
        (test : CheckoutSession → Bool) (sessions : List CheckoutSession) (s : CheckoutSession)
        → find test sessions ≡ some s
        → (before : List CheckoutSession) × (after : List CheckoutSession) × (sessions
            ≡ before ++ s ∷ after)
          × All (λ t. test t ≡ false) before
          × (test s ≡ true)
          × (all_but_first test sessions ≡ before ++ after)
    unfolding all_but_first
    first_apart test [] s h = cc
    first_apart test (t ∷ rest) s h = elim (Bool-cases (test t)) [
      | inl here ↦
          let same : t ≡ s = cc (rw here at h) in
          ([], rest, ap (λ x. x ∷ rest) same, tt, rw (sym same) here, rw here refl)
      | inr later ↦
          let (before, after, e, fail, pass, others) = first_apart test rest s (rw later at h) in
          (
            t ∷ before,
            after,
            ap (λ l. t ∷ l) e,
            (later, fail),
            pass,
            rw later (ap (λ l. t ∷ l) others),
          )
    ]

    -- When the price and the coupon are known and checkout returns an address, exactly the first open
    -- session of the member for this price and coupon stays open, and its address is returned; if there
    -- is none, all the open ones are ended and one new session is asked for, under the key of the member,
    -- the customer and the number of the member's sessions. Nothing else is sent.
    pub settle_checkout-Settled :
        (member member' : Member) (customer url : String) (sessions : List CheckoutSession)
        (price : Price) (coupon : Option Coupon) (w w' : World)
        → settle_checkout p fuel lower member customer sessions (price, coupon) w
          ≡ (ok (url, member'), w')
        → Settled member customer url sessions price coupon w.sent w'.sent
    unfolding settle_checkout pure
    settle_checkout-Settled member member' customer url sessions price coupon w w' h =
        let test = is_reusable price.id (coupon_id_of coupon) in
        let pending = keep is_open sessions in
        let (done, w₁, e, k) =
          >>=-eq-ok (expire_all p fuel lower (all_but_first test pending)) _ w h in
        answered w₁ (expire_all-sent _ w w₁ e) (find test pending) refl k
      where
        answered :
            (w₁ : World)
            → w₁.sent
              ≡ w.sent
                ++ map expire_request (
                    all_but_first
                      (is_reusable price.id (coupon_id_of coupon))
                      (keep is_open sessions))
            → (found : Option CheckoutSession)
            → find (is_reusable price.id (coupon_id_of coupon)) (keep is_open sessions) ≡ found
            → answer_checkout p fuel lower member customer sessions price coupon found w₁
              ≡ (ok (url, member'), w')
            → Settled member customer url sessions price coupon w.sent w'.sent
        answered w₁ sent (some s) found k =
            let (before, after, split, fail, pass, others) = first_apart _ _ s found in
            reused before after s split fail pass
              (sym (ap (λ (r : String × Member). r.0) (returned k)))
              (ap (λ (r : Result (String × Member) × World). r.1.sent) (sym k)
                ∙ sent
                ∙ ap (λ l. w.sent ++ map expire_request l) others)
        answered w₁ sent none found k =
            let (text, w₂, e, last) =
              >>=-eq-ok (post p fuel lower "/checkout/sessions" _ _ "url") _ w₁ k in
            opened (none_passes _ _ found) (
              ap (λ (r : Result (String × Member) × World). r.1.sent) (sym last)
              ∙ post-sent _ _ _ _ w₁ w₂ text e
              ∙ ap (λ l. l ++ session_request member customer sessions price coupon ∷ [])
                  (sent
                    ∙ ap (λ l. w.sent ++ map expire_request l)
                        (all_but_first-none _ (keep is_open sessions) found)))
