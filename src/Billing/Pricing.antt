-- ===== src/Billing/Pricing.antt =====
-- `membershipPrice` and `resolvePricing` of site/src/billing.ts.
pub mod Intervals
use mathlib.Core.Option
use thelab_ms.Base.{
  ℕ, ◌+◌, String, Bool, true, false, ◌&&◌, ◌||◌, Option, none, some, List, [], ◌∷◌, ◌==◌, string_eq,
  nat_eq, option_eq, if◌then◌else◌, any, find, ltb,
}
use thelab_ms.Rows.{Member, Discount, standard, discount_text}
use thelab_ms.Json.{Json, str, bool, arr, prop, as_string, as_num, items}
use thelab_ms.Prices.{Price, CachedPrice, PriceCache, cached_price, store_price}
use thelab_ms.App.{http_error, Result, ok, Platform, World, App, pure, throw, ◌>>=◌, ◌>>◌}
use thelab_ms.Clients.{decode_all, stripe_list}
use thelab_ms.Session.{split}
use thelab_ms.Forms.{trim}

-- `discount_types` is metadata?.discountTypes || '', `products` is applies_to?.products.
pub record Coupon : Type 0 where
  pub id : String
  pub valid : Bool
  pub discount_types : String
  pub products : Option (List String)

abbrev pub text_or_empty : Option String → String
text_or_empty none = ""
text_or_empty (some s) = s

-- object?.name
abbrev pub inside : String → Option Json → Option Json
inside name none = none
inside name (some value) = prop name value

abbrev product_id : Option Json → Option String
product_id (some (str id)) = some id
product_id value = as_string (inside "id" value)

abbrev recurrence : Option Json → Option (String × ℕ)
recurrence value = elim (as_string (inside "interval" value)) [
  | none ↦ none
  | some interval ↦ Option.map (λ count. (interval, count)) (as_num (inside "interval_count" value))
]

abbrev price_of : Json → Option String → Option String → Option String → Option Price
price_of value (some id) (some price_type) (some product) = some (record {
  id = id;
  price_type = price_type;
  product = product;
  recurring = recurrence (prop "recurring" value);
})
price_of value _ _ _ = none

unfoldable pub decode_price : Json → Option Price
decode_price value =
    price_of value (as_string (prop "id" value)) (as_string (prop "type" value))
      (product_id (prop "product" value))

abbrev is_true : Option Json → Bool
is_true (some (bool b)) = b
is_true _ = false

abbrev texts_of : Option Json → Option (List String)
texts_of (some (arr xs)) = decode_all (λ x. as_string (some x)) (items xs)
texts_of _ = none

unfoldable pub decode_coupon : Json → Option Coupon
decode_coupon value =
    Option.map
      (λ id. record {
        id = id;
        valid = is_true (prop "valid" value);
        discount_types = text_or_empty (as_string (inside "discountTypes" (prop "metadata" value)));
        products = texts_of (inside "products" (prop "applies_to" value));
      })
      (as_string (prop "id" value))

-- annual ? 'year' : 'month'
abbrev pub interval_of : Bool → String
interval_of annual = if annual then "year" else "month"

-- item.type === 'recurring' && item.recurring?.interval === interval && interval_count === 1
unfoldable pub is_membership_price : String → Price → Bool
is_membership_price interval price = price.price_type == "recurring" && (elim price.recurring [
  | none ↦ false
  | some (every, count) ↦ every == interval && count == 1
])

-- item.valid, for this discount and product
unfoldable pub applies : (String → String) → String → String → Coupon → Bool
applies lower discount product coupon =
    coupon.valid
    && (any (λ value. lower (trim value) == discount) (split 44 coupon.discount_types)
        && (elim coupon.products [
          | none ↦ true
          | some products ↦ any (λ id. id == product) products
        ]))

module _ (p : Platform) where
  -- cached && cached.expires > Date.now()
  abbrev pub fresh_price : ℕ → Option CachedPrice → Option Price
  fresh_price time none = none
  fresh_price time (some entry) = if ltb time entry.expires then some entry.price else none

  unfoldable pub read_cache : String → App (Option Price)
  read_cache interval w = (ok (fresh_price (p.clock w.step) (cached_price interval w.prices)), w)

  unfoldable pub remember : String → Option Price → App (Option Price)
  remember interval none w = (ok none, w)
  remember interval (some price) w = (
    ok (some price),
    record w {
      prices =
          store_price interval (record { price = price; expires = p.clock w.step + 300000 })
            w.prices;
    },
  )

-- `fuel` bounds the pages of Stripe's lists; `lower` is toLowerCase.
module _ (p : Platform) (fuel : ℕ) (lower : String → String) where
  abbrev pub look_up : Bool → Option Price → App (Option Price)
  look_up annual (some price) = pure (some price)
  look_up annual none = do
    found ←
        stripe_list p decode_price (λ price. price.id) fuel "/prices"
          (("active", "true") ∷ ("lookup_keys[]", if annual then "yearly" else "monthly") ∷ [])
    remember p (interval_of annual) (find (is_membership_price (interval_of annual)) found)

  unfoldable pub membership_price : Bool → App (Option Price)
  membership_price annual = do cached ← read_cache p (interval_of annual); look_up annual cached

  abbrev pub with_coupon : Price → Option Coupon → App (Price × Option Coupon)
  with_coupon price none =
      throw
        (http_error 503 "We couldn’t apply your discount. Please contact leadership before paying.")
  with_coupon price (some coupon) = pure (price, some coupon)

  abbrev pub discounted : Member → Option Price → App (Price × Option Coupon)
  discounted member none =
      throw (
        http_error 503 "Membership checkout is temporarily unavailable. Please contact leadership.")
  discounted member (some price) =
      let discount = lower (discount_text member.discount_type) in
      if discount_text member.discount_type == "" then pure (price, none) else do
        coupons ← stripe_list p decode_coupon (λ coupon. coupon.id) fuel "/coupons" []
        with_coupon price (find (applies lower discount price.product) coupons)

  unfoldable pub resolve_pricing : Member → App (Price × Option Coupon)
  resolve_pricing member = do price ← membership_price member.bill_annually; discounted member price
